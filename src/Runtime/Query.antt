-- ===== src/Runtime/Query.antt =====
-- `querystring` of generated/sdk/ts-fetch/runtime.ts. `HTTPQuery` is a data type with one
-- constructor for each test that `querystringSingleKey` makes; its entries stand in the order of
-- `Object.keys`. A `Set` is the list of its elements, and a `Date` its ISO text: the API passes
-- only valid dates. `encodeURIComponent` is a parameter.
pub mod Flat
use pipeline_operator.Prelude.{
  String, List, [], ◌∷◌, map, Bool, true, false, ◌<>◌, is_blank, join, non_blank, if◌then◌else◌,
}

-- string | number | null | undefined | boolean; a number is given by its text.
pub data Scalar : Type 0 where
  text number : String → Scalar
  boolean : Bool → Scalar
  null undefined : Scalar

mutual
  pub data QueryValue : Type 0 where
    scalar : Scalar → QueryValue
    array set : List Scalar → QueryValue
    date : String → QueryValue
    nested : HttpQuery → QueryValue

  pub data HttpQuery : Type 0 where
    end : HttpQuery
    entry : String → QueryValue → HttpQuery → HttpQuery

-- String(value)
abbrev pub to_text : Scalar → String
to_text (text s) = s
to_text (number s) = s
to_text (boolean true) = "true"
to_text (boolean false) = "false"
to_text null = "null"
to_text undefined = "undefined"

-- keyPrefix + (keyPrefix.length ? `[${key}]` : key)
abbrev pub full_key : String → String → String
full_key prefix key = prefix <> (if is_blank prefix then key else "[" <> key <> "]")

module _ (encode : String → String) where
  abbrev pub encode_all : List Scalar → List String
  encode_all = map (λ v. encode (to_text v))

  -- The `Array` branch of `querystringSingleKey`, to which the `Set` branch leads back.
  abbrev pub array_text : String → List Scalar → String
  array_text key values = encode key <> "=" <> join ("&" <> encode key <> "=") (encode_all values)

  unfoldable mutual
    -- Here the key is already joined to its prefix.
    pub querystring_single_key : QueryValue → String → String
    querystring_single_key (array values) key = array_text key values
    querystring_single_key (set values) key = array_text key values
    querystring_single_key (date iso) key = encode key <> "=" <> encode iso
    querystring_single_key (nested params) key = join "&" (non_blank (query_parts params key))
    querystring_single_key (scalar value) key = encode key <> "=" <> encode (to_text value)

    -- Object.keys(params).map(key => querystringSingleKey(key, params[key], prefix))
    pub query_parts : HttpQuery → String → List String
    query_parts end prefix = []
    query_parts (entry key value params) prefix =
        querystring_single_key value (full_key prefix key) ∷ query_parts params prefix

  unfoldable pub querystring : HttpQuery → String → String
  unfolding querystring_single_key
  querystring params prefix = join "&" (non_blank (query_parts params prefix))
