-- ===== src/Axios/Requests.antt =====
-- Requests of the axios client: the helpers of generated/sdk/ts-axios/common.ts, and the 33 functions
-- of `Pipeline1eedaegonGithubIoV1ApiAxiosParamCreator` in generated/sdk/ts-axios/api.ts. They have one
-- text but for the parameters, the path, the method and the content type, which are the fields of
-- `Operation`; the children hold the operations.
pub mod Laws
pub mod Options
pub mod Bodies
use pipeline_operator.Prelude.{
  String, Bool, true, false, not, ◌&&◌, ◌||◌, Option, none, some, List, [], ◌∷◌, ◌<>◌, codes,
  is_blank, str_eq, if◌then◌else◌,
}
use mathlib.Core.Option.{get_or}
use pipeline_operator.Value.{
  Value, undefined, null, boolean, number, string, object, Items, nil, cons, Fields, end, field,
  is_nullish, is_undefined, get_field, get,
}
use pipeline_operator.Types.{is_string}
use pipeline_operator.Errors.{Thrown, Result, ok, throw, error_object, required_error}
use pipeline_operator.Exec.{Exec, pure, raise, ◌>>=◌}
use pipeline_operator.Regex.{test}
use pipeline_operator.Runtime.Types.{Secret}
use pipeline_operator.Runtime.Configuration.{secret_function}
use pipeline_operator.Client.{replace, lift}
use pipeline_operator.Axios.Mime as AxiosMime
use pipeline_operator.Axios.Mime.{json_mime}
use pipeline_operator.Axios.Params.{Entries, set_search_params}
use pipeline_operator.Axios.Objects.{set_field, spread, members}

-- The members of `Configuration` that requests read. An option that holds a function is a value that
-- no code here looks into.
pub record AxiosConfiguration (W : Type 0) : Type 0 where
  pub api_key : Option (Secret W String)
  pub base_path : Option String
  pub base_options : Value

-- The platform: `encodeURIComponent`, `String(value)`, `JSON.stringify`, and of `new URL(path, base)`
-- the path, the entries of the query and the fragment, with `URLSearchParams.toString` behind a `?`
-- where it is not empty.
pub record AxiosPlatform : Type 0 where
  pub encode_uri_component : String → String
  pub string_of : Value → String
  pub json_stringify : Value → String
  pub pathname : String → String
  pub search_entries : String → Entries
  pub search : Entries → String
  pub hash : String → String

pub record RequestArgs : Type 0 where
  pub url : String
  pub options : Fields

-- A function of the parameter creator. A query parameter is a parameter and the key it is sent under;
-- with a content type the body is sent too.
pub record Operation : Type 0 where
  pub function : String
  pub required : List String
  pub path : String
  pub replaced : List String
  pub method : String
  pub query : List (String × String)
  pub content_type : Option String

-- assertParamExists
unfoldable pub assert_param_exists : String → String → Value → Result (Unit {0})
assert_param_exists function name value =
    if is_nullish value
    then throw (
        required_error name (
          "Required parameter " <> name <> " was null or undefined when calling " <> function
          <> "."))
    else ok tt

unfoldable pub assert_params : String → List String → Value → Result (Unit {0})
unfolding assert_param_exists
assert_params function [] args = ok tt
assert_params function (name ∷ names) args =
    let rest = assert_params function names args in
    elim (assert_param_exists function name (get args name)) [ ok _ ↦ rest | throw e ↦ throw e ]

module _ {W : Type 0} where
  -- setApiKeyToObject
  unfoldable pub set_api_key_to_object :
      Fields → String → Option (AxiosConfiguration W) → Exec W Fields
  unfolding secret_function
  set_api_key_to_object target key none = pure target
  set_api_key_to_object target key (some configuration) =
      elim (secret_function configuration.api_key) [
        | none ↦ pure target
        | some f ↦ (do value ← f key; pure (set_field key (string value) target))
      ]

  abbrev pub base_options_of : Option (AxiosConfiguration W) → Value
  base_options_of none = undefined
  base_options_of (some configuration) = configuration.base_options

-- baseOptions && baseOptions.headers ? baseOptions.headers : {}
abbrev pub headers_from_base_options : Value → Fields
headers_from_base_options base = members (get base "headers")

-- if (value !== undefined) { localVarQueryParameter[key] = value }, for each query parameter
unfoldable pub query_object : List (String × String) → Value → Fields → Fields
query_object [] args target = target
query_object ((name, key) ∷ rest) args target =
    query_object rest args
      (if is_undefined (get args name) then target else set_field key (get args name) target)

-- value || ""
abbrev pub or_empty : Value → Value
or_empty undefined = string ""
or_empty null = string ""
or_empty (boolean false) = string ""
or_empty (number n) =
    if str_eq n "0" || str_eq n "-0" || str_eq n "NaN" then string "" else number n
or_empty value = value

-- The header parameters with those of the base options and of the options.
abbrev pub request_headers : Fields → Value → Fields → Fields
request_headers own base options =
    spread (spread own (headers_from_base_options base)) (members (get_field options "headers"))

abbrev pub with_content_type : Option String → Fields → Fields
with_content_type none headers = headers
with_content_type (some kind) headers = set_field "Content-Type" (string kind) headers

-- The options with the headers and with the data, if these could be serialised.
abbrev pub add_data : Result Value → Fields → Fields → Result Fields
add_data (throw e) headers options = throw e
add_data (ok v) headers options =
    ok (set_field "data" v (set_field "headers" (object headers) options))

module _ (host : AxiosPlatform) where
  -- `isJsonMime` of a header that may be no text: `test` reads it as a text, and `toLowerCase` of
  -- anything else than a text is a `TypeError`.
  unfoldable pub is_json_header : Value → Result Bool
  is_json_header null = ok false
  is_json_header (string mime) = ok (AxiosMime.is_json_mime (some mime))
  is_json_header value =
      if test json_mime (codes (host.string_of value))
      then ok true
      else throw (error_object "TypeError")

  abbrev pub serialized : Value → Value
  serialized undefined = string (host.json_stringify (object end))
  serialized value = string (host.json_stringify value)

  -- serializeDataIfNeeded; the flag says whether there is a configuration
  unfoldable pub serialize_data_if_needed : Value → Fields → Bool → Result Value
  unfolding is_json_header
  serialize_data_if_needed value headers configured =
      if is_string value
      then ok (or_empty value)
      else if configured
      then elim (is_json_header (get_field headers "Content-Type")) [
        | throw e ↦ throw e
        | ok json ↦ ok (if json then serialized value else or_empty value)
      ]
      else ok (serialized value)

  -- .replace(`{name}`, encodeURIComponent(String(name))), for each parameter of the path
  unfoldable pub fill_path : List String → Value → String → String
  fill_path [] args path = path
  fill_path (name ∷ names) args path = fill_path names args (
      replace ("{" <> (name <> "}")) (host.encode_uri_component (host.string_of (get args name)))
        path)

  -- setSearchParams and toPathString, on the URL of a path
  unfoldable pub path_string : String → Fields → String
  path_string path query =
      host.pathname path
      <> (host.search (set_search_params (host.search_entries path) (cons (object query) nil))
          <> host.hash path)

  module _ {W : Type 0} (configuration : Option (AxiosConfiguration W)) where
    abbrev pub is_configured : Bool
    is_configured = elim configuration [ none ↦ false | some c ↦ true ]

    -- The last statements: the options with the headers and, where a body is sent, its data.
    unfoldable pub with_data : Option String → Value → Fields → Fields → Result Fields
    unfolding serialize_data_if_needed
    with_data none body headers options = ok (set_field "headers" (object headers) options)
    with_data (some kind) body headers options =
        add_data (serialize_data_if_needed body headers is_configured) headers options

    -- A function of the parameter creator, at its arguments as an object and its options.
    unfoldable pub create_args : Operation → Value → Fields → Exec W RequestArgs
    unfolding assert_params set_api_key_to_object query_object fill_path path_string with_data
    create_args op args options = do
      _ ← lift (assert_params op.function op.required args)
      headers ← set_api_key_to_object end "authorization" configuration
      let base = base_options_of configuration
      let merged = request_headers (with_content_type op.content_type headers) base options
      let start = spread (spread (field "method" (string op.method) end) (members base)) options
      finished ← lift (with_data op.content_type (get args "body") merged start)
      pure (record {
        url = path_string (fill_path op.replaced args op.path) (query_object op.query args end);
        options = finished;
      })
