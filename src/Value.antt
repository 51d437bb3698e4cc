-- ===== src/Value.antt =====
-- The values of JavaScript that the clients handle: what JSON holds, and `undefined` and dates.
-- A number is given by its text, a valid `Date` by its ISO text. The fields of an object stand in
-- the order of `Object.keys`.
use pipeline_operator.Prelude.{
  String, Bool, true, false, ◌&&◌, List, [], ◌∷◌, str_eq, if◌then◌else◌,
}

mutual
  pub data Value : Type 0 where
    undefined null invalid_date : Value
    boolean : Bool → Value
    number string date : String → Value
    array : Items → Value
    object : Fields → Value

  pub data Items : Type 0 where
    nil : Items
    cons : Value → Items → Items

  pub data Fields : Type 0 where
    end : Fields
    field : String → Value → Fields → Fields

-- value == null
abbrev pub is_nullish : Value → Bool
is_nullish undefined = true
is_nullish null = true
is_nullish _ = false

abbrev pub is_undefined : Value → Bool
is_undefined undefined = true
is_undefined _ = false

abbrev pub get_field : Fields → String → Value
get_field end key = undefined
get_field (field k v fs) key = if str_eq k key then v else get_field fs key

-- value[key]; only objects hold the keys that the clients read
abbrev pub get : Value → String → Value
get (object fs) key = get_field fs key
get _ key = undefined

abbrev pub keys : Fields → List String
keys end = []
keys (field k v fs) = k ∷ keys fs

-- Whether no `Invalid Date` occurs in a value.
unfoldable mutual
  pub dates_valid : Value → Bool
  dates_valid invalid_date = false
  dates_valid (array items) = items_valid items
  dates_valid (object fields) = fields_valid fields
  dates_valid _ = true

  pub items_valid : Items → Bool
  items_valid nil = true
  items_valid (cons v vs) = dates_valid v && items_valid vs

  pub fields_valid : Fields → Bool
  fields_valid end = true
  fields_valid (field k v fs) = dates_valid v && fields_valid fs
