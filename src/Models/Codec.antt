-- ===== src/Models/Codec.antt =====
-- How the models of generated/sdk/ts-fetch/models read and write JSON. Each file has the same four
-- functions over its own table of properties, and the table is the model here:
-- `instanceOf…` is `instance_of`, `…FromJSON` and `…FromJSONTyped` (which ignores its second
-- argument) are `from_json`, and `…ToJSON` is `to_json`. A property is read and written in one of
-- seven ways, the seven definitions below. `new Date` is a parameter that gives the ISO text of a
-- valid date.
pub mod Kinds
pub mod Laws
pub mod Roundtrip
use pipeline_operator.Prelude.{
  String, Bool, true, false, not, ◌&&◌, ◌||◌, Option, none, some, List, [], ◌∷◌, map, str_eq,
  if◌then◌else◌,
}
use pipeline_operator.Value.{
  Value, undefined, null, invalid_date, boolean, number, string, date, array, object, Items, nil,
  cons, Fields, end, field, is_nullish, is_undefined, get,
}
use pipeline_operator.Errors.{Result, ok, throw, error_object, ◌>>=◌}

-- One line of the object literals in `…FromJSONTyped` and `…ToJSON`.
pub record Property : Type 0 where
  pub key : String
  pub json_key : String
  pub required : Bool
  pub decode : Value → Result Value
  pub encode : Value → Result Value

abbrev pub Model : Type 0
Model = List Property

unfoldable pub read_fields : Model → Value → Result Fields
read_fields [] json = ok end
read_fields (p ∷ ps) json = do
  v ← p.decode (get json p.json_key)
  rest ← read_fields ps json
  ok (field p.key v rest)

unfoldable pub write_fields : Model → Value → Result Fields
write_fields [] value = ok end
write_fields (p ∷ ps) value = do
  v ← p.encode (get value p.key)
  rest ← write_fields ps value
  ok (field p.json_key v rest)

abbrev pub to_object : Result Fields → Result Value
to_object (ok fs) = ok (object fs)
to_object (throw e) = throw e

-- …FromJSON, …FromJSONTyped
unfoldable pub from_json : Model → Value → Result Value
from_json m json = if is_nullish json then ok json else to_object (read_fields m json)

-- …ToJSON
unfoldable pub to_json : Model → Value → Result Value
to_json m value = if is_nullish value then ok value else to_object (write_fields m value)

-- instanceOf…
unfoldable pub instance_of : Model → Value → Bool
instance_of [] value = true
instance_of (p ∷ ps) value =
    (not p.required || not (is_undefined (get value p.key))) && instance_of ps value

-- A method of `undefined`, or of a value that does not have it.
abbrev pub type_error : Result Value
type_error = throw (error_object "TypeError")

unfoldable pub map_items : (Value → Result Value) → Items → Result Items
map_items f nil = ok nil
map_items f (cons v vs) = do w ← f v; ws ← map_items f vs; ok (cons w ws)

abbrev pub to_array : Result Items → Result Value
to_array (ok vs) = ok (array vs)
to_array (throw e) = throw e

-- (v as Array<any>).map(f)
unfoldable pub map_array : (Value → Result Value) → Value → Result Value
map_array f (array vs) = to_array (map_items f vs)
map_array f _ = type_error

-- v == null ? undefined : f(v)
unfoldable pub unless_nullish : (Value → Result Value) → Value → Result Value
unless_nullish f v = if is_nullish v then ok undefined else f v

-- (v).toISOString()
unfoldable pub to_iso : Value → Result Value
to_iso (date iso) = ok (string iso)
to_iso invalid_date = throw (error_object "RangeError: Invalid time value")
to_iso _ = type_error

abbrev pub of_parsed : Option String → Value
of_parsed none = invalid_date
of_parsed (some iso) = date iso
