-- ===== src/Types.antt =====
-- The types of TypeScript that the interfaces of both clients use, and when a value has one:
-- `string`, `number`, `boolean`, `Date`, `object`, `Array<T>`, `{ [key: string]: T; }` and an
-- interface, whose members are required or optional.
pub mod Decoding
use pipeline_operator.Prelude.{
  String, Bool, true, false, ◌&&◌, ◌||◌, Option, none, some, str_eq, if◌then◌else◌,
}
use pipeline_operator.Value.{
  Value, invalid_date, boolean, number, string, date, array, object, Items, nil, cons, Fields, end,
  field, is_undefined, get,
}

infixr 50 ◌⊕◌
mutual
  pub data Shape : Type 0 where
    string_type number_type boolean_type date_type object_type : Shape
    array_of record_of : Shape → Shape
    interface : Members → Shape

  -- `name: type;` and `name?: type;`
  pub data Member : Type 0 where
    must may : String → Shape → Member

  pub data Members : Type 0 where
    done : Members
    ◌⊕◌ : Member → Members → Members

abbrev pub name_of : Member → String
name_of (must key s) = key
name_of (may key s) = key

abbrev pub is_string : Value → Bool
is_string (string s) = true
is_string _ = false

abbrev pub is_number : Value → Bool
is_number (number n) = true
is_number _ = false

abbrev pub is_boolean : Value → Bool
is_boolean (boolean b) = true
is_boolean _ = false

-- `new Date` of a text that is no date is a `Date` too.
abbrev pub is_date : Value → Bool
is_date (date iso) = true
is_date invalid_date = true
is_date _ = false

abbrev pub is_object : Value → Bool
is_object (object fs) = true
is_object _ = false

-- The type `object` is that of everything but the scalars.
abbrev pub is_any_object : Value → Bool
is_any_object (object fs) = true
is_any_object (array vs) = true
is_any_object v = is_date v

abbrev pub all_items : (Value → Bool) → Items → Bool
all_items f nil = true
all_items f (cons v vs) = f v && all_items f vs

abbrev pub all_fields : (Value → Bool) → Fields → Bool
all_fields f end = true
all_fields f (field k v fs) = f v && all_fields f fs

abbrev pub is_array_of : (Value → Bool) → Value → Bool
is_array_of f (array vs) = all_items f vs
is_array_of f _ = false

abbrev pub is_record_of : (Value → Bool) → Value → Bool
is_record_of f (object fs) = all_fields f fs
is_record_of f _ = false

-- Whether a value has a type. A member that is not there is `undefined`.
unfoldable mutual
  pub conforms : Shape → Value → Bool
  conforms string_type v = is_string v
  conforms number_type v = is_number v
  conforms boolean_type v = is_boolean v
  conforms date_type v = is_date v
  conforms object_type v = is_any_object v
  conforms (array_of s) v = is_array_of (conforms s) v
  conforms (record_of s) v = is_record_of (conforms s) v
  conforms (interface ms) v = is_object v && has_members ms v

  pub has_members : Members → Value → Bool
  has_members done v = true
  has_members (m ⊕ ms) v = holds m (get v (name_of m)) && has_members ms v

  -- Whether a value may be that of a member.
  pub holds : Member → Value → Bool
  holds (must key s) v = conforms s v
  holds (may key s) v = is_undefined v || conforms s v

-- The member of a name, with the first of its declarations.
abbrev pub find_member : String → Members → Option Member
find_member key done = none
find_member key (m ⊕ ms) = if str_eq (name_of m) key then some m else find_member key ms
