-- ===== src/Axios/Params.antt =====
-- `setFlattenedQueryParams` and `setSearchParams` of generated/sdk/ts-axios/common.ts. The entries of
-- a `URLSearchParams` are a list; its parsing and its `toString` are left to the platform. A date is
-- an object without keys.
use pipeline_operator.Prelude.{
  String, ◌≡◌, refl, sym, ap, ◌∙◌, inl, inr, Bool, true, false, List, [], ◌∷◌, ◌++◌, str_eq,
  is_blank, ◌<>◌, Bool-cases, arith, if◌then◌else◌,
}
use mathlib.Core.List.{append-nil, append_assoc}
use pipeline_operator.Value.{
  Value, undefined, null, invalid_date, boolean, number, string, date, array, object, Items, nil,
  cons, Fields, end, field,
}

abbrev pub Entries : Type 0
Entries = List (String × String)

-- URLSearchParams.has
abbrev pub has_key : String → Entries → Bool
has_key key [] = false
has_key key ((k, v) ∷ entries) = if str_eq k key then true else has_key key entries

abbrev remove : String → Entries → Entries
remove key [] = []
remove key ((k, v) ∷ entries) =
    let rest = remove key entries in if str_eq k key then rest else (k, v) ∷ rest

-- URLSearchParams.set
abbrev pub set_entry : String → String → Entries → Entries
set_entry key value [] = (key, value) ∷ []
set_entry key value ((k, v) ∷ entries) =
    let rest = set_entry key value entries in
    if str_eq k key then (k, value) ∷ remove key entries else (k, v) ∷ rest

-- The last branch: `append` where the key is there, `set` where it is not.
abbrev pub put : String → String → Entries → Entries
put key value entries =
    if has_key key entries then entries ++ (key, value) ∷ [] else set_entry key value entries

-- `${key}${key !== '' ? '.' : ''}${currentKey}`
abbrev pub dotted : String → String → String
dotted key current = key <> ((if is_blank key then "" else ".") <> current)

abbrev pub boolean_text : Bool → String
boolean_text true = "true"
boolean_text false = "false"

unfoldable mutual
  pub set_flattened : Entries → Value → String → Entries
  set_flattened entries undefined key = entries
  set_flattened entries null key = entries
  set_flattened entries invalid_date key = entries
  set_flattened entries (date iso) key = entries
  set_flattened entries (boolean b) key = put key (boolean_text b) entries
  set_flattened entries (number n) key = put key n entries
  set_flattened entries (string s) key = put key s entries
  set_flattened entries (array items) key = set_items entries items key
  set_flattened entries (object fields) key = set_fields entries fields key

  pub set_items : Entries → Items → String → Entries
  set_items entries nil key = entries
  set_items entries (cons v vs) key = set_items (set_flattened entries v key) vs key

  pub set_fields : Entries → Fields → String → Entries
  set_fields entries end key = entries
  set_fields entries (field k v fs) key = set_fields (set_flattened entries v (dotted key k)) fs key

-- setSearchParams, from the entries of the URL
unfoldable pub set_search_params : Entries → Items → Entries
unfolding set_flattened
set_search_params entries objects = set_flattened entries (array objects) ""

-- The leaves of a value, each with the dotted path to it; the items of an array have its path.
unfoldable mutual
  pub leaves : Value → String → Entries
  leaves (boolean b) key = (key, boolean_text b) ∷ []
  leaves (number n) key = (key, n) ∷ []
  leaves (string s) key = (key, s) ∷ []
  leaves (array items) key = item_leaves items key
  leaves (object fields) key = field_leaves fields key
  leaves _ key = []

  pub item_leaves : Items → String → Entries
  item_leaves nil key = []
  item_leaves (cons v vs) key = leaves v key ++ item_leaves vs key

  pub field_leaves : Fields → String → Entries
  field_leaves end key = []
  field_leaves (field k v fs) key = leaves v (dotted key k) ++ field_leaves fs key

set_entry-fresh :
    (key value : String) (entries : Entries)
    → has_key key entries ≡ false
    → set_entry key value entries ≡ entries ++ (key, value) ∷ []
set_entry-fresh key value [] h = refl
set_entry-fresh key value ((k, v) ∷ entries) h = elim (Bool-cases (str_eq k key)) [
  | inl same ↦ absurd (let clash : true ≡ false = rw same at h in ground arith)
  | inr other ↦ rw other (ap (λ r. (k, v) ∷ r) (set_entry-fresh key value entries (rw other at h)))
]

put-append :
    (key value : String) (entries : Entries) → put key value entries ≡ entries ++ (key, value) ∷ []
put-append key value entries = elim (Bool-cases (has_key key entries)) [
  | inl there ↦ rw there
  | inr fresh ↦ rw fresh (set_entry-fresh key value entries fresh)
]

mutual
  unfolding set_flattened leaves

  flattened-leaves :
      (entries : Entries) (v : Value) (key : String)
      → set_flattened entries v key ≡ entries ++ leaves v key
  flattened-leaves entries undefined key = sym (append-nil entries)
  flattened-leaves entries null key = sym (append-nil entries)
  flattened-leaves entries invalid_date key = sym (append-nil entries)
  flattened-leaves entries (date iso) key = sym (append-nil entries)
  flattened-leaves entries (boolean b) key = put-append key (boolean_text b) entries
  flattened-leaves entries (number n) key = put-append key n entries
  flattened-leaves entries (string s) key = put-append key s entries
  flattened-leaves entries (array items) key = items-leaves entries items key
  flattened-leaves entries (object fields) key = fields-leaves entries fields key

  items-leaves :
      (entries : Entries) (vs : Items) (key : String)
      → set_items entries vs key ≡ entries ++ item_leaves vs key
  items-leaves entries nil key = sym (append-nil entries)
  items-leaves entries (cons v vs) key =
      items-leaves (set_flattened entries v key) vs key
      ∙ ap (λ es. es ++ item_leaves vs key) (flattened-leaves entries v key)
      ∙ append_assoc entries (leaves v key) (item_leaves vs key)

  fields-leaves :
      (entries : Entries) (fs : Fields) (key : String)
      → set_fields entries fs key ≡ entries ++ field_leaves fs key
  fields-leaves entries end key = sym (append-nil entries)
  fields-leaves entries (field k v fs) key =
      fields-leaves (set_flattened entries v (dotted key k)) fs key
      ∙ ap (λ es. es ++ field_leaves fs key) (flattened-leaves entries v (dotted key k))
      ∙ append_assoc entries (leaves v (dotted key k)) (field_leaves fs key)

-- The leaves of the query objects, with the dotted paths to them, are added behind the entries that
-- the URL has: none is replaced, and `null`, `undefined` and dates add nothing.
pub set_search_params-leaves :
    (entries : Entries) (objects : Items)
    → set_search_params entries objects ≡ entries ++ item_leaves objects ""
unfolding set_search_params set_flattened
set_search_params-leaves entries objects = items-leaves entries objects ""
