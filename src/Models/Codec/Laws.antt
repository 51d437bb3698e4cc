-- ===== src/Models/Codec/Laws.antt =====
-- When a property can be read back after it was written: the law of a property, and that each of
-- the seven kinds has it.
use pipeline_operator.Prelude.{
  String, ◌≡◌, refl, sym, inl, inr, true, false, ◌&&◌, Option, some, arith, Bool-cases,
  Option-cases,
}
use mathlib.Core.Path.{subst}
use mathlib.Core.Bool.{and-eq-true_iff}
use pipeline_operator.Value.{
  Value, undefined, string, date, array, Items, nil, cons, Fields, is_nullish, dates_valid,
  items_valid,
}
use pipeline_operator.Errors.{Result, ok, throw, >>=-eq-ok}
use pipeline_operator.Models.Codec.Kinds.{
  plain, plain?, model?, models, models?, new_date, instant, instant?,
}
use pipeline_operator.Models.Codec.{
  Property, Model, read_fields, write_fields, from_json, to_json, map_items, map_array,
  unless_nullish, to_iso, to_object, to_array,
}

-- What was decoded and has no invalid date is encoded without an error, to a value that decodes to
-- the same.
abbrev pub Inverts : (Value → Result Value) → (Value → Result Value) → Type 0
Inverts decode encode =
    (v w : Value)
    → decode v ≡ ok w
    → dates_valid w ≡ true
    → (u : Value) × (encode w ≡ ok u) × (decode u ≡ ok w)

-- `null` and `undefined` are passed on, and nothing else becomes one of them.
abbrev pub KeepsNullish : (Value → Result Value) → Type 0
KeepsNullish f =
    ((v : Value) → is_nullish v ≡ true → f v ≡ ok v)
    × ((v w : Value) → is_nullish v ≡ false → f v ≡ ok w → is_nullish w ≡ false)

to_object-eq-ok : (r : Result Fields) (w : Value) → to_object r ≡ ok w → is_nullish w ≡ false
to_object-eq-ok (ok fs) w h = ground arith
to_object-eq-ok (throw e) w h = cc

pub from_json-KeepsNullish : (m : Model) → KeepsNullish (from_json m)
unfolding from_json
from_json-KeepsNullish m =
    ((λ v h. rw h), (λ v w h e. to_object-eq-ok (read_fields m v) w (rw (h, from_json) at e)))

pub to_json-KeepsNullish : (m : Model) → KeepsNullish (to_json m)
unfolding to_json
to_json-KeepsNullish m =
    ((λ v h. rw h), (λ v w h e. to_object-eq-ok (write_fields m v) w (rw (h, to_json) at e)))

pub plain-Inverts : Inverts ok ok
plain-Inverts v w e h = (w, refl, refl)

pub plain?-Inverts : Inverts (unless_nullish ok) ok
unfolding unless_nullish
plain?-Inverts v w e h = (w, refl, ground arith)

-- A nested model: `encode` is handed the `undefined` of a missing property.
pub nested-Inverts :
    (decode encode : Value → Result Value)
    → KeepsNullish decode
    → KeepsNullish encode
    → Inverts decode encode
    → Inverts (unless_nullish decode) encode
unfolding unless_nullish
nested-Inverts decode encode kd ke inv v w e h = elim (Bool-cases (is_nullish v)) [
  | inl missing ↦
      let gone : ok undefined ≡ ok w = rw (missing, unless_nullish) at e in
      let same : undefined ≡ w = cc in (undefined, rw (← same) (ke.0 undefined refl), rw (← same))
  | inr there ↦
      let e' : decode v ≡ ok w = rw (there, unless_nullish) at e in
      let (u, written, read) = inv v w e' h in
      let filled = ke.1 w u (kd.1 v w there e') written in (u, written, rw filled read)
]

-- A conversion that is skipped both ways when there is nothing to convert.
pub skipped-Inverts :
    (decode encode : Value → Result Value)
    → ((v w : Value) → is_nullish v ≡ false → decode v ≡ ok w → is_nullish w ≡ false)
    → ((v w : Value) → is_nullish v ≡ false → encode v ≡ ok w → is_nullish w ≡ false)
    → Inverts decode encode
    → Inverts (unless_nullish decode) (unless_nullish encode)
unfolding unless_nullish
skipped-Inverts decode encode kd ke inv v w e h = elim (Bool-cases (is_nullish v)) [
  | inl missing ↦
      let gone : ok undefined ≡ ok w = rw (missing, unless_nullish) at e in
      let same : undefined ≡ w = cc in (undefined, rw (← same), rw (← same))
  | inr there ↦
      let e' : decode v ≡ ok w = rw (there, unless_nullish) at e in
      let (u, written, read) = inv v w e' h in
      let kept = kd v w there e' in
      let filled = ke w u kept written in (u, rw kept written, rw filled read)
]

map_cons :
    (decode encode : Value → Result Value) (w : Value) (ws : Items)
    → (u : Value) × (encode w ≡ ok u) × (decode u ≡ ok w)
    → (us : Items) × (map_items encode ws ≡ ok us) × (map_items decode us ≡ ok ws)
    → (us : Items) × (map_items encode (cons w ws) ≡ ok us) × (map_items decode us ≡ ok (cons w ws))
unfolding map_items
map_cons decode encode w ws (u, written, read) (us, writtens, reads) =
    (cons u us, rw (written, writtens), rw (read, reads))

map_items-Inverts :
    (decode encode : Value → Result Value)
    → Inverts decode encode
    → (vs ws : Items) → map_items decode vs ≡ ok ws
    → items_valid ws ≡ true
    → (us : Items) × (map_items encode ws ≡ ok us) × (map_items decode us ≡ ok ws)
unfolding map_items dates_valid
map_items-Inverts decode encode inv nil nil e h = (nil, refl, refl)
map_items-Inverts decode encode inv nil (cons w ws) e h = cc
map_items-Inverts decode encode inv (cons v vs) ws e h =
    let (w, first, e') = >>=-eq-ok (decode v) _ e in
    let (ws', rest, e'') = >>=-eq-ok (map_items decode vs) _ e' in
    let whole : cons w ws' ≡ ws = cc in
    let step = λ (valid : (dates_valid w && items_valid ws') ≡ true).
      let (here, later) = (and-eq-true_iff (dates_valid w) (items_valid ws')).0 valid in
      let one = inv v w first here in
      let many = map_items-Inverts decode encode inv vs ws' rest later in
      map_cons decode encode w ws' one many in
    subst
      (λ z.
        items_valid z ≡ true
        → (us : Items) × (map_items encode z ≡ ok us) × (map_items decode us ≡ ok z))
      whole step h

to_array-eq-ok :
    (r : Result Items) (w : Value) → to_array r ≡ ok w → (ws : Items) × (r ≡ ok ws) × (w ≡ array ws)
to_array-eq-ok (ok ws) w h = (ws, refl, ground arith)
to_array-eq-ok (throw e) w h = cc

map_array-filled :
    (f : Value → Result Value) (v w : Value) → map_array f v ≡ ok w → is_nullish w ≡ false
unfolding map_array
map_array-filled f (array vs) w e =
    let (ws, _, whole) = to_array-eq-ok (map_items f vs) w e in rw whole
map_array-filled f _ w e = cc

map_array-Inverts :
    (decode encode : Value → Result Value)
    → Inverts decode encode
    → Inverts (map_array decode) (map_array encode)
unfolding map_array dates_valid
map_array-Inverts decode encode inv (array vs) w e h =
    let (ws, mapped, whole) = to_array-eq-ok (map_items decode vs) w e in
    let valid : items_valid ws ≡ true = rw whole at h in
    let (us, written, read) = map_items-Inverts decode encode inv vs ws mapped valid in
    subst (λ z. (u : Value) × (map_array encode z ≡ ok u) × (map_array decode u ≡ ok z)) (sym whole)
      (array us, rw written, rw read)
map_array-Inverts decode encode inv _ w e h = cc

-- The ISO text of a date that was parsed parses to the same date.
abbrev pub ReadsOwnText : (Value → Option String) → Type 0
ReadsOwnText parse_date =
    (v : Value) (iso : String) → parse_date v ≡ some iso → parse_date (string iso) ≡ some iso

new_date-Inverts :
    (parse_date : Value → Option String)
    → ReadsOwnText parse_date
    → Inverts (new_date parse_date) to_iso
unfolding to_iso dates_valid
new_date-Inverts parse_date own v w e h = elim (Option-cases (parse_date v)) [
  | inl bad ↦ ground arith
  | inr (iso, good) ↦
      let same : date iso ≡ w = ground arith in
      subst (λ z. (u : Value) × (to_iso z ≡ ok u) × (new_date parse_date u ≡ ok z)) same
        (string iso, refl, rw (own v iso good))
]

new_date-filled :
    (parse_date : Value → Option String) (v w : Value)
    → new_date parse_date v ≡ ok w
    → is_nullish w ≡ false
new_date-filled parse_date v w e = ground arith

to_iso-filled : (v w : Value) → to_iso v ≡ ok w → is_nullish w ≡ false
unfolding to_iso
to_iso-filled (date iso) w e = ground arith
to_iso-filled _ w e = cc

-- The law of a property, and of each of the seven kinds.
abbrev pub IsInvertible : Property → Type 0
IsInvertible p = Inverts p.decode p.encode

pub plain-IsInvertible : (k : String) → IsInvertible (plain k)
plain-IsInvertible k = plain-Inverts

pub plain?-IsInvertible : (k : String) → IsInvertible (plain? k)
plain?-IsInvertible k = plain?-Inverts

module _ (m : Model) (inv : Inverts (from_json m) (to_json m)) where
  pub model?-IsInvertible : (k : String) → IsInvertible (model? k m)
  model?-IsInvertible k =
      nested-Inverts (from_json m) (to_json m) (from_json-KeepsNullish m) (to_json-KeepsNullish m)
        inv

  pub models-IsInvertible : (k : String) → IsInvertible (models k m)
  models-IsInvertible k = map_array-Inverts (from_json m) (to_json m) inv

  pub models?-IsInvertible : (k : String) → IsInvertible (models? k m)
  models?-IsInvertible k =
      skipped-Inverts (map_array (from_json m)) (map_array (to_json m))
        (λ v w h. map_array-filled (from_json m) v w) (λ v w h. map_array-filled (to_json m) v w)
        (map_array-Inverts (from_json m) (to_json m) inv)

module _ (parse_date : Value → Option String) (own : ReadsOwnText parse_date) where
  pub instant-IsInvertible : (k : String) → IsInvertible (instant parse_date k)
  instant-IsInvertible k = new_date-Inverts parse_date own

  pub instant?-IsInvertible : (k : String) → IsInvertible (instant? parse_date k)
  instant?-IsInvertible k =
      skipped-Inverts (new_date parse_date) to_iso (λ v w h. new_date-filled parse_date v w)
        (λ v w h. to_iso-filled v w) (new_date-Inverts parse_date own)
