-- ===== src/Models/Rereads.antt =====
-- What decoding and encoding a model keep: the objects of the three kinds as wholes, and which
-- fields any model reads and writes.
use pipeline_operator.Prelude.{
  String, ◌≡◌, refl, sym, ap, ◌∙◌, arith, true, false, Bool, not, ◌||◌, ◌⊎◌, ◌↔◌, Option, [], ◌∷◌,
  map, All,
}
use mathlib.Core.Bool.{and-eq-true_iff}
use pipeline_operator.Value.{
  Value, object, Fields, end, field, is_nullish, is_undefined, get, keys, dates_valid,
}
use pipeline_operator.Errors.{ok, >>=-eq-ok}
use pipeline_operator.Models.Codec.{
  Property, Model, from_json, to_json, read_fields, write_fields, to_object, instance_of,
}
use pipeline_operator.Models.Codec.Laws.{ReadsOwnText}
use pipeline_operator.Models.Codec.Roundtrip.{keys-read_fields, to_object-inverted}
use pipeline_operator.Models.Run.{run}
use pipeline_operator.Models.Pipeline.{pipeline}
use pipeline_operator.Models.Task.{task}
use pipeline_operator.Models.Inverses.Run.{run-Inverts}
use pipeline_operator.Models.Inverses.Pipeline.{pipeline-Inverts}
use pipeline_operator.Models.Inverses.Task.{task-Inverts}

module _ (parse_date : Value → Option String) where
  -- A run that was decoded, and holds no invalid date, is encoded without an error, to JSON that is
  -- decoded to the same run. The platform reads the ISO text of a date as that date.
  pub from_json-run :
      (v w : Value)
      → ReadsOwnText parse_date
      → from_json (run parse_date) v ≡ ok w
      → dates_valid w ≡ true
      → (u : Value) × (to_json (run parse_date) w ≡ ok u) × (from_json (run parse_date) u ≡ ok w)
  from_json-run v w own = run-Inverts parse_date own v w

  -- A pipeline that was decoded, and holds no invalid date, is encoded without an error, to JSON
  -- that is decoded to the same pipeline. The platform reads the ISO text of a date as that date.
  pub from_json-pipeline :
      (v w : Value)
      → ReadsOwnText parse_date
      → from_json (pipeline parse_date) v ≡ ok w
      → dates_valid w ≡ true
      → (u : Value) × (to_json (pipeline parse_date) w ≡ ok u)
        × (from_json (pipeline parse_date) u ≡ ok w)
  from_json-pipeline v w own = pipeline-Inverts parse_date own v w

  -- A task that was decoded, and holds no invalid date, is encoded without an error, to JSON that
  -- is decoded to the same task. The platform reads the ISO text of a date as that date.
  pub from_json-task :
      (v w : Value)
      → ReadsOwnText parse_date
      → from_json (task parse_date) v ≡ ok w
      → dates_valid w ≡ true
      → (u : Value) × (to_json (task parse_date) w ≡ ok u) × (from_json (task parse_date) u ≡ ok w)
  from_json-task v w own = task-Inverts parse_date own v w

-- Two values with the same fields, as far as a model names them.
abbrev pub AgreeOn : Model → Value → Value → Type 0
AgreeOn m v w = All (λ (p : Property). get v p.json_key ≡ get w p.json_key) m

read_fields-AgreeOn : (m : Model) (v w : Value) → AgreeOn m v w → read_fields m v ≡ read_fields m w
unfolding read_fields
read_fields-AgreeOn [] v w same = refl
read_fields-AgreeOn (p ∷ ps) v w (here, rest) = rw (here, read_fields-AgreeOn ps v w rest)

-- What is decoded of an object is decided by the fields that the model names: every other field is
-- dropped.
pub from_json-AgreeOn :
    (m : Model) (fs gs : Fields)
    → AgreeOn m (object fs) (object gs)
    → from_json m (object fs) ≡ from_json m (object gs)
unfolding from_json
from_json-AgreeOn m fs gs same = ap to_object (read_fields-AgreeOn m (object fs) (object gs) same)

keys-write_fields :
    (m : Model) (v : Value) (fs : Fields)
    → write_fields m v ≡ ok fs
    → keys fs ≡ map (λ (p : Property). p.json_key) m
unfolding write_fields
keys-write_fields [] v fs e = let whole : end ≡ fs = cc in sym (ap keys whole)
keys-write_fields (p ∷ ps) v fs e =
    let (w, first, e') = >>=-eq-ok (p.encode (get v p.key)) _ e in
    let (rest, later, e'') = >>=-eq-ok (write_fields ps v) _ e' in
    let whole : field p.json_key w rest ≡ fs = cc in
    sym (ap keys whole) ∙ ap (λ ks. p.json_key ∷ ks) (keys-write_fields ps v rest later)

-- A decoded object has all the names of its model and no other, in the order of the model.
pub keys-from_json :
    (m : Model) (v : Value) (fs : Fields)
    → is_nullish v ≡ false
    → from_json m v ≡ ok (object fs)
    → keys fs ≡ map (λ (p : Property). p.key) m
unfolding from_json
keys-from_json m v fs there read =
    let (ws, rows, whole) =
      to_object-inverted (read_fields m v) (object fs) (rw (there, from_json) at read) in
    let same : ws ≡ fs = cc in rw (← same) (keys-read_fields m v ws rows)

-- An encoded object has all the names of its model in JSON and no other, in the order of the model.
pub keys-to_json :
    (m : Model) (v : Value) (fs : Fields)
    → is_nullish v ≡ false
    → to_json m v ≡ ok (object fs)
    → keys fs ≡ map (λ (p : Property). p.json_key) m
unfolding to_json
keys-to_json m v fs there wrote =
    let (ws, rows, whole) =
      to_object-inverted (write_fields m v) (object fs) (rw (there, to_json) at wrote) in
    let same : ws ≡ fs = cc in rw (← same) (keys-write_fields m v ws rows)

required-cases : (a b : Bool) → (not a || not b) ≡ true → (a ≡ false) ⊎ (b ≡ false)
required-cases a b h = ground arith

cases-required : (a b : Bool) → (a ≡ false) ⊎ (b ≡ false) → (not a || not b) ≡ true
cases-required a b h = ground arith

-- A value has the interface of a model, as `instanceOf…` decides it, exactly when no required
-- property is `undefined`; a property that is `null` counts as there.
pub instance_of_iff :
    (m : Model) (v : Value)
    → (instance_of m v ≡ true)
      ↔ All (λ (p : Property). (p.required ≡ false) ⊎ (is_undefined (get v p.key) ≡ false)) m
unfolding instance_of
instance_of_iff [] v = (λ h. tt, λ h. refl)
instance_of_iff (p ∷ ps) v =
    let (to, from) = instance_of_iff ps v in
    (
      (λ h.
          let (here, later) =
            (and-eq-true_iff (not p.required || not (is_undefined (get v p.key)))
                (instance_of ps v)).0
              h in
          (required-cases p.required (is_undefined (get v p.key)) here, to later)),
      (λ h.
          (and-eq-true_iff (not p.required || not (is_undefined (get v p.key)))
              (instance_of ps v)).1
            (cases-required p.required (is_undefined (get v p.key)) h.0, from h.1)),
    )
