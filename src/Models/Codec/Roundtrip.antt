-- ===== src/Models/Codec/Roundtrip.antt =====
-- A model whose properties can all be read back, under names of their own, can be read back.
use pipeline_operator.Prelude.{
  String, ◌≡◌, refl, sym, ap, ◌∙◌, inl, inr, Bool, true, false, not, ◌&&◌, List, [], ◌∷◌, map,
  arith, All, Bool-cases, str_eq,
}
use mathlib.Core.Path.{subst}
use mathlib.Core.Bool.{and-eq-true_iff}
use text.Mathlib.TextPositions.{eq_refl}
use pipeline_operator.Value.{
  Value, object, Fields, end, field, is_nullish, get, keys, dates_valid, fields_valid,
}
use pipeline_operator.Errors.{Result, ok, throw, >>=-eq-ok}
use pipeline_operator.Models.Codec.{
  Property, Model, read_fields, write_fields, from_json, to_json, to_object,
}
use pipeline_operator.Models.Codec.Laws.{Inverts, IsInvertible}

abbrev pub fresh : String → List String → Bool
fresh k [] = true
fresh k (j ∷ js) = not (str_eq k j) && fresh k js

abbrev pub distinct : List String → Bool
distinct [] = true
distinct (k ∷ ks) = fresh k ks && distinct ks

-- `x` holds these fields.
abbrev Agrees : Value → Fields → Type 0
Agrees x end = Unit
Agrees x (field k v fs) = (get x k ≡ v) × Agrees x fs

Agrees-fresh :
    (k : String) (v : Value) (fs gs : Fields)
    → fresh k (keys gs) ≡ true
    → Agrees (object fs) gs
    → Agrees (object (field k v fs)) gs
Agrees-fresh k v fs end h a = tt
Agrees-fresh k v fs (field j w gs) h a =
    let (other, later) = (and-eq-true_iff (not (str_eq k j)) (fresh k (keys gs))).0 h in
    let differs : str_eq k j ≡ false = ground arith in
    (rw differs a.0, Agrees-fresh k v fs gs later a.1)

Agrees-self : (fs : Fields) → distinct (keys fs) ≡ true → Agrees (object fs) fs
Agrees-self end h = tt
Agrees-self (field k v fs) h =
    let (new, later) = (and-eq-true_iff (fresh k (keys fs)) (distinct (keys fs))).0 h in
    (rw eq_refl refl, Agrees-fresh k v fs fs new (Agrees-self fs later))

read_fields-cons :
    (p : Property) (ps : Model) (v : Value) (ws : Fields)
    → read_fields (p ∷ ps) v ≡ ok ws
    → (w : Value) × (rest : Fields) × (p.decode (get v p.json_key) ≡ ok w)
      × (read_fields ps v ≡ ok rest)
      × (field p.key w rest ≡ ws)
unfolding read_fields
read_fields-cons p ps v ws e =
    let (w, first, e') = >>=-eq-ok (p.decode (get v p.json_key)) _ e in
    let (rest, later, e'') = >>=-eq-ok (read_fields ps v) _ e' in (w, rest, first, later, cc)

read_fields-nil : (v : Value) (ws : Fields) → read_fields [] v ≡ ok ws → end ≡ ws
unfolding read_fields
read_fields-nil v ws e = cc

pub keys-read_fields :
    (m : Model) (v : Value) (ws : Fields) → read_fields m v ≡ ok ws → keys ws ≡ map (λ p. p.key) m
keys-read_fields [] v ws e = sym (ap keys (read_fields-nil v ws e))
keys-read_fields (p ∷ ps) v ws e =
    let (w, rest, first, later, whole) = read_fields-cons p ps v ws e in
    sym (ap keys whole) ∙ ap (λ ks. p.key ∷ ks) (keys-read_fields ps v rest later)

-- What an encoding of `ws`, found in `x`, is: written without an error, under the names of the
-- table, and read back from every object that holds it.
Encoding : Model → Value → Fields → Type 0
Encoding m x ws =
    (us : Fields) × (write_fields m x ≡ ok us)
    × (keys us ≡ map (λ p. p.json_key) m)
    × ((y : Value) → Agrees y us → read_fields m y ≡ ok ws)

Encoding-cons :
    (p : Property) (ps : Model) (x w : Value) (rest : Fields)
    → (u : Value) × (p.encode w ≡ ok u) × (p.decode u ≡ ok w)
    → get x p.key ≡ w
    → Encoding ps x rest
    → Encoding (p ∷ ps) x (field p.key w rest)
unfolding read_fields write_fields Encoding
Encoding-cons p ps x w rest (u, written, read) found (us, writtens, names, reads) = (
  field p.json_key u us,
  rw (found, written, writtens),
  ap (λ ks. p.json_key ∷ ks) names,
  (λ y a. rw (a.0, read, reads y a.1)),
)

Encoding-nil : (x : Value) → Encoding [] x end
unfolding read_fields write_fields Encoding
Encoding-nil x = (end, refl, refl, (λ y a. refl))

encode_rows :
    (m : Model) (v x : Value) (ws : Fields)
    → All IsInvertible m
    → read_fields m v ≡ ok ws
    → fields_valid ws ≡ true
    → Agrees x ws
    → Encoding m x ws
unfolding dates_valid
encode_rows [] v x ws inv e h a = subst (Encoding [] x) (read_fields-nil v ws e) (Encoding-nil x)
encode_rows (p ∷ ps) v x ws inv e h a =
    let (w, rest, first, later, whole) = read_fields-cons p ps v ws e in
    let step =
      λ (valid : (dates_valid w && fields_valid rest) ≡ true) (b : Agrees x (field p.key w rest)).
        let (here, more) = (and-eq-true_iff (dates_valid w) (fields_valid rest)).0 valid in
        Encoding-cons p ps x w rest (inv.0 (get v p.json_key) w first here) b.0
          (encode_rows ps v x rest inv.1 later more b.1) in
    subst (λ z. fields_valid z ≡ true → Agrees x z → Encoding (p ∷ ps) x z) whole step h a

-- The names of a table: distinct as properties, and distinct in JSON.
abbrev pub HasDistinctNames : Model → Type 0
HasDistinctNames m =
    (distinct (map (λ p. p.key) m) ≡ true) × (distinct (map (λ p. p.json_key) m) ≡ true)

pub to_object-inverted :
    (r : Result Fields) (w : Value)
    → to_object r ≡ ok w
    → (ws : Fields) × (r ≡ ok ws) × (object ws ≡ w)
to_object-inverted (ok ws) w e = (ws, refl, cc)
to_object-inverted (throw t) w e = cc

object-Inverts :
    (m : Model) (v : Value) (ws : Fields)
    → All IsInvertible m
    → HasDistinctNames m
    → read_fields m v ≡ ok ws
    → fields_valid ws ≡ true
    → (u : Value) × (to_json m (object ws) ≡ ok u) × (from_json m u ≡ ok (object ws))
unfolding from_json to_json Encoding
object-Inverts m v ws inv names e h =
    let own : distinct (keys ws) ≡ true = rw (keys-read_fields m v ws e) names.0 in
    let (us, written, json_names, reads) =
      encode_rows m v (object ws) ws inv e h (Agrees-self ws own) in
    let theirs : distinct (keys us) ≡ true = rw json_names names.1 in
    (object us, rw written, rw (reads (object us) (Agrees-self us theirs)))

-- A model whose properties invert inverts.
pub model-Inverts :
    (m : Model) → All IsInvertible m → HasDistinctNames m → Inverts (from_json m) (to_json m)
unfolding from_json to_json dates_valid
model-Inverts m inv names v w e h = elim (Bool-cases (is_nullish v)) [
  | inl nothing ↦
      let gone : ok v ≡ ok w = rw (nothing, from_json) at e in
      let same : v ≡ w = cc in
      subst (λ z. (u : Value) × (to_json m z ≡ ok u) × (from_json m u ≡ ok z)) same
        (v, rw nothing, rw nothing)
  | inr there ↦
      let (ws, rows, whole) = to_object-inverted (read_fields m v) w (rw (there, from_json) at e) in
      let valid : fields_valid ws ≡ true = rw (← whole) at h in
      subst (λ z. (u : Value) × (to_json m z ≡ ok u) × (from_json m u ≡ ok z)) whole
        (object-Inverts m v ws inv names rows valid)
]
