-- ===== src/Axios/Objects.antt =====
-- Objects of JavaScript as the axios client changes them: `object[key] = value` and the spread
-- `{...a, ...b}`. A member that holds `undefined` is there, and overrides.
use pipeline_operator.Prelude.{
  String, ◌≡◌, refl, sym, ap, ◌∙◌, inl, inr, Bool-cases, Option, none, some, str_eq, str_eq_iff,
  arith, if◌then◌else◌,
}
use pipeline_operator.Value.{Value, object, Fields, end, field}

-- object[key] = value
unfoldable pub set_field : String → Value → Fields → Fields
set_field key value end = field key value end
set_field key value (field k v fs) =
    let rest = set_field key value fs in if str_eq k key then field k value fs else field k v rest

-- {...target, ...source}
unfoldable pub spread : Fields → Fields → Fields
unfolding set_field
spread target end = target
spread target (field k v fs) = spread (set_field k v target) fs

-- What a spread takes of a value: nothing of `undefined`, `null` and the scalars that are given here.
abbrev pub members : Value → Fields
members (object fs) = fs
members _ = end

-- The member of a name, if it is there.
abbrev pub find_field : String → Fields → Option Value
find_field key end = none
find_field key (field k v fs) = if str_eq k key then some v else find_field key fs

abbrev pub or_else {ℓ} : {A : Type ℓ} → Option A → Option A → Option A
or_else none o = o
or_else (some v) o = some v

pub find_field-set_field :
    (k j : String) (v : Value) (fs : Fields)
    → find_field j (set_field k v fs) ≡ (if str_eq k j then some v else find_field j fs)
unfolding set_field
find_field-set_field k j v end = refl
find_field-set_field k j v (field i w fs) =
    ground (arith, str_eq_iff k j, str_eq_iff i k, str_eq_iff i j, find_field-set_field k j v fs)

-- No name stands twice.
abbrev pub HasDistinctKeys : Fields → Type 0
HasDistinctKeys end = Unit
HasDistinctKeys (field k v fs) = (find_field k fs ≡ none) × HasDistinctKeys fs

or_else-none {ℓ} : {A : Type ℓ} (o : Option A) → or_else o none ≡ o
or_else-none none = refl
or_else-none (some v) = refl

spread-step :
    (k j : String) (v : Value) (target fs : Fields)
    → find_field k fs ≡ none
    → or_else (find_field j fs) (if str_eq k j then some v else find_field j target)
      ≡ or_else (if str_eq k j then some v else find_field j fs) (find_field j target)
spread-step k j v target fs fresh = elim (Bool-cases (str_eq k j)) [
  | inl same ↦
      let e : k ≡ j = (str_eq_iff k j).0 same in
      let gone : find_field j fs ≡ none = ap (λ i. find_field i fs) (sym e) ∙ fresh in
      rw (same, gone)
  | inr other ↦ rw other
]

-- In a spread the later object wins wherever it has a member of the name.
pub find_field-spread :
    (j : String) (target source : Fields)
    → HasDistinctKeys source
    → find_field j (spread target source) ≡ or_else (find_field j source) (find_field j target)
unfolding spread
find_field-spread j target end h = refl
find_field-spread j target (field k v fs) (fresh, rest) =
    find_field-spread j (set_field k v target) fs rest
    ∙ ap (or_else (find_field j fs)) (find_field-set_field k j v target)
    ∙ spread-step k j v target fs fresh
