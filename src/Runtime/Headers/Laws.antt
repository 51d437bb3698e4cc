-- ===== src/Runtime/Headers/Laws.antt =====
-- Which header wins when the configuration's and the request's headers are merged.
use pipeline_operator.Prelude.{
  String, ◌≡◌, refl, ap, ◌∙◌, inl, inr, true, false, Option, none, some, List, [], ◌∷◌, map, arith,
  str_eq, str_eq_iff, Bool-cases, if◌then◌else◌,
}
use mathlib.Core.Bool.{and-eq-true_iff}
use pipeline_operator.Models.Codec.Roundtrip.{fresh, distinct}
use pipeline_operator.Runtime.Types.{Headers}
use pipeline_operator.Runtime.Headers.{set_header, assign, delete_undefined, lookup}

abbrev pub names : Headers → List String
names hs = map (λ h. h.0) hs

-- A later setting before an earlier one.
abbrev pub first_some {ℓ} : {A : Type ℓ} → Option A → Option A → Option A
first_some none o = o
first_some (some v) o = some v

-- A header that is not there, or that is set to `undefined`, is not sent.
abbrev pub sent : Option (Option String) → Option String
sent none = none
sent (some v) = v

lookup-set_header :
    (k j : String) (v : Option String) (hs : Headers)
    → lookup j (set_header k v hs) ≡ (if str_eq k j then some v else lookup j hs)
unfolding lookup set_header
lookup-set_header k j v [] = refl
lookup-set_header k j v ((i, w) ∷ hs) =
    ground (arith, str_eq_iff k j, str_eq_iff i k, str_eq_iff i j, lookup-set_header k j v hs)

first_some-none {ℓ} : {A : Type ℓ} (o : Option A) → first_some o none ≡ o
first_some-none none = refl
first_some-none (some v) = refl

lookup-fresh : (k : String) (hs : Headers) → fresh k (names hs) ≡ true → lookup k hs ≡ none
unfolding lookup
lookup-fresh k [] h = refl
lookup-fresh k ((j, v) ∷ hs) h = ground (arith, str_eq_iff k j, str_eq_iff j k, lookup-fresh k hs)

lookup-assign :
    (k : String) (target source : Headers)
    → distinct (names source) ≡ true
    → lookup k (assign target source) ≡ first_some (lookup k source) (lookup k target)
unfolding assign lookup
lookup-assign k target [] h = refl
lookup-assign k target ((j, v) ∷ source) h =
    let (new, later) = (and-eq-true_iff (fresh j (names source)) (distinct (names source))).0 h in
    lookup-assign k (set_header j v target) source later
    ∙ rw (lookup-set_header j k v target) (elim (Bool-cases (str_eq j k)) [
      | inl same ↦
          let gone = lookup-fresh k source (rw ((str_eq_iff j k).0 same) at new) in rw (same, gone)
      | inr other ↦ rw other
    ])

fresh-set_header :
    (j k : String) (v : Option String) (hs : Headers)
    → fresh j (names hs) ≡ true
    → str_eq j k ≡ false
    → fresh j (names (set_header k v hs)) ≡ true
unfolding set_header
fresh-set_header j k v [] h e = ground arith
fresh-set_header j k v ((i, w) ∷ hs) h e = ground (arith, fresh-set_header j k v hs)

distinct-set_header :
    (k : String) (v : Option String) (hs : Headers)
    → distinct (names hs) ≡ true
    → distinct (names (set_header k v hs)) ≡ true
unfolding set_header
distinct-set_header k v [] h = refl
distinct-set_header k v ((i, w) ∷ hs) h =
    ground
      (arith, fresh-set_header i k v hs, distinct-set_header k v hs, str_eq_iff i k, str_eq_iff k i)

distinct-assign :
    (target source : Headers)
    → distinct (names target) ≡ true
    → distinct (names (assign target source)) ≡ true
unfolding assign
distinct-assign target [] h = h
distinct-assign target ((k, v) ∷ source) h =
    distinct-assign (set_header k v target) source (distinct-set_header k v target h)

lookup-delete_fresh :
    (k : String) (hs : Headers) → fresh k (names hs) ≡ true → lookup k (delete_undefined hs) ≡ none
unfolding lookup delete_undefined
lookup-delete_fresh k [] h = refl
lookup-delete_fresh k ((j, none) ∷ hs) h = lookup-delete_fresh k hs (ground arith)
lookup-delete_fresh k ((j, some v) ∷ hs) h =
    ground (arith, str_eq_iff k j, str_eq_iff j k, lookup-delete_fresh k hs)

lookup-delete_undefined :
    (k : String) (hs : Headers)
    → distinct (names hs) ≡ true
    → lookup k (delete_undefined hs) ≡ sent (lookup k hs)
unfolding lookup delete_undefined
lookup-delete_undefined k [] h = refl
lookup-delete_undefined k ((j, none) ∷ hs) h =
    ground (arith, str_eq_iff j k, lookup-delete_fresh k hs, lookup-delete_undefined k hs)
lookup-delete_undefined k ((j, some v) ∷ hs) h = ground (arith, lookup-delete_undefined k hs)

-- Of the merged headers a request's own setting wins over the configuration's, and a header that
-- the winner sets to `undefined` is not sent. The names within each of the two are distinct.
pub lookup-merged :
    (k : String) (configured own : Headers)
    → distinct (names configured) ≡ true
    → distinct (names own) ≡ true
    → lookup k (delete_undefined (assign (assign [] configured) own))
      ≡ sent (first_some (lookup k own) (lookup k configured))
lookup-merged k configured own hc ho =
    lookup-delete_undefined k _ (distinct-assign _ own (distinct-assign [] configured refl))
    ∙ ap sent (
        lookup-assign k (assign [] configured) own ho
        ∙ ap (first_some (lookup k own)) (
            lookup-assign k [] configured hc
            ∙ (unfold lookup in first_some-none (lookup k configured))))
