-- ===== src/Operator/Cluster/Store.antt =====
-- The store under creations and updates: what is found in it, and how often a name occurs.
use pipeline_operator.Prelude.{
  ℕ, ◌+◌, ◌≤◌, String, ◌≡◌, refl, sym, ap, ◌∙◌, ◌↔◌, inl, inr, true, false, Bool-cases, none, some,
  [], ◌∷◌, ◌++◌, All, str_eq, str_eq_iff, arith, if◌then◌else◌,
}
use mathlib.Core.Path.{ap₂, subst}
use pipeline_operator.Operator.Cluster.{StoredJob, Store, is_named, find_job, replace_job}

-- How many stored jobs have a name in a namespace.
unfoldable pub count_named : String → String → Store → ℕ
count_named name namespace [] = 0
count_named name namespace (j ∷ js) =
    let rest = count_named name namespace js in if is_named name namespace j then 1 + rest else rest

pub is_named_iff :
    (name namespace : String) (j : StoredJob)
    → (is_named name namespace j ≡ true) ↔ ((j.name ≡ name) × (j.namespace ≡ namespace))
is_named_iff name namespace j = (
  (λ h.
      let (a, b) : (str_eq j.name name ≡ true) × (str_eq j.namespace namespace ≡ true) =
        ground arith in
      ((str_eq_iff j.name name).0 a, (str_eq_iff j.namespace namespace).0 b)),
  (λ h. rw ((str_eq_iff j.name name).1 h.0, (str_eq_iff j.namespace namespace).1 h.1)),
)

-- Two jobs with one name are named alike.
is_named-same :
    (name namespace : String) (j k : StoredJob)
    → is_named k.name k.namespace j ≡ true
    → is_named name namespace j ≡ is_named name namespace k
is_named-same name namespace j k h =
    let (a, b) = (is_named_iff k.name k.namespace j).0 h in rw (a, b)

pub is_named_refl : (j : StoredJob) → is_named j.name j.namespace j ≡ true
is_named_refl j = (is_named_iff j.name j.namespace j).1 (refl, refl)

module _ (name namespace : String) where
  pub count_named-append :
      (new : StoredJob) (s : Store)
      → count_named name namespace (s ++ new ∷ [])
        ≡ count_named name namespace s + (if is_named name namespace new then 1 else 0)
  unfolding count_named
  count_named-append new [] = ground arith
  count_named-append new (j ∷ js) = ground (arith, count_named-append new js)

  pub count_named-replace_job :
      (new : StoredJob) (s : Store)
      → count_named name namespace (replace_job new s) ≡ count_named name namespace s
  unfolding count_named replace_job
  count_named-replace_job new [] = refl
  count_named-replace_job new (j ∷ js) = elim (Bool-cases (is_named new.name new.namespace j)) [
    | inl same ↦ rw (same, is_named-same name namespace j new same)
    | inr other ↦ rw (other, count_named-replace_job new js)
  ]

  pub find_job-eq-none :
      (s : Store) → find_job name namespace s ≡ none → count_named name namespace s ≡ 0
  unfolding count_named find_job
  find_job-eq-none [] h = refl
  find_job-eq-none (j ∷ js) h = elim (Bool-cases (is_named name namespace j)) [
    | inl same ↦ absurd (let clash : some j ≡ none = rw (same) at h in ground arith)
    | inr other ↦
        let later : find_job name namespace js ≡ none = rw (other) at h in
        rw (other, find_job-eq-none js later)
  ]

  pub find_job-is_named :
      (s : Store) (j : StoredJob)
      → find_job name namespace s ≡ some j
      → is_named name namespace j ≡ true
  unfolding find_job
  find_job-is_named [] j h = absurd (ground arith)
  find_job-is_named (k ∷ ks) j h = elim (Bool-cases (is_named name namespace k)) [
    | inl same ↦
        let here : some k ≡ some j = rw (same) at h in
        let e : k ≡ j = cc in ap (is_named name namespace) (sym e) ∙ same
    | inr other ↦
        let later : find_job name namespace ks ≡ some j = rw (other) at h in
        find_job-is_named ks j later
  ]

  -- What was found is found again under its own name.
  pub find_job-own :
      (s t : Store) (j : StoredJob)
      → find_job name namespace s ≡ some j
      → find_job j.name j.namespace t ≡ find_job name namespace t
  find_job-own s t j h =
      let (same, there) = (is_named_iff name namespace j).0 (find_job-is_named s j h) in
      ap₂ (λ a b. find_job a b t) same there

  -- A creation leaves what was found, and is found itself where nothing was.
  pub find_job-append :
      (new : StoredJob) (s : Store)
      → find_job name namespace (s ++ new ∷ []) ≡ (elim (find_job name namespace s) [
        | some j ↦ some j
        | none ↦ if is_named name namespace new then some new else none
      ])
  unfolding find_job
  find_job-append new [] = refl
  find_job-append new (j ∷ js) = elim (Bool-cases (is_named name namespace j)) [
    | inl same ↦ rw same
    | inr other ↦ rw (other, find_job-append new js)
  ]

  -- An update changes what is found under its own name only.
  pub find_job-replace_job-other :
      (new : StoredJob) (s : Store)
      → is_named name namespace new ≡ false
      → find_job name namespace (replace_job new s) ≡ find_job name namespace s
  unfolding find_job replace_job
  find_job-replace_job-other new [] h = refl
  find_job-replace_job-other new (j ∷ js) h =
      elim (Bool-cases (is_named new.name new.namespace j)) [
        | inl same ↦ rw (same, is_named-same name namespace j new same, h)
        | inr other ↦ rw (other, find_job-replace_job-other new js h)
      ]

pub find_job-replace_job :
    (new old : StoredJob) (s : Store)
    → find_job new.name new.namespace s ≡ some old
    → find_job new.name new.namespace (replace_job new s) ≡ some new
unfolding find_job replace_job
find_job-replace_job new old [] h = absurd (ground arith)
find_job-replace_job new old (j ∷ js) h = elim (Bool-cases (is_named new.name new.namespace j)) [
  | inl same ↦
      let replaced : replace_job new (j ∷ js) ≡ new ∷ js = rw same in
      let found : find_job new.name new.namespace (new ∷ js) ≡ some new = rw (is_named_refl new) in
      ap (find_job new.name new.namespace) replaced ∙ found
  | inr other ↦
      let later : find_job new.name new.namespace js ≡ some old = rw (other) at h in
      let replaced : replace_job new (j ∷ js) ≡ j ∷ replace_job new js = rw other in
      let passed : find_job new.name new.namespace (j ∷ replace_job new js)
          ≡ find_job new.name new.namespace (replace_job new js) =
        rw other in
      ap (find_job new.name new.namespace) replaced ∙ passed ∙ find_job-replace_job new old js later
]

pub replace_job-same :
    (old : StoredJob) (s : Store)
    → find_job old.name old.namespace s ≡ some old
    → replace_job old s ≡ s
unfolding find_job replace_job
replace_job-same old [] h = refl
replace_job-same old (j ∷ js) h = elim (Bool-cases (is_named old.name old.namespace j)) [
  | inl same ↦
      let here : some j ≡ some old = rw (same) at h in
      let e : old ≡ j = cc in
      let replaced : replace_job old (j ∷ js) ≡ old ∷ js = rw same in replaced ∙ ap (λ k. k ∷ js) e
  | inr other ↦
      let later : find_job old.name old.namespace js ≡ some old = rw (other) at h in
      let replaced : replace_job old (j ∷ js) ≡ j ∷ replace_job old js = rw other in
      replaced ∙ ap (λ ks. j ∷ ks) (replace_job-same old js later)
]

-- r.Delete, and the garbage collection of Kubernetes.
unfoldable pub remove_job : String → String → Store → Store
remove_job name namespace [] = []
remove_job name namespace (j ∷ js) =
    let rest = remove_job name namespace js in if is_named name namespace j then js else j ∷ rest

pub count_named-remove_job :
    (name namespace n ns : String) (s : Store)
    → count_named n ns (remove_job name namespace s) ≤ count_named n ns s
unfolding count_named remove_job
count_named-remove_job name namespace n ns [] = omega arith
count_named-remove_job name namespace n ns (j ∷ js) =
    ground (arith, count_named-remove_job name namespace n ns js)

module _ (P : StoredJob → Type 0) where
  pub replace_job-All : (new : StoredJob) (s : Store) → P new → All P s → All P (replace_job new s)
  unfolding replace_job
  replace_job-All new [] p h = tt
  replace_job-All new (j ∷ js) p (first, rest) =
      elim (Bool-cases (is_named new.name new.namespace j)) [
        | inl same ↦ rw same (p, rest)
        | inr other ↦ rw other (first, replace_job-All new js p rest)
      ]

  pub remove_job-All :
      (name namespace : String) (s : Store) → All P s → All P (remove_job name namespace s)
  unfolding remove_job
  remove_job-All name namespace [] h = tt
  remove_job-All name namespace (j ∷ js) (first, rest) =
      elim (Bool-cases (is_named name namespace j)) [
        | inl same ↦ rw same rest
        | inr other ↦ rw other (first, remove_job-All name namespace js rest)
      ]

  pub find_job-All :
      (name namespace : String) (s : Store) (j : StoredJob)
      → find_job name namespace s ≡ some j
      → All P s
      → P j
  unfolding find_job
  find_job-All name namespace [] j h all = absurd (ground arith)
  find_job-All name namespace (k ∷ ks) j h (first, rest) =
      elim (Bool-cases (is_named name namespace k)) [
        | inl same ↦
            let here : some k ≡ some j = rw (same) at h in let e : k ≡ j = cc in subst P e first
        | inr other ↦
            let later : find_job name namespace ks ≡ some j = rw (other) at h in
            find_job-All name namespace ks j later rest
      ]
