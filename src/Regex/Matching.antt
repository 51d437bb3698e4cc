-- ===== src/Regex/Matching.antt =====
-- The texts that a regular expression matches, as a relation, and that `test` decides it.
use pipeline_operator.Prelude.{
  ℕ, ◌≡◌, refl, ap, ◌∙◌, ◌↔◌, ◌⊎◌, inl, inr, Bool, true, List, [], ◌∷◌, ◌++◌, arith, Bool-cases,
}
use pipeline_operator.Regex.{Regex, never, empty, one, seq, alt, star, nullable, derivative, test}

pub data Matches : Regex → List ℕ → Type 0 where
  nothing : Matches empty []
  single : {p : ℕ → Bool} {c : ℕ} → p c ≡ true → Matches (one p) (c ∷ [])
  pair :
      {r q : Regex} {s t u : List ℕ} → s ++ t ≡ u → Matches r s → Matches q t → Matches (seq r q) u
  left : {r q : Regex} {s : List ℕ} → Matches r s → Matches (alt r q) s
  right : {r q : Regex} {s : List ℕ} → Matches q s → Matches (alt r q) s
  done : {r : Regex} → Matches (star r) []
  again :
      {r : Regex} {c : ℕ} {s t u : List ℕ}
      → (c ∷ s) ++ t ≡ u
      → Matches r (c ∷ s)
      → Matches (star r) t
      → Matches (star r) u

nullable_sound : (r : Regex) → nullable r ≡ true → Matches r []
unfolding nullable
nullable_sound never h = cc
nullable_sound empty h = nothing
nullable_sound (one p) h = cc
nullable_sound (seq r q) h =
    pair refl (nullable_sound r (ground arith)) (nullable_sound q (ground arith))
nullable_sound (alt r q) h = elim (Bool-cases (nullable r)) [
  | inl yes_r ↦ left (nullable_sound r yes_r)
  | inr no_r ↦ right (nullable_sound q (ground arith))
]
nullable_sound (star r) h = done

append-eq-nil : {s t : List ℕ} → s ++ t ≡ [] → (s ≡ []) × (t ≡ [])
append-eq-nil {s = []} e = (refl, e)
append-eq-nil {s = c ∷ s} e = cc

nullable_complete : {r : Regex} {s : List ℕ} → Matches r s → s ≡ [] → nullable r ≡ true
unfolding nullable
nullable_complete nothing h = refl
nullable_complete (single e) h = cc
nullable_complete (pair e m n) h =
    let (a, b) = append-eq-nil (e ∙ h) in rw (nullable_complete m a, nullable_complete n b)
nullable_complete (left m) h = rw (nullable_complete m h)
nullable_complete (right {r} m) h = rw (nullable_complete m h) (ground arith)
nullable_complete done h = refl
nullable_complete (again e m n) h = refl

-- Inversion, one lemma for each form.
never-Matches : {s : List ℕ} → Matches never s → ⊥
never-Matches m = elim m [ ]

pub empty-Matches : {s : List ℕ} → Matches empty s → s ≡ []
empty-Matches nothing = refl

pub seq-Matches :
    {r q : Regex} {u : List ℕ}
    → Matches (seq r q) u
    → (s : List ℕ) × (t : List ℕ) × (s ++ t ≡ u) × Matches r s × Matches q t
seq-Matches (pair {s} {t} e m n) = (s, t, e, m, n)

pub alt-Matches : {r q : Regex} {s : List ℕ} → Matches (alt r q) s → Matches r s ⊎ Matches q s
alt-Matches (left m) = inl m
alt-Matches (right m) = inr m

module _ (c : ℕ) where
  derivative_sound : (r : Regex) {s : List ℕ} → Matches (derivative c r) s → Matches r (c ∷ s)
  unfolding derivative
  derivative_sound never m = absurd (never-Matches m)
  derivative_sound empty m = absurd (never-Matches m)
  derivative_sound (one p) m = elim (Bool-cases (p c)) [
    | inl accepted ↦ rw (empty-Matches (rw (accepted, derivative) at m)) (single accepted)
    | inr refused ↦ absurd (never-Matches (rw (refused, derivative) at m))
  ]
  derivative_sound (seq r q) m = elim (Bool-cases (nullable r)) [
    | inl skip ↦ elim (alt-Matches (rw (skip, derivative) at m)) [
      | inl first ↦
          let (s, t, e, n, k) = seq-Matches first in
          pair (ap (λ u. c ∷ u) e) (derivative_sound r n) k
      | inr second ↦ pair refl (nullable_sound r skip) (derivative_sound q second)
    ]
    | inr stay ↦
        let (s, t, e, n, k) = seq-Matches (rw (stay, derivative) at m) in
        pair (ap (λ u. c ∷ u) e) (derivative_sound r n) k
  ]
  derivative_sound (alt r q) m = elim (alt-Matches m) [
    | inl n ↦ left (derivative_sound r n)
    | inr n ↦ right (derivative_sound q n)
  ]
  derivative_sound (star r) m =
      let (s, t, e, n, k) = seq-Matches m in again (ap (λ u. c ∷ u) e) (derivative_sound r n) k

  seq-derivative :
      (r q : Regex) (s t : List ℕ) {u : List ℕ}
      → s ++ t ≡ c ∷ u
      → Matches r s
      → Matches q t
      → ((s' : List ℕ) → s ≡ c ∷ s' → Matches (derivative c r) s')
      → ((t' : List ℕ) → t ≡ c ∷ t' → Matches (derivative c q) t')
      → Matches (derivative c (seq r q)) u
  unfolding derivative
  seq-derivative r q [] t {u} e m n f g = rw (nullable_complete m refl) (right (g u e))
  seq-derivative r q (d ∷ s) t {u} e m n f g =
      let same : d ≡ c = cc in
      let rest : s ++ t ≡ u = cc in
      let first = pair rest (f s (ap (λ a. a ∷ s) same)) n in
      elim (Bool-cases (nullable r)) [ inl skip ↦ rw skip (left first) | inr stay ↦ rw stay first ]

  derivative_complete :
      {r : Regex} {u s : List ℕ} → Matches r u → u ≡ c ∷ s → Matches (derivative c r) s
  unfolding derivative
  derivative_complete nothing h = cc
  derivative_complete {s} (single {p} {c = d} e) h =
      let accepted : p c ≡ true = cc in let end : s ≡ [] = cc in rw (accepted, end) nothing
  derivative_complete (pair {r} {q} {s = s₁} {t} e m n) h =
      seq-derivative r q s₁ t (e ∙ h) m n (λ s' k. derivative_complete m k)
        (λ s' k. derivative_complete n k)
  derivative_complete (left m) h = left (derivative_complete m h)
  derivative_complete (right m) h = right (derivative_complete m h)
  derivative_complete done h = cc
  derivative_complete {s = u} (again {c = d} {s} {t} e m n) h =
      let whole : (d ∷ (s ++ t)) ≡ c ∷ u = e ∙ h in
      let same : d ≡ c = cc in
      let rest : s ++ t ≡ u = cc in pair rest (derivative_complete m (ap (λ a. a ∷ s) same)) n

test_sound : (r : Regex) (s : List ℕ) → test r s ≡ true → Matches r s
unfolding test
test_sound r [] h = nullable_sound r h
test_sound r (c ∷ s) h = derivative_sound c r (test_sound (derivative c r) s h)

test_complete : (r : Regex) (s : List ℕ) → Matches r s → test r s ≡ true
unfolding test
test_complete r [] m = nullable_complete m refl
test_complete r (c ∷ s) m = test_complete (derivative c r) s (derivative_complete c m refl)

-- `test` accepts exactly the texts that the expression matches.
pub test_iff : (r : Regex) (s : List ℕ) → (test r s ≡ true) ↔ Matches r s
test_iff r s = (test_sound r s, test_complete r s)
