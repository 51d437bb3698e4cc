-- ===== src/Regex/Folding.antt =====
-- The flag `i`: an expression whose character tests do not see case does not see it either.
use pipeline_operator.Prelude.{
  ℕ, ◌≡◌, refl, ap, ◌∙◌, inl, inr, List, [], ◌∷◌, map, arith, ◌==◌, Bool-cases,
}
use pipeline_operator.Regex.{
  Regex, never, empty, one, seq, alt, star, nullable, derivative, test, lower, upper, word,
}

abbrev pub Insensitive : Regex → Type 0
Insensitive never = Unit
Insensitive empty = Unit
Insensitive (one p) = (c : ℕ) → p (lower c) ≡ p c
Insensitive (seq r q) = Insensitive r × Insensitive q
Insensitive (alt r q) = Insensitive r × Insensitive q
Insensitive (star r) = Insensitive r

module _ (c : ℕ) where
  derivative-lower : (r : Regex) → Insensitive r → derivative (lower c) r ≡ derivative c r
  unfolding derivative
  derivative-lower never h = refl
  derivative-lower empty h = refl
  derivative-lower (one p) h = rw (h c)
  derivative-lower (seq r q) h = rw (derivative-lower r h.0, derivative-lower q h.1)
  derivative-lower (alt r q) h = rw (derivative-lower r h.0, derivative-lower q h.1)
  derivative-lower (star r) h = rw (derivative-lower r h)

  Insensitive-derivative : (r : Regex) → Insensitive r → Insensitive (derivative c r)
  unfolding derivative
  Insensitive-derivative never h = tt
  Insensitive-derivative empty h = tt
  Insensitive-derivative (one p) h = elim (Bool-cases (p c)) [ inl e ↦ rw e tt | inr e ↦ rw e tt ]
  Insensitive-derivative (seq r q) h =
      let first = Insensitive-derivative r h.0 in
      let second = Insensitive-derivative q h.1 in
      elim (Bool-cases (nullable r)) [
        | inl e ↦ rw e ((first, h.1), second)
        | inr e ↦ rw e (first, h.1)
      ]
  Insensitive-derivative (alt r q) h = (Insensitive-derivative r h.0, Insensitive-derivative q h.1)
  Insensitive-derivative (star r) h = (Insensitive-derivative r h, h)

pub test-lower : (r : Regex) (s : List ℕ) → Insensitive r → test r (map lower s) ≡ test r s
unfolding test
test-lower r [] h = refl
test-lower r (c ∷ s) h =
    ap (λ q. test q (map lower s)) (derivative-lower c r h)
    ∙ test-lower (derivative c r) s (Insensitive-derivative c r h)

pub upper-lower : (c : ℕ) → upper (lower c) ≡ upper c
upper-lower c = ground arith

pub Insensitive-word : (w : List ℕ) → Insensitive (word w)
Insensitive-word [] = tt
Insensitive-word (a ∷ w) = ((λ c. ap (λ d. d == upper a) (upper-lower c)), Insensitive-word w)
