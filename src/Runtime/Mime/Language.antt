-- ===== src/Runtime/Mime/Language.antt =====
-- The texts of the expressions that `isJsonMime` is built from.
use pipeline_operator.Prelude.{
  ℕ, ◌≡◌, refl, sym, ap, ◌∙◌, Bool, true, List, [], ◌∷◌, ◌++◌, map, arith, All,
}
use pipeline_operator.Regex.{one, star, word, upper}
use pipeline_operator.Regex.Matching.{
  Matches, nothing, single, pair, done, again, empty-Matches, seq-Matches,
}

pub one-Matches :
    {p : ℕ → Bool} {s : List ℕ} → Matches (one p) s → (c : ℕ) × (s ≡ c ∷ []) × (p c ≡ true)
one-Matches (single {c} e) = (c, refl, e)

-- `word w` matches the texts that agree with `w` up to case.
pub word-Matches : (w s : List ℕ) → Matches (word w) s → map upper s ≡ map upper w
word-Matches [] s m = ap (map upper) (empty-Matches m)
word-Matches (a ∷ w) s m =
    let (u, t, e, n, k) = seq-Matches m in
    let (c, single_code, agrees) = one-Matches n in
    let same : upper c ≡ upper a = ground arith in
    let whole : s ≡ c ∷ t = sym e ∙ ap (λ v. v ++ t) single_code in
    ap (map upper) whole ∙ cc (same, word-Matches w t k)

pub Matches-word : (w s : List ℕ) → map upper s ≡ map upper w → Matches (word w) s
Matches-word [] [] e = nothing
Matches-word [] (c ∷ s) e = cc
Matches-word (a ∷ w) [] e = cc
Matches-word (a ∷ w) (c ∷ s) e = pair refl (single (ground arith)) (Matches-word w s cc)

-- `[…]*`
pub star_one-Matches :
    {p : ℕ → Bool} {s : List ℕ} → Matches (star (one p)) s → All (λ c. p c ≡ true) s
star_one-Matches done = tt
star_one-Matches {p} {s} (again {t} e m n) =
    let (c, only, accepted) = one-Matches m in
    let whole : s ≡ c ∷ t = sym e ∙ ap (λ v. v ++ t) only in rw whole (accepted, star_one-Matches n)

pub Matches-star_one :
    (p : ℕ → Bool) (s : List ℕ) → All (λ c. p c ≡ true) s → Matches (star (one p)) s
Matches-star_one p [] h = done
Matches-star_one p (c ∷ s) h = again refl (single h.0) (Matches-star_one p s h.1)
