-- ===== src/Prelude/Texts.antt =====
-- Texts: their code points, concatenation, and `join`.
use Prim.Native.Nat.{ℕ}
use Prim.Native.Char.{code}
use Prim.Native.String
use Prim.Native.String.{String}
use text.Mathlib.TextLemmas.{append_assoc, nil-append, cons-append}
use pipeline_operator.Prelude.Tests.{if◌then◌else◌}
use pipeline_operator.Prelude.Lists.{All}
use mathlib.Core.Logic.{◌≢◌}
use mathlib.Core.Path.{◌≡◌, refl, ap}
use mathlib.Core.Bool.{Bool, true, false, ◌&&◌}
use mathlib.Core.List.{List, [], ◌∷◌, ◌++◌}

abbrev pub codes : String → List ℕ
codes String.[] = []
codes (String.◌∷◌ c s) = code c ∷ codes s

infixr 66 ◌<>◌
-- `+` on strings.
abbrev pub ◌<>◌ : String → String → String
s <> t = String.◌++◌ s t

-- `s.length === 0`
abbrev pub is_blank : String → Bool
is_blank String.[] = true
is_blank (String.◌∷◌ c s) = false

abbrev pub join_tail : String → List String → String
join_tail sep [] = ""
join_tail sep (s ∷ rest) = sep <> (s <> join_tail sep rest)

-- `parts.join(separator)`
abbrev pub join : String → List String → String
join sep [] = ""
join sep (s ∷ rest) = s <> join_tail sep rest

-- `parts.filter(part => part.length > 0)`
abbrev pub non_blank : List String → List String
non_blank [] = []
non_blank (s ∷ rest) = if is_blank s then non_blank rest else s ∷ non_blank rest

pub non_blank-append : (xs ys : List String) → non_blank (xs ++ ys) ≡ non_blank xs ++ non_blank ys
non_blank-append [] ys = refl
non_blank-append (String.[] ∷ xs) ys = non_blank-append xs ys
non_blank-append (String.◌∷◌ c s ∷ xs) ys = ap (λ r. String.◌∷◌ c s ∷ r) (non_blank-append xs ys)

pub join_tail-append :
    (sep : String) (xs ys : List String)
    → join_tail sep (xs ++ ys) ≡ join_tail sep xs <> join_tail sep ys
join_tail-append sep [] ys = rw nil-append
join_tail-append sep (x ∷ xs) ys = simp (join_tail-append sep xs ys, append_assoc)

pub is_blank-append : (s t : String) → is_blank (s <> t) ≡ (is_blank s && is_blank t)
is_blank-append String.[] t = rw nil-append
is_blank-append (String.◌∷◌ c s) t = rw cons-append

-- Of texts that are not blank, a joined text is blank exactly when there are none, so what follows
-- a first part is a function of the joined rest.
abbrev pub after_first : String → String → String
after_first sep joined = if is_blank joined then "" else sep <> joined

pub join_tail-eq-after_first :
    (sep : String) (xs : List String)
    → All (λ x. is_blank x ≡ false) xs
    → join_tail sep xs ≡ after_first sep (join sep xs)
join_tail-eq-after_first sep [] h = refl
join_tail-eq-after_first sep (x ∷ xs) h = rw (is_blank-append x (join_tail sep xs), h.0)

pub join-append_cons :
    (sep x : String) (xs ys : List String)
    → All (λ y. is_blank y ≡ false) ys
    → join sep (x ∷ xs ++ ys) ≡ join sep (x ∷ xs) <> after_first sep (join sep ys)
join-append_cons sep x xs ys h =
    simp (join_tail-append sep xs ys, append_assoc) (rw (join_tail-eq-after_first sep ys h))

pub non_blank-All : (xs : List String) → All (λ x. is_blank x ≡ false) (non_blank xs)
non_blank-All [] = tt
non_blank-All (String.[] ∷ xs) = non_blank-All xs
non_blank-All (String.◌∷◌ c s ∷ xs) = (refl, non_blank-All xs)

pub codes-append : (s t : String) → codes (s <> t) ≡ codes s ++ codes t
codes-append String.[] t = rw nil-append
codes-append (String.◌∷◌ c s) t = rw cons-append (ap (λ r. code c ∷ r) (codes-append s t))

pub is_blank-eq-false : (s : String) → s ≢ "" → is_blank s ≡ false
is_blank-eq-false String.[] h = absurd (h refl)
is_blank-eq-false (String.◌∷◌ c s) h = refl
