-- ===== src/Regex.antt =====
-- The regular expressions of the clients, `new RegExp(pattern, 'i').test(text)`: the part of
-- JavaScript's syntax that the two `isJsonMime` use, matched by derivatives.
pub mod Folding
pub mod Matching
use pipeline_operator.Prelude.{
  ℕ, ◌+◌, ◌-◌, Bool, true, false, not, ◌&&◌, ◌||◌, List, [], ◌∷◌, leb, ◌==◌, if◌then◌else◌,
}

pub data Regex : Type 0 where
  never empty : Regex
  one : (ℕ → Bool) → Regex
  seq alt : Regex → Regex → Regex
  star : Regex → Regex

unfoldable pub nullable : Regex → Bool
nullable never = false
nullable empty = true
nullable (one p) = false
nullable (seq r s) = nullable r && nullable s
nullable (alt r s) = nullable r || nullable s
nullable (star r) = true

-- What is left to match after the code point `c`.
unfoldable pub derivative : ℕ → Regex → Regex
unfolding nullable
derivative c never = never
derivative c empty = never
derivative c (one p) = if p c then empty else never
derivative c (seq r s) =
    let first = seq (derivative c r) s in
    let second = derivative c s in if nullable r then alt first second else first
derivative c (alt r s) = alt (derivative c r) (derivative c s)
derivative c (star r) = seq (derivative c r) (star r)

-- `^(?:r)$` on the whole text.
unfoldable pub test : Regex → List ℕ → Bool
unfolding derivative
test r [] = nullable r
test r (c ∷ s) = test (derivative c r) s

-- `r+` and `r?`
abbrev pub plus : Regex → Regex
plus r = seq r (star r)

abbrev pub optional : Regex → Regex
optional r = alt empty r

-- The case folding of the flag `i` on ASCII letters; no other code point folds to ASCII.
abbrev pub upper : ℕ → ℕ
upper c = if leb b'a' c && leb c b'z' then c - 32 else c

-- `toLowerCase` on ASCII letters.
abbrev pub lower : ℕ → ℕ
lower c = if leb b'A' c && leb c b'Z' then c + 32 else c

abbrev pub letter : ℕ → Regex
letter a = one (λ c. upper c == upper a)

abbrev pub word : List ℕ → Regex
word [] = empty
word (a ∷ s) = seq (letter a) (word s)

abbrev pub one_of : List ℕ → ℕ → Bool
one_of [] c = false
one_of (a ∷ s) c = c == a || one_of s c

-- `[^…]`; the sets that the clients exclude hold no letters, so the flag `i` does not matter.
abbrev pub none_of : List ℕ → Regex
none_of s = one (λ c. not (one_of s c))

-- `.`: no line terminator
abbrev pub any_char : Regex
any_char = none_of (0x0a ∷ 0x0d ∷ 0x2028 ∷ 0x2029 ∷ [])
