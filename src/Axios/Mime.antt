-- ===== src/Axios/Mime.antt =====
-- `Configuration.isJsonMime` of generated/sdk/ts-axios/configuration.ts. `null` is `none`.
pub mod Laws
use pipeline_operator.Prelude.{
  ℕ, ◌+◌, String, Bool, true, false, ◌&&◌, ◌||◌, Option, none, some, List, [], ◌∷◌, map, codes, leb,
  ◌==◌, if◌then◌else◌,
}
use pipeline_operator.Regex.{Regex, seq, alt, star, test, optional, letter, word, lower, any_char}
use pipeline_operator.Runtime.Mime.{suffixed_type, blanks}

-- ^(application\/json|[^;/ \t]+\/[^;/ \t]+[+]json)[ \t]*(;.*)?$ with the flag `i`
unfoldable pub json_mime : Regex
json_mime =
    seq (alt (word (codes "application/json")) suffixed_type)
      (seq blanks (optional (seq (letter b';') (star any_char))))

abbrev pub same_codes : List ℕ → List ℕ → Bool
same_codes [] [] = true
same_codes (a ∷ s) (b ∷ t) = a == b && same_codes s t
same_codes _ _ = false

unfoldable pub is_json_mime : Option String → Bool
unfolding json_mime test
is_json_mime none = false
is_json_mime (some mime) =
    test json_mime (codes mime)
    || same_codes (map lower (codes mime)) (codes "application/json-patch+json")
