-- ===== src/Runtime/Mime.antt =====
-- `BaseAPI.isJsonMime` and its `jsonRegex`, generated/sdk/ts-fetch/runtime.ts. `null` and
-- `undefined` are `none`.
pub mod Language
pub mod Laws
use pipeline_operator.Prelude.{
  String, Bool, false, Option, none, some, [], ◌∷◌, codes, is_blank, if◌then◌else◌,
}
use pipeline_operator.Regex.{
  Regex, seq, alt, star, one, test, plus, optional, letter, word, none_of, one_of, any_char,
}

-- [^;/ \t]+\/[^;/ \t]+[+]json
abbrev pub suffixed_type : Regex
suffixed_type =
    let name = plus (none_of (b';' ∷ b'/' ∷ b' ' ∷ 0x09 ∷ [])) in
    seq name (seq (letter b'/') (seq name (word (codes "+json"))))

-- [ \t]*
abbrev pub blanks : Regex
blanks = star (one (one_of (b' ' ∷ 0x09 ∷ [])))

-- (:?;.*)? The parentheses capture: `:?` is an optional colon.
abbrev pub parameters : Regex
parameters = optional (seq (optional (letter b':')) (seq (letter b';') (star any_char)))

-- ^(:?application\/json|[^;/ \t]+\/[^;/ \t]+[+]json)[ \t]*(:?;.*)?$ with the flag `i`
unfoldable pub json_regex : Regex
json_regex =
    seq (alt (seq (optional (letter b':')) (word (codes "application/json"))) suffixed_type)
      (seq blanks parameters)

unfoldable pub is_json_mime : Option String → Bool
unfolding json_regex test
is_json_mime none = false
is_json_mime (some mime) = if is_blank mime then false else test json_regex (codes mime)
