-- ===== src/Runtime/Mime/Laws.antt =====
-- `isJsonMime` of the fetch client, compared with that of the axios client.
use pipeline_operator.Prelude.{
  ℕ, String, ◌≡◌, refl, inl, inr, true, false, some, List, [], ◌∷◌, ◌++◌, codes, ◌<>◌, is_blank,
  codes-append, is_blank-append,
}
use pipeline_operator.Regex.{seq, word, letter, optional}
use pipeline_operator.Regex.Matching.{
  Matches, nothing, pair, single, left, right, done, alt-Matches, test_iff,
}
use pipeline_operator.Runtime.Mime.{json_regex, is_json_mime, parameters}
use pipeline_operator.Runtime.Mime.Language.{Matches-word, Matches-star_one}
use pipeline_operator.Axios.Mime
use pipeline_operator.Axios.Mime.{json_mime}
use pipeline_operator.Axios.Mime.Laws.{IsJsonMime, IsParameters, Matches-type, is_json_mime_iff}

-- An expression for parameters with no colon before the semicolon fits this one too.
Matches-colon_parameters : {s : List ℕ} → IsParameters s → Matches parameters s
Matches-colon_parameters (inl e) = rw e (left nothing)
Matches-colon_parameters (inr (t, e, line)) =
    rw e (right (pair refl (left nothing) (pair refl (single refl) (Matches-star_one _ t line))))

Matches-json_regex : {s : List ℕ} → IsJsonMime s → Matches json_regex s
unfolding json_regex
Matches-json_regex d =
    pair d.parts
      (elim (alt-Matches (Matches-type d.is_type)) [
        | inl m ↦ left (pair refl (left nothing) m)
        | inr m ↦ right m
      ])
      (pair refl (Matches-star_one _ d.space d.is_space) (Matches-colon_parameters d.is_rest))

is_json_mime-Matches :
    (m : String) → is_blank m ≡ false → Matches json_regex (codes m) → is_json_mime (some m) ≡ true
unfolding is_json_mime
is_json_mime-Matches m filled k = rw filled ((test_iff json_regex (codes m)).1 k)

blank-refused : (m : String) → Mime.is_json_mime (some m) ≡ true → is_blank m ≡ false
unfolding Mime.is_json_mime
blank-refused String.[] h = cc
blank-refused (String.◌∷◌ c s) h = refl

-- Whatever the axios client takes for JSON, the fetch client does too.
pub is_json_mime_axios :
    (m : String) → Mime.is_json_mime (some m) ≡ true → is_json_mime (some m) ≡ true
is_json_mime_axios m h =
    is_json_mime-Matches m (blank-refused m h) (Matches-json_regex ((is_json_mime_iff m).0 h))

Matches-colon_type :
    (t : List ℕ) → IsParameters t → Matches json_regex (codes ":application/json" ++ t)
unfolding json_regex
Matches-colon_type t d =
    let json = codes "application/json" in
    let colon : Matches (optional (letter b':')) (b':' ∷ []) = right (single refl) in
    let plain : Matches (seq (optional (letter b':')) (word json)) (b':' ∷ json) =
      pair {s = b':' ∷ []} refl colon (Matches-word json json refl) in
    pair {s = codes ":application/json"} refl (left plain)
      (pair {s = []} refl done (Matches-colon_parameters d))

-- `(:?` in the expression stands for an optional colon: the fetch client takes
-- `:application/json` for JSON, with any parameters.
pub is_json_mime_colon :
    (p : String) → IsParameters (codes p) → is_json_mime (some (":application/json" <> p)) ≡ true
is_json_mime_colon p d =
    is_json_mime-Matches (":application/json" <> p) (rw (is_blank-append ":application/json" p))
      (rw (codes-append ":application/json" p) (Matches-colon_type (codes p) d))
