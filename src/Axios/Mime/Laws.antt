-- ===== src/Axios/Mime/Laws.antt =====
-- What `isJsonMime` of the axios client takes for a JSON media type.
use pipeline_operator.Prelude.{
  ℕ, String, ◌≡◌, ◌≢◌, refl, sym, ap, ◌∙◌, ◌↔◌, ◌⊎◌, inl, inr, Bool, true, false, not, ◌||◌, some,
  List, [], ◌∷◌, ◌++◌, map, arith, All, codes, ◌==◌, Bool-cases,
}
use pipeline_operator.Regex.{
  one, seq, alt, star, test, plus, optional, letter, word, one_of, any_char, upper, lower,
}
use pipeline_operator.Regex.Folding.{Insensitive, test-lower, upper-lower, Insensitive-word}
use pipeline_operator.Regex.Matching.{
  Matches, nothing, single, pair, left, right, empty-Matches, seq-Matches, alt-Matches, test_iff,
}
use pipeline_operator.Runtime.Mime.{suffixed_type}
use pipeline_operator.Runtime.Mime.Language.{
  word-Matches, Matches-word, star_one-Matches, Matches-star_one, one-Matches,
}
use pipeline_operator.Axios.Mime.{json_mime, is_json_mime, same_codes}

-- A part of a media type: not empty, without `;`, `/`, space and tab.
abbrev pub IsName : List ℕ → Type 0
IsName s = (s ≢ []) × All (λ c. not (one_of (b';' ∷ b'/' ∷ b' ' ∷ 0x09 ∷ []) c) ≡ true) s

-- `application/json`, or two names of which the second ends in `+json`, up to case.
abbrev pub IsJsonType : List ℕ → Type 0
IsJsonType s =
    (map upper s ≡ map upper (codes "application/json"))
    ⊎ ((a : List ℕ) × (b : List ℕ) × (e : List ℕ) × (s ≡ a ++ b'/' ∷ (b ++ e))
        × IsName a
        × IsName b
        × (map upper e ≡ map upper (codes "+json")))

-- Nothing, or `;` and text on one line.
abbrev pub IsParameters : List ℕ → Type 0
IsParameters s =
    (s ≡ [])
    ⊎ ((t : List ℕ) × (s ≡ b';' ∷ t)
        × All (λ c. not (one_of (0x0a ∷ 0x0d ∷ 0x2028 ∷ 0x2029 ∷ []) c) ≡ true) t)

-- A type, blanks, and parameters.
pub record IsJsonMime (s : List ℕ) : Type 0 where
  pub kind : List ℕ
  pub space : List ℕ
  pub rest : List ℕ
  pub parts : kind ++ (space ++ rest) ≡ s
  pub is_type : IsJsonType kind
  pub is_space : All (λ c. one_of (b' ' ∷ 0x09 ∷ []) c ≡ true) space
  pub is_rest : IsParameters rest

-- Each part of the expression against its description.
plus_one-Matches :
    {p : ℕ → Bool} {s : List ℕ} → Matches (plus (one p)) s → (s ≢ []) × All (λ c. p c ≡ true) s
plus_one-Matches m =
    let (u, t, e, n, k) = seq-Matches m in
    let (c, only, accepted) = one-Matches n in
    let whole : c ∷ t ≡ _ = ap (λ v. v ++ t) (sym only) ∙ e in
    rw (← whole) ((λ h. cc), (accepted, star_one-Matches k))

Matches-plus_one :
    (p : ℕ → Bool) (s : List ℕ) → s ≢ [] → All (λ c. p c ≡ true) s → Matches (plus (one p)) s
Matches-plus_one p [] h k = absurd (h refl)
Matches-plus_one p (c ∷ s) h k = pair refl (single k.0) (Matches-star_one p s k.1)

letter-Matches :
    (a : ℕ) (s : List ℕ)
    → ((c : ℕ) → (upper c == upper a) ≡ true → c ≡ a)
    → Matches (letter a) s
    → s ≡ a ∷ []
letter-Matches a s alone m =
    let (c, only, same) = one-Matches m in only ∙ ap (λ d. d ∷ []) (alone c same)

pub suffixed_type-Matches : {s : List ℕ} → Matches suffixed_type s → IsJsonType s
suffixed_type-Matches {s} m =
    let (a, t, e₁, ma, mt) = seq-Matches m in
    let (slash, u, e₂, ms, mu) = seq-Matches mt in
    let (b, e, e₃, mb, me) = seq-Matches mu in
    let is_slash = letter-Matches b'/' slash (λ c h. ground arith) ms in
    let tail = sym e₂ ∙ ap (λ v. v ++ u) is_slash ∙ ap (λ v. b'/' ∷ v) (sym e₃) in
    inr (
      a,
      b,
      e,
      sym e₁ ∙ ap (λ v. a ++ v) tail,
      plus_one-Matches ma,
      plus_one-Matches mb,
      word-Matches (codes "+json") e me,
    )

pub Matches-type :
    {s : List ℕ} → IsJsonType s → Matches (alt (word (codes "application/json")) suffixed_type) s
Matches-type {s} (inl e) = left {q = suffixed_type} (Matches-word (codes "application/json") s e)
Matches-type (inr (a, b, e, whole, na, nb, same)) = right (
    rw whole (
      pair refl (Matches-plus_one _ a na.0 na.1) (
        pair refl (single refl)
          (pair refl (Matches-plus_one _ b nb.0 nb.1) (Matches-word (codes "+json") e same)))))

pub Matches-parameters :
    {s : List ℕ} → IsParameters s → Matches (optional (seq (letter b';') (star any_char))) s
Matches-parameters (inl e) = rw e (left nothing)
Matches-parameters (inr (t, e, line)) =
    rw e (right (pair refl (single refl) (Matches-star_one _ t line)))

IsParameters-Matches :
    {s : List ℕ} → Matches (optional (seq (letter b';') (star any_char))) s → IsParameters s
IsParameters-Matches m = elim (alt-Matches m) [
  | inl n ↦ inl (empty-Matches n)
  | inr n ↦
      let (u, t, e, mu, mt) = seq-Matches n in
      let is_semi = letter-Matches b';' u (λ c h. ground arith) mu in
      inr (t, sym e ∙ ap (λ v. v ++ t) is_semi, star_one-Matches mt)
]

pub json_mime-Matches : {s : List ℕ} → Matches json_mime s → IsJsonMime s
unfolding json_mime
json_mime-Matches m =
    let (kind, t, e, mk, mt) = seq-Matches m in
    let (space, rest, e', ms, mr) = seq-Matches mt in
    record {
      kind = kind;
      space = space;
      rest = rest;
      parts = ap (λ v. kind ++ v) e' ∙ e;
      is_type = elim (alt-Matches mk) [
        | inl n ↦ inl (word-Matches (codes "application/json") kind n)
        | inr n ↦ suffixed_type-Matches n
      ];
      is_space = star_one-Matches ms;
      is_rest = IsParameters-Matches mr;
    }

Matches-json_mime : {s : List ℕ} → IsJsonMime s → Matches json_mime s
unfolding json_mime
Matches-json_mime d =
    pair d.parts (Matches-type d.is_type)
      (pair refl (Matches-star_one _ d.space d.is_space) (Matches-parameters d.is_rest))

name_codes-lower :
    (c : ℕ)
    → not (one_of (b';' ∷ b'/' ∷ b' ' ∷ 0x09 ∷ []) (lower c))
      ≡ not (one_of (b';' ∷ b'/' ∷ b' ' ∷ 0x09 ∷ []) c)
name_codes-lower c = ground arith

blank_codes-lower : (c : ℕ) → one_of (b' ' ∷ 0x09 ∷ []) (lower c) ≡ one_of (b' ' ∷ 0x09 ∷ []) c
blank_codes-lower c = ground arith

line_codes-lower :
    (c : ℕ)
    → not (one_of (0x0a ∷ 0x0d ∷ 0x2028 ∷ 0x2029 ∷ []) (lower c))
      ≡ not (one_of (0x0a ∷ 0x0d ∷ 0x2028 ∷ 0x2029 ∷ []) c)
line_codes-lower c = ground arith

letter-lower : (a c : ℕ) → (upper (lower c) == upper a) ≡ (upper c == upper a)
letter-lower a c = ap (λ d. d == upper a) (upper-lower c)

pub Insensitive-suffixed_type : Insensitive suffixed_type
Insensitive-suffixed_type = (
  (name_codes-lower, name_codes-lower),
  (letter-lower b'/', ((name_codes-lower, name_codes-lower), Insensitive-word (codes "+json"))),
)

Insensitive-json_mime : Insensitive json_mime
unfolding json_mime
Insensitive-json_mime = (
  (Insensitive-word (codes "application/json"), Insensitive-suffixed_type),
  (blank_codes-lower, (tt, (letter-lower b';', line_codes-lower))),
)

or-false : (b : Bool) → (b || false) ≡ b
or-false true = refl
or-false false = refl

same_codes-eq : (s t : List ℕ) → same_codes s t ≡ true → s ≡ t
same_codes-eq [] [] h = refl
same_codes-eq (a ∷ s) (b ∷ t) h =
    let first : a ≡ b = ground arith in let rest = same_codes-eq s t (ground arith) in cc
same_codes-eq _ _ h = cc

patch_type : test json_mime (codes "application/json-patch+json") ≡ true
unfolding json_mime test
patch_type = refl

-- The second test of the axios client, for `application/json-patch+json`, adds nothing: its regular
-- expression accepts that type already.
pub is_json_mime-eq-test : (m : String) → is_json_mime (some m) ≡ test json_mime (codes m)
unfolding is_json_mime
is_json_mime-eq-test m =
    elim (Bool-cases (same_codes (map lower (codes m)) (codes "application/json-patch+json"))) [
      | inl patch ↦
          let accepted : test json_mime (codes m) ≡ true =
            sym (test-lower json_mime (codes m) Insensitive-json_mime)
            ∙ ap (test json_mime) {y = codes "application/json-patch+json"}
                (same_codes-eq (map lower (codes m)) (codes "application/json-patch+json") patch)
            ∙ patch_type in
          rw accepted
      | inr other ↦ rw other (or-false (test json_mime (codes m)))
    ]

-- For the axios client a text is JSON exactly when it is a JSON type, blanks and parameters.
pub is_json_mime_iff : (m : String) → (is_json_mime (some m) ≡ true) ↔ IsJsonMime (codes m)
is_json_mime_iff m =
    let (to, from) = test_iff json_mime (codes m) in
    (
      λ h. json_mime-Matches (to (sym (is_json_mime-eq-test m) ∙ h)),
      λ d. is_json_mime-eq-test m ∙ from (Matches-json_mime d),
    )
