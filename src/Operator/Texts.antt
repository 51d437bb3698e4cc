-- ===== src/Operator/Texts.antt =====
-- Functions on texts of api/v1/run_types.go: the name of a volume and the registry of an image.
use pipeline_operator.Prelude.{
  ℕ, String, Bool, true, false, Option, none, some, List, [], ◌∷◌, ◌<>◌, ◌==◌, is_blank, leb,
  length, ◌≡◌, refl, ap, ◌∙◌, All, inl, inr, ◌&&◌, ◌||◌, ◌++◌, codes, Bool-cases, arith,
  if◌then◌else◌,
}
use text.Mathlib.TextLemmas.{cons-append}
use Prim.Native.Char.{Char, code}

-- The part before the first separator, and the parts after it.
abbrev pub split_first : ℕ → String → String × List String
split_first separator String.[] = ("", [])
split_first separator (String.◌∷◌ c s) =
    let rest = split_first separator s in
    if code c == separator then ("", rest.0 ∷ rest.1) else (String.◌∷◌ c rest.0, rest.1)

-- strings.Split(text, separator), for a separator of one character
abbrev pub split : ℕ → String → List String
split separator text = (split_first separator text).0 ∷ (split_first separator text).1

abbrev pub registry : String
registry = "docker.io/"

-- The part in front of the first "/" is the first one that SplitN gives.
unfoldable pub default_image_registry : String → String
default_image_registry image_path =
    if leb (length (split b'.' (split_first b'/' image_path).0)) 1
    then registry <> image_path
    else image_path

-- TrimPrefix(text, "/")
abbrev pub trim_prefix : String → String
trim_prefix String.[] = String.[]
trim_prefix (String.◌∷◌ c s) = if code c == b'/' then s else String.◌∷◌ c s

-- TrimSuffix(text, "/")
abbrev pub trim_suffix : String → String
trim_suffix String.[] = String.[]
trim_suffix (String.◌∷◌ c s) =
    let rest = trim_suffix s in
    if is_blank s && (code c == b'/') then String.[] else String.◌∷◌ c rest

-- The parts of a volume's text, or `none` for the error of a volume without a name. `Split` gives at
-- least one part.
unfoldable pub split_volume_corpus : String → Option (List String)
split_volume_corpus volume =
    let corpus = split_first b'/' (trim_suffix (trim_prefix volume)) in
    if is_blank corpus.0 then none else some (corpus.0 ∷ corpus.1)

abbrev pub has : ℕ → String → Bool
has separator String.[] = false
has separator (String.◌∷◌ c s) = (code c == separator) || has separator s

-- What is added behind a text with a separator does not change its first part.
split_first-append :
    (separator : ℕ) (s t : String)
    → has separator s ≡ true
    → (split_first separator (s <> t)).0 ≡ (split_first separator s).0
split_first-append separator String.[] t h = absurd (ground arith)
split_first-append separator (String.◌∷◌ c s) t h = elim (Bool-cases (code c == separator)) [
  | inl hit ↦ rw (cons-append, hit)
  | inr other ↦
      let later : has separator s ≡ true = rw other at h in
      rw (cons-append, other) (ap (λ r. String.◌∷◌ c r) (split_first-append separator s t later))
]

-- Completing the path of an image once more changes nothing.
pub default_image_registry_idempotent :
    (p : String) → default_image_registry (default_image_registry p) ≡ default_image_registry p
unfolding default_image_registry
default_image_registry_idempotent p =
    let first = split_first-append b'/' registry p refl in
    let few = leb (length (split b'.' (split_first b'/' p).0)) 1 in
    elim (Bool-cases few) [ inl bare ↦ rw (bare, first) | inr full ↦ rw (full, full) ]

-- The parts of a text with the separator between them.
abbrev pub join_parts : ℕ → String → List String → List ℕ
join_parts separator first [] = codes first
join_parts separator first (s ∷ rest) = codes first ++ separator ∷ join_parts separator s rest

join_parts-cons :
    (separator : ℕ) (c : Char) (s : String) (rest : List String)
    → join_parts separator (String.◌∷◌ c s) rest ≡ code c ∷ join_parts separator s rest
join_parts-cons separator c s [] = refl
join_parts-cons separator c s (t ∷ rest) = refl

join_parts-split_first :
    (separator : ℕ) (s : String)
    → join_parts separator (split_first separator s).0 (split_first separator s).1 ≡ codes s
join_parts-split_first separator String.[] = refl
join_parts-split_first separator (String.◌∷◌ c s) =
    let rest = join_parts-split_first separator s in
    elim (Bool-cases (code c == separator)) [
      | inl hit ↦
          let same : separator ≡ code c = ground arith in
          rw hit (ap (λ r. separator ∷ r) rest ∙ ap (λ d. d ∷ codes s) same)
      | inr other ↦ rw other (
          join_parts-cons separator c (split_first separator s).0 (split_first separator s).1
          ∙ ap (λ r. code c ∷ r) rest)
    ]

has-split_first :
    (separator : ℕ) (s : String) → All (λ t. has separator t ≡ false) (split separator s)
has-split_first separator String.[] = (refl, tt)
has-split_first separator (String.◌∷◌ c s) =
    let (first, rest) = has-split_first separator s in
    elim (Bool-cases (code c == separator)) [
      | inl hit ↦ rw hit (refl, (first, rest))
      | inr other ↦ rw other (rw other first, rest)
    ]

-- A volume with a name is cut into parts that hold no slash, and that make up its text again when
-- slashes are put between them, but for one slash at its start and one at its end; its first part,
-- the name of the claim, is not empty.
pub split_volume_corpus-eq-some :
    (volume name : String) (path : List String)
    → split_volume_corpus volume ≡ some (name ∷ path)
    → (is_blank name ≡ false)
      × (join_parts b'/' name path ≡ codes (trim_suffix (trim_prefix volume)))
      × All (λ t. has b'/' t ≡ false) (name ∷ path)
unfolding split_volume_corpus
split_volume_corpus-eq-some volume name path e =
    let text = trim_suffix (trim_prefix volume) in
    let corpus = split_first b'/' text in
    elim (Bool-cases (is_blank corpus.0)) [
      | inl empty ↦ absurd (
          let clash : none ≡ some (name ∷ path) = rw (empty, split_volume_corpus) at e in
          ground arith)
      | inr named ↦
          let whole : some (corpus.0 ∷ corpus.1) ≡ some (name ∷ path) =
            rw (named, split_volume_corpus) at e in
          let first : corpus.0 ≡ name = cc in
          let others : corpus.1 ≡ path = cc in
          rw (← first, ← others)
            (named, join_parts-split_first b'/' text, has-split_first b'/' text)
    ]
