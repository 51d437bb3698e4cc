-- ===== src/Operator/Paths.antt =====
-- `toInsertBetweenFirstPath` of api/v1/run_types.go: a directory between the name of a volume and
-- the path in it.
use pipeline_operator.Prelude.{
  ℕ, String, ◌≡◌, ◌↔◌, refl, sym, ap, ◌⊎◌, inl, inr, true, false, Bool-cases, Option, none, some,
  ◌∷◌, ◌++◌, ◌<>◌, ◌==◌, codes, is_blank, arith, if◌then◌else◌,
}
use Prim.Native.Char.{code}
use pipeline_operator.Operator.Texts.{has}

-- strings.SplitN(text, separator, 2): what stands before the first separator, and what follows it.
abbrev pub cut : ℕ → String → String × Option String
cut separator String.[] = ("", none)
cut separator (String.◌∷◌ c s) =
    let rest = cut separator s in
    if code c == separator then ("", some s) else (String.◌∷◌ c rest.0, rest.1)

-- What comes of an insertion: a path, an error, or the panic of an index that is out of range.
pub data Insertion : Type 0 where
  inserted : String → Insertion
  refused panicked : Insertion

abbrev pub insert_after : String → String → Option String → Insertion
insert_after first directory none = panicked
insert_after first directory (some rest) =
    if is_blank rest then refused else inserted (first <> ("/" <> (directory <> ("/" <> rest))))

unfoldable pub insert_between_first_path : String → String → Insertion
insert_between_first_path path directory =
    insert_after (cut b'/' path).0 directory (cut b'/' path).1

cut-has :
    (separator : ℕ) (s : String)
    → ((has separator s ≡ false) × ((cut separator s).1 ≡ none))
      ⊎ ((has separator s ≡ true)
          × ((rest : String) × ((cut separator s).1 ≡ some rest)
              × (codes (cut separator s).0 ++ separator ∷ codes rest ≡ codes s)))
cut-has separator String.[] = inl (refl, refl)
cut-has separator (String.◌∷◌ c s) = elim (Bool-cases (code c == separator)) [
  | inl hit ↦
      let same : separator ≡ code c = ground arith in
      inr (rw hit refl, (s, rw hit refl, rw hit (ap (λ d. d ∷ codes s) same)))
  | inr other ↦ elim (cut-has separator s) [
    | inl (absent, nothing) ↦ inl (rw other absent, rw other nothing)
    | inr (present, (rest, found, whole)) ↦
        inr (rw other present, (rest, rw other found, rw other (ap (λ r. code c ∷ r) whole)))
  ]
]

has-cut : (separator : ℕ) (s : String) → has separator (cut separator s).0 ≡ false
has-cut separator String.[] = refl
has-cut separator (String.◌∷◌ c s) = elim (Bool-cases (code c == separator)) [
  | inl hit ↦ rw hit
  | inr other ↦ rw other (rw other (has-cut separator s))
]

inserted-ne-panicked : (out : String) → inserted out ≡ panicked → ⊥
inserted-ne-panicked out e = cc

refused-ne-inserted : (out : String) → refused ≡ inserted out → ⊥
refused-ne-inserted out e = cc

panicked-ne-inserted : (out : String) → panicked ≡ inserted out → ⊥
panicked-ne-inserted out e = cc

refused-ne-panicked : refused ≡ panicked → ⊥
refused-ne-panicked e = cc

insert_after-ne-panicked :
    (first directory rest : String) → insert_after first directory (some rest) ≡ panicked → ⊥
insert_after-ne-panicked first directory rest e = elim (Bool-cases (is_blank rest)) [
  | inl blank ↦ refused-ne-panicked (rw blank at e)
  | inr full ↦ inserted-ne-panicked _ (rw full at e)
]

-- The insertion panics exactly when the path holds no slash.
pub insert_between_first_path-eq-panicked_iff :
    (path directory : String)
    → (insert_between_first_path path directory ≡ panicked) ↔ (has b'/' path ≡ false)
unfolding insert_between_first_path
insert_between_first_path-eq-panicked_iff path directory = elim (cut-has b'/' path) [
  | inl (absent, nothing) ↦ ((λ e. absent), (λ h. rw nothing))
  | inr (present, (rest, found, whole)) ↦ (
    (λ e. elim (insert_after-ne-panicked (cut b'/' path).0 directory rest (rw found at e)) [ ]),
    (λ h. absurd (let clash : true ≡ false = rw present at h in ground arith)),
  )
]

insert_after-eq-inserted :
    (first directory rest out : String)
    → insert_after first directory (some rest) ≡ inserted out
    → (is_blank rest ≡ false) × (first <> ("/" <> (directory <> ("/" <> rest))) ≡ out)
insert_after-eq-inserted first directory rest out e = elim (Bool-cases (is_blank rest)) [
  | inl blank ↦ absurd (refused-ne-inserted out (rw blank at e))
  | inr full ↦
      let same : inserted (first <> ("/" <> (directory <> ("/" <> rest)))) ≡ inserted out =
        rw full at e in
      (full, cc)
]

-- An insertion that succeeds puts the directory behind the first slash of the path, with a slash
-- after it; what follows the first slash is not empty.
pub insert_between_first_path-eq-inserted :
    (path directory out : String)
    → insert_between_first_path path directory ≡ inserted out
    → (first : String) × (rest : String) × (has b'/' first ≡ false)
      × (codes path ≡ codes first ++ b'/' ∷ codes rest)
      × (is_blank rest ≡ false)
      × (out ≡ first <> ("/" <> (directory <> ("/" <> rest))))
unfolding insert_between_first_path
insert_between_first_path-eq-inserted path directory out e = elim (cut-has b'/' path) [
  | inl (absent, nothing) ↦ absurd (panicked-ne-inserted out (rw nothing at e))
  | inr (present, (rest, found, whole)) ↦
      let (full, same) =
        insert_after-eq-inserted (cut b'/' path).0 directory rest out (rw found at e) in
      ((cut b'/' path).0, rest, has-cut b'/' path, sym whole, full, sym same)
]
