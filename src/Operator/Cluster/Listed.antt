-- ===== src/Operator/Cluster/Listed.antt =====
-- The first element of a list with a property, and with it what the lookups of `ensureKJobList` by
-- label and by job name find.
use pipeline_operator.Prelude.{
  String, ◌≡◌, refl, sym, ap, ◌∙◌, ◌↔◌, ◌⊎◌, inl, inr, Bool, true, false, Bool-cases, some, List,
  [], ◌∷◌, All, Occurs, map, str_eq, arith,
}
use pipeline_operator.Operator.State.{JobState, completed, deleted}
use pipeline_operator.Operator.Suspension.{IsDone}
use pipeline_operator.Operator.Cluster.{RunJob, StoredJob, Store, is_listed, first_note, self_job}

-- The first element at which a test succeeds.
abbrev pub IsFirst : {A : Type 0} → (A → Bool) → A → List A → Type 0
IsFirst p x [] = ⊥
IsFirst p x (y ∷ ys) = ((p y ≡ true) × (x ≡ y)) ⊎ ((p y ≡ false) × IsFirst p x ys)

pub IsFirst-Occurs :
    {A : Type 0} (p : A → Bool) (x : A) (ys : List A) → IsFirst p x ys → Occurs x ys
IsFirst-Occurs p x [] h = elim h [ ]
IsFirst-Occurs p x (y ∷ ys) (inl (hit, e)) = inl e
IsFirst-Occurs p x (y ∷ ys) (inr (miss, h)) = inr (IsFirst-Occurs p x ys h)

pub IsFirst-self_job :
    (label : String) (j : RunJob) (jobs : List RunJob)
    → IsFirst (λ k. str_eq label k.name) j jobs
    → self_job label jobs ≡ j
unfolding self_job
IsFirst-self_job label j [] h = elim h [ ]
IsFirst-self_job label j (k ∷ ks) (inl (hit, e)) = rw hit (sym e)
IsFirst-self_job label j (k ∷ ks) (inr (miss, h)) = rw miss (IsFirst-self_job label j ks h)

-- A job that has ended, other than by failing, as its note says.
abbrev pub IsOver : JobState → Type 0
IsOver n = (n ≡ completed) ⊎ (n ≡ deleted)

-- The first job that is listed with a label, whichever run it is of, is noted as ended.
abbrev pub HasEnded : String → Store → String → Type 0
HasEnded namespace s label =
    (k : StoredJob) × IsFirst (is_listed namespace label) k s × IsOver k.note

module _ (namespace label : String) where
  first_note-found :
      (s : Store) (n : JobState)
      → first_note namespace label s ≡ some n
      → (k : StoredJob) × IsFirst (is_listed namespace label) k s × (k.note ≡ n)
  unfolding first_note
  first_note-found [] n h = absurd (ground arith)
  first_note-found (j ∷ js) n h = elim (Bool-cases (is_listed namespace label j)) [
    | inl hit ↦
        let e : some j.note ≡ some n = rw (hit) at h in
        let same : j.note ≡ n = cc in (j, inl (hit, refl), same)
    | inr miss ↦
        let later : first_note namespace label js ≡ some n = rw (miss) at h in
        let (k, first, same) = first_note-found js n later in (k, inr (miss, first), same)
  ]

  IsFirst-first_note :
      (s : Store) (k : StoredJob)
      → IsFirst (is_listed namespace label) k s
      → first_note namespace label s ≡ some k.note
  unfolding first_note
  IsFirst-first_note [] k h = elim h [ ]
  IsFirst-first_note (j ∷ js) k (inl (hit, e)) = rw hit (ap (λ i. some i.note) (sym e))
  IsFirst-first_note (j ∷ js) k (inr (miss, h)) = rw miss (IsFirst-first_note js k h)

  IsDone-HasEnded : (s : Store) → IsDone (first_note namespace label s) → HasEnded namespace s label
  IsDone-HasEnded s (inl e) =
      let (k, first, same) = first_note-found s completed e in (k, first, inl same)
  IsDone-HasEnded s (inr e) =
      let (k, first, same) = first_note-found s deleted e in (k, first, inr same)

  HasEnded-IsDone : (s : Store) → HasEnded namespace s label → IsDone (first_note namespace label s)
  HasEnded-IsDone s (k, first, inl e) = inl (IsFirst-first_note s k first ∙ ap some e)
  HasEnded-IsDone s (k, first, inr e) = inr (IsFirst-first_note s k first ∙ ap some e)

pub All-IsDone_iff :
    (namespace : String) (s : Store) (labels : List String)
    → All IsDone (map (λ l. first_note namespace l s) labels) ↔ All (HasEnded namespace s) labels
All-IsDone_iff namespace s [] = ((λ h. tt), (λ h. tt))
All-IsDone_iff namespace s (l ∷ ls) =
    let (to, from) = All-IsDone_iff namespace s ls in
    (
      (λ h. (IsDone-HasEnded namespace l s h.0, to h.1)),
      (λ h. (HasEnded-IsDone namespace l s h.0, from h.1)),
    )
