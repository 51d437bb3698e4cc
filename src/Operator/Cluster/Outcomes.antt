-- ===== src/Operator/Cluster/Outcomes.antt =====
-- What a pass that comes to its end does to each job of the run.
use pipeline_operator.Prelude.{
  String, ◌≡◌, refl, sym, ap, ◌∙◌, ◌⊎◌, inl, inr, Bool, true, false, Bool-cases, Option, none, some,
  List, [], ◌∷◌, All-Occurs, Occurs, str_eq, str_eq_iff, arith,
}
use mathlib.Core.Path.{subst}
use pipeline_operator.Operator.State.{determine_job_state}
use pipeline_operator.Operator.Cluster.{
  GoPlatform, RunJob, Run, StoredJob, Store, find_job, marked, kube_name, new_job, ensure_job,
  ensure_jobs, ensure_job_list,
}
use pipeline_operator.Operator.Cluster.Store.{
  is_named_refl, find_job-own, find_job-append, find_job-replace_job,
}
use pipeline_operator.Operator.Cluster.Passes.{
  ensure_job-cases, ensure_job-found, IsApart, HasDistinctJobs, ensure_jobs-first,
  ensure_jobs-found,
}

str_eq_comm : (s t : String) → str_eq s t ≡ str_eq t s
str_eq_comm s t = elim (Bool-cases (str_eq s t)) [
  | inl same ↦ let e : s ≡ t = (str_eq_iff s t).0 same in same ∙ sym ((str_eq_iff t s).1 (sym e))
  | inr other ↦ elim (Bool-cases (str_eq t s)) [
    | inl same ↦
        let e : t ≡ s = (str_eq_iff t s).0 same in
        let clash : false ≡ true = sym other ∙ (str_eq_iff s t).1 (sym e) in absurd (ground arith)
    | inr apart ↦ other ∙ sym apart
  ]
]

module _ (go : GoPlatform) (run : Run) where
  abbrev pub found_for : RunJob → Store → Option StoredJob
  found_for j = find_job (kube_name go run j) j.namespace

  -- A job that had no Kubernetes job has a new one; a job that had one has it marked anew.
  abbrev pub IsOutcome : RunJob → Store → Store → Type 0
  IsOutcome j store last =
      ((found_for j store ≡ none) × (found_for j last ≡ some (new_job go run j)))
      ⊎ ((old : StoredJob) × (b : Bool) × (found_for j store ≡ some old)
          × (found_for j last ≡ some (marked j old b)))

  ensure_job-IsOutcome :
      (j : RunJob) (store next : Store)
      → ensure_job go run j store ≡ some next
      → IsOutcome j store next
  unfolding new_job
  ensure_job-IsOutcome j store next made = elim (ensure_job-cases go run j store next made) [
    | inl (gone, grown) ↦ inl (
      gone,
      ap (found_for j) grown
          ∙ find_job-append (kube_name go run j) j.namespace (new_job go run j) store
          ∙ rw (gone, is_named_refl (new_job go run j)),
    )
    | inr (old, b, found, held, changed) ↦
        let moved =
          λ (s : Store). find_job-own (kube_name go run j) j.namespace store s old found in
        inr (
          old,
          b,
          found,
          sym (moved next)
              ∙ ap (find_job old.name old.namespace) changed
              ∙ find_job-replace_job (marked j old b) old store (moved store ∙ found),
        )
  ]

  IsOutcome-later :
      (j : RunJob) (store next last : Store)
      → found_for j last ≡ found_for j next
      → IsOutcome j store next
      → IsOutcome j store last
  IsOutcome-later j store next last same (inl (gone, made)) = inl (gone, same ∙ made)
  IsOutcome-later j store next last same (inr (old, b, found, made)) =
      inr (old, b, found, same ∙ made)

  IsOutcome-earlier :
      (j : RunJob) (store next last : Store)
      → found_for j next ≡ found_for j store
      → IsOutcome j next last
      → IsOutcome j store last
  IsOutcome-earlier j store next last same (inl (gone, made)) = inl (sym same ∙ gone, made)
  IsOutcome-earlier j store next last same (inr (old, b, found, made)) =
      inr (old, b, sym same ∙ found, made)

  ensure_jobs-IsOutcome :
      (jobs : List RunJob) (j : RunJob) (store last : Store)
      → HasDistinctJobs go run jobs
      → Occurs j jobs
      → ensure_jobs go run jobs store ≡ (true, last)
      → IsOutcome j store last
  ensure_jobs-IsOutcome [] j store last distinct member h = absurd (ground arith)
  ensure_jobs-IsOutcome (k ∷ ks) j store last (apart, distinct) (inl same) h =
      let (next, made, later) = ensure_jobs-first go run k ks store last h in
      subst (λ i. IsOutcome i store last) (sym same)
        (IsOutcome-later k store next last
          (ensure_jobs-found go run (kube_name go run k) k.namespace ks next last later apart)
          (ensure_job-IsOutcome k store next made))
  ensure_jobs-IsOutcome (k ∷ ks) j store last (apart, distinct) (inr member) h =
      let (next, made, later) = ensure_jobs-first go run k ks store last h in
      let other = All-Occurs (IsApart go run (kube_name go run k) k.namespace) j ks apart member in
      let first : IsApart go run (kube_name go run j) j.namespace k =
        rw
          (
            str_eq_comm (kube_name go run k) (kube_name go run j),
            str_eq_comm k.namespace j.namespace,
          )
          other in
      IsOutcome-earlier j store next last
        (ensure_job-found go run (kube_name go run j) j.namespace k store next made first)
        (ensure_jobs-IsOutcome ks j next last distinct member later)

  -- After a pass that came to its end every job of a run has its Kubernetes job, if the names are
  -- different: one that was there before, noted in the state that followed from its pods, or a new
  -- one, which is suspended exactly if the trigger of the job says so, whatever it waits for.
  pub ensure_job_list-noted :
      (j : RunJob) (store last : Store)
      → HasDistinctJobs go run run.jobs
      → Occurs j run.jobs
      → ensure_job_list go run store ≡ (true, last)
      → (new : StoredJob) × (found_for j last ≡ some new)
        × (((found_for j store ≡ none) × (new.job.suspend ≡ go.parse_bool j.trigger))
            ⊎ ((old : StoredJob) × (found_for j store ≡ some old)
                × (new.note ≡ determine_job_state old.job old.phase)))
  unfolding ensure_job_list new_job
  ensure_job_list-noted j store last distinct member h =
      elim (ensure_jobs-IsOutcome run.jobs j store last distinct member h) [
        | inl (gone, made) ↦ (new_job go run j, made, inl (gone, refl))
        | inr (old, b, found, made) ↦ (marked j old b, made, inr (old, found, refl))
      ]
