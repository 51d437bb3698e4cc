-- ===== src/Operator/Cluster/Passes.antt =====
-- One pass of `ensureKJobList`: what becomes of each job of a run.
use pipeline_operator.Prelude.{
  String, ◌≡◌, refl, sym, ap, ◌∙◌, ◌⊎◌, inl, inr, Bool, true, false, Option, none, some,
  Option-cases, List, [], ◌∷◌, ◌++◌, All, ◌&&◌, str_eq, arith, if◌then◌else◌,
}
use pipeline_operator.Operator.Cluster.{
  GoPlatform, RunJob, Run, StoredJob, Store, is_named, find_job, replace_job, marked, held_back,
  kube_name, new_job, ensure_job, ensure_jobs,
}
use pipeline_operator.Operator.Cluster.Store.{
  is_named_iff, find_job-is_named, find_job-append, find_job-replace_job-other,
}

module _ (go : GoPlatform) (run : Run) where
  -- The outcomes of a round that does not fail.
  pub ensure_job-cases :
      (desired : RunJob) (store next : Store)
      → ensure_job go run desired store ≡ some next
      → ((find_job (kube_name go run desired) desired.namespace store ≡ none)
          × (next ≡ store ++ new_job go run desired ∷ []))
        ⊎ ((old : StoredJob) × (b : Bool) × (find_job
                (kube_name go run desired)
                desired.namespace
                store
              ≡ some old)
            × (held_back run.jobs store old ≡ some b)
            × (next ≡ replace_job (marked desired old b) store))
  unfolding ensure_job
  ensure_job-cases desired store next h =
      elim (Option-cases (find_job (kube_name go run desired) desired.namespace store)) [
        | inl gone ↦
            let made : some (store ++ new_job go run desired ∷ []) ≡ some next =
              rw (gone, ensure_job) at h in
            inl (gone, sym (cc))
        | inr (old, found) ↦ elim (Option-cases (held_back run.jobs store old)) [
          | inl missing ↦
              absurd (
                let clash : none ≡ some next = rw (found, missing, ensure_job) at h in ground arith)
          | inr (b, held) ↦
              let made : some (replace_job (marked desired old b) store) ≡ some next =
                rw (found, held, ensure_job) at h in
              inr (old, b, found, held, sym (cc))
        ]
      ]

  -- Whether a job of the run has another Kubernetes job than that of a name and a namespace.
  abbrev pub IsApart : String → String → RunJob → Type 0
  IsApart name namespace desired =
      (str_eq (kube_name go run desired) name && str_eq desired.namespace namespace) ≡ false

  -- No two jobs have one Kubernetes job.
  abbrev pub HasDistinctJobs : List RunJob → Type 0
  HasDistinctJobs [] = Unit
  HasDistinctJobs (j ∷ js) = All (IsApart (kube_name go run j) j.namespace) js × HasDistinctJobs js

  pub ensure_job-found :
      (name namespace : String) (desired : RunJob) (store next : Store)
      → ensure_job go run desired store ≡ some next
      → IsApart name namespace desired
      → find_job name namespace next ≡ find_job name namespace store
  unfolding new_job
  ensure_job-found name namespace desired store next h apart =
      elim (ensure_job-cases desired store next h) [
        | inl (gone, made) ↦
            ap (find_job name namespace) made
            ∙ find_job-append name namespace (new_job go run desired) store
            ∙ kept (find_job name namespace store)
        | inr (old, b, found, held, made) ↦
            let (same, there) =
              (is_named_iff (kube_name go run desired) desired.namespace old).0
                (find_job-is_named (kube_name go run desired) desired.namespace store old found) in
            let other : is_named name namespace (marked desired old b) ≡ false =
              rw (same, there) apart in
            ap (find_job name namespace) made
            ∙ find_job-replace_job-other name namespace (marked desired old b) store other
      ]
    where
      kept :
          (o : Option StoredJob)
          → (elim o [
            | some j ↦ some j
            | none ↦
                if is_named name namespace (new_job go run desired)
                then some (new_job go run desired)
                else none
          ])
            ≡ o
      kept none = rw apart
      kept (some j) = refl

  -- The first round of a pass that comes to its end, and the rest of the pass.
  pub ensure_jobs-first :
      (j : RunJob) (js : List RunJob) (store last : Store)
      → ensure_jobs go run (j ∷ js) store ≡ (true, last)
      → (next : Store) × (ensure_job go run j store ≡ some next)
        × (ensure_jobs go run js next ≡ (true, last))
  unfolding ensure_jobs
  ensure_jobs-first j js store last h = elim (Option-cases (ensure_job go run j store)) [
    | inl missing ↦
        let clash : false ≡ true =
          ap (λ o. o.0)
            (let e : (false, store) ≡ (true, last) = rw (missing, ensure_jobs) at h in e) in
        absurd (ground arith)
    | inr (next, made) ↦ (next, made, rw (made, ensure_jobs) at h)
  ]

  -- A pass changes what is found under the names of its jobs only.
  pub ensure_jobs-found :
      (name namespace : String) (jobs : List RunJob) (store last : Store)
      → ensure_jobs go run jobs store ≡ (true, last)
      → All (IsApart name namespace) jobs
      → find_job name namespace last ≡ find_job name namespace store
  unfolding ensure_jobs
  ensure_jobs-found name namespace [] store last h apart =
      ap (λ o. find_job name namespace o.1) (sym h)
  ensure_jobs-found name namespace (j ∷ js) store last h (first, rest) =
      let (next, made, later) = ensure_jobs-first j js store last h in
      ensure_jobs-found name namespace js next last later rest
      ∙ ensure_job-found name namespace j store next made first
