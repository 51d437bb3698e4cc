-- ===== src/Operator/Cluster/Reachable.antt =====
-- A cluster with any number of runs: the operator passes over the jobs of a run, Kubernetes works on a
-- job, and jobs are removed. What holds in every store that this leads to.
use pipeline_operator.Prelude.{
  ◌≤◌, String, ◌≡◌, ◌≢◌, refl, ◌∙◌, inl, inr, ◌&&◌, Bool-cases, none, some, Option-cases, List, [],
  ◌∷◌, ◌++◌, All, All-append, str_eq, arith,
}
use pipeline_operator.Operator.State.{
  JobState, initializing, waiting, stopping, running, deleting, completed, deleted, failed, unknown,
  other, KubeJob, Phase, determine_job_state-ne-stopping, determine_from_order,
}
use pipeline_operator.Operator.Status.{Counts, no_jobs, count, sum_up, counts}
use pipeline_operator.Operator.Cluster.{
  GoPlatform, RunJob, Run, StoredJob, Store, is_named, find_job, replace_job, marked, new_job,
  ensure_job, ensure_jobs, ensure_job_list, run_notes,
}
use pipeline_operator.Operator.Cluster.Store.{
  count_named, is_named_iff, find_job-eq-none, count_named-append, count_named-replace_job,
  remove_job, count_named-remove_job, replace_job-All, remove_job-All, find_job-All,
}
use pipeline_operator.Operator.Cluster.Passes.{ensure_job-cases}

-- What may happen: a pass over the jobs of a run, whether it comes to its end or not; work on a job,
-- which leaves the operator's marks on it; a removal.
pub data Step (go : GoPlatform) : Store → Store → Type 0 where
  pass : (run : Run) (s : Store) → Step go s (ensure_job_list go run s).1
  worked :
      (s : Store) (name namespace : String) (old : StoredJob) (job : KubeJob) (phase : Phase)
      (pod_reason : String)
      → find_job name namespace s ≡ some old
      → job.suspend ≡ old.job.suspend
      → job.trigger ≡ old.job.trigger
      → Step go s (replace_job (record old { job = job; phase = phase; pod_reason = pod_reason }) s)
  removed : (s : Store) (name namespace : String) → Step go s (remove_job name namespace s)

pub data Reachable (go : GoPlatform) : Store → Type 0 where
  empty : Reachable go []
  next : {s t : Store} → Reachable go s → Step go s t → Reachable go t

abbrev pub IsUnique : Store → Type 0
IsUnique s = (name namespace : String) → count_named name namespace s ≤ 1

-- The operator has noted a job in a state other than `stopping`.
abbrev pub IsNoted : StoredJob → Type 0
IsNoted j = j.note ≢ stopping

abbrev IsSound : Store → Type 0
IsSound s = IsUnique s × All IsNoted s

append-IsUnique :
    (new : StoredJob) (s : Store)
    → find_job new.name new.namespace s ≡ none
    → IsUnique s
    → IsUnique (s ++ new ∷ [])
append-IsUnique new s gone unique name namespace =
    let grown = count_named-append name namespace new s in
    let before = unique name namespace in
    elim (Bool-cases (is_named name namespace new)) [
      | inl same ↦
          let (a, b) = (is_named_iff name namespace new).0 same in
          let zero_named : count_named name namespace s ≡ 0 =
            find_job-eq-none name namespace s (rw (← a, ← b) gone) in
          ground arith
      | inr other_name ↦ ground arith
    ]

module _ (go : GoPlatform) (run : Run) where
  ensure_job-IsSound :
      (desired : RunJob) (s t : Store)
      → ensure_job go run desired s ≡ some t
      → IsSound s
      → IsSound t
  unfolding new_job
  ensure_job-IsSound desired s t made (unique, noted) =
      elim (ensure_job-cases go run desired s t made) [
        | inl (gone, grown) ↦ rw grown (
          append-IsUnique (new_job go run desired) s gone unique,
          All-append IsNoted s (new_job go run desired ∷ []) noted ((λ e. ground arith), tt),
        )
        | inr (old, b, found, held, changed) ↦ rw changed (
          (λ name namespace.
              let same = count_named-replace_job name namespace (marked desired old b) s in
              let before = unique name namespace in omega arith),
          replace_job-All IsNoted (marked desired old b) s
              (determine_job_state-ne-stopping old.job old.phase) noted,
        )
      ]

  ensure_jobs-IsSound :
      (jobs : List RunJob) (s : Store) → IsSound s → IsSound (ensure_jobs go run jobs s).1
  unfolding ensure_jobs
  ensure_jobs-IsSound [] s h = h
  ensure_jobs-IsSound (j ∷ js) s h = elim (Option-cases (ensure_job go run j s)) [
    | inl missing ↦ rw (missing, ensure_jobs) h
    | inr (t, made) ↦
        rw (made, ensure_jobs) (ensure_jobs-IsSound js t (ensure_job-IsSound j s t made h))
  ]

Step-IsSound : {go : GoPlatform} {s t : Store} → Step go s t → IsSound s → IsSound t
unfolding ensure_job_list
Step-IsSound {go} (pass run s) h = ensure_jobs-IsSound go run run.jobs s h
Step-IsSound (worked s name namespace old job phase pod_reason found a b) (unique, noted) = (
  (λ n ns.
      let same =
        count_named-replace_job n ns
          (record old { job = job; phase = phase; pod_reason = pod_reason }) s in
      let before = unique n ns in omega arith),
  replace_job-All IsNoted (record old { job = job; phase = phase; pod_reason = pod_reason }) s
      (find_job-All IsNoted name namespace s old found noted) noted,
)
Step-IsSound (removed s name namespace) (unique, noted) = (
  (λ n ns.
      let fewer = count_named-remove_job name namespace n ns s in
      let before = unique n ns in omega arith),
  remove_job-All IsNoted name namespace s noted,
)

Reachable-IsSound : {go : GoPlatform} {s : Store} → Reachable go s → IsSound s
unfolding count_named
Reachable-IsSound empty = ((λ n ns. omega arith), tt)
Reachable-IsSound (next r step) = Step-IsSound step (Reachable-IsSound r)

-- Whatever passes of any runs, work of Kubernetes and removals came before: no two Kubernetes jobs
-- in a namespace have one name.
pub Reachable-count_named :
    {go : GoPlatform} {s : Store}
    → Reachable go s
    → (name namespace : String) → count_named name namespace s ≤ 1
Reachable-count_named r = (Reachable-IsSound r).0

run_notes-All : (run : Run) (s : Store) → All IsNoted s → All (λ n. n ≢ stopping) (run_notes run s)
unfolding run_notes
run_notes-All run [] h = tt
run_notes-All run (j ∷ js) (first, rest) =
    elim (Bool-cases (str_eq j.namespace run.namespace && str_eq j.run run.name)) [
      | inl own ↦ rw own (first, run_notes-All run js rest)
      | inr other_run ↦ rw other_run (run_notes-All run js rest)
    ]

count-stop : (c : Counts) (n : JobState) → n ≢ stopping → (count c n).stop ≡ c.stop
unfolding count
count-stop c initializing h = refl
count-stop c waiting h = refl
count-stop c stopping h = absurd (h refl)
count-stop c running h = refl
count-stop c deleting h = refl
count-stop c completed h = refl
count-stop c deleted h = refl
count-stop c failed h = refl
count-stop c unknown h = refl
count-stop c (other t) h = refl

sum_up-stop :
    (state : JobState) (c : Counts) (notes : List JobState)
    → All (λ n. n ≢ stopping) notes
    → (sum_up state c notes).1.stop ≡ c.stop
unfolding sum_up
sum_up-stop state c [] h = refl
sum_up-stop state c (n ∷ ns) (first, rest) =
    sum_up-stop (determine_from_order state n) (count c n) ns rest ∙ count-stop c n first

-- Whatever came before: the number of stopping jobs that the status of a run gives is zero.
pub Reachable-counts :
    {go : GoPlatform} {s : Store}
    → Reachable go s
    → (run : Run) → (counts (run_notes run s)).stop ≡ 0
unfolding counts
Reachable-counts {s = s} r run =
    sum_up-stop unknown no_jobs (run_notes run s) (run_notes-All run s (Reachable-IsSound r).1)
