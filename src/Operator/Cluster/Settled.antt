-- ===== src/Operator/Cluster/Settled.antt =====
-- The stores that a pass of `ensureKJobList` leaves as they are.
use pipeline_operator.Prelude.{
  ◌≡◌, refl, sym, ap, ◌∙◌, ◌↔◌, inl, inr, Bool, true, false, ◌&&◌, Bool-cases, none, some, List, [],
  ◌∷◌, All, All-Occurs, map, str_eq, arith,
}
use pipeline_operator.Operator.State.{determine_job_state}
use pipeline_operator.Operator.Suspension.{suspends, suspends-eq-false_iff}
use pipeline_operator.Operator.Cluster.{
  GoPlatform, RunJob, Run, StoredJob, Store, find_job, replace_job, first_note, is_triggered,
  marked, held_back, kube_name, new_job, ensure_job, ensure_jobs, ensure_job_list,
}
use pipeline_operator.Operator.Cluster.Store.{
  is_named_refl, find_job-own, find_job-append, find_job-replace_job, replace_job-same,
}
use mathlib.Core.Path.{subst}
use pipeline_operator.Operator.Cluster.Listed.{
  IsFirst, IsFirst-Occurs, IsFirst-self_job, HasEnded, All-IsDone_iff,
}
use pipeline_operator.Operator.Cluster.Passes.{
  ensure_job-cases, HasDistinctJobs, ensure_jobs-first, ensure_jobs-found,
}

module _ (go : GoPlatform) (run : Run) where
  -- The Kubernetes job of a job is there, its noted state and reason are those that follow from its
  -- pods, it is suspended exactly if the jobs before it hold it back, and it has no trigger to be
  -- reset.
  abbrev pub IsSettled : Store → RunJob → Type 0
  IsSettled store desired =
      (old : StoredJob) × (find_job (kube_name go run desired) desired.namespace store ≡ some old)
      × (held_back run.jobs store old ≡ some old.job.suspend)
      × (old.note ≡ determine_job_state old.job old.phase)
      × (old.reason ≡ some old.pod_reason)
      × ((is_triggered old.job.trigger && str_eq desired.trigger "false") ≡ false)

  marked-eq :
      (desired : RunJob) (old : StoredJob) (b : Bool)
      → marked desired old b ≡ old
      → (b ≡ old.job.suspend)
        × (old.note ≡ determine_job_state old.job old.phase)
        × (old.reason ≡ some old.pod_reason)
        × ((is_triggered old.job.trigger && str_eq desired.trigger "false") ≡ false)
  marked-eq desired old b e = (
    ap (λ j. j.job.suspend) e,
    sym (ap (λ j. j.note) e),
    sym (ap (λ j. j.reason) e),
    elim (Bool-cases (is_triggered old.job.trigger && str_eq desired.trigger "false")) [
      | inr kept ↦ kept
      | inl reset ↦
          let (triggered, off) : (is_triggered old.job.trigger ≡ true)
              × (str_eq desired.trigger "false" ≡ true) =
            ground arith in
          let given : "false" ≡ old.job.trigger = rw (reset) at (ap (λ j. j.job.trigger) e) in
          let clash : is_triggered "false" ≡ true = ap is_triggered given ∙ triggered in
          absurd (ground arith)
    ],
  )

  IsSettled-marked :
      (desired : RunJob) (old : StoredJob)
      → old.note ≡ determine_job_state old.job old.phase
      → old.reason ≡ some old.pod_reason
      → (is_triggered old.job.trigger && str_eq desired.trigger "false") ≡ false
      → marked desired old old.job.suspend ≡ old
  IsSettled-marked desired old noted reasoned kept = rw (← noted, ← reasoned, kept)

  -- A first round that a later store does not differ from under its name has changed nothing.
  first-IsSettled :
      (j : RunJob) (store next : Store)
      → ensure_job go run j store ≡ some next
      → find_job (kube_name go run j) j.namespace next
        ≡ find_job (kube_name go run j) j.namespace store
      → IsSettled store j × (next ≡ store)
  unfolding new_job
  first-IsSettled j store next made same = elim (ensure_job-cases go run j store next made) [
    | inl (gone, grown) ↦
        let there : find_job (kube_name go run j) j.namespace next ≡ some (new_job go run j) =
          ap (find_job (kube_name go run j) j.namespace) grown
          ∙ find_job-append (kube_name go run j) j.namespace (new_job go run j) store
          ∙ rw (gone, is_named_refl (new_job go run j)) in
        absurd
          (let clash : none ≡ some (new_job go run j) = sym gone ∙ sym same ∙ there in ground arith)
    | inr (old, b, found, held, changed) ↦
        let new = marked j old b in
        let moved =
          λ (s : Store). find_job-own (kube_name go run j) j.namespace store s old found in
        let own : find_job old.name old.namespace store ≡ some old = moved store ∙ found in
        let there : find_job old.name old.namespace next ≡ some new =
          ap (find_job old.name old.namespace) changed ∙ find_job-replace_job new old store own in
        let kept : find_job old.name old.namespace next ≡ find_job old.name old.namespace store =
          moved next ∙ same ∙ sym (moved store) in
        let both : some new ≡ some old = sym there ∙ kept ∙ own in
        let e : new ≡ old = cc in
        let (suspended, noted, reasoned, untouched) = marked-eq j old b e in
        (
          (old, found, held ∙ ap some suspended, noted, reasoned, untouched),
          changed ∙ ap (λ k. replace_job k store) e ∙ replace_job-same old store own,
        )
  ]

  ensure_jobs-IsSettled :
      (jobs : List RunJob) (store : Store)
      → HasDistinctJobs go run jobs
      → ensure_jobs go run jobs store ≡ (true, store)
      → All (IsSettled store) jobs
  ensure_jobs-IsSettled [] store distinct h = tt
  ensure_jobs-IsSettled (j ∷ js) store (apart, distinct) h =
      let (next, made, later) = ensure_jobs-first go run j js store store h in
      let (settled, same) = first-IsSettled j store next made (
        sym
          (ensure_jobs-found go run (kube_name go run j) j.namespace js next store later apart)) in
      (
        settled,
        ensure_jobs-IsSettled js store distinct (ap (ensure_jobs go run js) (sym same) ∙ later),
      )

  IsSettled-ensure_jobs :
      (jobs : List RunJob) (store : Store)
      → All (IsSettled store) jobs
      → ensure_jobs go run jobs store ≡ (true, store)
  unfolding ensure_jobs
  IsSettled-ensure_jobs [] store h = refl
  IsSettled-ensure_jobs (j ∷ js) store ((old, found, held, noted, reasoned, untouched), rest) =
      let own : find_job old.name old.namespace store ≡ some old =
        find_job-own (kube_name go run j) j.namespace store store old found ∙ found in
      let round : ensure_job go run j store ≡ some store = rw (
        ensure_job,
        found,
        held,
        IsSettled-marked j old noted reasoned untouched,
        replace_job-same old store own,
      ) in
      rw (round, ensure_jobs) (IsSettled-ensure_jobs js store rest)

  -- If no two jobs of a run share a Kubernetes job, a pass comes to its end and leaves the store as it
  -- is exactly when every job of the run is settled: its Kubernetes job is there, annotated with the
  -- state and the reason that follow from its pods, suspended as the loop over the jobs before it
  -- says, and without a trigger to be reset.
  pub ensure_job_list-IsSettled_iff :
      (store : Store)
      → HasDistinctJobs go run run.jobs
      → (ensure_job_list go run store ≡ (true, store)) ↔ All (IsSettled store) run.jobs
  unfolding ensure_job_list
  ensure_job_list-IsSettled_iff store distinct =
      (ensure_jobs-IsSettled run.jobs store distinct, IsSettled-ensure_jobs run.jobs store)

  -- In a store that a pass leaves as it is, take a job of the run that is the first of the run with
  -- the job label of its Kubernetes job, and whose Kubernetes job is not triggered. That is not
  -- suspended exactly when, for each name in `runBefore` of the job, some Kubernetes job has this name
  -- as its job label in the namespace of the job (in any, if that is empty), and the first one listed,
  -- whichever run it is of, is noted as completed or deleted. No two jobs of the run share a
  -- Kubernetes job.
  pub ensure_job_list-released_iff :
      (store : Store) (desired : RunJob) (old : StoredJob)
      → HasDistinctJobs go run run.jobs
      → ensure_job_list go run store ≡ (true, store)
      → find_job (kube_name go run desired) desired.namespace store ≡ some old
      → IsFirst (λ j. str_eq old.run_job j.name) desired run.jobs
      → is_triggered old.job.trigger ≡ false
      → (old.job.suspend ≡ false) ↔ All (HasEnded desired.namespace store) desired.run_before
  unfolding held_back
  ensure_job_list-released_iff store desired old distinct kept found own untriggered =
      let settled = (ensure_job_list-IsSettled_iff store distinct).0 kept in
      let (current, there, held, noted, reasoned, untouched) =
        All-Occurs (IsSettled store) desired run.jobs settled
          (IsFirst-Occurs (λ j. str_eq old.run_job j.name) desired run.jobs own) in
      let both : some current ≡ some old = sym there ∙ found in
      let e : current ≡ old = cc in
      let self = IsFirst-self_job old.run_job desired run.jobs own in
      let notes = map (λ b. first_note desired.namespace b store) desired.run_before in
      let held_old : held_back run.jobs store old ≡ some old.job.suspend =
        subst (λ k. held_back run.jobs store k ≡ some k.job.suspend) e held in
      let free : suspends false notes ≡ some old.job.suspend =
        ap (λ k. suspends false (map (λ b. first_note k.namespace b store) k.run_before)) (sym self)
        ∙ rw (← untriggered) held_old in
      let (to, from) = suspends-eq-false_iff notes in
      let (listed, noted_done) = All-IsDone_iff desired.namespace store desired.run_before in
      (
        (λ h. listed (to (free ∙ ap some h))),
        (λ h. some_injective (sym free ∙ from (noted_done h))),
      )
    where
      some_injective : {a b : Bool} → some a ≡ some b → a ≡ b
      some_injective e = cc
