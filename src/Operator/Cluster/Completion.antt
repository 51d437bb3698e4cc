-- ===== src/Operator/Cluster/Completion.antt =====
-- When a pass comes to its end: every job that is waited for must be there.
use pipeline_operator.Prelude.{
  String, ◌≡◌, refl, sym, ap, ◌∙◌, inl, inr, Bool, true, false, Bool-cases, some, Option-cases,
  List, [], ◌∷◌, ◌++◌, map, All, str_eq, arith,
}
use pipeline_operator.Operator.State.{JobState}
use pipeline_operator.Operator.Suspension.{suspends, holds_back}
use pipeline_operator.Operator.Cluster.{
  GoPlatform, RunJob, Run, StoredJob, Store, is_named, is_listed, find_job, replace_job, first_note,
  self_job, is_triggered, marked, held_back, kube_name, new_job, ensure_job, ensure_jobs,
  ensure_job_list,
}
use pipeline_operator.Operator.Cluster.Store.{is_named_iff, find_job-own}
use pipeline_operator.Operator.Cluster.Passes.{ensure_job-cases}

-- Some Kubernetes job in the namespace has the label.
abbrev pub IsKnown : Store → String → String → Type 0
IsKnown s namespace label = (n : JobState) × (first_note namespace label s ≡ some n)

-- Every job that a job waits for is there.
abbrev pub IsReady : Store → RunJob → Type 0
IsReady s j = All (IsKnown s j.namespace) j.run_before

module _ (namespace label : String) where
  append-IsKnown : (s t : Store) → IsKnown s namespace label → IsKnown (s ++ t) namespace label
  unfolding first_note
  append-IsKnown [] t (n, h) = absurd (ground arith)
  append-IsKnown (j ∷ js) t (n, h) = elim (Bool-cases (is_listed namespace label j)) [
    | inl own ↦ (j.note, rw own)
    | inr other ↦
        let later : first_note namespace label js ≡ some n = rw (other) at h in
        let (m, found) = append-IsKnown js t (n, later) in (m, rw other found)
  ]

  replace_job-IsKnown :
      (new : StoredJob) (s : Store)
      → ((old : StoredJob) × (find_job new.name new.namespace s ≡ some old)
          × (new.run_job ≡ old.run_job))
      → IsKnown s namespace label
      → IsKnown (replace_job new s) namespace label
  unfolding first_note replace_job find_job
  replace_job-IsKnown new [] (old, found, same) (n, h) = absurd (ground arith)
  replace_job-IsKnown new (j ∷ js) (old, found, same) (n, h) =
      elim (Bool-cases (is_named new.name new.namespace j)) [
        | inl named ↦
            let here : some j ≡ some old = rw (named) at found in
            let e : j ≡ old = cc in
            let there : j.namespace ≡ new.namespace =
              ((is_named_iff new.name new.namespace j).0 named).1 in
            let labelled : j.run_job ≡ new.run_job = ap (λ k. k.run_job) e ∙ sym same in
            rw named (replaced new j js there labelled (n, h))
        | inr other ↦
            let later : find_job new.name new.namespace js ≡ some old = rw (other) at found in
            rw other (
              kept j js (replace_job new js) (replace_job-IsKnown new js (old, later, same)) (n, h))
      ]
    where
      replaced :
          (new j : StoredJob) (js : Store)
          → j.namespace ≡ new.namespace
          → j.run_job ≡ new.run_job
          → IsKnown (j ∷ js) namespace label
          → IsKnown (new ∷ js) namespace label
      replaced new j js there labelled (n, h) = elim (Bool-cases (is_listed namespace label new)) [
        | inl own ↦ (new.note, rw own)
        | inr other ↦
            let later : first_note namespace label js ≡ some n = rw (there, labelled, other) at h in
            (n, rw other later)
      ]

      kept :
          (j : StoredJob) (js ks : Store)
          → (IsKnown js namespace label → IsKnown ks namespace label)
          → IsKnown (j ∷ js) namespace label
          → IsKnown (j ∷ ks) namespace label
      kept j js ks f (n, h) = elim (Bool-cases (is_listed namespace label j)) [
        | inl own ↦ (j.note, rw own)
        | inr other ↦
            let later : first_note namespace label js ≡ some n = rw (other) at h in
            let (m, found) = f (n, later) in (m, rw other found)
      ]

suspends-known :
    (triggered : Bool) (namespace : String) (s : Store) (labels : List String)
    → All (IsKnown s namespace) labels
    → (b : Bool) × (suspends triggered (map (λ l. first_note namespace l s) labels) ≡ some b)
unfolding suspends
suspends-known triggered namespace s [] h = (false, refl)
suspends-known triggered namespace s (l ∷ ls) ((n, found), rest) =
    let (b, later) = suspends-known triggered namespace s ls rest in
    elim (Bool-cases (holds_back triggered n)) [
      | inl held ↦ (true, rw (found, suspends, held))
      | inr free ↦ (b, rw (found, suspends, free, later))
    ]

self_job-IsReady :
    (label : String) (jobs : List RunJob) (s : Store)
    → All (IsReady s) jobs
    → IsReady s (self_job label jobs)
unfolding self_job
self_job-IsReady label [] s h = tt
self_job-IsReady label (j ∷ js) s (first, rest) = elim (Bool-cases (str_eq label j.name)) [
  | inl own ↦ rw own first
  | inr other ↦ rw other (self_job-IsReady label js s rest)
]

module _ (go : GoPlatform) (run : Run) where
  ensure_job-completes :
      (j : RunJob) (s : Store)
      → All (IsReady s) run.jobs
      → (next : Store) × (ensure_job go run j s ≡ some next)
  unfolding ensure_job held_back
  ensure_job-completes j s ready =
      elim (Option-cases (find_job (kube_name go run j) j.namespace s)) [
        | inl gone ↦ (s ++ new_job go run j ∷ [], rw (gone, ensure_job))
        | inr (old, found) ↦
            let (b, held) =
              suspends-known (is_triggered old.job.trigger)
                (self_job old.run_job run.jobs).namespace s
                (self_job old.run_job run.jobs).run_before
                (self_job-IsReady old.run_job run.jobs s ready) in
            (replace_job (marked j old b) s, rw (found, ensure_job, held))
      ]

  ensure_job-IsKnown :
      (j : RunJob) (s next : Store) (namespace label : String)
      → ensure_job go run j s ≡ some next
      → IsKnown s namespace label
      → IsKnown next namespace label
  ensure_job-IsKnown j s next namespace label made known =
      elim (ensure_job-cases go run j s next made) [
        | inl (gone, grown) ↦
            rw grown (append-IsKnown namespace label s (new_job go run j ∷ []) known)
        | inr (old, b, found, held, changed) ↦ rw changed (
            replace_job-IsKnown namespace label (marked j old b) s
              (old, find_job-own (kube_name go run j) j.namespace s s old found ∙ found, refl)
              known)
      ]

  ensure_job-IsReady :
      (j : RunJob) (s next : Store) (k : RunJob)
      → ensure_job go run j s ≡ some next
      → IsReady s k
      → IsReady next k
  ensure_job-IsReady j s next k made ready = all_known k.run_before ready
    where
      all_known :
          (labels : List String)
          → All (IsKnown s k.namespace) labels
          → All (IsKnown next k.namespace) labels
      all_known [] h = tt
      all_known (l ∷ ls) (first, rest) =
          (ensure_job-IsKnown j s next k.namespace l made first, all_known ls rest)

  ensure_job-All-IsReady :
      (j : RunJob) (s next : Store) (ks : List RunJob)
      → ensure_job go run j s ≡ some next
      → All (IsReady s) ks
      → All (IsReady next) ks
  ensure_job-All-IsReady j s next [] made h = tt
  ensure_job-All-IsReady j s next (k ∷ ks) made (first, rest) =
      (ensure_job-IsReady j s next k made first, ensure_job-All-IsReady j s next ks made rest)

  ensure_jobs-completes :
      (jobs : List RunJob) (s : Store)
      → All (IsReady s) run.jobs
      → ((ensure_jobs go run jobs s).0 ≡ true)
        × All (IsReady (ensure_jobs go run jobs s).1) run.jobs
  unfolding ensure_jobs
  ensure_jobs-completes [] s ready = (refl, ready)
  ensure_jobs-completes (j ∷ js) s ready =
      let (next, made) = ensure_job-completes j s ready in
      rw (made, ensure_jobs)
        (ensure_jobs-completes js next (ensure_job-All-IsReady j s next run.jobs made ready))

  -- Once every job that a job of the run waits for is in the store, a pass comes to its end, and after
  -- it so does the next.
  pub ensure_job_list-completes :
      (s : Store)
      → All (IsReady s) run.jobs
      → ((ensure_job_list go run s).0 ≡ true)
        × ((ensure_job_list go run (ensure_job_list go run s).1).0 ≡ true)
  unfolding ensure_job_list
  ensure_job_list-completes s ready =
      let (done, again) = ensure_jobs-completes run.jobs s ready in
      (done, (ensure_jobs-completes run.jobs (ensure_jobs go run run.jobs s).1 again).0)
