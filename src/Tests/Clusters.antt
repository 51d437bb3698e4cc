-- ===== src/Tests/Clusters.antt =====
-- Theorems on the passes of the operator, at a run of two jobs of which one waits for the other.
use pipeline_operator.Prelude.{
  ℕ, ◌≤◌, ◌≡◌, refl, ◌↔◌, ◌⊎◌, inl, inr, true, false, none, some, [], ◌∷◌, str_eq, All,
}
use pipeline_operator.Operator.State.{
  completed, running, other, KubeJob, in_progress, other_phase, determine_job_state,
}
use pipeline_operator.Operator.Status.{counts}
use pipeline_operator.Operator.Cluster.{
  GoPlatform, RunJob, Run, StoredJob, Store, first_note, held_back, ensure_job_list, run_notes,
}
use pipeline_operator.Operator.Cluster.Store.{count_named}
use pipeline_operator.Operator.Cluster.Listed.{HasEnded}
use pipeline_operator.Operator.Cluster.Settled.{
  IsSettled, ensure_job_list-IsSettled_iff, ensure_job_list-released_iff,
}
use pipeline_operator.Operator.Cluster.Outcomes.{found_for, ensure_job_list-noted}
use pipeline_operator.Operator.Cluster.Completion.{ensure_job_list-completes}
use pipeline_operator.Operator.Cluster.Reachable.{
  pass, worked, Reachable, empty, next, Reachable-count_named, Reachable-counts,
}

abbrev go : GoPlatform
go = record { hash_text = λ s. "0"; parse_bool = λ s. str_eq s "true" }

abbrev prepare : RunJob
prepare = record { name = "prepare"; namespace = "n"; trigger = "false"; run_before = [] }

abbrev train : RunJob
train = record { name = "train"; namespace = "n"; trigger = "false"; run_before = "prepare" ∷ [] }

abbrev two_jobs : Run
two_jobs = record { name = "r"; namespace = "n"; jobs = prepare ∷ train ∷ [] }

abbrev kube : (succeeded active : ℕ) → KubeJob
kube succeeded active = record {
  suspend = false;
  trigger = "false";
  active = active;
  succeeded = succeeded;
  failures = 0;
  deletion_set = false;
}

abbrev prepared : StoredJob
prepared = record {
  name = "prepare-0";
  namespace = "n";
  run = "r";
  run_job = "prepare";
  note = completed;
  reason = some "";
  job = kube 1 0;
  phase = other_phase "Succeeded";
  pod_reason = "";
}

abbrev training : StoredJob
training = record {
  name = "train-0";
  namespace = "n";
  run = "r";
  run_job = "train";
  note = running;
  reason = some "";
  job = kube 0 1;
  phase = in_progress;
  pod_reason = "";
}

abbrev settled : Store
settled = prepared ∷ training ∷ []

ensure_job_list-IsSettled_iff_example :
    (ensure_job_list go two_jobs settled ≡ (true, settled))
    ↔ All (IsSettled go two_jobs settled) two_jobs.jobs
ensure_job_list-IsSettled_iff_example =
    ensure_job_list-IsSettled_iff go two_jobs settled ((refl, tt), (tt, tt))

ensure_job_list-released_iff_example : (false ≡ false) ↔ All (HasEnded "n" settled) ("prepare" ∷ [])
unfolding ensure_job_list determine_job_state
ensure_job_list-released_iff_example =
    ensure_job_list-released_iff go two_jobs settled train training ((refl, tt), (tt, tt)) refl refl
      (inr (refl, inl (refl, refl))) refl

-- What the first pass creates: the job that waits for the other is not suspended.
abbrev created_jobs : Store
created_jobs =
    record prepared { note = other ""; reason = none; job = kube 0 0; phase = other_phase "" }
    ∷ record training { note = other ""; reason = none; job = kube 0 0; phase = other_phase "" }
    ∷ []

first_pass : ensure_job_list go two_jobs [] ≡ (true, created_jobs)
unfolding ensure_job_list
first_pass = refl

ensure_job_list-noted_example :
    (new : StoredJob) × (found_for go two_jobs train created_jobs ≡ some new)
    × (((found_for go two_jobs train [] ≡ none) × (new.job.suspend ≡ false))
        ⊎ ((old : StoredJob) × (found_for go two_jobs train [] ≡ some old)
            × (new.note ≡ determine_job_state old.job old.phase)))
ensure_job_list-noted_example =
    ensure_job_list-noted go two_jobs train [] created_jobs ((refl, tt), (tt, tt)) (inr (inl refl))
      first_pass

ensure_job_list-completes_example :
    ((ensure_job_list go two_jobs created_jobs).0 ≡ true)
    × ((ensure_job_list go two_jobs (ensure_job_list go two_jobs created_jobs).1).0 ≡ true)
unfolding first_note
ensure_job_list-completes_example =
    ensure_job_list-completes go two_jobs created_jobs (tt, (((other "", refl), tt), tt))

-- After a pass Kubernetes starts the job that should wait; then there is a second pass.
abbrev created_training : StoredJob
created_training = record training {
  note = other "";
  reason = none;
  job = kube 0 0;
  phase = other_phase "";
}

abbrev started : Store
started =
    record prepared { note = other ""; reason = none; job = kube 0 0; phase = other_phase "" }
    ∷ record training { note = other ""; reason = none }
    ∷ []

reached : Reachable go (ensure_job_list go two_jobs started).1
unfolding ensure_job_list
reached =
    next
      (next (next empty (pass two_jobs [])) (
        worked created_jobs "train-0" "n" created_training (kube 0 1) in_progress "" refl refl
          refl))
      (pass two_jobs started)

Reachable-count_named_example :
    count_named "train-0" "n" (ensure_job_list go two_jobs started).1 ≤ 1
Reachable-count_named_example = Reachable-count_named reached "train-0" "n"

Reachable-counts_example :
    (counts (run_notes two_jobs (ensure_job_list go two_jobs started).1)).stop ≡ 0
Reachable-counts_example = Reachable-counts reached two_jobs

-- A completed job of another run in the namespace has the same job name and is listed first: the job
-- of this run is no longer held back, although the one that it waits for is still running. Runs made
-- from a pipeline have the hash of their own name in their job names; runs written by hand need not.
foreign_job_releases :
    held_back two_jobs.jobs
      (record prepared { name = "prepare-1"; run = "other" }
        ∷ record prepared { note = running; job = kube 0 1; phase = in_progress }
        ∷ [])
      training
    ≡ some false
unfolding held_back
foreign_job_releases = refl
