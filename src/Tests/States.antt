-- ===== src/Tests/States.antt =====
-- Theorems on the states of jobs and runs, at examples.
use pipeline_operator.Prelude.{
  ◌+◌, ◌≡◌, ◌≢◌, ◌↔◌, inl, inr, true, false, some, List, [], ◌∷◌, length, All, Occurs, arith,
}
use pipeline_operator.Operator.State.{
  JobState, running, completed, deleted, failed, stopping, category, pre_run, in_run, post_run,
  KubeJob, in_progress, determine_job_state, determine_job_state-ne-stopping, determine_from_order,
}
use pipeline_operator.Operator.Status.{run_state, counts, sum_up, is_finished}
use pipeline_operator.Operator.Status.Laws.{run_state_order, run_state-eq-failed_iff}
use pipeline_operator.Operator.Status.Counting.{number_in, counts-category, is_finished_iff}
use pipeline_operator.Operator.Suspension.{suspends, IsDone, suspends-eq-false_iff}

-- A job with an active pod that is being deleted.
abbrev ending : KubeJob
ending = record {
  suspend = false;
  trigger = "false";
  active = 1;
  succeeded = 0;
  failures = 0;
  deletion_set = true;
}

determine_job_state-ne-stopping_example : determine_job_state ending in_progress ≢ stopping
determine_job_state-ne-stopping_example = determine_job_state-ne-stopping ending in_progress

abbrev states : List JobState
states = completed ∷ running ∷ failed ∷ []

run_state-eq-failed_iff_example : (run_state states ≡ failed) ↔ Occurs failed states
run_state-eq-failed_iff_example = run_state-eq-failed_iff states

-- The same states, turned round and with one of them twice.
abbrev turned : List JobState
turned = running ∷ completed ∷ running ∷ []

same_states : (s : JobState) → Occurs s (completed ∷ running ∷ []) ↔ Occurs s turned
same_states s = (
  (λ o. elim o [ inl e ↦ inr (inl e) | inr (inl e) ↦ inl e | inr (inr o) ↦ elim o [ ] ]),
  (λ o. elim o [
    | inl e ↦ inr (inl e)
    | inr (inl e) ↦ inl e
    | inr (inr (inl e)) ↦ inr (inl e)
    | inr (inr (inr o)) ↦ elim o [ ]
  ]),
)

run_state_order_example : run_state (completed ∷ running ∷ []) ≡ run_state turned
unfolding run_state sum_up determine_from_order
run_state_order_example =
    run_state_order (completed ∷ running ∷ []) turned same_states (omega arith)

counts-category_example :
    ((((counts states).init + (counts states).wait) + (counts states).stop)
      ≡ number_in pre_run states)
    × (((counts states).run + (counts states).deleting) ≡ number_in in_run states)
    × ((((counts states).complete + (counts states).deleted) + (counts states).failed)
        ≡ number_in post_run states)
counts-category_example = counts-category states

is_finished_iff_example :
    (is_finished (counts states) (length states) ≡ true) ↔ All (λ s. category s ≡ post_run) states
is_finished_iff_example = is_finished_iff states

suspends-eq-false_iff_example :
    (suspends false (some completed ∷ some deleted ∷ []) ≡ some false)
    ↔ All IsDone (some completed ∷ some deleted ∷ [])
suspends-eq-false_iff_example = suspends-eq-false_iff (some completed ∷ some deleted ∷ [])
