-- ===== src/Operator/Status.antt =====
-- How `updateRunStatus`, internal/controller/run_controller.go, sums up the states of the jobs of a
-- run: the state of the run, and eight counts.
pub mod Laws
pub mod Counting
use pipeline_operator.Prelude.{ℕ, ◌+◌, Bool, List, [], ◌∷◌, ◌==◌}
use pipeline_operator.Operator.State.{
  JobState, initializing, waiting, stopping, running, deleting, completed, deleted, failed, unknown,
  other, determine_from_order,
}

pub record Counts : Type 0 where
  pub init : ℕ
  pub wait : ℕ
  pub stop : ℕ
  pub run : ℕ
  pub deleting : ℕ
  pub complete : ℕ
  pub deleted : ℕ
  pub failed : ℕ

abbrev pub no_jobs : Counts
no_jobs = record {
  init = 0;
  wait = 0;
  stop = 0;
  run = 0;
  deleting = 0;
  complete = 0;
  deleted = 0;
  failed = 0;
}

-- The tests at the end of one round of the loop.
unfoldable pub count : Counts → JobState → Counts
count c initializing = record c { init = c.init + 1 }
count c waiting = record c { wait = c.wait + 1 }
count c stopping = record c { stop = c.stop + 1 }
count c running = record c { run = c.run + 1 }
count c deleting = record c { deleting = c.deleting + 1 }
count c completed = record c { complete = c.complete + 1 }
count c deleted = record c { deleted = c.deleted + 1 }
count c failed = record c { failed = c.failed + 1 }
count c unknown = c
count c (other s) = c

-- The loop over the jobs, from a state and counts.
unfoldable pub sum_up : JobState → Counts → List JobState → JobState × Counts
unfolding count determine_from_order
sum_up state c [] = (state, c)
sum_up state c (s ∷ ss) = sum_up (determine_from_order state s) (count c s) ss

unfoldable pub run_state : List JobState → JobState
unfolding sum_up
run_state states = (sum_up unknown no_jobs states).0

unfoldable pub counts : List JobState → Counts
unfolding sum_up
counts states = (sum_up unknown no_jobs states).1

-- Complete+Deleted+Failed == len(run.Spec.Jobs): then the end of the execution is noted.
abbrev pub is_finished : Counts → (jobs : ℕ) → Bool
is_finished c jobs = ((c.complete + c.deleted) + c.failed) == jobs
