-- ===== src/Operator/State.antt =====
-- Job states, api/v1/run_types.go: `StateOrder`, `JobCategoryMap`, `DetermineJobStateFrom` and
-- `DetermineJobStateFromOrder`.
use pipeline_operator.Prelude.{
  ℕ, ◌+◌, ◌<◌, String, ◌≡◌, ◌≢◌, Bool, true, false, ◌||◌, ltb, str_eq, arith, if◌then◌else◌,
}

-- The constants of `JobState`; any other text, such as that of a missing annotation, is `other`.
pub data JobState : Type 0 where
  initializing waiting stopping running deleting completed deleted failed unknown : JobState
  other : String → JobState

-- StateOrder; a key that is not in a map leads to zero.
abbrev pub state_order : JobState → ℕ
state_order failed = 8
state_order running = 7
state_order initializing = 6
state_order waiting = 5
state_order completed = 4
state_order deleting = 3
state_order stopping = 2
state_order deleted = 1
state_order unknown = 0
state_order (other s) = 0

pub data JobCategory : Type 0 where
  pre_run in_run post_run no_category : JobCategory

-- JobCategoryMap
abbrev pub category : JobState → JobCategory
category initializing = pre_run
category waiting = pre_run
category stopping = pre_run
category running = in_run
category deleting = in_run
category completed = post_run
category failed = post_run
category deleted = post_run
category unknown = no_category
category (other s) = no_category

-- What of a Kubernetes job decides its state. `suspend` is set: the API server defaults it.
pub record KubeJob : Type 0 where
  pub suspend : Bool
  pub trigger : String
  pub active : ℕ
  pub succeeded : ℕ
  pub failures : ℕ
  pub deletion_set : Bool

-- The phase of the first pod of a job; no pod has the empty phase.
pub data Phase : Type 0 where
  pending in_progress : Phase
  other_phase : String → Phase

-- The case of an active job; with another phase the `switch` is left.
abbrev pub active_state : Phase → JobState
active_state pending = initializing
active_state in_progress = running
active_state (other_phase s) = deleted

unfoldable pub determine_job_state : KubeJob → Phase → JobState
determine_job_state job phase =
    if job.suspend || str_eq job.trigger "true"
    then waiting
    else if ltb 0 job.active
    then active_state phase
    else if ltb 0 job.succeeded
    then completed
    else if ltb 0 job.failures
    then failed
    else if job.deletion_set
    then (if ltb 0 job.active then stopping else deleting)
    else initializing

unfoldable pub determine_from_order : JobState → JobState → JobState
determine_from_order prev next = if ltb (state_order next) (state_order prev) then prev else next

-- No job is ever found to be stopping: the case that says so comes after the one of an active job.
pub determine_job_state-ne-stopping :
    (job : KubeJob) (phase : Phase) → determine_job_state job phase ≢ stopping
unfolding determine_job_state
determine_job_state-ne-stopping job pending = ground arith
determine_job_state-ne-stopping job in_progress = ground arith
determine_job_state-ne-stopping job (other_phase s) = ground arith

-- Once a job has an active, a succeeded or a failed pod, that it is being deleted makes no
-- difference to its state.
pub determine_job_state_deletion :
    (job : KubeJob) (phase : Phase)
    → 0 < (job.active + job.succeeded) + job.failures
    → determine_job_state (record job { deletion_set = true }) phase
      ≡ determine_job_state (record job { deletion_set = false }) phase
unfolding determine_job_state
determine_job_state_deletion job phase started = ground arith
