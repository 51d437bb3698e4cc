-- ===== src/Operator/Cluster.antt =====
-- `ensureKJobList` of internal/controller/run_controller.go, over the Kubernetes jobs of a cluster, and
-- the parts of api/v1/run_types.go that name and mark a new job. The API server answers every call,
-- and the jobs of a run stand in its namespace, where `SetControllerReference` succeeds: the failures
-- of these, and of the construction of the pods, end a pass before or between the steps given here.
-- Lists come in the order of the store. Stored jobs have annotations, as those have that the operator
-- creates.
pub mod Store
pub mod Passes
pub mod Listed
pub mod Settled
pub mod Outcomes
pub mod Completion
pub mod Reachable
use pipeline_operator.Prelude.{
  String, Bool, true, false, ◌&&◌, ◌||◌, is_blank, Option, none, some, List, [], ◌∷◌, ◌++◌, ◌<>◌,
  map, str_eq, if◌then◌else◌,
}
use pipeline_operator.Operator.State.{
  JobState, other, KubeJob, Phase, other_phase, determine_job_state,
}
use pipeline_operator.Operator.Suspension.{suspends}

-- What the operator uses of Go: the 64-bit FNV hash of a text in hexadecimal, and `ParseBool`, with
-- false for an error.
pub record GoPlatform : Type 0 where
  pub hash_text : String → String
  pub parse_bool : String → Bool

-- Job
pub record RunJob : Type 0 where
  pub name : String
  pub namespace : String
  pub trigger : String
  pub run_before : List String

-- Run
pub record Run : Type 0 where
  pub name : String
  pub namespace : String
  pub jobs : List RunJob

-- A Kubernetes job in the store, with the labels for its run and its job, the annotations of its state
-- and of the reason for it, and the phase and the reason of its first pod, which are empty without
-- a pod. Only the annotation of the reason may be set to the empty text, and so is an `Option`.
pub record StoredJob : Type 0 where
  pub name : String
  pub namespace : String
  pub run : String
  pub run_job : String
  pub note : JobState
  pub reason : Option String
  pub job : KubeJob
  pub phase : Phase
  pub pod_reason : String

abbrev pub Store : Type 0
Store = List StoredJob

-- Whether a stored job is the one of a name and a namespace.
abbrev pub is_named : String → String → StoredJob → Bool
is_named name namespace j = str_eq j.name name && str_eq j.namespace namespace

-- r.Get
unfoldable pub find_job : String → String → Store → Option StoredJob
find_job name namespace [] = none
find_job name namespace (j ∷ js) =
    let rest = find_job name namespace js in if is_named name namespace j then some j else rest

-- r.Update
unfoldable pub replace_job : StoredJob → Store → Store
replace_job new [] = []
replace_job new (j ∷ js) =
    let rest = replace_job new js in
    if is_named new.name new.namespace j then new ∷ js else j ∷ rest

-- Whether a job is in a list by namespace and label; the empty namespace stands for all.
abbrev pub is_listed : String → String → StoredJob → Bool
is_listed namespace label j =
    (is_blank namespace || str_eq j.namespace namespace) && str_eq j.run_job label

-- The noted state of the first job of such a list, whichever run it is of.
unfoldable pub first_note : String → String → Store → Option JobState
first_note namespace label [] = none
first_note namespace label (j ∷ js) =
    let rest = first_note namespace label js in
    if is_listed namespace label j then some j.note else rest

abbrev pub is_triggered : String → Bool
is_triggered trigger = str_eq trigger "true"

-- The job of the run with a name, or the empty one.
unfoldable pub self_job : String → List RunJob → RunJob
self_job label [] = record { name = ""; namespace = ""; trigger = ""; run_before = [] }
self_job label (j ∷ js) = let rest = self_job label js in if str_eq label j.name then j else rest

-- A job in the store with its new state, reason, trigger and suspension.
abbrev pub marked : RunJob → StoredJob → Bool → StoredJob
marked desired current suspend =
    let trigger = current.job.trigger in
    let reset = is_triggered trigger && str_eq desired.trigger "false" in
    record current {
      note = determine_job_state current.job current.phase;
      reason = some current.pod_reason;
      job = record current.job { suspend = suspend; trigger = if reset then "false" else trigger };
    }

-- The new value of `suspend`, from the jobs that run before the job in the run; none if one of these
-- is not there.
unfoldable pub held_back : List RunJob → Store → StoredJob → Option Bool
unfolding suspends first_note self_job
held_back jobs store current =
    let self = self_job current.run_job jobs in
    suspends (is_triggered current.job.trigger)
      (map (λ b. first_note self.namespace b store) self.run_before)

module _ (go : GoPlatform) where
  -- getShortHashPostFix
  abbrev pub kube_name : Run → RunJob → String
  kube_name run job = job.name <> ("-" <> go.hash_text (job.name <> (run.name <> run.namespace)))

  -- constructKjobFromRunJob, constructKjobMetaFromJob
  unfoldable pub new_job : Run → RunJob → StoredJob
  new_job run job = record {
    name = kube_name run job;
    namespace = job.namespace;
    run = run.name;
    run_job = job.name;
    note = other "";
    reason = none;
    job = record {
      suspend = go.parse_bool job.trigger;
      trigger = job.trigger;
      active = 0;
      succeeded = 0;
      failures = 0;
      deletion_set = false;
    };
    phase = other_phase "";
    pod_reason = "";
  }

  -- One round of the loop: the next store, or none if a job that this one waits for is not there.
  unfoldable pub ensure_job : Run → RunJob → Store → Option Store
  unfolding find_job held_back replace_job new_job
  ensure_job run desired store = elim (find_job (kube_name run desired) desired.namespace store) [
    | none ↦ some (store ++ new_job run desired ∷ [])
    | some current ↦ elim (held_back run.jobs store current) [
      | none ↦ none
      | some suspend ↦ some (replace_job (marked desired current suspend) store)
    ]
  ]

  -- The loop over the desired jobs: whether it came to its end, and the store that it left.
  unfoldable pub ensure_jobs : Run → List RunJob → Store → Bool × Store
  unfolding ensure_job
  ensure_jobs run [] store = (true, store)
  ensure_jobs run (desired ∷ rest) store = elim (ensure_job run desired store) [
    | none ↦ (false, store)
    | some next ↦ ensure_jobs run rest next
  ]

  -- ensureKJobList
  unfoldable pub ensure_job_list : Run → Store → Bool × Store
  unfolding ensure_jobs
  ensure_job_list run store = ensure_jobs run run.jobs store

-- The noted states that `updateRunStatus` reads: those of the jobs with the label of the run.
unfoldable pub run_notes : Run → Store → List JobState
run_notes run [] = []
run_notes run (j ∷ js) =
    let rest = run_notes run js in
    if str_eq j.namespace run.namespace && str_eq j.run run.name then j.note ∷ rest else rest
