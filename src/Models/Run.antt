-- ===== src/Models/Run.antt =====
-- The models of runs, generated/sdk/ts-fetch/models: for each
-- file the table of its properties.
use pipeline_operator.Prelude.{String, Option, [], ◌∷◌}
use pipeline_operator.Value.{Value}
use pipeline_operator.Models.Codec.{Model}
use pipeline_operator.Models.Codec.Kinds.{instant?, model?, models, models?, named, plain?}
use pipeline_operator.Models.Common.{
  pipeline_spec_history_limit, pipeline_spec_resource, pipeline_spec_schedule,
  pipeline_spec_volumes_inner,
}
use pipeline_operator.Models.Meta.{list_meta, object_meta}

abbrev pub run_spec_jobs_inner : Model
run_spec_jobs_inner =
    plain? "args"
    ∷ plain? "command"
    ∷ plain? "env"
    ∷ plain? "image"
    ∷ plain? "inputs"
    ∷ plain? "name"
    ∷ plain? "namespace"
    ∷ plain? "outputs"
    ∷ model? "resource" pipeline_spec_resource
    ∷ plain? "runBefore"
    ∷ model? "schedule" pipeline_spec_schedule
    ∷ plain? "trigger"
    ∷ []

abbrev pub run_spec : Model
run_spec =
    plain? "env"
    ∷ model? "historyLimit" pipeline_spec_history_limit
    ∷ plain? "inputs"
    ∷ models? "jobs" run_spec_jobs_inner
    ∷ plain? "outputs"
    ∷ model? "resource" pipeline_spec_resource
    ∷ plain? "runBefore"
    ∷ model? "schedule" pipeline_spec_schedule
    ∷ plain? "trigger"
    ∷ models? "volumes" pipeline_spec_volumes_inner
    ∷ []

abbrev pub run_status_job_states_inner : Model
run_status_job_states_inner = plain? "jobState" ∷ plain? "name" ∷ plain? "reason" ∷ []

abbrev pub run_status : (Value → Option String) → Model
run_status parse_date =
    named "JobStates" (models? "jobStates" run_status_job_states_inner)
    ∷ plain? "completed"
    ∷ instant? parse_date "createdDate"
    ∷ plain? "deleted"
    ∷ plain? "deleting"
    ∷ plain? "failed"
    ∷ plain? "initializing"
    ∷ instant? parse_date "lastUpdateDate"
    ∷ plain? "runState"
    ∷ plain? "running"
    ∷ plain? "stopping"
    ∷ plain? "waiting"
    ∷ []

abbrev pub run : (Value → Option String) → Model
run parse_date =
    plain? "apiVersion"
    ∷ plain? "kind"
    ∷ model? "metadata" (object_meta parse_date)
    ∷ model? "spec" run_spec
    ∷ model? "status" (run_status parse_date)
    ∷ []

abbrev pub run_list : (Value → Option String) → Model
run_list parse_date =
    plain? "apiVersion"
    ∷ models "items" (run parse_date)
    ∷ plain? "kind"
    ∷ model? "metadata" list_meta
    ∷ []
