-- ===== src/Models/Pipeline.antt =====
-- The models of pipelines, generated/sdk/ts-fetch/models: for each
-- file the table of its properties.
use pipeline_operator.Prelude.{String, Option, [], ◌∷◌}
use pipeline_operator.Value.{Value}
use pipeline_operator.Models.Codec.{Model}
use pipeline_operator.Models.Codec.Kinds.{instant?, model?, models, models?, plain?}
use pipeline_operator.Models.Common.{
  pipeline_spec_history_limit, pipeline_spec_resource, pipeline_spec_schedule,
  pipeline_spec_volumes_inner,
}
use pipeline_operator.Models.Meta.{list_meta, object_meta}

abbrev pub pipeline_spec_tasks_inner : Model
pipeline_spec_tasks_inner =
    plain? "args"
    ∷ plain? "command"
    ∷ plain? "env"
    ∷ plain? "image"
    ∷ plain? "inputs"
    ∷ plain? "name"
    ∷ plain? "outputs"
    ∷ model? "resource" pipeline_spec_resource
    ∷ plain? "runBefore"
    ∷ model? "schedule" pipeline_spec_schedule
    ∷ plain? "trigger"
    ∷ []

abbrev pub pipeline_spec : Model
pipeline_spec =
    plain? "env"
    ∷ model? "historyLimit" pipeline_spec_history_limit
    ∷ plain? "inputs"
    ∷ plain? "outputs"
    ∷ model? "resource" pipeline_spec_resource
    ∷ plain? "runBefore"
    ∷ model? "schedule" pipeline_spec_schedule
    ∷ models? "tasks" pipeline_spec_tasks_inner
    ∷ plain? "trigger"
    ∷ models? "volumes" pipeline_spec_volumes_inner
    ∷ []

abbrev pub pipeline_status : (Value → Option String) → Model
pipeline_status parse_date =
    instant? parse_date "createdDate" ∷ instant? parse_date "lastUpdatedDate" ∷ plain? "runs" ∷ []

abbrev pub pipeline : (Value → Option String) → Model
pipeline parse_date =
    plain? "apiVersion"
    ∷ plain? "kind"
    ∷ model? "metadata" (object_meta parse_date)
    ∷ model? "spec" pipeline_spec
    ∷ model? "status" (pipeline_status parse_date)
    ∷ []

abbrev pub pipeline_list : (Value → Option String) → Model
pipeline_list parse_date =
    plain? "apiVersion"
    ∷ models "items" (pipeline parse_date)
    ∷ plain? "kind"
    ∷ model? "metadata" list_meta
    ∷ []
