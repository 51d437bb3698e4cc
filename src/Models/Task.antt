-- ===== src/Models/Task.antt =====
-- The models of tasks, generated/sdk/ts-fetch/models: for each
-- file the table of its properties.
use pipeline_operator.Prelude.{String, Option, [], ◌∷◌}
use pipeline_operator.Value.{Value}
use pipeline_operator.Models.Codec.{Model}
use pipeline_operator.Models.Codec.Kinds.{instant?, model?, models, plain?}
use pipeline_operator.Models.Meta.{list_meta, object_meta}

abbrev pub task_spec : Model
task_spec = plain? "args" ∷ plain? "command" ∷ plain? "image" ∷ plain? "name" ∷ []

abbrev pub task_status : (Value → Option String) → Model
task_status parse_date =
    instant? parse_date "createdDate" ∷ plain? "jobs" ∷ instant? parse_date "lastUpdatedDate" ∷ []

abbrev pub task : (Value → Option String) → Model
task parse_date =
    plain? "apiVersion"
    ∷ plain? "kind"
    ∷ model? "metadata" (object_meta parse_date)
    ∷ model? "spec" task_spec
    ∷ model? "status" (task_status parse_date)
    ∷ []

abbrev pub task_list : (Value → Option String) → Model
task_list parse_date =
    plain? "apiVersion"
    ∷ models "items" (task parse_date)
    ∷ plain? "kind"
    ∷ model? "metadata" list_meta
    ∷ []
