-- ===== src/Models/Common.antt =====
-- The models of parts that pipelines and runs share, generated/sdk/ts-fetch/models: for each
-- file the table of its properties.
use pipeline_operator.Prelude.{[], ◌∷◌}
use pipeline_operator.Models.Codec.{Model}
use pipeline_operator.Models.Codec.Kinds.{model?, plain?}

abbrev pub pipeline_spec_history_limit : Model
pipeline_spec_history_limit = plain? "amount" ∷ plain? "date" ∷ []

abbrev pub pipeline_spec_resource_gpu : Model
pipeline_spec_resource_gpu = plain? "amount" ∷ plain? "type" ∷ []

abbrev pub pipeline_spec_resource : Model
pipeline_spec_resource =
    plain? "cpu" ∷ model? "gpu" pipeline_spec_resource_gpu ∷ plain? "memory" ∷ []

abbrev pub pipeline_spec_schedule : Model
pipeline_spec_schedule = plain? "endDate" ∷ plain? "scheduleDate" ∷ []

abbrev pub pipeline_spec_volumes_inner : Model
pipeline_spec_volumes_inner = plain? "capacity" ∷ plain? "name" ∷ plain? "storage" ∷ []
