-- ===== src/Models/Inverses/Common.antt =====
-- The models of parts that pipelines and runs share: each can be read back after it was written.
use pipeline_operator.Prelude.{refl}
use pipeline_operator.Models.Codec.{from_json, to_json}
use pipeline_operator.Models.Codec.Laws.{Inverts, model?-IsInvertible, plain?-IsInvertible}
use pipeline_operator.Models.Codec.Roundtrip.{model-Inverts}
use pipeline_operator.Models.Common.{
  pipeline_spec_history_limit, pipeline_spec_resource_gpu, pipeline_spec_resource,
  pipeline_spec_schedule, pipeline_spec_volumes_inner,
}

pub pipeline_spec_history_limit-Inverts :
    Inverts (from_json pipeline_spec_history_limit) (to_json pipeline_spec_history_limit)
pipeline_spec_history_limit-Inverts =
    model-Inverts pipeline_spec_history_limit
      (plain?-IsInvertible "amount", (plain?-IsInvertible "date", tt)) (refl, refl)

pub pipeline_spec_resource_gpu-Inverts :
    Inverts (from_json pipeline_spec_resource_gpu) (to_json pipeline_spec_resource_gpu)
pipeline_spec_resource_gpu-Inverts =
    model-Inverts pipeline_spec_resource_gpu
      (plain?-IsInvertible "amount", (plain?-IsInvertible "type", tt)) (refl, refl)

pub pipeline_spec_resource-Inverts :
    Inverts (from_json pipeline_spec_resource) (to_json pipeline_spec_resource)
pipeline_spec_resource-Inverts =
    model-Inverts pipeline_spec_resource
      (
        plain?-IsInvertible "cpu",
        (
          model?-IsInvertible pipeline_spec_resource_gpu pipeline_spec_resource_gpu-Inverts "gpu",
          (plain?-IsInvertible "memory", tt),
        ),
      )
      (refl, refl)

pub pipeline_spec_schedule-Inverts :
    Inverts (from_json pipeline_spec_schedule) (to_json pipeline_spec_schedule)
pipeline_spec_schedule-Inverts =
    model-Inverts pipeline_spec_schedule
      (plain?-IsInvertible "endDate", (plain?-IsInvertible "scheduleDate", tt)) (refl, refl)

pub pipeline_spec_volumes_inner-Inverts :
    Inverts (from_json pipeline_spec_volumes_inner) (to_json pipeline_spec_volumes_inner)
pipeline_spec_volumes_inner-Inverts =
    model-Inverts pipeline_spec_volumes_inner
      (
        plain?-IsInvertible "capacity",
        (plain?-IsInvertible "name", (plain?-IsInvertible "storage", tt)),
      )
      (refl, refl)
