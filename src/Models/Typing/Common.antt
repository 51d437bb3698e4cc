-- ===== src/Models/Typing/Common.antt =====
-- The models that pipelines and runs share read the values of the axios client as those of the fetch client.
use pipeline_operator.Prelude.{refl}
use pipeline_operator.Types.Decoding.{
  ReadsAll, done-ReadsAll, cons-ReadsAll, unless_nullish-ok-Reads, unless_nullish-Reads,
  from_json-Decodes,
}
use pipeline_operator.Models.Common.{
  pipeline_spec_history_limit, pipeline_spec_resource_gpu, pipeline_spec_resource,
  pipeline_spec_schedule, pipeline_spec_volumes_inner,
}
use pipeline_operator.Axios.Interfaces.Specs.{
  pipeline_spec_history_limit_interface, pipeline_spec_resource_interface,
  pipeline_spec_resource_gpu_interface, pipeline_spec_schedule_interface,
  pipeline_spec_volumes_inner_interface,
}
use pipeline_operator.Models.Interfaces.Common.{
  pipeline_spec_history_limit_type, pipeline_spec_resource_gpu_type, pipeline_spec_resource_type,
  pipeline_spec_schedule_type, pipeline_spec_volumes_inner_type,
}

pub pipeline_spec_history_limit-ReadsAll :
    ReadsAll pipeline_spec_history_limit_interface pipeline_spec_history_limit
      pipeline_spec_history_limit_type
pipeline_spec_history_limit-ReadsAll =
    cons-ReadsAll refl refl refl unless_nullish-ok-Reads
      (cons-ReadsAll refl refl refl unless_nullish-ok-Reads done-ReadsAll)

pub pipeline_spec_resource_gpu-ReadsAll :
    ReadsAll pipeline_spec_resource_gpu_interface pipeline_spec_resource_gpu
      pipeline_spec_resource_gpu_type
pipeline_spec_resource_gpu-ReadsAll =
    cons-ReadsAll refl refl refl unless_nullish-ok-Reads
      (cons-ReadsAll refl refl refl unless_nullish-ok-Reads done-ReadsAll)

pub pipeline_spec_resource-ReadsAll :
    ReadsAll pipeline_spec_resource_interface pipeline_spec_resource pipeline_spec_resource_type
pipeline_spec_resource-ReadsAll = cons-ReadsAll refl refl refl unless_nullish-ok-Reads (
    cons-ReadsAll refl refl refl
      (unless_nullish-Reads (from_json-Decodes pipeline_spec_resource_gpu-ReadsAll))
      (cons-ReadsAll refl refl refl unless_nullish-ok-Reads done-ReadsAll))

pub pipeline_spec_schedule-ReadsAll :
    ReadsAll pipeline_spec_schedule_interface pipeline_spec_schedule pipeline_spec_schedule_type
pipeline_spec_schedule-ReadsAll =
    cons-ReadsAll refl refl refl unless_nullish-ok-Reads
      (cons-ReadsAll refl refl refl unless_nullish-ok-Reads done-ReadsAll)

pub pipeline_spec_volumes_inner-ReadsAll :
    ReadsAll pipeline_spec_volumes_inner_interface pipeline_spec_volumes_inner
      pipeline_spec_volumes_inner_type
pipeline_spec_volumes_inner-ReadsAll = cons-ReadsAll refl refl refl unless_nullish-ok-Reads (
    cons-ReadsAll refl refl refl unless_nullish-ok-Reads
      (cons-ReadsAll refl refl refl unless_nullish-ok-Reads done-ReadsAll))
