-- ===== src/Models/Typing/Pipeline.antt =====
-- The models of pipelines read the values of the axios client as those of the fetch client.
use pipeline_operator.Prelude.{String, Option, refl}
use pipeline_operator.Value.{Value}
use pipeline_operator.Types.Decoding.{
  ReadsAll, done-ReadsAll, cons-ReadsAll, unless_nullish-ok-Reads, decode-Reads,
  unless_nullish-Reads, map_array-Decodes, from_json-Decodes, new_date-Decodes,
}
use pipeline_operator.Models.Pipeline.{
  pipeline_spec_tasks_inner, pipeline_spec, pipeline_status, pipeline, pipeline_list,
}
use pipeline_operator.Axios.Interfaces.Pipelines.{
  pipeline_interface, pipeline_list_interface, pipeline_spec_interface,
  pipeline_spec_tasks_inner_interface, pipeline_status_interface,
}
use pipeline_operator.Models.Interfaces.Pipeline.{
  pipeline_spec_tasks_inner_type, pipeline_spec_type, pipeline_status_type, pipeline_type,
  pipeline_list_type,
}
use pipeline_operator.Models.Typing.Common.{
  pipeline_spec_history_limit-ReadsAll, pipeline_spec_resource-ReadsAll,
  pipeline_spec_schedule-ReadsAll, pipeline_spec_volumes_inner-ReadsAll,
}
use pipeline_operator.Models.Typing.Meta.{list_meta-ReadsAll, object_meta-ReadsAll}
use pipeline_operator.Models.Typing.{revised}

pub pipeline_spec_tasks_inner-ReadsAll :
    ReadsAll pipeline_spec_tasks_inner_interface pipeline_spec_tasks_inner
      (revised pipeline_spec_tasks_inner_type)
unfolding revised
pipeline_spec_tasks_inner-ReadsAll = cons-ReadsAll refl refl refl unless_nullish-ok-Reads (
    cons-ReadsAll refl refl refl unless_nullish-ok-Reads (
      cons-ReadsAll refl refl refl unless_nullish-ok-Reads (
        cons-ReadsAll refl refl refl unless_nullish-ok-Reads (
          cons-ReadsAll refl refl refl unless_nullish-ok-Reads (
            cons-ReadsAll refl refl refl unless_nullish-ok-Reads (
              cons-ReadsAll refl refl refl unless_nullish-ok-Reads (
                cons-ReadsAll refl refl refl
                  (unless_nullish-Reads (from_json-Decodes pipeline_spec_resource-ReadsAll))
                  (cons-ReadsAll refl refl refl unless_nullish-ok-Reads (
                    cons-ReadsAll refl refl refl
                      (unless_nullish-Reads (from_json-Decodes pipeline_spec_schedule-ReadsAll))
                      (cons-ReadsAll refl refl refl unless_nullish-ok-Reads done-ReadsAll))))))))))

pub pipeline_spec-ReadsAll :
    ReadsAll pipeline_spec_interface pipeline_spec (revised pipeline_spec_type)
unfolding revised
pipeline_spec-ReadsAll = cons-ReadsAll refl refl refl unless_nullish-ok-Reads (
    cons-ReadsAll refl refl refl
      (unless_nullish-Reads (from_json-Decodes pipeline_spec_history_limit-ReadsAll))
      (cons-ReadsAll refl refl refl unless_nullish-ok-Reads (
        cons-ReadsAll refl refl refl unless_nullish-ok-Reads (
          cons-ReadsAll refl refl refl
            (unless_nullish-Reads (from_json-Decodes pipeline_spec_resource-ReadsAll))
            (cons-ReadsAll refl refl refl unless_nullish-ok-Reads (
              cons-ReadsAll refl refl refl
                (unless_nullish-Reads (from_json-Decodes pipeline_spec_schedule-ReadsAll))
                (cons-ReadsAll refl refl refl
                  (unless_nullish-Reads
                    (map_array-Decodes (from_json-Decodes pipeline_spec_tasks_inner-ReadsAll)))
                  (cons-ReadsAll refl refl refl unless_nullish-ok-Reads (
                    cons-ReadsAll refl refl refl
                      (unless_nullish-Reads (
                        map_array-Decodes (from_json-Decodes pipeline_spec_volumes_inner-ReadsAll)))
                      done-ReadsAll)))))))))

pub pipeline_status-ReadsAll :
    (parse_date : Value → Option String)
    → ReadsAll pipeline_status_interface (pipeline_status parse_date) pipeline_status_type
pipeline_status-ReadsAll parse_date =
    cons-ReadsAll refl refl refl (unless_nullish-Reads (new_date-Decodes parse_date)) (
      cons-ReadsAll refl refl refl (unless_nullish-Reads (new_date-Decodes parse_date))
        (cons-ReadsAll refl refl refl unless_nullish-ok-Reads done-ReadsAll))

pub pipeline-ReadsAll :
    (parse_date : Value → Option String)
    → ReadsAll pipeline_interface (pipeline parse_date) (revised pipeline_type)
unfolding revised
pipeline-ReadsAll parse_date = cons-ReadsAll refl refl refl unless_nullish-ok-Reads (
    cons-ReadsAll refl refl refl unless_nullish-ok-Reads (
      cons-ReadsAll refl refl refl
        (unless_nullish-Reads (from_json-Decodes (object_meta-ReadsAll parse_date)))
        (cons-ReadsAll refl refl refl
          (unless_nullish-Reads (from_json-Decodes pipeline_spec-ReadsAll))
          (cons-ReadsAll refl refl refl
            (unless_nullish-Reads (from_json-Decodes (pipeline_status-ReadsAll parse_date)))
            done-ReadsAll))))

pub pipeline_list-ReadsAll :
    (parse_date : Value → Option String)
    → ReadsAll pipeline_list_interface (pipeline_list parse_date) (revised pipeline_list_type)
unfolding revised
pipeline_list-ReadsAll parse_date = cons-ReadsAll refl refl refl unless_nullish-ok-Reads (
    cons-ReadsAll refl refl refl
      (decode-Reads (map_array-Decodes (from_json-Decodes (pipeline-ReadsAll parse_date))))
      (cons-ReadsAll refl refl refl unless_nullish-ok-Reads (
        cons-ReadsAll refl refl refl (unless_nullish-Reads (from_json-Decodes list_meta-ReadsAll))
          done-ReadsAll)))
