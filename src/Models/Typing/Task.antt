-- ===== src/Models/Typing/Task.antt =====
-- The models of tasks read the values of the axios client as those of the fetch client.
use pipeline_operator.Prelude.{String, Option, refl}
use pipeline_operator.Value.{Value}
use pipeline_operator.Types.Decoding.{
  ReadsAll, done-ReadsAll, cons-ReadsAll, unless_nullish-ok-Reads, decode-Reads,
  unless_nullish-Reads, map_array-Decodes, from_json-Decodes, new_date-Decodes,
}
use pipeline_operator.Models.Task.{task_spec, task_status, task, task_list}
use pipeline_operator.Axios.Interfaces.Tasks.{
  task_interface, task_list_interface, task_spec_interface, task_status_interface,
}
use pipeline_operator.Models.Interfaces.Task.{
  task_spec_type, task_status_type, task_type, task_list_type,
}
use pipeline_operator.Models.Typing.Meta.{list_meta-ReadsAll, object_meta-ReadsAll}

pub task_spec-ReadsAll : ReadsAll task_spec_interface task_spec task_spec_type
task_spec-ReadsAll = cons-ReadsAll refl refl refl unless_nullish-ok-Reads (
    cons-ReadsAll refl refl refl unless_nullish-ok-Reads (
      cons-ReadsAll refl refl refl unless_nullish-ok-Reads
        (cons-ReadsAll refl refl refl unless_nullish-ok-Reads done-ReadsAll)))

pub task_status-ReadsAll :
    (parse_date : Value → Option String)
    → ReadsAll task_status_interface (task_status parse_date) task_status_type
task_status-ReadsAll parse_date =
    cons-ReadsAll refl refl refl (unless_nullish-Reads (new_date-Decodes parse_date)) (
      cons-ReadsAll refl refl refl unless_nullish-ok-Reads (
        cons-ReadsAll refl refl refl (unless_nullish-Reads (new_date-Decodes parse_date))
          done-ReadsAll))

pub task-ReadsAll :
    (parse_date : Value → Option String) → ReadsAll task_interface (task parse_date) task_type
task-ReadsAll parse_date = cons-ReadsAll refl refl refl unless_nullish-ok-Reads (
    cons-ReadsAll refl refl refl unless_nullish-ok-Reads (
      cons-ReadsAll refl refl refl
        (unless_nullish-Reads (from_json-Decodes (object_meta-ReadsAll parse_date)))
        (cons-ReadsAll refl refl refl (unless_nullish-Reads (from_json-Decodes task_spec-ReadsAll))
          (cons-ReadsAll refl refl refl
            (unless_nullish-Reads (from_json-Decodes (task_status-ReadsAll parse_date)))
            done-ReadsAll))))

pub task_list-ReadsAll :
    (parse_date : Value → Option String)
    → ReadsAll task_list_interface (task_list parse_date) task_list_type
task_list-ReadsAll parse_date = cons-ReadsAll refl refl refl unless_nullish-ok-Reads (
    cons-ReadsAll refl refl refl
      (decode-Reads (map_array-Decodes (from_json-Decodes (task-ReadsAll parse_date))))
      (cons-ReadsAll refl refl refl unless_nullish-ok-Reads (
        cons-ReadsAll refl refl refl (unless_nullish-Reads (from_json-Decodes list_meta-ReadsAll))
          done-ReadsAll)))
