-- ===== src/Tests/Typed.antt =====
-- Theorems on the types of decoded values, at lists of one pipeline, run or task.
use pipeline_operator.Prelude.{◌≡◌, refl, true, false, some, [], ◌∷◌}
use pipeline_operator.Value.{Value, string, array, object, nil, cons, Fields, end, field}
use pipeline_operator.Errors.{ok}
use pipeline_operator.Types.{interface, conforms}
use pipeline_operator.Models.Codec.{from_json, read_fields, unless_nullish, map_array, map_items}
use pipeline_operator.Models.Pipeline.{pipeline_list}
use pipeline_operator.Models.Run.{run, run_list}
use pipeline_operator.Models.Interfaces.Pipeline.{pipeline_list_type}
use pipeline_operator.Models.Interfaces.Run.{run_type, run_list_type}
use pipeline_operator.Models.Interfaces.Task.{task_list_type}
use pipeline_operator.Axios.Interfaces.Runs.{run_interface}
use pipeline_operator.Models.Typing.{revised}
use pipeline_operator.Models.Typing.Lists.{run_list-conforms, pipeline_list-conforms}
use pipeline_operator.Runtime.Types.{Platform, absent}
use pipeline_operator.Runtime.Api.{new_api}
use pipeline_operator.Client.Tasks.{list_task_for_all_namespaces}
use pipeline_operator.Client.Laws.{bare}
use pipeline_operator.Client.Typed.{list_task_for_all_namespaces-conforms}
use pipeline_operator.Tests.Samples.{Log, created, read_text, host}

abbrev metadata_json : Value
metadata_json = object (
    field "creationTimestamp" (string "2024-05-01T00:00:00.000Z")
      (field "labels" (object (field "app" (string "x") end)) (field "name" (string "a") end)))

-- A list of one object with the given spec and status.
abbrev list_json : Fields → Fields → Value
list_json spec status = object (
    field "items"
      (array (
        cons
          (object (
            field "metadata" metadata_json
              (field "spec" (object spec) (field "status" (object status) end))))
          nil))
      (field "metadata" (object (field "continue" (string "next") end)) end))

abbrev with_inputs : Fields
with_inputs =
    field "inputs" (array (cons (object (field "name" (string "data") end)) nil))
      (field "env" (object (field "A" (string "1") end)) end)

abbrev dates : Fields
dates = field "createdDate" (string "2024-05-01T00:00:00.000Z") end

abbrev task_json : Value
task_json = list_json end dates

run_list-conforms_example :
    (v : Value) × (from_json (run_list read_text) (list_json with_inputs dates) ≡ ok v)
    × (conforms (interface (revised run_list_type)) v ≡ true)
unfolding conforms
run_list-conforms_example = run_list-conforms read_text (list_json with_inputs dates) refl

pipeline_list-conforms_example :
    (v : Value) × (from_json (pipeline_list read_text) (list_json with_inputs dates) ≡ ok v)
    × (conforms (interface (revised pipeline_list_type)) v ≡ true)
unfolding conforms
pipeline_list-conforms_example = pipeline_list-conforms read_text (list_json with_inputs dates) refl

abbrev task_host : Platform Log
task_host = record host { json_parse = λ s. some task_json }

list_task_for_all_namespaces-conforms_example :
    (v : Value) × (list_task_for_all_namespaces task_host
        (new_api (bare (some "http://k8s")))
        absent
        []
      ≡ (ok v, "http://k8s/apis/pipeline.1eedaegon.github.io/v1/tasks" ∷ []))
    × (conforms (interface task_list_type) v ≡ true)
unfolding conforms
list_task_for_all_namespaces-conforms_example =
    list_task_for_all_namespaces-conforms task_host "http://k8s" created task_json []
      ("http://k8s/apis/pipeline.1eedaegon.github.io/v1/tasks" ∷ []) refl refl refl refl refl

-- A run with an input as the axios client has them: it is decoded to a value that is not of the type
-- that the fetch client gives a run.
abbrev spec_with_inputs : Value
spec_with_inputs = object (field "spec" (object with_inputs) end)

inputs_typed : conforms (interface run_interface) spec_with_inputs ≡ true
unfolding conforms
inputs_typed = refl

inputs_mistyped :
    (v : Value) × (from_json (run read_text) spec_with_inputs ≡ ok v)
    × (conforms (interface run_type) v ≡ false)
unfolding conforms from_json read_fields unless_nullish map_array map_items
inputs_mistyped = (_, refl, refl)
