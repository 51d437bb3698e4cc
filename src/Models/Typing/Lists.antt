-- ===== src/Models/Typing/Lists.antt =====
-- The lists of pipelines, runs and tasks, with all that they hold, and the listing of tasks.
use pipeline_operator.Prelude.{String, ◌≡◌, true, Option}
use pipeline_operator.Value.{Value}
use pipeline_operator.Errors.{ok}
use pipeline_operator.Types.{interface, conforms}
use pipeline_operator.Types.Decoding.{from_json-Decodes}
use pipeline_operator.Models.Codec.{from_json}
use pipeline_operator.Models.Pipeline.{pipeline_list}
use pipeline_operator.Models.Run.{run_list}
use pipeline_operator.Models.Task.{task_list}
use pipeline_operator.Models.Interfaces.Pipeline.{pipeline_list_type}
use pipeline_operator.Models.Interfaces.Run.{run_list_type}
use pipeline_operator.Models.Interfaces.Task.{task_list_type}
use pipeline_operator.Axios.Interfaces.Pipelines.{pipeline_list_interface}
use pipeline_operator.Axios.Interfaces.Runs.{run_list_interface}
use pipeline_operator.Axios.Interfaces.Tasks.{task_list_interface}
use pipeline_operator.Models.Typing.{revised}
use pipeline_operator.Models.Typing.Pipeline.{pipeline_list-ReadsAll}
use pipeline_operator.Models.Typing.Run.{run_list-ReadsAll}
use pipeline_operator.Models.Typing.Task.{task_list-ReadsAll}

module _ (parse_date : Value → Option String) (json : Value) where
  -- JSON of the type that the axios client gives a list of runs is decoded by the fetch client without
  -- an error, to a value of the type that the fetch client gives it, but that the inputs and outputs
  -- are the objects of the axios client.
  pub run_list-conforms :
      conforms (interface run_list_interface) json ≡ true
      → (v : Value) × (from_json (run_list parse_date) json ≡ ok v)
        × (conforms (interface (revised run_list_type)) v ≡ true)
  run_list-conforms = (from_json-Decodes (run_list-ReadsAll parse_date)).decode_typed json

  -- JSON of the type that the axios client gives a list of pipelines is decoded by the fetch client
  -- without an error, to a value of the type that the fetch client gives it, but that the inputs and
  -- outputs are the objects of the axios client.
  pub pipeline_list-conforms :
      conforms (interface pipeline_list_interface) json ≡ true
      → (v : Value) × (from_json (pipeline_list parse_date) json ≡ ok v)
        × (conforms (interface (revised pipeline_list_type)) v ≡ true)
  pipeline_list-conforms = (from_json-Decodes (pipeline_list-ReadsAll parse_date)).decode_typed json

  -- JSON of the type that the axios client gives a list of tasks is decoded by the fetch client
  -- without an error, to a value of the type that the fetch client gives it.
  pub task_list-conforms :
      conforms (interface task_list_interface) json ≡ true
      → (v : Value) × (from_json (task_list parse_date) json ≡ ok v)
        × (conforms (interface task_list_type) v ≡ true)
  task_list-conforms = (from_json-Decodes (task_list-ReadsAll parse_date)).decode_typed json
