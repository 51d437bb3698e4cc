-- ===== src/Client/Typed.antt =====
-- The type of what a method answers with.
use pipeline_operator.Prelude.{String, ◌≡◌, ap, ◌∙◌, true, some, [], ◌<>◌}
use pipeline_operator.Value.{Value, undefined}
use pipeline_operator.Errors.{Response, ok}
use pipeline_operator.Types.{interface, conforms}
use pipeline_operator.Exec.{continue}
use pipeline_operator.Models.Codec.{Model, from_json}
use pipeline_operator.Models.Task.{task_list}
use pipeline_operator.Models.Interfaces.Task.{task_list_type}
use pipeline_operator.Models.Typing.Lists.{task_list-conforms}
use pipeline_operator.Axios.Interfaces.Tasks.{task_list_interface}
use pipeline_operator.Runtime.Query as Query
use pipeline_operator.Runtime.Types.{Platform, absent}
use pipeline_operator.Runtime.Configuration
use pipeline_operator.Runtime.Api.{new_api, is_success}
use pipeline_operator.Client.{value, list}
use pipeline_operator.Client.Tasks.{list_task_for_all_namespaces, list_task_for_all_namespaces_raw}
use pipeline_operator.Client.Laws.{bare, conclude, wire, send-bare}

value-eq :
    {W : Type 0} (host : Platform W) (response : Response) (m : Model) (json v : Value) (w : W)
    → host.json_parse response.body ≡ some json
    → from_json m json ≡ ok v
    → value host (record { raw = response; model = m }) w ≡ (ok v, w)
unfolding value
value-eq host response m json v w parsed decoded = rw (parsed, value, decoded)

-- If the server answers the request for all tasks with a status from 200 to 299 and JSON of the type
-- that the axios client gives a list of tasks, then the method answers with a value of the type that
-- the fetch client gives it, and does nothing but send this one request. The client has nothing
-- configured but its base path, and the platform encodes the empty text as itself.
pub list_task_for_all_namespaces-conforms :
    {W : Type 0} (host : Platform W) (base : String) (response : Response) (json : Value) (w w' : W)
    → host.encode_uri_component "" ≡ ""
    → host.fetch
        (base <> "/apis/pipeline.1eedaegon.github.io/v1/tasks")
        (wire host "GET" [] undefined)
        w
      ≡ (ok response, w')
    → is_success response ≡ true
    → host.json_parse response.body ≡ some json
    → conforms (interface task_list_interface) json ≡ true
    → (v : Value) × (list_task_for_all_namespaces host (new_api (bare (some base))) absent w
        ≡ (ok v, w'))
      × (conforms (interface task_list_type) v ≡ true)
unfolding list_task_for_all_namespaces list_task_for_all_namespaces_raw list Configuration.base_path
    value
list_task_for_all_namespaces-conforms host base response json w w' empty answered success parsed
      typed =
    let (v, decoded, good) = task_list-conforms host.parse_date json typed in
    let received : list_task_for_all_namespaces_raw host (new_api (bare (some base))) absent w
        ≡ (ok (record { raw = response; model = task_list host.parse_date }), w') =
      send-bare host (some base) "/apis/pipeline.1eedaegon.github.io/v1/tasks" "GET" [] Query.end
        undefined (task_list host.parse_date) w empty
      ∙ ap (conclude (task_list host.parse_date)) answered
      ∙ rw success in
    (
      v,
      ap (λ o. continue o.0 (value host) o.1) received
          ∙ value-eq host response (task_list host.parse_date) json v w' parsed decoded,
      good,
    )
