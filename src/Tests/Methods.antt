-- ===== src/Tests/Methods.antt =====
-- Theorems on the methods of the API, at a logging platform.
use pipeline_operator.Prelude.{String, ◌≡◌, refl, none, some, [], ◌<>◌}
use pipeline_operator.Value.{Value, string, undefined, object, end, field, dates_valid}
use pipeline_operator.Errors.{ok}
use pipeline_operator.Models.Codec.{
  from_json, to_json, read_fields, write_fields, unless_nullish, map_array, map_items,
}
use pipeline_operator.Models.Run.{run}
use pipeline_operator.Models.Meta.{status}
use pipeline_operator.Runtime.Query as Query
use pipeline_operator.Runtime.Types.{absent}
use pipeline_operator.Runtime.Configuration
use pipeline_operator.Runtime.Api.{new_api}
use pipeline_operator.Runtime.Api.Params.{url_with}
use pipeline_operator.Client.{
  Parameters, json_content, value, send, create, patch, replace, replace_with,
}
use pipeline_operator.Client.Runs.{replace_namespaced_run_raw}
use pipeline_operator.Client.Laws.{bare, conclude, wire, send-bare}
use pipeline_operator.Client.Sends.{
  answer, sent_as_json, dry_and_validated, create_sends, replace_with_sends, patch_sends,
}
use pipeline_operator.Client.Rereads.{replace_namespaced_run-value}
use pipeline_operator.Tests.Samples.{Log, created, read_text, run_json, host, parameters}
use pipeline_operator.Tests.Codecs.{decoded_run, read_text-ReadsOwnText}

abbrev runs : String
runs = "/namespaces/n/runs"

abbrev one_run : String
one_run = "/namespaces/n/runs/{name}"

abbrev replaced_run : String
replaced_run = "/apis/pipeline.1eedaegon.github.io/v1/namespaces/{namespace}/runs/{name}"

-- A run without a status, and the JSON that is sent for it.
abbrev small_run : Value
small_run = object (field "kind" (string "Run") end)

abbrev small_parameters : Parameters
small_parameters = record parameters { body = small_run }

abbrev small_json : Value
small_json = object (
    field "apiVersion" undefined (
      field "kind" (string "Run")
        (field "metadata" undefined (field "spec" undefined (field "status" undefined end)))))

abbrev bodiless : Parameters
bodiless = record parameters { body = undefined }

send-bare_example :
    send host
      (new_api (bare (some "http://k8s")))
      runs
      "GET"
      []
      Query.end
      (ok undefined)
      status
      absent
      []
    ≡ conclude status (
        host.fetch
          (url_with host.encode_uri_component
            (Configuration.base_path {W = Log} (bare (some "http://k8s")) <> runs)
            (some Query.end))
          (wire host "GET" [] undefined)
          [])
send-bare_example =
    send-bare host (some "http://k8s") runs "GET" [] Query.end undefined status [] refl

create_sends_example :
    create host
      (new_api (bare none))
      absent
      "createRun"
      runs
      (run read_text)
      (run read_text)
      small_parameters
      []
    ≡ sent_as_json host none "POST" runs
        (dry_and_validated small_parameters)
        (ok small_json)
        (run read_text)
        []
unfolding to_json write_fields unless_nullish
create_sends_example =
    create_sends host none "createRun" runs (run read_text) (run read_text) small_parameters [] refl

replace_with_sends_example :
    replace_with host
      (new_api (bare none))
      absent
      "replaceRun"
      one_run
      (run read_text)
      (run read_text)
      small_parameters
      []
    ≡ sent_as_json host none "PUT"
        (replace "{name}" "train" one_run)
        (dry_and_validated small_parameters)
        (ok small_json)
        (run read_text)
        []
unfolding to_json write_fields unless_nullish
replace_with_sends_example =
    replace_with_sends host none "replaceRun" one_run (run read_text) (run read_text)
      small_parameters [] refl

patch_sends_example :
    patch host (new_api (bare none)) absent "patchRun" one_run (run read_text) parameters []
    ≡ answer host none "PATCH"
        (replace "{name}" "train" one_run)
        []
        (dry_and_validated parameters)
        undefined
        (run read_text)
        []
patch_sends_example =
    patch_sends host none "patchRun" one_run (run read_text) (run read_text) parameters [] refl
      "train" refl

replace_namespaced_run-value_example :
    (u : Value) × (replace_namespaced_run_raw host
        (new_api (bare none))
        absent
        (record parameters { body = decoded_run })
        []
      ≡ answer host none "PUT"
          (replace "{name}" "train" replaced_run)
          json_content
          (dry_and_validated parameters)
          u
          (run read_text)
          [])
    × (from_json (run read_text) u ≡ ok decoded_run)
unfolding value from_json read_fields unless_nullish map_array map_items dates_valid
replace_namespaced_run-value_example =
    replace_namespaced_run-value host none created run_json decoded_run "train"
      (record parameters { body = decoded_run }) [] [] refl read_text-ReadsOwnText refl refl refl
      refl refl refl
