-- ===== src/Tests/AxiosCalls.antt =====
-- Theorems on the axios client, at a platform that keeps paths as they are and an instance that logs
-- the members of its requests.
use pipeline_operator.Prelude.{String, ◌≡◌, refl, Option, none, some, [], ◌∷◌, ◌<>◌}
use pipeline_operator.Value.{Value, string, undefined, object, Fields, end, field, get_field}
use pipeline_operator.Errors.{ok, throw}
use pipeline_operator.Models.Run.{run_list}
use pipeline_operator.Runtime.Types.{absent, fixed}
use pipeline_operator.Runtime.Api.{new_api}
use pipeline_operator.Client.Laws.{bare, conclude, wire}
use pipeline_operator.Client.Runs.{list_run_for_all_namespaces_raw}
use pipeline_operator.Axios.Mime as AxiosMime
use pipeline_operator.Axios.Params.{Entries, set_search_params}
use pipeline_operator.Axios.Objects.{spread, find_field, or_else}
use pipeline_operator.Axios.Requests.{
  AxiosConfiguration, AxiosPlatform, RequestArgs, fill_path, path_string, query_object,
  set_api_key_to_object, with_content_type, create_args,
}
use pipeline_operator.Axios.Requests.Laws.{missing_error, create_args-first_missing}
use pipeline_operator.Axios.Requests.Options.{create_args-headers}
use pipeline_operator.Axios.Requests.Bodies.{bare_axios, json_data, create_args-json}
use pipeline_operator.Axios.Operations.Runs.{
  create_namespaced_run_op, patch_namespaced_run_op, replace_namespaced_run_op,
}
use pipeline_operator.Axios.Operations.RunCalls.{list_run_for_all_namespaces_call}
use pipeline_operator.Axios.Calls.{AxiosInstance, new_axios_api, factory_request, api_request}
use pipeline_operator.Axios.Calls.Laws.{
  api_request-factory_request, list_run_for_all_namespaces_call-raw,
}
use pipeline_operator.Tests.Samples.{Log, host}

abbrev text_of : Value → String
text_of (string s) = s
text_of _ = "other"

abbrev search_text : Entries → String
search_text [] = ""
search_text _ = "?q"

abbrev browser : AxiosPlatform
browser = record {
  encode_uri_component = λ s. s;
  string_of = text_of;
  json_stringify = λ v. "json";
  pathname = λ s. s;
  search_entries = λ s. [];
  search = search_text;
  hash = λ s. "";
}

abbrev instance_at : Option String → AxiosInstance Log
instance_at url = record {
  default_base_url = url;
  request = λ options log. (ok (object options), text_of (get_field options "url") ∷ log);
}

-- A configuration with a key, a method and a header of its own.
abbrev own_headers : Fields
own_headers = field "Accept" (string "text/plain") end

abbrev configured : AxiosConfiguration Log
configured = record {
  api_key = some (fixed "secret");
  base_path = some "http://k8s";
  base_options = object (field "headers" (object own_headers) (field "timeout" (string "9") end));
}

abbrev patched : Value
patched =
    object (
      field "name" (string "train")
        (field "namespace" (string "n") (field "body" (object end) end)))

abbrev patch_options : Fields
patch_options = field "method" (string "PUT") end

create_args-first_missing_example :
    create_args browser
      (some configured)
      replace_namespaced_run_op
      (object (field "name" (string "train") end))
      end
      []
    ≡ (throw (missing_error "replacePipeline1eedaegonGithubIoV1NamespacedRun" "namespace"), [])
create_args-first_missing_example =
    create_args-first_missing browser (some configured) replace_namespaced_run_op
      (object (field "name" (string "train") end)) end [] "namespace" refl

-- What a patch of a run is created as.
abbrev patch_args : RequestArgs
patch_args = record {
  url = "/apis/pipeline.1eedaegon.github.io/v1/namespaces/n/runs/train";
  options = field "method" (string "PUT") (
      field "headers"
        (object (
          field "authorization" (string "secret") (
            field "Content-Type" (string "application/json-patch+json")
              (field "Accept" (string "text/plain") end))))
        (field "timeout" (string "9") (field "data" (string "json") end)));
}

patch_created :
    create_args browser (some configured) patch_namespaced_run_op patched patch_options []
    ≡ (ok patch_args, [])
unfolding create_args spread set_search_params AxiosMime.is_json_mime
patch_created = refl

create_args-headers_example :
    (own : Fields) × (headers : Fields) × (set_api_key_to_object end "authorization"
        (some configured)
        []
      ≡ (ok own, []))
    × (find_field "headers" patch_args.options ≡ some (object headers))
    × ((k : String)
        → find_field k headers
          ≡ or_else (find_field k end) (
              or_else
                (find_field k own_headers)
                (find_field k (with_content_type (some "application/json-patch+json") own))))
create_args-headers_example =
    create_args-headers browser (some configured) patch_namespaced_run_op patched patch_options
      patch_args [] [] patch_created (refl, tt) tt

abbrev creation : Value
creation = object (field "namespace" (string "n") (field "body" (object end) end))

create_args-json_example :
    create_args browser {W = Log}
      (some (bare_axios (some "http://k8s")))
      create_namespaced_run_op
      creation
      end
      []
    ≡ (
      ok (record {
        url =
            path_string browser
              (fill_path browser
                ("namespace" ∷ [])
                creation
                "/apis/pipeline.1eedaegon.github.io/v1/namespaces/{namespace}/runs")
              (query_object create_namespaced_run_op.query creation end);
        options = field "method" (string "POST") (
            field "headers"
              (object (field "Content-Type" (string "application/json") end))
              (field "data" (json_data browser (object end)) end));
      }),
      [],
    )
unfolding AxiosMime.is_json_mime
create_args-json_example =
    create_args-json browser (some "http://k8s") create_namespaced_run_op creation [] refl
      "application/json" refl refl

api_request-factory_request_example :
    api_request browser
      (instance_at none)
      (new_axios_api
        (instance_at none)
        (some configured)
        none
        (some (instance_at (some "http://x"))))
      patch_namespaced_run_op
      patched
      patch_options
      []
    ≡ factory_request browser
        (instance_at none)
        (some configured)
        none
        (some (instance_at (some "http://x")))
        patch_namespaced_run_op
        patched
        patch_options
        []
api_request-factory_request_example =
    api_request-factory_request browser (instance_at none) (some configured) none
      (some (instance_at (some "http://x"))) patch_namespaced_run_op patched patch_options []

list_run_for_all_namespaces_call-raw_example :
    (list_run_for_all_namespaces_call browser
        (instance_at none)
        (new_axios_api
          (instance_at none)
          (some (bare_axios (some "http://k8s")))
          none
          (some (instance_at none)))
        (object end)
        end
        []
      ≡ (instance_at none).request
          (field "method" (string "GET") (
            field "headers" (object end) (
              field "url"
                (string ("http://k8s" <> "/apis/pipeline.1eedaegon.github.io/v1/runs"))
                end)))
          [])
    × (list_run_for_all_namespaces_raw host (new_api (bare (some "http://k8s"))) absent []
        ≡ conclude (run_list host.parse_date) (
            host.fetch
              ("http://k8s" <> "/apis/pipeline.1eedaegon.github.io/v1/runs")
              (wire host "GET" [] undefined)
              []))
list_run_for_all_namespaces_call-raw_example =
    list_run_for_all_namespaces_call-raw browser host (instance_at none) (instance_at none)
      "http://k8s" [] [] refl refl refl refl refl refl
