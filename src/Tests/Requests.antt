-- ===== src/Tests/Requests.antt =====
-- Theorems on requests, headers, URLs and middleware, at a logging platform.
use pipeline_operator.Prelude.{
  ◌≡◌, ◌≤◌, ◌<◌, refl, inr, none, some, [], ◌∷◌, ◌++◌, ◌<>◌, arith, if◌then◌else◌,
}
use mathlib.Core.Option.{get_or}
use pipeline_operator.Value.{string}
use pipeline_operator.Errors.{ok, throw, error_object, response_error, fetch_error}
use pipeline_operator.Exec.{try_catch, ◌>>=◌}
use pipeline_operator.Runtime.Query.{end, entry, nested, querystring}
use pipeline_operator.Runtime.Types.{
  plain, RequestInit, FetchParams, RequestOpts, InitOverride, absent, fixed,
}
use pipeline_operator.Runtime.Configuration
use pipeline_operator.Runtime.Mime.{is_json_mime}
use pipeline_operator.Runtime.Headers.{assign, delete_undefined, lookup}
use pipeline_operator.Runtime.Headers.Laws.{sent, first_some}
use pipeline_operator.Runtime.Api.{
  BaseApi, with_middleware, no_alternative, no_override, spread, encode_body, create_fetch_params,
  fetch_api, run_pre, run_post, recover, request,
}
use pipeline_operator.Runtime.Api.Params.{
  url_with, merged, create_fetch_params-url, create_fetch_params-headers,
  create_fetch_params_override,
}
use pipeline_operator.Runtime.Api.Middlewares.{fetch_api-with_middleware, fetch_api_fails}
use pipeline_operator.Runtime.Api.Requests.{request-IsSuccess, request_fails}
use pipeline_operator.Client.Laws.{bare}
use pipeline_operator.Tests.Samples.{Log, created, not_found, host, missing_host, down_host, noting}

abbrev api : BaseApi Log
api = record {
  configuration = record (bare (some "http://k8s")) {
    headers = some (("x", some "1") ∷ ("y", some "2") ∷ []);
  };
  middleware = [];
}

abbrev context : RequestOpts
context = record {
  path = "/runs";
  method = "POST";
  headers = ("y", none) ∷ ("Content-Type", some "text/plain") ∷ [];
  query = some (entry "none" (nested end) end);
  body = plain (string "b");
}

abbrev init : RequestInit
init = record {
  method = "POST";
  headers = ("x", "1") ∷ ("Content-Type", "text/plain") ∷ [];
  body = plain (string "b");
  credentials = none;
  extra = [];
}

abbrev params : FetchParams
params = record { url = "http://k8s/runs?"; init = init }

made : create_fetch_params host api context absent [] ≡ (ok params, [])
unfolding create_fetch_params Configuration.base_path Configuration.query_params_stringify
    querystring spread assign delete_undefined lookup is_json_mime encode_body
made = refl

create_fetch_params-url_example :
    params.url
    ≡ url_with (λ s. s) (Configuration.base_path api.configuration <> "/runs") context.query
create_fetch_params-url_example =
    create_fetch_params-url host api context absent params [] [] made refl refl

create_fetch_params-headers_example :
    lookup "y" init.headers
    ≡ sent
        (first_some (lookup "y" context.headers) (lookup "y" (get_or api.configuration.headers [])))
create_fetch_params-headers_example =
    create_fetch_params-headers host api context absent params [] [] made "y" refl refl refl

-- An override that gives a JSON type and nothing else.
abbrev json_type : InitOverride
json_type = record no_override { headers = some (("Content-Type", "application/json") ∷ []) }

abbrev overridden_params : FetchParams
overridden_params = record params {
  init = record init { headers = ("Content-Type", "application/json") ∷ [] };
}

made_overridden :
    create_fetch_params host api context (fixed json_type) [] ≡ (ok overridden_params, [])
unfolding create_fetch_params Configuration.base_path Configuration.query_params_stringify
    querystring spread assign delete_undefined lookup is_json_mime encode_body
made_overridden = refl

create_fetch_params_override_example :
    (overridden_params.init.headers ≡ ("Content-Type", "application/json") ∷ [])
    × (overridden_params.init.body
        ≡ plain (
            if is_json_mime (lookup "Content-Type" (merged host api context))
            then host.json_stringify (string "b")
            else string "b"))
create_fetch_params_override_example =
    create_fetch_params_override host api context (fixed json_type) overridden_params [] []
      made_overridden json_type (("Content-Type", "application/json") ∷ []) (string "b") refl refl
      refl

answered : request host api context absent [] ≡ (ok created, "http://k8s/runs?" ∷ [])
unfolding request create_fetch_params Configuration.base_path Configuration.query_params_stringify
    querystring spread assign delete_undefined lookup is_json_mime encode_body fetch_api run_pre
    run_post Configuration.fetch_function
answered = refl

request-IsSuccess_example :
    (200 ≤ 201)
    × (201 < 300)
    × ((params : FetchParams) × (v : Log) × (create_fetch_params host api context absent []
          ≡ (ok params, v))
        × (fetch_api host api params.url params.init v ≡ (ok created, "http://k8s/runs?" ∷ [])))
request-IsSuccess_example =
    request-IsSuccess host api context absent created [] ("http://k8s/runs?" ∷ []) answered

made_missing : create_fetch_params missing_host api context absent [] ≡ (ok params, [])
unfolding create_fetch_params Configuration.base_path Configuration.query_params_stringify
    querystring spread assign delete_undefined lookup is_json_mime encode_body
made_missing = refl

fetched_missing :
    fetch_api missing_host api params.url params.init [] ≡ (ok not_found, "http://k8s/runs?" ∷ [])
unfolding fetch_api run_pre run_post Configuration.fetch_function
fetched_missing = refl

request_fails_example :
    request missing_host api context absent []
    ≡ (throw (response_error not_found "Response returned an error code"), "http://k8s/runs?" ∷ [])
request_fails_example =
    request_fails missing_host api context absent params not_found [] [] ("http://k8s/runs?" ∷ [])
      made_missing fetched_missing (inr (omega arith))

fetch_api_fails_example :
    fetch_api down_host api "u" init []
    ≡ (throw (fetch_error (error_object "TypeError: fetch failed") no_alternative), "u" ∷ [])
unfolding run_pre Configuration.fetch_function
fetch_api_fails_example =
    fetch_api_fails down_host api "u" init [] [] ("u" ∷ []) (record { url = "u"; init = init })
      (error_object "TypeError: fetch failed") refl refl tt

abbrev noted : BaseApi Log
noted = record api { middleware = noting "a" ∷ [] }

fetch_api-with_middleware_example :
    fetch_api host (with_middleware noted (noting "b" ∷ [])) "u" init ≡ (do
      first ← run_pre noted.middleware (record { url = "u"; init = init })
      params ← run_pre (noting "b" ∷ []) first
      response ←
          try_catch
            (Configuration.fetch_function host noted.configuration params.url params.init)
            (recover params (noted.middleware ++ (noting "b" ∷ [])))
      changed ← run_post params noted.middleware response
      run_post params (noting "b" ∷ []) changed)
fetch_api-with_middleware_example = fetch_api-with_middleware host noted (noting "b" ∷ []) "u" init
