-- ===== src/Axios/Calls/Laws.antt =====
-- The three ways in which the axios client is called, and its agreement with the fetch client.
use pipeline_operator.Prelude.{String, ◌≡◌, refl, ap, inl, inr, Option, none, some, [], ◌<>◌}
use mathlib.Core.Option.{get_or}
use pipeline_operator.Value.{Value, string, object, undefined, Fields, end, field}
use pipeline_operator.Exec.{outcome_cases}
use pipeline_operator.Models.Run.{run_list}
use pipeline_operator.Runtime.Query as Query
use pipeline_operator.Runtime.Types.{Platform, absent}
use pipeline_operator.Runtime.Configuration
use pipeline_operator.Runtime.Api.{new_api}
use pipeline_operator.Client.{list}
use pipeline_operator.Client.Runs.{list_run_for_all_namespaces_raw}
use pipeline_operator.Client.Laws.{bare, conclude, wire, send-bare}
use pipeline_operator.Axios.Params.{set_search_params, set_flattened}
use pipeline_operator.Axios.Objects.{set_field, spread}
use pipeline_operator.Axios.Requests.{
  AxiosConfiguration, AxiosPlatform, RequestArgs, Operation, query_object, fill_path, path_string,
  create_args,
}
use pipeline_operator.Axios.Requests.Bodies.{bare_axios}
use pipeline_operator.Axios.Operations.RunCalls.{list_run_for_all_namespaces_call}
use pipeline_operator.Axios.Calls.{
  AxiosInstance, axios_base_path, url_prefix, base_path_of, create_request_function, new_axios_api,
  fp_request, factory_request, api_request,
}

base_path_of-base_path_of :
    {W : Type 0} (configuration : Option (AxiosConfiguration W)) (base : String)
    → base_path_of configuration (base_path_of configuration base) ≡ base_path_of configuration base
base_path_of-base_path_of none base = refl
base_path_of-base_path_of (some c) base = get_or-get_or c.base_path base
  where
    get_or-get_or : (o : Option String) (b : String) → get_or o (get_or o b) ≡ get_or o b
    get_or-get_or none b = refl
    get_or-get_or (some t) b = refl

module _ {W : Type 0} (host : AxiosPlatform) (global : AxiosInstance W) where
  create_request_function-base :
      (made : RequestArgs) (configuration : Option (AxiosConfiguration W)) (axios : AxiosInstance W)
      (base : String)
      → create_request_function made configuration axios (base_path_of configuration base)
        ≡ create_request_function made configuration axios base
  unfolding create_request_function
  create_request_function-base made configuration axios base =
      ap
        (λ own. axios.request (
          set_field "url" (string (url_prefix axios.default_base_url own <> made.url))
            made.options))
        (base_path_of-base_path_of configuration base)

  -- A method of the class does what the factory's function does that was given the same
  -- configuration, base path and instance.
  pub api_request-factory_request :
      (configuration : Option (AxiosConfiguration W)) (base : Option String)
      (axios : Option (AxiosInstance W)) (op : Operation) (args : Value) (options : Fields) (w : W)
      → api_request host global (new_axios_api global configuration base axios) op args options w
        ≡ factory_request host global configuration base axios op args options w
  unfolding api_request factory_request fp_request new_axios_api
  api_request-factory_request configuration base axios op args options w =
      elim (outcome_cases (create_args host configuration op args options w)) [
        | inl (made, v, created) ↦ rw created (
            ap (λ f. f v)
              (create_request_function-base made configuration (get_or axios global)
                (get_or base axios_base_path)))
        | inr (e, v, refused) ↦ rw refused
      ]

-- A listing of all runs by clients with nothing configured but the same base path, without
-- parameters, is a GET of the same URL by both clients, without headers. The instance has no base URL
-- of its own; the platform keeps the path as it is, finds in it no query and no fragment, and encodes
-- the empty query and the empty text as themselves.
pub list_run_for_all_namespaces_call-raw :
    {V W : Type 0} (host : AxiosPlatform) (platform : Platform V) (global axios : AxiosInstance W)
    (base : String) (v : V) (w : W)
    → host.pathname "/apis/pipeline.1eedaegon.github.io/v1/runs"
      ≡ "/apis/pipeline.1eedaegon.github.io/v1/runs"
    → host.search_entries "/apis/pipeline.1eedaegon.github.io/v1/runs" ≡ []
    → host.search [] ≡ ""
    → host.hash "/apis/pipeline.1eedaegon.github.io/v1/runs" ≡ ""
    → platform.encode_uri_component "" ≡ ""
    → axios.default_base_url ≡ none
    → (list_run_for_all_namespaces_call host global
          (new_axios_api global (some (bare_axios (some base))) none (some axios))
          (object end)
          end
          w
        ≡ axios.request
            (field "method" (string "GET") (
              field "headers"
                (object end)
                (field "url" (string (base <> "/apis/pipeline.1eedaegon.github.io/v1/runs")) end)))
            w)
      × (list_run_for_all_namespaces_raw platform (new_api (bare (some base))) absent v
          ≡ conclude (run_list platform.parse_date) (
              platform.fetch
                (base <> "/apis/pipeline.1eedaegon.github.io/v1/runs")
                (wire platform "GET" [] undefined)
                v))
unfolding list_run_for_all_namespaces_call api_request fp_request new_axios_api
    create_request_function list_run_for_all_namespaces_raw list Configuration.base_path path_string
    fill_path query_object set_search_params set_flattened set_field spread
list_run_for_all_namespaces_call-raw host platform global axios base v w path entries blank hash
      empty own =
    (
      rw (own, path, entries, blank, hash),
      send-bare platform (some base) "/apis/pipeline.1eedaegon.github.io/v1/runs" "GET" [] Query.end
          undefined (run_list platform.parse_date) v empty,
    )
