-- ===== src/Runtime/Api.antt =====
-- The class `BaseAPI` of generated/sdk/ts-fetch/runtime.ts: its middleware, `createFetchParams`,
-- `fetchApi` and `request`.
pub mod Middlewares
pub mod Requests
pub mod Params
use pipeline_operator.Prelude.{
  ℕ, String, Bool, true, false, ◌&&◌, Option, none, some, List, [], ◌∷◌, ◌++◌, map, leb, ltb, ◌<>◌,
  if◌then◌else◌,
}
use mathlib.Core.Option.{get_or}
use pipeline_operator.Value.{Value}
use pipeline_operator.Errors.{Response, Thrown, response_error, fetch_error, is_error}
use pipeline_operator.Exec.{Exec, pure, raise, try_catch, ◌>>=◌, ◌>>◌}
use pipeline_operator.Runtime.Query.{HttpQuery, end, entry}
use pipeline_operator.Runtime.Mime.{is_json_mime}
use pipeline_operator.Runtime.Types.{
  Body, plain, form_data, url_search_params, blob, RequestInit, FetchParams, RequestOpts,
  InitOverride, InitOverrides, absent, fixed, computed, Middleware, ConfigurationParameters,
  Platform,
}
use pipeline_operator.Runtime.Configuration
use pipeline_operator.Runtime.Headers.{assign, delete_undefined, lookup}

-- A client: the configuration it was given, and its own list of middleware.
pub record BaseApi (W : Type 0) : Type 0 where
  pub configuration : ConfigurationParameters W
  pub middleware : List (Middleware W)

-- A member that an optional override replaces.
abbrev pub overridden {ℓ} : {A : Type ℓ} → A → Option A → A
overridden old none = old
overridden old (some new) = new

-- { ...init, ...override }
unfoldable pub spread : RequestInit → InitOverride → RequestInit
spread init o = record {
  method = overridden init.method o.method;
  headers = overridden init.headers o.headers;
  body = overridden init.body o.body;
  credentials = overridden init.credentials o.credentials;
  extra = o.extra;
}

-- { ...init, ...undefined }
abbrev pub no_override : InitOverride
no_override = record { method = none; headers = none; body = none; credentials = none; extra = [] }

-- Object.keys(query).length !== 0
abbrev pub has_keys : HttpQuery → Bool
has_keys end = false
has_keys (entry key value query) = true

abbrev pub or_else : Option Response → Option Response → Option Response
or_else old none = old
or_else old (some r) = some r

abbrev pub no_alternative : String
no_alternative = "The request failed and the interceptors did not return an alternative response"

abbrev pub with_query : (HttpQuery → String) → Option HttpQuery → String → String
with_query stringify none url = url
with_query stringify (some query) url =
    if has_keys query then url <> ("?" <> stringify query) else url

abbrev pub is_success : Response → Bool
is_success response = leb 200 response.status && ltb response.status 300

module _ {W : Type 0} where
  abbrev pub override_function : InitOverrides W → RequestInit → RequestOpts → Exec W InitOverride
  override_function absent init context = pure no_override
  override_function (fixed o) init context = pure o
  override_function (computed f) init context = f init context

  -- new BaseAPI(configuration)
  unfoldable pub new_api : ConfigurationParameters W → BaseApi W
  new_api c = record { configuration = c; middleware = Configuration.middleware c }

  unfoldable pub with_middleware : BaseApi W → List (Middleware W) → BaseApi W
  with_middleware api more = record api { middleware = api.middleware ++ more }

  unfoldable pub with_pre_middleware :
      BaseApi W → List (FetchParams → Exec W (Option FetchParams)) → BaseApi W
  unfolding with_middleware
  with_pre_middleware api pres =
      with_middleware api (map (λ f. record { pre = some f; post = none; on_error = none }) pres)

  unfoldable pub with_post_middleware :
      BaseApi W → List (FetchParams → Response → Exec W (Option Response)) → BaseApi W
  unfolding with_middleware
  with_post_middleware api posts =
      with_middleware api (map (λ f. record { pre = none; post = some f; on_error = none }) posts)

  -- One round of the first loop of `fetchApi`: `await middleware.pre(…) || fetchParams`.
  unfoldable pub apply_pre : Middleware W → FetchParams → Exec W FetchParams
  apply_pre m params = elim m.pre [
    | none ↦ pure params
    | some f ↦ (do changed ← f params; pure (overridden params changed))
  ]

  unfoldable pub run_pre : List (Middleware W) → FetchParams → Exec W FetchParams
  run_pre [] params = pure params
  run_pre (m ∷ ms) params = do next ← apply_pre m params; run_pre ms next

  -- One round of the last loop, on a clone of the response.
  unfoldable pub apply_post : FetchParams → Middleware W → Response → Exec W Response
  apply_post params m response = elim m.post [
    | none ↦ pure response
    | some f ↦ (do changed ← f params response; pure (overridden response changed))
  ]

  unfoldable pub run_post : FetchParams → List (Middleware W) → Response → Exec W Response
  run_post params [] response = pure response
  run_post params (m ∷ ms) response = do
    next ← apply_post params m response
    run_post params ms next

  -- One round of the loop in the `catch` block.
  unfoldable pub apply_on_error :
      FetchParams → Thrown → Middleware W → Option Response → Exec W (Option Response)
  apply_on_error params error m response = elim m.on_error [
    | none ↦ pure response
    | some f ↦ (do changed ← f params error response; pure (or_else response changed))
  ]

  unfoldable pub run_on_error :
      FetchParams → Thrown → List (Middleware W) → Option Response → Exec W (Option Response)
  run_on_error params error [] response = pure response
  run_on_error params error (m ∷ ms) response = do
    next ← apply_on_error params error m response
    run_on_error params error ms next

  -- The end of the `catch` block.
  unfoldable pub recovered : Thrown → Option Response → Exec W Response
  recovered error (some response) = pure response
  recovered error none =
      if is_error error then raise (fetch_error error no_alternative) else raise error

  unfoldable pub recover : FetchParams → List (Middleware W) → Thrown → Exec W Response
  recover params ms error = do
    response ← run_on_error params error ms none
    recovered error response

  module _ (host : Platform W) where
    unfoldable pub fetch_api : BaseApi W → String → RequestInit → Exec W Response
    unfolding Configuration.fetch_function
    fetch_api api url init = do
      params ← run_pre api.middleware (record { url = url; init = init })
      response ←
          try_catch (Configuration.fetch_function host api.configuration params.url params.init)
            (recover params api.middleware)
      run_post params api.middleware response

    -- The body that is sent: a plain value under a JSON `Content-Type` is serialised.
    unfoldable pub encode_body : Option String → Body → Body
    encode_body content_type (plain v) =
        if is_json_mime content_type then plain (host.json_stringify v) else plain v
    encode_body content_type body = body

    unfoldable pub create_fetch_params :
        BaseApi W → RequestOpts → InitOverrides W → Exec W FetchParams
    unfolding spread encode_body Configuration.base_path Configuration.query_params_stringify
    create_fetch_params api context overrides =
        let url =
          with_query (Configuration.query_params_stringify host api.configuration) context.query
            (Configuration.base_path api.configuration <> context.path) in
        let headers =
          delete_undefined
            (assign (assign [] (get_or api.configuration.headers [])) context.headers) in
        let params : RequestInit = record {
          method = context.method;
          headers = headers;
          body = context.body;
          credentials = api.configuration.credentials;
          extra = [];
        } in
        do
          override ← override_function overrides params context
          let init = spread params override
          pure (record {
            url = url;
            init = record init { body = encode_body (lookup "Content-Type" headers) init.body };
          })

    unfoldable pub request : BaseApi W → RequestOpts → InitOverrides W → Exec W Response
    request api context overrides = do
      params ← create_fetch_params api context overrides
      response ← fetch_api api params.url params.init
      if is_success response
          then pure response
          else raise (response_error response "Response returned an error code")
