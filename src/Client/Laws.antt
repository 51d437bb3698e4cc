-- ===== src/Client/Laws.antt =====
-- What the methods send, and when they send nothing.
use pipeline_operator.Prelude.{
  String, ◌≡◌, inl, inr, true, Option, none, some, [], Bool-cases, ◌<>◌, if◌then◌else◌,
}
use mathlib.Core.Path.{ap₂}
use pipeline_operator.Value.{Value, is_nullish}
use pipeline_operator.Errors.{Response, Result, ok, throw, response_error, fetch_error, is_error}
use pipeline_operator.Exec.{outcome_cases}
use pipeline_operator.Models.Codec.{Model}
use pipeline_operator.Runtime.Query.{HttpQuery}
use pipeline_operator.Runtime.Types.{
  Headers, Body, plain, RequestInit, InitOverrides, absent, ConfigurationParameters, Platform,
}
use pipeline_operator.Runtime.Configuration
use pipeline_operator.Runtime.Mime.{is_json_mime}
use pipeline_operator.Runtime.Headers.{assign, delete_undefined, lookup}
use pipeline_operator.Runtime.Api.{
  BaseApi, new_api, is_success, no_alternative, create_fetch_params, fetch_api, run_pre, run_post,
  recover, recovered, run_on_error, request, spread, encode_body,
}
use pipeline_operator.Runtime.Api.Params.{url_with, with_query-eq}
use pipeline_operator.Client.{
  Parameters, ApiResponse, missing, authorized, send, create, delete, patch, read, replace_with,
}

module _ {W : Type 0} (host : Platform W) (api : BaseApi W) (overrides : InitOverrides W)
    (function path : String) (sent received : Model) (p : Parameters) (w : W) where
  -- Without a name nothing is read, deleted, patched or replaced: the method throws a
  -- `RequiredError`, nothing is sent, and nothing else is done.
  pub needs_name :
      p.name ≡ none
      → (read host api overrides function path received p w ≡ (throw (missing "name" function), w))
        × (delete host api overrides function path received p w
            ≡ (throw (missing "name" function), w))
        × (patch host api overrides function path received p w
            ≡ (throw (missing "name" function), w))
        × (replace_with host api overrides function path sent received p w
            ≡ (throw (missing "name" function), w))
  unfolding read delete patch replace_with
  needs_name gone = (rw gone, rw gone, rw gone, rw gone)

  -- With a name but without a body nothing is created or replaced: the method throws a
  -- `RequiredError`, nothing is sent, and nothing else is done.
  pub needs_body :
      (name : String)
      → p.name ≡ some name
      → is_nullish p.body ≡ true
      → (create host api overrides function path sent received p w
          ≡ (throw (missing "body" function), w))
        × (replace_with host api overrides function path sent received p w
            ≡ (throw (missing "body" function), w))
  unfolding create replace_with
  needs_body name named gone = (rw gone, rw (named, gone))

-- A client with nothing configured but its base path: no middleware, no key, no headers.
abbrev pub bare : {W : Type 0} → Option String → ConfigurationParameters W
bare base = record {
  base_path = base;
  fetch_api = none;
  middleware = none;
  query_params_stringify = none;
  username = none;
  password = none;
  api_key = none;
  access_token = none;
  headers = none;
  credentials = none;
}

-- What becomes of the outcome of `fetch`.
abbrev pub conclude : {W : Type 0} → Model → Result Response × W → Result ApiResponse × W
conclude model (ok r, w) =
    if is_success r
    then (ok (record { raw = r; model = model }), w)
    else (throw (response_error r "Response returned an error code"), w)
conclude model (throw e, w) = (throw (if is_error e then fetch_error e no_alternative else e), w)

-- What is sent with given headers and body.
abbrev pub wire : {W : Type 0} → Platform W → String → Headers → Value → RequestInit
wire host method headers body = record {
  method = method;
  headers = delete_undefined (assign [] headers);
  body = plain (
      if is_json_mime (lookup "Content-Type" (delete_undefined (assign [] headers)))
      then host.json_stringify body
      else body);
  credentials = none;
  extra = [];
}

encode_body-plain :
    {W : Type 0} (host : Platform W) (content_type : Option String) (v : Value)
    → encode_body host content_type (plain v)
      ≡ plain (if is_json_mime content_type then host.json_stringify v else v)
unfolding encode_body
encode_body-plain host content_type v = elim (Bool-cases (is_json_mime content_type)) [
  | inl json ↦ rw json
  | inr other ↦ rw other
]

-- What a fetch without middleware answers with.
abbrev settled : {W : Type 0} → Result Response × W → Result Response × W
settled (ok r, w) = (ok r, w)
settled (throw e, w) = (throw (if is_error e then fetch_error e no_alternative else e), w)

module _ {W : Type 0} (host : Platform W) (base : Option String) where
  bare_params :
      (path method : String) (headers : Headers) (query : HttpQuery) (body : Value) (w : W)
      → host.encode_uri_component "" ≡ ""
      → create_fetch_params host
          (new_api (bare base))
          (record {
            path = path;
            method = method;
            headers = headers;
            query = some query;
            body = plain body;
          })
          absent
          w
        ≡ (
          ok (record {
            url =
                url_with host.encode_uri_component
                  (Configuration.base_path {W = W} (bare base) <> path)
                  (some query);
            init = wire host method headers body;
          }),
          w,
        )
  unfolding create_fetch_params new_api Configuration.query_params_stringify spread assign
  bare_params path method headers query body w empty =
      let url =
        with_query-eq host.encode_uri_component (some query)
          (Configuration.base_path {W = W} (bare base) <> path) empty in
      let sent = delete_undefined (assign [] headers) in
      let init : Body → RequestInit =
        λ b. record { method = method; headers = sent; body = b; credentials = none; extra = [] } in
      ap₂ (λ u b. (ok (record { url = u; init = init b }), w)) url
        (encode_body-plain host (lookup "Content-Type" sent) body)

  bare_fetch :
      (url : String) (init : RequestInit) (w : W)
      → fetch_api host (new_api (bare base)) url init w ≡ settled (host.fetch url init w)
  unfolding fetch_api new_api run_pre run_post recover recovered run_on_error
      Configuration.middleware Configuration.fetch_function
  bare_fetch url init w = elim (outcome_cases (host.fetch url init w)) [
    | inl (r, v, answered) ↦ rw answered
    | inr (e, v, failed) ↦ elim (Bool-cases (is_error e)) [
      | inl native ↦ rw (failed, native)
      | inr other ↦ rw (failed, other)
    ]
  ]

module _ {W : Type 0} (host : Platform W) (base : Option String) (path method : String)
    (headers : Headers) (query : HttpQuery) (body : Value) (model : Model) (w : W)
    (empty : host.encode_uri_component "" ≡ "") where
  -- A method of a client with nothing configured but its base path, and without an override, sends
  -- one request, to the base path and its own path with the leaves of its query, and answers with
  -- what `fetch` answers: a response with a status from 200 to 299, and an error otherwise. The
  -- platform encodes the empty text as itself.
  pub send-bare :
      send host (new_api (bare base)) path method headers query (ok body) model absent w
      ≡ conclude model (
          host.fetch
            (url_with host.encode_uri_component
              (Configuration.base_path {W = W} (bare base) <> path)
              (some query))
            (wire host method headers body)
            w)
  unfolding send authorized request Configuration.api_key new_api
  send-bare =
      let made = bare_params host base path method headers query body w empty in
      let target =
        url_with host.encode_uri_component (Configuration.base_path {W = W} (bare base) <> path)
          (some query) in
      let fetched = bare_fetch host base target (wire host method headers body) w in
      elim (outcome_cases (host.fetch target (wire host method headers body) w)) [
        | inl (r, v, answered) ↦ elim (Bool-cases (is_success r)) [
          | inl good ↦ rw (made, fetched, answered, good)
          | inr bad ↦ rw (made, fetched, answered, bad)
        ]
        | inr (e, v, failed) ↦ elim (Bool-cases (is_error e)) [
          | inl native ↦ rw (made, fetched, failed, native)
          | inr other ↦ rw (made, fetched, failed, other)
        ]
      ]
