-- ===== src/Client/Sends.antt =====
-- What each method of a client without further configuration sends.
use pipeline_operator.Prelude.{
  String, ◌≡◌, refl, ap, ◌∙◌, inl, inr, false, Bool-cases, Option, none, some, Option-cases, [],
  ◌∷◌, ◌<>◌, if◌then◌else◌,
}
use pipeline_operator.Value.{Value, is_nullish, undefined}
use pipeline_operator.Errors.{Result, ok, throw}
use pipeline_operator.Models.Codec.{Model, to_json}
use pipeline_operator.Runtime.Query.{HttpQuery, end}
use pipeline_operator.Runtime.Types.{Headers, RequestInit, plain, absent, Platform}
use pipeline_operator.Runtime.Headers.{assign, delete_undefined, lookup}
use pipeline_operator.Runtime.Mime.{is_json_mime}
use pipeline_operator.Runtime.Configuration
use pipeline_operator.Runtime.Api.{new_api}
use pipeline_operator.Runtime.Api.Params.{url_with}
use pipeline_operator.Client.{
  Parameters, ApiResponse, missing, authorized, send, json_content, optional_entry, create, delete,
  patch, read, replace_with, replace,
}
use pipeline_operator.Client.Laws.{bare, conclude, wire, send-bare}

-- The query parameters `dryRun` and `fieldValidation`, where they are given.
abbrev pub dry_and_validated : Parameters → HttpQuery
dry_and_validated p =
    optional_entry "dryRun" p.dry_run (optional_entry "fieldValidation" p.field_validation end)

-- What comes of one fetch by a bare client.
abbrev pub answer :
    {W : Type 0}
    → Platform W
    → Option String
    → (method path : String) → Headers
    → HttpQuery
    → Value
    → Model
    → W
    → Result ApiResponse × W
answer {W} host base method path headers query body model w = conclude model (
    host.fetch
      (url_with host.encode_uri_component (Configuration.base_path {W = W} (bare base) <> path)
        (some query))
      (wire host method headers body) w)

-- A request with a JSON body, as the platform gets it.
abbrev pub json_request : {W : Type 0} → Platform W → String → Value → RequestInit
json_request host method v = record {
  method = method;
  headers = ("Content-Type", "application/json") ∷ [];
  body = plain (host.json_stringify v);
  credentials = none;
  extra = [];
}

-- What comes of an encoded body: nothing is sent of one that was refused.
abbrev pub sent_as_json :
    {W : Type 0}
    → Platform W
    → Option String
    → (method path : String) → HttpQuery
    → Result Value
    → Model
    → W
    → Result ApiResponse × W
sent_as_json host base method path query (throw e) model w = (throw e, w)
sent_as_json {W} host base method path query (ok v) model w = conclude model (
    host.fetch
      (url_with host.encode_uri_component (Configuration.base_path {W = W} (bare base) <> path)
        (some query))
      (json_request host method v) w)

wire-json_content :
    {W : Type 0} (host : Platform W) (method : String) (v : Value)
    → wire host method json_content v ≡ json_request host method v
unfolding assign delete_undefined lookup is_json_mime
wire-json_content host method v = refl

send-json :
    {W : Type 0} (host : Platform W) (base : Option String) (method path : String)
    (query : HttpQuery) (encoded : Result Value) (model : Model) (w : W)
    → host.encode_uri_component "" ≡ ""
    → send host (new_api (bare base)) path method json_content query encoded model absent w
      ≡ sent_as_json host base method path query encoded model w
unfolding send authorized Configuration.api_key new_api
send-json host base method path query (throw e) model w empty = refl
send-json {W} host base method path query (ok v) model w empty =
    send-bare host base path method json_content query v model w empty
    ∙ ap
        (λ init. conclude model (
          host.fetch
            (url_with host.encode_uri_component
              (Configuration.base_path {W = W} (bare base) <> path) (some query))
            init w))
        (wire-json_content host method v)

module _ {W : Type 0} (host : Platform W) (base : Option String) (function path : String)
    (sent received : Model) (p : Parameters) (w : W)
    (empty : host.encode_uri_component "" ≡ "") where
  -- A creation sends nothing without a body, and with one that cannot be encoded, and does nothing
  -- else: it throws the error for the missing body, and what the encoding throws. Otherwise it sends
  -- one request, a POST with the content type `application/json`, no other header, and the JSON text of
  -- the encoded body, and answers with a response of a status from 200 to 299, and an error otherwise.
  -- The client has nothing configured but a base path, there is no override, and the platform encodes
  -- the empty text as itself.
  pub create_sends : create host (new_api (bare base)) absent function path sent received p w ≡ (
      if is_nullish p.body
      then (throw (missing "body" function), w)
      else sent_as_json host base "POST" path
          (dry_and_validated p)
          (to_json sent p.body)
          received
          w)
  unfolding create
  create_sends = elim (Bool-cases (is_nullish p.body)) [
    | inl gone ↦ rw gone
    | inr there ↦ rw there (
        send-json host base "POST" path (dry_and_validated p) (to_json sent p.body) received w
          empty)
  ]

  -- A replacement sends nothing without a name, without a body, and with a body that cannot be
  -- encoded, and does nothing else: it throws the error for the missing name or else body, and what
  -- the encoding throws. Otherwise it sends one request, a PUT to the path with the encoded name in
  -- it, with the content type `application/json`, no other header, and the JSON text of the encoded
  -- body, and answers with a response of a status from 200 to 299, and an error otherwise. The client
  -- has nothing configured but a base path, there is no override, and the platform encodes the empty
  -- text as itself.
  pub replace_with_sends :
      replace_with host (new_api (bare base)) absent function path sent received p w
      ≡ (elim p.name [
        | none ↦ (throw (missing "name" function), w)
        | some name ↦
            if is_nullish p.body
            then (throw (missing "body" function), w)
            else sent_as_json host base "PUT"
                (replace "{name}" (host.encode_uri_component name) path)
                (dry_and_validated p)
                (to_json sent p.body)
                received
                w
      ])
  unfolding replace_with
  replace_with_sends = elim (Option-cases p.name) [
    | inl unnamed ↦ rw unnamed
    | inr (name, named) ↦ elim (Bool-cases (is_nullish p.body)) [
      | inl gone ↦ rw (named, gone)
      | inr there ↦
          rw (named, there)
            (send-json host base "PUT" (replace "{name}" (host.encode_uri_component name) path)
              (dry_and_validated p) (to_json sent p.body) received w empty)
    ]
  ]

  -- A replacement with a name and a body that is encoded.
  pub replace_with-answer :
      (name : String) (v : Value)
      → p.name ≡ some name
      → is_nullish p.body ≡ false
      → to_json sent p.body ≡ ok v
      → replace_with host (new_api (bare base)) absent function path sent received p w
        ≡ answer host base "PUT"
            (replace "{name}" (host.encode_uri_component name) path)
            json_content
            (dry_and_validated p)
            v
            received
            w
  unfolding replace_with
  replace_with-answer name v named given encoded =
      rw (named, given, encoded)
        (send-bare host base (replace "{name}" (host.encode_uri_component name) path) "PUT"
          json_content (dry_and_validated p) v received w empty)

  -- A patch by a client with nothing configured but a base path, with a name, is one PATCH without
  -- headers and without a body: whatever body was given is not sent. The platform encodes the empty
  -- text as itself.
  pub patch_sends :
      (name : String)
      → p.name ≡ some name
      → patch host (new_api (bare base)) absent function path received p w
        ≡ answer host base "PATCH"
            (replace "{name}" (host.encode_uri_component name) path)
            []
            (dry_and_validated p)
            undefined
            received
            w
  unfolding patch
  patch_sends name named = rw named (
      send-bare host base (replace "{name}" (host.encode_uri_component name) path) "PATCH" []
        (dry_and_validated p) undefined received w empty)

  -- Reading, and deleting, one object by a client with nothing configured but a base path, with a
  -- name, are one GET and one DELETE without a body; only a deletion passes `dryRun` on. The platform
  -- encodes the empty text as itself.
  pub read_sends :
      (name : String)
      → p.name ≡ some name
      → (read host (new_api (bare base)) absent function path received p w
          ≡ answer host base "GET"
              (replace "{name}" (host.encode_uri_component name) path)
              []
              end
              undefined
              received
              w)
        × (delete host (new_api (bare base)) absent function path received p w
            ≡ answer host base "DELETE"
                (replace "{name}" (host.encode_uri_component name) path)
                []
                (optional_entry "dryRun" p.dry_run end)
                undefined
                received
                w)
  unfolding read delete
  read_sends name named =
      let path' = replace "{name}" (host.encode_uri_component name) path in
      (
        rw named (send-bare host base path' "GET" [] end undefined received w empty),
        rw named (
            send-bare host base path' "DELETE" [] (optional_entry "dryRun" p.dry_run end) undefined
              received w empty),
      )
