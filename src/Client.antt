-- ===== src/Client.antt =====
-- The operations of generated/sdk/ts-fetch/apis/Pipeline1eedaegonGithubIoV1Api.ts. The generator
-- wrote 33 methods from seven templates, which are the functions here; the children hold the
-- methods. The `UNKNOWN_PARAMETER_NAME` members of the request interfaces have no type and are read
-- nowhere.
pub mod Pipelines
pub mod Runs
pub mod Tasks
pub mod Laws
pub mod Typed
pub mod Sends
pub mod Rereads
use pipeline_operator.Prelude.{
  String, Bool, true, false, Option, none, some, List, [], ◌∷◌, ◌<>◌, if◌then◌else◌,
}
use Prim.Native.String
use Prim.Native.Char.{Char, code}
use pipeline_operator.Prelude.{◌==◌}
use pipeline_operator.Value.{Value, is_nullish, undefined}
use pipeline_operator.Errors.{Response, Thrown, Result, ok, throw, error_object, required_error}
use pipeline_operator.Exec.{Exec, pure, raise, ◌>>=◌, ◌>>◌}
use pipeline_operator.Models.Codec.{Model, from_json, to_json}
use pipeline_operator.Models.Meta.{status}
use pipeline_operator.Runtime.Query.{HttpQuery, end, entry, scalar, text}
use pipeline_operator.Runtime.Types.{Headers, Body, plain, RequestOpts, InitOverrides, Platform}
use pipeline_operator.Runtime.Configuration
use pipeline_operator.Runtime.Headers.{set_header}
use pipeline_operator.Runtime.Api.{BaseApi, request}

-- The members of the request interfaces; a method reads those that its own interface has.
pub record Parameters : Type 0 where
  pub name : Option String
  pub body : Value
  pub dry_run : Option String
  pub field_validation : Option String

-- JSONApiResponse: the response, and how its JSON is read.
pub record ApiResponse : Type 0 where
  pub raw : Response
  pub model : Model

-- What is left of a text after a prefix.
abbrev pub strip_prefix : String → String → Option String
strip_prefix String.[] s = some s
strip_prefix (String.◌∷◌ a p) String.[] = none
strip_prefix (String.◌∷◌ a p) (String.◌∷◌ b s) = if code a == code b then strip_prefix p s else none

-- text.replace(pattern, replacement), for a pattern that is not empty and a replacement without `$`
abbrev pub replace : String → String → String → String
replace pattern replacement String.[] = String.[]
replace pattern replacement (String.◌∷◌ c s) = elim (strip_prefix pattern (String.◌∷◌ c s)) [
  | none ↦ String.◌∷◌ c (replace pattern replacement s)
  | some rest ↦ replacement <> rest
]

abbrev pub missing : String → String → Thrown
missing field function = required_error field (
    "Required parameter \"" <> field <> "\" was null or undefined when calling " <> function
    <> "().")

abbrev pub optional_entry : String → Option String → HttpQuery → HttpQuery
optional_entry key none query = query
optional_entry key (some value) query = entry key (scalar (text value)) query

abbrev pub json_content : Headers
json_content = ("Content-Type", some "application/json") ∷ []

module _ {W : Type 0} where
  abbrev pub lift : {A : Type 0} → Result A → Exec W A
  lift r w = (r, w)

  unfoldable pub require_name : String → Parameters → Exec W String
  require_name function p = elim p.name [
    | none ↦ raise (missing "name" function)
    | some name ↦ pure name
  ]

  unfoldable pub require_body : String → Parameters → Exec W Value
  require_body function p =
      if is_nullish p.body then raise (missing "body" function) else pure p.body

  module _ (host : Platform W) where
    -- JSONApiResponse.value
    unfoldable pub value : ApiResponse → Exec W Value
    value response = elim (host.json_parse response.raw.body) [
      | none ↦ raise (error_object "SyntaxError")
      | some json ↦ lift (from_json response.model json)
    ]

    -- if (this.configuration && this.configuration.apiKey) { … }
    unfoldable pub authorized : BaseApi W → Headers → Exec W Headers
    unfolding Configuration.api_key
    authorized api headers = elim (Configuration.api_key api.configuration) [
      | none ↦ pure headers
      | some key ↦ (do
        token ← key "authorization"
        pure (set_header "authorization" (some token) headers))
    ]

    -- The end that all methods share, from the header parameters on. The body is encoded while the
    -- request is put together, after the token was asked for.
    unfoldable pub send :
        BaseApi W
        → String
        → String
        → Headers
        → HttpQuery
        → Result Value
        → Model
        → InitOverrides W
        → Exec W ApiResponse
    unfolding authorized
    send api path method headers query encoded model overrides = do
      headers' ← authorized api headers
      body ← lift encoded
      response ←
          request host api
            (record {
              path = path;
              method = method;
              headers = headers';
              query = some query;
              body = plain body;
            })
            overrides
      pure (record { raw = response; model = model })

    module _ (api : BaseApi W) (overrides : InitOverrides W) where
      unfoldable pub create :
          (function path : String) (sent received : Model) → Parameters → Exec W ApiResponse
      unfolding require_body
      create function path sent received p = do
        body ← require_body function p
        send api path "POST" json_content
            (optional_entry "dryRun" p.dry_run
              (optional_entry "fieldValidation" p.field_validation end))
            (to_json sent body) received overrides

      unfoldable pub delete_collection : (path : String) → Model → Exec W ApiResponse
      delete_collection path received =
          send api path "DELETE" [] end (ok undefined) received overrides

      unfoldable pub delete : (function path : String) → Model → Parameters → Exec W ApiResponse
      unfolding require_name
      delete function path received p = do
        name ← require_name function p
        send api (replace "{name}" (host.encode_uri_component name) path) "DELETE" []
            (optional_entry "dryRun" p.dry_run end) (ok undefined) received overrides

      unfoldable pub list : (path : String) → Model → Exec W ApiResponse
      list path received = send api path "GET" [] end (ok undefined) received overrides

      unfoldable pub patch : (function path : String) → Model → Parameters → Exec W ApiResponse
      unfolding require_name
      patch function path received p = do
        name ← require_name function p
        send api (replace "{name}" (host.encode_uri_component name) path) "PATCH" []
            (optional_entry "dryRun" p.dry_run
              (optional_entry "fieldValidation" p.field_validation end))
            (ok undefined) received overrides

      unfoldable pub read : (function path : String) → Model → Parameters → Exec W ApiResponse
      unfolding require_name
      read function path received p = do
        name ← require_name function p
        send api (replace "{name}" (host.encode_uri_component name) path) "GET" [] end
            (ok undefined) received overrides

      unfoldable pub replace_with :
          (function path : String) (sent received : Model) → Parameters → Exec W ApiResponse
      unfolding require_name require_body
      replace_with function path sent received p = do
        name ← require_name function p
        body ← require_body function p
        send api (replace "{name}" (host.encode_uri_component name) path) "PUT" json_content
            (optional_entry "dryRun" p.dry_run
              (optional_entry "fieldValidation" p.field_validation end))
            (to_json sent body) received overrides
