-- ===== src/Runtime/Types.antt =====
-- The data of generated/sdk/ts-fetch/runtime.ts: headers, requests, middleware, configuration.
use pipeline_operator.Prelude.{String, Option, List}
use pipeline_operator.Value.{Value}
use pipeline_operator.Errors.{Response, Thrown}
use pipeline_operator.Exec.{Exec}
use pipeline_operator.Runtime.Query.{HttpQuery}

-- HTTPHeaders; a header may be set to `undefined`, which is `none`.
abbrev pub Headers : Type 0
Headers = List (String × Option String)

-- HTTPBody; a form, search parameters and a blob are opaque.
pub data Body : Type 0 where
  plain : Value → Body
  form_data url_search_params blob : String → Body

-- RequestInit; the members that the runtime does not name are `extra`.
pub record RequestInit : Type 0 where
  pub method : String
  pub headers : List (String × String)
  pub body : Body
  pub credentials : Option String
  pub extra : List (String × Value)

pub record FetchParams : Type 0 where
  pub url : String
  pub init : RequestInit

-- RequestOpts
pub record RequestOpts : Type 0 where
  pub path : String
  pub method : String
  pub headers : Headers
  pub query : Option HttpQuery
  pub body : Body

-- What `initOverrides` holds: the members that are present.
pub record InitOverride : Type 0 where
  pub method : Option String
  pub headers : Option (List (String × String))
  pub body : Option Body
  pub credentials : Option (Option String)
  pub extra : List (String × Value)

-- initOverrides?: RequestInit | InitOverrideFunction
pub data InitOverrides (W : Type 0) : Type 0 where
  absent : InitOverrides W
  fixed : InitOverride → InitOverrides W
  computed : (RequestInit → RequestOpts → Exec W InitOverride) → InitOverrides W

-- A middleware that calls `context.fetch` does so within its own action.
pub record Middleware (W : Type 0) : Type 0 where
  pub pre : Option (FetchParams → Exec W (Option FetchParams))
  pub post : Option (FetchParams → Response → Exec W (Option Response))
  pub on_error : Option (FetchParams → Thrown → Option Response → Exec W (Option Response))

-- A secret: a text, a promise of one, or a function that gives one.
pub data Secret (W Request : Type 0) : Type 0 where
  fixed : String → Secret W Request
  promised : Exec W String → Secret W Request
  computed : (Request → Exec W String) → Secret W Request

-- ConfigurationParameters
pub record ConfigurationParameters (W : Type 0) : Type 0 where
  pub base_path : Option String
  pub fetch_api : Option (String → RequestInit → Exec W Response)
  pub middleware : Option (List (Middleware W))
  pub query_params_stringify : Option (HttpQuery → String)
  pub username : Option String
  pub password : Option String
  pub api_key : Option (Secret W String)
  pub access_token : Option (Secret W (Option String × List String))
  pub headers : Option Headers
  pub credentials : Option String

-- The platform: `fetch`, `encodeURIComponent` (a text here has no lone surrogate, so it never
-- throws), `JSON.stringify` (of `undefined` it is `undefined`), `JSON.parse` in `Response.json`
-- (`none` is a `SyntaxError`), and `new Date`.
pub record Platform (W : Type 0) : Type 0 where
  pub fetch : String → RequestInit → Exec W Response
  pub encode_uri_component : String → String
  pub json_stringify : Value → Value
  pub json_parse : String → Option Value
  pub parse_date : Value → Option String
