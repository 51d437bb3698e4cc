-- ===== src/Axios/Calls.antt =====
-- How the axios client sends a request: `createRequestFunction` of generated/sdk/ts-axios/common.ts,
-- `BaseAPI` of generated/sdk/ts-axios/base.ts, and the shared text of the functions of
-- `Pipeline1eedaegonGithubIoV1ApiFp`, of the factory and of the class
-- `Pipeline1eedaegonGithubIoV1Api` in generated/sdk/ts-axios/api.ts.
pub mod Laws
use pipeline_operator.Prelude.{
  ℕ, String, Bool, Option, none, some, List, [], ◌∷◌, ◌<>◌, is_blank, ◌==◌, ◌-◌, if◌then◌else◌,
}
use mathlib.Core.Option.{get_or}
use pipeline_operator.Value.{Value, string, Fields}
use pipeline_operator.Exec.{Exec, pure, ◌>>=◌}
use pipeline_operator.Runtime.Headers.{lookup}
use pipeline_operator.Axios.Objects.{set_field}
use pipeline_operator.Axios.Requests.{
  AxiosConfiguration, AxiosPlatform, RequestArgs, Operation, create_args,
}

-- What the client uses of an `AxiosInstance`.
pub record AxiosInstance (W : Type 0) : Type 0 where
  pub default_base_url : Option String
  pub request : Fields → Exec W Value

abbrev pub axios_base_path : String
axios_base_path = "http://localhost"

-- BaseAPI
pub record AxiosApi (W : Type 0) : Type 0 where
  pub configuration : Option (AxiosConfiguration W)
  pub base_path : String
  pub axios : AxiosInstance W

-- axios.defaults.baseURL ? '' : own
abbrev pub url_prefix : Option String → String → String
url_prefix none own = own
url_prefix (some url) own = if is_blank url then own else ""

module _ {W : Type 0} where
  -- configuration?.basePath ?? basePath
  abbrev pub base_path_of : Option (AxiosConfiguration W) → String → String
  base_path_of none base = base
  base_path_of (some configuration) base = get_or configuration.base_path base

  -- createRequestFunction
  unfoldable pub create_request_function :
      RequestArgs → Option (AxiosConfiguration W) → AxiosInstance W → String → Exec W Value
  unfolding set_field
  create_request_function args configuration axios base =
      let prefix = url_prefix axios.default_base_url (base_path_of configuration base) in
      axios.request (set_field "url" (string (prefix <> args.url)) args.options)

  -- new BaseAPI(configuration, basePath, axios)
  unfoldable pub new_axios_api :
      AxiosInstance W
      → Option (AxiosConfiguration W)
      → Option String
      → Option (AxiosInstance W)
      → AxiosApi W
  new_axios_api global configuration base axios = record {
    configuration = configuration;
    base_path = base_path_of configuration (get_or base axios_base_path);
    axios = get_or axios global;
  }

  module _ (host : AxiosPlatform) (global : AxiosInstance W) where
    -- A function of `Pipeline1eedaegonGithubIoV1ApiFp`: what it resolves to takes the instance and the
    -- base path, both optional. `operationServerMap` names no server, and so the base path is kept.
    unfoldable pub fp_request :
        Option (AxiosConfiguration W)
        → Operation
        → Value
        → Fields
        → Exec W (Option (AxiosInstance W) → Option String → Exec W Value)
    unfolding create_args create_request_function
    fp_request configuration op args options = do
      made ← create_args host configuration op args options
      pure (λ axios base.
          create_request_function made configuration (get_or axios global)
            (get_or base axios_base_path))

    -- A function of the factory.
    unfoldable pub factory_request :
        Option (AxiosConfiguration W)
        → Option String
        → Option (AxiosInstance W)
        → Operation
        → Value
        → Fields
        → Exec W Value
    unfolding fp_request
    factory_request configuration base axios op args options = do
      send ← fp_request configuration op args options
      send axios base

    -- A method of the class.
    unfoldable pub api_request : AxiosApi W → Operation → Value → Fields → Exec W Value
    unfolding fp_request
    api_request api op args options = do
      send ← fp_request api.configuration op args options
      send (some api.axios) (some api.base_path)
