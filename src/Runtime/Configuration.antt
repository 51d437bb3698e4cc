-- ===== src/Runtime/Configuration.antt =====
-- The class `Configuration` of generated/sdk/ts-fetch/runtime.ts: what its getters make of the
-- parameters.
use pipeline_operator.Prelude.{String, Option, none, some, List, [], is_blank, if◌then◌else◌}
use pipeline_operator.Errors.{Response}
use pipeline_operator.Exec.{Exec, pure}
use pipeline_operator.Runtime.Query.{HttpQuery, querystring}
use pipeline_operator.Runtime.Types.{
  RequestInit, Middleware, Secret, fixed, promised, computed, ConfigurationParameters, Platform,
}

abbrev pub default_base_path : String
default_base_path = "http://localhost"

module _ {W : Type 0} where
  unfoldable pub base_path : ConfigurationParameters W → String
  base_path c = elim c.base_path [ none ↦ default_base_path | some path ↦ path ]

  -- `this.configuration.middleware || []`
  unfoldable pub middleware : ConfigurationParameters W → List (Middleware W)
  middleware c = elim c.middleware [ none ↦ [] | some ms ↦ ms ]

  unfoldable pub query_params_stringify :
      Platform W → ConfigurationParameters W → HttpQuery → String
  query_params_stringify host c = elim c.query_params_stringify [
    | none ↦ λ query. querystring host.encode_uri_component query ""
    | some stringify ↦ stringify
  ]

  -- `configuration.fetchApi || fetch`
  unfoldable pub fetch_function :
      Platform W → ConfigurationParameters W → String → RequestInit → Exec W Response
  fetch_function host c = elim c.fetch_api [ none ↦ host.fetch | some f ↦ f ]

  module _ {Request : Type 0} where
    -- `if (secret) { typeof secret === 'function' ? secret : () => secret }`: the empty text is no
    -- secret.
    unfoldable pub secret_function : Option (Secret W Request) → Option (Request → Exec W String)
    secret_function none = none
    secret_function (some (fixed key)) = if is_blank key then none else some (λ _. pure key)
    secret_function (some (promised key)) = some (λ _. key)
    secret_function (some (computed f)) = some f

  unfoldable pub api_key : ConfigurationParameters W → Option (String → Exec W String)
  unfolding secret_function
  api_key c = secret_function c.api_key

  unfoldable pub access_token :
      ConfigurationParameters W → Option (Option String × List String → Exec W String)
  unfolding secret_function
  access_token c = secret_function c.access_token
