-- ===== src/Axios/Requests/Laws.antt =====
-- What the parameter creator refuses, and what a successful creation holds.
use pipeline_operator.Prelude.{
  String, ◌≡◌, refl, sym, ap, ◌∙◌, inl, inr, Bool-cases, Option, none, some, List, [], ◌∷◌, ◌<>◌,
  if◌then◌else◌,
}
use pipeline_operator.Value.{Value, string, Fields, end, field, is_nullish, get}
use pipeline_operator.Errors.{Thrown, Result, ok, throw, required_error}
use pipeline_operator.Exec.{pure, continue-eq-ok, ok-injective}
use pipeline_operator.Client.{lift}
use pipeline_operator.Axios.Objects.{spread, members}
use pipeline_operator.Axios.Requests.{
  AxiosConfiguration, AxiosPlatform, RequestArgs, Operation, assert_param_exists, assert_params,
  set_api_key_to_object, base_options_of, request_headers, with_content_type, query_object,
  fill_path, path_string, with_data, create_args,
}

-- The first of the names whose argument is `null` or `undefined`.
abbrev pub first_missing : List String → Value → Option String
first_missing [] args = none
first_missing (name ∷ names) args =
    let rest = first_missing names args in if is_nullish (get args name) then some name else rest

abbrev pub missing_error : String → String → Thrown
missing_error function name =
    required_error name
      ("Required parameter " <> name <> " was null or undefined when calling " <> function <> ".")

-- The outcome of the checks.
abbrev pub checked : String → Option String → Result (Unit {0})
checked function none = ok tt
checked function (some name) = throw (missing_error function name)

checked-ok : (function : String) (m : Option String) → checked function m ≡ ok tt → m ≡ none
checked-ok function none e = refl
checked-ok function (some name) e = cc

pub assert_params-eq-checked :
    (function : String) (names : List String) (args : Value)
    → assert_params function names args ≡ checked function (first_missing names args)
unfolding assert_params assert_param_exists
assert_params-eq-checked function [] args = refl
assert_params-eq-checked function (name ∷ names) args =
    elim (Bool-cases (is_nullish (get args name))) [
      | inl gone ↦ rw (gone, assert_params, assert_param_exists)
      | inr there ↦
          rw (there, assert_params, assert_param_exists)
            (assert_params-eq-checked function names args)
    ]

module _ {W : Type 0} (host : AxiosPlatform) (configuration : Option (AxiosConfiguration W))
    (op : Operation) (args : Value) (options : Fields) (w : W) where
  -- If a required parameter is `null` or `undefined`, the first such parameter in the order of the
  -- checks is named in the error, no token is asked for, and nothing else is done.
  pub create_args-first_missing :
      (name : String)
      → first_missing op.required args ≡ some name
      → create_args host configuration op args options w
        ≡ (throw (missing_error op.function name), w)
  unfolding create_args
  create_args-first_missing name gone =
      rw (assert_params-eq-checked op.function op.required args, gone)

  unfoldable pub start_options : Fields
  start_options =
      spread
        (spread (field "method" (string op.method) end) (members (base_options_of configuration)))
        options

  -- What came of a successful creation: the header parameters with the token, and the options.
  pub create_args-inverted :
      (r : RequestArgs) (w' : W)
      → create_args host configuration op args options w ≡ (ok r, w')
      → (own : Fields) × (first_missing op.required args ≡ none)
        × (set_api_key_to_object end "authorization" configuration w ≡ (ok own, w'))
        × (with_data host configuration op.content_type
              (get args "body")
              (request_headers
                (with_content_type op.content_type own)
                (base_options_of configuration)
                options)
              start_options
            ≡ ok r.options)
        × (path_string host
              (fill_path host op.replaced args op.path)
              (query_object op.query args end)
            ≡ r.url)
  unfolding create_args start_options
  create_args-inverted r w' e =
      let (_, v, asserted, e₁) =
        continue-eq-ok (lift (assert_params op.function op.required args) w) _ e in
      let (own, u, asked, e₂) =
        continue-eq-ok (set_api_key_to_object end "authorization" configuration v) _ e₁ in
      let merged =
        request_headers (with_content_type op.content_type own) (base_options_of configuration)
          options in
      let (fs, x, finished, e₃) =
        continue-eq-ok
          (lift
            (with_data host configuration op.content_type (get args "body") merged start_options) u)
          (λ finished'. pure (record {
            url =
                path_string host (fill_path host op.replaced args op.path)
                  (query_object op.query args end);
            options = finished';
          }))
          e₂ in
      let (whole, world) = ok-injective e₃ in
      let passed : checked op.function (first_missing op.required args) ≡ ok tt =
        sym (assert_params-eq-checked op.function op.required args) ∙ ap (λ o. o.0) asserted in
      let same_world : v ≡ w = sym (ap (λ o. o.1) asserted) in
      let later : u ≡ w' = ap (λ o. o.1) finished ∙ world in
      (
        own,
        checked-ok op.function (first_missing op.required args) passed,
        rw (← same_world, ← later) asked,
        ap (λ o. o.0) finished ∙ ap (λ q. ok q.options) whole,
        ap (λ q. q.url) whole,
      )
