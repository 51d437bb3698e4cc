-- ===== src/Runtime/Api/Middlewares.antt =====
-- The order in which middleware runs, and when the error handlers do.
use pipeline_operator.Prelude.{
  String, ◌≡◌, refl, sym, ap, ◌∙◌, Option, none, List, [], ◌∷◌, ◌++◌, inl, inr, Bool-cases, All,
  if◌then◌else◌,
}
use mathlib.Core.Path.{fun_ext}
use pipeline_operator.Errors.{Response, Thrown, ok, throw, fetch_error, is_error}
use pipeline_operator.Exec.{pure, continue, continue_assoc, try_catch, ◌>>=◌}
use pipeline_operator.Runtime.Types.{RequestInit, FetchParams, Middleware, Platform}
use pipeline_operator.Runtime.Configuration
use pipeline_operator.Runtime.Api.{
  BaseApi, with_middleware, apply_pre, run_pre, apply_post, run_post, apply_on_error, run_on_error,
  recovered, recover, no_alternative, fetch_api,
}

module _ {W : Type 0} where
  -- The list of a client's middleware runs as its parts do, one after the other.
  pub run_pre-append :
      (ms ns : List (Middleware W)) (params : FetchParams)
      → run_pre (ms ++ ns) params ≡ (run_pre ms params >>= run_pre ns)
  unfolding run_pre
  run_pre-append [] ns params = refl
  run_pre-append (m ∷ ms) ns params = fun_ext λ w.
      ap (λ f. continue (apply_pre m params w).0 f (apply_pre m params w).1)
        (fun_ext λ next. run_pre-append ms ns next)
      ∙ sym (
          continue_assoc (apply_pre m params w).0 (run_pre ms) (run_pre ns)
            (apply_pre m params w).1)

  pub run_post-append :
      (params : FetchParams) (ms ns : List (Middleware W)) (r : Response)
      → run_post params (ms ++ ns) r ≡ (run_post params ms r >>= run_post params ns)
  unfolding run_post
  run_post-append params [] ns r = refl
  run_post-append params (m ∷ ms) ns r = fun_ext λ w.
      ap (λ f. continue (apply_post params m r w).0 f (apply_post params m r w).1)
        (fun_ext λ next. run_post-append params ms ns next)
      ∙ sym (
          continue_assoc (apply_post params m r w).0 (run_post params ms) (run_post params ns)
            (apply_post params m r w).1)

  -- Middleware that is added runs after what was there, before the request and after it; the error
  -- handlers are those of both.
  pub fetch_api-with_middleware :
      (host : Platform W) (api : BaseApi W) (more : List (Middleware W)) (url : String)
      (init : RequestInit)
      → fetch_api host (with_middleware api more) url init ≡ (do
        first ← run_pre api.middleware (record { url = url; init = init })
        params ← run_pre more first
        response ←
            try_catch
              (Configuration.fetch_function host api.configuration params.url params.init)
              (recover params (api.middleware ++ more))
        changed ← run_post params api.middleware response
        run_post params more changed)
  unfolding fetch_api with_middleware
  fetch_api-with_middleware host api more url init =
      let start : FetchParams = record { url = url; init = init } in
      let fetched = λ (params : FetchParams).
        try_catch (Configuration.fetch_function host api.configuration params.url params.init)
          (recover params (api.middleware ++ more)) in
      let rest = λ (params : FetchParams).
        fetched params >>= λ r. run_post params api.middleware r >>= run_post params more in
      ap (λ k. run_pre (api.middleware ++ more) start >>= k)
        (fun_ext λ params.
          ap (λ k. fetched params >>= k)
            (fun_ext λ r. run_post-append params api.middleware more r))
      ∙ ap (λ m. m >>= rest) (run_pre-append api.middleware more start)
      ∙ fun_ext λ w.
        continue_assoc (run_pre api.middleware start w).0 (run_pre more) rest
          (run_pre api.middleware start w).1

  -- Without error handlers a failed fetch changes nothing more, and has no response.
  run_on_error-none :
      (params : FetchParams) (e : Thrown) (ms : List (Middleware W)) (r : Option Response)
      → All (λ m. m.on_error ≡ none) ms
      → run_on_error params e ms r ≡ pure r
  unfolding run_on_error apply_on_error
  run_on_error-none params e [] r h = refl
  run_on_error-none params e (m ∷ ms) r h = rw h.0 (run_on_error-none params e ms r h.1)

  -- If the fetch fails and no middleware handles errors, an `Error` is thrown on as the cause of a
  -- `FetchError`, and any other value as it is; no post-middleware runs.
  pub fetch_api_fails :
      (host : Platform W) (api : BaseApi W) (url : String) (init : RequestInit) (w w₁ w₂ : W)
      (params : FetchParams) (e : Thrown)
      → run_pre api.middleware (record { url = url; init = init }) w ≡ (ok params, w₁)
      → Configuration.fetch_function host api.configuration params.url params.init w₁
        ≡ (throw e, w₂)
      → All (λ m. m.on_error ≡ none) api.middleware
      → fetch_api host api url init w
        ≡ (throw (if is_error e then fetch_error e no_alternative else e), w₂)
  unfolding fetch_api recover recovered
  fetch_api_fails host api url init w w₁ w₂ params e prepared failed bare =
      let quiet = run_on_error-none params e api.middleware none bare in
      rw (prepared, failed, quiet)
        (elim (Bool-cases (is_error e)) [ inl error ↦ rw error refl | inr other ↦ rw other refl ])
