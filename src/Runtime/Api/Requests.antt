-- ===== src/Runtime/Api/Requests.antt =====
-- When `request` gives a response back, and what it throws.
use pipeline_operator.Prelude.{
  ◌≡◌, ◌↔◌, ◌≤◌, ◌<◌, ◌∙◌, ◌⊎◌, inl, inr, true, false, Bool-cases, arith, if◌then◌else◌,
}
use mathlib.Core.Path.{ap₂}
use pipeline_operator.Errors.{Response, Thrown, ok, throw, response_error}
use pipeline_operator.Exec.{pure, raise, continue-eq-ok, ok-injective, throw-ne-ok}
use pipeline_operator.Runtime.Types.{FetchParams, RequestOpts, InitOverrides, Platform}
use pipeline_operator.Runtime.Api.{BaseApi, is_success, create_fetch_params, fetch_api, request}

is_success_iff : (r : Response) → (is_success r ≡ true) ↔ ((200 ≤ r.status) × (r.status < 300))
is_success_iff r = ground arith

judged :
    {W : Type 0} (s r : Response) (u w : W) (e : Thrown)
    → (if is_success s then pure s else raise e) u ≡ (ok r, w)
    → (is_success s ≡ true) × (s ≡ r) × (u ≡ w)
judged s r u w e h = elim (Bool-cases (is_success s)) [
  | inl passed ↦ let (same, world) = ok-injective (rw passed at h) in (passed, same, world)
  | inr failed ↦ absurd (throw-ne-ok (rw failed at h))
]

module _ {W : Type 0} (host : Platform W) (api : BaseApi W) (context : RequestOpts)
    (overrides : InitOverrides W) where
  -- A response is given back only with a status from 200 to 299, and it is the one that the fetch
  -- and its middleware ended with.
  pub request-IsSuccess :
      (r : Response) (w w' : W)
      → request host api context overrides w ≡ (ok r, w')
      → (200 ≤ r.status)
        × (r.status < 300)
        × ((params : FetchParams) × (v : W) × (create_fetch_params host api context overrides w
              ≡ (ok params, v))
            × (fetch_api host api params.url params.init v ≡ (ok r, w')))
  unfolding request
  request-IsSuccess r w w' e =
      let (params, v, made, e₁) =
        continue-eq-ok (create_fetch_params host api context overrides w) _ e in
      let (s, u, fetched, e₂) = continue-eq-ok (fetch_api host api params.url params.init v) _ e₁ in
      let (passed, same, world) =
        judged s r u w' (response_error s "Response returned an error code") e₂ in
      let (low, high) = (is_success_iff s).0 passed in
      (
        rw (← same) low,
        rw (← same) high,
        (params, v, made, fetched ∙ ap₂ (λ a b. (ok a, b)) same world),
      )

  -- A response with another status is thrown, as the `response` of a `ResponseError`.
  pub request_fails :
      (params : FetchParams) (r : Response) (w v w' : W)
      → create_fetch_params host api context overrides w ≡ (ok params, v)
      → fetch_api host api params.url params.init v ≡ (ok r, w')
      → (r.status < 200) ⊎ (300 ≤ r.status)
      → request host api context overrides w
        ≡ (throw (response_error r "Response returned an error code"), w')
  unfolding request
  request_fails params r w v w' made fetched outside =
      let refused : is_success r ≡ false = ground arith in rw (made, fetched, refused)
