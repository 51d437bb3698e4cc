-- ===== src/Runtime/Headers.antt =====
-- The header objects of `createFetchParams`, generated/sdk/ts-fetch/runtime.ts.
pub mod Laws
use pipeline_operator.Prelude.{String, Option, none, some, List, [], ◌∷◌, str_eq, if◌then◌else◌}
use pipeline_operator.Runtime.Types.{Headers}

-- headers[key] = value
unfoldable pub set_header : String → Option String → Headers → Headers
set_header key value [] = (key, value) ∷ []
set_header key value ((k, v) ∷ headers) =
    if str_eq k key then (k, value) ∷ headers else (k, v) ∷ set_header key value headers

-- Object.assign(target, source)
unfoldable pub assign : Headers → Headers → Headers
unfolding set_header
assign target [] = target
assign target ((key, value) ∷ source) = assign (set_header key value target) source

-- headers[key] === undefined ? delete headers[key] : {}
unfoldable pub delete_undefined : Headers → List (String × String)
delete_undefined [] = []
delete_undefined ((key, none) ∷ headers) = delete_undefined headers
delete_undefined ((key, some value) ∷ headers) = (key, value) ∷ delete_undefined headers

unfoldable pub lookup {ℓ} : {A : Type ℓ} → String → List (String × A) → Option A
lookup key [] = none
lookup key ((k, v) ∷ headers) = if str_eq k key then some v else lookup key headers
