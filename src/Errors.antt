-- ===== src/Errors.antt =====
-- What the clients throw, and results that may be thrown: the error classes of
-- generated/sdk/ts-fetch/runtime.ts beside what the platform and other code throw.
use pipeline_operator.Prelude.{ℕ, String, Bool, true, false, ◌≡◌, refl, Option}
use pipeline_operator.Value.{Value}

-- A response of `fetch`: its status, its `Content-Type` and its body as text.
pub record Response : Type 0 where
  pub status : ℕ
  pub content_type : Option String
  pub body : String

pub data Thrown : Type 0 where
  -- an `Error` of the platform or of other code, by its message
  error_object : String → Thrown
  -- any other value
  plain_value : Value → Thrown
  response_error : Response → (message : String) → Thrown
  fetch_error : Thrown → (message : String) → Thrown
  required_error : (field message : String) → Thrown

-- e instanceof Error
abbrev pub is_error : Thrown → Bool
is_error (plain_value v) = false
is_error _ = true

-- A value, or what was thrown in place of it.
pub data Result {ℓ} (A : Type ℓ) : Type ℓ where
  throw : Thrown → Result A
  ok : A → Result A

module _ {ℓ κ} {A : Type ℓ} {B : Type κ} where
  infixl 5 ◌>>=◌
  -- The statements after one that may throw.
  abbrev pub ◌>>=◌ : Result A → (A → Result B) → Result B
  (throw e) >>= f = throw e
  (ok a) >>= f = f a

  -- A success of the whole is a success of its first part.
  pub >>=-eq-ok :
      (first : Result A) (next : A → Result B) {out : B}
      → (first >>= next) ≡ ok out
      → (x : A) × (first ≡ ok x) × (next x ≡ ok out)
  >>=-eq-ok (throw e) next h = cc
  >>=-eq-ok (ok x) next h = (x, refl, h)
