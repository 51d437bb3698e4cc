-- ===== src/Exec.antt =====
-- Asynchronous code of the fetch client, run to its end: from a world, a result or what was thrown,
-- and the world after it. What was done before a throw stays done. The world is a parameter: it is
-- whatever `fetch`, the middleware and the callbacks of the user read and change.
use pipeline_operator.Prelude.{◌≡◌, ◌≢◌, ◌⊎◌, inl, inr, refl}
use pipeline_operator.Errors.{Thrown, Result, ok, throw}

abbrev pub Exec : Type 0 → Type 0 → Type 0
Exec W A = W → Result A × W

module _ {W : Type 0} where
  abbrev pub pure : {A : Type 0} → A → Exec W A
  pure a w = (ok a, w)

  abbrev pub raise : {A : Type 0} → Thrown → Exec W A
  raise e w = (throw e, w)

  abbrev pub continue : {A B : Type 0} → Result A → (A → Exec W B) → Exec W B
  continue (ok a) f w = f a w
  continue (throw e) f w = (throw e, w)

  infixl 5 ◌>>=◌ ◌>>◌
  -- `await`, and the statements after it.
  abbrev pub ◌>>=◌ : {A B : Type 0} → Exec W A → (A → Exec W B) → Exec W B
  ◌>>=◌ m f w = continue (m w).0 f (m w).1

  abbrev pub ◌>>◌ : {A B : Type 0} → Exec W A → Exec W B → Exec W B
  m >> n = m >>= λ _. n

  abbrev pub handle : {A : Type 0} → Result A → (Thrown → Exec W A) → Exec W A
  handle (ok a) h w = (ok a, w)
  handle (throw e) h w = h e w

  -- try { … } catch (e) { … }
  abbrev pub try_catch : {A : Type 0} → Exec W A → (Thrown → Exec W A) → Exec W A
  try_catch m h w = handle (m w).0 h (m w).1

  pub continue_assoc :
      {A B C : Type 0} (r : Result A) (f : A → Exec W B) (g : B → Exec W C) (w : W)
      → (continue r f >>= g) w ≡ continue r (λ a. f a >>= g) w
  continue_assoc (ok a) f g w = refl
  continue_assoc (throw e) f g w = refl

  -- A success of the whole is a success of its first part.
  pub continue-eq-ok :
      {A B : Type 0} (r : Result A × W) (f : A → Exec W B) {b : B} {w : W}
      → continue r.0 f r.1 ≡ (ok b, w)
      → (a : A) × (v : W) × (r ≡ (ok a, v)) × (f a v ≡ (ok b, w))
  continue-eq-ok (ok a, v) f e = (a, v, refl, e)
  continue-eq-ok (throw x, v) f e = cc

  pub ok-injective :
      {A : Type 0} {a b : A} {v w : W}
      → ◌≡◌ {A = Result A × W} (ok a, v) (ok b, w)
      → (a ≡ b) × (v ≡ w)
  ok-injective e = (cc, cc)

  pub throw-ne-ok :
      {A : Type 0} {x : Thrown} {a : A} {v w : W} → ◌≢◌ {A = Result A × W} (throw x, v) (ok a, w)
  throw-ne-ok e = cc

  pub outcome_cases :
      {A : Type 0} (o : Result A × W)
      → ((a : A) × (v : W) × (o ≡ (ok a, v))) ⊎ ((e : Thrown) × (v : W) × (o ≡ (throw e, v)))
  outcome_cases (ok a, v) = inl (a, v, refl)
  outcome_cases (throw e, v) = inr (e, v, refl)
