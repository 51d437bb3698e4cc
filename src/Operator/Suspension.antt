-- ===== src/Operator/Suspension.antt =====
-- Whether `ensureKJobList`, internal/controller/run_controller.go, suspends a job: the loop over the
-- jobs that run before it.
use pipeline_operator.Prelude.{
  ◌≡◌, ◌↔◌, ◌⊎◌, inl, inr, refl, Bool, true, false, not, ◌||◌, Option, none, some, List, [], ◌∷◌,
  All, arith, if◌then◌else◌,
}
use pipeline_operator.Operator.State.{
  JobState, initializing, waiting, stopping, running, deleting, completed, deleted, failed, unknown,
  other, JobCategory, post_run, category,
}

abbrev is_failed : JobState → Bool
is_failed failed = true
is_failed _ = false

abbrev is_post_run : JobCategory → Bool
is_post_run post_run = true
is_post_run _ = false

-- The test of one round, for the state that is noted at the earlier job.
unfoldable pub holds_back : Bool → JobState → Bool
holds_back triggered s = (triggered || is_failed s) || not (is_post_run (category s))

-- For each job named in `runBefore`, the state of the first Kubernetes job with its label, or `none`
-- if there is none, which ends the loop with an error. `some` holds the new value of `suspend`.
unfoldable pub suspends : Bool → List (Option JobState) → Option Bool
unfolding holds_back
suspends triggered [] = some false
suspends triggered (none ∷ states) = none
suspends triggered (some s ∷ states) =
    let rest = suspends triggered states in if holds_back triggered s then some true else rest

-- An earlier job that is there and has come to its end without failing.
abbrev pub IsDone : Option JobState → Type 0
IsDone b = (b ≡ some completed) ⊎ (b ≡ some deleted)

holds_back-cases :
    (s : JobState)
    → ((holds_back false s ≡ false) × IsDone (some s))
      ⊎ ((holds_back false s ≡ true) × (IsDone (some s) → ⊥))
unfolding holds_back
holds_back-cases completed = inl (refl, inl refl)
holds_back-cases deleted = inl (refl, inr refl)
holds_back-cases initializing = inr (refl, λ d. ground arith)
holds_back-cases waiting = inr (refl, λ d. ground arith)
holds_back-cases stopping = inr (refl, λ d. ground arith)
holds_back-cases running = inr (refl, λ d. ground arith)
holds_back-cases deleting = inr (refl, λ d. ground arith)
holds_back-cases failed = inr (refl, λ d. ground arith)
holds_back-cases unknown = inr (refl, λ d. ground arith)
holds_back-cases (other t) = inr (refl, λ d. ground arith)

-- A job that is not triggered is released exactly when every job that it waits for is there, and
-- completed or deleted.
pub suspends-eq-false_iff :
    (states : List (Option JobState)) → (suspends false states ≡ some false) ↔ All IsDone states
unfolding suspends
suspends-eq-false_iff [] = ((λ e. tt), (λ h. refl))
suspends-eq-false_iff (none ∷ states) = ((λ e. ground arith), (λ h. ground arith))
suspends-eq-false_iff (some s ∷ states) =
    let (to, from) = suspends-eq-false_iff states in
    elim (holds_back-cases s) [
      | inl (free, done) ↦ ((λ e. (done, to (rw (free, suspends) at e))), (λ h. rw free (from h.1)))
      | inr (held, open_job) ↦ (
        (λ e.
            absurd (let clash : some true ≡ some false = rw (held, suspends) at e in ground arith)),
        (λ h. elim (open_job h.0) [ ]),
      )
    ]
