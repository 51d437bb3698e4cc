-- ===== src/Operator/Status/Laws.antt =====
-- The state and the counts of a run against the states of its jobs.
use pipeline_operator.Prelude.{
  ℕ, ◌<◌, ◌≤◌, ◌≡◌, ◌↔◌, ◌⊎◌, inl, inr, refl, sym, ap, ◌∙◌, Bool-cases, List, [], ◌∷◌, All, Occurs,
  All-Occurs, ◌==◌, ltb, arith, if◌then◌else◌,
}
use mathlib.Core.Path.{subst}
use pipeline_operator.Operator.State.{
  JobState, initializing, waiting, stopping, running, deleting, completed, deleted, failed, unknown,
  other, state_order, determine_from_order,
}
use pipeline_operator.Operator.Status.{Counts, no_jobs, count, sum_up, run_state}

determine_from_order-upper :
    (a b : JobState)
    → (state_order a ≤ state_order (determine_from_order a b))
      × (state_order b ≤ state_order (determine_from_order a b))
unfolding determine_from_order
determine_from_order-upper a b = elim (Bool-cases (ltb (state_order b) (state_order a))) [
  | inl less ↦ rw less (ground arith)
  | inr not_less ↦ rw not_less (ground arith)
]

Upper : JobState → JobState → List JobState → Type 0
Upper r state ss = (state_order state ≤ state_order r) × All (λ s. state_order s ≤ state_order r) ss

sum_up-Upper :
    (state : JobState) (c : Counts) (ss : List JobState) → Upper (sum_up state c ss).0 state ss
unfolding Upper sum_up
sum_up-Upper state c [] = (omega arith, tt)
sum_up-Upper state c (s ∷ ss) =
    let (above, all) = sum_up-Upper (determine_from_order state s) (count c s) ss in
    let (left, right) = determine_from_order-upper state s in (omega arith, (omega arith, all))

-- No job of a run has a state that comes before the state of the run.
pub run_state_upper :
    (states : List JobState) → All (λ s. state_order s ≤ state_order (run_state states)) states
unfolding run_state Upper
run_state_upper states = (sum_up-Upper unknown no_jobs states).1

determine_from_order-cases :
    (a b : JobState) → (determine_from_order a b ≡ a) ⊎ (determine_from_order a b ≡ b)
unfolding determine_from_order
determine_from_order-cases a b = elim (Bool-cases (ltb (state_order b) (state_order a))) [
  | inl less ↦ inl (rw less)
  | inr not_less ↦ inr (rw not_less)
]

determine_from_order-unknown : (s : JobState) → determine_from_order unknown s ≡ s
unfolding determine_from_order
determine_from_order-unknown s = ground arith

sum_up-Occurs :
    (state : JobState) (c : Counts) (ss : List JobState) → Occurs (sum_up state c ss).0 (state ∷ ss)
unfolding sum_up
sum_up-Occurs state c [] = inl refl
sum_up-Occurs state c (s ∷ ss) =
    elim (sum_up-Occurs (determine_from_order state s) (count c s) ss) [
      | inl e ↦ elim (determine_from_order-cases state s) [
        | inl d ↦ inl (e ∙ d)
        | inr d ↦ inr (inl (e ∙ d))
      ]
      | inr o ↦ inr (inr o)
    ]

-- The state of a run with jobs is the state of one of them.
pub run_state-Occurs : (s : JobState) (ss : List JobState) → Occurs (run_state (s ∷ ss)) (s ∷ ss)
unfolding run_state
run_state-Occurs s ss = elim (sum_up-Occurs (determine_from_order unknown s) (count no_jobs s) ss) [
  | inl e ↦ inl (e ∙ determine_from_order-unknown s)
  | inr o ↦ inr o
]

highest : (s : JobState) → 8 ≤ state_order s → failed ≡ s
highest failed h = refl
highest running h = absurd (omega arith)
highest initializing h = absurd (omega arith)
highest waiting h = absurd (omega arith)
highest completed h = absurd (omega arith)
highest deleting h = absurd (omega arith)
highest stopping h = absurd (omega arith)
highest deleted h = absurd (omega arith)
highest unknown h = absurd (omega arith)
highest (other t) h = absurd (omega arith)

-- The state of a run is `failed` exactly when that of one of its jobs is.
pub run_state-eq-failed_iff :
    (states : List JobState) → (run_state states ≡ failed) ↔ Occurs failed states
unfolding run_state
run_state-eq-failed_iff [] = ((λ e. absurd (omega (arith, ap state_order e))), λ o. elim o [ ])
run_state-eq-failed_iff (s ∷ ss) = (
  (λ e. subst (λ r. Occurs r (s ∷ ss)) e (run_state-Occurs s ss)),
  (λ o. sym (
      highest (run_state (s ∷ ss)) (
        All-Occurs (λ t. state_order t ≤ state_order (run_state (s ∷ ss))) failed (s ∷ ss)
          (run_state_upper (s ∷ ss)) o))),
)

-- The states other than `unknown` and other texts are told apart by their order.
by_order : ℕ → JobState
by_order n =
    if n == 8
    then failed
    else if n == 7
    then running
    else if n == 6
    then initializing
    else if n == 5
    then waiting
    else if n == 4
    then completed
    else if n == 3
    then deleting
    else if n == 2
    then stopping
    else deleted

by_order-state_order : (s : JobState) → 0 < state_order s → by_order (state_order s) ≡ s
unfolding by_order
by_order-state_order failed h = refl
by_order-state_order running h = refl
by_order-state_order initializing h = refl
by_order-state_order waiting h = refl
by_order-state_order completed h = refl
by_order-state_order deleting h = refl
by_order-state_order stopping h = refl
by_order-state_order deleted h = refl
by_order-state_order unknown h = absurd (omega arith)
by_order-state_order (other t) h = absurd (omega arith)

-- Two lists in which the same states occur lead to the same state of the run, if it is one of the
-- eight known states: neither the order of the jobs nor their number matters.
pub run_state_order :
    (xs ys : List JobState)
    → ((s : JobState) → Occurs s xs ↔ Occurs s ys)
    → 0 < state_order (run_state xs)
    → run_state xs ≡ run_state ys
unfolding run_state
run_state_order [] ys same known = absurd (omega arith)
run_state_order (x ∷ xs) [] same known = elim ((same x).0 (inl refl)) [ ]
run_state_order (x ∷ xs) (y ∷ ys) same known =
    let r = run_state (x ∷ xs) in
    let q = run_state (y ∷ ys) in
    let below : state_order r ≤ state_order q =
      All-Occurs (λ t. state_order t ≤ state_order q) r (y ∷ ys) (run_state_upper (y ∷ ys))
        ((same r).0 (run_state-Occurs x xs)) in
    let above : state_order q ≤ state_order r =
      All-Occurs (λ t. state_order t ≤ state_order r) q (x ∷ xs) (run_state_upper (x ∷ xs))
        ((same q).1 (run_state-Occurs y ys)) in
    let equal : state_order r ≡ state_order q = omega arith in
    sym (by_order-state_order r known) ∙ ap by_order equal ∙ by_order-state_order q (omega arith)
