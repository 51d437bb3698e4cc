-- ===== src/Operator/Status/Counting.antt =====
-- The eight counts of a run against the categories of the states of its jobs.
use pipeline_operator.Prelude.{
  ℕ, ◌+◌, ◌≤◌, ◌≡◌, ◌↔◌, ◌⊎◌, inl, inr, refl, ◌∙◌, Bool, true, false, List, [], ◌∷◌, length, All,
  arith, if◌then◌else◌,
}
use pipeline_operator.Operator.State.{
  JobState, initializing, waiting, stopping, running, deleting, completed, deleted, failed, unknown,
  other, determine_from_order, JobCategory, pre_run, in_run, post_run, no_category, category,
}
use pipeline_operator.Operator.Status.{Counts, no_jobs, count, sum_up, counts, is_finished}

abbrev same_category : JobCategory → JobCategory → Bool
same_category pre_run pre_run = true
same_category in_run in_run = true
same_category post_run post_run = true
same_category no_category no_category = true
same_category _ _ = false

-- How many states are in a category.
abbrev pub number_in : JobCategory → List JobState → ℕ
number_in k [] = 0
number_in k (s ∷ ss) = (if same_category k (category s) then 1 else 0) + number_in k ss

-- The counts `e` are the counts `c` with those of a list added.
abbrev IsSum : Counts → Counts → List JobState → Type 0
IsSum e c ss =
    (((e.init + e.wait) + e.stop) ≡ ((c.init + c.wait) + c.stop) + number_in pre_run ss)
    × ((e.run + e.deleting) ≡ (c.run + c.deleting) + number_in in_run ss)
    × (((e.complete + e.deleted) + e.failed)
        ≡ ((c.complete + c.deleted) + c.failed) + number_in post_run ss)

IsSum-cons :
    (e c : Counts) (s : JobState) (ss : List JobState) → IsSum e (count c s) ss → IsSum e c (s ∷ ss)
unfolding count
IsSum-cons e c initializing ss (p, q, r) = (omega arith, omega arith, omega arith)
IsSum-cons e c waiting ss (p, q, r) = (omega arith, omega arith, omega arith)
IsSum-cons e c stopping ss (p, q, r) = (omega arith, omega arith, omega arith)
IsSum-cons e c running ss (p, q, r) = (omega arith, omega arith, omega arith)
IsSum-cons e c deleting ss (p, q, r) = (omega arith, omega arith, omega arith)
IsSum-cons e c completed ss (p, q, r) = (omega arith, omega arith, omega arith)
IsSum-cons e c deleted ss (p, q, r) = (omega arith, omega arith, omega arith)
IsSum-cons e c failed ss (p, q, r) = (omega arith, omega arith, omega arith)
IsSum-cons e c unknown ss (p, q, r) = (omega arith, omega arith, omega arith)
IsSum-cons e c (other t) ss (p, q, r) = (omega arith, omega arith, omega arith)

sum_up-IsSum :
    (state : JobState) (c : Counts) (ss : List JobState) → IsSum (sum_up state c ss).1 c ss
unfolding sum_up
sum_up-IsSum state c [] = (omega arith, omega arith, omega arith)
sum_up-IsSum state c (s ∷ ss) =
    IsSum-cons (sum_up state c (s ∷ ss)).1 c s ss
      (sum_up-IsSum (determine_from_order state s) (count c s) ss)

two_zeros : (n : ℕ) → (0 + 0) + n ≡ n
two_zeros n = omega arith

three_zeros : (n : ℕ) → ((0 + 0) + 0) + n ≡ n
three_zeros n = omega arith

-- The counts of a run add up to the numbers of its jobs before, in and after their run, as
-- `JobCategoryMap` sorts the states.
pub counts-category :
    (states : List JobState)
    → ((((counts states).init + (counts states).wait) + (counts states).stop)
        ≡ number_in pre_run states)
      × (((counts states).run + (counts states).deleting) ≡ number_in in_run states)
      × ((((counts states).complete + (counts states).deleted) + (counts states).failed)
          ≡ number_in post_run states)
unfolding counts
counts-category states =
    let (before, during, after) = sum_up-IsSum unknown no_jobs states in
    (before ∙ three_zeros _, during ∙ two_zeros _, after ∙ three_zeros _)

number_in-le : (k : JobCategory) (ss : List JobState) → number_in k ss ≤ length ss
number_in-le k [] = omega arith
number_in-le k (s ∷ ss) = let rest = number_in-le k ss in ground arith

post_run-cases : (k : JobCategory) → (k ≡ post_run) ⊎ (same_category post_run k ≡ false)
post_run-cases pre_run = inr refl
post_run-cases in_run = inr refl
post_run-cases post_run = inl refl
post_run-cases no_category = inr refl

number_in-eq-length :
    (ss : List JobState) → (number_in post_run ss ≡ length ss) ↔ All (λ s. category s ≡ post_run) ss
number_in-eq-length [] = ((λ e. tt), (λ h. refl))
number_in-eq-length (s ∷ ss) =
    let (to, from) = number_in-eq-length ss in
    let bound = number_in-le post_run ss in
    elim (post_run-cases (category s)) [
      | inl done ↦ (
        (λ e. (done, to (let e' = rw done at e in omega arith))),
        (λ h. let rest = from h.1 in rw done (omega arith)),
      )
      | inr open_job ↦ (
        (λ e. absurd (let e' = rw open_job at e in omega arith)),
        (λ h. absurd (let clash : true ≡ false = rw h.0 at open_job in ground arith)),
      )
    ]

-- With one Kubernetes job for each job of the run, the end of the execution is noted exactly when
-- all of them are completed, deleted or failed.
pub is_finished_iff :
    (states : List JobState)
    → (is_finished (counts states) (length states) ≡ true) ↔ All (λ s. category s ≡ post_run) states
is_finished_iff states =
    let (before, during, after) = counts-category states in
    let (to, from) = number_in-eq-length states in
    ((λ h. to (ground arith)), (λ h. let e = from h in ground arith))
