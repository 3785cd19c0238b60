-- ===== src/Lifecycle/Gates.antt =====
-- The gates of the bid process, in the order in which a run of commands has to pass them. This is a
-- description of the transition tables that is independent of them: `edges_checked` compares the two.
use biaice.Common.{
  ℕ, zero, suc, ◌+◌, Bool, true, ◌&&◌, ◌||◌, ◌≡◌, refl, List, [], ◌∷◌, all, leb, ◌==◌, ◌-◌, arith,
}
use biaice.Lifecycle.State.{
  State, rework, state_eq, state_eq→≡, every, every_sound, contains, strategy_readiness_pending,
  not_ready, strategy_ready, strategy_ready_with_conditions, computing, simulation_failed,
  no_feasible_strategy, recommendation_review, eligibility_pending, ineligible, indeterminate,
  eligible, eligible_with_accepted_risk, eligible_with_conditions, approval_package_frozen,
  approval_pending, rejected, package_invalidated, approved_conditional, condition_closure,
  submission_authorized, decision_frozen, external_submission_pending, submission_declared,
  submission_mismatch, submission_failed, submission_verified, outcome_pending, outcome_unverified,
  outcome_conflicting, outcome_verified, awarded, lost, disqualified,
}
use biaice.Lifecycle.Transition.{allowed_targets}

-- The gates, the first one first.
abbrev pub gates : List State
gates =
    strategy_readiness_pending ∷ computing ∷ recommendation_review ∷ eligibility_pending
    ∷ approval_package_frozen ∷ approval_pending ∷ submission_authorized ∷ decision_frozen
    ∷ external_submission_pending ∷ submission_declared ∷ submission_verified ∷ outcome_pending
    ∷ outcome_verified ∷ []

-- How many gates a unit in the given state has passed.
abbrev pub stage : State → ℕ
stage strategy_readiness_pending = 1
stage not_ready = 1
stage strategy_ready = 1
stage strategy_ready_with_conditions = 1
stage computing = 2
stage simulation_failed = 2
stage no_feasible_strategy = 2
stage recommendation_review = 3
stage eligibility_pending = 4
stage ineligible = 4
stage indeterminate = 4
stage eligible = 4
stage eligible_with_accepted_risk = 4
stage eligible_with_conditions = 4
stage approval_package_frozen = 5
stage approval_pending = 6
stage rejected = 6
stage package_invalidated = 6
stage approved_conditional = 6
stage condition_closure = 6
stage submission_authorized = 7
stage decision_frozen = 8
stage external_submission_pending = 9
stage submission_declared = 10
stage submission_mismatch = 10
stage submission_failed = 9
stage submission_verified = 11
stage outcome_pending = 12
stage outcome_unverified = 12
stage outcome_conflicting = 12
stage outcome_verified = 13
stage awarded = 13
stage lost = 13
stage disqualified = 13
stage _ = 0

gate_or : List State → ℕ → State
gate_or [] n = rework
gate_or (g ∷ gs) zero = g
gate_or (g ∷ gs) (suc n) = gate_or gs n

-- The gate with the given number, from 1.
pub gate : ℕ → State
unfolding gate_or
gate n = gate_or gates (n - 1)

-- The gates up to the given number, the last one first.
abbrev pub gates_passed : ℕ → List State
gates_passed zero = []
gates_passed (suc n) = gate (suc n) ∷ gates_passed n

-- A step from `s` to `t` passes no gate, or just the next one.
unfoldable pub passes_at_most_next : State → State → Bool
unfolding gate state_eq
passes_at_most_next s t =
    leb (stage t) (stage s) || (stage t == stage s + 1 && state_eq t (gate (stage t)))

edges_checked : every (λ s. all (passes_at_most_next s) (allowed_targets s)) ≡ true
unfolding every passes_at_most_next allowed_targets
edges_checked = refl

all-contains :
    (p : State → Bool) (ts : List State) (t : State)
    → all p ts ≡ true
    → contains ts t ≡ true
    → p t ≡ true
unfolding contains
all-contains p [] t h c = cc
all-contains p (x ∷ ts) t h c = ground (arith, state_eq→≡ x t, all-contains p ts t)

pub allowed_targets-stage :
    (s t : State) → contains (allowed_targets s) t ≡ true → passes_at_most_next s t ≡ true
allowed_targets-stage s t c =
    all-contains (passes_at_most_next s) (allowed_targets s) t (every_sound _ edges_checked s) c

all-gate_or :
    (p : State → Bool) (gs : List State) (n : ℕ)
    → p rework ≡ true
    → all p gs ≡ true
    → p (gate_or gs n) ≡ true
unfolding gate_or
all-gate_or p [] n r a = r
all-gate_or p (g ∷ gs) zero r a = ground arith
all-gate_or p (g ∷ gs) (suc n) r a = all-gate_or p gs n r (ground arith)

pub all-gate :
    (p : State → Bool) → p rework ≡ true → all p gates ≡ true → (n : ℕ) → p (gate n) ≡ true
unfolding gate
all-gate p r a n = all-gate_or p gates (n - 1) r a
