-- ===== src/Lifecycle/State.antt =====
-- The states of a decision unit (projects/domain/lifecycle.py), their names as the enum gives them,
-- and equality and exhaustive checks over all of them.
use biaice.Common.{
  ℕ, suc, ◌≡◌, refl, ap, Bool, true, false, some, List, [], ◌∷◌, get_elem?, all, ◌==◌,
  if◌then◌else◌, ==→≡, &&_split, arith,
}

pub data State : Type 0 where
  draft documents_parsing regime_and_scope_pending portfolio_review_required : State
  multi_round_unsupported rules_pending_confirmation evidence_matching precheck_pending : State
  precheck_blocked precheck_unknown precheck_passed precheck_conditional remediation : State
  strategy_readiness_pending not_ready strategy_ready strategy_ready_with_conditions : State
  computing simulation_failed no_feasible_strategy recommendation_review : State
  eligibility_pending ineligible indeterminate eligible eligible_with_accepted_risk : State
  eligible_with_conditions approval_package_frozen approval_pending rejected : State
  package_invalidated approved_conditional condition_closure submission_authorized : State
  decision_frozen external_submission_pending submission_declared submission_mismatch : State
  submission_failed submission_verified outcome_pending outcome_unverified : State
  outcome_conflicting outcome_verified awarded lost disqualified no_bid withdrawn : State
  cancelled procurement_failed rework closed archived : State

-- The members in the order of the enum.
abbrev pub all_states : List State
all_states =
    draft ∷ documents_parsing ∷ regime_and_scope_pending ∷ portfolio_review_required
    ∷ multi_round_unsupported ∷ rules_pending_confirmation ∷ evidence_matching ∷ precheck_pending
    ∷ precheck_blocked ∷ precheck_unknown ∷ precheck_passed ∷ precheck_conditional ∷ remediation
    ∷ strategy_readiness_pending ∷ not_ready ∷ strategy_ready ∷ strategy_ready_with_conditions
    ∷ computing ∷ simulation_failed ∷ no_feasible_strategy ∷ recommendation_review
    ∷ eligibility_pending ∷ ineligible ∷ indeterminate ∷ eligible ∷ eligible_with_accepted_risk
    ∷ eligible_with_conditions ∷ approval_package_frozen ∷ approval_pending ∷ rejected
    ∷ package_invalidated ∷ approved_conditional ∷ condition_closure ∷ submission_authorized
    ∷ decision_frozen ∷ external_submission_pending ∷ submission_declared ∷ submission_mismatch
    ∷ submission_failed ∷ submission_verified ∷ outcome_pending ∷ outcome_unverified
    ∷ outcome_conflicting ∷ outcome_verified ∷ awarded ∷ lost ∷ disqualified ∷ no_bid ∷ withdrawn
    ∷ cancelled ∷ procurement_failed ∷ rework ∷ closed ∷ archived ∷ []

-- The position of a member in the enum.
abbrev pub index : State → ℕ
index draft = 0
index documents_parsing = 1
index regime_and_scope_pending = 2
index portfolio_review_required = 3
index multi_round_unsupported = 4
index rules_pending_confirmation = 5
index evidence_matching = 6
index precheck_pending = 7
index precheck_blocked = 8
index precheck_unknown = 9
index precheck_passed = 10
index precheck_conditional = 11
index remediation = 12
index strategy_readiness_pending = 13
index not_ready = 14
index strategy_ready = 15
index strategy_ready_with_conditions = 16
index computing = 17
index simulation_failed = 18
index no_feasible_strategy = 19
index recommendation_review = 20
index eligibility_pending = 21
index ineligible = 22
index indeterminate = 23
index eligible = 24
index eligible_with_accepted_risk = 25
index eligible_with_conditions = 26
index approval_package_frozen = 27
index approval_pending = 28
index rejected = 29
index package_invalidated = 30
index approved_conditional = 31
index condition_closure = 32
index submission_authorized = 33
index decision_frozen = 34
index external_submission_pending = 35
index submission_declared = 36
index submission_mismatch = 37
index submission_failed = 38
index submission_verified = 39
index outcome_pending = 40
index outcome_unverified = 41
index outcome_conflicting = 42
index outcome_verified = 43
index awarded = 44
index lost = 45
index disqualified = 46
index no_bid = 47
index withdrawn = 48
index cancelled = 49
index procurement_failed = 50
index rework = 51
index closed = 52
index archived = 53

-- `a is b`
unfoldable pub state_eq : State → State → Bool
state_eq a b = index a == index b

get_elem?-index : (s : State) → get_elem? all_states (index s) ≡ some s
get_elem?-index draft = refl
get_elem?-index _ = refl

pub state_eq→≡ : (a b : State) → state_eq a b ≡ true → a ≡ b
unfolding state_eq
state_eq→≡ a b h =
    cc
      (get_elem?-index a, get_elem?-index b, ap (get_elem? all_states) (==→≡ (index a) (index b) h))

pub state_eq_refl : (a : State) → state_eq a a ≡ true
unfolding state_eq
state_eq_refl a = ground arith

-- A state in a Python set of states.
unfoldable pub contains : List State → State → Bool
contains [] s = false
contains (x ∷ xs) s = if state_eq x s then true else contains xs s

-- A check that passes on the whole enum holds of every state.
unfoldable pub every : (State → Bool) → Bool
every p = all p all_states

all-get_elem? :
    (p : State → Bool) (xs : List State) (i : ℕ) {s : State}
    → all p xs ≡ true
    → get_elem? xs i ≡ some s
    → p s ≡ true
all-get_elem? p [] i h e = cc
all-get_elem? p (x ∷ xs) ℕ.zero h e = ground arith
all-get_elem? p (x ∷ xs) (suc i) h e = all-get_elem? p xs i (&&_split (p x) (all p xs) h).1 e

pub every_sound : (p : State → Bool) → every p ≡ true → (s : State) → p s ≡ true
unfolding every
every_sound p h s = all-get_elem? p all_states (index s) h (get_elem?-index s)
