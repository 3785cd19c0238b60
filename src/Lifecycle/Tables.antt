-- ===== src/Lifecycle/Tables.antt =====
-- The tables of lifecycle.py: terminal states, the spine, the branches, and the two small sets.
use biaice.Common.{List, [], ◌∷◌}
use biaice.Lifecycle.State.{
  State, draft, documents_parsing, regime_and_scope_pending, portfolio_review_required,
  multi_round_unsupported, rules_pending_confirmation, evidence_matching, precheck_pending,
  precheck_blocked, precheck_unknown, precheck_passed, precheck_conditional, remediation,
  strategy_readiness_pending, not_ready, strategy_ready, strategy_ready_with_conditions, computing,
  simulation_failed, no_feasible_strategy, recommendation_review, eligibility_pending, ineligible,
  indeterminate, eligible, eligible_with_accepted_risk, eligible_with_conditions,
  approval_package_frozen, approval_pending, rejected, package_invalidated, approved_conditional,
  condition_closure, submission_authorized, decision_frozen, external_submission_pending,
  submission_declared, submission_mismatch, submission_failed, submission_verified, outcome_pending,
  outcome_unverified, outcome_conflicting, outcome_verified, awarded, lost, disqualified, no_bid,
  withdrawn, cancelled, procurement_failed, rework, closed, archived,
}

abbrev pub terminal_states : List State
terminal_states =
    awarded ∷ lost ∷ disqualified ∷ no_bid ∷ withdrawn ∷ cancelled ∷ procurement_failed ∷ closed
    ∷ archived ∷ []

abbrev pub spine : List State
spine =
    draft ∷ documents_parsing ∷ regime_and_scope_pending ∷ rules_pending_confirmation
    ∷ evidence_matching ∷ precheck_pending ∷ precheck_passed ∷ strategy_readiness_pending
    ∷ strategy_ready ∷ computing ∷ recommendation_review ∷ eligibility_pending ∷ eligible
    ∷ approval_package_frozen ∷ approval_pending ∷ submission_authorized ∷ decision_frozen
    ∷ external_submission_pending ∷ submission_declared ∷ submission_verified ∷ outcome_pending
    ∷ outcome_verified ∷ []

-- `_BRANCHES.get(current, frozenset())`
abbrev pub branches : State → List State
branches draft = documents_parsing ∷ regime_and_scope_pending ∷ []
branches regime_and_scope_pending =
    portfolio_review_required ∷ multi_round_unsupported ∷ rules_pending_confirmation ∷ []
branches portfolio_review_required = regime_and_scope_pending ∷ []
branches multi_round_unsupported = regime_and_scope_pending ∷ []
branches precheck_pending =
    precheck_blocked ∷ precheck_unknown ∷ precheck_passed ∷ precheck_conditional ∷ []
branches precheck_blocked = remediation ∷ precheck_pending ∷ []
branches precheck_unknown = remediation ∷ precheck_pending ∷ []
branches precheck_conditional = strategy_readiness_pending ∷ []
branches remediation = precheck_pending ∷ rules_pending_confirmation ∷ []
branches strategy_readiness_pending =
    not_ready ∷ strategy_ready ∷ strategy_ready_with_conditions ∷ []
branches not_ready = strategy_readiness_pending ∷ []
branches strategy_ready_with_conditions = computing ∷ []
branches computing = simulation_failed ∷ no_feasible_strategy ∷ recommendation_review ∷ []
branches simulation_failed = computing ∷ rework ∷ []
branches no_feasible_strategy = rework ∷ computing ∷ []
branches eligibility_pending =
    ineligible ∷ indeterminate ∷ eligible ∷ eligible_with_accepted_risk ∷ eligible_with_conditions
    ∷ []
branches ineligible = rework ∷ []
branches indeterminate = eligibility_pending ∷ rework ∷ []
branches eligible_with_accepted_risk = approval_package_frozen ∷ []
branches eligible_with_conditions = approval_package_frozen ∷ []
branches approval_pending =
    rejected ∷ package_invalidated ∷ approved_conditional ∷ submission_authorized ∷ []
branches rejected = rework ∷ []
branches package_invalidated = rework ∷ approval_package_frozen ∷ []
branches approved_conditional = condition_closure ∷ submission_authorized ∷ []
branches condition_closure = submission_authorized ∷ rework ∷ []
branches external_submission_pending = submission_declared ∷ submission_failed ∷ []
branches submission_declared = submission_verified ∷ submission_mismatch ∷ submission_failed ∷ []
branches submission_mismatch = external_submission_pending ∷ rework ∷ []
branches submission_failed = external_submission_pending ∷ rework ∷ []
branches outcome_pending = outcome_unverified ∷ outcome_conflicting ∷ outcome_verified ∷ []
branches outcome_unverified = outcome_pending ∷ outcome_verified ∷ []
branches outcome_conflicting = outcome_pending ∷ []
branches outcome_verified = awarded ∷ lost ∷ disqualified ∷ []
branches rework =
    rules_pending_confirmation ∷ evidence_matching ∷ precheck_pending ∷ strategy_readiness_pending
    ∷ []
branches _ = []

abbrev pub early_exit : List State
early_exit = cancelled ∷ no_bid ∷ withdrawn ∷ procurement_failed ∷ []

abbrev pub reopen_from : List State
reopen_from =
    cancelled ∷ withdrawn ∷ no_bid ∷ procurement_failed ∷ closed ∷ multi_round_unsupported
    ∷ portfolio_review_required ∷ []

-- The states from which `allowed_targets` adds CLOSED.
abbrev pub closable : List State
closable =
    awarded ∷ lost ∷ disqualified ∷ no_bid ∷ withdrawn ∷ cancelled ∷ procurement_failed
    ∷ outcome_verified ∷ []
