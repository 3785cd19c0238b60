-- ===== src/Lifecycle/Value.antt =====
-- The value of each member of the enum, as it is stored and sent.
use biaice.Common.{Text, codes}
use biaice.Lifecycle.State.{
  State, draft, documents_parsing, regime_and_scope_pending, portfolio_review_required,
  multi_round_unsupported, rules_pending_confirmation, evidence_matching, precheck_pending,
  precheck_blocked, precheck_unknown, precheck_passed, precheck_conditional, remediation,
  strategy_readiness_pending, not_ready, strategy_ready, strategy_ready_with_conditions, computing,
  simulation_failed, no_feasible_strategy, recommendation_review, eligibility_pending, ineligible,
  indeterminate, eligible, eligible_with_accepted_risk, eligible_with_conditions,
  approval_package_frozen, approval_pending, rejected, package_invalidated, approved_conditional,
  condition_closure, submission_authorized, decision_frozen, external_submission_pending,
  submission_declared, submission_mismatch, submission_failed, submission_verified, outcome_pending,
  outcome_unverified, outcome_conflicting, outcome_verified, awarded, lost, disqualified, no_bid,
  withdrawn, cancelled, procurement_failed, rework, closed, archived,
}

abbrev pub value : State → Text
value draft = codes "DRAFT"
value documents_parsing = codes "DOCUMENTS_PARSING"
value regime_and_scope_pending = codes "REGIME_AND_SCOPE_PENDING"
value portfolio_review_required = codes "PORTFOLIO_REVIEW_REQUIRED"
value multi_round_unsupported = codes "MULTI_ROUND_UNSUPPORTED"
value rules_pending_confirmation = codes "RULES_PENDING_CONFIRMATION"
value evidence_matching = codes "EVIDENCE_MATCHING"
value precheck_pending = codes "PRECHECK_PENDING"
value precheck_blocked = codes "PRECHECK_BLOCKED"
value precheck_unknown = codes "PRECHECK_UNKNOWN"
value precheck_passed = codes "PRECHECK_PASSED"
value precheck_conditional = codes "PRECHECK_CONDITIONAL"
value remediation = codes "REMEDIATION"
value strategy_readiness_pending = codes "STRATEGY_READINESS_PENDING"
value not_ready = codes "NOT_READY"
value strategy_ready = codes "STRATEGY_READY"
value strategy_ready_with_conditions = codes "STRATEGY_READY_WITH_CONDITIONS"
value computing = codes "COMPUTING"
value simulation_failed = codes "SIMULATION_FAILED"
value no_feasible_strategy = codes "NO_FEASIBLE_STRATEGY"
value recommendation_review = codes "RECOMMENDATION_REVIEW"
value eligibility_pending = codes "ELIGIBILITY_PENDING"
value ineligible = codes "INELIGIBLE"
value indeterminate = codes "INDETERMINATE"
value eligible = codes "ELIGIBLE"
value eligible_with_accepted_risk = codes "ELIGIBLE_WITH_ACCEPTED_RISK"
value eligible_with_conditions = codes "ELIGIBLE_WITH_CONDITIONS"
value approval_package_frozen = codes "APPROVAL_PACKAGE_FROZEN"
value approval_pending = codes "APPROVAL_PENDING"
value rejected = codes "REJECTED"
value package_invalidated = codes "PACKAGE_INVALIDATED"
value approved_conditional = codes "APPROVED_CONDITIONAL"
value condition_closure = codes "CONDITION_CLOSURE"
value submission_authorized = codes "SUBMISSION_AUTHORIZED"
value decision_frozen = codes "DECISION_FROZEN"
value external_submission_pending = codes "EXTERNAL_SUBMISSION_PENDING"
value submission_declared = codes "SUBMISSION_DECLARED"
value submission_mismatch = codes "SUBMISSION_MISMATCH"
value submission_failed = codes "SUBMISSION_FAILED"
value submission_verified = codes "SUBMISSION_VERIFIED"
value outcome_pending = codes "OUTCOME_PENDING"
value outcome_unverified = codes "OUTCOME_UNVERIFIED"
value outcome_conflicting = codes "OUTCOME_CONFLICTING"
value outcome_verified = codes "OUTCOME_VERIFIED"
value awarded = codes "AWARDED"
value lost = codes "LOST"
value disqualified = codes "DISQUALIFIED"
value no_bid = codes "NO_BID"
value withdrawn = codes "WITHDRAWN"
value cancelled = codes "CANCELLED"
value procurement_failed = codes "PROCUREMENT_FAILED"
value rework = codes "REWORK"
value closed = codes "CLOSED"
value archived = codes "ARCHIVED"
