-- ===== src/Commercial/Readiness.antt =====
-- The assessment of a strategy's readiness (`create_readiness` of
-- modules/commercial/application/services.py). The views of the evidence and the market module are
-- arguments: what `current_view` of their ports returns.
use biaice.Common.{
  ℕ, Bool, true, false, not, ◌&&◌, Option, none, some, List, [], ◌∷◌, any, if◌then◌else◌,
}
use biaice.Common.Dict.{Dict}
use biaice.Core.Errors.{Result, ok, ◌>>◌}
use biaice.Core.Scope.{IdentityContext}
use biaice.Commercial.Model.{
  current, PrecheckDecision, pass, conditional, blocked, unknown, ReadinessDecision, ready,
  conditionally_ready, not_ready, undecided, CostBaseline, CommercialPolicy, ItemCode, rules,
  precheck, response, cost, policy, market, data_use, model, scenario_protocol, ReasonCode,
  precheck_missing, precheck_pass, precheck_conditional, precheck_blocked, precheck_unknown,
  response_current, response_missing, cost_published, cost_exploration_only, cost_missing,
  policy_published, policy_missing, market_port_unavailable, pressure_only, market_prior_current,
  data_use_ok, data_use_blocked, model_protocol_current, model_protocol_missing,
  scenario_port_member_6, ReadinessItem, StrategyReadinessAssessment, OrthogonalState,
  formal_input_allowed,
}
use biaice.Commercial.Store.{
  Store, upsert_readiness, list_costs, list_policies, emit_event, write_audit, commit,
  readiness_assessed,
}
use biaice.Commercial.Costs.{first_project, assert_unit}

-- EvidenceReadinessView, as far as the assessment reads it.
pub record EvidenceReadinessView : Type 0 where
  pub precheck_decision : Option PrecheckDecision
  pub response_profile_current : Bool

pub record MarketReadinessView : Type 0 where
  pub prior_current : Bool
  pub pressure_only : Bool
  pub model_protocol_current : Bool
  pub data_use_authorized : Bool

abbrev pub cost_states : CostBaseline → OrthogonalState
cost_states i = record {
  lifecycle_state = i.lifecycle_state;
  review_state = i.review_state;
  validity_state = i.validity_state;
  retention_state = i.retention_state;
  effective_from = i.effective_from;
  effective_to = i.effective_to;
  superseded_by_id = i.superseded_by_id;
}

abbrev pub policy_states : CommercialPolicy → OrthogonalState
policy_states i = record {
  lifecycle_state = i.lifecycle_state;
  review_state = i.review_state;
  validity_state = i.validity_state;
  retention_state = i.retention_state;
  effective_from = i.effective_from;
  effective_to = i.effective_to;
  superseded_by_id = i.superseded_by_id;
}

-- Whether there is one that satisfies the test: which of them it is does not matter to the assessment.
abbrev pub cost_with : (CostBaseline → Bool) → Dict CostBaseline → Bool
cost_with p costs = any (λ (e : ℕ × CostBaseline). p e.1) costs

abbrev pub policy_with : (CommercialPolicy → Bool) → Dict CommercialPolicy → Bool
policy_with p policies = any (λ (e : ℕ × CommercialPolicy). p e.1) policies

abbrev item : ItemCode → ReadinessDecision → ReasonCode → ReadinessItem
item code decision reason = record {
  code = code;
  decision = decision;
  reason_code = reason;
  commercial_not_procurement = false;
}

abbrev commercial_item : ItemCode → ReadinessDecision → ReasonCode → ReadinessItem
commercial_item code decision reason = record {
  code = code;
  decision = decision;
  reason_code = reason;
  commercial_not_procurement = true;
}

abbrev ready_if : Bool → ReadinessDecision
ready_if true = ready
ready_if false = not_ready

abbrev precheck_verdict : Option PrecheckDecision → ReadinessDecision × ReasonCode
precheck_verdict none = (undecided, precheck_missing)
precheck_verdict (some pass) = (ready, precheck_pass)
precheck_verdict (some conditional) = (conditionally_ready, precheck_conditional)
precheck_verdict (some blocked) = (not_ready, precheck_blocked)
precheck_verdict (some unknown) = (undecided, precheck_unknown)

abbrev cost_item : Bool → Bool → ReadinessItem
cost_item true draft = commercial_item cost ready cost_published
cost_item false true = commercial_item cost not_ready cost_exploration_only
cost_item false false = commercial_item cost undecided cost_missing

abbrev market_items : Option MarketReadinessView → List ReadinessItem → List ReadinessItem
market_items none rest =
    item market undecided market_port_unavailable
    ∷ item data_use undecided market_port_unavailable
    ∷ item model undecided market_port_unavailable
    ∷ rest
market_items (some v) rest =
    item market (ready_if v.prior_current)
      (if v.pressure_only then pressure_only else market_prior_current)
    ∷ item data_use (ready_if v.data_use_authorized)
        (if v.data_use_authorized then data_use_ok else data_use_blocked)
    ∷ item model (ready_if v.model_protocol_current)
        (if v.model_protocol_current then model_protocol_current else model_protocol_missing)
    ∷ rest

-- The nine items, of the views, and of whether there is a current cost, a draft cost, and a current
-- policy.
unfoldable pub items_of :
    EvidenceReadinessView → Option MarketReadinessView → Bool → Bool → Bool → List ReadinessItem
items_of evidence view has_cost has_draft has_policy =
    let verdict : ReadinessDecision × ReasonCode = precheck_verdict evidence.precheck_decision in
    item rules verdict.0 verdict.1
    ∷ item precheck verdict.0 verdict.1
    ∷ item response (ready_if evidence.response_profile_current)
        (if evidence.response_profile_current then response_current else response_missing)
    ∷ cost_item has_cost has_draft
    ∷ commercial_item policy (ready_if has_policy)
        (if has_policy then policy_published else policy_missing)
    ∷ market_items view (item scenario_protocol undecided scenario_port_member_6 ∷ [])

abbrev is_undecided : ReadinessDecision → Bool
is_undecided undecided = true
is_undecided _ = false

abbrev pub is_not_ready : ReadinessDecision → Bool
is_not_ready not_ready = true
is_not_ready _ = false

abbrev is_conditional : ReadinessDecision → Bool
is_conditional conditionally_ready = true
is_conditional _ = false

abbrev has : (ReadinessDecision → Bool) → List ReadinessItem → Bool
has p items = any (λ (i : ReadinessItem). p i.decision) items

unfoldable pub overall : List ReadinessItem → ReadinessDecision
overall items =
    if has is_undecided items && not (has is_not_ready items)
    then undecided
    else if has is_not_ready items
    then not_ready
    else if has is_conditional items
    then conditionally_ready
    else ready

abbrev pub is_ready : ReadinessDecision → Bool
is_ready ready = true
is_ready _ = false

-- What the call draws, with the views at its time.
pub record ReadinessReads : Type 0 where
  pub now : ℕ
  pub evidence : EvidenceReadinessView
  pub market : Option MarketReadinessView
  pub new_id : ℕ
  pub new_version_id : ℕ

unfoldable pub assessment :
    IdentityContext → ℕ → ReadinessReads → Store → StrategyReadinessAssessment
assessment identity unit reads s =
    let costs : Dict CostBaseline = list_costs identity.scope unit s in
    let policies : Dict CommercialPolicy = list_policies identity.scope unit s in
    let items : List ReadinessItem =
      items_of reads.evidence reads.market
        (cost_with (λ i. formal_input_allowed (cost_states i) reads.now) costs)
        (cost_with (λ i. i.exploration_only) costs)
        (policy_with (λ i. formal_input_allowed (policy_states i) reads.now) policies) in
    record {
      readiness_id = reads.new_id;
      version_id = reads.new_version_id;
      tenant_id = identity.scope.tenant_id;
      data_domain_id = identity.scope.data_domain_id;
      project_id = first_project identity;
      decision_unit_id = unit;
      decision = overall items;
      validity_state = current;
      items = items;
      created_at = reads.now;
      created_by = identity.subject_id;
      exploration_watermark = not (is_ready (overall items));
    }

unfoldable pub check_readiness :
    IdentityContext → ℕ → ReadinessReads → Store → Result StrategyReadinessAssessment
check_readiness identity unit reads s =
    assert_unit identity unit >> ok (assessment identity unit reads s)

abbrev pub readiness_reported : IdentityContext → StrategyReadinessAssessment → Store → Store
readiness_reported identity a s =
    emit_event readiness_assessed identity.subject_id a.readiness_id
      (write_audit readiness_assessed identity.subject_id a.readiness_id s)

unfoldable pub create_readiness :
    IdentityContext → ℕ → ReadinessReads → Store → Result StrategyReadinessAssessment × Store
create_readiness identity unit reads s =
    commit upsert_readiness (readiness_reported identity) s (check_readiness identity unit reads s)
