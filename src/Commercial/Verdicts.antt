-- ===== src/Commercial/Verdicts.antt =====
-- What an assessment of readiness can say (`create_readiness` of
-- modules/commercial/application/services.py).
use biaice.Common.{
  ℕ, ◌≡◌, refl, Bool, true, false, not, ◌&&◌, ◌||◌, Option, none, some, if◌then◌else◌, arith,
}
use biaice.Core.Scope.{IdentityContext}
use biaice.Commercial.Model.{
  PrecheckDecision, pass, conditional, blocked, unknown, not_ready, undecided, formal_input_allowed,
}
use biaice.Commercial.Store.{Store, list_costs, list_policies}
use biaice.Commercial.Readiness.{
  EvidenceReadinessView, MarketReadinessView, cost_states, policy_states, cost_with, policy_with,
  items_of, overall, ReadinessReads, assessment, is_ready,
}

abbrev precheck_is_blocked : Option PrecheckDecision → Bool
precheck_is_blocked (some blocked) = true
precheck_is_blocked _ = false

abbrev market_lacks : Option MarketReadinessView → Bool
market_lacks none = false
market_lacks (some v) =
    not v.prior_current || (not v.data_use_authorized || not v.model_protocol_current)

-- Something is known to be wrong: the precheck is blocked, the response profile is not current, the only
-- costs are drafts, no policy is in force, or the market view denies one of its three items.
abbrev pub lacks : EvidenceReadinessView → Option MarketReadinessView → Bool → Bool → Bool → Bool
lacks evidence view has_cost has_draft has_policy =
    precheck_is_blocked evidence.precheck_decision
    || (not evidence.response_profile_current
        || ((not has_cost && has_draft) || (not has_policy || market_lacks view)))

overall-items_of :
    (evidence : EvidenceReadinessView) (view : Option MarketReadinessView) (c d p : Bool)
    → overall (items_of evidence view c d p)
      ≡ (if lacks evidence view c d p then not_ready else undecided)
unfolding overall items_of
overall-items_of evidence view c d p =
    by_views evidence.precheck_decision evidence.response_profile_current view
  where
    by_views :
        (o : Option PrecheckDecision) (r : Bool) (v : Option MarketReadinessView)
        → overall
            (items_of (record { precheck_decision = o; response_profile_current = r }) v c d p)
          ≡ (if lacks (record { precheck_decision = o; response_profile_current = r }) v c d p
              then not_ready
              else undecided)
    by_views none r none = ground arith
    by_views none r (some v) = ground arith
    by_views (some pass) r none = ground arith
    by_views (some pass) r (some v) = ground arith
    by_views (some conditional) r none = ground arith
    by_views (some conditional) r (some v) = ground arith
    by_views (some blocked) r none = ground arith
    by_views (some blocked) r (some v) = ground arith
    by_views (some unknown) r none = ground arith
    by_views (some unknown) r (some v) = ground arith

-- An assessment says NOT_READY if something is known to be wrong and UNKNOWN otherwise, never READY or
-- CONDITIONAL, and always carries the exploration watermark: the item of the scenario protocol is
-- UNKNOWN whatever the views say.
pub assessment-decision :
    (identity : IdentityContext) (unit : ℕ) (reads : ReadinessReads) (s : Store)
    → ((assessment identity unit reads s).decision ≡ (
        if lacks reads.evidence reads.market
          (cost_with
            (λ i. formal_input_allowed (cost_states i) reads.now)
            (list_costs identity.scope unit s))
          (cost_with (λ i. i.exploration_only) (list_costs identity.scope unit s))
          (policy_with
            (λ i. formal_input_allowed (policy_states i) reads.now)
            (list_policies identity.scope unit s))
        then not_ready
        else undecided))
      × ((assessment identity unit reads s).exploration_watermark ≡ true)
unfolding assessment
assessment-decision identity unit reads s =
    let e =
      overall-items_of reads.evidence reads.market
        (cost_with (λ i. formal_input_allowed (cost_states i) reads.now)
          (list_costs identity.scope unit s))
        (cost_with (λ i. i.exploration_only) (list_costs identity.scope unit s))
        (policy_with (λ i. formal_input_allowed (policy_states i) reads.now)
          (list_policies identity.scope unit s)) in
    (e, simp e (marked _))
  where
    marked : (b : Bool) → not (is_ready (if b then not_ready else undecided)) ≡ true
    marked true = refl
    marked false = refl
