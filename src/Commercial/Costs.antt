-- ===== src/Commercial/Costs.antt =====
-- The calls on cost baselines and policies (CommercialService of
-- modules/commercial/application/services.py).
use biaice.Common.{
  ℕ, Bool, true, false, not, ◌&&◌, Option, none, some, List, [], ◌∷◌, Text, ◌==◌, is_some,
  if◌then◌else◌,
}
use biaice.Core.Errors.{validation_error, Result, ok, err, ◌>>=◌, ◌>>◌, raise_if, or_raise}
use biaice.Core.Errors.Code.{
  resource_not_found, maker_checker_required, cost_already_approved, cost_not_approved,
  published_version_immutable,
}
use biaice.Core.Scope.{IdentityContext, assert_allows}
use biaice.Commercial.Model.{
  LifecycleState, draft, published, ReviewState, pending, approved, current, retain, Money, TaxMode,
  CostBaseline, PolicyTerms, CommercialPolicy, cost_valid, terms_valid,
}
use biaice.Commercial.Store.{
  Store, upsert_cost, upsert_policy, get_cost, get_policy, emit_event, write_audit, commit,
  cost_created, cost_approved, cost_released, policy_created, policy_released,
}

-- `next(iter(identity.scope.project_ids), None)`: a set of identifiers in the order of its list.
abbrev pub first_project : IdentityContext → Option ℕ
first_project identity = head identity.scope.project_ids
  where
    head : List ℕ → Option ℕ
    head [] = none
    head (p ∷ _) = some p

unfoldable pub assert_unit : IdentityContext → ℕ → Result (Unit {0})
assert_unit identity unit =
    assert_allows identity.scope identity.scope.tenant_id identity.scope.data_domain_id none
      (some unit)

-- The arguments of `create_cost_baseline`, with what the call draws.
pub record CostRequest : Type 0 where
  pub decision_unit_id : ℕ
  pub currency : Text
  pub tax_mode : TaxMode
  pub input_vat : Money
  pub cycle : Text
  pub delivery_cost : Money
  pub post_award_cost : Money
  pub bid_preparation_cost : Money
  pub cashflow_in : Money
  pub cashflow_out : Money
  pub now : ℕ
  pub new_id : ℕ
  pub new_version_id : ℕ

unfoldable pub new_cost : IdentityContext → CostRequest → CostBaseline
new_cost identity q = record {
  cost_baseline_id = q.new_id;
  version_id = q.new_version_id;
  tenant_id = identity.scope.tenant_id;
  data_domain_id = identity.scope.data_domain_id;
  project_id = first_project identity;
  decision_unit_id = q.decision_unit_id;
  currency = q.currency;
  tax_mode = q.tax_mode;
  input_vat = q.input_vat;
  cycle = q.cycle;
  delivery_cost = q.delivery_cost;
  post_award_cost = q.post_award_cost;
  bid_preparation_cost = q.bid_preparation_cost;
  cashflow_in = q.cashflow_in;
  cashflow_out = q.cashflow_out;
  lifecycle_state = draft;
  review_state = pending;
  validity_state = current;
  retention_state = retain;
  effective_from = none;
  effective_to = none;
  superseded_by_id = none;
  created_at = q.now;
  created_by = identity.subject_id;
  approved_at = none;
  approved_by = none;
  published_at = none;
  published_by = none;
  exploration_only = true;
}

unfoldable pub check_cost : IdentityContext → CostRequest → Result CostBaseline
check_cost identity q = do
  assert_unit identity q.decision_unit_id
  let item = new_cost identity q
  if cost_valid item then ok item else err validation_error

abbrev pub cost_reported : IdentityContext → CostBaseline → Store → Store
cost_reported identity i s = write_audit cost_created identity.subject_id i.cost_baseline_id s

unfoldable pub create_cost_baseline :
    IdentityContext → CostRequest → Store → Result CostBaseline × Store
create_cost_baseline identity q s =
    commit upsert_cost (cost_reported identity) s (check_cost identity q)

unfoldable pub get_cost_baseline : IdentityContext → ℕ → Store → Result CostBaseline
get_cost_baseline identity id s = or_raise (get_cost identity.scope id s) resource_not_found

unfoldable pub check_approval : IdentityContext → ℕ → ℕ → Store → Result CostBaseline
check_approval identity id now s = do
  i ← get_cost_baseline identity id s
  raise_if (identity.subject_id == i.created_by) maker_checker_required
  raise_if (is_some i.approved_by) cost_already_approved
  ok (record i {
    review_state = approved;
    approved_at = some now;
    approved_by = some identity.subject_id;
  })

abbrev pub approval_reported : IdentityContext → CostBaseline → Store → Store
approval_reported identity i s = write_audit cost_approved identity.subject_id i.cost_baseline_id s

unfoldable pub approve_cost_baseline : IdentityContext → ℕ → ℕ → Store → Result CostBaseline × Store
approve_cost_baseline identity id now s =
    commit upsert_cost (approval_reported identity) s (check_approval identity id now s)

abbrev pub is_approved : ReviewState → Bool
is_approved approved = true
is_approved _ = false

abbrev pub is_draft : LifecycleState → Bool
is_draft draft = true
is_draft _ = false

unfoldable pub check_publication : IdentityContext → ℕ → ℕ → Store → Result CostBaseline
check_publication identity id now s = do
  i ← get_cost_baseline identity id s
  raise_if (not (is_approved i.review_state && is_some i.approved_by)) cost_not_approved
  raise_if (not (is_draft i.lifecycle_state)) published_version_immutable
  ok (record i {
    lifecycle_state = published;
    validity_state = current;
    effective_from = some now;
    published_at = some now;
    published_by = some identity.subject_id;
    exploration_only = false;
  })

abbrev pub publication_reported : IdentityContext → CostBaseline → Store → Store
publication_reported identity i s =
    emit_event cost_released identity.subject_id i.cost_baseline_id
      (write_audit cost_released identity.subject_id i.cost_baseline_id s)

unfoldable pub publish_cost_baseline : IdentityContext → ℕ → ℕ → Store → Result CostBaseline × Store
publish_cost_baseline identity id now s =
    commit upsert_cost (publication_reported identity) s (check_publication identity id now s)

-- The arguments of `create_policy`, with what the call draws.
pub record PolicyRequest : Type 0 where
  pub decision_unit_id : ℕ
  pub terms : PolicyTerms
  pub now : ℕ
  pub new_id : ℕ
  pub new_version_id : ℕ

abbrev new_policy : IdentityContext → PolicyRequest → CommercialPolicy
new_policy identity q = record {
  policy_id = q.new_id;
  version_id = q.new_version_id;
  tenant_id = identity.scope.tenant_id;
  data_domain_id = identity.scope.data_domain_id;
  project_id = first_project identity;
  decision_unit_id = q.decision_unit_id;
  terms = q.terms;
  lifecycle_state = draft;
  review_state = pending;
  validity_state = current;
  retention_state = retain;
  effective_from = none;
  effective_to = none;
  superseded_by_id = none;
  created_at = q.now;
  created_by = identity.subject_id;
  published_at = none;
  published_by = none;
}

unfoldable pub check_policy : IdentityContext → PolicyRequest → Result CommercialPolicy
check_policy identity q = do
  assert_unit identity q.decision_unit_id
  if terms_valid q.terms then ok (new_policy identity q) else err validation_error

abbrev pub policy_reported : IdentityContext → CommercialPolicy → Store → Store
policy_reported identity i s = write_audit policy_created identity.subject_id i.policy_id s

unfoldable pub create_policy :
    IdentityContext → PolicyRequest → Store → Result CommercialPolicy × Store
create_policy identity q s =
    commit upsert_policy (policy_reported identity) s (check_policy identity q)

unfoldable pub find_policy : IdentityContext → ℕ → Store → Result CommercialPolicy
find_policy identity id s = or_raise (get_policy identity.scope id s) resource_not_found

unfoldable pub check_policy_publication : IdentityContext → ℕ → ℕ → Store → Result CommercialPolicy
check_policy_publication identity id now s = do
  i ← find_policy identity id s
  raise_if (not (is_draft i.lifecycle_state)) published_version_immutable
  ok (record i {
    lifecycle_state = published;
    review_state = approved;
    effective_from = some now;
    published_at = some now;
    published_by = some identity.subject_id;
  })

abbrev pub policy_publication_reported : IdentityContext → CommercialPolicy → Store → Store
policy_publication_reported identity i s =
    emit_event policy_released identity.subject_id i.policy_id
      (write_audit policy_released identity.subject_id i.policy_id s)

unfoldable pub publish_policy : IdentityContext → ℕ → ℕ → Store → Result CommercialPolicy × Store
publish_policy identity id now s =
    commit upsert_policy (policy_publication_reported identity) s
      (check_policy_publication identity id now s)
