-- ===== src/Approvals/Service.antt =====
-- `InMemoryApprovalsReportsRepository` and `RiskAcceptanceService`
-- (approvals_reports/application/repository.py and services.py).
use biaice.Common.{
  ℕ, Bool, not, ◌&&◌, ◌||◌, Option, none, some, List, [], ◌∷◌, ◌++◌, map, Text, ltb, leb, ◌==◌,
  keep, if◌then◌else◌,
}
use biaice.Common.Dict.{Dict, lookup, insert}
use biaice.Core.Errors.{validation_error, stable, Result, ok, err, ◌>>=◌, ◌>>◌, raise_if, or_raise}
use biaice.Core.Errors.Code.{
  audit_unavailable, maker_checker_required, risk_acceptance_invalid_period, resource_not_found,
  risk_acceptance_already_revoked, risk_acceptance_expired,
}
use biaice.Core.Scope.{TenantScope, IdentityContext, assert_allows, scope_matches}
use biaice.Approvals.Risk.{
  RiskAcceptance, RiskState, active, revoked, current, invalidated, model_valid,
  effective_risk_acceptance,
}

pub data Written : Type 0 where
  risk_accepted risk_revoked : Written

-- What the audit writer and the outbox are told: the kind, the object, its version and the actor.
pub record Notice : Type 0 where
  pub kind : Written
  pub object_id : ℕ
  pub version_id : ℕ
  pub actor_id : ℕ

pub record Store : Type 0 where
  pub risk_acceptances : Dict RiskAcceptance
  pub audit : List Notice
  pub outbox : List Notice
  pub audit_available : Bool
  pub outbox_configured : Bool

visible : TenantScope → Option RiskAcceptance → Option RiskAcceptance
visible scope none = none
visible scope (some i) =
    if scope_matches scope i.tenant_id i.data_domain_id i.project_id i.decision_unit_id
    then some i
    else none

unfoldable pub get_risk_acceptance : TenantScope → ℕ → Store → Option RiskAcceptance
unfolding visible
get_risk_acceptance scope id s = visible scope (lookup id s.risk_acceptances)

unfoldable pub upsert_risk_acceptance : RiskAcceptance → Store → Store
upsert_risk_acceptance i s = record s {
  risk_acceptances = insert i.risk_acceptance_id i s.risk_acceptances;
}

-- The order of `(created_at, str(version_id))`; identifiers of one length sort as numbers do.
comes_first : RiskAcceptance → RiskAcceptance → Bool
comes_first i j =
    ltb i.created_at j.created_at || (i.created_at == j.created_at && leb i.version_id j.version_id)

insert_sorted : RiskAcceptance → List RiskAcceptance → List RiskAcceptance
insert_sorted i [] = i ∷ []
insert_sorted i (j ∷ js) = if comes_first i j then i ∷ j ∷ js else j ∷ insert_sorted i js

sort_items : List RiskAcceptance → List RiskAcceptance
sort_items [] = []
sort_items (i ∷ is) = insert_sorted i (sort_items is)

abbrev values : Dict RiskAcceptance → List RiskAcceptance
values [] = []
values ((_, i) ∷ d) = i ∷ values d

unfoldable pub list_risk_acceptances : TenantScope → ℕ → Store → List RiskAcceptance
unfolding sort_items insert_sorted comes_first
list_risk_acceptances scope unit s = sort_items (
    keep
      (λ i.
        scope_matches scope i.tenant_id i.data_domain_id i.project_id i.decision_unit_id
        && i.decision_unit_id == unit)
      (values s.risk_acceptances))

-- The arguments of `create`, with the time and the two identifiers that the call draws.
pub record Creation : Type 0 where
  pub decision_unit_id : ℕ
  pub risk : Text
  pub metric : Text
  pub acceptance_scope : Text
  pub rationale : Text
  pub independent_approver_id : ℕ
  pub valid_from : ℕ
  pub valid_until : ℕ
  pub now : ℕ
  pub new_id : ℕ
  pub new_version_id : ℕ

-- `next(iter(ids)) if ids else None`: the order of a frozenset is not specified, the list has one.
abbrev pub some_project : List ℕ → Option ℕ
some_project [] = none
some_project (p ∷ _) = some p

unfoldable pub new_acceptance : IdentityContext → Creation → RiskAcceptance
new_acceptance identity q = record {
  risk_acceptance_id = q.new_id;
  version_id = q.new_version_id;
  tenant_id = identity.scope.tenant_id;
  data_domain_id = identity.scope.data_domain_id;
  project_id = some_project identity.scope.project_ids;
  decision_unit_id = q.decision_unit_id;
  state = active;
  validity = current;
  risk = q.risk;
  metric = q.metric;
  acceptance_scope = q.acceptance_scope;
  rationale = q.rationale;
  independent_approver_id = q.independent_approver_id;
  valid_from = q.valid_from;
  valid_until = q.valid_until;
  created_at = q.now;
  created_by = identity.subject_id;
  accepted_at = q.now;
  accepted_by = q.independent_approver_id;
  revoked_at = none;
  revoked_by = none;
  revocation_reason = none;
}

-- The checks of `create` and the construction of the model.
unfoldable pub check_creation : IdentityContext → Creation → Store → Result RiskAcceptance
check_creation identity q s = do
  raise_if (not s.audit_available) audit_unavailable
  assert_allows identity.scope identity.scope.tenant_id identity.scope.data_domain_id none
      (some q.decision_unit_id)
  raise_if (identity.subject_id == q.independent_approver_id) maker_checker_required
  raise_if (leb q.valid_until q.valid_from) risk_acceptance_invalid_period
  let item = new_acceptance identity q
  if model_valid item then ok item else err validation_error

-- The upsert, the audit entry and the event that `create` and `revoke` end with. The writer and the port
-- are taken to accept what they are told.
unfoldable pub write : Written → IdentityContext → RiskAcceptance → Store → Store
unfolding upsert_risk_acceptance
write kind identity i s =
    let n : Notice = record {
      kind = kind;
      object_id = i.risk_acceptance_id;
      version_id = i.version_id;
      actor_id = identity.subject_id;
    } in
    let s' = upsert_risk_acceptance i s in
    record s' {
      audit = s'.audit ++ n ∷ [];
      outbox = if s'.outbox_configured then s'.outbox ++ n ∷ [] else s'.outbox;
    }

unfoldable pub written :
    Written → IdentityContext → Store → Result RiskAcceptance → Result RiskAcceptance × Store
written kind identity s (ok i) = (ok i, write kind identity i s)
written kind identity s (err f) = (err f, s)

unfoldable pub create : IdentityContext → Creation → Store → Result RiskAcceptance × Store
unfolding written
create identity q s = written risk_accepted identity s (check_creation identity q s)

unfoldable pub get : IdentityContext → ℕ → ℕ → Store → Result RiskAcceptance
get identity id now s = do
  item ← or_raise (get_risk_acceptance identity.scope id s) resource_not_found
  ok (effective_risk_acceptance item now)

unfoldable pub list : IdentityContext → ℕ → ℕ → Store → Result (List RiskAcceptance)
list identity unit now s = do
  assert_allows identity.scope identity.scope.tenant_id identity.scope.data_domain_id none
      (some unit)
  ok (map (λ i. effective_risk_acceptance i now) (list_risk_acceptances identity.scope unit s))

refuse_state : RiskState → Result (Unit {0})
refuse_state active = ok tt
refuse_state revoked = err (stable risk_acceptance_already_revoked)
refuse_state RiskState.expired = err (stable risk_acceptance_expired)

unfoldable pub revocation : IdentityContext → Text → ℕ → RiskAcceptance → RiskAcceptance
revocation identity reason now i = record i {
  state = revoked;
  validity = invalidated;
  revoked_at = some now;
  revoked_by = some identity.subject_id;
  revocation_reason = some reason;
}

-- The checks of `revoke`; the clock is read twice. `model_copy` does not validate.
unfoldable pub check_revocation : IdentityContext → ℕ → Text → ℕ → ℕ → Store → Result RiskAcceptance
unfolding refuse_state
check_revocation identity id reason now now' s = do
  raise_if (not s.audit_available) audit_unavailable
  item ← or_raise (get_risk_acceptance identity.scope id s) resource_not_found
  refuse_state (effective_risk_acceptance item now).state
  ok (revocation identity reason now' item)

unfoldable pub revoke : IdentityContext → ℕ → Text → ℕ → ℕ → Store → Result RiskAcceptance × Store
unfolding written
revoke identity id reason now now' s =
    written risk_revoked identity s (check_revocation identity id reason now now' s)
