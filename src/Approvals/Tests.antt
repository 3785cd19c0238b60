-- ===== src/Approvals/Tests.antt =====
-- A risk acceptance at fixed inputs, and the theorems about it.
use biaice.Common.{◌↔◌, ◌≡◌, refl, true, false, [], ◌∷◌, codes, elem, arith}
use biaice.Common.Dict.{lookup, insert}
use biaice.Approvals.Creating.{IsCreatable, create_iff}
use biaice.Core.Errors.{is_ok, ok}
use biaice.Core.Scope.{TenantScope, IdentityContext, assert_allows, scope_matches}
use biaice.Approvals.Risk.{
  RiskAcceptance, effective_risk_acceptance, model_valid, lengths_fit, independent, period_ordered,
  state_agrees,
}
use biaice.Approvals.Service.{
  Store, Creation, create, revoke, written, write, check_creation, check_revocation, new_acceptance,
  revocation, get_risk_acceptance,
}
use biaice.Approvals.Invariant.{IsValidStore, create-IsValidStore, revoke-IsValidStore}

abbrev scope : TenantScope
scope = record {
  tenant_id = 1;
  data_domain_id = 2;
  project_ids = 3 ∷ [];
  decision_unit_ids = 4 ∷ [];
  all_projects = false;
  all_decision_units = false;
}

abbrev maker : IdentityContext
maker = record { subject_id = 9; scope = scope }

abbrev empty_store : Store
empty_store = record {
  risk_acceptances = [];
  audit = [];
  outbox = [];
  audit_available = true;
  outbox_configured = true;
}

abbrev creation : Creation
creation = record {
  decision_unit_id = 4;
  risk = codes "late delivery";
  metric = codes "days";
  acceptance_scope = codes "lot 1";
  rationale = codes "buffer";
  independent_approver_id = 8;
  valid_from = 10;
  valid_until = 20;
  now = 11;
  new_id = 100;
  new_version_id = 101;
}

abbrev self_approval : Creation
self_approval = record creation { independent_approver_id = 9 }

abbrev accepted : RiskAcceptance
accepted = unfold new_acceptance in new_acceptance maker creation

empty_store-IsValidStore : IsValidStore empty_store
unfolding lookup
empty_store-IsValidStore = record { at = λ k i h. cc }

creation_ok : (create maker creation empty_store).0 ≡ ok accepted
unfolding create written check_creation assert_allows elem new_acceptance model_valid lengths_fit
    independent period_ordered state_agrees
creation_ok = refl

create-IsValidStore_example : IsValidStore (create maker creation empty_store).1
create-IsValidStore_example =
    create-IsValidStore maker empty_store empty_store-IsValidStore creation

abbrev one_store : Store
one_store = (create maker creation empty_store).1

one_store-IsValidStore : IsValidStore one_store
one_store-IsValidStore = create-IsValidStore maker empty_store empty_store-IsValidStore creation

revoke-IsValidStore_example : IsValidStore (revoke maker 100 (codes "changed") 12 12 one_store).1
revoke-IsValidStore_example =
    revoke-IsValidStore maker one_store one_store-IsValidStore 100 (codes "changed") 12 12 refl
      (omega arith)

revoked_ok :
    (revoke maker 100 (codes "changed") 12 12 one_store).0
    ≡ ok (revocation maker (codes "changed") 12 accepted)
unfolding revoke check_revocation effective_risk_acceptance create written write check_creation
    assert_allows elem new_acceptance model_valid lengths_fit independent period_ordered
    state_agrees get_risk_acceptance lookup insert scope_matches
revoked_ok = refl

create_iff_example :
    (is_ok (create maker creation empty_store).0 ≡ true) ↔ IsCreatable maker creation empty_store
create_iff_example = create_iff maker creation empty_store
