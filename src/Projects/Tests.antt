-- ===== src/Projects/Tests.antt =====
-- A submission at a fixed input, and the theorems about it.
use biaice.Common.{
  ℕ, sym, ap, ◌∙◌, ◌≡◌, refl, true, false, none, some, [], ◌∷◌, codes, elem, arith, text_eq, strip,
  upper, ◌⊎◌,
}
use biaice.Common.Dict.{lookup, insert}
use biaice.Core.Errors.{ok, err, stable, runtime_error}
use biaice.Core.Errors.Code.{tenant_scope_violation, request_validation_failed}
use biaice.Core.Scope.{TenantScope, IdentityContext, assert_allows, scope_ok}
use biaice.Core.Scope.Laws.{scope_ok-without_projects}
use biaice.Lifecycle.State.{draft, documents_parsing, contains, state_eq}
use biaice.Lifecycle.Transition.{resolve_transition, token_of, parse_state, allowed_targets}
use biaice.Projects.Store.{
  DecisionUnit, OutboxPort, Store, get_unit, list_lifecycle_events, sort_by_sequence,
}
use biaice.Projects.Service.{
  Submission, submit, stored, prepare, prepare_for, accept, require_unit, parse_resume, new_event,
  event_valid, record_event, moved,
}
use biaice.Projects.Chain.{IsConsistent}
use biaice.Projects.Laws.{submit-IsConsistent, submit_err_unaudited, Refused, Moved}

abbrev scope : TenantScope
scope = record {
  tenant_id = 1;
  data_domain_id = 2;
  project_ids = 3 ∷ [];
  decision_unit_ids = 4 ∷ [];
  all_projects = false;
  all_decision_units = false;
}

abbrev identity : IdentityContext
identity = record { subject_id = 9; scope = scope }

abbrev unit : DecisionUnit
unit = record {
  decision_unit_id = 4;
  project_id = 3;
  tenant_id = 1;
  data_domain_id = 2;
  lifecycle_state = draft;
  version_id = 7;
}

abbrev accepting : OutboxPort
accepting = record { append = λ event. ok tt }

-- The port of core/outbox.py that is not configured
abbrev denied : OutboxPort
denied = record { append = λ event. err runtime_error }

abbrev store : Store
store = record {
  units = (4, unit) ∷ [];
  events = [];
  outbox = [];
  audit = [];
  outbox_port = some accepting;
  audit_writer = record { available = true; write = λ entry. ok tt };
}

abbrev parse_documents : Submission
parse_documents = record {
  unit_id = 4;
  command = codes "documents_parsing";
  reason = codes "intake";
  basis = none;
  earliest_affected_stage = none;
  resume_state = none;
  request_id = codes "r-1";
  new_event_id = 100;
  now = 50;
}

abbrev close_draft : Submission
close_draft = record parse_documents { command = codes "CLOSED" }

only_unit : (k : ℕ) (u : DecisionUnit) → lookup k store.units ≡ some u → (unit ≡ u) × (4 ≡ k)
unfolding lookup
only_unit k u h = ground arith

store-IsConsistent : IsConsistent store
store-IsConsistent = record {
  at = λ k u h.
      let (eu, ek) = only_unit k u h in
      record {
        id = ap (λ (v : DecisionUnit). v.decision_unit_id) (sym eu) ∙ ek;
        chain = ap (λ (v : DecisionUnit). v.lifecycle_state) eu;
        owned = tt;
      };
}

submit-IsConsistent_example : IsConsistent (submit identity parse_documents store).1
submit-IsConsistent_example = submit-IsConsistent store identity parse_documents store-IsConsistent

parse_documents_moves :
    lookup 4 (submit identity parse_documents store).1.units
    ≡ some (record unit { lifecycle_state = documents_parsing })
unfolding submit stored prepare prepare_for accept require_unit parse_resume new_event event_valid
    record_event moved lookup insert assert_allows scope_ok elem get_unit list_lifecycle_events
    sort_by_sequence resolve_transition token_of strip upper text_eq parse_state contains state_eq
    allowed_targets
parse_documents_moves = refl

close_draft_refused : (submit identity close_draft store).0 ≡ err (stable request_validation_failed)
unfolding submit stored prepare prepare_for accept require_unit parse_resume new_event event_valid
    record_event moved lookup insert assert_allows scope_ok elem get_unit list_lifecycle_events
    sort_by_sequence resolve_transition token_of strip upper text_eq parse_state contains state_eq
    allowed_targets
close_draft_refused = refl

abbrev denying : Store
denying = record store { outbox_port = some denied }

parse_documents_raises : (submit identity parse_documents denying).0 ≡ err runtime_error
unfolding submit stored prepare prepare_for accept require_unit parse_resume new_event event_valid
    record_event moved lookup insert assert_allows scope_ok elem get_unit list_lifecycle_events
    sort_by_sequence resolve_transition token_of strip upper text_eq parse_state contains state_eq
    allowed_targets
parse_documents_raises = refl

submit_err_unaudited_example :
    ((submit identity parse_documents denying).1.audit ≡ [])
    × (Refused denying identity parse_documents runtime_error
          (submit identity parse_documents denying).1
        ⊎ Moved denying identity parse_documents (submit identity parse_documents denying).1)
submit_err_unaudited_example =
    submit_err_unaudited denying identity parse_documents parse_documents_raises

abbrev no_projects : TenantScope
no_projects = record scope { project_ids = [] }

scope_ok-without_projects_example :
    (scope_ok no_projects 1 2 (some 8) none ≡ true)
    × (assert_allows no_projects 1 2 (some 8) none ≡ err (stable tenant_scope_violation))
scope_ok-without_projects_example = scope_ok-without_projects no_projects 8 refl refl
