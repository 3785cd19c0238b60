-- ===== src/Commercial/Tests.antt =====
-- A cost baseline that is created, approved and published, and the theorems about it.
use biaice.Common.{ℕ, ◌≡◌, refl, true, false, none, some, List, [], ◌∷◌, text_eq, codes, elem, pos}
use biaice.Common.Dict.{lookup, insert}
use biaice.Core.Scope.{TenantScope, IdentityContext, assert_allows, scope_matches}
use biaice.Commercial.Model.{
  Money, exclusive, published, approved, current, retain, CostBaseline, cost_valid,
  currencies_align, pass, not_ready, formal_input_allowed,
}
use biaice.Commercial.Store.{
  upsert_cost, get_cost, emit_event, write_audit, list_costs, sort_entries, insert_entry,
  list_policies,
}
use biaice.Commercial.Costs.{
  CostRequest, assert_unit, check_cost, new_cost, create_cost_baseline, get_cost_baseline,
  check_approval, approve_cost_baseline, check_publication, publish_cost_baseline,
}
use biaice.Commercial.Readiness.{ReadinessReads, assessment}
use biaice.Commercial.Baselines.{
  Command, add_cost, approve_cost, publish_cost, empty_store, run, GoodCost, run-GoodCost,
}
use biaice.Commercial.Verdicts.{assessment-decision}

abbrev scope : TenantScope
scope = record {
  tenant_id = 1;
  data_domain_id = 2;
  project_ids = 3 ∷ [];
  decision_unit_ids = 4 ∷ [];
  all_projects = false;
  all_decision_units = false;
}

abbrev maker : IdentityContext
maker = record { subject_id = 10; scope = scope }

abbrev checker : IdentityContext
checker = record { subject_id = 11; scope = scope }

abbrev money : ℕ → Money
money n = record { amount = pos n; currency = codes "EUR" }

abbrev request : CostRequest
request = record {
  decision_unit_id = 4;
  currency = codes "EUR";
  tax_mode = exclusive;
  input_vat = money 1;
  cycle = codes "M";
  delivery_cost = money 2;
  post_award_cost = money 3;
  bid_preparation_cost = money 4;
  cashflow_in = money 5;
  cashflow_out = money 6;
  now = 50;
  new_id = 7;
  new_version_id = 8;
}

abbrev commands : List (IdentityContext × Command)
commands =
    (maker, add_cost request) ∷ (checker, approve_cost 7 51) ∷ (maker, publish_cost 7 52) ∷ []

abbrev released_cost : CostBaseline
released_cost = record {
  cost_baseline_id = 7;
  version_id = 8;
  tenant_id = 1;
  data_domain_id = 2;
  project_id = some 3;
  decision_unit_id = 4;
  currency = codes "EUR";
  tax_mode = exclusive;
  input_vat = money 1;
  cycle = codes "M";
  delivery_cost = money 2;
  post_award_cost = money 3;
  bid_preparation_cost = money 4;
  cashflow_in = money 5;
  cashflow_out = money 6;
  lifecycle_state = published;
  review_state = approved;
  validity_state = current;
  retention_state = retain;
  effective_from = some 52;
  effective_to = none;
  superseded_by_id = none;
  created_at = 50;
  created_by = 10;
  approved_at = some 51;
  approved_by = some 11;
  published_at = some 52;
  published_by = some 10;
  exploration_only = false;
}

stored_cost : lookup 7 (run commands (empty_store true true)).costs ≡ some released_cost
unfolding run lookup insert create_cost_baseline check_cost assert_unit assert_allows elem new_cost
    cost_valid currencies_align text_eq upsert_cost write_audit emit_event approve_cost_baseline
    check_approval get_cost_baseline get_cost scope_matches publish_cost_baseline check_publication
stored_cost = refl

run-GoodCost_example : GoodCost released_cost
run-GoodCost_example = run-GoodCost commands true true 7 released_cost stored_cost

abbrev reads : ReadinessReads
reads = record {
  now = 60;
  evidence = record { precheck_decision = some pass; response_profile_current = true };
  market = none;
  new_id = 90;
  new_version_id = 91;
}

-- Without a policy the unit is not ready.
assessment-decision_example :
    ((assessment maker 4 reads (run commands (empty_store true true))).decision ≡ not_ready)
    × ((assessment maker 4 reads (run commands (empty_store true true))).exploration_watermark
        ≡ true)
unfolding run lookup insert create_cost_baseline check_cost assert_unit assert_allows elem new_cost
    cost_valid currencies_align text_eq upsert_cost write_audit emit_event approve_cost_baseline
    check_approval get_cost_baseline get_cost scope_matches publish_cost_baseline check_publication
    list_costs sort_entries insert_entry list_policies formal_input_allowed
assessment-decision_example =
    assessment-decision maker 4 reads (run commands (empty_store true true))
