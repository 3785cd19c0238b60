-- ===== src/Simulation/Tests.antt =====
-- The simulation module at fixed inputs, and the theorems about it.
use biaice.Common.{
  ℕ, ◌≡◌, refl, ◌↔◌, true, false, ◌||◌, List, [], ◌∷◌, codes, all, any, is_empty, pos, negsuc,
  if◌then◌else◌,
}
use biaice.Core.Errors.{is_ok, ok, ◌>>=◌}
use biaice.Simulation.Eligibility.{
  GateInputs, current, expired, eligible, ineligible, indeterminate, as_mapping, is_unknown,
  is_current, assess_eligibility, assess_eligibility_state,
}
use biaice.Simulation.Merge.{
  MergeRequest, IsMergeable, merge_assessments, assert_merge_accepted, merge_assessments_iff,
}
use biaice.Simulation.Selection.{
  multi, SimulationCandidate, RankedCandidate, select_objective_candidates,
}
use biaice.Simulation.Selection.Laws.{clearing, awarded, total, select_objective_candidates_awards}
use biaice.Simulation.Stress.{
  StressAxis, timing, StressScenario, StressReport, check_scenario, run_scenarios, run_axes,
  run_candidates, first_seen, run_stress_tests, report_passed,
}
use biaice.Simulation.Stress.Laws.{
  all_feasible, all_admissible, run_stress_tests_passed, run_stress_tests_returns,
}

abbrev inputs : GateInputs
inputs = record {
  precheck = current;
  readiness = current;
  static_validation = expired;
  scenario_assessment = current;
  condition = current;
  risk_acceptance = current;
}

assess_eligibility_state_example : (assess_eligibility inputs).state ≡ (
    if any (λ g. is_unknown g.1) (as_mapping inputs)
    then indeterminate
    else if all (λ g. is_current g.1) (as_mapping inputs)
    then eligible
    else ineligible)
assess_eligibility_state_example = assess_eligibility_state inputs

abbrev merge_request : MergeRequest
merge_request = record {
  plan_id = 1;
  run_id = 2;
  baseline_version_id = 3;
  candidate_ids = 4 ∷ 5 ∷ [];
  linkage = codes "complete";
  tau_b = pos 40;
  tau_m = pos 50;
}

merge_assessments_iff_example :
    ((merge_assessments 100 merge_request 6 7 >>= assert_merge_accepted) ≡ ok tt)
    ↔ IsMergeable 100 merge_request
merge_assessments_iff_example = merge_assessments_iff 100 merge_request 6 7

abbrev cheap : SimulationCandidate
cheap = record { candidate_id = 4; expected_cost = pos 10; expected_margin = pos 3 }

abbrev poor : SimulationCandidate
poor = record { candidate_id = 5; expected_cost = pos 8; expected_margin = negsuc 1 }

abbrev ranking : List RankedCandidate
ranking =
    record { candidate = poor; score = pos 9 } ∷ record { candidate = cheap; score = pos 8 } ∷ []

select_objective_candidates_awards_example :
    ((select_objective_candidates ranking (pos 1) multi).selected
      ≡ awarded multi (clearing (pos 1) ranking))
    × ((select_objective_candidates ranking (pos 1) multi).total_expected_cost
        ≡ total (λ c. c.expected_cost) (pos 0) (awarded multi (clearing (pos 1) ranking)))
    × ((select_objective_candidates ranking (pos 1) multi).total_expected_margin
        ≡ total (λ c. c.expected_margin) (pos 0) (awarded multi (clearing (pos 1) ranking)))
select_objective_candidates_awards_example =
    select_objective_candidates_awards ranking (pos 1) multi

abbrev scenarios : List (StressAxis × List StressScenario)
scenarios =
    (
      timing,
      record { axis = timing; feasible = false; stress_weight = pos 0; detail = codes "late" } ∷ [],
    )
    ∷ []

abbrev candidates : List ℕ
candidates = 1 ∷ []

abbrev report : StressReport
report = record {
  assessments =
      record { axis = timing; passed = false; detail = codes "late"; stress_weight = pos 0 } ∷ [];
  hard_axis_violations = timing ∷ [];
  failed_assessment_count = 1;
}

stress_runs : run_stress_tests candidates scenarios ≡ ok report
unfolding run_stress_tests run_candidates run_axes run_scenarios check_scenario first_seen
stress_runs = refl

run_stress_tests_passed_example :
    (report_passed report ≡ (is_empty candidates || all_feasible scenarios))
    × ((is_empty candidates || all_admissible scenarios) ≡ true)
run_stress_tests_passed_example = run_stress_tests_passed candidates scenarios report stress_runs

run_stress_tests_returns_example :
    is_ok (run_stress_tests candidates scenarios)
    ≡ (is_empty candidates || all_admissible scenarios)
run_stress_tests_returns_example = run_stress_tests_returns candidates scenarios
