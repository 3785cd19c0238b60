-- ===== src/Simulation/Stress.antt =====
-- The stress tests (simulation/domain/stress.py).
pub mod Laws
use biaice.Common.{
  ◌∙◌, ap, ℕ, ◌≡◌, refl, Bool, true, false, not, ◌&&◌, ◌||◌, List, [], ◌∷◌, ◌++◌, Text, keep, all,
  length, is_empty, ◌==◌, ℤ, pos, ltℤ, if◌then◌else◌, arith,
}
use biaice.Core.Errors.{is_ok, err, Result, ok, raise_if, ◌>>=◌, ◌>>◌, >>=-eq-ok}
use biaice.Core.Errors.Code.{stress_axis_violated}

pub data StressAxis : Type 0 where
  price_band timing compliance provider_outage unit_failure : StressAxis

abbrev axis_index : StressAxis → ℕ
axis_index price_band = 0
axis_index timing = 1
axis_index compliance = 2
axis_index provider_outage = 3
axis_index unit_failure = 4

abbrev pub same_axis : StressAxis → StressAxis → Bool
same_axis a b = axis_index a == axis_index b

pub record StressScenario : Type 0 where
  pub axis : StressAxis
  pub feasible : Bool
  pub stress_weight : ℤ
  pub detail : Text

-- The identifiers of the call and of the assessment are left out.
pub record StressTestAssessment : Type 0 where
  pub axis : StressAxis
  pub passed : Bool
  pub detail : Text
  pub stress_weight : ℤ

pub record StressReport : Type 0 where
  pub assessments : List StressTestAssessment
  pub hard_axis_violations : List StressAxis
  pub failed_assessment_count : ℕ

-- `StressReport.passed`
abbrev pub report_passed : StressReport → Bool
report_passed r = is_empty r.hard_axis_violations

-- The loops' variables.
pub record Progress : Type 0 where
  pub assessments : List StressTestAssessment
  pub violations : List StressAxis

abbrev pub assessed : StressAxis → StressScenario → Progress → Progress
assessed axis s p = record {
  assessments =
      p.assessments
      ++ record {
        axis = axis;
        passed = s.feasible;
        detail = s.detail;
        stress_weight = s.stress_weight;
      }
        ∷ [];
  violations = if not s.feasible then p.violations ++ axis ∷ [] else p.violations;
}

-- The checks of one scenario.
unfoldable pub check_scenario : StressAxis → StressScenario → Result (Unit {0})
check_scenario axis s = do
  raise_if (not (same_axis s.axis axis)) stress_axis_violated
  raise_if (ltℤ (pos 0) s.stress_weight) stress_axis_violated

unfoldable pub run_scenarios : StressAxis → List StressScenario → Progress → Result Progress
run_scenarios axis [] p = ok p
run_scenarios axis (s ∷ ss) p =
    check_scenario axis s >>= λ _. run_scenarios axis ss (assessed axis s p)

unfoldable pub run_axes : List (StressAxis × List StressScenario) → Progress → Result Progress
run_axes [] p = ok p
run_axes ((axis, ss) ∷ axes) p = run_scenarios axis ss p >>= λ q. run_axes axes q

unfoldable pub run_candidates :
    List ℕ → List (StressAxis × List StressScenario) → Progress → Result Progress
run_candidates [] axes p = ok p
run_candidates (c ∷ cs) axes p = run_axes axes p >>= λ q. run_candidates cs axes q

-- `tuple(dict.fromkeys(violations))`
unfoldable pub first_seen : List StressAxis → List StressAxis → List StressAxis
first_seen seen [] = []
first_seen seen (a ∷ axes) =
    let rest = first_seen (a ∷ seen) axes in if has_axis seen then rest else a ∷ rest
  where
    has_axis : List StressAxis → Bool
    has_axis [] = false
    has_axis (b ∷ bs) = same_axis b a || has_axis bs

abbrev pub report_of : Progress → StressReport
report_of p = record {
  assessments = p.assessments;
  hard_axis_violations = first_seen [] p.violations;
  failed_assessment_count =
      length (keep (λ (a : StressTestAssessment). not a.passed) p.assessments);
}

unfoldable pub run_stress_tests :
    List ℕ → List (StressAxis × List StressScenario) → Result StressReport
unfolding run_candidates run_axes run_scenarios first_seen
run_stress_tests candidates scenarios =
    run_candidates candidates scenarios (record { assessments = []; violations = [] }) >>= λ p.
    ok (report_of p)
