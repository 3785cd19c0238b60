-- ===== src/Simulation/Stress/Laws.antt =====
-- When the stress tests return, and when their report has passed.
use biaice.Common.{
  ◌∙◌, ap, ℕ, ◌≡◌, refl, Bool, true, false, not, ◌&&◌, ◌||◌, List, [], ◌∷◌, ◌++◌, all, is_empty,
  pos, ltℤ, arith,
}
use biaice.Core.Errors.{is_ok, err, Result, ok, ◌>>=◌, >>=-eq-ok}
use biaice.Simulation.Stress.{
  StressAxis, StressScenario, StressReport, Progress, same_axis, report_passed, assessed,
  check_scenario, run_scenarios, run_axes, run_candidates, first_seen, report_of, run_stress_tests,
}

-- Every scenario of every axis is feasible.
abbrev pub all_feasible : List (StressAxis × List StressScenario) → Bool
all_feasible axes =
    all (λ (x : StressAxis × List StressScenario). all (λ (s : StressScenario). s.feasible) x.1)
      axes

-- Every scenario stands under its own axis and has no positive weight.
abbrev pub is_admissible : StressAxis → StressScenario → Bool
is_admissible axis s = same_axis s.axis axis && not (ltℤ (pos 0) s.stress_weight)

abbrev pub all_admissible : List (StressAxis × List StressScenario) → Bool
all_admissible axes =
    all (λ (x : StressAxis × List StressScenario). all (is_admissible x.0) x.1) axes

empty-append : (axes : List StressAxis) (a : StressAxis) → is_empty (axes ++ a ∷ []) ≡ false
empty-append [] a = refl
empty-append (x ∷ axes) a = refl

run_scenarios_feasible :
    (axis : StressAxis) (ss : List StressScenario) (p q : Progress)
    → run_scenarios axis ss p ≡ ok q
    → (is_empty q.violations
        ≡ (is_empty p.violations && all (λ (s : StressScenario). s.feasible) ss))
      × (all (is_admissible axis) ss ≡ true)
unfolding run_scenarios check_scenario
run_scenarios_feasible axis [] p q h = (ground arith, refl)
run_scenarios_feasible axis (s ∷ ss) p q h =
    ground
      (arith, run_scenarios_feasible axis ss (assessed axis s p) q, empty-append p.violations axis)

run_axes_feasible :
    (axes : List (StressAxis × List StressScenario)) (p q : Progress)
    → run_axes axes p ≡ ok q
    → (is_empty q.violations ≡ (is_empty p.violations && all_feasible axes))
      × (all_admissible axes ≡ true)
unfolding run_axes
run_axes_feasible [] p q h = (ground arith, refl)
run_axes_feasible ((axis, ss) ∷ axes) p q h =
    let (r, first, rest) = >>=-eq-ok (run_scenarios axis ss p) (λ q. run_axes axes q) h in
    ground (arith, run_scenarios_feasible axis ss p r first, run_axes_feasible axes r q rest)

run_candidates_feasible :
    (cs : List ℕ) (axes : List (StressAxis × List StressScenario)) (p q : Progress)
    → run_candidates cs axes p ≡ ok q
    → (is_empty q.violations ≡ (is_empty p.violations && (is_empty cs || all_feasible axes)))
      × ((is_empty cs || all_admissible axes) ≡ true)
unfolding run_candidates
run_candidates_feasible [] axes p q h = (ground arith, refl)
run_candidates_feasible (c ∷ cs) axes p q h =
    let (r, first, rest) = >>=-eq-ok (run_axes axes p) (λ q. run_candidates cs axes q) h in
    ground (arith, run_axes_feasible axes p r first, run_candidates_feasible cs axes r q rest)

first_seen-is_empty : (axes : List StressAxis) → is_empty (first_seen [] axes) ≡ is_empty axes
unfolding first_seen
first_seen-is_empty [] = refl
first_seen-is_empty (a ∷ axes) = refl

-- A report of a batch with candidates has passed exactly if every scenario of every axis is
-- feasible, and no scenario of it stands under another axis or has a positive weight; a batch
-- without candidates passes unchecked.
pub run_stress_tests_passed :
    (candidates : List ℕ) (scenarios : List (StressAxis × List StressScenario))
    (report : StressReport)
    → run_stress_tests candidates scenarios ≡ ok report
    → (report_passed report ≡ (is_empty candidates || all_feasible scenarios))
      × ((is_empty candidates || all_admissible scenarios) ≡ true)
unfolding run_stress_tests
run_stress_tests_passed candidates scenarios report h =
    let start : Progress = record { assessments = []; violations = [] } in
    let (p, ran, same) =
      >>=-eq-ok (run_candidates candidates scenarios start) (λ p. ok (report_of p)) h in
    ground (
      arith,
      run_candidates_feasible candidates scenarios start p ran,
      first_seen-is_empty p.violations,
    )

is_ok-run_scenarios :
    (axis : StressAxis) (ss : List StressScenario) (p : Progress)
    → is_ok (run_scenarios axis ss p) ≡ all (is_admissible axis) ss
unfolding run_scenarios check_scenario
is_ok-run_scenarios axis [] p = refl
is_ok-run_scenarios axis (s ∷ ss) p =
    ground (arith, is_ok-run_scenarios axis ss (assessed axis s p))

bind_is_ok :
    (m : Result Progress) (f : Progress → Result Progress) (b : Bool)
    → ((q : Progress) → is_ok (f q) ≡ b)
    → is_ok (m >>= f) ≡ (is_ok m && b)
bind_is_ok (err _) f b h = refl
bind_is_ok (ok q) f b h = h q

is_ok-run_axes :
    (axes : List (StressAxis × List StressScenario)) (p : Progress)
    → is_ok (run_axes axes p) ≡ all_admissible axes
unfolding run_axes
is_ok-run_axes [] p = refl
is_ok-run_axes ((axis, ss) ∷ axes) p =
    bind_is_ok (run_scenarios axis ss p) (λ q. run_axes axes q) (all_admissible axes)
      (is_ok-run_axes axes)
    ∙ ap (λ b. b && all_admissible axes) (is_ok-run_scenarios axis ss p)

is_ok-run_candidates :
    (cs : List ℕ) (axes : List (StressAxis × List StressScenario)) (p : Progress)
    → is_ok (run_candidates cs axes p) ≡ (is_empty cs || all_admissible axes)
unfolding run_candidates
is_ok-run_candidates [] axes p = refl
is_ok-run_candidates (c ∷ cs) axes p =
    let later =
      bind_is_ok (run_axes axes p) (λ q. run_candidates cs axes q)
        (is_empty cs || all_admissible axes) (is_ok-run_candidates cs axes) in
    ground (arith, later, is_ok-run_axes axes p)

-- The stress tests return a report exactly if there is no candidate, or every scenario stands under
-- its own axis and has no positive weight; otherwise they raise.
pub run_stress_tests_returns :
    (candidates : List ℕ) (scenarios : List (StressAxis × List StressScenario))
    → is_ok (run_stress_tests candidates scenarios)
      ≡ (is_empty candidates || all_admissible scenarios)
unfolding run_stress_tests
run_stress_tests_returns candidates scenarios =
    let start : Progress = record { assessments = []; violations = [] } in
    ground (arith, is_ok-run_candidates candidates scenarios start)
