-- ===== src/Simulation/Selection.antt =====
-- The selection of candidates for a plan (simulation/domain/optimization.py). The decimals are
-- exact while a total has at most 28 digits.
pub mod Laws
use biaice.Common.{
  ℕ, zero, suc, ◌+◌, ◌≡◌, refl, sym, ap, ◌∙◌, Bool, true, false, not, ◌&&◌, List, [], ◌∷◌, ◌++◌,
  map, keep, length, length-append, is_empty, leb, ℤ, pos, ◌+ℤ◌, ltℤ, if◌then◌else◌, arith,
  Bool-cases, inl, inr,
}

pub data AwardMode : Type 0 where
  single multi no_award : AwardMode

pub record SimulationCandidate : Type 0 where
  pub candidate_id : ℕ
  pub expected_cost : ℤ
  pub expected_margin : ℤ

pub record RankedCandidate : Type 0 where
  pub candidate : SimulationCandidate
  pub score : ℤ

pub record SelectionPlan : Type 0 where
  pub award_mode : AwardMode
  pub selected : List SimulationCandidate
  pub total_expected_cost : ℤ
  pub total_expected_margin : ℤ

-- The loop's variables.
pub record Tally : Type 0 where
  pub selected : List SimulationCandidate
  pub total_cost : ℤ
  pub total_margin : ℤ

abbrev pub empty_tally : Tally
empty_tally = record { selected = []; total_cost = pos 0; total_margin = pos 0 }

abbrev pub taken : SimulationCandidate → Tally → Tally
taken c t = record {
  selected = t.selected ++ c ∷ [];
  total_cost = t.total_cost +ℤ c.expected_cost;
  total_margin = t.total_margin +ℤ c.expected_margin;
}

-- The two `break`s after a candidate is selected.
abbrev pub stops : AwardMode → Tally → Bool
stops single t = true
stops multi t = leb 4 (length t.selected)
stops no_award t = false

unfoldable pub select_loop : AwardMode → ℤ → List RankedCandidate → Tally → Tally
select_loop mode threshold [] t = t
select_loop mode threshold (r ∷ rs) t =
    let is_below = ltℤ r.candidate.expected_margin threshold in
    let next = if is_below then t else taken r.candidate t in
    let later = select_loop mode threshold rs next in
    if not is_below && stops mode next then next else later

abbrev pub plan_of : AwardMode → Tally → SelectionPlan
plan_of mode t =
    if is_empty t.selected
    then record {
      award_mode = mode;
      selected = [];
      total_expected_cost = pos 0;
      total_expected_margin = pos 0;
    }
    else record {
      award_mode = mode;
      selected = t.selected;
      total_expected_cost = t.total_cost;
      total_expected_margin = t.total_margin;
    }

unfoldable pub select_objective_candidates : List RankedCandidate → ℤ → AwardMode → SelectionPlan
unfolding select_loop
select_objective_candidates ranked threshold mode =
    plan_of mode (select_loop mode threshold ranked empty_tally)
