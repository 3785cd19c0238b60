-- ===== src/Simulation/Eligibility.antt =====
-- The eligibility of a recommendation (simulation/domain/eligibility.py).
use biaice.Common.{
  ◌≡◌, refl, ◌↔◌, Bool, true, false, not, ◌&&◌, ◌||◌, List, [], ◌∷◌, ◌++◌, Text, codes, upper,
  is_empty, all, any, if◌then◌else◌, arith,
}
use biaice.Core.Errors.{Result, ok, raise_if}
use biaice.Core.Errors.Code.{eligibility_input_unknown}

pub data ReviewValidity : Type 0 where
  current unknown expired invalidated : ReviewValidity

pub data EligibilityState : Type 0 where
  eligible ineligible indeterminate : EligibilityState

pub record GateInputs : Type 0 where
  pub precheck : ReviewValidity
  pub readiness : ReviewValidity
  pub static_validation : ReviewValidity
  pub scenario_assessment : ReviewValidity
  pub condition : ReviewValidity
  pub risk_acceptance : ReviewValidity

unfoldable pub as_mapping : GateInputs → List (Text × ReviewValidity)
as_mapping i =
    (codes "precheck", i.precheck)
    ∷ (codes "readiness", i.readiness)
    ∷ (codes "static_validation", i.static_validation)
    ∷ (codes "scenario_assessment", i.scenario_assessment)
    ∷ (codes "condition", i.condition)
    ∷ (codes "risk_acceptance", i.risk_acceptance)
    ∷ []

pub record EligibilityResult : Type 0 where
  pub state : EligibilityState
  pub blocked_reason_codes : List Text
  pub upstream_validity : List (Text × ReviewValidity)

-- What the loop appends for one gate.
unfoldable pub block_codes : Text → ReviewValidity → List Text
block_codes gate current = []
block_codes gate unknown = (upper gate ++ codes "_UNKNOWN") ∷ []
block_codes gate expired = (upper gate ++ codes "_EXPIRED") ∷ []
block_codes gate invalidated = (upper gate ++ codes "_INVALIDATED") ∷ []

abbrev pub is_unknown : ReviewValidity → Bool
is_unknown unknown = true
is_unknown _ = false

-- The loop: the codes appended, and whether some gate is UNKNOWN.
unfoldable pub scan : List (Text × ReviewValidity) → List Text × Bool
scan [] = ([], false)
scan ((gate, validity) ∷ rest) =
    let later = scan rest in (block_codes gate validity ++ later.0, is_unknown validity || later.1)

unfoldable pub verdict : List (Text × ReviewValidity) → List Text × Bool → EligibilityResult
verdict mapping (blocked, is_indeterminate) =
    if not (is_empty blocked) && not is_indeterminate
    then record { state = ineligible; blocked_reason_codes = blocked; upstream_validity = mapping }
    else if is_indeterminate
    then record {
      state = indeterminate;
      blocked_reason_codes = blocked;
      upstream_validity = mapping;
    }
    else record { state = eligible; blocked_reason_codes = []; upstream_validity = mapping }

unfoldable pub assess_eligibility : GateInputs → EligibilityResult
assess_eligibility inputs = verdict (as_mapping inputs) (scan (as_mapping inputs))

abbrev pub is_eligible : EligibilityState → Bool
is_eligible eligible = true
is_eligible _ = false

unfoldable pub assert_eligibility_for_recommendation : EligibilityResult → Result (Unit {0})
assert_eligibility_for_recommendation r =
    raise_if (not (is_eligible r.state)) eligibility_input_unknown

-- The six gates are CURRENT.
pub record IsCurrent (i : GateInputs) : Type 0 where
  pub precheck : i.precheck ≡ current
  pub readiness : i.readiness ≡ current
  pub static_validation : i.static_validation ≡ current
  pub scenario_assessment : i.scenario_assessment ≡ current
  pub condition : i.condition ≡ current
  pub risk_acceptance : i.risk_acceptance ≡ current

abbrev pub is_current : ReviewValidity → Bool
is_current current = true
is_current _ = false

scan-all_current :
    (m : List (Text × ReviewValidity))
    → (is_empty (scan m).0 ≡ true) ↔ (all (λ g. is_current g.1) m ≡ true)
unfolding scan block_codes
scan-all_current [] = (λ h. refl, λ h. refl)
scan-all_current ((g, current) ∷ m) = (λ h. (scan-all_current m).0 h, λ h. (scan-all_current m).1 h)
scan-all_current ((g, unknown) ∷ m) = (λ h. cc, λ h. cc)
scan-all_current ((g, expired) ∷ m) = (λ h. cc, λ h. cc)
scan-all_current ((g, invalidated) ∷ m) = (λ h. cc, λ h. cc)

unknown_blocks :
    (m : List (Text × ReviewValidity)) → (scan m).1 ≡ true → is_empty (scan m).0 ≡ false
unfolding scan block_codes
unknown_blocks [] h = cc
unknown_blocks ((g, current) ∷ m) h = unknown_blocks m h
unknown_blocks ((g, unknown) ∷ m) h = refl
unknown_blocks ((g, expired) ∷ m) h = refl
unknown_blocks ((g, invalidated) ∷ m) h = refl

recommendable :
    (m : List (Text × ReviewValidity)) (s : List Text × Bool)
    → (s.1 ≡ true → is_empty s.0 ≡ false)
    → (assert_eligibility_for_recommendation (verdict m s) ≡ ok tt) ↔ (is_empty s.0 ≡ true)
unfolding assert_eligibility_for_recommendation verdict
recommendable m ([], false) h = (λ _. refl, λ _. refl)
recommendable m ([], true) h = (λ _. refl, λ _. ground (arith, h refl))
recommendable m (c ∷ cs, false) h = (λ k. cc, λ k. cc)
recommendable m (c ∷ cs, true) h = (λ k. cc, λ k. cc)

is_current→≡ : (v : ReviewValidity) → is_current v ≡ true → v ≡ current
is_current→≡ current h = refl
is_current→≡ unknown h = cc
is_current→≡ expired h = cc
is_current→≡ invalidated h = cc

all-IsCurrent : (i : GateInputs) → (all (λ g. is_current g.1) (as_mapping i) ≡ true) ↔ IsCurrent i
unfolding as_mapping
all-IsCurrent i = (
  (λ h. record {
    precheck = is_current→≡ i.precheck (ground arith);
    readiness = is_current→≡ i.readiness (ground arith);
    static_validation = is_current→≡ i.static_validation (ground arith);
    scenario_assessment = is_current→≡ i.scenario_assessment (ground arith);
    condition = is_current→≡ i.condition (ground arith);
    risk_acceptance = is_current→≡ i.risk_acceptance (ground arith);
  }),
  λ c.
      rw
        (
          c.precheck, c.readiness, c.static_validation, c.scenario_assessment, c.condition,
          c.risk_acceptance,
        )
        refl,
)

-- A recommendation may be issued exactly if all the six gates are CURRENT.
pub recommendation_iff :
    (i : GateInputs)
    → (assert_eligibility_for_recommendation (assess_eligibility i) ≡ ok tt) ↔ IsCurrent i
unfolding assess_eligibility
recommendation_iff i =
    let m = as_mapping i in
    let by_codes = recommendable m (scan m) (unknown_blocks m) in
    let by_gates = scan-all_current m in
    (
      (λ h. (all-IsCurrent i).0 (by_gates.0 (by_codes.0 h))),
      λ c. by_codes.1 (by_gates.1 ((all-IsCurrent i).1 c)),
    )

scan_unknown : (m : List (Text × ReviewValidity)) → (scan m).1 ≡ any (λ g. is_unknown g.1) m
unfolding scan
scan_unknown [] = refl
scan_unknown ((g, v) ∷ m) = rw (scan_unknown m) refl

-- The state in terms of the gates alone: INDETERMINATE if one is UNKNOWN; else INELIGIBLE if one
-- is EXPIRED or INVALIDATED, that is, not CURRENT; else ELIGIBLE.
pub assess_eligibility_state :
    (i : GateInputs)
    → (assess_eligibility i).state ≡ (
        if any (λ g. is_unknown g.1) (as_mapping i)
        then indeterminate
        else if all (λ g. is_current g.1) (as_mapping i)
        then eligible
        else ineligible)
unfolding assess_eligibility verdict
assess_eligibility_state i =
    let m = as_mapping i in ground (arith, scan_unknown m, scan-all_current m, unknown_blocks m)
