-- ===== src/Lifecycle/Tests.antt =====
-- Runs of the lifecycle at fixed inputs, and the theorems at inputs that meet their hypotheses.
use biaice.Common.{◌≡◌, refl, ◌↔◌, true, false, none, [], ◌∷◌, codes, text_eq, strip, upper, arith}
use biaice.Core.Errors.{ok, err, stable}
use biaice.Core.Errors.Code.{request_validation_failed}
use biaice.Lifecycle.State.{
  draft, documents_parsing, submission_authorized, computing, contains, state_eq,
}
use biaice.Lifecycle.Value.{value}
use biaice.Lifecycle.Transition.{resolve_transition, token_of, parse_state, allowed_targets}
use biaice.Lifecycle.Names.{resolve_transition_iff}
use biaice.Lifecycle.Runs.{obey, run, new_unit, PassedGates, run-PassedGates}
use biaice.Lifecycle.Closing.{order, jump_to, jump_skips_gates}

draft_advances :
    resolve_transition draft (codes " documents_parsing ") none ≡ ok (documents_parsing, false)
unfolding resolve_transition token_of strip upper text_eq parse_state contains state_eq
    allowed_targets
draft_advances = refl

draft_does_not_close :
    resolve_transition draft (codes "CLOSED") none ≡ err (stable request_validation_failed)
unfolding resolve_transition token_of strip upper text_eq parse_state contains state_eq
    allowed_targets
draft_does_not_close = refl

resolve_transition_iff_example :
    (resolve_transition draft (codes " documents_parsing ") none ≡ ok (documents_parsing, false))
    ↔ ((token_of (codes " documents_parsing ") ≡ value documents_parsing)
        × (contains (allowed_targets draft) documents_parsing ≡ true))
resolve_transition_iff_example =
    resolve_transition_iff draft documents_parsing (codes " documents_parsing ") none

run-PassedGates_example : PassedGates (
    run new_unit (
      order (codes "REWORK")
      ∷ order (codes "STRATEGY_READINESS_PENDING")
      ∷ order (codes "STRATEGY_READY")
      ∷ order (codes "COMPUTING")
      ∷ []))
run-PassedGates_example =
    run-PassedGates
      (order (codes "REWORK")
        ∷ order (codes "STRATEGY_READINESS_PENDING")
        ∷ order (codes "STRATEGY_READY")
        ∷ order (codes "COMPUTING")
        ∷ [])
      (refl, (refl, (refl, (refl, tt))))

run_computes :
    (run new_unit (
      order (codes "REWORK")
      ∷ order (codes "STRATEGY_READINESS_PENDING")
      ∷ order (codes "STRATEGY_READY")
      ∷ order (codes "COMPUTING")
      ∷ [])).current
    ≡ computing
unfolding run obey resolve_transition token_of strip upper text_eq parse_state contains state_eq
    allowed_targets
run_computes = refl

jump_skips_gates_example :
    ((run new_unit (jump_to submission_authorized)).current ≡ submission_authorized)
    × ¬ (PassedGates (run new_unit (jump_to submission_authorized)))
unfolding contains state_eq
jump_skips_gates_example = jump_skips_gates submission_authorized refl (omega arith)
