-- ===== src/Lifecycle/Transition.antt =====
-- `allowed_targets` and `resolve_transition` of projects/domain/lifecycle.py.
pub mod Laws
use biaice.Common.{
  Bool, true, false, not, Option, none, some, List, [], ◌∷◌, ◌++◌, Text, codes, text_eq, strip,
  upper, if◌then◌else◌,
}
use biaice.Core.Errors.{Result, ok, ◌>>=◌, ◌>>◌, raise_if, or_raise}
use biaice.Core.Errors.Code.{request_validation_failed}
use biaice.Lifecycle.State.{
  State, all_states, state_eq, contains, closed, archived, rework, regime_and_scope_pending,
}
use biaice.Lifecycle.Value.{value}
use biaice.Lifecycle.Tables.{terminal_states, spine, branches, early_exit, reopen_from, closable}

-- The member after `state` in a tuple, if `state` stands in it and is not the last.
successor_in : List State → State → Option State
successor_in [] s = none
successor_in (x ∷ []) s = none
successor_in (x ∷ y ∷ r) s = if state_eq x s then some y else successor_in (y ∷ r) s

unfoldable pub spine_successor : State → Option State
unfolding successor_in state_eq
spine_successor s = successor_in spine s

abbrev option_list : Option State → List State
option_list none = []
option_list (some s) = s ∷ []

-- A Python set of states is the list of its members; only membership is used.
unfoldable pub allowed_targets : State → List State
unfolding spine_successor contains
allowed_targets current =
    branches current
    ++ (option_list (spine_successor current)
        ++ ((if contains terminal_states current then [] else early_exit ++ rework ∷ [])
            ++ ((if contains closable current then closed ∷ [] else [])
                ++ (if state_eq current closed then archived ∷ [] else []))))

abbrev pub reopened_event : Text
reopened_event = codes "REOPENED"

abbrev pub default_reopen_state : State
default_reopen_state = regime_and_scope_pending

unfoldable pub find_value : List State → Text → Option State
find_value [] t = none
find_value (s ∷ r) t = if text_eq (value s) t then some s else find_value r t

-- `DecisionUnitLifecycleState(token)`, `none` for its ValueError
unfoldable pub parse_state : Text → Option State
unfolding find_value
parse_state t = find_value all_states t

abbrev pub or_default : Option State → State
or_default none = default_reopen_state
or_default (some s) = s

-- The branch of `resolve_transition` for the REOPENED command.
unfoldable pub reopen : State → Option State → Result (State × Bool)
reopen current resume_state = do
  raise_if (not (contains reopen_from current)) request_validation_failed
  raise_if (contains terminal_states (or_default resume_state)) request_validation_failed
  ok (or_default resume_state, true)

-- The branch of `resolve_transition` for a command that names a state.
unfoldable pub advance : State → Text → Result (State × Bool)
advance current token = do
  target ← or_raise (parse_state token) request_validation_failed
  raise_if (not (contains (allowed_targets current) target)) request_validation_failed
  ok (target, false)

-- `command.strip().upper()`
unfoldable pub token_of : Text → Text
token_of command = upper (strip command)

unfoldable pub resolve_transition : State → Text → Option State → Result (State × Bool)
unfolding reopen advance
resolve_transition current command resume_state =
    if text_eq (token_of command) reopened_event
    then reopen current resume_state
    else advance current (token_of command)
