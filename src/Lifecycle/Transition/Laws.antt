-- ===== src/Lifecycle/Transition/Laws.antt =====
-- Successful transitions, and those of terminal and archived units (projects/domain/lifecycle.py).
use biaice.Common.{
  ◌≡◌, refl, ◌⊎◌, inl, inr, Bool, true, false, not, ◌&&◌, ◌||◌, Option, some, List, [], ◌∷◌, Text,
  text_eq, arith, Bool-cases, all,
}
use biaice.Core.Errors.{ok, err, stable}
use biaice.Core.Errors.Code.{request_validation_failed}
use biaice.Lifecycle.State.{
  State, contains, every, every_sound, state_eq, state_eq→≡, archived, closed,
}
use biaice.Lifecycle.Tables.{terminal_states, reopen_from}
use biaice.Lifecycle.Transition.{
  resolve_transition, allowed_targets, reopen, advance, token_of, reopened_event, parse_state,
  or_default,
}

pub advance_inv :
    (s : State) (token : Text) {t : State} {r : Bool}
    → advance s token ≡ ok (t, r)
    → (contains (allowed_targets s) t ≡ true) × (parse_state token ≡ some t) × (r ≡ false)
unfolding advance
advance_inv s token h = ground arith

pub reopen_inv :
    (s : State) (resume : Option State) {t : State} {r : Bool}
    → reopen s resume ≡ ok (t, r)
    → (contains reopen_from s ≡ true)
      × (contains terminal_states t ≡ false)
      × (t ≡ or_default resume)
      × (r ≡ true)
unfolding reopen
reopen_inv s resume h = ground arith

-- A transition that succeeds was an ordinary one to an allowed state, or a reopening.
pub resolve_transition_inv :
    (s : State) (command : Text) (resume : Option State) {t : State} {r : Bool}
    → resolve_transition s command resume ≡ ok (t, r)
    → (contains (allowed_targets s) t ≡ true)
        × (parse_state (token_of command) ≡ some t)
        × (r ≡ false)
      ⊎ (contains reopen_from s ≡ true)
        × (contains terminal_states t ≡ false)
        × (t ≡ or_default resume)
        × (r ≡ true)
unfolding resolve_transition
resolve_transition_inv s command resume h =
    elim (Bool-cases (text_eq (token_of command) reopened_event)) [
      | inl e ↦ inr (reopen_inv s resume (rw e at h))
      | inr e ↦ inl (advance_inv s (token_of command) (rw e at h))
    ]

-- The states that an ordinary command reaches from a terminal one.
only_closing : State → Bool
only_closing s =
    not (contains terminal_states s)
    || all
        (λ t.
          (state_eq t closed && not (state_eq s closed))
          || (state_eq t archived && state_eq s closed))
        (allowed_targets s)

terminal_states_checked : every only_closing ≡ true
unfolding every only_closing allowed_targets
terminal_states_checked = refl

closing_target :
    (s : State) (ts : List State) (t : State)
    → all
        (λ x.
          (state_eq x closed && not (state_eq s closed))
          || (state_eq x archived && state_eq s closed))
        ts
      ≡ true
    → contains ts t ≡ true
    → (t ≡ closed) ⊎ ((t ≡ archived) × (s ≡ closed))
unfolding contains
closing_target s [] t h c = cc
closing_target s (x ∷ ts) t h c = ground (
  arith,
  state_eq→≡ x t,
  state_eq→≡ x closed,
  state_eq→≡ x archived,
  state_eq→≡ s closed,
  closing_target s ts t,
)

-- The targets that a terminal state allows are CLOSED and, from CLOSED, ARCHIVED.
pub terminal_target :
    (s t : State)
    → contains terminal_states s ≡ true
    → contains (allowed_targets s) t ≡ true
    → (t ≡ closed) ⊎ ((t ≡ archived) × (s ≡ closed))
unfolding only_closing
terminal_target s t h c =
    closing_target s (allowed_targets s) t (ground (arith, every_sound _ terminal_states_checked s))
      c

no_targets_archived : allowed_targets archived ≡ []
unfolding allowed_targets
no_targets_archived = refl

-- Every command to an archived unit raises REQUEST_VALIDATION_FAILED, REOPENED included.
pub archived_absorbs :
    (command : Text) (resume : Option State)
    → resolve_transition archived command resume ≡ err (stable request_validation_failed)
unfolding resolve_transition contains state_eq
archived_absorbs command resume = ground (arith, no_targets_archived)
