-- ===== src/Lifecycle/Closing.antt =====
-- Commands that close and archive a unit, and commands that reopen it (projects/domain/lifecycle.py).
use mathlib.Core.List.{Sublistᴰ}
use biaice.Common.{
  ℕ, zero, suc, ◌<◌, ◌≡◌, refl, Bool, true, false, not, ◌&&◌, none, some, List, [], ◌∷◌, Text,
  text_eq, codes, if◌then◌else◌, arith, strip, upper,
}
use biaice.Core.Errors.{ok}
use biaice.Lifecycle.State.{
  State, state_eq, state_eq→≡, contains, every, every_sound, draft, archived, closed, cancelled,
}
use biaice.Lifecycle.Tables.{terminal_states, closable, reopen_from}
use biaice.Lifecycle.Transition.{resolve_transition, token_of, parse_state, allowed_targets}
use biaice.Lifecycle.Gates.{stage, gate, gates_passed, all-gate}
use biaice.Lifecycle.Runs.{Command, History, new_unit, obey, run, PassedGates}

abbrev pub order : Text → Command
order c = record { command = c; resume_state = none }

-- The commands that archive a unit in the given state.
abbrev pub archiving_commands : State → List Command
archiving_commands s =
    if state_eq s archived
    then []
    else if state_eq s closed
    then order (codes "ARCHIVED") ∷ []
    else if contains closable s
    then order (codes "CLOSED") ∷ order (codes "ARCHIVED") ∷ []
    else order (codes "CANCELLED") ∷ order (codes "CLOSED") ∷ order (codes "ARCHIVED") ∷ []

-- A history that says nothing of the past.
abbrev pub in_state : State → History
in_state s = record { current = s; earlier = [] }

archiving_checked :
    every (λ s. state_eq (run (in_state s) (archiving_commands s)).current archived) ≡ true
unfolding every run obey resolve_transition token_of strip upper text_eq parse_state contains
    state_eq allowed_targets
archiving_checked = refl

-- From every state its archiving commands, CANCELLED, CLOSED and ARCHIVED as needed, lead to ARCHIVED.
pub archiving_commands-archive :
    (s : State) → (run (in_state s) (archiving_commands s)).current ≡ archived
archiving_commands-archive s = state_eq→≡ _ _ (
    every_sound (λ x. state_eq (run (in_state x) (archiving_commands x)).current archived)
      archiving_checked s)

abbrev pub reopen_command : State → Command
reopen_command t = record { command = codes "REOPENED"; resume_state = some t }

reopen_token : token_of (codes "REOPENED") ≡ codes "REOPENED"
unfolding token_of strip upper
reopen_token = refl

reopen_text : text_eq (codes "REOPENED") (codes "REOPENED") ≡ true
unfolding text_eq
reopen_text = refl

reopen_ok :
    (s t : State)
    → contains reopen_from s ≡ true
    → contains terminal_states t ≡ false
    → resolve_transition s (codes "REOPENED") (some t) ≡ ok (t, true)
unfolding resolve_transition
reopen_ok s t a b = rw (reopen_token, reopen_text, a, b)

cancel_draft :
    obey new_unit (order (codes "CANCELLED")) ≡ record { current = cancelled; earlier = draft ∷ [] }
unfolding obey resolve_transition token_of strip upper text_eq parse_state contains state_eq
    allowed_targets
cancel_draft = refl

-- A unit that was cancelled as a draft and then reopened with a resume state.
abbrev pub jump_to : State → List Command
jump_to t = order (codes "CANCELLED") ∷ reopen_command t ∷ []

reopen_cancelled :
    (t : State)
    → contains terminal_states t ≡ false
    → obey (record { current = cancelled; earlier = draft ∷ [] }) (reopen_command t)
      ≡ record { current = t; earlier = cancelled ∷ draft ∷ [] }
unfolding obey contains state_eq
reopen_cancelled t h = rw (reopen_ok cancelled t refl h)

jump_lem :
    (t : State)
    → contains terminal_states t ≡ false
    → run new_unit (jump_to t) ≡ record { current = t; earlier = cancelled ∷ draft ∷ [] }
unfolding run
jump_lem t h = rw cancel_draft (reopen_cancelled t h)

-- Neither the first nor the second state of such a history is a gate.
not_early : State → Bool
not_early g = not (state_eq g draft) && not (state_eq g cancelled)

gates_not_early : (n : ℕ) → not_early (gate n) ≡ true
unfolding not_early state_eq
gates_not_early n = all-gate not_early refl refl n

not_in_early :
    {g : State} {gs : List State}
    → not_early g ≡ true
    → Sublistᴰ (g ∷ gs) (cancelled ∷ draft ∷ [])
    → ⊥
unfolding not_early state_eq
not_in_early h (Sublistᴰ.cons (Sublistᴰ.cons s)) = elim s [ ]
not_in_early h (Sublistᴰ.cons (Sublistᴰ.cons-cons e s)) = cc (rw e at h)
not_in_early h (Sublistᴰ.cons-cons e s) = cc (rw e at h)

two_gates :
    {f g t : State} {gs : List State}
    → not_early f ≡ true
    → not_early g ≡ true
    → Sublistᴰ (f ∷ g ∷ gs) (t ∷ cancelled ∷ draft ∷ [])
    → ⊥
two_gates hf hg (Sublistᴰ.cons s) = not_in_early hf s
two_gates hf hg (Sublistᴰ.cons-cons e s) = not_in_early hg s

skips_gates :
    (n : ℕ) (t : State) → 1 < n → Sublistᴰ (gates_passed n) (t ∷ cancelled ∷ draft ∷ []) → ⊥
skips_gates zero t h p = absurd (omega arith)
skips_gates (suc zero) t h p = absurd (omega arith)
skips_gates (suc (suc n)) t h p =
    two_gates (gates_not_early (suc (suc n))) (gates_not_early (suc n)) p

-- A new unit that is cancelled and then reopened, with a resume state that is not terminal and lies
-- beyond the first gate, is in that state and has not passed the gates up to it.
pub jump_skips_gates :
    (t : State)
    → contains terminal_states t ≡ false
    → 1 < stage t
    → ((run new_unit (jump_to t)).current ≡ t) × ¬ (PassedGates (run new_unit (jump_to t)))
jump_skips_gates t h far = rw (jump_lem t h) (refl, skips_gates (stage t) t far)
