-- ===== src/Lifecycle/Names.antt =====
-- The names of the states as commands.
use biaice.Common.{
  ◌≡◌, refl, Bool, true, false, Option, none, some, List, [], ◌∷◌, Text, text_eq, text_eq→≡,
  Bool-cases, ◌&&◌, not, ap, &&_split, inl, inr, ◌↔◌, some_inj, sym, subst,
}
use biaice.Lifecycle.State.{State, contains, all_states, every, every_sound, state_eq, state_eq→≡}
use biaice.Lifecycle.Value.{value}
use biaice.Core.Errors.{ok}
use biaice.Lifecycle.Transition.Laws.{resolve_transition_inv}
use biaice.Lifecycle.Transition.{
  parse_state, token_of, find_value, advance, allowed_targets, resolve_transition, reopened_event,
}

is_parsed : Option State → State → Bool
is_parsed none s = false
is_parsed (some t) s = state_eq t s

-- The value of each member is read as that member, and is not the REOPENED command.
name_checked : State → Bool
name_checked s = is_parsed (parse_state (value s)) s && not (text_eq (value s) reopened_event)

names_checked : every name_checked ≡ true
unfolding every name_checked text_eq is_parsed parse_state state_eq
names_checked = refl

is_parsed-eq : (o : Option State) (s : State) → is_parsed o s ≡ true → o ≡ some s
unfolding is_parsed
is_parsed-eq none s h = cc
is_parsed-eq (some t) s h = ap some (state_eq→≡ t s h)

pub parse_state-value : (s : State) → parse_state (value s) ≡ some s
unfolding name_checked
parse_state-value s =
    is_parsed-eq (parse_state (value s)) s
      (&&_split _ _ (every_sound name_checked names_checked s)).0

not-true : (b : Bool) → not b ≡ true → b ≡ false
not-true true h = cc
not-true false h = refl

value-ne-reopened : (s : State) → text_eq (value s) reopened_event ≡ false
unfolding name_checked
value-ne-reopened s =
    not-true (text_eq (value s) reopened_event)
      (&&_split _ _ (every_sound name_checked names_checked s)).1

find_value_sound : (ss : List State) (t : Text) {s : State} → find_value ss t ≡ some s → value s ≡ t
unfolding find_value
find_value_sound [] t h = cc
find_value_sound (x ∷ ss) t {s} h = elim (Bool-cases (text_eq (value x) t)) [
  | inl e ↦
      subst (λ y. value y ≡ t) (some_inj x s (rw (e, find_value) at h)) (text_eq→≡ (value x) t e)
  | inr e ↦ find_value_sound ss t (rw (e, find_value) at h)
]

pub parse_state_sound : (t : Text) {s : State} → parse_state t ≡ some s → value s ≡ t
unfolding parse_state
parse_state_sound t h = find_value_sound all_states t h

advance_ok :
    (s : State) (t : State)
    → contains (allowed_targets s) t ≡ true
    → advance s (value t) ≡ ok (t, false)
unfolding advance
advance_ok s t c = rw (parse_state-value t, c)

-- A command moves a unit to a state, as an ordinary transition, exactly when the command, without
-- the space around it and in upper case, is the value of that state, and the tables allow it.
pub resolve_transition_iff :
    (s t : State) (command : Text) (resume : Option State)
    → (resolve_transition s command resume ≡ ok (t, false))
      ↔ ((token_of command ≡ value t) × (contains (allowed_targets s) t ≡ true))
unfolding resolve_transition
resolve_transition_iff s t command resume = (
  λ h. elim (resolve_transition_inv s command resume h) [
    | inl a ↦ (sym (parse_state_sound _ a.1), a.0)
    | inr b ↦ cc
  ],
  λ h. rw (h.0, value-ne-reopened t) (advance_ok s t h.1),
)
