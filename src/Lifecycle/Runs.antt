-- ===== src/Lifecycle/Runs.antt =====
-- Sequences of transition commands to one unit, and the states that it has been in.
use mathlib.Core.List.{Sublistᴰ}
use mathlib.Core.List.Sublistᴰ as SublistD
use biaice.Common.{
  sym, ==→≡, ℕ, zero, suc, ◌+◌, ◌≤◌, ◌≡◌, refl, ◌⊎◌, inl, inr, Bool, true, Option, none, List, [],
  ◌∷◌, Text, ◌==◌, arith, Bool-cases,
}
use biaice.Core.Errors.{Result, ok, err}
use biaice.Lifecycle.State.{State, state_eq→≡, draft}
use biaice.Lifecycle.Transition.Laws.{resolve_transition_inv}
use biaice.Lifecycle.Transition.{resolve_transition}
use biaice.Lifecycle.Gates.{stage, gate, gates_passed, passes_at_most_next, allowed_targets-stage}

pub record Command : Type 0 where
  pub command : Text
  pub resume_state : Option State

-- The states that a unit has been in, the present one first.
pub record History : Type 0 where
  pub current : State
  pub earlier : List State

abbrev pub visited : History → List State
visited h = h.current ∷ h.earlier

abbrev pub new_unit : History
new_unit = record { current = draft; earlier = [] }

-- A command that raises leaves the unit where it is.
abbrev pub moved : History → Result (State × Bool) → History
moved h (ok (t, _)) = record { current = t; earlier = visited h }
moved h (err _) = h

unfoldable pub obey : History → Command → History
obey h c = moved h (resolve_transition h.current c.command c.resume_state)

unfoldable pub run : History → List Command → History
run h [] = h
run h (c ∷ cs) = run (obey h c) cs

passes→step :
    (s t : State)
    → passes_at_most_next s t ≡ true
    → (stage t ≤ stage s) ⊎ ((stage t ≡ stage s + 1) × (t ≡ gate (stage t)))
unfolding passes_at_most_next
passes→step s t h = ground (arith, state_eq→≡ t (gate (stage t)))

-- A transition that names no resume state goes on by one gate at most.
transition-stage :
    (s : State) (command : Text) {t : State} {r : Bool}
    → resolve_transition s command none ≡ ok (t, r)
    → (stage t ≤ stage s) ⊎ ((stage t ≡ stage s + 1) × (t ≡ gate (stage t)))
transition-stage s command {t} h = elim (resolve_transition_inv s command none h) [
  | inl a ↦ passes→step s t (allowed_targets-stage s t a.0)
  | inr b ↦ inl (rw (b.2) (omega arith))
]

-- The gates up to the present stage were passed, in order, and the last one first.
abbrev pub PassedGates : History → Type 0
PassedGates h = Sublistᴰ (gates_passed (stage h.current)) (visited h)

gates_passed-mono : (m n : ℕ) → m ≤ n → Sublistᴰ (gates_passed m) (gates_passed n)
gates_passed-mono m zero le = let e : m ≡ 0 = omega arith in rw e Sublistᴰ.slnil
gates_passed-mono m (suc n) le = elim (Bool-cases (m == suc n)) [
  | inl e ↦ rw (==→≡ m (suc n) e) (SublistD.refl _)
  | inr e ↦ Sublistᴰ.cons (gates_passed-mono m n (ground arith))
]

-- Going to a state that is at most one gate on keeps the gates in order.
passed_step :
    (m n : ℕ) (t : State) (hs : List State)
    → (m ≤ n) ⊎ ((m ≡ n + 1) × (t ≡ gate m))
    → Sublistᴰ (gates_passed n) hs
    → Sublistᴰ (gates_passed m) (t ∷ hs)
passed_step m n t hs (inl le) p = Sublistᴰ.cons (SublistD.trans (gates_passed-mono m n le) p)
passed_step zero n t hs (inr next) p = absurd (omega arith)
passed_step (suc m) n t hs (inr next) p =
    let e : m ≡ n = omega arith in Sublistᴰ.cons-cons (sym next.1) (rw e p)

moved-PassedGates :
    (h : History) (r : Result (State × Bool))
    → ((t : State) (b : Bool)
        → r ≡ ok (t, b)
        → (stage t ≤ stage h.current) ⊎ ((stage t ≡ stage h.current + 1) × (t ≡ gate (stage t))))
    → PassedGates h
    → PassedGates (moved h r)
moved-PassedGates h (ok (t, b)) step p =
    passed_step (stage t) (stage h.current) t (visited h) (step t b refl) p
moved-PassedGates h (err _) step p = p

obey-PassedGates :
    (h : History) (c : Command) → c.resume_state ≡ none → PassedGates h → PassedGates (obey h c)
unfolding obey
obey-PassedGates h c none_given p =
    moved-PassedGates h (resolve_transition h.current c.command c.resume_state)
      (λ t b e. transition-stage h.current c.command (rw none_given at e)) p

-- No command of the list names a state to resume in.
abbrev pub NoResume : List Command → Type 0
NoResume [] = Unit
NoResume (c ∷ cs) = (c.resume_state ≡ none) × NoResume cs

run_from-PassedGates :
    (h : History) (cs : List Command) → NoResume cs → PassedGates h → PassedGates (run h cs)
unfolding run
run_from-PassedGates h [] n p = p
run_from-PassedGates h (c ∷ cs) n p =
    run_from-PassedGates (obey h c) cs n.1 (obey-PassedGates h c n.0 p)

-- A new unit that is sent any commands, none of which names a resume state, has passed every gate
-- up to the stage of its present state, each gate before the next one.
pub run-PassedGates : (cs : List Command) → NoResume cs → PassedGates (run new_unit cs)
run-PassedGates cs n = run_from-PassedGates new_unit cs n (SublistD.nil-sublist _)
