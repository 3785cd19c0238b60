-- ===== src/Projects/Laws.antt =====
-- The store after `submit` (projects/application/services.py).
use biaice.Common.{
  ℕ, ◌+◌, ◌≡◌, refl, sym, ap, ◌∙◌, Bool, true, false, some, List, [], ◌∷◌, ◌++◌, ◌==◌, ==_refl,
  ==→≡, keep-append, All, All-append, length, arith, if◌then◌else◌, Bool-cases, inl, inr, some_inj,
  subst, ◌⊎◌, Option, none,
}
use mathlib.Core.List.{append-nil}
use biaice.Common.Dict.{lookup, insert, lookup-insert}
use biaice.Core.Errors.{Result, Failure, ok, err, ◌>>◌, >>=-eq-ok, ok_inj}
use biaice.Core.Scope.{IdentityContext}
use biaice.Lifecycle.State.{State, draft}
use biaice.Projects.Store.{
  DecisionUnit, LifecycleEvent, OutboxPort, Store, get_unit, list_lifecycle_events,
}
use biaice.Projects.Service.{
  Submission, new_event, prepare, emit, moved, answered, audited, record_event, submit, stored,
}
use biaice.Projects.Chain.{
  IsConsistent, IsRecorded, IsOwned, IsChain, IsChain-snoc, of_unit, length-list_lifecycle_events,
}
use biaice.Projects.Checks.{get_unit_inv, Records, prepare_inv}

-- One more event of the unit, and one of another unit.
of_unit-own :
    (k : ℕ) (es : List LifecycleEvent) (e : LifecycleEvent)
    → (e.decision_unit_id == k) ≡ true
    → of_unit k (es ++ e ∷ []) ≡ of_unit k es ++ e ∷ []
of_unit-own k es e h = keep-append _ es (e ∷ []) ∙ ap (λ l. of_unit k es ++ l) (rw h)

of_unit-other :
    (k : ℕ) (es : List LifecycleEvent) (e : LifecycleEvent)
    → (e.decision_unit_id == k) ≡ false
    → of_unit k (es ++ e ∷ []) ≡ of_unit k es
of_unit-other k es e h =
    keep-append _ es (e ∷ []) ∙ (ap (λ l. of_unit k es ++ l) (rw h) ∙ append-nil _)

module _ (s : Store) (identity : IdentityContext) (q : Submission) (u : DecisionUnit) (t : State)
    (r : Bool) (valid : IsConsistent s) (found : get_unit identity.scope q.unit_id s ≡ some u) where
  abbrev the_event : LifecycleEvent
  the_event = new_event identity q u (length (list_lifecycle_events identity.scope q.unit_id s)) t r

  recorded : IsRecorded q.unit_id u s.events
  recorded = valid.at q.unit_id u (get_unit_inv identity.scope q.unit_id s found).0

  sequence_lem : the_event.sequence ≡ length (of_unit q.unit_id s.events) + 1
  unfolding new_event
  sequence_lem =
      ap (λ n. n + 1)
        (subst
          (λ k. length (list_lifecycle_events identity.scope k s) ≡ length (of_unit k s.events))
          recorded.id
          (length-list_lifecycle_events identity.scope s u
            (get_unit_inv identity.scope q.unit_id s found).1
            (subst (λ k. All (IsOwned u) (of_unit k s.events)) (sym recorded.id) recorded.owned)))

  same_unit : (the_event.decision_unit_id == q.unit_id) ≡ true
  unfolding new_event
  same_unit = rw recorded.id (==_refl q.unit_id)

  events_own :
      of_unit q.unit_id (s.events ++ the_event ∷ []) ≡ of_unit q.unit_id s.events ++ the_event ∷ []
  events_own = of_unit-own q.unit_id s.events the_event same_unit

  abbrev moved_unit : DecisionUnit
  moved_unit = record u { lifecycle_state = t }

  longer-IsChain : IsChain draft 0 (of_unit q.unit_id s.events ++ the_event ∷ []) t
  unfolding new_event
  longer-IsChain =
      IsChain-snoc draft 0 (of_unit q.unit_id s.events) u.lifecycle_state the_event recorded.chain
        refl (sequence_lem ∙ omega arith)

  All-IsOwned-moved : (es : List LifecycleEvent) → All (IsOwned u) es → All (IsOwned moved_unit) es
  All-IsOwned-moved [] h = tt
  All-IsOwned-moved (e ∷ es) h = (
    record { unit = h.0.unit; tenant = h.0.tenant; domain = h.0.domain; project = h.0.project },
    All-IsOwned-moved es h.1,
  )

  event_IsOwned : IsOwned moved_unit the_event
  unfolding new_event
  event_IsOwned = record { unit = refl; tenant = refl; domain = refl; project = refl }

  own_IsRecorded : IsRecorded q.unit_id moved_unit (s.events ++ the_event ∷ [])
  own_IsRecorded = record {
    id = recorded.id;
    chain = subst (λ es. IsChain draft 0 es t) (sym events_own) longer-IsChain;
    owned = subst (All (IsOwned moved_unit)) (sym events_own) (
        All-append (IsOwned moved_unit) (of_unit q.unit_id s.events) (the_event ∷ [])
          (All-IsOwned-moved _ recorded.owned) (event_IsOwned, tt));
  }

  other_IsRecorded :
      (k : ℕ) (v : DecisionUnit)
      → (u.decision_unit_id == k) ≡ false
      → IsRecorded k v s.events
      → IsRecorded k v (s.events ++ the_event ∷ [])
  unfolding new_event
  other_IsRecorded k v d h =
      let same : of_unit k (s.events ++ the_event ∷ []) ≡ of_unit k s.events =
        of_unit-other k s.events the_event d in
      record {
        id = h.id;
        chain = subst (λ es. IsChain draft 0 es v.lifecycle_state) (sym same) h.chain;
        owned = subst (All (IsOwned v)) (sym same) h.owned;
      }

  record_event-IsRecorded :
      (k : ℕ) (v : DecisionUnit)
      → (if u.decision_unit_id == k then some moved_unit else lookup k s.units) ≡ some v
      → IsRecorded k v (s.events ++ the_event ∷ [])
  record_event-IsRecorded k v e = elim (Bool-cases (u.decision_unit_id == k)) [
    | inl m ↦
        subst (λ j. IsRecorded j v (s.events ++ the_event ∷ []))
          (sym recorded.id ∙ ==→≡ u.decision_unit_id k m)
          (subst (λ w. IsRecorded q.unit_id w (s.events ++ the_event ∷ []))
            (some_inj moved_unit v (rw m at e)) own_IsRecorded)
    | inr d ↦ other_IsRecorded k v d (valid.at k v (rw d at e))
  ]

-- The units and the events of the one store are those of the other.
abbrev SameRepository : Store → Store → Type 0
SameRepository s t = (t.units ≡ s.units) × (t.events ≡ s.events)

-- A call that raised has left the audit trail as it was.
abbrev Unaudited : Store → Result LifecycleEvent × Store → Type 0
Unaudited s r = (f : Failure) → r.0 ≡ err f → r.1.audit ≡ s.audit

-- Whatever the outbox and the audit do, the writes to the repository stay, and a call that raises has
-- written no audit entry.
module _ (u : DecisionUnit) (e : LifecycleEvent) where
  abbrev Follows : Store → Result LifecycleEvent × Store → Type 0
  Follows s r = SameRepository s r.1 × Unaudited s r

  answered-Follows :
      (s after : Store) (w : Result (Unit {0}))
      → SameRepository s after
      → Follows s (answered e s (w >> ok after))
  answered-Follows s after (err f) same = ((refl, refl), λ f h. refl)
  answered-Follows s after (ok t) same = (same, λ f h. cc)

  audited-Follows :
      (m : Store) (r : Result Store)
      → ((t : Store) → r ≡ ok t → SameRepository m t × (t.audit ≡ m.audit))
      → Follows m (audited u e m r)
  audited-Follows m (err f) kept = ((refl, refl), λ f h. refl)
  audited-Follows m (ok t) kept =
      let ((units, events), audit) = kept t refl in
      let ((units', events'), unaudited) =
        answered-Follows t _ (t.audit_writer.write _) (refl, refl) in
      ((units' ∙ units, events' ∙ events), λ f h. unaudited f h ∙ audit)

  emit-eq-ok :
      (m : Store) (port : Option OutboxPort) (t : Store)
      → emit e port m ≡ ok t
      → SameRepository m t × (t.audit ≡ m.audit)
  emit-eq-ok m none t h =
      subst (λ x. SameRepository m x × (x.audit ≡ m.audit)) (ok_inj h) ((refl, refl), refl)
  emit-eq-ok m (some port) t h =
      let a = >>=-eq-ok (port.append _) _ h in
      subst (λ x. SameRepository m x × (x.audit ≡ m.audit)) (ok_inj a.2) ((refl, refl), refl)

  record_event-Follows : (s : Store) → Follows (moved u e s) (record_event u e s)
  unfolding record_event
  record_event-Follows s =
      audited-Follows (moved u e s) (emit e s.outbox_port (moved u e s))
        (emit-eq-ok (moved u e s) s.outbox_port)

  events-record_event : (s : Store) → (record_event u e s).1.events ≡ s.events ++ e ∷ []
  unfolding moved
  events-record_event s = (record_event-Follows s).0.1

  units-record_event :
      (s : Store)
      → (record_event u e s).1.units
        ≡ insert u.decision_unit_id (record u { lifecycle_state = e.to_state }) s.units
  unfolding moved
  units-record_event s = (record_event-Follows s).0.0

  audit-record_event : (s : Store) → Unaudited s (record_event u e s)
  unfolding moved
  audit-record_event s = (record_event-Follows s).1

record_event-IsConsistent :
    (s : Store) (identity : IdentityContext) (q : Submission) (u : DecisionUnit)
    (e : LifecycleEvent)
    → IsConsistent s
    → get_unit identity.scope q.unit_id s ≡ some u
    → Records s identity q u e
    → IsConsistent (record_event u e s).1
unfolding Records
record_event-IsConsistent s identity q u e valid found (resume, t, r, moved, made) =
    subst (λ x. IsConsistent (record_event u x s).1) made (record { at = here })
  where
    x : LifecycleEvent
    x = new_event identity q u (length (list_lifecycle_events identity.scope q.unit_id s)) t r

    to : x.to_state ≡ t
    to = unfold new_event in refl

    here :
        (k : ℕ) (v : DecisionUnit)
        → lookup k (record_event u x s).1.units ≡ some v
        → IsRecorded k v (record_event u x s).1.events
    here k v h = rw (events-record_event u x s) (
        record_event-IsRecorded s identity q u t r valid found k v (
          sym (lookup-insert u.decision_unit_id k (record u { lifecycle_state = t }) s.units)
          ∙ (ap
                (λ y.
                  lookup k (insert u.decision_unit_id (record u { lifecycle_state = y }) s.units))
                (sym to)
              ∙ (ap (lookup k) (sym (units-record_event u x s)) ∙ h))))

stored-IsConsistent :
    (s : Store) (identity : IdentityContext) (q : Submission)
    (r : Result (DecisionUnit × LifecycleEvent))
    → prepare s identity q ≡ r
    → IsConsistent s
    → IsConsistent (stored s r).1
unfolding stored
stored-IsConsistent s identity q (ok (u, e)) h valid =
    let (found, rec) = prepare_inv s identity q h in
    record_event-IsConsistent s identity q u e valid found rec
stored-IsConsistent s identity q (err f) h valid = valid

-- If the events of every unit lead from DRAFT to the unit's state, numbered from 1 without a gap,
-- each from the state where the one before ended and with the unit's own identifiers, then they
-- do so after `submit`, for every unit, whether the call returns or raises.
pub submit-IsConsistent :
    (s : Store) (identity : IdentityContext) (q : Submission)
    → IsConsistent s
    → IsConsistent (submit identity q s).1
unfolding submit
submit-IsConsistent s identity q valid =
    stored-IsConsistent s identity q (prepare s identity q) refl valid

-- The checks have refused the call.
abbrev pub Refused : Store → IdentityContext → Submission → Failure → Store → Type 0
Refused s identity q f after = (prepare s identity q ≡ err f) × (after ≡ s)

-- The checks have passed, and the event and the unit in its new state are in the repository.
abbrev pub Moved : Store → IdentityContext → Submission → Store → Type 0
Moved s identity q after =
    (u : DecisionUnit) × (e : LifecycleEvent) × (prepare s identity q ≡ ok (u, e))
    × (after.events ≡ s.events ++ e ∷ [])
    × (after.units ≡ insert u.decision_unit_id (record u { lifecycle_state = e.to_state }) s.units)

same_failure :
    (p : Result (DecisionUnit × LifecycleEvent)) (a : Result LifecycleEvent) {f g : Failure}
    → a ≡ err g
    → a ≡ err f
    → p ≡ err g
    → p ≡ err f
same_failure p a hg hf h = cc

stored_err :
    (s : Store) (identity : IdentityContext) (q : Submission)
    (r : Result (DecisionUnit × LifecycleEvent)) {f : Failure}
    → prepare s identity q ≡ r
    → (stored s r).0 ≡ err f
    → ((stored s r).1.audit ≡ s.audit)
      × (Refused s identity q f (stored s r).1 ⊎ Moved s identity q (stored s r).1)
unfolding stored
stored_err s identity q (ok (u, e)) p h = (
  audit-record_event u e s _ h,
  inr (u, e, p, events-record_event u e s, units-record_event u e s),
)
stored_err s identity q (err g) p h =
    (refl, inl (same_failure (prepare s identity q) (err g) refl h p, refl))

-- A `submit` that raises has written no audit entry. Either its checks refused the call, and it has
-- written nothing, or they passed, and the event and the unit in its new state stay in the repository.
pub submit_err_unaudited :
    (s : Store) (identity : IdentityContext) (q : Submission) {f : Failure}
    → (submit identity q s).0 ≡ err f
    → ((submit identity q s).1.audit ≡ s.audit)
      × (Refused s identity q f (submit identity q s).1
          ⊎ Moved s identity q (submit identity q s).1)
unfolding submit
submit_err_unaudited s identity q h = stored_err s identity q (prepare s identity q) refl h
