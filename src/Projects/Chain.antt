-- ===== src/Projects/Chain.antt =====
-- When the events of a unit and its present state agree (projects/application/repository.py).
use biaice.Common.{
  ℕ, suc, ◌+◌, ◌≡◌, refl, sym, ap, true, false, some, List, [], ◌∷◌, ◌++◌, ◌==◌, ==_refl, keep, All,
  length, arith, Bool-cases, inl, inr, ◌∙◌,
}
use biaice.Common.Dict.{lookup}
use biaice.Core.Scope.{TenantScope, scope_ok}
use biaice.Lifecycle.State.{State, draft}
use biaice.Projects.Store.{
  DecisionUnit, LifecycleEvent, Store, list_lifecycle_events, sort_by_sequence, insert_by_sequence,
  event_visible,
}

-- The events number on from `n` and lead from `s` to `t`, each from where the one before ended.
abbrev pub IsChain : State → ℕ → List LifecycleEvent → State → Type 0
IsChain s n [] t = s ≡ t
IsChain s n (e ∷ es) t = (e.from_state ≡ s) × (e.sequence ≡ n + 1) × IsChain e.to_state (n + 1) es t

-- The event belongs to the unit, its tenant, its domain and its project.
pub record IsOwned (u : DecisionUnit) (e : LifecycleEvent) : Type 0 where
  pub unit : e.decision_unit_id ≡ u.decision_unit_id
  pub tenant : e.tenant_id ≡ u.tenant_id
  pub domain : e.data_domain_id ≡ u.data_domain_id
  pub project : e.project_id ≡ u.project_id

abbrev pub of_unit : ℕ → List LifecycleEvent → List LifecycleEvent
of_unit k = keep (λ e. e.decision_unit_id == k)

pub record IsRecorded (k : ℕ) (u : DecisionUnit) (es : List LifecycleEvent) : Type 0 where
  pub id : u.decision_unit_id ≡ k
  pub chain : IsChain draft 0 (of_unit k es) u.lifecycle_state
  pub owned : All (IsOwned u) (of_unit k es)

-- Every unit of the store is in the state to which its events lead.
pub record IsConsistent (s : Store) : Type 0 where
  pub at : (k : ℕ) (u : DecisionUnit) → lookup k s.units ≡ some u → IsRecorded k u s.events

pub IsChain-snoc :
    (s : State) (n : ℕ) (es : List LifecycleEvent) (t : State) (e : LifecycleEvent)
    → IsChain s n es t
    → e.from_state ≡ t
    → e.sequence ≡ n + length es + 1
    → IsChain s n (es ++ e ∷ []) e.to_state
IsChain-snoc s n [] t e c f q = (f ∙ sym c, omega arith, refl)
IsChain-snoc s n (x ∷ es) t e c f q =
    (c.0, c.1, IsChain-snoc x.to_state (n + 1) es t e c.2 f (omega arith))

length-insert_by_sequence :
    (e : LifecycleEvent) (es : List LifecycleEvent)
    → length (insert_by_sequence e es) ≡ suc (length es)
unfolding insert_by_sequence
length-insert_by_sequence e [] = refl
length-insert_by_sequence e (x ∷ es) = ground (arith, length-insert_by_sequence e es)

length-sort_by_sequence : (es : List LifecycleEvent) → length (sort_by_sequence es) ≡ length es
unfolding sort_by_sequence
length-sort_by_sequence [] = refl
length-sort_by_sequence (e ∷ es) =
    omega (arith, length-insert_by_sequence e (sort_by_sequence es), length-sort_by_sequence es)

owned-visible :
    (scope : TenantScope) (u : DecisionUnit) (e : LifecycleEvent)
    → scope_ok scope u.tenant_id u.data_domain_id (some u.project_id) (some u.decision_unit_id)
      ≡ true
    → IsOwned u e
    → event_visible scope u.decision_unit_id e ≡ true
unfolding event_visible
owned-visible scope u e v o =
    rw (o.unit, o.tenant, o.domain, o.project, v) (rw (==_refl u.decision_unit_id) refl)

foreign-hidden :
    (scope : TenantScope) (k : ℕ) (e : LifecycleEvent)
    → (e.decision_unit_id == k) ≡ false
    → event_visible scope k e ≡ false
unfolding event_visible
foreign-hidden scope k e d = rw d

-- Whoever may see the unit sees all of its events.
keep-event_visible :
    (scope : TenantScope) (u : DecisionUnit) (es : List LifecycleEvent)
    → scope_ok scope u.tenant_id u.data_domain_id (some u.project_id) (some u.decision_unit_id)
      ≡ true
    → All (IsOwned u) (of_unit u.decision_unit_id es)
    → keep (event_visible scope u.decision_unit_id) es ≡ of_unit u.decision_unit_id es
keep-event_visible scope u [] v o = refl
keep-event_visible scope u (e ∷ es) v o =
    elim (Bool-cases (e.decision_unit_id == u.decision_unit_id)) [
      | inl m ↦
          let o' : IsOwned u e × All (IsOwned u) (of_unit u.decision_unit_id es) = rw m at o in
          rw (owned-visible scope u e v o'.0, m)
            (ap (λ l. e ∷ l) (keep-event_visible scope u es v o'.1))
      | inr d ↦
          let o' : All (IsOwned u) (of_unit u.decision_unit_id es) = rw d at o in
          rw (foreign-hidden scope u.decision_unit_id e d, d) (keep-event_visible scope u es v o')
    ]

pub length-list_lifecycle_events :
    (scope : TenantScope) (s : Store) (u : DecisionUnit)
    → scope_ok scope u.tenant_id u.data_domain_id (some u.project_id) (some u.decision_unit_id)
      ≡ true
    → All (IsOwned u) (of_unit u.decision_unit_id s.events)
    → length (list_lifecycle_events scope u.decision_unit_id s)
      ≡ length (of_unit u.decision_unit_id s.events)
unfolding list_lifecycle_events
length-list_lifecycle_events scope s u v o =
    length-sort_by_sequence _ ∙ ap length (keep-event_visible scope u s.events v o)
