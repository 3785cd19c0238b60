-- ===== src/Projects/Checks.antt =====
-- The checks of `submit`, read backwards (projects/application/services.py).
use biaice.Common.{ℕ, ◌≡◌, ap, ◌∙◌, Bool, true, false, not, Option, some, length, arith, subst}
use biaice.Common.Dict.{lookup}
use biaice.Core.Errors.{ok, ◌>>=◌, raise_if, >>=-eq-ok}
use biaice.Core.Errors.Code.{audit_unavailable}
use biaice.Core.Scope.{IdentityContext, TenantScope, scope_ok}
use biaice.Lifecycle.State.{State}
use biaice.Lifecycle.Transition.{resolve_transition}
use biaice.Projects.Store.{DecisionUnit, LifecycleEvent, Store, get_unit, list_lifecycle_events}
use biaice.Projects.Service.{
  Submission, accept, prepare_for, require_unit, parse_resume, new_event, prepare, falsy,
}

pub get_unit_inv :
    (scope : TenantScope) (k : ℕ) (s : Store) {u : DecisionUnit}
    → get_unit scope k s ≡ some u
    → (lookup k s.units ≡ some u)
      × (scope_ok scope u.tenant_id u.data_domain_id (some u.project_id) (some u.decision_unit_id)
          ≡ true)
unfolding get_unit
get_unit_inv scope k s h = ground arith

pub require_unit_inv :
    (s : Store) (identity : IdentityContext) (k : ℕ) {u : DecisionUnit}
    → require_unit s identity k ≡ ok u
    → get_unit identity.scope k s ≡ some u
unfolding require_unit
require_unit_inv s identity k h = ground arith

pub accept_inv :
    (identity : IdentityContext) (q : Submission) (unit : DecisionUnit) (prior : ℕ) (t : State)
    (r : Bool) {u : DecisionUnit} {e : LifecycleEvent}
    → accept identity q unit prior (t, r) ≡ ok (u, e)
    → (unit ≡ u) × (new_event identity q unit prior t r ≡ e)
unfolding accept
accept_inv identity q unit prior t r h = ground arith

-- The event of a submission that passes its checks records a transition of its unit.
unfoldable pub Records :
    Store → IdentityContext → Submission → DecisionUnit → LifecycleEvent → Type 0
Records s identity q u e =
    (resume : Option State) × (t : State) × (r : Bool) × (resolve_transition u.lifecycle_state
        q.command resume
      ≡ ok (t, r))
    × (new_event identity q u (length (list_lifecycle_events identity.scope q.unit_id s)) t r ≡ e)

pub prepare_for_inv :
    (s : Store) (identity : IdentityContext) (q : Submission) (unit : DecisionUnit)
    {u : DecisionUnit} {e : LifecycleEvent}
    → prepare_for s identity q unit ≡ ok (u, e)
    → (unit ≡ u) × Records s identity q unit e
unfolding prepare_for Records
prepare_for_inv s identity q unit h =
    let rest = λ (t : State × Bool).
      accept identity q unit (length (list_lifecycle_events identity.scope q.unit_id s)) t in
    let (resume, _, h1) =
      >>=-eq-ok (parse_resume q.resume_state)
        (λ resume. resolve_transition unit.lifecycle_state q.command resume >>= rest) h in
    let ((t, r), moved, h2) =
      >>=-eq-ok (resolve_transition unit.lifecycle_state q.command resume) rest h1 in
    let (eu, ee) = accept_inv identity q unit _ t r h2 in (eu, (resume, t, r, moved, ee))

pub prepare_inv :
    (s : Store) (identity : IdentityContext) (q : Submission) {u : DecisionUnit}
    {e : LifecycleEvent}
    → prepare s identity q ≡ ok (u, e)
    → (get_unit identity.scope q.unit_id s ≡ some u) × Records s identity q u e
unfolding prepare
prepare_inv s identity q {u} {e} h =
    let (_, _, h1) =
      >>=-eq-ok (raise_if (not s.audit_writer.available) audit_unavailable)
        (λ _. require_unit s identity q.unit_id >>= prepare_for s identity q) h in
    let (v, found, h2) =
      >>=-eq-ok (require_unit s identity q.unit_id) (prepare_for s identity q) h1 in
    let (ev, rec) = prepare_for_inv s identity q v h2 in
    (
      require_unit_inv s identity q.unit_id (found ∙ ap ok ev),
      subst (λ w. Records s identity q w e) ev rec,
    )

accept_reopened :
    (identity : IdentityContext) (q : Submission) (unit : DecisionUnit) (prior : ℕ) (t : State)
    {p : DecisionUnit × LifecycleEvent}
    → accept identity q unit prior (t, true) ≡ ok p
    → (falsy q.basis ≡ false) × (falsy q.earliest_affected_stage ≡ false)
unfolding accept
accept_reopened identity q unit prior t h = ground arith
