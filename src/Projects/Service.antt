-- ===== src/Projects/Service.antt =====
-- `LifecycleService.submit` of projects/application/services.py.
use biaice.Common.{
  ℕ, ◌+◌, Bool, true, not, ◌&&◌, ◌||◌, Option, none, some, [], ◌∷◌, ◌++◌, Text, leb, length,
  is_empty, if◌then◌else◌,
}
use biaice.Core.Errors.{
  value_error, validation_error, Result, ok, err, ◌>>=◌, ◌>>◌, raise_if, or_raise,
}
use biaice.Core.Errors.Code.{audit_unavailable, resource_not_found, request_validation_failed}
use biaice.Core.Scope.{IdentityContext, assert_allows}
use biaice.Lifecycle.State.{State}
use biaice.Lifecycle.Transition.{resolve_transition, parse_state, token_of}
use biaice.Projects.Store.{
  DecisionUnit, LifecycleEvent, OutboxEvent, OutboxPort, AuditEntry, Store, get_unit, upsert_unit,
  append_lifecycle_event, list_lifecycle_events,
}

-- The arguments of `submit`, and the new identifier and the time that the call draws.
pub record Submission : Type 0 where
  pub unit_id : ℕ
  pub command : Text
  pub reason : Text
  pub basis : Option Text
  pub earliest_affected_stage : Option Text
  pub resume_state : Option Text
  pub request_id : Text
  pub new_event_id : ℕ
  pub now : ℕ

-- `require_unit`
unfoldable pub require_unit : Store → IdentityContext → ℕ → Result DecisionUnit
require_unit s identity unit_id = do
  assert_allows identity.scope identity.scope.tenant_id identity.scope.data_domain_id none
      (some unit_id)
  or_raise (get_unit identity.scope unit_id s) resource_not_found

-- `not text` for a text that may be None
abbrev pub falsy : Option Text → Bool
falsy none = true
falsy (some t) = is_empty t

or_value_error : Option State → Result (Option State)
or_value_error none = err value_error
or_value_error (some s) = ok (some s)

-- `DecisionUnitLifecycleState(resume_state)` if a resume state is given; the ValueError is not caught.
unfoldable pub parse_resume : Option Text → Result (Option State)
unfolding or_value_error
parse_resume none = ok none
parse_resume (some t) = if is_empty t then ok none else or_value_error (parse_state t)

abbrev within : ℕ → ℕ → Text → Bool
within lo hi t = leb lo (length t) && leb (length t) hi

abbrev within_opt : ℕ → Option Text → Bool
within_opt hi none = true
within_opt hi (some t) = leb (length t) hi

-- The field constraints of `DecisionUnitLifecycleEvent`.
unfoldable pub event_valid : LifecycleEvent → Bool
event_valid e =
    leb 1 e.sequence
    && (within 1 80 e.command
        && (within 1 2000 e.reason
            && (within_opt 2000 e.basis && within_opt 80 e.earliest_affected_stage)))

unfoldable pub new_event :
    IdentityContext → Submission → DecisionUnit → ℕ → State → Bool → LifecycleEvent
new_event identity q unit prior next_state reopened = record {
  event_id = q.new_event_id;
  decision_unit_id = unit.decision_unit_id;
  tenant_id = unit.tenant_id;
  data_domain_id = unit.data_domain_id;
  project_id = unit.project_id;
  sequence = prior + 1;
  command = token_of q.command;
  from_state = unit.lifecycle_state;
  to_state = next_state;
  reopened = reopened;
  reason = q.reason;
  basis = q.basis;
  earliest_affected_stage = q.earliest_affected_stage;
  actor_id = identity.subject_id;
  occurred_at = q.now;
  request_id = q.request_id;
}

-- The rest of the checks once the transition is known: a reopening has a basis and a stage.
unfoldable pub accept :
    IdentityContext
    → Submission
    → DecisionUnit
    → ℕ
    → State × Bool
    → Result (DecisionUnit × LifecycleEvent)
accept identity q unit prior (next_state, reopened) = do
  raise_if (reopened && (falsy q.basis || falsy q.earliest_affected_stage))
      request_validation_failed
  let event = new_event identity q unit prior next_state reopened
  if event_valid event then ok (unit, event) else err validation_error

unfoldable pub prepare_for :
    Store → IdentityContext → Submission → DecisionUnit → Result (DecisionUnit × LifecycleEvent)
prepare_for s identity q unit = do
  resume ← parse_resume q.resume_state
  transition ← resolve_transition unit.lifecycle_state q.command resume
  accept identity q unit (length (list_lifecycle_events identity.scope q.unit_id s)) transition

-- The checks of `submit`, up to the construction of the event.
unfoldable pub prepare :
    Store → IdentityContext → Submission → Result (DecisionUnit × LifecycleEvent)
prepare s identity q = do
  raise_if (not s.audit_writer.available) audit_unavailable
  unit ← require_unit s identity q.unit_id
  prepare_for s identity q unit

abbrev outbox_event : LifecycleEvent → OutboxEvent
outbox_event e = record {
  reopened = e.reopened;
  aggregate_id = e.decision_unit_id;
  from_state = e.from_state;
  to_state = e.to_state;
  command = e.command;
}

-- `_emit_event`
abbrev pub emit : LifecycleEvent → Option OutboxPort → Store → Result Store
emit e none s = ok s
emit e (some port) s = do
  port.append (outbox_event e)
  ok (record s { outbox = s.outbox ++ outbox_event e ∷ [] })

abbrev audit_entry : DecisionUnit → LifecycleEvent → AuditEntry
audit_entry u e = record {
  actor_id = e.actor_id;
  object_id = e.event_id;
  reason_code = e.command;
  outcome = e.to_state;
  object_version_id = u.version_id;
}

abbrev pub write_audit : DecisionUnit → LifecycleEvent → Store → Result Store
write_audit u e s = do
  s.audit_writer.write (audit_entry u e)
  ok (record s { audit = s.audit ++ audit_entry u e ∷ [] })

-- The event is stored, and the unit in its new state.
unfoldable pub moved : DecisionUnit → LifecycleEvent → Store → Store
unfolding upsert_unit append_lifecycle_event
moved u e s = upsert_unit (record u { lifecycle_state = e.to_state }) (append_lifecycle_event e s)

-- What follows on a call that has returned, or has raised and left the store as it was before.
abbrev pub answered : LifecycleEvent → Store → Result Store → Result LifecycleEvent × Store
answered e before (err f) = (err f, before)
answered e before (ok after) = (ok e, after)

abbrev pub audited :
    DecisionUnit → LifecycleEvent → Store → Result Store → Result LifecycleEvent × Store
audited u e before (err f) = (err f, before)
audited u e before (ok after) = answered e after (write_audit u e after)

-- The writes of `submit`. Nothing undoes the first ones where the outbox or the audit raises.
unfoldable pub record_event : DecisionUnit → LifecycleEvent → Store → Result LifecycleEvent × Store
record_event u e s = audited u e (moved u e s) (emit e s.outbox_port (moved u e s))

unfoldable pub stored :
    Store → Result (DecisionUnit × LifecycleEvent) → Result LifecycleEvent × Store
stored s (ok (u, e)) = record_event u e s
stored s (err f) = (err f, s)

unfoldable pub submit : IdentityContext → Submission → Store → Result LifecycleEvent × Store
unfolding stored
submit identity q s = stored s (prepare s identity q)
