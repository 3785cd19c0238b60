-- ===== src/Projects/Store.antt =====
-- The decision units, their lifecycle events and the in-memory repository
-- (projects/domain/models.py and projects/application/repository.py). The repository's lock is not
-- modelled: each of its methods is one step.
use biaice.Common.{
  ℕ, Bool, ◌&&◌, Option, none, some, List, [], ◌∷◌, ◌++◌, Text, ◌==◌, leb, keep, if◌then◌else◌,
}
use biaice.Common.Dict.{Dict, lookup, insert}
use biaice.Core.Errors.{Result}
use biaice.Core.Scope.{TenantScope, scope_ok}
use biaice.Lifecycle.State.{State}

-- The fields of `DecisionUnit` that the lifecycle reads or writes.
pub record DecisionUnit : Type 0 where
  pub decision_unit_id : ℕ
  pub project_id : ℕ
  pub tenant_id : ℕ
  pub data_domain_id : ℕ
  pub lifecycle_state : State
  pub version_id : ℕ

pub record LifecycleEvent : Type 0 where
  pub event_id : ℕ
  pub decision_unit_id : ℕ
  pub tenant_id : ℕ
  pub data_domain_id : ℕ
  pub project_id : ℕ
  pub sequence : ℕ
  pub command : Text
  pub from_state : State
  pub to_state : State
  pub reopened : Bool
  pub reason : Text
  pub basis : Option Text
  pub earliest_affected_stage : Option Text
  pub actor_id : ℕ
  pub occurred_at : ℕ
  pub request_id : Text

-- What `_emit_event` puts into the outbox and what the audit writer is told.
pub record OutboxEvent : Type 0 where
  pub reopened : Bool
  pub aggregate_id : ℕ
  pub from_state : State
  pub to_state : State
  pub command : Text

pub record AuditEntry : Type 0 where
  pub actor_id : ℕ
  pub object_id : ℕ
  pub reason_code : Text
  pub outcome : State
  pub object_version_id : ℕ

-- The port of the outbox and the writer of the audit: what they are told is added to their lists, or
-- they raise.
pub record OutboxPort : Type 0 where
  pub append : OutboxEvent → Result (Unit {0})

pub record AuditWriter : Type 0 where
  pub available : Bool
  pub write : AuditEntry → Result (Unit {0})

-- The repository with the outbox and the audit trail; the outbox port may be None.
pub record Store : Type 0 where
  pub units : Dict DecisionUnit
  pub events : List LifecycleEvent
  pub outbox : List OutboxEvent
  pub audit : List AuditEntry
  pub outbox_port : Option OutboxPort
  pub audit_writer : AuditWriter

visible_unit : TenantScope → Option DecisionUnit → Option DecisionUnit
visible_unit scope none = none
visible_unit scope (some u) =
    if scope_ok scope u.tenant_id u.data_domain_id (some u.project_id) (some u.decision_unit_id)
    then some u
    else none

unfoldable pub get_unit : TenantScope → ℕ → Store → Option DecisionUnit
unfolding visible_unit
get_unit scope unit_id s = visible_unit scope (lookup unit_id s.units)

unfoldable pub upsert_unit : DecisionUnit → Store → Store
upsert_unit u s = record s { units = insert u.decision_unit_id u s.units }

unfoldable pub append_lifecycle_event : LifecycleEvent → Store → Store
append_lifecycle_event e s = record s { events = s.events ++ e ∷ [] }

-- Insertion keeps `list.sort` stable: an event goes behind those with its sequence number.
unfoldable pub insert_by_sequence : LifecycleEvent → List LifecycleEvent → List LifecycleEvent
insert_by_sequence e [] = e ∷ []
insert_by_sequence e (x ∷ xs) =
    if leb e.sequence x.sequence then e ∷ x ∷ xs else x ∷ insert_by_sequence e xs

unfoldable pub sort_by_sequence : List LifecycleEvent → List LifecycleEvent
sort_by_sequence [] = []
sort_by_sequence (e ∷ es) = insert_by_sequence e (sort_by_sequence es)

unfoldable pub event_visible : TenantScope → ℕ → LifecycleEvent → Bool
event_visible scope unit_id e =
    e.decision_unit_id == unit_id
    && scope_ok scope e.tenant_id e.data_domain_id (some e.project_id) (some e.decision_unit_id)

unfoldable pub list_lifecycle_events : TenantScope → ℕ → Store → List LifecycleEvent
list_lifecycle_events scope unit_id s =
    sort_by_sequence (keep (event_visible scope unit_id) s.events)
