-- ===== src/Core/Audit.antt =====
-- The audit writer with its hash chain (core/audit.py): the append-only sink, the writer, and the
-- verification of a chain.
pub mod Chain
pub mod Tampering
use biaice.Common.{
  ℕ, Bool, true, false, not, ◌&&◌, ◌||◌, Option, none, some, List, [], ◌∷◌, ◌++◌, Text, codes,
  text_eq, ◌==◌, keep, last?, is_empty, if◌then◌else◌,
}
use biaice.Core.Errors.{Failure, Result, ok, err, stable}
use biaice.Core.Errors.Code.{audit_unavailable, audit_integrity_failed}
use biaice.Core.Scope.{TenantScope, IdentityContext}

-- What is hashed: the fields of an event but its own hash.
pub record Unsigned : Type 0 where
  pub audit_id : ℕ
  pub tenant_id : ℕ
  pub data_domain_id : ℕ
  pub actor_id : ℕ
  pub actor_roles : List Text
  pub action : Text
  pub object_type : Text
  pub object_id : ℕ
  pub object_version_id : Option ℕ
  pub request_id : Text
  pub reason_code : Text
  pub outcome : Text
  pub trusted_at : ℕ
  pub previous_hash : Text

pub record AuditEvent : Type 0 where
  pub unsigned : Unsigned
  pub event_hash : Text

-- `InMemoryAppendOnlyAuditSink`
pub record AuditSink : Type 0 where
  pub events : List AuditEvent
  pub available : Bool

-- What the caller of `write` gives, with the identity's roles sorted, the clock's time and the
-- identifier that is drawn.
pub record AuditRequest : Type 0 where
  pub actor_roles : List Text
  pub action : Text
  pub object_type : Text
  pub object_id : ℕ
  pub object_version_id : Option ℕ
  pub request_id : Text
  pub reason_code : Text
  pub outcome : Text
  pub now : ℕ
  pub new_id : ℕ

unfoldable pub in_scope : TenantScope → AuditEvent → Bool
in_scope scope e =
    e.unsigned.tenant_id == scope.tenant_id && e.unsigned.data_domain_id == scope.data_domain_id

unfoldable pub list_events : AuditSink → TenantScope → List AuditEvent
list_events sink scope = keep (in_scope scope) sink.events

abbrev pub hash_of : Option AuditEvent → Option Text
hash_of none = none
hash_of (some e) = some e.event_hash

unfoldable pub latest_hash : AuditSink → TenantScope → Option Text
latest_hash sink scope = hash_of (last? (list_events sink scope))

unfoldable pub append : AuditEvent → AuditSink → Result (Unit {0}) × AuditSink
append e sink =
    if not sink.available
    then (err (stable audit_unavailable), sink)
    else (ok tt, record sink { events = sink.events ++ e ∷ [] })

-- `"0" * 64`
unfoldable pub genesis_hash : Text
genesis_hash = codes "0000000000000000000000000000000000000000000000000000000000000000"

-- `hash or GENESIS_HASH`
unfoldable pub or_genesis : Option Text → Text
or_genesis none = genesis_hash
or_genesis (some h) = if is_empty h then genesis_hash else h

unfoldable pub unsigned_event : IdentityContext → AuditRequest → Text → Unsigned
unsigned_event identity q previous_hash = record {
  audit_id = q.new_id;
  tenant_id = identity.scope.tenant_id;
  data_domain_id = identity.scope.data_domain_id;
  actor_id = identity.subject_id;
  actor_roles = q.actor_roles;
  action = q.action;
  object_type = q.object_type;
  object_id = q.object_id;
  object_version_id = q.object_version_id;
  request_id = q.request_id;
  reason_code = q.reason_code;
  outcome = q.outcome;
  trusted_at = q.now;
  previous_hash = previous_hash;
}

abbrev pub expects : Option (ℕ × ℕ) → AuditEvent → Bool
expects none e = true
expects (some (t, d)) e = e.unsigned.tenant_id == t && e.unsigned.data_domain_id == d

-- The SHA-256 of the canonical JSON text is Python's.
module _ (digest : Unsigned → Text) where
  unfoldable pub signed : IdentityContext → AuditRequest → AuditSink → AuditEvent
  signed identity q sink =
      let u = unsigned_event identity q (or_genesis (latest_hash sink identity.scope)) in
      record { unsigned = u; event_hash = digest u }

  abbrev returning : AuditEvent → Result (Unit {0}) × AuditSink → Result AuditEvent × AuditSink
  returning e (ok u, sink) = (ok e, sink)
  returning e (err f, sink) = (err f, sink)

  unfoldable pub write : IdentityContext → AuditRequest → AuditSink → Result AuditEvent × AuditSink
  unfolding append
  write identity q sink =
      if not sink.available
      then (err (stable audit_unavailable), sink)
      else (let e = signed identity q sink in returning e (append e sink))

  -- The loop of `verify_hash_chain`: the scope of the first event is expected of the others.
  unfoldable pub verify_from : Text → Option (ℕ × ℕ) → List AuditEvent → Result Text
  verify_from previous_hash expected [] = ok previous_hash
  verify_from previous_hash expected (e ∷ es) =
      let rest =
        verify_from e.event_hash (some (e.unsigned.tenant_id, e.unsigned.data_domain_id)) es in
      if not (expects expected e) || not (text_eq e.unsigned.previous_hash previous_hash)
      then err (stable audit_integrity_failed)
      else if not (text_eq (digest e.unsigned) e.event_hash)
      then err (stable audit_integrity_failed)
      else rest

  unfoldable pub verify_hash_chain : List AuditEvent → Result Text
  unfolding verify_from
  verify_hash_chain events = verify_from genesis_hash none events
