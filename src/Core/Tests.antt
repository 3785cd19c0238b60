-- ===== src/Core/Tests.antt =====
-- The gates and the audit chain at fixed inputs, and the theorems about them.
use mathlib.Core.List.{Memᴰ}
use biaice.Common.{
  ◌≡◌, refl, ◌↔◌, ◌⊎◌, true, false, Option, none, some, List, [], ◌∷◌, Text, codes, text_eq,
  is_empty,
}
use biaice.Core.Errors.{ok}
use biaice.Core.Scope.{IdentityContext}
use biaice.Core.Gates.{
  GateName, GateEvidence, GateAssessment, real_data_mode, byok_secret_gate, pass, current,
  evidence_pass, required_evidence, build_machine_assessment, is_pass_current, current_or_missing,
  current_assessment, require, require_if, assert_startup_allowed,
}
use biaice.Core.Gates.Laws.{IsProven, IsOpen, build_machine_assessment_pass, require_iff}
use biaice.Core.Audit.{
  Unsigned, AuditEvent, AuditSink, AuditRequest, genesis_hash, or_genesis, list_events, latest_hash,
  write, verify_from, verify_hash_chain,
}
use biaice.Core.Audit.Chain.{IsVerified, write-IsVerified}
use biaice.Core.Audit.Tampering.{Collision, verified_chain_unique}

abbrev same_text : Text → Text
same_text t = t

abbrev no_text : List GateEvidence → Text
no_text es = []

abbrev evidence : List GateEvidence
evidence =
    record {
      evidence_key = codes "security_scans";
      status = evidence_pass;
      checked_at = 1;
      checker = codes "scanner";
      evidence_hash = codes "0f";
      expires_at = 9;
    }
    ∷ []

build_machine_assessment_pass_example :
    ((build_machine_assessment same_text no_text real_data_mode evidence
        (codes "security")
        5
        20
        1).status
      ≡ pass)
    ↔ ((key : Text) → Memᴰ key (required_evidence real_data_mode) → IsProven evidence 5 key)
build_machine_assessment_pass_example =
    build_machine_assessment_pass same_text no_text real_data_mode evidence (codes "security") 5 20
      1

abbrev passed : GateAssessment
passed = record {
  assessment_id = 1;
  gate_name = real_data_mode;
  status = pass;
  validity = current;
  assessed_at = 5;
  expires_at = 20;
  responsible_party = codes "security";
  evidence = [];
  evidence_hash = [];
  reason_codes = [];
}

abbrev provider : GateName → Option GateAssessment
provider real_data_mode = some passed
provider byok_secret_gate = none

require_iff_example :
    (require [] provider 10 11 real_data_mode ≡ ok passed)
    ↔ IsOpen [] provider 10 11 real_data_mode passed
require_iff_example = require_iff [] provider 10 11 real_data_mode passed

startup : assert_startup_allowed [] provider true false 10 11 ≡ ok tt
unfolding assert_startup_allowed require_if require current_assessment current_or_missing
    is_pass_current
startup = refl

abbrev digest : Unsigned → Text
digest u = u.audit_id ∷ u.previous_hash

digest_full : (u : Unsigned) → is_empty (digest u) ≡ false
digest_full u = refl

abbrev identity : IdentityContext
identity = record {
  subject_id = 9;
  scope = record {
    tenant_id = 1;
    data_domain_id = 2;
    project_ids = [];
    decision_unit_ids = [];
    all_projects = true;
    all_decision_units = true;
  };
}

abbrev request : AuditRequest
request = record {
  actor_roles = codes "AUDITOR" ∷ [];
  action = codes "read";
  object_type = codes "project";
  object_id = 7;
  object_version_id = none;
  request_id = codes "r";
  reason_code = codes "REVIEW";
  outcome = codes "SUCCEEDED";
  now = 30;
  new_id = 40;
}

abbrev empty_sink : AuditSink
empty_sink = record { events = []; available = true }

empty_sink-IsVerified : IsVerified digest empty_sink
unfolding IsVerified verify_hash_chain verify_from list_events latest_hash or_genesis
empty_sink-IsVerified scope = refl

write-IsVerified_example : IsVerified digest (write digest identity request empty_sink).1
write-IsVerified_example =
    write-IsVerified digest digest_full identity request empty_sink empty_sink-IsVerified

abbrev event : AuditEvent
event = record {
  unsigned = record {
    audit_id = 40;
    tenant_id = 1;
    data_domain_id = 2;
    actor_id = 9;
    actor_roles = [];
    action = [];
    object_type = [];
    object_id = 7;
    object_version_id = none;
    request_id = [];
    reason_code = [];
    outcome = [];
    trusted_at = 30;
    previous_hash = unfold genesis_hash in genesis_hash;
  };
  event_hash = 40 ∷ unfold genesis_hash in genesis_hash;
}

event_verifies : verify_hash_chain digest (event ∷ []) ≡ ok event.event_hash
unfolding verify_hash_chain verify_from genesis_hash text_eq
event_verifies = refl

verified_chain_unique_example : (event ∷ [] ≡ event ∷ []) ⊎ Collision digest
verified_chain_unique_example =
    verified_chain_unique digest (event ∷ []) (event ∷ []) event.event_hash event_verifies
      event_verifies refl
