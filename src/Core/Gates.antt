-- ===== src/Core/Gates.antt =====
-- The machine-verified security gates (core/security/gates.py): the assessment of the evidence for
-- REAL_DATA_MODE and BYOK_SECRET_GATE, and the guard that requires a gate.
pub mod Laws
use biaice.Common.{
  ℕ, Bool, true, false, not, ◌&&◌, ◌||◌, Option, none, some, List, [], ◌∷◌, ◌++◌, map, Text, codes,
  text_eq, ltb, leb, text_ltb, keep, is_empty, is_some, if◌then◌else◌,
}
use biaice.Core.Errors.{Result, ok, err, stable, ◌>>=◌, ◌>>◌, raise_if}
use biaice.Core.Errors.Code.{ErrorCode, real_data_mode_required, byok_secret_gate_required}

pub data GateName : Type 0 where
  real_data_mode byok_secret_gate : GateName

pub data GateStatus : Type 0 where
  pass fail unknown : GateStatus

pub data GateValidity : Type 0 where
  current stale : GateValidity

pub data EvidenceStatus : Type 0 where
  evidence_pass evidence_fail evidence_unknown : EvidenceStatus

pub record GateEvidence : Type 0 where
  pub evidence_key : Text
  pub status : EvidenceStatus
  pub checked_at : ℕ
  pub checker : Text
  pub evidence_hash : Text
  pub expires_at : ℕ

-- The waiver policy is PROHIBITED in every assessment of these gates.
pub record GateAssessment : Type 0 where
  pub assessment_id : ℕ
  pub gate_name : GateName
  pub status : GateStatus
  pub validity : GateValidity
  pub assessed_at : ℕ
  pub expires_at : ℕ
  pub responsible_party : Text
  pub evidence : List GateEvidence
  pub evidence_hash : Text
  pub reason_codes : List Text

-- The two sets of required evidence, in the order of `sorted`.
unfoldable pub required_evidence : GateName → List Text
required_evidence real_data_mode =
    codes "all_storage_scope_isolation"
    ∷ codes "append_only_audit_integrity"
    ∷ codes "backup_and_recovery_drills"
    ∷ codes "default_deny_egress"
    ∷ codes "encryption_and_key_separation"
    ∷ codes "frozen_load_profile_and_evidence"
    ∷ codes "least_privilege_dual_control"
    ∷ codes "processing_basis_incident_privacy"
    ∷ codes "retention_deletion_tombstone_restore"
    ∷ codes "secure_file_ingestion"
    ∷ codes "security_scans"
    ∷ codes "trusted_tls_oidc_mfa"
    ∷ []
required_evidence byok_secret_gate =
    codes "catalog_egress_network_controls"
    ∷ codes "openbao_secure_approles_audit"
    ∷ codes "secret_non_disclosure_scans_restore"
    ∷ codes "secret_scope_isolation"
    ∷ codes "signed_current_assessment"
    ∷ codes "trusted_https_reauth_mfa_csrf"
    ∷ []

-- `supplied.get(key)`: of two items with the key, the later one.
unfoldable pub supplied_from : Option GateEvidence → List GateEvidence → Text → Option GateEvidence
supplied_from found [] key = found
supplied_from found (e ∷ es) key =
    supplied_from (if text_eq e.evidence_key key then some e else found) es key

unfoldable pub supplied : List GateEvidence → Text → Option GateEvidence
unfolding supplied_from
supplied es key = supplied_from none es key

abbrev is_fail : EvidenceStatus → Bool
is_fail evidence_fail = true
is_fail _ = false

abbrev is_unknown : EvidenceStatus → Bool
is_unknown evidence_unknown = true
is_unknown _ = false

abbrev pub is_missing : Option GateEvidence → Bool
is_missing none = true
is_missing (some e) = false

abbrev pub is_failed : Option GateEvidence → Bool
is_failed none = false
is_failed (some e) = is_fail e.status

abbrev pub is_undecided : Option GateEvidence → Bool
is_undecided none = false
is_undecided (some e) = is_unknown e.status

abbrev pub is_expired : ℕ → Option GateEvidence → Bool
is_expired assessed_at none = false
is_expired assessed_at (some e) = leb e.expires_at assessed_at

-- The required keys whose supplied evidence passes the test.
abbrev pub keys_where : (Option GateEvidence → Bool) → List GateEvidence → List Text → List Text
keys_where test evidence required = keep (λ key. test (supplied evidence key)) required

unfoldable pub status_of : List Text → List Text → List Text → List Text → GateStatus
status_of missing failed undecided expired =
    if not (is_empty failed)
    then fail
    else if not (is_empty missing) || (not (is_empty undecided) || not (is_empty expired))
    then unknown
    else pass

unfoldable pub reasons_of : List Text → List Text → List Text → List Text → List Text
reasons_of missing failed undecided expired =
    map (λ key. codes "MISSING:" ++ key) missing
    ++ (map (λ key. codes "FAILED:" ++ key) failed
        ++ (map (λ key. codes "UNKNOWN:" ++ key) undecided
            ++ map (λ key. codes "EXPIRED:" ++ key) expired))

-- `sorted(evidence, key=lambda item: item.evidence_key)`
unfoldable pub insert_by_key : GateEvidence → List GateEvidence → List GateEvidence
insert_by_key e [] = e ∷ []
insert_by_key e (x ∷ xs) =
    if text_ltb x.evidence_key e.evidence_key then x ∷ insert_by_key e xs else e ∷ x ∷ xs

unfoldable pub sort_by_key : List GateEvidence → List GateEvidence
unfolding insert_by_key
sort_by_key [] = []
sort_by_key (e ∷ es) = insert_by_key e (sort_by_key es)

-- The JSON text of the evidence and its hash are Python's; the identifier is drawn by the caller.
module _ (sha256 : Text → Text) (canonical : List GateEvidence → Text) where
  unfoldable pub build_machine_assessment :
      GateName → List GateEvidence → Text → ℕ → ℕ → ℕ → GateAssessment
  build_machine_assessment gate evidence responsible assessed_at expires_at new_id =
      let required = required_evidence gate in
      let missing = keys_where is_missing evidence required in
      let failed = keys_where is_failed evidence required in
      let undecided = keys_where is_undecided evidence required in
      let expired = keys_where (is_expired assessed_at) evidence required in
      record {
        assessment_id = new_id;
        gate_name = gate;
        status = status_of missing failed undecided expired;
        validity = if ltb assessed_at expires_at then current else stale;
        assessed_at = assessed_at;
        expires_at = expires_at;
        responsible_party = responsible;
        evidence = evidence;
        evidence_hash = sha256 (canonical (sort_by_key evidence));
        reason_codes = reasons_of missing failed undecided expired;
      }

abbrev is_pass : GateStatus → Bool
is_pass pass = true
is_pass _ = false

abbrev is_current : GateValidity → Bool
is_current current = true
is_current stale = false

unfoldable pub is_pass_current : ℕ → GateAssessment → Bool
is_pass_current now a = is_pass a.status && (is_current a.validity && ltb now a.expires_at)

-- The assessment that stands for a missing one. `empty_hash` is the hash of no bytes.
unfoldable pub missing_assessment : Text → ℕ → GateName → GateAssessment
missing_assessment empty_hash now gate = record {
  assessment_id = 0;
  gate_name = gate;
  status = unknown;
  validity = stale;
  assessed_at = now;
  expires_at = now;
  responsible_party = codes "UNASSIGNED";
  evidence = [];
  evidence_hash = empty_hash;
  reason_codes = codes "MACHINE_ASSESSMENT_MISSING" ∷ [];
}

abbrev gate_code : GateName → ErrorCode
gate_code real_data_mode = real_data_mode_required
gate_code byok_secret_gate = byok_secret_gate_required

-- `GateService` over its provider of assessments. A call reads the clock at `now` for `current`,
-- and at `later` for `is_pass_current`.
module _ (empty_hash : Text) (provider : GateName → Option GateAssessment) where
  unfoldable pub current_or_missing : ℕ → GateName → Option GateAssessment → GateAssessment
  current_or_missing now gate none = missing_assessment empty_hash now gate
  current_or_missing now gate (some a) =
      if leb a.expires_at now && is_current a.validity then record a { validity = stale } else a

  unfoldable pub current_assessment : ℕ → GateName → GateAssessment
  unfolding current_or_missing
  current_assessment now gate = current_or_missing now gate (provider gate)

  unfoldable pub require : ℕ → ℕ → GateName → Result GateAssessment
  require now later gate =
      let a = current_assessment now gate in
      if is_pass_current later a then ok a else err (stable (gate_code gate))

  unfoldable pub require_if : Bool → ℕ → ℕ → GateName → Result (Unit {0})
  require_if false now later gate = ok tt
  require_if true now later gate = require now later gate >>= λ a. ok tt

  -- The settings are the two switches of the deployment.
  unfoldable pub assert_startup_allowed : Bool → Bool → ℕ → ℕ → Result (Unit {0})
  assert_startup_allowed real_data_mode_requested byok_enabled now later = do
    require_if real_data_mode_requested now later real_data_mode
    require_if byok_enabled now later byok_secret_gate
