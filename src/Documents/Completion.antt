-- ===== src/Documents/Completion.antt =====
-- The completion of an upload (`complete` of documents/application/services.py): the parts are put
-- together, checked, sniffed and scanned, and the document is stored in quarantine.
use biaice.Common.{
  ℕ, Bool, true, false, not, ◌&&◌, ◌||◌, Option, none, some, ◌++◌, Text, codes, text_eq, ◌==◌,
  length, is_empty, if◌then◌else◌,
}
use biaice.Core.Errors.{key_error, Result, ok, err, ◌>>=◌, ◌>>◌, raise_if, or_raise}
use biaice.Core.Errors.Code.{
  audit_unavailable, resource_not_found, upload_incomplete, upload_hash_mismatch,
  document_type_blocked,
}
use biaice.Core.Scope.{IdentityContext}
use biaice.Documents.Model.{
  UploadSession, UploadSessionStatus, active, completed, cancelled, expired, SourceDocument,
  DocumentStatus, scan_passed, scan_failed, DocumentMimeCategory, unknown, blocked,
  missing_part_numbers,
}
use biaice.Documents.Intake.{sniff_content}
use biaice.Documents.Scanner.{ClamAvScanResult, scan_bytes, is_scan_infected}
use biaice.Documents.Store.{
  Store, Replica, get_document, upsert_session, upsert_document, drop_chunks, compose_chunks,
  find_by_content_hash, put_blob, upsert_replica, write_audit, emit_event, settle,
  document_uploaded, document_quarantined,
}
use biaice.Documents.Upload.{Externals, find_session, require_active}

-- What a completion draws: the instant of the read, the one after the checks, and identifiers.
pub record Draws : Type 0 where
  pub now : ℕ
  pub later : ℕ
  pub new_document_id : ℕ
  pub new_replica_id : ℕ

-- How a completion ends: with the document of an earlier completion, with a document of the same
-- content, or with a new document and its bytes.
pub data Completion : Type 0 where
  already : UploadSession → SourceDocument → Completion
  duplicate : UploadSession → SourceDocument → Completion
  stored : UploadSession → SourceDocument → Text → Completion

-- `get_document` of the service
unfoldable pub find_document : IdentityContext → ℕ → Store → Result SourceDocument
find_document identity id s = or_raise (get_document identity.scope id s) resource_not_found

abbrev pub type_blocked : DocumentMimeCategory → Bool
type_blocked unknown = true
type_blocked blocked = true
type_blocked _ = false

abbrev pub completed_with : UploadSession → Text → ℕ → SourceDocument → ℕ → UploadSession
completed_with i digest size d at = record i {
  status = completed;
  final_sha256 = some digest;
  final_size_bytes = some size;
  quarantine_key = some d.storage_key;
  document_id = some d.document_id;
  mime_category = d.mime_category;
  completed_at = some at;
}

-- The bytes of the parts, or the `KeyError` of a part that is not there.
abbrev pub composed : Option Text → Result Text
composed none = err key_error
composed (some payload) = ok payload

abbrev pub scan_status : ClamAvScanResult → DocumentStatus
scan_status r = if is_scan_infected r.result then scan_failed else scan_passed

module _ (externals : Externals) where
  abbrev storage_key_of : UploadSession → Text
  storage_key_of i =
      codes "quarantine/"
      ++ externals.uuid_text i.tenant_id
      ++ codes "/"
      ++ externals.uuid_text i.session_id
      ++ codes "/"
      ++ i.filename

  unfoldable pub uploaded_document :
      UploadSession → Text → Text → DocumentMimeCategory → ClamAvScanResult → Draws → SourceDocument
  uploaded_document i payload sniffed mime scan draws = record {
    document_id = draws.new_document_id;
    tenant_id = i.tenant_id;
    data_domain_id = i.data_domain_id;
    project_id = i.project_id;
    decision_unit_id = i.decision_unit_id;
    kind = i.kind;
    name = i.filename;
    storage_key = storage_key_of i;
    storage_locator_hash = externals.sha256 (storage_key_of i);
    size_bytes = length payload;
    content_hash = externals.sha256 payload;
    declared_content_type = i.content_type;
    sniffed_content_type = sniffed;
    mime_category = mime;
    scan_result = scan.result;
    scan_signature_version = some scan.signature_version;
    status = scan_status scan;
    quarantined_at = some draws.later;
    scan_completed_at = some draws.later;
    released_at = none;
    uploaded_by = i.created_by;
    uploaded_at = draws.later;
    reviewed_by = none;
    reviewed_at = none;
    released_by = none;
    upload_session_id = i.session_id;
    source_filename = some i.filename;
  }

  abbrev pub finish :
      UploadSession → Text → Draws → Option SourceDocument → SourceDocument → Completion
  finish i payload draws (some existing) fresh =
      duplicate (completed_with i (externals.sha256 payload) (length payload) existing draws.later)
        existing
  finish i payload draws none fresh =
      stored (completed_with i (externals.sha256 payload) (length payload) fresh draws.later) fresh
        payload

  -- The checks on the bytes, and what the completion ends with.
  unfoldable pub take_in :
      IdentityContext → UploadSession → Text → Draws → Store → Result Completion
  take_in identity i payload draws s = do
    let digest = externals.sha256 payload
    raise_if (not (length payload == i.file_size_bytes) || not (text_eq digest i.declared_sha256))
        upload_hash_mismatch
    sniffed ← sniff_content externals.unzip payload
    scan ← scan_bytes externals.daemon payload
    raise_if (not (is_scan_infected scan.result) && type_blocked sniffed.1) document_type_blocked
    ok (
        finish i payload draws (find_by_content_hash identity.scope digest s)
          (uploaded_document i payload sniffed.0 sniffed.1 scan draws))

  unfoldable pub complete_active :
      IdentityContext → UploadSession → Draws → Store → Result Completion
  complete_active identity i draws s = do
    require_active i.status
    raise_if (not (is_empty (missing_part_numbers i))) upload_incomplete
    payload ← composed (compose_chunks i.session_id i.total_parts s)
    take_in identity i payload draws s

  abbrev pub complete_from :
      IdentityContext
      → UploadSession
      → UploadSessionStatus
      → Option ℕ
      → Draws
      → Store
      → Result Completion
  complete_from identity i completed (some id) draws s = do
    document ← find_document identity id s
    ok (already i document)
  complete_from identity i completed none draws s = complete_active identity i draws s
  complete_from identity i active id draws s = complete_active identity i draws s
  complete_from identity i cancelled id draws s = complete_active identity i draws s
  complete_from identity i expired id draws s = complete_active identity i draws s

  unfoldable pub check_complete : IdentityContext → ℕ → Draws → Store → Result Completion
  check_complete identity id draws s = do
    raise_if (not s.audit_available) audit_unavailable
    i ← find_session identity id draws.now s
    complete_from identity i i.status i.document_id draws s

abbrev replica_of : SourceDocument → Draws → Replica
replica_of d draws = record {
  replica_id = draws.new_replica_id;
  tenant_id = d.tenant_id;
  data_domain_id = d.data_domain_id;
  object_id = d.document_id;
  locator_hash = d.storage_locator_hash;
}

abbrev pub announced : IdentityContext → SourceDocument → DocumentStatus → Store → Store
announced identity d scan_failed s =
    emit_event document_quarantined identity.subject_id d.document_id
      (emit_event document_uploaded identity.subject_id d.document_id s)
announced identity d _ s = emit_event document_uploaded identity.subject_id d.document_id s

unfoldable pub complete_effect : IdentityContext → Draws → Completion → Store → Store
complete_effect identity draws (already i d) s = s
complete_effect identity draws (duplicate i d) s = drop_chunks i.session_id (upsert_session i s)
complete_effect identity draws (stored i d payload) s = announced identity d d.status (
    write_audit document_uploaded identity.subject_id d.document_id (
      upsert_replica (replica_of d draws) (
        drop_chunks i.session_id
          (upsert_session i (upsert_document d (put_blob d.storage_key payload s))))))

abbrev pub completion_result : Completion → UploadSession × SourceDocument
completion_result (already i d) = (i, d)
completion_result (duplicate i d) = (i, d)
completion_result (stored i d payload) = (i, d)

unfoldable pub complete :
    Externals
    → IdentityContext
    → ℕ
    → Draws
    → Store
    → Result (UploadSession × SourceDocument) × Store
complete externals identity id draws s =
    settle completion_result (complete_effect identity draws) s
      (check_complete externals identity id draws s)
