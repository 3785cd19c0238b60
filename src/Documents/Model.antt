-- ===== src/Documents/Model.antt =====
-- The models of the document intake (modules/documents/domain/models.py). Instants are numbers.
use biaice.Common.{
  ℕ, ◌+◌, Bool, true, false, not, ◌&&◌, ◌||◌, Option, none, some, List, [], ◌∷◌, Text, leb, ltb,
  ◌==◌, all, any, keep, length, is_some, if◌then◌else◌,
}

pub data DocumentKind : Type 0 where
  tender company competitor market : DocumentKind

pub data DocumentStatus : Type 0 where
  quarantined scan_passed scan_failed under_review released archived deleted : DocumentStatus

pub data ScanResult : Type 0 where
  clean infected scan_error : ScanResult

pub data ParseStatus : Type 0 where
  queued running succeeded failed parse_cancelled : ParseStatus

pub data ParseRetryable : Type 0 where
  retry_yes format_unsupported corrupt password_protected manual_entry_required : ParseRetryable

pub data DocumentMimeCategory : Type 0 where
  pdf docx xlsx image archive unknown blocked : DocumentMimeCategory

pub data UploadSessionStatus : Type 0 where
  active completed cancelled expired : UploadSessionStatus

pub record UploadChunkInfo : Type 0 where
  pub part_number : ℕ
  pub offset : ℕ
  pub size_bytes : ℕ
  pub expected_sha256 : Text
  pub received_sha256 : Option Text
  pub received_at : Option ℕ

pub record UploadSession : Type 0 where
  pub session_id : ℕ
  pub tenant_id : ℕ
  pub data_domain_id : ℕ
  pub project_id : Option ℕ
  pub decision_unit_id : Option ℕ
  pub kind : DocumentKind
  pub filename : Text
  pub file_size_bytes : ℕ
  pub content_type : Text
  pub mime_category : DocumentMimeCategory
  pub declared_sha256 : Text
  pub chunk_size_bytes : ℕ
  pub total_parts : ℕ
  pub received_parts : List UploadChunkInfo
  pub status : UploadSessionStatus
  pub final_sha256 : Option Text
  pub final_size_bytes : Option ℕ
  pub quarantine_key : Option Text
  pub document_id : Option ℕ
  pub created_by : ℕ
  pub created_at : ℕ
  pub expires_at : ℕ
  pub completed_at : Option ℕ

-- The details of the scan are left out.
pub record SourceDocument : Type 0 where
  pub document_id : ℕ
  pub tenant_id : ℕ
  pub data_domain_id : ℕ
  pub project_id : Option ℕ
  pub decision_unit_id : Option ℕ
  pub kind : DocumentKind
  pub name : Text
  pub storage_key : Text
  pub storage_locator_hash : Text
  pub size_bytes : ℕ
  pub content_hash : Text
  pub declared_content_type : Text
  pub sniffed_content_type : Text
  pub mime_category : DocumentMimeCategory
  pub scan_result : ScanResult
  pub scan_signature_version : Option Text
  pub status : DocumentStatus
  pub quarantined_at : Option ℕ
  pub scan_completed_at : Option ℕ
  pub released_at : Option ℕ
  pub uploaded_by : ℕ
  pub uploaded_at : ℕ
  pub reviewed_by : Option ℕ
  pub reviewed_at : Option ℕ
  pub released_by : Option ℕ
  pub upload_session_id : ℕ
  pub source_filename : Option Text

-- `stage` and the two texts of a failure are left out.
pub record ParseJob : Type 0 where
  pub job_id : ℕ
  pub tenant_id : ℕ
  pub data_domain_id : ℕ
  pub project_id : Option ℕ
  pub decision_unit_id : Option ℕ
  pub document_id : ℕ
  pub status : ParseStatus
  pub progress_percent : ℕ
  pub retryable : Option ParseRetryable
  pub created_at : ℕ
  pub started_at : Option ℕ
  pub completed_at : Option ℕ
  pub cancelled_at : Option ℕ
  pub attempt : ℕ
  pub max_attempts : ℕ
  pub derived_asset_ids : List ℕ
  pub created_by : ℕ

-- `released_requires_clean_scan`: what pydantic asks of a document that it builds. A copy with
-- changed fields (`model_copy`) is not asked.
abbrev pub is_scan_clean : ScanResult → Bool
is_scan_clean clean = true
is_scan_clean _ = false

abbrev pub other_than : Option ℕ → ℕ → Bool
other_than none k = false
other_than (some a) k = not (a == k)

abbrev pub valid_as : DocumentStatus → SourceDocument → Bool
valid_as released d =
    is_scan_clean d.scan_result && (is_some d.released_at && other_than d.released_by d.uploaded_by)
valid_as _ d = true

unfoldable pub document_valid : SourceDocument → Bool
document_valid d = valid_as d.status d

-- `effective_upload_session`
abbrev pub expire : UploadSessionStatus → ℕ → UploadSession → UploadSession
expire active now i = if leb i.expires_at now then record i { status = expired } else i
expire completed now i = i
expire cancelled now i = i
expire expired now i = i

unfoldable pub effective_upload_session : UploadSession → ℕ → UploadSession
effective_upload_session i now = expire i.status now i

-- The part is among the received ones.
unfoldable pub has_part : List UploadChunkInfo → ℕ → Bool
has_part parts n = any (λ (p : UploadChunkInfo). p.part_number == n) parts

-- `range(first, first + count)`
unfoldable pub range_from : ℕ → ℕ → List ℕ
range_from first ℕ.zero = []
range_from first (ℕ.suc count) = first ∷ range_from (first + 1) count

unfoldable pub missing_part_numbers : UploadSession → List ℕ
missing_part_numbers i = keep (λ n. not (has_part i.received_parts n)) (range_from 1 i.total_parts)

pub data UploadNextAction : Type 0 where
  upload_chunk complete_upload no_action : UploadNextAction

abbrev next_if : UploadSessionStatus → List ℕ → UploadNextAction
next_if active [] = complete_upload
next_if active (_ ∷ _) = upload_chunk
next_if completed missing = no_action
next_if cancelled missing = no_action
next_if expired missing = no_action

unfoldable pub next_upload_action : UploadSession → UploadNextAction
next_upload_action i = next_if i.status (missing_part_numbers i)

-- `downloadable_statuses()` and `parsable_statuses()`
abbrev pub is_downloadable : DocumentStatus → Bool
is_downloadable scan_passed = true
is_downloadable under_review = true
is_downloadable released = true
is_downloadable _ = false

abbrev pub is_hex : ℕ → Bool
is_hex c = (leb 48 c && leb c 57) || (leb 97 c && leb c 102)

-- `^[a-f0-9]{64}$`
abbrev pub is_sha256 : Text → Bool
is_sha256 t = all is_hex t && length t == 64

-- Whether pydantic accepts the session.
unfoldable pub session_valid : UploadSession → Bool
session_valid i =
    leb 1 (length i.filename)
    && (leb (length i.filename) 500
        && (ltb 0 i.file_size_bytes
            && (leb (length i.content_type) 100
                && (is_sha256 i.declared_sha256
                    && (ltb 0 i.chunk_size_bytes
                        && (leb 1 i.total_parts
                            && (is_some i.project_id || is_some i.decision_unit_id)))))))

-- The kind, the names, the hashes and the size of an asset are left out.
pub record DerivedAsset : Type 0 where
  pub asset_id : ℕ
  pub tenant_id : ℕ
  pub data_domain_id : ℕ
  pub source_document_id : ℕ
  pub parse_job_id : Option ℕ
  pub storage_key : Text
  pub created_at : ℕ

pub data DocumentLinkRelation : Type 0 where
  inherited override : DocumentLinkRelation

pub data DocumentLinkConflictState : Type 0 where
  no_conflict conflict_open resolved : DocumentLinkConflictState

pub record DocumentLink : Type 0 where
  pub link_id : ℕ
  pub tenant_id : ℕ
  pub data_domain_id : ℕ
  pub source_document_id : ℕ
  pub project_id : Option ℕ
  pub decision_unit_id : ℕ
  pub relation : DocumentLinkRelation
  pub priority : ℕ
  pub conflict_state : DocumentLinkConflictState
  pub confirmation_reason : Option Text
  pub confirmed_by : Option ℕ
  pub created_by : ℕ
  pub created_at : ℕ
  pub detached_at : Option ℕ
