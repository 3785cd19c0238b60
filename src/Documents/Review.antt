-- ===== src/Documents/Review.antt =====
-- The review of a stored document (documents/application/services.py): it is reviewed, released by a
-- second person, put back in quarantine, and its bytes are read.
use biaice.Common.{ℕ, Bool, true, false, not, none, some, Text, ◌==◌}
use biaice.Core.Errors.{stable, Result, ok, err, ◌>>=◌, ◌>>◌, raise_if, or_raise}
use biaice.Core.Errors.Code.{
  audit_unavailable, resource_not_found, document_scan_failed, document_not_reviewable,
  document_already_released, document_not_releasable, document_not_downloadable,
  maker_checker_required,
}
use biaice.Core.Scope.{IdentityContext}
use biaice.Documents.Model.{
  SourceDocument, DocumentStatus, quarantined, scan_passed, scan_failed, under_review, released,
  archived, deleted, is_downloadable,
}
use biaice.Documents.Completion.{find_document}
use biaice.Documents.Store.{
  Store, upsert_document, get_blob, write_audit, emit_event, settle, review_started,
  document_released, document_quarantined,
}

abbrev pub require_scan_passed : DocumentStatus → Result (Unit {0})
require_scan_passed scan_passed = ok tt
require_scan_passed scan_failed = err (stable document_scan_failed)
require_scan_passed _ = err (stable document_not_reviewable)

unfoldable pub check_review : IdentityContext → ℕ → ℕ → Store → Result SourceDocument
check_review identity id now s = do
  raise_if (not s.audit_available) audit_unavailable
  d ← find_document identity id s
  require_scan_passed d.status
  ok (record d {
    status = under_review;
    reviewed_by = some identity.subject_id;
    reviewed_at = some now;
  })

abbrev pub review_saved : IdentityContext → SourceDocument → Store → Store
review_saved identity d s =
    write_audit review_started identity.subject_id d.document_id (upsert_document d s)

unfoldable pub review : IdentityContext → ℕ → ℕ → Store → Result SourceDocument × Store
review identity id now s =
    settle (λ d. d) (review_saved identity) s (check_review identity id now s)

abbrev pub require_under_review : DocumentStatus → Result (Unit {0})
require_under_review under_review = ok tt
require_under_review released = err (stable document_already_released)
require_under_review scan_failed = err (stable document_scan_failed)
require_under_review _ = err (stable document_not_releasable)

abbrev pub released_by_other : IdentityContext → ℕ → SourceDocument → Result SourceDocument
released_by_other identity now d = do
  require_under_review d.status
  raise_if (identity.subject_id == d.uploaded_by) maker_checker_required
  ok (record d {
    status = released;
    released_by = some identity.subject_id;
    released_at = some now;
  })

unfoldable pub check_release : IdentityContext → ℕ → ℕ → Store → Result SourceDocument
check_release identity id now s = do
  raise_if (not s.audit_available) audit_unavailable
  d ← find_document identity id s
  released_by_other identity now d

abbrev pub release_saved : IdentityContext → SourceDocument → Store → Store
release_saved identity d s =
    emit_event document_released identity.subject_id d.document_id
      (write_audit document_released identity.subject_id d.document_id (upsert_document d s))

unfoldable pub release : IdentityContext → ℕ → ℕ → Store → Result SourceDocument × Store
release identity id now s =
    settle (λ d. d) (release_saved identity) s (check_release identity id now s)

-- `some` document is to be put back; one in quarantine is returned as it is.
abbrev pub quarantinable : SourceDocument → DocumentStatus → ℕ → Result (SourceDocument × Bool)
quarantinable d quarantined now = ok (d, false)
quarantinable d scan_failed now = err (stable document_not_releasable)
quarantinable d archived now = err (stable document_not_releasable)
quarantinable d deleted now = err (stable document_not_releasable)
quarantinable d _ now = ok (
  record d {
    status = quarantined;
    quarantined_at = some now;
    released_at = none;
    released_by = none;
  },
  true,
)

unfoldable pub check_quarantine : IdentityContext → ℕ → ℕ → Store → Result (SourceDocument × Bool)
check_quarantine identity id now s = do
  raise_if (not s.audit_available) audit_unavailable
  d ← find_document identity id s
  quarantinable d d.status now

abbrev pub quarantine_saved : IdentityContext → SourceDocument × Bool → Store → Store
quarantine_saved identity (d, false) s = s
quarantine_saved identity (d, true) s =
    emit_event document_quarantined identity.subject_id d.document_id
      (write_audit document_quarantined identity.subject_id d.document_id (upsert_document d s))

unfoldable pub quarantine : IdentityContext → ℕ → ℕ → Store → Result SourceDocument × Store
quarantine identity id now s =
    settle (λ (x : SourceDocument × Bool). x.0) (quarantine_saved identity) s
      (check_quarantine identity id now s)

unfoldable pub download : IdentityContext → ℕ → Store → Result (SourceDocument × Text)
download identity id s = do
  d ← find_document identity id s
  raise_if (not (is_downloadable d.status)) document_not_downloadable
  payload ← or_raise (get_blob d.storage_key s) resource_not_found
  ok (d, payload)
