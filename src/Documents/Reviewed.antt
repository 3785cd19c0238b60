-- ===== src/Documents/Reviewed.antt =====
-- The steps of a review (documents/application/services.py) keep the stored documents sound.
use biaice.Common.{ℕ, ◌≡◌, ◌≢◌, refl, subst, Bool, true, not, none, some, ◌==◌}
use biaice.Core.Errors.{ok, >>=-eq-ok, raise_if, raise_if-eq-ok}
use biaice.Core.Scope.{IdentityContext}
use biaice.Documents.Model.{
  SourceDocument, DocumentStatus, quarantined, scan_passed, scan_failed, under_review, released,
  archived, deleted, clean, document_valid,
}
use biaice.Documents.Store.{Store, settle-keeps, write_audit, emit_event}
use biaice.Documents.Completion.{find_document}
use biaice.Documents.Review.{
  require_scan_passed, check_review, review_saved, review, require_under_review, check_release,
  release_saved, release, quarantinable, check_quarantine, quarantine_saved, quarantine,
}
use biaice.Core.Errors.{ok_inj}
use biaice.Documents.Released.{SoundDocuments, SoundDocuments-upsert, find_document-eq-ok}

require_scan_passed-eq-ok :
    (t : DocumentStatus) {u : Unit {0}} → require_scan_passed t ≡ ok u → t ≡ scan_passed
require_scan_passed-eq-ok scan_passed h = refl
require_scan_passed-eq-ok scan_failed h = cc
require_scan_passed-eq-ok quarantined h = cc
require_scan_passed-eq-ok under_review h = cc
require_scan_passed-eq-ok released h = cc
require_scan_passed-eq-ok archived h = cc
require_scan_passed-eq-ok deleted h = cc

require_under_review-eq-ok :
    (t : DocumentStatus) {u : Unit {0}} → require_under_review t ≡ ok u → t ≡ under_review
require_under_review-eq-ok under_review h = refl
require_under_review-eq-ok scan_passed h = cc
require_under_review-eq-ok scan_failed h = cc
require_under_review-eq-ok quarantined h = cc
require_under_review-eq-ok released h = cc
require_under_review-eq-ok archived h = cc
require_under_review-eq-ok deleted h = cc

passed_not_failed : (t : DocumentStatus) → t ≡ scan_passed → t ≢ scan_failed
passed_not_failed t p q = cc

review_not_failed : (t : DocumentStatus) → t ≡ under_review → t ≢ scan_failed
review_not_failed t p q = cc

pub review-SoundDocuments :
    (identity : IdentityContext) (id now : ℕ) (s : Store)
    → SoundDocuments s
    → SoundDocuments (review identity id now s).1
unfolding review check_review write_audit document_valid
review-SoundDocuments identity id now s sound =
    settle-keeps SoundDocuments (λ (d : SourceDocument). d) (review_saved identity) s
      (check_review identity id now s) saved sound
  where
    saved :
        (e : SourceDocument)
        → check_review identity id now s ≡ ok e
        → SoundDocuments (review_saved identity e s)
    saved e h =
        let a = >>=-eq-ok (raise_if (not s.audit_available) _) _ h in
        let (d, found, checked) = >>=-eq-ok (find_document identity id s) _ (a.2) in
        let b = >>=-eq-ok (require_scan_passed d.status) _ checked in
        let passed = require_scan_passed-eq-ok d.status b.1 in
        let (key, scanned, _) = sound id d (find_document-eq-ok identity id s found) in
        subst (λ x. SoundDocuments (review_saved identity x s)) (ok_inj b.2)
          (SoundDocuments-upsert
            (record d {
              status = under_review;
              reviewed_by = some identity.subject_id;
              reviewed_at = some now;
            })
            s (refl, λ _. scanned (passed_not_failed d.status passed), refl) sound)

pub release-SoundDocuments :
    (identity : IdentityContext) (id now : ℕ) (s : Store)
    → SoundDocuments s
    → SoundDocuments (release identity id now s).1
unfolding release check_release write_audit emit_event document_valid
release-SoundDocuments identity id now s sound =
    settle-keeps SoundDocuments (λ (d : SourceDocument). d) (release_saved identity) s
      (check_release identity id now s) saved sound
  where
    saved :
        (e : SourceDocument)
        → check_release identity id now s ≡ ok e
        → SoundDocuments (release_saved identity e s)
    saved e h =
        let a = >>=-eq-ok (raise_if (not s.audit_available) _) _ h in
        let (d, found, checked) = >>=-eq-ok (find_document identity id s) _ (a.2) in
        let b = >>=-eq-ok (require_under_review d.status) _ checked in
        let c = >>=-eq-ok (raise_if (identity.subject_id == d.uploaded_by) _) _ (b.2) in
        let under = require_under_review-eq-ok d.status b.1 in
        let other = raise_if-eq-ok _ _ c.1 in
        let (key, scanned, _) = sound id d (find_document-eq-ok identity id s found) in
        let clean_scan = scanned (review_not_failed d.status under) in
        subst (λ x. SoundDocuments (release_saved identity x s)) (ok_inj c.2)
          (SoundDocuments-upsert
            (record d {
              status = released;
              released_by = some identity.subject_id;
              released_at = some now;
            })
            s (refl, λ _. clean_scan, rw (clean_scan, other) refl) sound)

quarantinable-keeps :
    (identity : IdentityContext) (d : SourceDocument) (t : DocumentStatus) (now : ℕ) (s : Store)
    {x : SourceDocument × Bool}
    → (t ≢ scan_failed → d.scan_result ≡ clean)
    → quarantinable d t now ≡ ok x
    → SoundDocuments s
    → SoundDocuments (quarantine_saved identity x s)
unfolding write_audit emit_event document_valid
quarantinable-keeps identity d t now s {x} scanned h sound = by_status t scanned h
  where
    back :
        d.scan_result ≡ clean
        → SoundDocuments (
            quarantine_saved identity
              (
                record d {
                  status = quarantined;
                  quarantined_at = some now;
                  released_at = none;
                  released_by = none;
                },
                true,
              )
              s)
    back e =
        SoundDocuments-upsert
          (record d {
            status = quarantined;
            quarantined_at = some now;
            released_at = none;
            released_by = none;
          })
          s (refl, λ _. e, refl) sound

    moved :
        ok (
          record d {
            status = quarantined;
            quarantined_at = some now;
            released_at = none;
            released_by = none;
          },
          true,
        )
          ≡ ok x
        → d.scan_result ≡ clean
        → SoundDocuments (quarantine_saved identity x s)
    moved h e = subst (λ y. SoundDocuments (quarantine_saved identity y s)) (ok_inj h) (back e)

    by_status :
        (t : DocumentStatus)
        → (t ≢ scan_failed → d.scan_result ≡ clean)
        → quarantinable d t now ≡ ok x
        → SoundDocuments (quarantine_saved identity x s)
    by_status quarantined scanned h =
        subst (λ y. SoundDocuments (quarantine_saved identity y s)) (ok_inj h) sound
    by_status scan_failed scanned h = cc
    by_status archived scanned h = cc
    by_status deleted scanned h = cc
    by_status scan_passed scanned h = moved h (scanned (λ e. cc))
    by_status under_review scanned h = moved h (scanned (λ e. cc))
    by_status released scanned h = moved h (scanned (λ e. cc))

pub quarantine-SoundDocuments :
    (identity : IdentityContext) (id now : ℕ) (s : Store)
    → SoundDocuments s
    → SoundDocuments (quarantine identity id now s).1
unfolding quarantine check_quarantine
quarantine-SoundDocuments identity id now s sound =
    settle-keeps SoundDocuments (λ (x : SourceDocument × Bool). x.0) (quarantine_saved identity) s
      (check_quarantine identity id now s) saved sound
  where
    saved :
        (x : SourceDocument × Bool)
        → check_quarantine identity id now s ≡ ok x
        → SoundDocuments (quarantine_saved identity x s)
    saved x h =
        let a = >>=-eq-ok (raise_if (not s.audit_available) _) _ h in
        let (d, found, checked) = >>=-eq-ok (find_document identity id s) _ (a.2) in
        quarantinable-keeps identity d d.status now s
          (sound id d (find_document-eq-ok identity id s found)).1 checked sound
