-- ===== src/Documents/Finishing.antt =====
-- The ways in which `complete` of documents/application/services.py can end.
use biaice.Common.{
  ℕ, ◌≡◌, refl, sym, subst, not, ◌&&◌, ◌||◌, Option, none, some, Text, ◌==◌, length, is_empty,
  text_eq,
}
use biaice.Core.Errors.{ok, >>=-eq-ok, raise_if}
use biaice.Core.Scope.{IdentityContext}
use biaice.Documents.Model.{
  UploadSession, UploadSessionStatus, active, completed, cancelled, expired, SourceDocument,
  DocumentStatus, quarantined, scan_passed, scan_failed, under_review, released, archived, deleted,
  DocumentMimeCategory, missing_part_numbers,
}
use biaice.Documents.Intake.{sniff_content}
use biaice.Documents.Scanner.{ClamAvScanResult, scan_bytes, is_scan_infected}
use biaice.Documents.Store.{
  Store, Action, settle-keeps, emit_event, compose_chunks, find_by_content_hash,
}
use biaice.Documents.Upload.{require_active, Externals, find_session}
use biaice.Documents.Completion.{
  completion_result, complete_from, Draws, Completion, complete, complete_effect, check_complete,
  complete_active, take_in, composed, find_document, finish, announced, type_blocked,
  uploaded_document,
}
use biaice.Core.Errors.{ok_inj}

-- The completion of a session in progress takes in the bytes of its parts.
pub complete_active-eq-ok :
    (externals : Externals) (identity : IdentityContext) (i : UploadSession) (draws : Draws)
    (s : Store) {x : Completion}
    → complete_active externals identity i draws s ≡ ok x
    → (payload : Text) × (take_in externals identity i payload draws s ≡ ok x)
unfolding complete_active
complete_active-eq-ok externals identity i draws s h =
    let a = >>=-eq-ok (require_active i.status) _ h in
    let b = >>=-eq-ok (raise_if (not (is_empty (missing_part_numbers i))) _) _ (a.2) in
    let (payload, _, taken) =
      >>=-eq-ok (composed (compose_chunks i.session_id i.total_parts s)) _ (b.2) in
    (payload, taken)

pub take_in-eq-ok :
    (externals : Externals) (identity : IdentityContext) (i : UploadSession) (payload : Text)
    (draws : Draws) (s : Store) {x : Completion}
    → take_in externals identity i payload draws s ≡ ok x
    → (sniffed : Text × DocumentMimeCategory) × (scan : ClamAvScanResult) × (scan_bytes
          externals.daemon payload
        ≡ ok scan)
      × (x
          ≡ finish externals i payload draws
              (find_by_content_hash identity.scope (externals.sha256 payload) s)
              (uploaded_document externals i payload sniffed.0 sniffed.1 scan draws))
unfolding take_in
take_in-eq-ok externals identity i payload draws s h =
    let a =
      >>=-eq-ok
        (raise_if
          (not (length payload == i.file_size_bytes)
            || not (text_eq (externals.sha256 payload) i.declared_sha256))
          _)
        _ h in
    let (sniffed, _, rest) = >>=-eq-ok (sniff_content externals.unzip payload) _ (a.2) in
    let (scan, scanned, decided) = >>=-eq-ok (scan_bytes externals.daemon payload) _ rest in
    let b =
      >>=-eq-ok (raise_if (not (is_scan_infected scan.result) && type_blocked sniffed.1) _) _
        decided in
    (sniffed, scan, scanned, sym (ok_inj b.2))

-- A new document as `complete` makes it, of the session and of the bytes.
abbrev pub Fresh : Externals → UploadSession → Text → Draws → Type 0
Fresh externals i payload draws =
    (d : SourceDocument) × (sniffed : Text) × (mime : DocumentMimeCategory)
    × (scan : ClamAvScanResult) × (scan_bytes externals.daemon payload ≡ ok scan)
    × (d ≡ uploaded_document externals i payload sniffed mime scan draws)

module _ {ℓ} (P : Store → Type ℓ) where
  -- The events on a new document change nothing else.
  pub announced_keeps :
      (identity : IdentityContext) (d : SourceDocument) (t : DocumentStatus) (s : Store)
      → ((action : Action) (object : ℕ) (r : Store)
          → P r
          → P (emit_event action identity.subject_id object r))
      → P s
      → P (announced identity d t s)
  announced_keeps identity d scan_failed s emitted kept = emitted _ _ _ (emitted _ _ s kept)
  announced_keeps identity d scan_passed s emitted kept = emitted _ _ s kept
  announced_keeps identity d quarantined s emitted kept = emitted _ _ s kept
  announced_keeps identity d under_review s emitted kept = emitted _ _ s kept
  announced_keeps identity d released s emitted kept = emitted _ _ s kept
  announced_keeps identity d archived s emitted kept = emitted _ _ s kept
  announced_keeps identity d deleted s emitted kept = emitted _ _ s kept

  -- A completion leaves the store as it is, or stores what `finish` says.
  pub complete_keeps :
      (externals : Externals) (identity : IdentityContext) (id : ℕ) (draws : Draws) (s : Store)
      → P s
      → ((i : UploadSession) (payload : Text)
          → find_session identity id draws.now s ≡ ok i
          → (fresh : Fresh externals i payload draws)
          → P (
              complete_effect identity draws
                (finish externals i payload draws
                  (find_by_content_hash identity.scope (externals.sha256 payload) s)
                  fresh.0)
                s))
      → P (complete externals identity id draws s).1
  unfolding complete check_complete complete_effect
  complete_keeps externals identity id draws s kept finished =
      settle-keeps P completion_result (complete_effect identity draws) s
        (check_complete externals identity id draws s) ended kept
    where
      in_progress :
          (i : UploadSession) (x : Completion)
          → find_session identity id draws.now s ≡ ok i
          → complete_active externals identity i draws s ≡ ok x
          → P (complete_effect identity draws x s)
      in_progress i x found h =
          let (payload, taken) = complete_active-eq-ok externals identity i draws s h in
          let (sniffed, scan, scanned, e) =
            take_in-eq-ok externals identity i payload draws s taken in
          subst (λ y. P (complete_effect identity draws y s)) (sym e)
            (finished i payload found (
              uploaded_document externals i payload sniffed.0 sniffed.1 scan draws,
              sniffed.0,
              sniffed.1,
              scan,
              scanned,
              refl,
            ))

      by_status :
          (i : UploadSession) (x : Completion) (t : UploadSessionStatus) (o : Option ℕ)
          → find_session identity id draws.now s ≡ ok i
          → complete_from externals identity i t o draws s ≡ ok x
          → P (complete_effect identity draws x s)
      by_status i x completed (some document) found h =
          let (d, _, e) = >>=-eq-ok (find_document identity document s) _ h in
          subst (λ y. P (complete_effect identity draws y s)) (ok_inj e) kept
      by_status i x completed none found h = in_progress i x found h
      by_status i x active o found h = in_progress i x found h
      by_status i x cancelled o found h = in_progress i x found h
      by_status i x expired o found h = in_progress i x found h

      ended :
          (x : Completion)
          → check_complete externals identity id draws s ≡ ok x
          → P (complete_effect identity draws x s)
      ended x h =
          let a = >>=-eq-ok (raise_if (not s.audit_available) _) _ h in
          let (i, found, checked) = >>=-eq-ok (find_session identity id draws.now s) _ (a.2) in
          by_status i x i.status i.document_id found checked
