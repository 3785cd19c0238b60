-- ===== src/Documents/Released.antt =====
-- What holds of every stored document (documents/application/services.py): it was scanned CLEAN
-- unless it is marked SCAN_FAILED, and it meets the condition of the model on released ones.
use biaice.Common.{ℕ, ◌≡◌, ◌≢◌, refl, sym, subst, true, Option, none, some, Text, arith}
use biaice.Common.Dict.{lookup, Each, Each-insert}
use biaice.Core.Errors.{ok, or_raise-eq-ok}
use biaice.Core.Scope.{TenantScope, IdentityContext}
use biaice.Documents.Model.{
  SourceDocument, scan_failed, ScanResult, clean, infected, scan_error, document_valid, valid_as,
  UploadSession, DocumentMimeCategory,
}
use biaice.Documents.Scanner.{ClamAvScanResult, scan_bytes, scan_bytes-ne-error}
use biaice.Documents.Store.{
  Store, document_shown, get_document, upsert_document, write_audit, emit_event, upsert_session,
  upsert_replica, drop_chunks, put_blob, find_by_content_hash,
}
use biaice.Documents.Upload.{Externals}
use biaice.Documents.Completion.{
  Draws, find_document, scan_status, uploaded_document, finish, complete_effect, announced,
  complete,
}
use biaice.Documents.Finishing.{Fresh, announced_keeps, complete_keeps}

abbrev pub SoundDocument : ℕ → SourceDocument → Type 0
SoundDocument k d =
    (d.document_id ≡ k)
    × (d.status ≢ scan_failed → d.scan_result ≡ clean)
    × (document_valid d ≡ true)

abbrev pub SoundDocuments : Store → Type 0
SoundDocuments s = Each SoundDocument s.documents

document_shown-eq-some :
    (scope : TenantScope) (o : Option SourceDocument) {d : SourceDocument}
    → document_shown scope o ≡ some d
    → o ≡ some d
document_shown-eq-some scope none h = cc
document_shown-eq-some scope (some j) h = ground arith

pub get_document-eq-some :
    (scope : TenantScope) (id : ℕ) (s : Store) {d : SourceDocument}
    → get_document scope id s ≡ some d
    → lookup id s.documents ≡ some d
unfolding get_document
get_document-eq-some scope id s h = document_shown-eq-some scope (lookup id s.documents) h

pub find_document-eq-ok :
    (identity : IdentityContext) (id : ℕ) (s : Store) {d : SourceDocument}
    → find_document identity id s ≡ ok d
    → lookup id s.documents ≡ some d
unfolding find_document
find_document-eq-ok identity id s h =
    get_document-eq-some identity.scope id s (or_raise-eq-ok _ _ h)

-- A stored document that a call has read and changed is stored again.
pub SoundDocuments-upsert :
    (d : SourceDocument) (s : Store)
    → SoundDocument d.document_id d
    → SoundDocuments s
    → SoundDocuments (upsert_document d s)
unfolding upsert_document
SoundDocuments-upsert d s here sound =
    Each-insert SoundDocument d.document_id d s.documents here sound

scan_status-clean :
    (r : ClamAvScanResult) → r.result ≢ scan_error → scan_status r ≢ scan_failed → r.result ≡ clean
scan_status-clean r e h = by_result r.result refl
  where
    by_result : (x : ScanResult) → r.result ≡ x → r.result ≡ clean
    by_result clean at = at
    by_result infected at = absurd (h (rw at refl))
    by_result scan_error at = absurd (e at)

scan_status-valid : (r : ClamAvScanResult) (d : SourceDocument) → valid_as (scan_status r) d ≡ true
scan_status-valid r d = by_result r.result
  where
    by_result : (x : ScanResult) → valid_as (scan_status (record r { result = x })) d ≡ true
    by_result clean = refl
    by_result infected = refl
    by_result scan_error = refl

uploaded_document-SoundDocument :
    (externals : Externals) (i : UploadSession) (payload sniffed : Text)
    (mime : DocumentMimeCategory) (scan : ClamAvScanResult) (draws : Draws)
    → scan_bytes externals.daemon payload ≡ ok scan
    → SoundDocument draws.new_document_id
        (uploaded_document externals i payload sniffed mime scan draws)
unfolding uploaded_document document_valid
uploaded_document-SoundDocument externals i payload sniffed mime scan draws scanned = (
  refl,
  scan_status-clean scan (scan_bytes-ne-error externals.daemon payload scanned),
  scan_status-valid scan (uploaded_document externals i payload sniffed mime scan draws),
)

Fresh-SoundDocument :
    (externals : Externals) (i : UploadSession) (payload : Text) (draws : Draws)
    (fresh : Fresh externals i payload draws)
    → SoundDocument fresh.0.document_id fresh.0
unfolding uploaded_document
Fresh-SoundDocument externals i payload draws (d, sniffed, mime, scan, scanned, e) =
    subst (λ x. SoundDocument x.document_id x) (sym e)
      (uploaded_document-SoundDocument externals i payload sniffed mime scan draws scanned)

announced-SoundDocuments :
    (identity : IdentityContext) (d : SourceDocument) (s : Store)
    → SoundDocuments s
    → SoundDocuments (announced identity d d.status s)
unfolding emit_event
announced-SoundDocuments identity d s sound =
    announced_keeps SoundDocuments identity d d.status s (λ action object t kept. kept) sound

finish-SoundDocuments :
    (externals : Externals) (identity : IdentityContext) (i : UploadSession) (payload : Text)
    (draws : Draws) (o : Option SourceDocument) (fresh : SourceDocument) (s : Store)
    → SoundDocument fresh.document_id fresh
    → SoundDocuments s
    → SoundDocuments (complete_effect identity draws (finish externals i payload draws o fresh) s)
unfolding complete_effect upsert_document upsert_replica put_blob write_audit upsert_session
    drop_chunks
finish-SoundDocuments externals identity i payload draws (some d) fresh s new sound = sound
finish-SoundDocuments externals identity i payload draws none d s new sound =
    announced-SoundDocuments identity d _
      (Each-insert SoundDocument d.document_id d s.documents new sound)

pub complete-SoundDocuments :
    (externals : Externals) (identity : IdentityContext) (id : ℕ) (draws : Draws) (s : Store)
    → SoundDocuments s
    → SoundDocuments (complete externals identity id draws s).1
complete-SoundDocuments externals identity id draws s sound =
    complete_keeps SoundDocuments externals identity id draws s sound (λ i payload found fresh.
      finish-SoundDocuments externals identity i payload draws
        (find_by_content_hash identity.scope (externals.sha256 payload) s) fresh.0 s
        (Fresh-SoundDocument externals i payload draws fresh) sound)
