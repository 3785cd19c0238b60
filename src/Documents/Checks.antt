-- ===== src/Documents/Checks.antt =====
-- What the checks of the documents module let through: archives (`_sniff_zip`), scans (scanner.py)
-- and releases (`release` of documents/application/services.py).
use biaice.Common.{
  ℕ, ◌+◌, ◌≤◌, ◌≡◌, refl, ◌∙◌, Bool, true, false, not, ◌&&◌, Option, none, some, List, [], ◌∷◌,
  Text, codes, ◌==◌, ltb, length, All, arith, if◌then◌else◌, Bool-cases, inl, inr, ==_refl, sym, ap,
  subst,
}
use biaice.Core.Errors.{
  Result, ok, err, is_ok, ◌>>=◌, ◌>>◌, >>=-eq-ok, raise_if, raise_if-eq-ok, or_raise,
}
use biaice.Core.Errors.Code.{audit_unavailable, resource_not_found}
use biaice.Core.Scope.{IdentityContext}
use biaice.Documents.Model.{
  SourceDocument, DocumentStatus, quarantined, scan_passed, scan_failed, under_review, released,
  archived, deleted, DocumentMimeCategory,
}
use biaice.Documents.Intake.{
  ZipEntry, archive_depth, entry_blocked, check_entries, sniff_zip, contains_part, in_texts,
  path_parts, max_archive_files, max_archive_size_bytes, max_archive_depth,
}
use biaice.Documents.Scanner.{ClamAvScanResult, has_no_name, is_scan_infected}
use biaice.Common.Dict.{lookup, lookup-insert}
use biaice.Documents.Store.{Store, get_document, settle, upsert_document, write_audit, emit_event}
use biaice.Documents.Released.{get_document-eq-some}
use biaice.Documents.Completion.{find_document}
use biaice.Documents.Review.{released_by_other, check_release, release_saved, release}

-- The sizes of the entries, unpacked, added up.
unfoldable pub unpacked_size : List ZipEntry → ℕ
unpacked_size [] = 0
unpacked_size (e ∷ es) = e.1 + unpacked_size es

-- The entry is not deep, and has no part `..`.
abbrev pub Harmless : ZipEntry → Type 0
Harmless (name, size) =
    (archive_depth name ≤ max_archive_depth) × (in_texts (path_parts name) (codes "..") ≡ false)

entry_blocked-Harmless :
    (total : ℕ) (e : ZipEntry)
    → entry_blocked total e ≡ false
    → Harmless e × (total ≤ max_archive_size_bytes)
unfolding entry_blocked
entry_blocked-Harmless total (name, size) h = ground arith

check_entries-Harmless :
    (total : ℕ) (es : List ZipEntry) {u : Unit {0}}
    → total ≤ max_archive_size_bytes
    → check_entries total es ≡ ok u
    → All Harmless es × (total + unpacked_size es ≤ max_archive_size_bytes)
unfolding check_entries unpacked_size
check_entries-Harmless total [] low h = (tt, omega arith)
check_entries-Harmless total (e ∷ es) low h =
    let a = >>=-eq-ok (raise_if (entry_blocked (total + e.1) e) _) _ h in
    let here = entry_blocked-Harmless (total + e.1) e (raise_if-eq-ok _ _ a.1) in
    let rest = check_entries-Harmless (total + e.1) es here.1 (a.2) in
    ((here.0, rest.0), omega (arith, rest.1))

-- An archive that is accepted has 1000 entries at most, unpacks to 100 MB at most, and no entry of it
-- is nested more than three deep or has a part `..`.
pub sniff_zip-Harmless :
    (es : List ZipEntry) (x : Text × DocumentMimeCategory)
    → sniff_zip (some es) ≡ ok x
    → (length es ≤ max_archive_files)
      × (unpacked_size es ≤ max_archive_size_bytes)
      × All Harmless es
unfolding sniff_zip
sniff_zip-Harmless es x h =
    let a = >>=-eq-ok (raise_if (ltb max_archive_files (length es)) _) _ h in
    let few = raise_if-eq-ok (ltb max_archive_files (length es)) _ a.1 in
    let b = >>=-eq-ok (check_entries 0 es) _ (a.2) in
    let kept = check_entries-Harmless 0 es (omega arith) b.1 in
    (ground (arith, few), omega (arith, kept.1), kept.0)

-- The daemon has found something.
abbrev pub found_by : Option Text → Bool
found_by none = false
found_by (some answer) = contains_part (codes "FOUND") answer

-- The daemon has found something, and says so with no word before FOUND.
abbrev pub nameless : Option Text → Bool
nameless none = false
nameless (some answer) = contains_part (codes "FOUND") answer && has_no_name answer

-- Whether a scan that returns says infected.
abbrev pub says_infected : Result ClamAvScanResult → Result Bool
says_infected scan = scan >>= λ r. ok (is_scan_infected r.result)

abbrev is_under_review : DocumentStatus → Bool
is_under_review under_review = true
is_under_review _ = false

-- The document is under review, and was uploaded by someone else.
abbrev pub releasable : IdentityContext → Option SourceDocument → Bool
releasable identity none = false
releasable identity (some d) =
    is_under_review d.status && not (identity.subject_id == d.uploaded_by)

is_ok-settle :
    {X A : Type 0} (answer : X → A) (effect : X → Store → Store) (s : Store) (r : Result X)
    → is_ok (settle answer effect s r).0 ≡ is_ok r
is_ok-settle answer effect s (ok x) = refl
is_ok-settle answer effect s (err f) = refl

is_ok-released :
    (identity : IdentityContext) (now : ℕ) (d : SourceDocument) (t : DocumentStatus)
    → is_ok (released_by_other identity now (record d { status = t }))
      ≡ (is_under_review t && not (identity.subject_id == d.uploaded_by))
is_ok-released identity now d under_review = ground arith
is_ok-released identity now d quarantined = refl
is_ok-released identity now d scan_passed = refl
is_ok-released identity now d scan_failed = refl
is_ok-released identity now d released = refl
is_ok-released identity now d archived = refl
is_ok-released identity now d deleted = refl

-- The document as the one who releases it stores it.
abbrev pub released_version : IdentityContext → ℕ → SourceDocument → SourceDocument
released_version identity now d = record d {
  status = released;
  released_by = some identity.subject_id;
  released_at = some now;
}

abbrev pub option_map :
    (SourceDocument → SourceDocument) → Option SourceDocument → Option SourceDocument
option_map f none = none
option_map f (some d) = some (f d)

module _ (identity : IdentityContext) (now : ℕ) (s : Store) where
  abbrev settled : Result SourceDocument → Store
  settled r = (settle (λ (d : SourceDocument). d) (release_saved identity) s r).1

  settled-released :
      (d : SourceDocument) (t : DocumentStatus)
      → lookup d.document_id
          (settled (released_by_other identity now (record d { status = t }))).documents
        ≡ (if is_under_review t && not (identity.subject_id == d.uploaded_by)
            then some (released_version identity now d)
            else lookup d.document_id s.documents)
  unfolding upsert_document write_audit emit_event
  settled-released d under_review = elim (Bool-cases (identity.subject_id == d.uploaded_by)) [
    | inl own ↦ rw own refl
    | inr other ↦ rw other (
        lookup-insert d.document_id d.document_id (released_version identity now d) s.documents
        ∙ rw (==_refl d.document_id) refl)
  ]
  settled-released d quarantined = refl
  settled-released d scan_passed = refl
  settled-released d scan_failed = refl
  settled-released d released = refl
  settled-released d archived = refl
  settled-released d deleted = refl

  settled-release :
      (id : ℕ)
      → ((d : SourceDocument) → lookup id s.documents ≡ some d → d.document_id ≡ id)
      → (b : Bool) (o : Option SourceDocument) → get_document identity.scope id s ≡ o
      → lookup id
          (settled (
            raise_if (not b) audit_unavailable
            >> (or_raise o resource_not_found >>= released_by_other identity now))).documents
        ≡ (if b && releasable identity o
            then option_map (released_version identity now) (lookup id s.documents)
            else lookup id s.documents)
  settled-release id keyed false o e = refl
  settled-release id keyed true none e = refl
  settled-release id keyed true (some d) e =
      let at : lookup id s.documents ≡ some d = get_document-eq-some identity.scope id s e in
      rw at (
        subst
          (λ k. lookup k (settled (released_by_other identity now d)).documents ≡ (
            if releasable identity (some d)
            then some (released_version identity now d)
            else some d))
          (keyed d at)
          (settled-released d d.status
            ∙ ap
                (λ x.
                  if releasable identity (some d)
                  then some (released_version identity now d)
                  else x)
                (subst (λ k. lookup k s.documents ≡ some d) (sym (keyed d at)) at)))

-- In a store that keeps the document under its own identifier, and with an audit writer and an outbox
-- port that accept what they are told, a release returns exactly if the audit is available, the scope
-- shows the document, it is under review, and its uploader is not the one who releases it. The stored
-- document then is RELEASED, by the caller and at the time of the call, and otherwise the one it was.
pub release-iff-releasable :
    (identity : IdentityContext) (id now : ℕ) (s : Store)
    → ((d : SourceDocument) → lookup id s.documents ≡ some d → d.document_id ≡ id)
    → (is_ok (release identity id now s).0
        ≡ (s.audit_available && releasable identity (get_document identity.scope id s)))
      × (lookup id (release identity id now s).1.documents ≡ (
          if s.audit_available && releasable identity (get_document identity.scope id s)
          then option_map (released_version identity now) (lookup id s.documents)
          else lookup id s.documents))
unfolding release check_release find_document
release-iff-releasable identity id now s keyed = (
  is_ok-settle (λ (d : SourceDocument). d) (release_saved identity) s
        (check_release identity id now s)
      ∙ by_parts s.audit_available (get_document identity.scope id s),
  settled-release identity now s id keyed s.audit_available (get_document identity.scope id s) refl,
)
  where
    by_parts :
        (b : Bool) (o : Option SourceDocument)
        → is_ok (
            raise_if (not b) audit_unavailable
            >> (or_raise o resource_not_found >>= released_by_other identity now))
          ≡ (b && releasable identity o)
    by_parts false o = refl
    by_parts true none = refl
    by_parts true (some d) = is_ok-released identity now d d.status
