-- ===== src/Documents/Upload.antt =====
-- The upload of a document (DocumentIntakeService of documents/application/services.py): opening a
-- session, its parts, its completion, its cancellation.
use Prim.Native.Nat.{◌*◌, ◌/◌}
use biaice.Common.{
  ℕ, ◌+◌, ◌-◌, Bool, false, not, ◌&&◌, Option, none, some, List, [], ◌∷◌, Text, text_eq, lower, ltb,
  leb, ◌==◌, keep, length, is_empty, if◌then◌else◌,
}
use biaice.Core.Errors.{validation_error, stable, Result, ok, err, ◌>>=◌, ◌>>◌, raise_if, or_raise}
use biaice.Core.Errors.Code.{
  audit_unavailable, resource_not_found, request_validation_failed, upload_session_expired,
  upload_session_not_active, upload_chunk_hash_mismatch,
}
use biaice.Core.Scope.{IdentityContext, assert_allows}
use biaice.Documents.Model.{
  UploadSession, UploadChunkInfo, UploadSessionStatus, active, completed, cancelled, expired,
  DocumentKind, unknown, effective_upload_session, session_valid,
}
use biaice.Documents.Intake.{ZipEntry, filename_extension}
use biaice.Documents.Store.{
  Store, get_session, upsert_session, put_chunk_bytes, drop_chunks, write_audit, settle,
  session_created, chunk_received, session_cancelled,
}

-- What the service calls: SHA-256, the listing of an archive, the scanning daemon, and the text of
-- an identifier.
pub record Externals : Type 0 where
  pub sha256 : Text → Text
  pub unzip : Text → Option (List ZipEntry)
  pub daemon : Text → Option Text
  pub uuid_text : ℕ → Text

-- The arguments of `create_session`, with the time and the identifier that the call draws.
pub record UploadRequest : Type 0 where
  pub project_id : Option ℕ
  pub decision_unit_id : Option ℕ
  pub filename : Text
  pub file_size_bytes : ℕ
  pub declared_sha256 : Text
  pub content_type : Text
  pub kind : DocumentKind
  pub chunk_size_bytes : ℕ
  pub now : ℕ
  pub new_id : ℕ

abbrev pub max_file_size_bytes : ℕ
max_file_size_bytes = 104_857_600

abbrev pub min_chunk_size_bytes : ℕ
min_chunk_size_bytes = 262_144

abbrev pub max_chunk_size_bytes : ℕ
max_chunk_size_bytes = 8_388_608

-- 24 hours, in seconds
abbrev pub session_ttl : ℕ
session_ttl = 86_400

abbrev pub total_parts_of : ℕ → ℕ → ℕ
total_parts_of file_size chunk_size = (file_size + chunk_size - 1) / chunk_size

unfoldable pub new_session : IdentityContext → UploadRequest → UploadSession
new_session identity q = record {
  session_id = q.new_id;
  tenant_id = identity.scope.tenant_id;
  data_domain_id = identity.scope.data_domain_id;
  project_id = q.project_id;
  decision_unit_id = q.decision_unit_id;
  kind = q.kind;
  filename = q.filename;
  file_size_bytes = q.file_size_bytes;
  content_type = q.content_type;
  mime_category = unknown;
  declared_sha256 = lower q.declared_sha256;
  chunk_size_bytes = q.chunk_size_bytes;
  total_parts = total_parts_of q.file_size_bytes q.chunk_size_bytes;
  received_parts = [];
  status = active;
  final_sha256 = none;
  final_size_bytes = none;
  quarantine_key = none;
  document_id = none;
  created_by = identity.subject_id;
  created_at = q.now;
  expires_at = q.now + session_ttl;
  completed_at = none;
}

unfoldable pub check_session : IdentityContext → UploadRequest → Store → Result UploadSession
check_session identity q s = do
  raise_if (not s.audit_available) audit_unavailable
  assert_allows identity.scope identity.scope.tenant_id identity.scope.data_domain_id q.project_id
      q.decision_unit_id
  suffix ← filename_extension q.filename
  raise_if (ltb max_file_size_bytes q.file_size_bytes) request_validation_failed
  raise_if
      (not (
        leb min_chunk_size_bytes q.chunk_size_bytes && leb q.chunk_size_bytes max_chunk_size_bytes))
      request_validation_failed
  let session = new_session identity q
  if session_valid session then ok session else err validation_error

abbrev pub session_saved : IdentityContext → UploadSession → Store → Store
session_saved identity i s =
    write_audit session_created identity.subject_id i.session_id (upsert_session i s)

unfoldable pub create_session :
    IdentityContext → UploadRequest → Store → Result UploadSession × Store
create_session identity q s =
    settle (λ i. i) (session_saved identity) s (check_session identity q s)

-- `get_session` of the service
unfoldable pub find_session : IdentityContext → ℕ → ℕ → Store → Result UploadSession
find_session identity id now s = do
  item ← or_raise (get_session identity.scope id s) resource_not_found
  ok (effective_upload_session item now)

abbrev pub require_active : UploadSessionStatus → Result (Unit {0})
require_active active = ok tt
require_active expired = err (stable upload_session_expired)
require_active completed = err (stable upload_session_not_active)
require_active cancelled = err (stable upload_session_not_active)

-- The length that the part must have: the last one has the rest.
unfoldable pub expected_size : UploadSession → ℕ → ℕ
expected_size i part =
    if part == i.total_parts
    then i.file_size_bytes - i.chunk_size_bytes * (i.total_parts - 1)
    else i.chunk_size_bytes

abbrev pub hash_differs : Option Text → Text → Bool
hash_differs none digest = false
hash_differs (some t) digest = not (is_empty t) && not (text_eq (lower t) digest)

-- The parts sorted by their number, the new one in place of an older one.
unfoldable pub insert_part : UploadChunkInfo → List UploadChunkInfo → List UploadChunkInfo
insert_part c [] = c ∷ []
insert_part c (p ∷ ps) =
    if ltb c.part_number p.part_number then c ∷ p ∷ ps else p ∷ insert_part c ps

unfoldable pub with_part : UploadSession → UploadChunkInfo → UploadSession
with_part i c = record i {
  received_parts =
      insert_part c
        (keep (λ (p : UploadChunkInfo). not (p.part_number == c.part_number)) i.received_parts);
}

module _ (externals : Externals) where
  abbrev pub chunk_info : UploadSession → ℕ → Text → ℕ → UploadChunkInfo
  chunk_info i part payload now = record {
    part_number = part;
    offset = (part - 1) * i.chunk_size_bytes;
    size_bytes = length payload;
    expected_sha256 = externals.sha256 payload;
    received_sha256 = some (externals.sha256 payload);
    received_at = some now;
  }

  -- The checks of `put_chunk` on a session. Pydantic refuses the part number 0.
  unfoldable pub check_part :
      UploadSession → ℕ → Text → Option Text → ℕ → Result (UploadSession × UploadChunkInfo)
  check_part i part payload declared now = do
    require_active i.status
    raise_if (ltb i.total_parts part) request_validation_failed
    raise_if (is_empty payload) request_validation_failed
    raise_if (not (length payload == expected_size i part)) request_validation_failed
    raise_if (hash_differs declared (externals.sha256 payload)) upload_chunk_hash_mismatch
    if leb 1 part then ok (i, chunk_info i part payload now) else err validation_error

  unfoldable pub check_chunk :
      IdentityContext
      → ℕ
      → ℕ
      → Text
      → Option Text
      → ℕ
      → Store
      → Result (UploadSession × UploadChunkInfo)
  check_chunk identity id part payload declared now s = do
    raise_if (not s.audit_available) audit_unavailable
    i ← find_session identity id now s
    check_part i part payload declared now

  abbrev pub chunk_saved : IdentityContext → Text → UploadSession × UploadChunkInfo → Store → Store
  chunk_saved identity payload (i, c) s =
      write_audit chunk_received identity.subject_id i.session_id
        (upsert_session (with_part i c) (put_chunk_bytes i.session_id c.part_number payload s))

  unfoldable pub put_chunk :
      IdentityContext → ℕ → ℕ → Text → Option Text → ℕ → Store → Result UploadSession × Store
  put_chunk identity id part payload declared now s =
      settle (λ (x : UploadSession × UploadChunkInfo). with_part x.0 x.1)
        (chunk_saved identity payload) s (check_chunk identity id part payload declared now s)

unfoldable pub cancel_effect : IdentityContext → Option UploadSession → ℕ → Store → Store
cancel_effect identity none now s = s
cancel_effect identity (some i) now s =
    write_audit session_cancelled identity.subject_id i.session_id (
      drop_chunks i.session_id
        (upsert_session (record i { status = cancelled; completed_at = some now }) s))

-- `some` session is to be cancelled; one that is cancelled is returned as it is.
abbrev pub cancellable :
    UploadSessionStatus → UploadSession → Result (UploadSession × Option UploadSession)
cancellable cancelled i = ok (i, none)
cancellable completed i = err (stable upload_session_not_active)
cancellable active i = ok (i, some i)
cancellable expired i = ok (i, some i)

unfoldable pub check_cancel :
    IdentityContext → ℕ → ℕ → Store → Result (UploadSession × Option UploadSession)
check_cancel identity id now s = do
  raise_if (not s.audit_available) audit_unavailable
  i ← find_session identity id now s
  cancellable i.status i

abbrev pub cancelled_session : ℕ → UploadSession × Option UploadSession → UploadSession
cancelled_session now (i, none) = i
cancelled_session now (i, some j) = record j { status = cancelled; completed_at = some now }

unfoldable pub cancel : IdentityContext → ℕ → ℕ → ℕ → Store → Result UploadSession × Store
cancel identity id now later s =
    settle (cancelled_session later)
      (λ (x : UploadSession × Option UploadSession). cancel_effect identity x.1 later) s
      (check_cancel identity id now s)
