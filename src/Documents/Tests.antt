-- ===== src/Documents/Tests.antt =====
-- A document that is uploaded, reviewed, released and parsed, and the theorems about it.
use biaice.Common.{
  ℕ, ◌≤◌, ◌≡◌, ◌≢◌, refl, true, none, some, List, [], ◌∷◌, ◌++◌, Text, codes, text_eq, length, elem,
  All, lower, arith, sym, ap, some_inj,
}
use biaice.Common.Dict.{lookup, insert}
use biaice.Core.Errors.{is_ok, err, index_error}
use biaice.Core.Scope.{TenantScope, IdentityContext, assert_allows}
use biaice.Documents.Model.{
  UploadSession, active, tender, unknown, pdf, archive, SourceDocument, scan_failed, released,
  under_review, clean, document_valid, ParseJob, succeeded, session_valid, effective_upload_session,
  has_part, range_from, missing_part_numbers,
}
use biaice.Documents.Intake.{
  ZipEntry, filename_extension, count_of, split_slash, path_suffix, from_last_dot,
  blocked_extensions, allowed_extensions, sniff_content, starts_with, contains_part, sniff_zip,
  check_entries, entry_blocked, max_archive_files, max_archive_size_bytes,
}
use biaice.Documents.Store.{
  Store, lookup_chunk, write_audit, upsert_session, get_session, scope_shows, put_chunk_bytes,
  insert_chunk, get_document, compose_chunks, compose_from, find_by_content_hash, earliest,
  drop_chunks, without_session, upsert_document, put_blob, insert_blob, upsert_replica, emit_event,
  get_blob, lookup_blob,
}
use biaice.Documents.Upload.{
  Externals, UploadRequest, create_session, check_session, new_session, put_chunk, check_chunk,
  find_session, check_part, expected_size, with_part, insert_part,
}
use biaice.Documents.Completion.{
  Draws, find_document, complete, check_complete, complete_active, take_in, uploaded_document,
  complete_effect,
}
use biaice.Documents.Parse.{
  Extraction, extracted, upsert_parse_job, execute_parse_job, check_execute, find_job,
  get_parse_job, run_job, finish_job, upsert_derived_asset,
}
use biaice.Documents.Jobs.{create_parse_job, check_create_job}
use biaice.Documents.Runs.{
  Command, open_session, upload_part, complete_session, review_document, release_document, parse,
}
use biaice.Documents.Scanner.{
  scan_bytes, decide, eicar_scan, is_eicar_test_file, eicar_signature, first, read_answer,
  has_no_name,
}
use biaice.Documents.Review.{review, check_review, release, check_release}
use biaice.Documents.Parts.{sizes}
use biaice.Documents.Checks.{
  unpacked_size, Harmless, sniff_zip-Harmless, released_version, release-iff-releasable,
}
use biaice.Documents.Roundtrip.{InRange, upload_parts, upload_parts-compose_chunks}
use biaice.Documents.Guarantees.{
  empty_store, run, run-document_valid, run-compose_chunks, run-sizes, run-attempts,
}

abbrev digest : Text
digest = codes "aaaaaaaaaaaaaaaaaaaaaaaaaaaaaaaaaaaaaaaaaaaaaaaaaaaaaaaaaaaaaaaa"

abbrev externals : Externals
externals = record {
  sha256 = λ _. digest;
  unzip = λ _. none;
  daemon = λ _. none;
  uuid_text = λ n. n ∷ [];
}

abbrev extraction : Extraction
extraction = record {
  parse_document = λ t _. extracted t;
  sha256 = λ _. digest;
  uuid_text = λ n. n ∷ [];
}

abbrev everything : TenantScope
everything = record {
  tenant_id = 1;
  data_domain_id = 2;
  project_ids = [];
  decision_unit_ids = [];
  all_projects = true;
  all_decision_units = true;
}

abbrev uploader : IdentityContext
uploader = record { subject_id = 10; scope = everything }

abbrev reviewer : IdentityContext
reviewer = record { subject_id = 11; scope = everything }

abbrev payload : Text
payload = codes "%PDF"

abbrev request : UploadRequest
request = record {
  project_id = some 3;
  decision_unit_id = none;
  filename = codes "tender.pdf";
  file_size_bytes = 4;
  declared_sha256 = digest;
  content_type = codes "application/pdf";
  kind = tender;
  chunk_size_bytes = 262_144;
  now = 50;
  new_id = 7;
}

abbrev draws : Draws
draws = record { now = 52; later = 53; new_document_id = 100; new_replica_id = 101 }

abbrev uploading : List (IdentityContext × Command)
uploading = (uploader, open_session request) ∷ (uploader, upload_part 7 1 payload none 51) ∷ []

abbrev releasing : List (IdentityContext × Command)
releasing =
    (uploader, open_session request)
    ∷ (uploader, upload_part 7 1 payload none 51)
    ∷ (uploader, complete_session 7 draws)
    ∷ (reviewer, review_document 100 54)
    ∷ (reviewer, release_document 100 55)
    ∷ []

abbrev uploaded_session : UploadSession
uploaded_session = record {
  session_id = 7;
  tenant_id = 1;
  data_domain_id = 2;
  project_id = some 3;
  decision_unit_id = none;
  kind = tender;
  filename = codes "tender.pdf";
  file_size_bytes = 4;
  content_type = codes "application/pdf";
  mime_category = unknown;
  declared_sha256 = digest;
  chunk_size_bytes = 262_144;
  total_parts = 1;
  received_parts =
      record {
        part_number = 1;
        offset = 0;
        size_bytes = 4;
        expected_sha256 = digest;
        received_sha256 = some digest;
        received_at = some 51;
      }
      ∷ [];
  status = active;
  final_sha256 = none;
  final_size_bytes = none;
  quarantine_key = none;
  document_id = none;
  created_by = 10;
  created_at = 50;
  expires_at = 86_450;
  completed_at = none;
}

stored_session :
    lookup 7 (run externals extraction uploading (empty_store true true)).sessions
    ≡ some uploaded_session
unfolding run lookup insert create_session check_session assert_allows filename_extension count_of
    split_slash path_suffix from_last_dot blocked_extensions allowed_extensions text_eq lower
    session_valid new_session write_audit upsert_session put_chunk check_chunk find_session
    get_session scope_shows effective_upload_session check_part expected_size put_chunk_bytes
    insert_chunk with_part insert_part
stored_session = refl

-- An active session with its one part is put together to the four bytes.
run-compose_chunks_example :
    (bytes : Text) × (compose_chunks 7 1
        (run externals extraction uploading (empty_store true true))
      ≡ some bytes)
    × (length bytes ≡ 4)
unfolding run lookup insert create_session check_session assert_allows filename_extension count_of
    split_slash path_suffix from_last_dot blocked_extensions allowed_extensions text_eq lower
    session_valid new_session write_audit upsert_session put_chunk check_chunk find_session
    get_session scope_shows effective_upload_session check_part expected_size put_chunk_bytes
    insert_chunk with_part insert_part missing_part_numbers has_part range_from
run-compose_chunks_example =
    run-compose_chunks externals extraction uploading true true 7 uploaded_session stored_session
      refl refl

run-sizes_example :
    ((n : ℕ)
      → (1 ≤ expected_size uploaded_session n) × (expected_size uploaded_session n ≤ 262_144))
    × (sizes uploaded_session 1 1 ≡ 4)
run-sizes_example =
    run-sizes externals extraction uploading true true 7 uploaded_session stored_session

abbrev storage_key_text : Text
storage_key_text =
    codes "quarantine/" ++ (1 ∷ []) ++ codes "/" ++ (7 ∷ []) ++ codes "/" ++ codes "tender.pdf"

abbrev released_document : SourceDocument
released_document = record {
  document_id = 100;
  tenant_id = 1;
  data_domain_id = 2;
  project_id = some 3;
  decision_unit_id = none;
  kind = tender;
  name = codes "tender.pdf";
  storage_key = storage_key_text;
  storage_locator_hash = digest;
  size_bytes = 4;
  content_hash = digest;
  declared_content_type = codes "application/pdf";
  sniffed_content_type = codes "application/pdf";
  mime_category = pdf;
  scan_result = clean;
  scan_signature_version = some (codes "eicar-inline-1.0");
  status = released;
  quarantined_at = some 53;
  scan_completed_at = some 53;
  released_at = some 55;
  uploaded_by = 10;
  uploaded_at = 53;
  reviewed_by = some 11;
  reviewed_at = some 54;
  released_by = some 11;
  upload_session_id = 7;
  source_filename = some (codes "tender.pdf");
}

stored_document :
    lookup 100 (run externals extraction releasing (empty_store true true)).documents
    ≡ some released_document
unfolding run lookup insert create_session check_session assert_allows filename_extension count_of
    split_slash path_suffix from_last_dot blocked_extensions allowed_extensions text_eq lower
    session_valid new_session write_audit upsert_session put_chunk check_chunk find_session
    get_session scope_shows effective_upload_session check_part expected_size put_chunk_bytes
    insert_chunk with_part insert_part missing_part_numbers has_part range_from find_document
    get_document complete check_complete complete_active compose_chunks compose_from take_in
    sniff_content starts_with scan_bytes decide eicar_scan is_eicar_test_file contains_part
    eicar_signature first find_by_content_hash earliest uploaded_document complete_effect
    drop_chunks without_session upsert_document put_blob insert_blob upsert_replica emit_event
    lookup_chunk review check_review release check_release
stored_document = refl

run-document_valid_example :
    (released_document.status ≢ scan_failed → released_document.scan_result ≡ clean)
    × (document_valid released_document ≡ true)
run-document_valid_example =
    run-document_valid externals extraction releasing true true 100 released_document
      stored_document

abbrev parsing : List (IdentityContext × Command)
parsing =
    (uploader, open_session request)
    ∷ (uploader, upload_part 7 1 payload none 51)
    ∷ (uploader, complete_session 7 draws)
    ∷ (
      uploader,
      parse
          (record {
            document_id = 100;
            project_id = some 3;
            decision_unit_id = none;
            execute = true;
            created_at = 56;
            new_job_id = 200;
          })
          (record { now = 57; later = 58; new_asset_id = 201; new_replica_id = 202 }),
    )
    ∷ []

abbrev parsed_job : ParseJob
parsed_job = record {
  job_id = 200;
  tenant_id = 1;
  data_domain_id = 2;
  project_id = some 3;
  decision_unit_id = none;
  document_id = 100;
  status = succeeded;
  progress_percent = 100;
  retryable = none;
  created_at = 56;
  started_at = some 57;
  completed_at = some 58;
  cancelled_at = none;
  attempt = 1;
  max_attempts = 3;
  derived_asset_ids = 201 ∷ [];
  created_by = 10;
}

stored_job :
    lookup 200 (run externals extraction parsing (empty_store true true)).parse_jobs
    ≡ some parsed_job
unfolding run lookup insert create_session check_session assert_allows filename_extension count_of
    split_slash path_suffix from_last_dot blocked_extensions allowed_extensions text_eq lower
    session_valid new_session write_audit upsert_session put_chunk check_chunk find_session
    get_session scope_shows effective_upload_session check_part expected_size put_chunk_bytes
    insert_chunk with_part insert_part missing_part_numbers has_part range_from find_document
    get_document complete check_complete complete_active compose_chunks compose_from take_in
    sniff_content starts_with scan_bytes decide eicar_scan is_eicar_test_file contains_part
    eicar_signature first find_by_content_hash earliest uploaded_document complete_effect
    drop_chunks without_session upsert_document put_blob insert_blob upsert_replica emit_event
    lookup_chunk review check_review release check_release create_parse_job check_create_job
    upsert_parse_job execute_parse_job check_execute find_job get_parse_job get_blob lookup_blob
    run_job finish_job upsert_derived_asset
stored_job = refl

run-attempts_example :
    (100 ≤ 100) × (1 ≤ parsed_job.attempt) × (parsed_job.attempt ≤ parsed_job.max_attempts)
run-attempts_example = run-attempts externals extraction parsing true true 200 parsed_job stored_job

-- A file of three parts of two bytes, uploaded out of order.
abbrev three_parts : UploadSession
three_parts = record uploaded_session {
  file_size_bytes = 5;
  chunk_size_bytes = 2;
  total_parts = 3;
  received_parts = [];
}

abbrev with_three_parts : Store
with_three_parts = record (empty_store true true) { sessions = (7, three_parts) ∷ [] }

in_order : (m : ℕ) → InRange three_parts m → elem m (3 ∷ 1 ∷ 2 ∷ []) ≡ true
unfolding elem
in_order m range = ground arith

upload_parts-compose_chunks_example :
    compose_chunks 7 3 (
      upload_parts externals uploader three_parts 60
        (codes "abcde")
        (3 ∷ 1 ∷ 2 ∷ [])
        with_three_parts)
    ≡ some (codes "abcde")
unfolding scope_shows lookup
upload_parts-compose_chunks_example =
    upload_parts-compose_chunks externals uploader three_parts 60 (codes "abcde") (3 ∷ 1 ∷ 2 ∷ [])
      with_three_parts (omega arith, omega arith, refl) refl (refl, refl, omega arith) refl refl
      ((omega arith, omega arith), ((omega arith, omega arith), ((omega arith, omega arith), tt)))
      in_order

abbrev two_entries : List ZipEntry
two_entries = (codes "a/b.txt", 10) ∷ (codes "c.txt", 20) ∷ []

sniff_zip-Harmless_example :
    (length two_entries ≤ max_archive_files)
    × (unpacked_size two_entries ≤ max_archive_size_bytes)
    × All Harmless two_entries
unfolding sniff_zip check_entries entry_blocked starts_with path_suffix from_last_dot split_slash
    text_eq lower blocked_extensions count_of
sniff_zip-Harmless_example = sniff_zip-Harmless two_entries (codes "application/zip", archive) refl

-- An answer that names no virus
nameless_raises : scan_bytes (λ _. some (codes " FOUND")) payload ≡ err index_error
unfolding scan_bytes read_answer contains_part starts_with has_no_name
nameless_raises = refl

-- A store with one document under review, which someone else has uploaded.
abbrev reviewed_document : SourceDocument
reviewed_document = record released_document {
  status = under_review;
  released_by = none;
  released_at = none;
}

abbrev in_review : Store
in_review = record (empty_store true true) { documents = (100, reviewed_document) ∷ [] }

only_document : (d : SourceDocument) → lookup 100 in_review.documents ≡ some d → d.document_id ≡ 100
unfolding lookup
only_document d h =
    sym (ap (λ (e : SourceDocument). e.document_id) (some_inj reviewed_document d h))

release-iff-releasable_example :
    (is_ok (release reviewer 100 60 in_review).0 ≡ true)
    × (lookup 100 (release reviewer 100 60 in_review).1.documents
        ≡ some (released_version reviewer 60 reviewed_document))
unfolding get_document scope_shows lookup
release-iff-releasable_example = release-iff-releasable reviewer 100 60 in_review only_document
