-- ===== src/Documents/Guarantees.antt =====
-- What holds of the documents service (documents/application/services.py) after any sequence of calls.
use biaice.Common.{
  ℕ, ◌≤◌, ◌≡◌, ◌≢◌, ◌∙◌, Bool, true, some, List, [], ◌∷◌, Text, length, is_empty, arith,
}
use biaice.Common.Dict.{lookup}
use biaice.Core.Scope.{IdentityContext}
use biaice.Documents.Model.{
  UploadSession, active, missing_part_numbers, SourceDocument, scan_failed, clean, document_valid,
  ParseJob,
}
use biaice.Documents.Store.{Store, compose_chunks}
use biaice.Documents.Upload.{Externals, expected_size}
use biaice.Documents.Parse.{Extraction}
use biaice.Documents.Parts.{compose_from-Held, missing_part_numbers-covers, sizes}
use biaice.Documents.Sizes.{sizes-total, expected_size-bounds}
use biaice.Documents.Runs.{Command, Sound, after, after-Sound}

-- A store that nothing has been written to.
abbrev pub empty_store : Bool → Bool → Store
empty_store audit outbox = record {
  sessions = [];
  chunks = [];
  documents = [];
  blobs = [];
  replicas = [];
  parse_jobs = [];
  assets = [];
  links = [];
  audit = [];
  outbox = [];
  audit_available = audit;
  outbox_configured = outbox;
}

empty_store-Sound : (a o : Bool) → Sound (empty_store a o)
unfolding lookup
empty_store-Sound a o = record {
  sessions_sound = λ k i h. cc;
  documents_sound = λ k d h. cc;
  jobs_sound = λ k j h. cc;
}

module _ (externals : Externals) (extraction : Extraction) where
  -- The commands one after the other, each by the identity that comes with it.
  unfoldable pub run : List (IdentityContext × Command) → Store → Store
  run [] s = s
  run ((identity, c) ∷ cs) s = run cs (after externals extraction identity c s)

  run-Sound : (cs : List (IdentityContext × Command)) (s : Store) → Sound s → Sound (run cs s)
  unfolding run
  run-Sound [] s sound = sound
  run-Sound ((identity, c) ∷ cs) s sound =
      run-Sound cs _ (after-Sound externals extraction identity c s sound)

  reached : (cs : List (IdentityContext × Command)) (a o : Bool) → Sound (run cs (empty_store a o))
  reached cs a o = run-Sound cs (empty_store a o) (empty_store-Sound a o)

  -- After any calls, a document that is not marked SCAN_FAILED was scanned CLEAN, and a RELEASED one
  -- was released by someone other than its uploader, at a recorded time: what the model's validator
  -- asks of a document holds although `model_copy` does not run it.
  pub run-document_valid :
      (cs : List (IdentityContext × Command)) (a o : Bool) (k : ℕ) (d : SourceDocument)
      → lookup k (run cs (empty_store a o)).documents ≡ some d
      → (d.status ≢ scan_failed → d.scan_result ≡ clean) × (document_valid d ≡ true)
  run-document_valid cs a o k d at =
      let (_, scanned, valid) = (reached cs a o).documents_sound k d at in (scanned, valid)

  -- After any calls, an active session with no part missing can be composed, and to a file of the
  -- size that it was opened for: `complete` does not fail on a part that is not there.
  pub run-compose_chunks :
      (cs : List (IdentityContext × Command)) (a o : Bool) (k : ℕ) (i : UploadSession)
      → lookup k (run cs (empty_store a o)).sessions ≡ some i
      → i.status ≡ active
      → is_empty (missing_part_numbers i) ≡ true
      → (payload : Text) × (compose_chunks i.session_id i.total_parts (run cs (empty_store a o))
          ≡ some payload)
        × (length payload ≡ i.file_size_bytes)
  unfolding compose_chunks
  run-compose_chunks cs a o k i at now none_missing =
      let (_, shape, received) = (reached cs a o).sessions_sound k i at in
      let (payload, found, long) =
        compose_from-Held (run cs (empty_store a o)).chunks i 1 i.total_parts (λ n low high.
          (received now n (missing_part_numbers-covers i none_missing n low (omega arith))).2) in
      (payload, found, long ∙ sizes-total i shape)

  -- After any calls, the lengths that a stored session asks of its parts are between one byte and the
  -- size of a chunk, and they add up to the size of the file.
  pub run-sizes :
      (cs : List (IdentityContext × Command)) (a o : Bool) (k : ℕ) (i : UploadSession)
      → lookup k (run cs (empty_store a o)).sessions ≡ some i
      → ((n : ℕ) → (1 ≤ expected_size i n) × (expected_size i n ≤ i.chunk_size_bytes))
        × (sizes i 1 i.total_parts ≡ i.file_size_bytes)
  run-sizes cs a o k i at =
      let (_, shape, _) = (reached cs a o).sessions_sound k i at in
      (λ n. expected_size-bounds i n shape, sizes-total i shape)

  -- After any calls, the progress of a stored parse job is at most 100 per cent, and its `attempt` is
  -- at least 1 and at most its `max_attempts`.
  pub run-attempts :
      (cs : List (IdentityContext × Command)) (a o : Bool) (k : ℕ) (j : ParseJob)
      → lookup k (run cs (empty_store a o)).parse_jobs ≡ some j
      → (j.progress_percent ≤ 100) × (1 ≤ j.attempt) × (j.attempt ≤ j.max_attempts)
  run-attempts cs a o k j at =
      let (_, progress, low, high) = (reached cs a o).jobs_sound k j at in (progress, low, high)
