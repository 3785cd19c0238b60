-- ===== src/Documents/Roundtrip.antt =====
-- A file is uploaded part by part with `put_chunk` (documents/application/services.py), in any order,
-- and `compose_chunks` gives it back.
use biaice.Common.{
  ℕ, ◌*◌, ◌≤◌, ◌<◌, ◌≡◌, refl, sym, ap, ◌∙◌, subst, true, false, none, some, List, [], ◌∷◌, Text,
  ◌==◌, ==_refl, ==→≡, leb, ltb, length, is_empty, elem, All, arith, Bool-cases, ◌⊎◌, inl, inr,
}
use biaice.Common.Dict.{lookup, lookup-insert}
use biaice.Core.Errors.{ok}
use biaice.Core.Scope.{IdentityContext}
use biaice.Documents.Model.{UploadSession, UploadChunkInfo, active, effective_upload_session}
use biaice.Documents.Store.{
  Store, scope_shows, get_session, upsert_session, put_chunk_bytes, lookup_chunk, insert_chunk,
  compose_chunks, write_audit,
}
use biaice.Documents.Upload.{
  Externals, expected_size, find_session, with_part, chunk_info, check_part, check_chunk,
  chunk_saved, put_chunk,
}
use biaice.Documents.Parts.{Shape, lookup_chunk-insert_chunk}
use biaice.Documents.Sizes.{expected_size-bounds}
use biaice.Documents.Slices.{drop, drop_same, part_bytes, length-part_bytes, Cut, compose_from-Cut}

not_above : (n k : ℕ) → n ≤ k → ltb k n ≡ false
not_above n k h = ground arith

not_empty : (t : Text) → 1 ≤ length t → is_empty t ≡ false
not_empty [] h = absurd (omega arith)
not_empty (c ∷ t) h = refl

same_length : (n k : ℕ) → n ≡ k → (n == k) ≡ true
same_length n k h = ground arith

at_least_one : (n : ℕ) → 1 ≤ n → leb 1 n ≡ true
at_least_one n h = ground arith

not_due : (n k : ℕ) → n < k → leb k n ≡ false
not_due n k h = ground arith

-- The session with other parts received.
abbrev having : List UploadChunkInfo → UploadSession → UploadSession
having ps i = record i { received_parts = ps }

-- The identity sees the session, which is active and not due at the time, and the audit is there.
abbrev pub Uploadable : IdentityContext → UploadSession → ℕ → Type 0
Uploadable identity i now =
    (scope_shows identity.scope i.tenant_id i.data_domain_id i.project_id i.decision_unit_id ≡ true)
    × (i.status ≡ active)
    × (now < i.expires_at)

abbrev InProgress : UploadSession → List UploadChunkInfo → Store → Type 0
InProgress i ps s =
    (s.audit_available ≡ true) × (lookup i.session_id s.sessions ≡ some (having ps i))

module _ (externals : Externals) (identity : IdentityContext) (i : UploadSession) (now : ℕ) where
  find_session-Uploadable :
      (ps : List UploadChunkInfo) (s : Store)
      → Uploadable identity i now
      → InProgress i ps s
      → find_session identity i.session_id now s ≡ ok (having ps i)
  unfolding find_session get_session effective_upload_session
  find_session-Uploadable ps s (shown, now_active, early) (audit, at) =
      simp (at, shown, now_active, not_due now i.expires_at early) refl

  -- A part of the right length passes the checks.
  check_part-accepts :
      (j : UploadSession) (n : ℕ) (bytes : Text)
      → j.status ≡ active
      → 1 ≤ n
      → n ≤ j.total_parts
      → 1 ≤ length bytes
      → length bytes ≡ expected_size j n
      → check_part externals j n bytes none now ≡ ok (j, chunk_info externals j n bytes now)
  unfolding check_part expected_size
  check_part-accepts j n bytes now_active low high some_bytes long =
      simp
        (
          now_active,
          not_above n j.total_parts high,
          not_empty bytes some_bytes,
          same_length (length bytes) (expected_size j n) long,
          at_least_one n low,
        )
        refl

  check_chunk-accepts :
      (ps : List UploadChunkInfo) (s : Store) (n : ℕ) (bytes : Text)
      → Shape i
      → Uploadable identity i now
      → InProgress i ps s
      → 1 ≤ n
      → n ≤ i.total_parts
      → length bytes ≡ expected_size i n
      → check_chunk externals identity i.session_id n bytes none now s
        ≡ ok (having ps i, chunk_info externals (having ps i) n bytes now)
  unfolding check_chunk expected_size
  check_chunk-accepts ps s n bytes shape ready progress low high long =
      simp (progress.0, find_session-Uploadable ps s ready progress)
        (check_part-accepts (having ps i) n bytes (ready.1) low high
          (omega (arith, long, (expected_size-bounds i n shape).0)) long)

-- The parts of the file, uploaded in the order of the list.
unfoldable pub upload_parts :
    Externals → IdentityContext → UploadSession → ℕ → Text → List ℕ → Store → Store
upload_parts externals identity i now payload [] s = s
upload_parts externals identity i now payload (n ∷ ns) s =
    upload_parts externals identity i now payload ns
      (put_chunk externals identity i.session_id n (part_bytes i payload n) none now s).1

abbrev pub InRange : UploadSession → ℕ → Type 0
InRange i n = (1 ≤ n) × (n ≤ i.total_parts)

module _ (externals : Externals) (identity : IdentityContext) (i : UploadSession) (now : ℕ)
    (payload : Text) where
  -- What one `put_chunk` leaves: the parts with one more, and the bytes under the part.
  put_chunk-store :
      (ps : List UploadChunkInfo) (s : Store) (n : ℕ)
      → Shape i
      → length payload ≡ i.file_size_bytes
      → Uploadable identity i now
      → InProgress i ps s
      → InRange i n
      → (put_chunk externals identity i.session_id n (part_bytes i payload n) none now s).1
        ≡ chunk_saved externals identity
            (part_bytes i payload n)
            (having ps i, chunk_info externals (having ps i) n (part_bytes i payload n) now)
            s
  unfolding put_chunk
  put_chunk-store ps s n shape long ready progress range =
      rw
        (check_chunk-accepts externals identity i now ps s n (part_bytes i payload n) shape ready
          progress range.0 range.1 (length-part_bytes i payload n shape long range.0 range.1))
        refl

  abbrev next_parts : List UploadChunkInfo → ℕ → List UploadChunkInfo
  next_parts ps n =
      (with_part (having ps i)
        (chunk_info externals (having ps i) n (part_bytes i payload n) now)).received_parts

  saved-InProgress :
      (ps : List UploadChunkInfo) (s : Store) (n : ℕ)
      → InProgress i ps s
      → InProgress i (next_parts ps n) (
          chunk_saved externals identity
            (part_bytes i payload n)
            (having ps i, chunk_info externals (having ps i) n (part_bytes i payload n) now)
            s)
  unfolding write_audit upsert_session put_chunk_bytes with_part
  saved-InProgress ps s n progress = (
    progress.0,
    lookup-insert i.session_id i.session_id (having (next_parts ps n) i) s.sessions
        ∙ simp (==_refl i.session_id) refl,
  )

  saved-Cut :
      (ps : List UploadChunkInfo) (s : Store) (n m : ℕ)
      → (n ≡ m) ⊎ Cut s.chunks i payload m
      → Cut
          (chunk_saved externals identity
            (part_bytes i payload n)
            (having ps i, chunk_info externals (having ps i) n (part_bytes i payload n) now)
            s).chunks
          i
          payload
          m
  unfolding write_audit upsert_session put_chunk_bytes
  saved-Cut ps s n m h = elim (Bool-cases (n == m)) [
    | inl e ↦
        subst
          (λ k.
            lookup_chunk i.session_id k
              (insert_chunk i.session_id n (part_bytes i payload n) s.chunks)
            ≡ some (part_bytes i payload k))
          (==→≡ n m e)
          (lookup_chunk-insert_chunk i.session_id n i.session_id n (part_bytes i payload n) s.chunks
            ∙ simp (==_refl i.session_id, ==_refl n) refl)
    | inr d ↦
        lookup_chunk-insert_chunk i.session_id n i.session_id m (part_bytes i payload n) s.chunks
        ∙ simp (==_refl i.session_id, d) (old d h)
  ]
    where
      old : (n == m) ≡ false → (n ≡ m) ⊎ Cut s.chunks i payload m → Cut s.chunks i payload m
      old d (inl e) = absurd (ground arith)
      old d (inr c) = c

  upload_parts-Cut :
      (ps : List UploadChunkInfo) (order : List ℕ) (s : Store) (m : ℕ)
      → Shape i
      → length payload ≡ i.file_size_bytes
      → Uploadable identity i now
      → InProgress i ps s
      → All (InRange i) order
      → (elem m order ≡ true) ⊎ Cut s.chunks i payload m
      → Cut (upload_parts externals identity i now payload order s).chunks i payload m
  unfolding upload_parts elem
  upload_parts-Cut ps [] s m shape long ready progress range (inl h) = cc
  upload_parts-Cut ps [] s m shape long ready progress range (inr c) = c
  upload_parts-Cut ps (n ∷ ns) s m shape long ready progress range h =
      subst (λ t. Cut (upload_parts externals identity i now payload ns t).chunks i payload m)
        (sym (put_chunk-store ps s n shape long ready progress range.0))
        (upload_parts-Cut (next_parts ps n) ns _ m shape long ready
          (saved-InProgress ps s n progress) range.1 (next h))
    where
      next :
          (elem m (n ∷ ns) ≡ true) ⊎ Cut s.chunks i payload m
          → (elem m ns ≡ true)
            ⊎ Cut
                (chunk_saved externals identity
                  (part_bytes i payload n)
                  (having ps i, chunk_info externals (having ps i) n (part_bytes i payload n) now)
                  s).chunks
                i
                payload
                m
      next (inr c) = inr (saved-Cut ps s n m (inr c))
      next (inl e) = elim (Bool-cases (n == m)) [
        | inl y ↦ inr (saved-Cut ps s n m (inl (==→≡ n m y)))
        | inr d ↦ inl (ground arith)
      ]

  -- Where the audit is available and the identity sees an active session that is not due, the parts of
  -- a file of its size, uploaded in any order that leaves none out, are put together to the file again.
  pub upload_parts-compose_chunks :
      (order : List ℕ) (s : Store)
      → Shape i
      → length payload ≡ i.file_size_bytes
      → Uploadable identity i now
      → s.audit_available ≡ true
      → lookup i.session_id s.sessions ≡ some i
      → All (InRange i) order
      → ((m : ℕ) → InRange i m → elem m order ≡ true)
      → compose_chunks i.session_id i.total_parts
          (upload_parts externals identity i now payload order s)
        ≡ some payload
  unfolding compose_chunks drop
  upload_parts-compose_chunks order s shape long ready audit at range complete =
      compose_from-Cut (upload_parts externals identity i now payload order s).chunks i payload 0
        i.total_parts shape long (omega arith)
        (λ m low high.
          upload_parts-Cut i.received_parts order s m shape long ready (audit, at) range
            (inl (complete m (low, high))))
      ∙ ap some (drop_same (0 * i.chunk_size_bytes) 0 (omega arith) payload)
