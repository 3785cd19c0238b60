-- ===== src/Documents/Parts.antt =====
-- The parts of an upload (documents/application/services.py and repository.py): the chunks stored
-- under a session, the parts that a session has received, and the file that they make up.
use biaice.Common.{
  ℕ, zero, suc, ◌+◌, ◌≤◌, ◌<◌, ◌≡◌, refl, ◌∙◌, true, false, not, ◌&&◌, ◌||◌, ◌⊎◌, inl, inr, some,
  List, [], ◌∷◌, ◌++◌, Text, ◌==◌, length, length-append, keep, is_empty, if◌then◌else◌, arith,
  Bool-cases,
}
use biaice.Documents.Model.{
  UploadSession, UploadChunkInfo, has_part, range_from, missing_part_numbers,
}
use biaice.Documents.Store.{lookup_chunk, insert_chunk, without_session, compose_from}
use biaice.Documents.Upload.{total_parts_of, expected_size, insert_part, with_part}

pub lookup_chunk-insert_chunk :
    (k n j m : ℕ) (payload : Text) (cs : List ((ℕ × ℕ) × Text))
    → lookup_chunk j m (insert_chunk k n payload cs)
      ≡ (if k == j && n == m then some payload else lookup_chunk j m cs)
unfolding lookup_chunk insert_chunk
lookup_chunk-insert_chunk k n j m payload [] = refl
lookup_chunk-insert_chunk k n j m payload (((a, b), old) ∷ cs) =
    ground (arith, lookup_chunk-insert_chunk k n j m payload cs)

pub lookup_chunk-without_session :
    (k j n : ℕ) (cs : List ((ℕ × ℕ) × Text))
    → (k == j) ≡ false
    → lookup_chunk j n (without_session k cs) ≡ lookup_chunk j n cs
unfolding lookup_chunk without_session
lookup_chunk-without_session k j n [] h = refl
lookup_chunk-without_session k j n (((a, b), old) ∷ cs) h =
    ground (arith, lookup_chunk-without_session k j n cs)

has_part-insert_part :
    (c : UploadChunkInfo) (ps : List UploadChunkInfo) (n : ℕ)
    → has_part (insert_part c ps) n ≡ (c.part_number == n || has_part ps n)
unfolding has_part insert_part
has_part-insert_part c [] n = refl
has_part-insert_part c (p ∷ ps) n = ground (arith, has_part-insert_part c ps n)

has_part-others :
    (k : ℕ) (ps : List UploadChunkInfo) (n : ℕ)
    → has_part (keep (λ (p : UploadChunkInfo). not (p.part_number == k)) ps) n ≡ true
    → has_part ps n ≡ true
unfolding has_part
has_part-others k [] n h = h
has_part-others k (p ∷ ps) n h = ground (arith, has_part-others k ps n)

-- A received part is the new one, or was received before.
pub has_part-with_part :
    (i : UploadSession) (c : UploadChunkInfo) (n : ℕ)
    → has_part (with_part i c).received_parts n ≡ true
    → (c.part_number ≡ n) ⊎ (has_part i.received_parts n ≡ true)
unfolding with_part
has_part-with_part i c n h = elim (Bool-cases (c.part_number == n)) [
  | inl e ↦ inl (ground arith)
  | inr d ↦ inr (
      has_part-others c.part_number i.received_parts n (
        ground (
          arith,
          has_part-insert_part c
              (keep (λ (p : UploadChunkInfo). not (p.part_number == c.part_number))
                i.received_parts)
              n,
        )))
]

none_missing :
    (ps : List UploadChunkInfo) (first count : ℕ)
    → is_empty (keep (λ n. not (has_part ps n)) (range_from first count)) ≡ true
    → (n : ℕ) → first ≤ n
    → n < first + count
    → has_part ps n ≡ true
unfolding range_from
none_missing ps first zero h n low high = ground arith
none_missing ps first (suc count) h n low high = elim (Bool-cases (has_part ps first)) [
  | inl e ↦ elim (Bool-cases (first == n)) [
    | inl y ↦ ground arith
    | inr d ↦ none_missing ps (first + 1) count (ground arith) n (ground arith) (omega arith)
  ]
  | inr e ↦ ground arith
]

-- Where no part is missing, every part has been received.
pub missing_part_numbers-covers :
    (i : UploadSession)
    → is_empty (missing_part_numbers i) ≡ true
    → (n : ℕ) → 1 ≤ n
    → n ≤ i.total_parts
    → has_part i.received_parts n ≡ true
unfolding missing_part_numbers
missing_part_numbers-covers i h n low high =
    none_missing i.received_parts 1 i.total_parts h n low (omega arith)

-- The chunk of the part is stored, and has the length that the part must have.
abbrev pub Held : List ((ℕ × ℕ) × Text) → UploadSession → ℕ → Type 0
Held cs i n =
    (payload : Text) × (lookup_chunk i.session_id n cs ≡ some payload)
    × (length payload ≡ expected_size i n)

-- What `create_session` makes sure of.
abbrev pub Shape : UploadSession → Type 0
Shape i =
    (0 < i.file_size_bytes)
    × (0 < i.chunk_size_bytes)
    × (i.total_parts ≡ total_parts_of i.file_size_bytes i.chunk_size_bytes)

-- The lengths of `count` parts from `first` on, added up.
unfoldable pub sizes : UploadSession → ℕ → ℕ → ℕ
sizes i first zero = 0
sizes i first (suc count) = expected_size i first + sizes i (suc first) count

pub compose_from-Held :
    (cs : List ((ℕ × ℕ) × Text)) (i : UploadSession) (first count : ℕ)
    → ((n : ℕ) → first ≤ n → n < first + count → Held cs i n)
    → (payload : Text) × (compose_from i.session_id first count cs ≡ some payload)
      × (length payload ≡ sizes i first count)
unfolding compose_from sizes
compose_from-Held cs i first zero held = ([], refl, refl)
compose_from-Held cs i first (suc count) held =
    let here = held first (omega arith) (omega arith) in
    let rest =
      compose_from-Held cs i (suc first) count (λ n low high. held n (omega arith) (omega arith)) in
    (
      here.0 ++ rest.0,
      rw (here.1, rest.1) refl,
      length-append here.0 rest.0 ∙ rw (here.2, rest.2) refl,
    )
