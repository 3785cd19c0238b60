-- ===== src/Documents/Sizes.antt =====
-- The lengths that `put_chunk` of documents/application/services.py asks of the parts: each is between
-- one byte and the size of a chunk, and together they are the file.
use native.Mathlib.Nat.{lt-mul-div-succ, mul-div-le}
use biaice.Common.{ℕ, zero, suc, ◌+◌, ◌-◌, ◌*◌, ◌≤◌, ◌<◌, ◌≡◌, ◌∙◌, ap, arith}
use biaice.Documents.Model.{UploadSession}
use biaice.Documents.Upload.{total_parts_of, expected_size}
use biaice.Documents.Parts.{Shape, sizes}

-- The last part begins inside the file, and the file ends in it.
total_parts_of-covers :
    (file chunk : ℕ)
    → 0 < file
    → 0 < chunk
    → (1 ≤ total_parts_of file chunk)
      × (chunk * (total_parts_of file chunk - 1) < file)
      × (file ≤ chunk * (total_parts_of file chunk - 1) + chunk)
total_parts_of-covers file chunk f c =
    let low = mul-div-le (file + chunk - 1) chunk in
    let high = lt-mul-div-succ (file + chunk - 1) c in grind arith

-- All parts but the last have the size of a chunk.
sizes-whole :
    (i : UploadSession) (first count : ℕ)
    → first + count ≤ i.total_parts
    → sizes i first count ≡ count * i.chunk_size_bytes
unfolding sizes expected_size
sizes-whole i first zero h = omega arith
sizes-whole i first (suc count) h = grind (arith, sizes-whole i (suc first) count (omega arith))

sizes-rest :
    (i : UploadSession) (first count : ℕ)
    → first + count ≡ i.total_parts
    → sizes i first (suc count)
      ≡ count * i.chunk_size_bytes + (i.file_size_bytes - i.chunk_size_bytes * (i.total_parts - 1))
unfolding sizes expected_size
sizes-rest i first zero h = grind arith
sizes-rest i first (suc count) h = grind (arith, sizes-rest i (suc first) count (omega arith))

pub parts_cover :
    (i : UploadSession)
    → Shape i
    → (1 ≤ i.total_parts)
      × (i.chunk_size_bytes * (i.total_parts - 1) < i.file_size_bytes)
      × (i.file_size_bytes ≤ i.chunk_size_bytes * (i.total_parts - 1) + i.chunk_size_bytes)
parts_cover i shape =
    rw (shape.2) (total_parts_of-covers i.file_size_bytes i.chunk_size_bytes (shape.0) shape.1)

sizes_at :
    (i : UploadSession)
    → i.total_parts ≡ suc (i.total_parts - 1)
    → sizes i 1 i.total_parts ≡ sizes i 1 (suc (i.total_parts - 1))
sizes_at i h = ap (sizes i 1) h

-- The parts make up the file.
pub sizes-total : (i : UploadSession) → Shape i → sizes i 1 i.total_parts ≡ i.file_size_bytes
sizes-total i shape =
    let covers = parts_cover i shape in
    let rest = sizes-rest i 1 (i.total_parts - 1) (omega (arith, covers.0)) in
    sizes_at i (omega (arith, covers.0)) ∙ rest ∙ grind (arith, covers.1)

-- A part has a byte at least, and a chunk's size at most.
pub expected_size-bounds :
    (i : UploadSession) (n : ℕ)
    → Shape i
    → (1 ≤ expected_size i n) × (expected_size i n ≤ i.chunk_size_bytes)
unfolding expected_size
expected_size-bounds i n shape = let covers = parts_cover i shape in grind (arith, shape.1)
