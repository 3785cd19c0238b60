-- ===== src/Documents/Slices.antt =====
-- The parts of a file (documents/application/services.py): cut as the session says, uploaded in any
-- order, and put together again.
use native.Mathlib.Nat.{mul-le-mul_right}
use biaice.Common.{
  ℕ, zero, suc, ◌+◌, ◌-◌, ◌*◌, ◌≤◌, ◌≡◌, refl, sym, ap, ◌∙◌, false, some, List, [], ◌∷◌, ◌++◌, Text,
  ◌==◌, length, arith, Bool-cases, inl, inr,
}
use biaice.Documents.Model.{UploadSession}
use biaice.Documents.Scanner.{first}
use biaice.Documents.Store.{lookup_chunk, compose_from}
use biaice.Documents.Upload.{expected_size}
use biaice.Documents.Parts.{Shape}
use biaice.Documents.Sizes.{parts_cover}

-- `t[n:]`
unfoldable pub drop : ℕ → Text → Text
drop zero t = t
drop (suc n) [] = []
drop (suc n) (c ∷ t) = drop n t

first-drop : (n : ℕ) (t : Text) → first n t ++ drop n t ≡ t
unfolding first drop
first-drop zero t = refl
first-drop (suc n) [] = refl
first-drop (suc n) (c ∷ t) = ap (λ x. c ∷ x) (first-drop n t)

first-all : (n : ℕ) (t : Text) → length t ≤ n → first n t ≡ t
unfolding first
first-all zero [] h = refl
first-all zero (c ∷ t) h = absurd (omega arith)
first-all (suc n) [] h = refl
first-all (suc n) (c ∷ t) h = ap (λ x. c ∷ x) (first-all n t (omega arith))

length-first : (n : ℕ) (t : Text) → n ≤ length t → length (first n t) ≡ n
unfolding first
length-first zero t h = refl
length-first (suc n) [] h = omega arith
length-first (suc n) (c ∷ t) h = ap suc (length-first n t (omega arith))

length-drop : (n : ℕ) (t : Text) → length (drop n t) ≡ length t - n
unfolding drop
length-drop zero t = omega arith
length-drop (suc n) [] = omega arith
length-drop (suc n) (c ∷ t) = omega (arith, length-drop n t)

drop-all : (n : ℕ) (t : Text) → length t ≤ n → drop n t ≡ []
unfolding drop
drop-all zero [] h = refl
drop-all zero (c ∷ t) h = absurd (omega arith)
drop-all (suc n) [] h = refl
drop-all (suc n) (c ∷ t) h = drop-all n t (omega arith)

pub drop_same : (m n : ℕ) → m ≡ n → (t : Text) → drop m t ≡ drop n t
drop_same m n e t = ap (λ k. drop k t) e

drop-drop : (n m : ℕ) (t : Text) → drop n (drop m t) ≡ drop (m + n) t
unfolding drop
drop-drop n zero t = drop_same n (zero + n) (omega arith) t
drop-drop n (suc m) [] = drop-all n [] (omega arith) ∙ sym (drop-all (suc m + n) [] (omega arith))
drop-drop n (suc m) (c ∷ t) =
    drop-drop n m t ∙ drop_same (suc (m + n)) (suc m + n) (omega arith) (c ∷ t)

-- The bytes of the part, cut out of the file.
unfoldable pub part_bytes : UploadSession → Text → ℕ → Text
part_bytes i payload n = first (expected_size i n) (drop ((n - 1) * i.chunk_size_bytes) payload)

before_last : (n k : ℕ) → (n == k) ≡ false → n ≤ k → n ≤ k - 1
before_last n k d h = ground arith

-- A part lies in the file.
part_fits :
    (i : UploadSession) (n : ℕ)
    → Shape i
    → 1 ≤ n
    → n ≤ i.total_parts
    → (n - 1) * i.chunk_size_bytes + expected_size i n ≤ i.file_size_bytes
unfolding expected_size
part_fits i n shape low high =
    let (some_parts, inside, _) = parts_cover i shape in
    elim (Bool-cases (n == i.total_parts)) [
      | inl e ↦ grind arith
      | inr d ↦
          grind (arith, mul-le-mul_right i.chunk_size_bytes (before_last n i.total_parts d high))
    ]

-- A part that is cut out of a file of the right size has the length that `put_chunk` asks for.
pub length-part_bytes :
    (i : UploadSession) (payload : Text) (n : ℕ)
    → Shape i
    → length payload ≡ i.file_size_bytes
    → 1 ≤ n
    → n ≤ i.total_parts
    → length (part_bytes i payload n) ≡ expected_size i n
unfolding part_bytes
length-part_bytes i payload n shape long low high =
    length-first (expected_size i n) (drop ((n - 1) * i.chunk_size_bytes) payload) (
      omega
        (arith, length-drop ((n - 1) * i.chunk_size_bytes) payload, part_fits i n shape low high))

-- Each part is stored as it is cut out of the file.
abbrev pub Cut : List ((ℕ × ℕ) × Text) → UploadSession → Text → ℕ → Type 0
Cut cs i payload n = lookup_chunk i.session_id n cs ≡ some (part_bytes i payload n)

past_end :
    (i : UploadSession) (n : ℕ) (payload : Text)
    → Shape i
    → length payload ≡ i.file_size_bytes
    → n + 0 ≡ i.total_parts
    → length payload ≤ n * i.chunk_size_bytes
past_end i n payload shape long at =
    let (some_parts, _, covered) = parts_cover i shape in grind arith

-- What follows a part is what the next one begins with.
rest_after :
    (i : UploadSession) (payload : Text) (n : ℕ)
    → Shape i
    → length payload ≡ i.file_size_bytes
    → suc n ≤ i.total_parts
    → drop (suc n * i.chunk_size_bytes) payload
      ≡ drop (n * i.chunk_size_bytes + expected_size i (suc n)) payload
unfolding expected_size
rest_after i payload n shape long high =
    let (some_parts, inside, covered) = parts_cover i shape in
    elim (Bool-cases (suc n == i.total_parts)) [
      | inl e ↦
          drop-all (suc n * i.chunk_size_bytes) payload (grind arith)
          ∙ sym (drop-all _ payload (grind arith))
      | inr d ↦ drop_same (suc n * i.chunk_size_bytes) _ (grind arith) payload
    ]

pred_suc : (n : ℕ) → suc n - 1 ≡ n
pred_suc n = omega arith

join_part :
    (i : UploadSession) (payload : Text) (n : ℕ)
    → Shape i
    → length payload ≡ i.file_size_bytes
    → suc n ≤ i.total_parts
    → part_bytes i payload (suc n) ++ drop (suc n * i.chunk_size_bytes) payload
      ≡ drop (n * i.chunk_size_bytes) payload
unfolding part_bytes
join_part i payload n shape long high =
    ap
      (λ m.
        first (expected_size i (suc n)) (drop (m * i.chunk_size_bytes) payload)
        ++ drop (suc n * i.chunk_size_bytes) payload)
      (pred_suc n)
    ∙ ap (λ u. first (expected_size i (suc n)) (drop (n * i.chunk_size_bytes) payload) ++ u)
        (rest_after i payload n shape long high
          ∙ sym (drop-drop (expected_size i (suc n)) (n * i.chunk_size_bytes) payload))
    ∙ first-drop (expected_size i (suc n)) (drop (n * i.chunk_size_bytes) payload)

pub compose_from-Cut :
    (cs : List ((ℕ × ℕ) × Text)) (i : UploadSession) (payload : Text) (n count : ℕ)
    → Shape i
    → length payload ≡ i.file_size_bytes
    → n + count ≡ i.total_parts
    → ((m : ℕ) → 1 ≤ m → m ≤ i.total_parts → Cut cs i payload m)
    → compose_from i.session_id (suc n) count cs ≡ some (drop (n * i.chunk_size_bytes) payload)
unfolding compose_from
compose_from-Cut cs i payload n zero shape long at cut =
    ap some (sym (drop-all (n * i.chunk_size_bytes) payload (past_end i n payload shape long at)))
compose_from-Cut cs i payload n (suc count) shape long at cut =
    rw
      (
        cut (suc n) (omega arith) (omega arith),
        compose_from-Cut cs i payload (suc n) count shape long (omega arith) cut,
      )
      (ap some (join_part i payload n shape long (omega arith)))
