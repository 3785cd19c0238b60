-- ===== src/Documents/Sessions.antt =====
-- What holds of every stored upload session (documents/application/services.py): the parts that an
-- active one has received are stored, in range, and of the right length.
use biaice.Common.{
  ℕ, ◌≤◌, ◌≡◌, ◌≢◌, refl, sym, ap, ◌∙◌, subst, Bool, true, false, not, ◌&&◌, ◌⊎◌, inl, inr, Option,
  none, some, some_inj, List, Text, ◌==◌, ltb, leb, length, is_empty, if◌then◌else◌, arith,
  Bool-cases,
}
use biaice.Common.Dict.{lookup, Each, Each-insert, Each-replace}
use biaice.Core.Errors.{
  Failure, ok, err, >>=-eq-ok, raise_if, raise_if-eq-ok, or_raise, or_raise-eq-ok, ok_inj,
}
use biaice.Core.Scope.{TenantScope, IdentityContext}
use biaice.Documents.Model.{
  UploadSession, UploadChunkInfo, UploadSessionStatus, active, completed, cancelled, expired,
  expire, effective_upload_session, has_part,
}
use biaice.Documents.Store.{
  Store, session_shown, get_session, upsert_session, put_chunk_bytes, drop_chunks, insert_chunk,
  without_session,
}
use biaice.Documents.Upload.{
  Externals, find_session, require_active, with_part, expected_size, hash_differs, check_part,
}
use biaice.Documents.Parts.{
  Held, Shape, has_part-with_part, lookup_chunk-insert_chunk, lookup_chunk-without_session,
}

abbrev pub Received : List ((ℕ × ℕ) × Text) → UploadSession → ℕ → Type 0
Received cs i n = (1 ≤ n) × (n ≤ i.total_parts) × Held cs i n

-- A session as it is stored under a key, with the chunks.
abbrev pub SoundSession : List ((ℕ × ℕ) × Text) → ℕ → UploadSession → Type 0
SoundSession cs k i =
    (i.session_id ≡ k)
    × Shape i
    × (i.status ≡ active → (n : ℕ) → has_part i.received_parts n ≡ true → Received cs i n)

abbrev pub SoundSessions : Store → Type 0
SoundSessions s = Each (SoundSession s.chunks) s.sessions

require_active-eq-ok :
    (t : UploadSessionStatus) {u : Unit {0}} → require_active t ≡ ok u → t ≡ active
require_active-eq-ok active h = refl
require_active-eq-ok completed h = cc
require_active-eq-ok cancelled h = cc
require_active-eq-ok expired h = cc

expire-active :
    (t : UploadSessionStatus) (now : ℕ) (i : UploadSession)
    → (expire t now i).status ≡ active
    → expire t now i ≡ i
expire-active active now i h = ground arith
expire-active completed now i h = refl
expire-active cancelled now i h = refl
expire-active expired now i h = refl

pub effective-active :
    (i : UploadSession) (now : ℕ)
    → (effective_upload_session i now).status ≡ active
    → effective_upload_session i now ≡ i
unfolding effective_upload_session
effective-active i now h = expire-active i.status now i h

session_shown-eq-some :
    (scope : TenantScope) (o : Option UploadSession) {i : UploadSession}
    → session_shown scope o ≡ some i
    → o ≡ some i
session_shown-eq-some scope none h = cc
session_shown-eq-some scope (some j) h = ground arith

-- The session that the scope shows under an identifier is the stored one, at most expired.
pub find_session-eq-ok :
    (identity : IdentityContext) (id now : ℕ) (s : Store) {i : UploadSession}
    → find_session identity id now s ≡ ok i
    → (j : UploadSession) × (lookup id s.sessions ≡ some j) × (effective_upload_session j now ≡ i)
unfolding find_session get_session
find_session-eq-ok identity id now s h =
    let a = >>=-eq-ok (or_raise (get_session identity.scope id s) _) _ h in
    (
      a.0,
      session_shown-eq-some identity.scope (lookup id s.sessions) (or_raise-eq-ok _ _ a.1),
      ok_inj a.2,
    )

pub ok_if :
    {A : Type 0} (b : Bool) (f : Failure) (x : A) {y : A}
    → (if b then ok x else err f) ≡ ok y
    → (b ≡ true) × (y ≡ x)
ok_if true f x h = (refl, cc)
ok_if false f x h = cc

pub check_part-eq-ok :
    (externals : Externals) (i : UploadSession) (part : ℕ) (payload : Text) (declared : Option Text)
    (now : ℕ) {x : UploadSession × UploadChunkInfo}
    → check_part externals i part payload declared now ≡ ok x
    → (i.status ≡ active)
      × (1 ≤ part)
      × (part ≤ i.total_parts)
      × (length payload ≡ expected_size i part)
      × (x.0 ≡ i)
      × (x.1.part_number ≡ part)
unfolding check_part
check_part-eq-ok externals i part payload declared now h =
    let a = >>=-eq-ok (require_active i.status) _ h in
    let b = >>=-eq-ok (raise_if (ltb i.total_parts part) _) _ (a.2) in
    let c = >>=-eq-ok (raise_if (is_empty payload) _) _ (b.2) in
    let d = >>=-eq-ok (raise_if (not (length payload == expected_size i part)) _) _ (c.2) in
    let e = >>=-eq-ok (raise_if (hash_differs declared (externals.sha256 payload)) _) _ (d.2) in
    let in_range = raise_if-eq-ok _ _ b.1 in
    let long = raise_if-eq-ok _ _ d.1 in
    let last = ok_if (leb 1 part) _ _ (e.2) in
    (
      require_active-eq-ok i.status a.1,
      ground (arith, last.0),
      ground (arith, in_range),
      ground (arith, long),
      ap (λ y. y.0) last.1,
      ap (λ y. y.1.part_number) last.1,
    )

Held-new :
    (w : UploadSession) (n : ℕ) (payload : Text) (cs : List ((ℕ × ℕ) × Text))
    → length payload ≡ expected_size w n
    → Held (insert_chunk w.session_id n payload cs) w n
Held-new w n payload cs long = (
  payload,
  ground (arith, lookup_chunk-insert_chunk w.session_id n w.session_id n payload cs),
  long,
)

-- A chunk that is put in place of another has the length that is asked for.
Held-insert_chunk :
    (w : UploadSession) (k m n : ℕ) (payload : Text) (cs : List ((ℕ × ℕ) × Text))
    → (k ≡ w.session_id → m ≡ n → length payload ≡ expected_size w n)
    → Held cs w n
    → Held (insert_chunk k m payload cs) w n
Held-insert_chunk w k m n payload cs long held = elim (Bool-cases (k == w.session_id && m == n)) [
  | inl e ↦ (
    payload,
    ground (arith, lookup_chunk-insert_chunk k m w.session_id n payload cs),
    ground (arith, long),
  )
  | inr d ↦ (held.0, lookup_chunk-insert_chunk k m w.session_id n payload cs ∙ rw d held.1, held.2)
]

Held-without_session :
    (w : UploadSession) (k n : ℕ) (cs : List ((ℕ × ℕ) × Text))
    → (k == w.session_id) ≡ false
    → Held cs w n
    → Held (without_session k cs) w n
Held-without_session w k n cs other held =
    (held.0, lookup_chunk-without_session k w.session_id n cs other ∙ held.1, held.2)

-- A part of an active session is stored.
pub SoundSessions-put :
    (i : UploadSession) (c : UploadChunkInfo) (payload : Text) (s : Store)
    → lookup i.session_id s.sessions ≡ some i
    → i.status ≡ active
    → (1 ≤ c.part_number)
      × (c.part_number ≤ i.total_parts)
      × (length payload ≡ expected_size i c.part_number)
    → SoundSessions s
    → SoundSessions
        (upsert_session (with_part i c) (put_chunk_bytes i.session_id c.part_number payload s))
unfolding upsert_session put_chunk_bytes with_part expected_size
SoundSessions-put i c payload s stored now fits sound =
    Each-insert (SoundSession (insert_chunk i.session_id c.part_number payload s.chunks))
      i.session_id (with_part i c) s.sessions
      (refl, (sound i.session_id i stored).1, λ _ n h. here n (has_part-with_part i c n h))
      (λ k w at.
        let old = sound k w at in
        (old.0, old.1, λ active n h. there k w at (old.0) n (old.2 active n h)))
  where
    same :
        (w : UploadSession)
        → i ≡ w
        → (n : ℕ) → c.part_number ≡ n
        → length payload ≡ expected_size w n
    same w e n m =
        subst (λ x. length payload ≡ expected_size x n) e
          (subst (λ x. length payload ≡ expected_size i x) m (fits.2))

    there :
        (k : ℕ) (w : UploadSession)
        → lookup k s.sessions ≡ some w
        → w.session_id ≡ k
        → (n : ℕ) → Received s.chunks w n
        → Received (insert_chunk i.session_id c.part_number payload s.chunks) w n
    there k w at key n (low, high, held) = (
      low,
      high,
      Held-insert_chunk w i.session_id c.part_number n payload s.chunks
          (λ e m.
            same w (some_inj i w (sym stored ∙ ap (λ x. lookup x s.sessions) (e ∙ key) ∙ at)) n m)
          held,
    )

    here :
        (n : ℕ)
        → (c.part_number ≡ n) ⊎ (has_part i.received_parts n ≡ true)
        → Received (insert_chunk i.session_id c.part_number payload s.chunks) (with_part i c) n
    here n (inl e) =
        subst
          (λ m.
            Received (insert_chunk i.session_id c.part_number payload s.chunks) (with_part i c) m)
          e (fits.0, fits.1, Held-new i c.part_number payload s.chunks fits.2)
    here n (inr h) = there i.session_id i stored refl n ((sound i.session_id i stored).2 now n h)

-- A session ends, and its chunks are dropped.
pub SoundSessions-end :
    (i : UploadSession) (s : Store)
    → Shape i
    → i.status ≢ active
    → SoundSessions s
    → SoundSessions (drop_chunks i.session_id (upsert_session i s))
unfolding upsert_session drop_chunks
SoundSessions-end i s shape ended sound =
    Each-replace (SoundSession (without_session i.session_id s.chunks)) i.session_id i s.sessions
      (refl, shape, λ now n h. absurd (ended now))
      (λ k w other at.
        let old = sound k w at in
        (
          old.0,
          old.1,
          λ now n h.
              let (low, high, held) = old.2 now n h in
              (low, high, Held-without_session w i.session_id n s.chunks (rw (old.0) other) held),
        ))
