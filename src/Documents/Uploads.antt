-- ===== src/Documents/Uploads.antt =====
-- The steps of an upload (documents/application/services.py) keep the stored sessions sound.
use biaice.Common.{
  ℕ, ◌≤◌, ◌<◌, ◌≡◌, refl, sym, ap, ◌∙◌, subst, Bool, true, not, ◌&&◌, ◌⊎◌, inl, inr, Option, none,
  some, List, Text, ltb, leb, length, arith, Bool-cases,
}
use biaice.Common.Dict.{lookup, Each-insert}
use biaice.Core.Errors.{ok, >>=-eq-ok, raise_if, raise_if-eq-ok, ok_inj}
use biaice.Core.Scope.{IdentityContext, assert_allows}
use biaice.Documents.Model.{
  UploadSession, UploadChunkInfo, UploadSessionStatus, active, completed, cancelled, expired,
  expire, effective_upload_session, has_part, session_valid, SourceDocument,
}
use biaice.Documents.Intake.{filename_extension}
use biaice.Documents.Store.{
  Store, upsert_session, drop_chunks, settle-keeps, write_audit, emit_event, upsert_document,
  upsert_replica, put_blob, put_chunk_bytes, find_by_content_hash,
}
use biaice.Documents.Upload.{
  expected_size, Externals, UploadRequest, new_session, min_chunk_size_bytes, max_chunk_size_bytes,
  session_saved, check_session, create_session, with_part, chunk_saved, check_chunk, put_chunk,
  max_file_size_bytes, cancelled_session, check_part, find_session, check_cancel, cancellable,
  cancel, cancel_effect,
}
use biaice.Documents.Completion.{
  Draws, complete, complete_effect, finish, announced, completed_with,
}
use biaice.Documents.Finishing.{announced_keeps, complete_keeps}
use biaice.Documents.Parts.{Shape}
use biaice.Documents.Sessions.{
  SoundSession, SoundSessions, SoundSessions-put, SoundSessions-end, find_session-eq-ok,
  effective-active, check_part-eq-ok, ok_if,
}

-- A session that is read is at most expired.
effective-Shape :
    (i : UploadSession) (now : ℕ)
    → Shape i
    → Shape (effective_upload_session i now)
      × ((effective_upload_session i now).session_id ≡ i.session_id)
unfolding effective_upload_session
effective-Shape i now shape = by_status i.status
  where
    by_status :
        (t : UploadSessionStatus)
        → Shape (expire t now i) × ((expire t now i).session_id ≡ i.session_id)
    by_status active = elim (Bool-cases (leb i.expires_at now)) [
      | inl e ↦ rw e (shape, refl)
      | inr e ↦ rw e (shape, refl)
    ]
    by_status completed = (shape, refl)
    by_status cancelled = (shape, refl)
    by_status expired = (shape, refl)

-- The session that a call reads is sound, and is the stored one if it is active.
read_session :
    (identity : IdentityContext) (id now : ℕ) (s : Store) {i : UploadSession}
    → SoundSessions s
    → find_session identity id now s ≡ ok i
    → (i.session_id ≡ id) × Shape i × (i.status ≡ active → lookup id s.sessions ≡ some i)
read_session identity id now s {i} sound h =
    let (j, at, e) = find_session-eq-ok identity id now s h in
    let (key, shape, _) = sound id j at in
    let kept = effective-Shape j now shape in
    (
      sym (ap (λ x. x.session_id) e) ∙ kept.1 ∙ key,
      subst Shape e (kept.0),
      λ now_active.
          at
          ∙ ap some (
              sym (effective-active j now (subst (λ x. x.status ≡ active) (sym e) now_active)) ∙ e),
    )

abbrev in_bounds : UploadRequest → Bool
in_bounds q =
    leb min_chunk_size_bytes q.chunk_size_bytes && leb q.chunk_size_bytes max_chunk_size_bytes

valid-nonempty : (i : UploadSession) → session_valid i ≡ true → 0 < i.file_size_bytes
unfolding session_valid
valid-nonempty i h = ground arith

check_session-eq-ok :
    (identity : IdentityContext) (q : UploadRequest) (s : Store) {i : UploadSession}
    → check_session identity q s ≡ ok i
    → (i ≡ new_session identity q)
      × (session_valid (new_session identity q) ≡ true)
      × (in_bounds q ≡ true)
unfolding check_session
check_session-eq-ok identity q s h =
    let a = >>=-eq-ok (raise_if (not s.audit_available) _) _ h in
    let b =
      >>=-eq-ok
        (assert_allows identity.scope identity.scope.tenant_id identity.scope.data_domain_id
          q.project_id q.decision_unit_id)
        _ (a.2) in
    let c = >>=-eq-ok (filename_extension q.filename) _ (b.2) in
    let d = >>=-eq-ok (raise_if (ltb max_file_size_bytes q.file_size_bytes) _) _ (c.2) in
    let e = >>=-eq-ok (raise_if (not (in_bounds q)) _) _ (d.2) in
    let last = ok_if (session_valid (new_session identity q)) _ _ (e.2) in
    let within = raise_if-eq-ok (not (in_bounds q)) _ e.1 in
    (last.1, last.0, ground (arith, within))

new_session-Shape :
    (identity : IdentityContext) (q : UploadRequest)
    → session_valid (new_session identity q) ≡ true
    → in_bounds q ≡ true
    → Shape (new_session identity q)
unfolding new_session
new_session-Shape identity q valid within =
    (valid-nonempty (new_session identity q) valid, ground (arith, within), refl)

new_session-SoundSession :
    (cs : List ((ℕ × ℕ) × Text)) (identity : IdentityContext) (q : UploadRequest)
    → Shape (new_session identity q)
    → SoundSession cs (new_session identity q).session_id (new_session identity q)
unfolding new_session has_part
new_session-SoundSession cs identity q shape = (refl, shape, λ now n h. cc)

pub create_session-SoundSessions :
    (identity : IdentityContext) (q : UploadRequest) (s : Store)
    → SoundSessions s
    → SoundSessions (create_session identity q s).1
unfolding create_session upsert_session write_audit
create_session-SoundSessions identity q s sound =
    settle-keeps SoundSessions (λ (i : UploadSession). i) (session_saved identity) s
      (check_session identity q s) created sound
  where
    created :
        (i : UploadSession) → check_session identity q s ≡ ok i → SoundSessions (upsert_session i s)
    created i h =
        let (e, valid, within) = check_session-eq-ok identity q s h in
        subst (λ x. SoundSessions (upsert_session x s)) (sym e)
          (Each-insert (SoundSession s.chunks) (new_session identity q).session_id
            (new_session identity q) s.sessions
            (new_session-SoundSession s.chunks identity q
              (new_session-Shape identity q valid within))
            sound)

check_chunk-eq-ok :
    (externals : Externals) (identity : IdentityContext) (id part : ℕ) (payload : Text)
    (declared : Option Text) (now : ℕ) (s : Store) {x : UploadSession × UploadChunkInfo}
    → check_chunk externals identity id part payload declared now s ≡ ok x
    → (i : UploadSession) × (find_session identity id now s ≡ ok i)
      × (check_part externals i part payload declared now ≡ ok x)
unfolding check_chunk
check_chunk-eq-ok externals identity id part payload declared now s h =
    >>=-eq-ok (find_session identity id now s) _
      (>>=-eq-ok (raise_if (not s.audit_available) _) _ h).2

pub put_chunk-SoundSessions :
    (externals : Externals) (identity : IdentityContext) (id part : ℕ) (payload : Text)
    (declared : Option Text) (now : ℕ) (s : Store)
    → SoundSessions s
    → SoundSessions (put_chunk externals identity id part payload declared now s).1
unfolding put_chunk upsert_session put_chunk_bytes write_audit
put_chunk-SoundSessions externals identity id part payload declared now s sound =
    settle-keeps SoundSessions (λ (x : UploadSession × UploadChunkInfo). with_part x.0 x.1)
      (chunk_saved externals identity payload) s
      (check_chunk externals identity id part payload declared now s) saved sound
  where
    saved :
        (x : UploadSession × UploadChunkInfo)
        → check_chunk externals identity id part payload declared now s ≡ ok x
        → SoundSessions (chunk_saved externals identity payload x s)
    saved (j, c) h =
        let (i, found, checked) =
          check_chunk-eq-ok externals identity id part payload declared now s h in
        let (now_active, low, high, long, same, number) =
          check_part-eq-ok externals i part payload declared now checked in
        let (key, shape, at) = read_session identity id now s sound found in
        subst (λ x. SoundSessions (chunk_saved externals identity payload (x, c) s)) (sym same)
          (SoundSessions-put i c payload s (ap (λ k. lookup k s.sessions) key ∙ at now_active)
            now_active
            (subst (λ m. (1 ≤ m) × (m ≤ i.total_parts) × (length payload ≡ expected_size i m))
              (sym number) (low, high, long))
            sound)

cancellable-eq-ok :
    (t : UploadSessionStatus) (i : UploadSession) {x : UploadSession × Option UploadSession}
    → cancellable t i ≡ ok x
    → (x.1 ≡ none) ⊎ (x.1 ≡ some i)
cancellable-eq-ok cancelled i h = inl (sym (ap (λ y. y.1) (ok_inj h)))
cancellable-eq-ok completed i h = cc
cancellable-eq-ok active i h = inr (sym (ap (λ y. y.1) (ok_inj h)))
cancellable-eq-ok expired i h = inr (sym (ap (λ y. y.1) (ok_inj h)))

pub cancel-SoundSessions :
    (identity : IdentityContext) (id now later : ℕ) (s : Store)
    → SoundSessions s
    → SoundSessions (cancel identity id now later s).1
unfolding cancel check_cancel cancel_effect upsert_session drop_chunks write_audit
cancel-SoundSessions identity id now later s sound =
    settle-keeps SoundSessions (cancelled_session later)
      (λ (x : UploadSession × Option UploadSession). cancel_effect identity x.1 later) s
      (check_cancel identity id now s) ended sound
  where
    ended :
        (x : UploadSession × Option UploadSession)
        → check_cancel identity id now s ≡ ok x
        → SoundSessions (cancel_effect identity x.1 later s)
    ended x h =
        let a = >>=-eq-ok (raise_if (not s.audit_available) _) _ h in
        let (i, found, checked) = >>=-eq-ok (find_session identity id now s) _ (a.2) in
        let (_, shape, _) = read_session identity id now s sound found in
        elim (cancellable-eq-ok i.status i checked) [
          | inl e ↦ subst (λ o. SoundSessions (cancel_effect identity o later s)) (sym e) sound
          | inr e ↦
              subst (λ o. SoundSessions (cancel_effect identity o later s)) (sym e)
                (SoundSessions-end (record i { status = cancelled; completed_at = some later }) s
                  shape (λ r. cc) sound)
        ]

announced-SoundSessions :
    (identity : IdentityContext) (d : SourceDocument) (s : Store)
    → SoundSessions s
    → SoundSessions (announced identity d d.status s)
unfolding emit_event
announced-SoundSessions identity d s sound =
    announced_keeps SoundSessions identity d d.status s (λ action object t kept. kept) sound

finish-SoundSessions :
    (externals : Externals) (identity : IdentityContext) (i : UploadSession) (payload : Text)
    (draws : Draws) (o : Option SourceDocument) (fresh : SourceDocument) (s : Store)
    → Shape i
    → SoundSessions s
    → SoundSessions (complete_effect identity draws (finish externals i payload draws o fresh) s)
unfolding complete_effect upsert_document upsert_replica put_blob write_audit upsert_session
    drop_chunks
finish-SoundSessions externals identity i payload draws (some d) fresh s shape sound =
    SoundSessions-end (completed_with i (externals.sha256 payload) (length payload) d draws.later) s
      shape (λ r. cc) sound
finish-SoundSessions externals identity i payload draws none d s shape sound =
    announced-SoundSessions identity d _ (
      SoundSessions-end (completed_with i (externals.sha256 payload) (length payload) d draws.later)
        s shape (λ r. cc) sound)

pub complete-SoundSessions :
    (externals : Externals) (identity : IdentityContext) (id : ℕ) (draws : Draws) (s : Store)
    → SoundSessions s
    → SoundSessions (complete externals identity id draws s).1
complete-SoundSessions externals identity id draws s sound =
    complete_keeps SoundSessions externals identity id draws s sound (λ i payload found fresh.
      let (_, shape, _) = read_session identity id draws.now s sound found in
      finish-SoundSessions externals identity i payload draws
        (find_by_content_hash identity.scope (externals.sha256 payload) s) fresh.0 s shape sound)
