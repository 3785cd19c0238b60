-- ===== src/Documents/Runs.antt =====
-- Sequences of calls to the document service (documents/application/services.py), whoever makes them,
-- and what holds of the store after any of them.
use biaice.Common.{ℕ, ◌≡◌, refl, subst, Bool, true, false, Option, none, some, Text}
use biaice.Common.Dict.{Each}
use biaice.Core.Scope.{IdentityContext}
use biaice.Documents.Model.{UploadSession, UploadChunkInfo, SourceDocument}
use biaice.Documents.Store.{
  Store, settle-keeps, upsert_session, put_chunk_bytes, drop_chunks, upsert_document,
  upsert_replica, put_blob, write_audit, emit_event, find_by_content_hash,
}
use biaice.Documents.Upload.{
  Externals, UploadRequest, session_saved, check_session, create_session, with_part, chunk_saved,
  check_chunk, put_chunk, cancel_effect, cancelled_session, check_cancel, cancel,
}
use biaice.Documents.Completion.{Draws, complete_effect, complete, finish}
use biaice.Documents.Review.{
  review_saved, check_review, review, release_saved, check_release, release, quarantine_saved,
  check_quarantine, quarantine,
}
use biaice.Documents.Links.{LinkRequest, link_document, resolve_conflict, detach_link}
use biaice.Documents.Parse.{Extraction, JobDraws, execute_parse_job_for_worker, retry_parse_job}
use biaice.Documents.Jobs.{JobRequest, create_parse_job, cancel_parse_job}
use biaice.Documents.Sessions.{SoundSession, SoundSessions}
use biaice.Documents.Released.{SoundDocument, SoundDocuments, complete-SoundDocuments}
use biaice.Documents.Reviewed.{
  review-SoundDocuments, release-SoundDocuments, quarantine-SoundDocuments,
}
use biaice.Documents.Uploads.{
  create_session-SoundSessions, put_chunk-SoundSessions, cancel-SoundSessions,
  complete-SoundSessions,
}
use biaice.Documents.Finishing.{announced_keeps, complete_keeps}
use biaice.Documents.Attempts.{SoundJob, SoundJobs, SameIntake, worker-SoundJobs, worker-SameIntake}
use biaice.Documents.JobSteps.{
  retry-SoundJobs, retry-SameIntake, create_job-SoundJobs, create_job-SameIntake,
  cancel_job-SoundJobs, cancel_job-SameIntake,
}
use biaice.Documents.LinkFrames.{
  SameButLinks, link_document-SameButLinks, resolve-SameButLinks, detach-SameButLinks,
}

-- The calls that change the store.
pub data Command : Type 0 where
  open_session : UploadRequest → Command
  upload_part : (id part : ℕ) → Text → Option Text → (now : ℕ) → Command
  cancel_session : (id now later : ℕ) → Command
  complete_session : ℕ → Draws → Command
  review_document : (id now : ℕ) → Command
  release_document : (id now : ℕ) → Command
  quarantine_document : (id now : ℕ) → Command
  parse : JobRequest → JobDraws → Command
  work : ℕ → JobDraws → Command
  retry : ℕ → JobDraws → Command
  cancel_job : (id now : ℕ) → Command
  link : LinkRequest → Command
  resolve : (id chosen : ℕ) → Text → (now : ℕ) → Command
  detach : (id now : ℕ) → Command

pub record Sound (s : Store) : Type 0 where
  pub sessions_sound : SoundSessions s
  pub documents_sound : SoundDocuments s
  pub jobs_sound : SoundJobs s

abbrev SameRest : Store → Store → Type 0
SameRest s t = (s.documents ≡ t.documents) × (s.parse_jobs ≡ t.parse_jobs)

abbrev SameSessions : Store → Store → Type 0
SameSessions s t = (s.sessions ≡ t.sessions) × (s.chunks ≡ t.chunks) × (s.parse_jobs ≡ t.parse_jobs)

SoundSessions-same :
    (s t : Store)
    → s.sessions ≡ t.sessions
    → s.chunks ≡ t.chunks
    → SoundSessions s
    → SoundSessions t
SoundSessions-same s t e c sound =
    subst (λ cs. Each (SoundSession cs) t.sessions) c (subst (Each (SoundSession s.chunks)) e sound)

module _ (externals : Externals) (extraction : Extraction) (identity : IdentityContext) where
  create_session-SameRest :
      (q : UploadRequest) (s : Store) → SameRest s (create_session identity q s).1
  unfolding create_session upsert_session write_audit
  create_session-SameRest q s =
      settle-keeps (SameRest s) (λ (i : UploadSession). i) (session_saved identity) s
        (check_session identity q s) (λ i _. (refl, refl)) (refl, refl)

  put_chunk-SameRest :
      (id part : ℕ) (payload : Text) (declared : Option Text) (now : ℕ) (s : Store)
      → SameRest s (put_chunk externals identity id part payload declared now s).1
  unfolding put_chunk upsert_session put_chunk_bytes write_audit
  put_chunk-SameRest id part payload declared now s =
      settle-keeps (SameRest s) (λ (x : UploadSession × UploadChunkInfo). with_part x.0 x.1)
        (chunk_saved externals identity payload) s
        (check_chunk externals identity id part payload declared now s) (λ x _. (refl, refl))
        (refl, refl)

  cancel_effect-SameRest :
      (o : Option UploadSession) (later : ℕ) (s : Store)
      → SameRest s (cancel_effect identity o later s)
  unfolding cancel_effect upsert_session drop_chunks write_audit
  cancel_effect-SameRest none later s = (refl, refl)
  cancel_effect-SameRest (some i) later s = (refl, refl)

  cancel-SameRest : (id now later : ℕ) (s : Store) → SameRest s (cancel identity id now later s).1
  unfolding cancel
  cancel-SameRest id now later s =
      settle-keeps (SameRest s) (cancelled_session later)
        (λ (x : UploadSession × Option UploadSession). cancel_effect identity x.1 later) s
        (check_cancel identity id now s) (λ x _. cancel_effect-SameRest x.1 later s) (refl, refl)

  finish-jobs :
      (i : UploadSession) (payload : Text) (draws : Draws) (o : Option SourceDocument)
      (d : SourceDocument) (s : Store)
      → s.parse_jobs
        ≡ (complete_effect identity draws (finish externals i payload draws o d) s).parse_jobs
  unfolding complete_effect upsert_session drop_chunks upsert_document upsert_replica put_blob
      write_audit emit_event
  finish-jobs i payload draws (some e) d s = refl
  finish-jobs i payload draws none d s =
      announced_keeps (λ t. s.parse_jobs ≡ t.parse_jobs) identity d d.status _
        (λ action object r kept. kept) refl

  review-SameSessions : (id now : ℕ) (s : Store) → SameSessions s (review identity id now s).1
  unfolding review upsert_document write_audit
  review-SameSessions id now s =
      settle-keeps (SameSessions s) (λ (d : SourceDocument). d) (review_saved identity) s
        (check_review identity id now s) (λ d _. (refl, refl, refl)) (refl, refl, refl)

  release-SameSessions : (id now : ℕ) (s : Store) → SameSessions s (release identity id now s).1
  unfolding release upsert_document write_audit emit_event
  release-SameSessions id now s =
      settle-keeps (SameSessions s) (λ (d : SourceDocument). d) (release_saved identity) s
        (check_release identity id now s) (λ d _. (refl, refl, refl)) (refl, refl, refl)

  quarantine_saved-SameSessions :
      (d : SourceDocument) (b : Bool) (s : Store)
      → SameSessions s (quarantine_saved identity (d, b) s)
  unfolding upsert_document write_audit emit_event
  quarantine_saved-SameSessions d true s = (refl, refl, refl)
  quarantine_saved-SameSessions d false s = (refl, refl, refl)

  quarantine-SameSessions :
      (id now : ℕ) (s : Store) → SameSessions s (quarantine identity id now s).1
  unfolding quarantine
  quarantine-SameSessions id now s =
      settle-keeps (SameSessions s) (λ (x : SourceDocument × Bool). x.0) (quarantine_saved identity)
        s (check_quarantine identity id now s) (λ x _. quarantine_saved-SameSessions x.0 x.1 s)
        (refl, refl, refl)

  finish_complete-jobs :
      (id : ℕ) (draws : Draws) (s : Store)
      → s.parse_jobs ≡ (complete externals identity id draws s).1.parse_jobs
  finish_complete-jobs id draws s =
      complete_keeps (λ t. s.parse_jobs ≡ t.parse_jobs) externals identity id draws s refl
        (λ i payload _ fresh.
          finish-jobs i payload draws
            (find_by_content_hash identity.scope (externals.sha256 payload) s) fresh.0 s)

  -- What a command leaves of the store, whether it returns or raises.
  abbrev pub after : Command → Store → Store
  after (open_session q) s = (create_session identity q s).1
  after (upload_part id part payload declared now) s =
      (put_chunk externals identity id part payload declared now s).1
  after (cancel_session id now later) s = (cancel identity id now later s).1
  after (complete_session id draws) s = (complete externals identity id draws s).1
  after (review_document id now) s = (review identity id now s).1
  after (release_document id now) s = (release identity id now s).1
  after (quarantine_document id now) s = (quarantine identity id now s).1
  after (parse q draws) s = (create_parse_job extraction identity q draws s).1
  after (work id draws) s = (execute_parse_job_for_worker extraction id draws s).1
  after (retry id draws) s = (retry_parse_job extraction identity id draws s).1
  after (cancel_job id now) s = (cancel_parse_job identity id now s).1
  after (link q) s = (link_document identity q s).1
  after (resolve id chosen reason now) s = (resolve_conflict identity id chosen reason now s).1
  after (detach id now) s = (detach_link identity id now s).1

  -- The calls of an upload leave the documents and the jobs alone.
  uploads : (s t : Store) → Sound s → SoundSessions t → SameRest s t → Sound t
  uploads s t sound sessions (d, j) = record {
    sessions_sound = sessions;
    documents_sound = subst (Each SoundDocument) d sound.documents_sound;
    jobs_sound = subst (Each SoundJob) j sound.jobs_sound;
  }

  -- The calls of a review leave the sessions and the jobs alone.
  reviews : (s t : Store) → Sound s → SoundDocuments t → SameSessions s t → Sound t
  reviews s t sound documents (i, c, j) = record {
    sessions_sound = SoundSessions-same s t i c sound.sessions_sound;
    documents_sound = documents;
    jobs_sound = subst (Each SoundJob) j sound.jobs_sound;
  }

  -- The calls on parse jobs leave the sessions and the documents alone.
  parses : (s t : Store) → Sound s → SoundJobs t → SameIntake s t → Sound t
  parses s t sound jobs (i, c, d) = record {
    sessions_sound = SoundSessions-same s t i c sound.sessions_sound;
    documents_sound = subst (Each SoundDocument) d sound.documents_sound;
    jobs_sound = jobs;
  }

  linkings : (s t : Store) → Sound s → SameButLinks s t → Sound t
  linkings s t sound (i, c, d, j) = record {
    sessions_sound = SoundSessions-same s t i c sound.sessions_sound;
    documents_sound = subst (Each SoundDocument) d sound.documents_sound;
    jobs_sound = subst (Each SoundJob) j sound.jobs_sound;
  }

  -- A command keeps the store sound.
  pub after-Sound : (c : Command) (s : Store) → Sound s → Sound (after c s)
  after-Sound (open_session q) s sound =
      uploads s _ sound (create_session-SoundSessions identity q s sound.sessions_sound)
        (create_session-SameRest q s)
  after-Sound (upload_part id part payload declared now) s sound =
      uploads s _ sound
        (put_chunk-SoundSessions externals identity id part payload declared now s
          sound.sessions_sound)
        (put_chunk-SameRest id part payload declared now s)
  after-Sound (cancel_session id now later) s sound =
      uploads s _ sound (cancel-SoundSessions identity id now later s sound.sessions_sound)
        (cancel-SameRest id now later s)
  after-Sound (complete_session id draws) s sound = record {
    sessions_sound = complete-SoundSessions externals identity id draws s sound.sessions_sound;
    documents_sound = complete-SoundDocuments externals identity id draws s sound.documents_sound;
    jobs_sound = subst (Each SoundJob) (finish_complete-jobs id draws s) sound.jobs_sound;
  }
  after-Sound (review_document id now) s sound =
      reviews s _ sound (review-SoundDocuments identity id now s sound.documents_sound)
        (review-SameSessions id now s)
  after-Sound (release_document id now) s sound =
      reviews s _ sound (release-SoundDocuments identity id now s sound.documents_sound)
        (release-SameSessions id now s)
  after-Sound (quarantine_document id now) s sound =
      reviews s _ sound (quarantine-SoundDocuments identity id now s sound.documents_sound)
        (quarantine-SameSessions id now s)
  after-Sound (parse q draws) s sound =
      parses s _ sound (create_job-SoundJobs extraction identity q draws s sound.jobs_sound)
        (create_job-SameIntake extraction identity q draws s)
  after-Sound (work id draws) s sound =
      parses s _ sound (worker-SoundJobs extraction id draws s sound.jobs_sound)
        (worker-SameIntake extraction id draws s)
  after-Sound (retry id draws) s sound =
      parses s _ sound (retry-SoundJobs extraction identity id draws s sound.jobs_sound)
        (retry-SameIntake extraction identity id draws s)
  after-Sound (cancel_job id now) s sound =
      parses s _ sound (cancel_job-SoundJobs identity id now s sound.jobs_sound)
        (cancel_job-SameIntake identity id now s)
  after-Sound (link q) s sound = linkings s _ sound (link_document-SameButLinks identity q s)
  after-Sound (resolve id chosen reason now) s sound =
      linkings s _ sound (resolve-SameButLinks identity id chosen reason now s)
  after-Sound (detach id now) s sound = linkings s _ sound (detach-SameButLinks identity id now s)
