-- ===== src/Documents/Store.antt =====
-- The in-memory repository of the documents module (documents/application/repository.py) with the
-- object store behind it, and what the service writes besides. The locks are left out: a call is one
-- step.
use biaice.Common.{
  ℕ, ◌≡◌, refl, Bool, false, not, ◌&&◌, ◌||◌, Option, none, some, List, [], ◌∷◌, ◌++◌, Text,
  text_eq, ◌==◌, ltb, keep, if◌then◌else◌,
}
use biaice.Common.Dict.{Dict, lookup, insert}
use biaice.Core.Errors.{Result, ok, err}
use biaice.Core.Scope.{TenantScope, outside}
use biaice.Documents.Model.{UploadSession, SourceDocument, ParseJob, DocumentLink, DerivedAsset}

pub record Replica : Type 0 where
  pub replica_id : ℕ
  pub tenant_id : ℕ
  pub data_domain_id : ℕ
  pub object_id : ℕ
  pub locator_hash : Text

pub data Action : Type 0 where
  session_created chunk_received session_cancelled document_uploaded review_started : Action
  document_released document_quarantined parse_created parse_completed parse_failed : Action
  asset_registered parse_job_cancelled link_created link_resolved link_detached : Action

-- An audit entry or an outbox event: what happened to which object.
pub record Notice : Type 0 where
  pub action : Action
  pub actor_id : ℕ
  pub object_id : ℕ

pub record Store : Type 0 where
  pub sessions : Dict UploadSession
  pub chunks : List ((ℕ × ℕ) × Text)
  pub documents : Dict SourceDocument
  pub blobs : List (Text × Text)
  pub replicas : Dict Replica
  pub parse_jobs : Dict ParseJob
  pub assets : Dict DerivedAsset
  pub links : Dict DocumentLink
  pub audit : List Notice
  pub outbox : List Notice
  pub audit_available : Bool
  pub outbox_configured : Bool

abbrev pub values {ℓ} : {V : Type ℓ} → Dict V → List V
values [] = []
values ((k, v) ∷ d) = v ∷ values d

-- `_session_in_scope`, `_document_in_scope`
unfoldable pub scope_shows : TenantScope → ℕ → ℕ → Option ℕ → Option ℕ → Bool
scope_shows scope tenant domain project unit =
    if not (tenant == scope.tenant_id) || not (domain == scope.data_domain_id)
    then false
    else if outside project scope.all_projects scope.project_ids
    then false
    else not (outside unit scope.all_decision_units scope.decision_unit_ids)

-- `_tenant_scoped`
abbrev pub tenant_scoped : ℕ → ℕ → TenantScope → Bool
tenant_scoped tenant domain scope = tenant == scope.tenant_id && domain == scope.data_domain_id

abbrev pub session_shown : TenantScope → Option UploadSession → Option UploadSession
session_shown scope none = none
session_shown scope (some i) =
    if scope_shows scope i.tenant_id i.data_domain_id i.project_id i.decision_unit_id
    then some i
    else none

unfoldable pub get_session : TenantScope → ℕ → Store → Option UploadSession
get_session scope id s = session_shown scope (lookup id s.sessions)

unfoldable pub upsert_session : UploadSession → Store → Store
upsert_session i s = record s { sessions = insert i.session_id i s.sessions }

abbrev pub document_shown : TenantScope → Option SourceDocument → Option SourceDocument
document_shown scope none = none
document_shown scope (some i) =
    if scope_shows scope i.tenant_id i.data_domain_id i.project_id i.decision_unit_id
    then some i
    else none

unfoldable pub get_document : TenantScope → ℕ → Store → Option SourceDocument
get_document scope id s = document_shown scope (lookup id s.documents)

unfoldable pub upsert_document : SourceDocument → Store → Store
upsert_document i s = record s { documents = insert i.document_id i s.documents }

-- The chunks of the sessions, by session and part.
abbrev is_chunk : ℕ → ℕ → ℕ × ℕ → Bool
is_chunk session part (k, n) = k == session && n == part

unfoldable pub lookup_chunk : ℕ → ℕ → List ((ℕ × ℕ) × Text) → Option Text
lookup_chunk session part [] = none
lookup_chunk session part ((key, payload) ∷ cs) =
    if is_chunk session part key then some payload else lookup_chunk session part cs

unfoldable pub insert_chunk : ℕ → ℕ → Text → List ((ℕ × ℕ) × Text) → List ((ℕ × ℕ) × Text)
insert_chunk session part payload [] = ((session, part), payload) ∷ []
insert_chunk session part payload ((key, old) ∷ cs) =
    if is_chunk session part key
    then (key, payload) ∷ cs
    else (key, old) ∷ insert_chunk session part payload cs

unfoldable pub put_chunk_bytes : ℕ → ℕ → Text → Store → Store
put_chunk_bytes session part payload s = record s {
  chunks = insert_chunk session part payload s.chunks;
}

unfoldable pub without_session : ℕ → List ((ℕ × ℕ) × Text) → List ((ℕ × ℕ) × Text)
without_session session [] = []
without_session session (((k, n), payload) ∷ cs) =
    let rest = without_session session cs in if k == session then rest else ((k, n), payload) ∷ rest

unfoldable pub drop_chunks : ℕ → Store → Store
drop_chunks session s = record s { chunks = without_session session s.chunks }

abbrev joined : Option Text → Option Text → Option Text
joined none rest = none
joined (some t) none = none
joined (some t) (some u) = some (t ++ u)

-- `compose_chunks`: the parts from `first` on, one after the other, or none if one is missing.
unfoldable pub compose_from : ℕ → ℕ → ℕ → List ((ℕ × ℕ) × Text) → Option Text
compose_from session first ℕ.zero cs = some []
compose_from session first (ℕ.suc count) cs =
    joined (lookup_chunk session first cs) (compose_from session (ℕ.suc first) count cs)

unfoldable pub compose_chunks : ℕ → ℕ → Store → Option Text
unfolding compose_from
compose_chunks session total s = compose_from session 1 total s.chunks

-- The first uploaded of the documents with the hash that the scope shows.
unfoldable pub earliest : Option SourceDocument → List SourceDocument → Option SourceDocument
earliest found [] = found
earliest none (d ∷ ds) = earliest (some d) ds
earliest (some f) (d ∷ ds) = earliest (some (if ltb d.uploaded_at f.uploaded_at then d else f)) ds

unfoldable pub find_by_content_hash : TenantScope → Text → Store → Option SourceDocument
unfolding earliest
find_by_content_hash scope hash s = earliest none (
    keep
      (λ (d : SourceDocument).
        scope_shows scope d.tenant_id d.data_domain_id d.project_id d.decision_unit_id
        && text_eq d.content_hash hash)
      (values s.documents))

-- The object store: a blob by its key.
unfoldable pub lookup_blob : Text → List (Text × Text) → Option Text
lookup_blob key [] = none
lookup_blob key ((k, payload) ∷ bs) = if text_eq k key then some payload else lookup_blob key bs

unfoldable pub insert_blob : Text → Text → List (Text × Text) → List (Text × Text)
insert_blob key payload [] = (key, payload) ∷ []
insert_blob key payload ((k, old) ∷ bs) =
    if text_eq k key then (k, payload) ∷ bs else (k, old) ∷ insert_blob key payload bs

unfoldable pub get_blob : Text → Store → Option Text
get_blob key s = lookup_blob key s.blobs

unfoldable pub put_blob : Text → Text → Store → Store
put_blob key payload s = record s { blobs = insert_blob key payload s.blobs }

unfoldable pub upsert_replica : Replica → Store → Store
upsert_replica r s = record s { replicas = insert r.replica_id r s.replicas }

-- `audit_writer.write` and `_emit_event`, as far as they name the object. Once the availability check
-- has passed, the writer and the port are taken to accept what they are told.
unfoldable pub write_audit : Action → ℕ → ℕ → Store → Store
write_audit action actor object s = record s {
  audit = s.audit ++ record { action = action; actor_id = actor; object_id = object } ∷ [];
}

unfoldable pub emit_event : Action → ℕ → ℕ → Store → Store
emit_event action actor object s = record s {
  outbox =
      if s.outbox_configured
      then s.outbox ++ record { action = action; actor_id = actor; object_id = object } ∷ []
      else s.outbox;
}

-- A call returns, or its checks raise before it has written anything.
module _ {X A : Type 0} where
  abbrev pub settle : (X → A) → (X → Store → Store) → Store → Result X → Result A × Store
  settle answer effect s (ok x) = (ok (answer x), effect x s)
  settle answer effect s (err f) = (err f, s)

  pub settle-keeps {ℓ} :
      (P : Store → Type ℓ) (answer : X → A) (effect : X → Store → Store) (s : Store) (r : Result X)
      → ((x : X) → r ≡ ok x → P (effect x s))
      → P s
      → P (settle answer effect s r).1
  settle-keeps P answer effect s (ok x) done kept = done x refl
  settle-keeps P answer effect s (err f) done kept = kept
