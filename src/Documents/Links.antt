-- ===== src/Documents/Links.antt =====
-- The links that share a document with a decision unit (documents/application/services.py):
-- inheriting, overriding, resolving a conflict, detaching.
use biaice.Common.{
  ℕ, Bool, true, false, not, ◌&&◌, ◌||◌, Option, none, some, List, [], ◌∷◌, Text, strip, ◌==◌, ltb,
  keep, any, is_some, is_empty, if◌then◌else◌,
}
use biaice.Common.Dict.{lookup, insert}
use biaice.Core.Errors.{stable, Result, ok, err, ◌>>=◌, ◌>>◌, raise_if, or_raise}
use biaice.Core.Errors.Code.{
  audit_unavailable, resource_not_found, request_validation_failed, document_link_not_resolvable,
}
use biaice.Core.Scope.{TenantScope, IdentityContext, assert_allows}
use biaice.Documents.Model.{
  SourceDocument, DocumentKind, tender, company, competitor, market, DocumentLink,
  DocumentLinkRelation, inherited, override, DocumentLinkConflictState, no_conflict, conflict_open,
  resolved,
}
use biaice.Documents.Completion.{find_document}
use biaice.Documents.Store.{
  Store, values, tenant_scoped, get_document, write_audit, settle, link_created, link_resolved,
  link_detached,
}

abbrev link_shown : TenantScope → Option DocumentLink → Option DocumentLink
link_shown scope none = none
link_shown scope (some l) =
    if tenant_scoped l.tenant_id l.data_domain_id scope then some l else none

unfoldable pub get_link : TenantScope → ℕ → Store → Option DocumentLink
get_link scope id s = link_shown scope (lookup id s.links)

unfoldable pub upsert_link : DocumentLink → Store → Store
upsert_link l s = record s { links = insert l.link_id l s.links }

-- The order of `(-priority, created_at)`
abbrev before : DocumentLink → DocumentLink → Bool
before a b =
    ltb b.priority a.priority || (a.priority == b.priority && ltb a.created_at b.created_at)

unfoldable pub insert_link : DocumentLink → List DocumentLink → List DocumentLink
insert_link l [] = l ∷ []
insert_link l (m ∷ ms) = let rest = insert_link l ms in if before l m then l ∷ m ∷ ms else m ∷ rest

-- The sort is stable: later links go behind their equals.
unfoldable pub sort_links : List DocumentLink → List DocumentLink → List DocumentLink
unfolding insert_link
sort_links sorted [] = sorted
sort_links sorted (l ∷ ls) = sort_links (insert_link l sorted) ls

abbrev pub active_in : TenantScope → ℕ → DocumentLink → Bool
active_in scope unit l =
    tenant_scoped l.tenant_id l.data_domain_id scope
    && (l.decision_unit_id == unit && not (is_some l.detached_at))

unfoldable pub list_active_links : TenantScope → ℕ → Store → List DocumentLink
unfolding sort_links
list_active_links scope unit s = sort_links [] (keep (active_in scope unit) (values s.links))

-- `_document_linked_to_unit`
unfoldable pub document_linked_to_unit : IdentityContext → ℕ → ℕ → Store → Bool
document_linked_to_unit identity id unit s =
    any (λ (l : DocumentLink). l.source_document_id == id) (list_active_links identity.scope unit s)

abbrev kind_rank : DocumentKind → ℕ
kind_rank tender = 0
kind_rank company = 1
kind_rank competitor = 2
kind_rank market = 3

abbrev pub same_kind_as : SourceDocument → Option SourceDocument → Bool
same_kind_as d none = false
same_kind_as d (some o) = kind_rank o.kind == kind_rank d.kind

-- The arguments of `_create_link`, with what it draws.
pub record LinkRequest : Type 0 where
  pub document_id : ℕ
  pub decision_unit_id : ℕ
  pub relation : DocumentLinkRelation
  pub priority : ℕ
  pub reason : Option Text
  pub now : ℕ
  pub new_link_id : ℕ

-- A link that is there already, or a new one with the links that it is in conflict with.
pub data LinkPlan : Type 0 where
  existing_link : DocumentLink → LinkPlan
  new_link : DocumentLink → List DocumentLink → LinkPlan

abbrev conflict_of : List DocumentLink → DocumentLinkConflictState
conflict_of [] = no_conflict
conflict_of (_ ∷ _) = conflict_open

abbrev created_link :
    IdentityContext → LinkRequest → SourceDocument → List DocumentLink → DocumentLink
created_link identity q d conflicts = record {
  link_id = q.new_link_id;
  tenant_id = identity.scope.tenant_id;
  data_domain_id = identity.scope.data_domain_id;
  source_document_id = d.document_id;
  project_id = d.project_id;
  decision_unit_id = q.decision_unit_id;
  relation = q.relation;
  priority = q.priority;
  conflict_state = conflict_of conflicts;
  confirmation_reason = q.reason;
  confirmed_by = none;
  created_by = identity.subject_id;
  created_at = q.now;
  detached_at = none;
}

abbrev plan : List DocumentLink → DocumentLink → List DocumentLink → LinkPlan
plan [] created conflicts = new_link created conflicts
plan (l ∷ _) created conflicts = existing_link l

unfoldable pub check_link : IdentityContext → LinkRequest → Store → Result LinkPlan
check_link identity q s = do
  raise_if (not s.audit_available) audit_unavailable
  assert_allows identity.scope identity.scope.tenant_id identity.scope.data_domain_id none
      (some q.decision_unit_id)
  d ← find_document identity q.document_id s
  let links = list_active_links identity.scope q.decision_unit_id s
  let conflicts =
      keep
        (λ (l : DocumentLink). same_kind_as d (get_document identity.scope l.source_document_id s))
        links
  ok (
      plan (keep (λ (l : DocumentLink). l.source_document_id == q.document_id) links)
        (created_link identity q d conflicts) conflicts)

unfoldable pub open_conflicts : List DocumentLink → Store → Store
open_conflicts [] s = s
open_conflicts (l ∷ ls) s =
    open_conflicts ls (upsert_link (record l { conflict_state = conflict_open }) s)

abbrev pub link_saved : IdentityContext → LinkPlan → Store → Store
link_saved identity (existing_link l) s = s
link_saved identity (new_link l conflicts) s =
    write_audit link_created identity.subject_id l.link_id
      (open_conflicts conflicts (upsert_link l s))

abbrev pub link_of : LinkPlan → DocumentLink
link_of (existing_link l) = l
link_of (new_link l _) = l

unfoldable pub create_link : IdentityContext → LinkRequest → Store → Result DocumentLink × Store
create_link identity q s = settle link_of (link_saved identity) s (check_link identity q s)

abbrev pub by_relation :
    IdentityContext
    → LinkRequest
    → Store
    → DocumentLinkRelation
    → Option Text
    → Result DocumentLink × Store
by_relation identity q s inherited reason = create_link identity (record q { priority = 0 }) s
by_relation identity q s override none = (err (stable request_validation_failed), s)
by_relation identity q s override (some t) =
    if is_empty (strip t)
    then (err (stable request_validation_failed), s)
    else create_link identity q s

-- `inherit_to_unit` and `override_link`, by the relation of the request.
unfoldable pub link_document : IdentityContext → LinkRequest → Store → Result DocumentLink × Store
link_document identity q s = by_relation identity q s q.relation q.reason

unfoldable pub find_link : IdentityContext → ℕ → Store → Result DocumentLink
find_link identity id s = or_raise (get_link identity.scope id s) resource_not_found

abbrev is_conflict_open : DocumentLinkConflictState → Bool
is_conflict_open conflict_open = true
is_conflict_open _ = false

abbrev pub confirmed : IdentityContext → Text → DocumentLink → DocumentLink
confirmed identity reason l = record l {
  conflict_state = resolved;
  confirmation_reason = some reason;
  confirmed_by = some identity.subject_id;
}

unfoldable pub check_resolve : IdentityContext → ℕ → ℕ → Text → Store → Result DocumentLink
check_resolve identity id chosen reason s = do
  raise_if (not s.audit_available) audit_unavailable
  raise_if (is_empty (strip reason)) request_validation_failed
  l ← find_link identity id s
  raise_if (is_some l.detached_at) document_link_not_resolvable
  raise_if (not (l.source_document_id == chosen)) document_link_not_resolvable
  raise_if (not (is_conflict_open l.conflict_state)) document_link_not_resolvable
  ok (confirmed identity reason l)

abbrev pub same_kind : Option SourceDocument → Option SourceDocument → Bool
same_kind none other = false
same_kind (some d) other = same_kind_as d other

-- The body of the loop over the active links of the unit, and the loop.
unfoldable pub detach_other :
    IdentityContext → DocumentLink → Text → ℕ → DocumentLink → Store → Store
detach_other identity l reason now o s =
    if o.link_id == l.link_id
    then s
    else if same_kind (get_document identity.scope l.source_document_id s)
        (get_document identity.scope o.source_document_id s)
    then upsert_link (record (confirmed identity reason o) { detached_at = some now }) s
    else s

unfoldable pub detach_others :
    IdentityContext → DocumentLink → Text → ℕ → List DocumentLink → Store → Store
detach_others identity l reason now [] s = s
detach_others identity l reason now (o ∷ os) s =
    detach_others identity l reason now os (detach_other identity l reason now o s)

abbrev pub resolve_saved : IdentityContext → Text → ℕ → DocumentLink → Store → Store
resolve_saved identity reason now l s =
    let t : Store = upsert_link l s in
    write_audit link_resolved identity.subject_id l.link_id (
      detach_others identity l reason now (list_active_links identity.scope l.decision_unit_id t) t)

unfoldable pub resolve_conflict :
    IdentityContext → ℕ → ℕ → Text → ℕ → Store → Result DocumentLink × Store
resolve_conflict identity id chosen reason now s =
    settle (λ l. l) (resolve_saved identity reason now) s
      (check_resolve identity id chosen reason s)

unfoldable pub check_detach : IdentityContext → ℕ → ℕ → Store → Result (DocumentLink × Bool)
check_detach identity id now s = do
  raise_if (not s.audit_available) audit_unavailable
  l ← find_link identity id s
  if is_some l.detached_at then ok (l, false) else ok (record l { detached_at = some now }, true)

abbrev pub detach_saved : IdentityContext → DocumentLink × Bool → Store → Store
detach_saved identity (l, false) s = s
detach_saved identity (l, true) s =
    write_audit link_detached identity.subject_id l.link_id (upsert_link l s)

unfoldable pub detach_link : IdentityContext → ℕ → ℕ → Store → Result DocumentLink × Store
detach_link identity id now s =
    settle (λ (x : DocumentLink × Bool). x.0) (detach_saved identity) s
      (check_detach identity id now s)
