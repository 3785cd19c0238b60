-- ===== src/Documents/LinkFrames.antt =====
-- The calls on links (documents/application/services.py) change nothing but links.
use biaice.Common.{
  ℕ, ◌≡◌, refl, ◌∙◌, Bool, true, false, Option, none, some, List, [], ◌∷◌, Text, ◌==◌, strip,
  is_empty, if◌then◌else◌, Bool-cases, inl, inr,
}
use biaice.Core.Scope.{IdentityContext}
use biaice.Documents.Model.{DocumentLink, DocumentLinkRelation, inherited, override}
use biaice.Documents.Store.{Store, get_document, settle-keeps, write_audit}
use biaice.Documents.Links.{
  LinkRequest, LinkPlan, existing_link, new_link, upsert_link, link_of, open_conflicts, link_saved,
  check_link, create_link, by_relation, link_document, same_kind, confirmed, detach_other,
  detach_others, resolve_saved, check_resolve, resolve_conflict, detach_saved, check_detach,
  detach_link, list_active_links,
}

abbrev pub SameButLinks : Store → Store → Type 0
SameButLinks s t =
    (s.sessions ≡ t.sessions)
    × (s.chunks ≡ t.chunks)
    × (s.documents ≡ t.documents)
    × (s.parse_jobs ≡ t.parse_jobs)

then_same : (s t u : Store) → SameButLinks s t → SameButLinks t u → SameButLinks s u
then_same s t u a b = (a.0 ∙ b.0, a.1 ∙ b.1, a.2 ∙ b.2, a.3 ∙ b.3)

open_conflicts-same : (ls : List DocumentLink) (s : Store) → SameButLinks s (open_conflicts ls s)
unfolding open_conflicts upsert_link
open_conflicts-same [] s = (refl, refl, refl, refl)
open_conflicts-same (l ∷ ls) s = open_conflicts-same ls _

link_saved-same :
    (identity : IdentityContext) (p : LinkPlan) (s : Store)
    → SameButLinks s (link_saved identity p s)
unfolding write_audit upsert_link
link_saved-same identity (existing_link l) s = (refl, refl, refl, refl)
link_saved-same identity (new_link l conflicts) s = open_conflicts-same conflicts (upsert_link l s)

create_link-same :
    (identity : IdentityContext) (q : LinkRequest) (s : Store)
    → SameButLinks s (create_link identity q s).1
unfolding create_link
create_link-same identity q s =
    settle-keeps (SameButLinks s) link_of (link_saved identity) s (check_link identity q s)
      (λ p _. link_saved-same identity p s) (refl, refl, refl, refl)

pub link_document-SameButLinks :
    (identity : IdentityContext) (q : LinkRequest) (s : Store)
    → SameButLinks s (link_document identity q s).1
unfolding link_document
link_document-SameButLinks identity q s = cases q.relation q.reason
  where
    cases :
        (r : DocumentLinkRelation) (t : Option Text)
        → SameButLinks s (by_relation identity q s r t).1
    cases inherited t = create_link-same identity (record q { priority = 0 }) s
    cases override none = (refl, refl, refl, refl)
    cases override (some t) = elim (Bool-cases (is_empty (strip t))) [
      | inl e ↦ rw e (refl, refl, refl, refl)
      | inr e ↦ rw e (create_link-same identity q s)
    ]

detach_other-same :
    (identity : IdentityContext) (l : DocumentLink) (reason : Text) (now : ℕ) (o : DocumentLink)
    (s : Store)
    → SameButLinks s (detach_other identity l reason now o s)
unfolding detach_other upsert_link
detach_other-same identity l reason now o s = by_tests (o.link_id == l.link_id) (
    same_kind (get_document identity.scope l.source_document_id s)
      (get_document identity.scope o.source_document_id s))
  where
    by_tests :
        (b c : Bool)
        → SameButLinks s (
            if b
            then s
            else if c
            then upsert_link (record (confirmed identity reason o) { detached_at = some now }) s
            else s)
    by_tests true c = (refl, refl, refl, refl)
    by_tests false true = (refl, refl, refl, refl)
    by_tests false false = (refl, refl, refl, refl)

detach_others-same :
    (identity : IdentityContext) (l : DocumentLink) (reason : Text) (now : ℕ)
    (os : List DocumentLink) (s : Store)
    → SameButLinks s (detach_others identity l reason now os s)
unfolding detach_others
detach_others-same identity l reason now [] s = (refl, refl, refl, refl)
detach_others-same identity l reason now (o ∷ os) s =
    let t : Store = detach_other identity l reason now o s in
    then_same s t (detach_others identity l reason now os t)
      (detach_other-same identity l reason now o s) (detach_others-same identity l reason now os t)

pub resolve-SameButLinks :
    (identity : IdentityContext) (id chosen : ℕ) (reason : Text) (now : ℕ) (s : Store)
    → SameButLinks s (resolve_conflict identity id chosen reason now s).1
unfolding resolve_conflict upsert_link write_audit
resolve-SameButLinks identity id chosen reason now s =
    settle-keeps (SameButLinks s) (λ (l : DocumentLink). l) (resolve_saved identity reason now) s
      (check_resolve identity id chosen reason s)
      (λ l _.
        detach_others-same identity l reason now
          (list_active_links identity.scope l.decision_unit_id (upsert_link l s)) (upsert_link l s))
      (refl, refl, refl, refl)

detach_saved-same :
    (identity : IdentityContext) (l : DocumentLink) (b : Bool) (s : Store)
    → SameButLinks s (detach_saved identity (l, b) s)
unfolding upsert_link write_audit
detach_saved-same identity l true s = (refl, refl, refl, refl)
detach_saved-same identity l false s = (refl, refl, refl, refl)

pub detach-SameButLinks :
    (identity : IdentityContext) (id now : ℕ) (s : Store)
    → SameButLinks s (detach_link identity id now s).1
unfolding detach_link
detach-SameButLinks identity id now s =
    settle-keeps (SameButLinks s) (λ (x : DocumentLink × Bool). x.0) (detach_saved identity) s
      (check_detach identity id now s) (λ x _. detach_saved-same identity x.0 x.1 s)
      (refl, refl, refl, refl)
