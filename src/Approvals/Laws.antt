-- ===== src/Approvals/Laws.antt =====
-- A risk acceptance over its life, as a client sees it (approvals_reports/application/services.py).
use biaice.Common.{ℕ, ◌≤◌, ◌≡◌, refl, ◌∙◌, subst, true, none, some, Text, ==_refl, elem, arith}
use biaice.Common.Dict.{lookup-insert}
use biaice.Core.Errors.{Result, ok, err, stable}
use biaice.Core.Errors.Code.{
  risk_acceptance_expired, risk_acceptance_already_revoked, maker_checker_required,
}
use biaice.Core.Scope.{IdentityContext, TenantScope, assert_allows, scope_matches}
use biaice.Approvals.Risk.{RiskAcceptance, active, revoked, effective_risk_acceptance}
use biaice.Approvals.Service.{
  Store, Creation, Written, get_risk_acceptance, new_acceptance, check_creation, check_revocation,
  revocation, write, written, create, get, revoke, some_project,
}
use biaice.Approvals.Invariant.{
  IsValidStore, check_creation_inv, check_revocation_inv, get_risk_acceptance_inv,
  risk_acceptances-write,
}

-- Projecting an acceptance to one time and then to a later one is projecting it to the later one.
pub effective_later :
    (i : RiskAcceptance) (now later : ℕ)
    → now ≤ later
    → effective_risk_acceptance (effective_risk_acceptance i now) later
      ≡ effective_risk_acceptance i later
unfolding effective_risk_acceptance
effective_later i now later h = ground arith

own_scope_matches :
    (scope : TenantScope) (unit : ℕ)
    → assert_allows scope scope.tenant_id scope.data_domain_id none (some unit) ≡ ok tt
    → scope_matches scope scope.tenant_id scope.data_domain_id (some_project scope.project_ids) unit
      ≡ true
unfolding assert_allows scope_matches elem
own_scope_matches scope unit h = ground arith

-- The item that was written is found again by whoever may see it.
get-write :
    (kind : Written) (identity : IdentityContext) (i : RiskAcceptance) (s : Store)
    → scope_matches identity.scope i.tenant_id i.data_domain_id i.project_id i.decision_unit_id
      ≡ true
    → get_risk_acceptance identity.scope i.risk_acceptance_id (write kind identity i s) ≡ some i
unfolding get_risk_acceptance
get-write kind identity i s v =
    rw (risk_acceptances-write kind identity i s, lookup-insert, ==_refl i.risk_acceptance_id, v)
      refl

created_matches :
    (identity : IdentityContext) (q : Creation)
    → assert_allows identity.scope identity.scope.tenant_id identity.scope.data_domain_id none
        (some q.decision_unit_id)
      ≡ ok tt
    → let i = new_acceptance identity q in
      scope_matches identity.scope i.tenant_id i.data_domain_id i.project_id i.decision_unit_id
      ≡ true
unfolding new_acceptance
created_matches identity q h = own_scope_matches identity.scope q.decision_unit_id h

ok_inj : (i j : RiskAcceptance) → ok i ≡ ok j → i ≡ j
ok_inj i j h = cc

get_found :
    (identity : IdentityContext) (id now : ℕ) (s : Store) {i : RiskAcceptance}
    → get_risk_acceptance identity.scope id s ≡ some i
    → get identity id now s ≡ ok (effective_risk_acceptance i now)
unfolding get
get_found identity id now s h = rw h

created-get :
    (identity : IdentityContext) (q : Creation) (s : Store) (r : Result RiskAcceptance)
    {i : RiskAcceptance} (now : ℕ)
    → check_creation identity q s ≡ r
    → (written Written.risk_accepted identity s r).0 ≡ ok i
    → get identity i.risk_acceptance_id now (written Written.risk_accepted identity s r).1
      ≡ ok (effective_risk_acceptance i now)
unfolding written
created-get identity q s (ok j) {i} now h e =
    let (allowed, made, _) = check_creation_inv identity q s h in
    subst
      (λ x.
        get identity x.risk_acceptance_id now (write Written.risk_accepted identity j s)
        ≡ ok (effective_risk_acceptance x now))
      (ok_inj j i e)
      (get_found identity j.risk_acceptance_id now (write Written.risk_accepted identity j s) (
        get-write Written.risk_accepted identity j s (
          subst
            (λ x.
              scope_matches identity.scope x.tenant_id x.data_domain_id x.project_id
                x.decision_unit_id
              ≡ true)
            made (created_matches identity q allowed))))
created-get identity q s (err f) now h e = cc

-- What `create` returned is what its maker then gets, projected to the time of reading.
pub get-create :
    (identity : IdentityContext) (q : Creation) (s : Store) (now : ℕ) {i : RiskAcceptance}
    → (create identity q s).0 ≡ ok i
    → get identity i.risk_acceptance_id now (create identity q s).1
      ≡ ok (effective_risk_acceptance i now)
unfolding create
get-create identity q s now h = created-get identity q s (check_creation identity q s) now refl h

-- Where audit is available and the scope allows the unit, a maker who names himself as the checker
-- is refused with MAKER_CHECKER_REQUIRED, and nothing is written.
pub create_self_approval :
    (identity : IdentityContext) (q : Creation) (s : Store)
    → s.audit_available ≡ true
    → assert_allows identity.scope identity.scope.tenant_id identity.scope.data_domain_id none
        (some q.decision_unit_id)
      ≡ ok tt
    → q.independent_approver_id ≡ identity.subject_id
    → create identity q s ≡ (err (stable maker_checker_required), s)
unfolding create written check_creation
create_self_approval identity q s a allowed e = ground arith

-- Where audit is available, revoking an active acceptance of the scope whose period has ended raises
-- RISK_ACCEPTANCE_EXPIRED and writes nothing.
pub revoke_expired :
    (identity : IdentityContext) (id : ℕ) (reason : Text) (now now' : ℕ) (s : Store)
    {i : RiskAcceptance}
    → s.audit_available ≡ true
    → get_risk_acceptance identity.scope id s ≡ some i
    → i.state ≡ active
    → i.valid_until ≤ now
    → revoke identity id reason now now' s ≡ (err (stable risk_acceptance_expired), s)
unfolding revoke written check_revocation effective_risk_acceptance
revoke_expired identity id reason now now' s a found live ended = ground arith

revoke_revoked :
    (identity : IdentityContext) (id : ℕ) (reason : Text) (now now' : ℕ) (s : Store)
    {i : RiskAcceptance}
    → s.audit_available ≡ true
    → get_risk_acceptance identity.scope id s ≡ some i
    → i.state ≡ revoked
    → revoke identity id reason now now' s ≡ (err (stable risk_acceptance_already_revoked), s)
unfolding revoke written check_revocation effective_risk_acceptance
revoke_revoked identity id reason now now' s a found live = ground arith

audit_available-write :
    (kind : Written) (identity : IdentityContext) (i : RiskAcceptance) (s : Store)
    → (write kind identity i s).audit_available ≡ s.audit_available
unfolding write
audit_available-write kind identity i s = refl

check_revocation_available :
    (identity : IdentityContext) (id : ℕ) (reason : Text) (now now' : ℕ) (s : Store)
    {j : RiskAcceptance}
    → check_revocation identity id reason now now' s ≡ ok j
    → s.audit_available ≡ true
unfolding check_revocation
check_revocation_available identity id reason now now' s h = ground arith

revocation_matches :
    (identity : IdentityContext) (reason : Text) (now : ℕ) (i : RiskAcceptance)
    → scope_matches identity.scope i.tenant_id i.data_domain_id i.project_id i.decision_unit_id
      ≡ true
    → let j = revocation identity reason now i in
      (scope_matches identity.scope j.tenant_id j.data_domain_id j.project_id j.decision_unit_id
        ≡ true)
      × (j.risk_acceptance_id ≡ i.risk_acceptance_id)
      × (j.state ≡ revoked)
unfolding revocation
revocation_matches identity reason now i v = (v, refl, refl)

module _ (identity : IdentityContext) (id : ℕ) (reason : Text) (now now' : ℕ) (s : Store)
    (valid : IsValidStore s) where
  revoked_found :
      (j : RiskAcceptance)
      → check_revocation identity id reason now now' s ≡ ok j
      → (get_risk_acceptance identity.scope id (write Written.risk_revoked identity j s) ≡ some j)
        × (j.state ≡ revoked)
  revoked_found j h =
      let (i, found, _, made) = check_revocation_inv identity id reason now now' s h in
      let (at, v) = get_risk_acceptance_inv identity id s found in
      let (v', same, st) = revocation_matches identity reason now' i v in
      subst
        (λ x.
          (get_risk_acceptance identity.scope id (write Written.risk_revoked identity x s) ≡ some x)
          × (x.state ≡ revoked))
        made
        (
          subst
              (λ k.
                get_risk_acceptance identity.scope k
                  (write Written.risk_revoked identity (revocation identity reason now' i) s)
                ≡ some (revocation identity reason now' i))
              (same ∙ (valid.at id i at).id)
              (get-write Written.risk_revoked identity (revocation identity reason now' i) s v'),
          st,
        )

  revoked_again :
      (r : Result RiskAcceptance) {j : RiskAcceptance}
      → check_revocation identity id reason now now' s ≡ r
      → (written Written.risk_revoked identity s r).0 ≡ ok j
      → (reason' : Text) (m m' : ℕ)
      → let s' = (written Written.risk_revoked identity s r).1 in
        revoke identity id reason' m m' s' ≡ (err (stable risk_acceptance_already_revoked), s')
  unfolding written
  revoked_again (ok j) h e reason' m m' =
      let (found, st) = revoked_found j h in
      revoke_revoked identity id reason' m m' (write Written.risk_revoked identity j s)
        (audit_available-write Written.risk_revoked identity j s
          ∙ check_revocation_available identity id reason now now' s h)
        found st
  revoked_again (err f) h e reason' m m' = cc

  -- After a revocation that succeeded, each further one by the same identity, whenever and for
  -- whatever reason, raises RISK_ACCEPTANCE_ALREADY_REVOKED and writes nothing.
  pub revoke_twice :
      {j : RiskAcceptance}
      → (revoke identity id reason now now' s).0 ≡ ok j
      → (reason' : Text) (m m' : ℕ)
      → let s' = (revoke identity id reason now now' s).1 in
        revoke identity id reason' m m' s' ≡ (err (stable risk_acceptance_already_revoked), s')
  unfolding revoke
  revoke_twice h = revoked_again (check_revocation identity id reason now now' s) refl h
