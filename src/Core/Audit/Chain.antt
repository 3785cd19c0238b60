-- ===== src/Core/Audit/Chain.antt =====
-- The chains of a sink before and after a write (core/audit.py).
use biaice.Common.{
  ℕ, ◌≡◌, refl, sym, ap, subst, ◌⊎◌, inl, inr, true, false, Option, none, some, List, [], ◌∷◌, ◌++◌,
  Text, text_eq_refl, keep, keep-append, last?, is_empty, All, arith, Bool-cases,
}
use biaice.Core.Errors.{ok}
use biaice.Core.Scope.{TenantScope, IdentityContext}
use biaice.Core.Audit.{
  Unsigned, AuditEvent, AuditSink, AuditRequest, expects, in_scope, list_events, latest_hash,
  hash_of, append, genesis_hash, or_genesis, unsigned_event, signed, write, verify_from,
  verify_hash_chain,
}

-- The chain of every tenant and data domain verifies, and ends in the hash that the next event
-- of that chain will name.
unfoldable pub IsVerified : (Unsigned → Text) → AuditSink → Type 0
IsVerified digest sink =
    (scope : TenantScope)
    → verify_hash_chain digest (list_events sink scope) ≡ ok (or_genesis (latest_hash sink scope))

abbrev IsExpected : TenantScope → Option (ℕ × ℕ) → Type 0
IsExpected scope expected =
    (expected ≡ none) ⊎ (expected ≡ some (scope.tenant_id, scope.data_domain_id))

last-append : (es : List AuditEvent) (e : AuditEvent) → last? (es ++ e ∷ []) ≡ some e
last-append [] e = refl
last-append (x ∷ []) e = refl
last-append (x ∷ y ∷ es) e = last-append (y ∷ es) e

expects_own :
    (scope : TenantScope) (expected : Option (ℕ × ℕ)) (e : AuditEvent)
    → IsExpected scope expected
    → in_scope scope e ≡ true
    → expects expected e ≡ true
unfolding in_scope
expects_own scope expected e (inl n) own = rw n refl
expects_own scope expected e (inr s) own = rw s own

kept_own :
    (scope : TenantScope) (es : List AuditEvent)
    → All (λ e. in_scope scope e ≡ true) (keep (in_scope scope) es)
kept_own scope [] = tt
kept_own scope (e ∷ es) = elim (Bool-cases (in_scope scope e)) [
  | inl y ↦ rw y (y, kept_own scope es)
  | inr n ↦ rw n (kept_own scope es)
]

module _ (digest : Unsigned → Text) (scope : TenantScope) where
  verify_from-append :
      (es : List AuditEvent) (e : AuditEvent) (start : Text) (expected : Option (ℕ × ℕ)) (h : Text)
      → IsExpected scope expected
      → All (λ y. in_scope scope y ≡ true) es
      → verify_from digest start expected es ≡ ok h
      → in_scope scope e ≡ true
      → e.unsigned.previous_hash ≡ h
      → e.event_hash ≡ digest e.unsigned
      → verify_from digest start expected (es ++ e ∷ []) ≡ ok e.event_hash
  unfolding verify_from in_scope
  verify_from-append [] e start expected h x owns v own linked hashed =
      let fits : expects expected e ≡ true = expects_own scope expected e x own in
      ground (arith, text_eq_refl start, text_eq_refl e.event_hash)
  verify_from-append (y ∷ es) e start expected h x owns v own linked hashed =
      let first : Path (Option (ℕ × ℕ)) (some (y.unsigned.tenant_id, y.unsigned.data_domain_id))
          (some (scope.tenant_id, scope.data_domain_id)) =
        ground arith in
      ground (
        arith,
        verify_from-append es e y.event_hash
            (some (y.unsigned.tenant_id, y.unsigned.data_domain_id)) h (inr first) owns.1,
      )

-- A chain verifies and ends in its latest hash.
IsSealed : (Unsigned → Text) → List AuditEvent → Type 0
IsSealed digest es = verify_hash_chain digest es ≡ ok (or_genesis (hash_of (last? es)))

same_chain :
    (sink : AuditSink) (s t : TenantScope)
    → s.tenant_id ≡ t.tenant_id
    → s.data_domain_id ≡ t.data_domain_id
    → list_events sink s ≡ list_events sink t
unfolding list_events in_scope
same_chain sink s t a b = rw (a, b) refl

append_nil : (es : List AuditEvent) → es ++ [] ≡ es
append_nil [] = refl
append_nil (e ∷ es) = ap (λ r. e ∷ r) (append_nil es)

module _ (digest : Unsigned → Text) (hashes : (u : Unsigned) → is_empty (digest u) ≡ false) where
  append-IsSealed :
      (scope : TenantScope) (es : List AuditEvent) (e : AuditEvent)
      → All (λ y. in_scope scope y ≡ true) es
      → IsSealed digest es
      → in_scope scope e ≡ true
      → e.unsigned.previous_hash ≡ or_genesis (hash_of (last? es))
      → e.event_hash ≡ digest e.unsigned
      → IsSealed digest (es ++ e ∷ [])
  unfolding IsSealed verify_hash_chain or_genesis
  append-IsSealed scope es e owns sealed own linked hashed =
      let verified =
        verify_from-append digest scope es e genesis_hash none _ (inl refl) owns sealed own linked
          hashed in
      let full : is_empty e.event_hash ≡ false = rw hashed (hashes e.unsigned) in
      rw (verified, last-append es e, full) refl

  signed_seals :
      (identity : IdentityContext) (q : AuditRequest) (sink : AuditSink) (scope : TenantScope)
      → IsSealed digest (list_events sink scope)
      → IsSealed digest (keep (in_scope scope) (sink.events ++ signed digest identity q sink ∷ []))
  unfolding signed unsigned_event latest_hash list_events in_scope
  signed_seals identity q sink scope sealed =
      let e = signed digest identity q sink in
      subst (IsSealed digest) (sym (keep-append (in_scope scope) sink.events (e ∷ [])))
        (elim (Bool-cases (in_scope scope e)) [
          | inl y ↦ rw y (
              append-IsSealed scope (list_events sink scope) e (kept_own scope sink.events) sealed y
                (ap (λ es. or_genesis (hash_of (last? es)))
                  (same_chain sink identity.scope scope (ground arith) (ground arith)))
                refl)
          | inr n ↦
              rw n (subst (IsSealed digest) (sym (append_nil (list_events sink scope))) sealed)
        ])

  -- If the chain of every scope verifies and ends in the hash that its next event will name, then
  -- it does so after a write, whether that returns or raises, where no digest is empty.
  pub write-IsVerified :
      (identity : IdentityContext) (q : AuditRequest) (sink : AuditSink)
      → IsVerified digest sink
      → IsVerified digest (write digest identity q sink).1
  unfolding write append IsVerified latest_hash list_events IsSealed
  write-IsVerified identity q sink valid scope = elim (Bool-cases sink.available) [
    | inl y ↦ simp (y, signed_seals identity q sink scope (valid scope))
    | inr n ↦ simp (n, valid scope)
  ]
