-- ===== src/Projects/Resolution/Resolving.antt =====
-- When the clauses under a key are resolved (modules/projects/domain/resolution.py): never by the last
-- one written, but only where all of them say the same.
use biaice.Common.{
  ◌≡◌, ◌≢◌, ◌↔◌, refl, sym, ap, ◌∙◌, subst, Bool, true, false, not, ◌⊎◌, inl, inr, some, some_inj,
  List, [], ◌∷◌, ◌++◌, map, Text, text_eq, text_eq→≡, text_eq_refl, ltb, any, length, All,
  All-append, if◌then◌else◌, arith, Bool-cases,
}
use biaice.Projects.Resolution.{
  RuleClause, RuleResolution, ResolutionStatus, resolved, conflict_requires_confirmation,
  expression, precedes, winner, distinct, disagree, by_levels, conflict, won_by, resolve_key,
}

-- All the clauses have the expression.
abbrev pub Says : Text → List RuleClause → Type 0
Says t cs = All (λ c. expression c ≡ t) cs

distinct_empty : (ts : List Text) → distinct ts ≡ [] → ts ≡ []
unfolding distinct
distinct_empty [] h = refl
distinct_empty (t ∷ ts) h = elim (Bool-cases (any (λ u. text_eq u t) (distinct ts))) [
  | inl e ↦ absurd (none_in (distinct ts) (ground arith) e)
  | inr e ↦ absurd (ground arith)
]
  where
    none_in : (us : List Text) → us ≡ [] → any (λ u. text_eq u t) us ≢ true
    none_in [] h e = cc
    none_in (u ∷ us) h e = cc

distinct_one : (t : Text) (ts : List Text) → distinct ts ≡ t ∷ [] → All (λ u. u ≡ t) ts
unfolding distinct
distinct_one t [] h = tt
distinct_one t (x ∷ xs) h = elim (Bool-cases (any (λ u. text_eq u x) (distinct xs))) [
  | inl e ↦
      let rest : distinct xs ≡ t ∷ [] = ground arith in
      (sym (text_eq→≡ t x (among (distinct xs) rest e)), distinct_one t xs rest)
  | inr e ↦
      let here : x ∷ distinct xs ≡ t ∷ [] = ground arith in
      (head_same here, subst (All (λ u. u ≡ t)) (sym (distinct_empty xs (tail_same here))) tt)
]
  where
    among : (us : List Text) → us ≡ t ∷ [] → any (λ u. text_eq u x) us ≡ true → text_eq t x ≡ true
    among us e h = ground (arith, subst (λ vs. any (λ u. text_eq u x) vs ≡ true) e h)

    head_same : {ys : List Text} → x ∷ ys ≡ t ∷ [] → x ≡ t
    head_same h = cc

    tail_same : {ys : List Text} → x ∷ ys ≡ t ∷ [] → ys ≡ []
    tail_same h = cc

distinct_same :
    (t : Text) (ts : List Text) → All (λ u. u ≡ t) ts → (distinct ts ≡ []) ⊎ (distinct ts ≡ t ∷ [])
unfolding distinct
distinct_same t [] same = inl refl
distinct_same t (x ∷ xs) same = inr (
    subst (λ y. distinct (y ∷ xs) ≡ t ∷ []) (sym same.0)
      (by_rest (distinct xs) (distinct_same t xs same.1)))
  where
    by_rest :
        (rest : List Text)
        → (rest ≡ []) ⊎ (rest ≡ t ∷ [])
        → (if any (λ u. text_eq u t) rest then rest else t ∷ rest) ≡ t ∷ []
    by_rest rest (inl e) =
        subst (λ r. (if any (λ u. text_eq u t) r then r else t ∷ r) ≡ t ∷ []) (sym e) refl
    by_rest rest (inr e) =
        subst (λ r. (if any (λ u. text_eq u t) r then r else t ∷ r) ≡ t ∷ []) (sym e)
          (rw (text_eq_refl t) refl)

one_or_none :
    (ts : List Text) → ltb 1 (length ts) ≡ false → (ts ≡ []) ⊎ ((t : Text) × (ts ≡ t ∷ []))
one_or_none [] h = inl refl
one_or_none (t ∷ []) h = inr (t, refl)
one_or_none (t ∷ u ∷ ts) h = absurd (ground arith)

All-map : (t : Text) (cs : List RuleClause) → All (λ u. u ≡ t) (map expression cs) → Says t cs
All-map t [] h = tt
All-map t (c ∷ cs) h = (h.0, All-map t cs h.1)

map-All : (t : Text) (cs : List RuleClause) → Says t cs → All (λ u. u ≡ t) (map expression cs)
map-All t [] h = tt
map-All t (c ∷ cs) h = (h.0, map-All t cs h.1)

-- Clauses that do not disagree say the same.
agreeing : (cs : List RuleClause) → disagree cs ≡ false → (t : Text) × Says t cs
agreeing cs h = elim (one_or_none (distinct (map expression cs)) h) [
  | inl e ↦ ([], subst (Says []) (sym (no_clauses cs (distinct_empty (map expression cs) e))) tt)
  | inr one ↦ (one.0, All-map one.0 cs (distinct_one one.0 (map expression cs) one.1))
]
  where
    no_clauses : (ds : List RuleClause) → map expression ds ≡ [] → ds ≡ []
    no_clauses [] e = refl
    no_clauses (d ∷ ds) e = cc

not_disagreeing : (t : Text) (cs : List RuleClause) → Says t cs → disagree cs ≡ false
not_disagreeing t cs same = elim (distinct_same t (map expression cs) (map-All t cs same)) [
  | inl e ↦ ap (λ ts. ltb 1 (length ts)) e
  | inr e ↦ ap (λ ts. ltb 1 (length ts)) e
]

winner-Says :
    (t : Text) (b : RuleClause) (cs : List RuleClause)
    → Says t (b ∷ cs)
    → expression (winner b cs) ≡ t
unfolding winner
winner-Says t b [] same = same.0
winner-Says t b (c ∷ cs) same =
    winner-Says t (if precedes c b then c else b) cs (picked (precedes c b), same.1.1)
  where
    picked : (x : Bool) → expression (if x then c else b) ≡ t
    picked true = same.1.0
    picked false = same.0

All-left : {A : Type 0} (P : A → Type 0) (xs ys : List A) → All P (xs ++ ys) → All P xs
All-left P [] ys h = tt
All-left P (x ∷ xs) ys h = (h.0, All-left P xs ys h.1)

All-right : {A : Type 0} (P : A → Type 0) (xs ys : List A) → All P (xs ++ ys) → All P ys
All-right P [] ys h = h
All-right P (x ∷ xs) ys h = All-right P xs ys h.1

-- Clauses that say the same are resolved, where there are any.
same-resolved :
    (key : Text) (project unit : List RuleClause) (t : Text) (r : RuleResolution)
    → Says t project
    → Says t unit
    → by_levels key project unit ≡ some r
    → r.status ≡ resolved
same-resolved key [] [] t r p u h = cc
same-resolved key [] (b ∷ bs) t r p u h =
    sym (ap (λ (x : RuleResolution). x.status) (some_inj _ r h))
same-resolved key (a ∷ ps) [] t r p u h =
    sym (ap (λ (x : RuleResolution). x.status) (some_inj _ r h))
same-resolved key (a ∷ ps) (b ∷ bs) t r p u h =
    sym (ap (λ (x : RuleResolution). x.status) (some_inj _ r h))
    ∙ simp (winner-Says t a ps p, winner-Says t b bs u, text_eq_refl t) refl

abbrev status_of : RuleResolution → ResolutionStatus
status_of r = r.status

-- The two levels that do not disagree, each in itself, and are resolved, say the same.
resolved-same :
    (key : Text) (project unit : List RuleClause) (r : RuleResolution)
    → ((t : Text) × Says t project)
    → ((t : Text) × Says t unit)
    → by_levels key project unit ≡ some r
    → r.status ≡ resolved
    → (t : Text) × Says t (project ++ unit)
resolved-same key [] unit r p u h e = u
resolved-same key (a ∷ ps) [] r p u h e =
    (p.0, All-append (λ c. expression c ≡ p.0) (a ∷ ps) [] p.1 tt)
resolved-same key (a ∷ ps) (b ∷ bs) r (t, p) (v, u) h e = (
  t,
  All-append (λ c. expression c ≡ t) (a ∷ ps) (b ∷ bs) p
      (subst (λ x. Says x (b ∷ bs)) (sym one_text) u),
)
  where
    levels_agree :
        (x : Bool)
        → status_of (
            if not x
            then conflict key (winner a ps ∷ winner b bs ∷ [])
            else won_by key (winner b bs))
          ≡ resolved
        → x ≡ true
    levels_agree true g = refl
    levels_agree false g = cc

    one_text : t ≡ v
    one_text =
        sym (winner-Says t a ps p)
        ∙ text_eq→≡ (expression (winner a ps)) (expression (winner b bs)) (
            levels_agree (text_eq (expression (winner a ps)) (expression (winner b bs)))
              (ap status_of (some_inj _ r h) ∙ e))
        ∙ winner-Says v b bs u

-- A key is resolved exactly if all the clauses that take part under it, of the project and of the unit,
-- have one expression; otherwise it is a conflict that wants confirmation.
pub resolve_key-resolved :
    (key : Text) (project unit : List RuleClause) (r : RuleResolution)
    → resolve_key key project unit ≡ some r
    → (r.status ≡ resolved) ↔ ((t : Text) × Says t (project ++ unit))
unfolding resolve_key
resolve_key-resolved key project unit r h = by_tests (disagree project) (disagree unit) refl refl h
  where
    conflict_unresolved : conflict_requires_confirmation ≢ resolved
    conflict_unresolved e = cc

    refused :
        (cs : List RuleClause)
        → some (conflict key cs) ≡ some r
        → r.status ≡ resolved
        → disagree cs ≡ false
    refused cs e s = absurd (
        conflict_unresolved
          (ap (λ (x : RuleResolution). x.status) (some_inj (conflict key cs) r e) ∙ s))

    clash : {P : Type 0} (cs : List RuleClause) → disagree cs ≡ true → disagree cs ≡ false → P
    clash cs e g = cc

    by_tests :
        (x y : Bool)
        → disagree project ≡ x
        → disagree unit ≡ y
        → (if x
            then some (conflict key project)
            else if y
            then some (conflict key unit)
            else by_levels key project unit)
          ≡ some r
        → (r.status ≡ resolved) ↔ ((t : Text) × Says t (project ++ unit))
    by_tests true y d g e = (
      λ s. clash project d (refused project e s),
      λ (t, same).
          clash project d
            (not_disagreeing t project (All-left (λ c. expression c ≡ t) project unit same)),
    )
    by_tests false true d g e = (
      λ s. clash unit g (refused unit e s),
      λ (t, same).
          clash unit g
            (not_disagreeing t unit (All-right (λ c. expression c ≡ t) project unit same)),
    )
    by_tests false false d g e = (
      λ s. resolved-same key project unit r (agreeing project d) (agreeing unit g) e s,
      λ (t, same).
          same-resolved key project unit t r (All-left (λ c. expression c ≡ t) project unit same)
            (All-right (λ c. expression c ≡ t) project unit same) e,
    )
