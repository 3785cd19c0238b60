-- ===== src/Simulation/Merge.antt =====
-- The merge of candidates into a strategy plan (simulation/domain/merge.py).
use biaice.Common.{
  ℕ, ◌≡◌, refl, ◌↔◌, ◌⊎◌, inl, inr, ◌≤◌, Bool, true, false, not, ◌&&◌, ◌||◌, Option, none, some,
  List, [], ◌∷◌, Text, codes, text_eq, text_eq→≡, text_eq_refl, ◌==◌, ltb, elem, length, ℤ, pos,
  ◌+ℤ◌, ltℤ, if◌then◌else◌, arith,
}
use biaice.Core.Errors.{Result, ok, raise_if, ◌>>=◌, ◌>>◌}
use biaice.Core.Errors.Code.{plan_merge_blocked}

pub record MergeRequest : Type 0 where
  pub plan_id : ℕ
  pub run_id : ℕ
  pub baseline_version_id : ℕ
  pub candidate_ids : List ℕ
  pub linkage : Text
  pub tau_b : ℤ
  pub tau_m : ℤ

-- The tenant, the domain, the project and the unit of the call are left out.
pub record MergeAssessment : Type 0 where
  pub merge_id : ℕ
  pub run_id : ℕ
  pub plan_id : ℕ
  pub linkage : Text
  pub tau_b : ℤ
  pub tau_m : ℤ
  pub accepted : Bool
  pub blocked_reason_code : Option Text
  pub assessed_at : ℕ

abbrev blocked_if : Bool → Result (Unit {0})
blocked_if b = raise_if b plan_merge_blocked

-- The loop over the candidates: whether one of them repeats, and whether two neighbours differ
-- while the thresholds are `chained`.
unfoldable pub has_duplicate : List ℕ → List ℕ → Bool
has_duplicate seen [] = false
has_duplicate seen (c ∷ cs) = elem c seen || has_duplicate (c ∷ seen) cs

unfoldable pub is_chained : Bool → Option ℕ → List ℕ → Bool
is_chained over previous [] = false
is_chained over none (c ∷ cs) = is_chained over (some c) cs
is_chained over (some p) (c ∷ cs) = (not (c == p) && over) || is_chained over (some c) cs

-- A decimal is a number of units, of which `one` make 1.
module _ (one : ℕ) where
  unfoldable pub out_of_range : ℤ → Bool
  out_of_range tau = ltℤ tau (pos 0) || ltℤ (pos one) tau

  abbrev assessment : MergeRequest → ℕ → ℕ → Bool → MergeAssessment
  assessment q merge_id assessed_at chain_blocked = record {
    merge_id = merge_id;
    run_id = q.run_id;
    plan_id = q.plan_id;
    linkage = q.linkage;
    tau_b = q.tau_b;
    tau_m = q.tau_m;
    accepted = not chain_blocked;
    blocked_reason_code = if chain_blocked then some (codes "TAU_CHAIN_BLOCK") else none;
    assessed_at = assessed_at;
  }

  unfoldable pub merge_assessments : MergeRequest → ℕ → ℕ → Result MergeAssessment
  merge_assessments q merge_id assessed_at = do
    blocked_if (not (text_eq q.linkage (codes "complete")))
    blocked_if (ltb (length q.candidate_ids) 1 || ltb 4 (length q.candidate_ids))
    blocked_if (out_of_range q.tau_b)
    blocked_if (out_of_range q.tau_m)
    blocked_if (has_duplicate [] q.candidate_ids)
    ok (
        assessment q merge_id assessed_at
          (is_chained (ltℤ (pos one) (q.tau_b +ℤ q.tau_m)) none q.candidate_ids))

unfoldable pub assert_merge_accepted : MergeAssessment → Result (Unit {0})
assert_merge_accepted a = blocked_if (not a.accepted)

-- No candidate of the list is the given one, nor repeats.
unfoldable pub all_distinct : List ℕ → Bool
all_distinct [] = true
all_distinct (c ∷ cs) = not (elem c cs) && all_distinct cs

-- What a plan must satisfy to be merged: complete linkage, one to four different candidates,
-- thresholds from 0 to 1, and one candidate alone or thresholds of at most 1 together.
pub record IsMergeable (one : ℕ) (q : MergeRequest) : Type 0 where
  pub complete : q.linkage ≡ codes "complete"
  pub some_candidate : 1 ≤ length q.candidate_ids
  pub four_candidates : length q.candidate_ids ≤ 4
  pub tau_b_range : out_of_range one q.tau_b ≡ false
  pub tau_m_range : out_of_range one q.tau_m ≡ false
  pub distinct : all_distinct q.candidate_ids ≡ true
  pub unchained : (length q.candidate_ids ≡ 1) ⊎ (ltℤ (pos one) (q.tau_b +ℤ q.tau_m) ≡ false)

elem_cons : (x c : ℕ) (seen : List ℕ) → elem x (c ∷ seen) ≡ (c == x || elem x seen)
unfolding elem
elem_cons x c seen = ground arith

any_seen : List ℕ → List ℕ → Bool
any_seen seen [] = false
any_seen seen (c ∷ cs) = elem c seen || any_seen seen cs

any_seen_cons :
    (c : ℕ) (seen cs : List ℕ) → any_seen (c ∷ seen) cs ≡ (elem c cs || any_seen seen cs)
unfolding any_seen elem
any_seen_cons c seen [] = refl
any_seen_cons c seen (d ∷ cs) = ground (arith, any_seen_cons c seen cs)

any_seen_nil : (cs : List ℕ) → any_seen [] cs ≡ false
unfolding any_seen elem
any_seen_nil [] = refl
any_seen_nil (c ∷ cs) = any_seen_nil cs

-- The set that the loop keeps finds a repetition exactly if the list has one.
has_duplicate_seen :
    (seen cs : List ℕ) → has_duplicate seen cs ≡ (any_seen seen cs || not (all_distinct cs))
unfolding has_duplicate any_seen all_distinct
has_duplicate_seen seen [] = refl
has_duplicate_seen seen (c ∷ cs) =
    ground (arith, has_duplicate_seen (c ∷ seen) cs, any_seen_cons c seen cs)

is_chained_none : (p : Option ℕ) (cs : List ℕ) → is_chained false p cs ≡ false
unfolding is_chained
is_chained_none p [] = refl
is_chained_none none (c ∷ cs) = is_chained_none (some c) cs
is_chained_none (some p) (c ∷ cs) = ground (arith, is_chained_none (some c) cs)

-- Two different neighbours are found as soon as there are two candidates that do not repeat.
is_chained_over :
    (c d : ℕ) (cs : List ℕ)
    → all_distinct (c ∷ d ∷ cs) ≡ true
    → is_chained true none (c ∷ d ∷ cs) ≡ true
unfolding is_chained all_distinct elem
is_chained_over c d cs h = ground arith

unchained_iff :
    (over : Bool) (cs : List ℕ)
    → 1 ≤ length cs
    → all_distinct cs ≡ true
    → (is_chained over none cs ≡ false) ↔ ((length cs ≡ 1) ⊎ (over ≡ false))
unfolding is_chained
unchained_iff over [] l d = (λ h. ground arith, λ h. refl)
unchained_iff false (c ∷ cs) l d = (λ h. inr refl, λ h. is_chained_none none (c ∷ cs))
unchained_iff true (c ∷ []) l d = (λ h. inl refl, λ h. refl)
unchained_iff true (c ∷ e ∷ cs) l d =
    let chained = is_chained_over c e cs d in (λ h. ground arith, λ h. ground arith)

-- A merge request is assessed and accepted exactly if it is mergeable.
pub merge_assessments_iff :
    (one : ℕ) (q : MergeRequest) (merge_id assessed_at : ℕ)
    → ((merge_assessments one q merge_id assessed_at >>= assert_merge_accepted) ≡ ok tt)
      ↔ IsMergeable one q
unfolding merge_assessments assert_merge_accepted
merge_assessments_iff one q merge_id assessed_at =
    let over = ltℤ (pos one) (q.tau_b +ℤ q.tau_m) in
    let seen : has_duplicate [] q.candidate_ids ≡ not (all_distinct q.candidate_ids) =
      rw (has_duplicate_seen [] q.candidate_ids) (rw (any_seen_nil q.candidate_ids) refl) in
    let chain = unchained_iff over q.candidate_ids in
    (
      (λ h.
          let one_or_more : 1 ≤ length q.candidate_ids = ground arith in
          let distinct : all_distinct q.candidate_ids ≡ true = ground arith in
          record {
            complete = text_eq→≡ q.linkage (codes "complete") (ground arith);
            some_candidate = one_or_more;
            four_candidates = ground arith;
            tau_b_range = ground arith;
            tau_m_range = ground arith;
            distinct = distinct;
            unchained = (chain one_or_more distinct).0 (ground arith);
          }),
      λ m.
          let linked : text_eq q.linkage (codes "complete") ≡ true =
            rw m.complete (text_eq_refl (codes "complete")) in
          let open_chain = (chain m.some_candidate m.distinct).1 m.unchained in
          ground
            (arith, m.some_candidate, m.four_candidates, m.tau_b_range, m.tau_m_range, m.distinct),
    )
