-- ===== src/Projects/Resolution.antt =====
-- The resolution of inherited rule clauses (modules/projects/domain/resolution.py), with the models that
-- it reads of modules/rules/domain/models.py. The texts of the details are left out.
pub mod Resolving
pub mod Covering
pub mod Tests
use biaice.Common.{
  ℕ, ◌+◌, Bool, true, false, not, ◌&&◌, ◌||◌, Option, none, some, List, [], ◌∷◌, map, Text, text_eq,
  text_ltb, leb, ltb, ◌==◌, keep, any, length, is_empty, if◌then◌else◌,
}
use biaice.Common.Dict.{Dict, lookup, insert}

pub data ResourceLifecycle : Type 0 where
  draft published archived : ResourceLifecycle

pub data ResourceValidity : Type 0 where
  current stale invalidated : ResourceValidity

pub data RuleScopeLevel : Type 0 where
  project_level unit_level : RuleScopeLevel

pub data ResolutionStatus : Type 0 where
  resolved conflict_requires_confirmation : ResolutionStatus

-- As far as the resolution reads them.
pub record RuleSet : Type 0 where
  pub rule_set_id : ℕ
  pub scope_level : RuleScopeLevel
  pub lifecycle_state : ResourceLifecycle
  pub validity_state : ResourceValidity
  pub effective_from : Option ℕ
  pub effective_until : Option ℕ

pub record RuleClause : Type 0 where
  pub rule_clause_id : ℕ
  pub rule_set_id : ℕ
  pub coverage_key : Text
  pub priority : ℕ
  pub original_text : Text
  pub structured_expression : Option Text
  pub lifecycle_state : ResourceLifecycle
  pub validity_state : ResourceValidity

pub record RuleResolution : Type 0 where
  pub coverage_key : Text
  pub status : ResolutionStatus
  pub winning_clause_id : Option ℕ
  pub conflicting_clause_ids : List ℕ

abbrev is_current : ResourceValidity → Bool
is_current current = true
is_current _ = false

abbrev takes_part : Bool → ResourceLifecycle → Bool
takes_part formal published = true
takes_part formal draft = not formal
takes_part formal archived = false

abbrev starts_after : Option ℕ → ℕ → Bool
starts_after none now = false
starts_after (some t) now = ltb now t

abbrev ended_by : Option ℕ → ℕ → Bool
ended_by none now = false
ended_by (some t) now = leb t now

unfoldable pub rule_set_is_effective : RuleSet → ℕ → Bool
rule_set_is_effective s now =
    is_current s.validity_state
    && (not (starts_after s.effective_from now) && not (ended_by s.effective_until now))

unfoldable pub clause_participates : RuleClause → Bool → Bool
clause_participates c formal = is_current c.validity_state && takes_part formal c.lifecycle_state

-- `structured_expression or original_text`
abbrev pub expression : RuleClause → Text
expression c = chosen c.structured_expression
  where
    chosen : Option Text → Text
    chosen none = c.original_text
    chosen (some t) = if is_empty t then c.original_text else t

-- The order of `(priority, str(id))`: the texts of UUIDs are ordered as their numbers are.
abbrev pub precedes : RuleClause → RuleClause → Bool
precedes a b =
    ltb a.priority b.priority || (a.priority == b.priority && ltb a.rule_clause_id b.rule_clause_id)

-- The first of the sorted clauses: of equal ones, the one that comes first.
unfoldable pub winner : RuleClause → List RuleClause → RuleClause
winner best [] = best
winner best (c ∷ cs) = winner (if precedes c best then c else best) cs

-- A set of texts, as a list without repetitions.
unfoldable pub distinct : List Text → List Text
distinct [] = []
distinct (t ∷ ts) = let rest = distinct ts in if any (λ u. text_eq u t) rest then rest else t ∷ rest

-- `len({_expression(item) for item in clauses}) > 1`
abbrev pub disagree : List RuleClause → Bool
disagree cs = ltb 1 (length (distinct (map expression cs)))

abbrev clause_id : RuleClause → ℕ
clause_id c = c.rule_clause_id

abbrev pub conflict : Text → List RuleClause → RuleResolution
conflict key cs = record {
  coverage_key = key;
  status = conflict_requires_confirmation;
  winning_clause_id = none;
  conflicting_clause_ids = map clause_id cs;
}

abbrev pub won_by : Text → RuleClause → RuleResolution
won_by key c = record {
  coverage_key = key;
  status = resolved;
  winning_clause_id = some c.rule_clause_id;
  conflicting_clause_ids = [];
}

-- The end of the loop's body; `none` is the IndexError of `_winner` without clauses.
abbrev pub by_levels : Text → List RuleClause → List RuleClause → Option RuleResolution
by_levels key [] [] = none
by_levels key [] (u ∷ us) = some (won_by key (winner u us))
by_levels key (p ∷ ps) [] = some (won_by key (winner p ps))
by_levels key (p ∷ ps) (u ∷ us) = some (
    if not (text_eq (expression (winner p ps)) (expression (winner u us)))
    then conflict key (winner p ps ∷ winner u us ∷ [])
    else won_by key (winner u us))

-- The body of the loop over the keys.
unfoldable pub resolve_key : Text → List RuleClause → List RuleClause → Option RuleResolution
unfolding winner
resolve_key key project unit =
    if disagree project
    then some (conflict key project)
    else if disagree unit
    then some (conflict key unit)
    else by_levels key project unit

-- `{item.rule_set_id: item for item in rule_sets}`
unfoldable pub sets_by_id : List RuleSet → Dict RuleSet → Dict RuleSet
sets_by_id [] d = d
sets_by_id (s ∷ ss) d = sets_by_id ss (insert s.rule_set_id s d)

abbrev participant : RuleClause → Option RuleSet → ℕ → Bool → Bool
participant c none now formal = false
participant c (some s) now formal =
    rule_set_is_effective s now
    && (takes_part formal s.lifecycle_state && clause_participates c formal)

abbrev level_of : Option RuleSet → RuleScopeLevel
level_of none = unit_level
level_of (some s) = s.scope_level

-- The clauses that take part, with the levels of their rule sets.
unfoldable pub participants :
    List RuleClause → Dict RuleSet → ℕ → Bool → List (RuleClause × RuleScopeLevel)
unfolding lookup
participants [] d now formal = []
participants (c ∷ cs) d now formal =
    let rest = participants cs d now formal in
    let set = lookup c.rule_set_id d in
    if participant c set now formal then (c, level_of set) ∷ rest else rest

abbrev is_project : RuleScopeLevel → Bool
is_project project_level = true
is_project unit_level = false

-- The clauses of a level under a key.
unfoldable pub at_level : Bool → Text → List (RuleClause × RuleScopeLevel) → List RuleClause
at_level project key [] = []
at_level project key ((c, level) ∷ ps) =
    let rest = at_level project key ps in
    if text_eq c.coverage_key key && (if project then is_project level else not (is_project level))
    then c ∷ rest
    else rest

-- `sorted(grouped)`: each key once.
unfoldable pub insert_key : Text → List Text → List Text
insert_key t [] = t ∷ []
insert_key t (u ∷ us) =
    let rest = insert_key t us in
    if text_eq t u then u ∷ us else if text_ltb t u then t ∷ u ∷ us else u ∷ rest

unfoldable pub sorted_keys : List (RuleClause × RuleScopeLevel) → List Text
unfolding insert_key
sorted_keys [] = []
sorted_keys ((c, _) ∷ ps) = insert_key c.coverage_key (sorted_keys ps)

abbrev append_to :
    Option RuleResolution → Option (List RuleResolution) → Option (List RuleResolution)
append_to none rest = none
append_to (some r) none = none
append_to (some r) (some rs) = some (r ∷ rs)

unfoldable pub resolve_keys :
    List Text → List (RuleClause × RuleScopeLevel) → Option (List RuleResolution)
unfolding resolve_key at_level
resolve_keys [] ps = some []
resolve_keys (key ∷ keys) ps =
    append_to (resolve_key key (at_level true key ps) (at_level false key ps))
      (resolve_keys keys ps)

unfoldable pub resolve_inherited_clauses :
    List RuleClause → List RuleSet → ℕ → Bool → Option (List RuleResolution)
resolve_inherited_clauses clauses rule_sets now formal =
    let ps : List (RuleClause × RuleScopeLevel) =
      participants clauses (sets_by_id rule_sets []) now formal in
    resolve_keys (sorted_keys ps) ps
