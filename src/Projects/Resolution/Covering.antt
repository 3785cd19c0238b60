-- ===== src/Projects/Resolution/Covering.antt =====
-- The resolution of inherited clauses (modules/projects/domain/resolution.py) always returns, with one
-- resolution for each key.
use biaice.Common.{◌≡◌, true, Option, some, List, Text, text_eq, any}
use biaice.Projects.Resolution.{RuleClause, RuleScopeLevel, RuleResolution}

abbrev Participant : Type 0
Participant = RuleClause × RuleScopeLevel

-- A clause takes part under the key.
abbrev Present : List Participant → Text → Type 0
Present ps key = any (λ (p : Participant). text_eq p.0.coverage_key key) ps ≡ true

-- The key is resolved, one way or the other.
abbrev Resolves : Text → Option RuleResolution → Type 0
Resolves key o = (r : RuleResolution) × (o ≡ some r) × (r.coverage_key ≡ key)
