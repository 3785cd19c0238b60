-- ===== src/Projects/Resolution/Tests.antt =====
-- Two clauses under one key, of the project and of the unit, and the theorems about them.
use biaice.Common.{◌≡◌, ◌↔◌, refl, none, some, [], ◌∷◌, Text, codes, text_eq}
use biaice.Projects.Resolution.{
  published, current, project_level, unit_level, resolved, RuleSet, RuleClause, RuleResolution,
  resolve_key, distinct, winner,
}
use biaice.Projects.Resolution.Resolving.{Says, resolve_key-resolved}

abbrev inherited : RuleClause
inherited = record {
  rule_clause_id = 1;
  rule_set_id = 10;
  coverage_key = codes "deadline";
  priority = 5;
  original_text = codes "30 days";
  structured_expression = none;
  lifecycle_state = published;
  validity_state = current;
}

abbrev override_clause : RuleClause
override_clause = record inherited {
  rule_clause_id = 2;
  rule_set_id = 11;
  structured_expression = some (codes "30 days");
}

abbrev project_rules : RuleSet
project_rules = record {
  rule_set_id = 10;
  scope_level = project_level;
  lifecycle_state = published;
  validity_state = current;
  effective_from = none;
  effective_until = none;
}

abbrev unit_rules : RuleSet
unit_rules = record project_rules { rule_set_id = 11; scope_level = unit_level }

abbrev resolution : RuleResolution
resolution = record {
  coverage_key = codes "deadline";
  status = resolved;
  winning_clause_id = some 2;
  conflicting_clause_ids = [];
}

resolve_key-resolved_example :
    (resolution.status ≡ resolved) ↔ ((t : Text) × Says t (inherited ∷ override_clause ∷ []))
unfolding resolve_key distinct winner text_eq
resolve_key-resolved_example =
    resolve_key-resolved (codes "deadline") (inherited ∷ []) (override_clause ∷ []) resolution refl
