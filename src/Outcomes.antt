-- ===== src/Outcomes.antt =====
-- optimization/scenario_outcomes.py, and the dicts of graders/base.py: the outcome of a case as the
-- values of a row, and back. A dict with fixed keys is a record; a value that may be missing is an
-- Option, but a missing list of children is the empty one. What raises (a label that is none) is
-- `none`.
pub mod Lossless
use selfevals.Prelude.{
  ℕ, String, str_eq, Bool, true, false, Option, none, some, List, [], ◌∷◌, map, if◌then◌else◌,
}
use selfevals.Graders.{GradeLabel, BreakdownNode, BreakdownNodes, Floats}
use selfevals.Aggregation.{CaseOutcome, Dict}
use selfevals.Aggregation.Metrics.{Metric}
use selfevals.Aggregation.Funnel.{label_value}
use selfevals.Aggregation.Iteration.{◌>>=◌, IterationAggregate, Ordering, aggregate_iteration}

mutual
  pub data NodeDict (F : Type 0) : Type 0 where
    node_dict :
        (key : String) (label : Option String) (score weight : Option F) (reason : Option String)
        (failure_modes : Option (List String))
        → NodeDicts F
        → NodeDict F

  pub data NodeDicts (F : Type 0) : Type 0 where
    no_dict : NodeDicts F
    dict : NodeDict F → NodeDicts F → NodeDicts F

abbrev pub value_or : {A : Type 0} → A → Option A → A
value_or default none = default
value_or default (some value) = value

abbrev pub label_text : Option GradeLabel → Option String
label_text none = none
label_text (some label) = some (label_value label)

-- `GradeLabel(value)`
unfoldable pub parse_label : String → Option GradeLabel
parse_label value =
    if str_eq value "pass"
    then some GradeLabel.pass
    else if str_eq value "fail"
    then some GradeLabel.fail
    else if str_eq value "partial"
    then some GradeLabel.partial
    else if str_eq value "error"
    then some GradeLabel.error
    else if str_eq value "skipped"
    then some GradeLabel.skipped
    else none

unfoldable pub parse_optional : Option String → Option (Option GradeLabel)
unfolding parse_label
parse_optional none = some none
parse_optional (some value) = do label ← parse_label value; some (some label)

unfoldable pub parse_labels : List String → Option (List GradeLabel)
unfolding parse_label
parse_labels [] = some []
parse_labels (v ∷ vs) = do label ← parse_label v; labels ← parse_labels vs; some (label ∷ labels)

unfoldable pub parse_graders : Dict (List String) → Option (Dict (List GradeLabel))
unfolding parse_labels
parse_graders [] = some []
parse_graders ((grader, values) ∷ items) = do
  labels ← parse_labels values
  rest ← parse_graders items
  some ((grader, labels) ∷ rest)

-- `BreakdownNode.to_dict`
unfoldable mutual
  pub to_dict : {F : Type 0} → BreakdownNode F → NodeDict F
  to_dict (BreakdownNode.node key label score weight reason modes children) =
      node_dict key (label_text label) score (some weight) (some reason) (some modes)
        (to_dicts children)

  pub to_dicts : {F : Type 0} → BreakdownNodes F → NodeDicts F
  to_dicts BreakdownNodes.leaf = no_dict
  to_dicts (BreakdownNodes.more child children) = dict (to_dict child) (to_dicts children)

-- the columns of a row of `scenario_outcomes`
pub record Fields (F : Type 0) : Type 0 where
  pub case_id : String
  pub labels : List String
  pub scores : List F
  pub per_grader_labels : Option (Dict (List String))
  pub failure_modes : Option (List String)
  pub breakdowns : Option (List (NodeDict F))
  pub failure_weights : Option (Dict ℕ)
  pub critical_failure_modes : Option (List String)
  pub cost_usd : Option F
  pub duration_ms : Option ℕ
  pub llm_call_count : Option ℕ
  pub cache_hit_count : Option ℕ

unfoldable pub case_outcome_to_fields : {F : Type 0} → CaseOutcome F → Fields F
unfolding to_dict
case_outcome_to_fields o = record {
  case_id = o.case_id;
  labels = map label_value o.per_repetition_label;
  scores = o.per_repetition_score;
  per_grader_labels =
      some (map (λ (grader, labels). (grader, map label_value labels)) o.per_grader_label);
  failure_modes = some o.failure_modes;
  breakdowns = some (map to_dict o.breakdowns);
  failure_weights = some o.failure_weights;
  critical_failure_modes = some o.critical_failure_modes;
  cost_usd = some o.cost_usd;
  duration_ms = some o.duration_ms;
  llm_call_count = some o.llm_call_count;
  cache_hit_count = some o.cache_hit_count;
}

module _ {F : Type 0} (fl : Floats F) where
  -- `BreakdownNode.from_dict`
  unfoldable mutual
    unfolding parse_optional

    pub from_dict : NodeDict F → Option (BreakdownNode F)
    from_dict (node_dict key label score weight reason modes children) = do
      parsed ← parse_optional label
      nodes ← from_dicts children
      some (
          BreakdownNode.node key parsed score (value_or fl.one weight) (value_or "" reason)
            (value_or [] modes) nodes)

    pub from_dicts : NodeDicts F → Option (BreakdownNodes F)
    from_dicts no_dict = some BreakdownNodes.leaf
    from_dicts (dict d ds) = do
      child ← from_dict d
      children ← from_dicts ds
      some (BreakdownNodes.more child children)

  unfoldable pub from_all : List (NodeDict F) → Option (List (BreakdownNode F))
  unfolding from_dict
  from_all [] = some []
  from_all (d ∷ ds) = do node ← from_dict d; nodes ← from_all ds; some (node ∷ nodes)

  unfoldable pub case_outcome_from_fields : Fields F → Option (CaseOutcome F)
  unfolding parse_labels parse_graders from_all
  case_outcome_from_fields f = do
    labels ← parse_labels f.labels
    graders ← parse_graders (value_or [] f.per_grader_labels)
    nodes ← from_all (value_or [] f.breakdowns)
    some (record {
      case_id = f.case_id;
      per_repetition_label = labels;
      per_repetition_score = f.scores;
      failure_modes = value_or [] f.failure_modes;
      cost_usd = value_or fl.zero f.cost_usd;
      duration_ms = value_or 0 f.duration_ms;
      cache_hit_count = value_or 0 f.cache_hit_count;
      llm_call_count = value_or 0 f.llm_call_count;
      breakdowns = nodes;
      per_grader_label = graders;
      failure_weights = value_or [] f.failure_weights;
      critical_failure_modes = value_or [] f.critical_failure_modes;
    })

  unfoldable pub outcomes_from : List (Fields F) → Option (List (CaseOutcome F))
  unfolding case_outcome_from_fields
  outcomes_from [] = some []
  outcomes_from (row ∷ rows) = do
    outcome ← case_outcome_from_fields row
    outcomes ← outcomes_from rows
    some (outcome ∷ outcomes)

  -- the rows are those that the workers wrote for the iteration
  unfoldable pub aggregate_iteration_from_storage :
      Ordering F
      → List (Fields F)
      → Metric
      → List Metric
      → Option String
      → Option (IterationAggregate F)
  unfolding outcomes_from
  aggregate_iteration_from_storage or rows metric reliability grader = do
    outcomes ← outcomes_from rows
    aggregate_iteration fl or outcomes metric reliability grader
