-- ===== src/Tests/Aggregation.antt =====
-- Aggregation at concrete outcomes: two cases with two repetitions each, floats taken as naturals.
use selfevals.Prelude.{
  ℕ, ◌+◌, ◌*◌, ◌-◌, ◌/◌, ◌==◌, ◌≡◌, refl, String, true, false, none, some, List, [], ◌∷◌, arith,
  leb, ltb, get_elem?, false, All,
}
use selfevals.Graders.{GradeLabel, GradeResult, BreakdownNode, BreakdownNodes, Floats}
use selfevals.Aggregation.{
  CaseOutcome, EvalCase, RepetitionResult, Trace, Span, errored, outcome_for, lookup,
}
use selfevals.Aggregation.Metrics.{Metric, compute_metric, compute_scored, compute_worst_of}
use selfevals.Aggregation.Passes.{Ordered, pass_hat-Ordered}
use selfevals.Aggregation.Monotone.{pass_at_one-outcome_for}
use selfevals.Aggregation.Labels.{label_at, per_repetition_label-worst}
use selfevals.Aggregation.Funnel.{rollup_funnel}
use selfevals.Aggregation.Funnels.{counted_all, size_outcomes, counted-rollup_funnel}
use selfevals.Aggregation.Confusion.{Pair, confusion_from_pairs}
use selfevals.Aggregation.Confusions.{IsF1, hits, predicted, expected, report-IsF1}
use selfevals.Aggregation.Cells.{str_le, parse_cell_key}
use selfevals.Aggregation.Iteration.{
  Ordering, IterationAggregate, aggregate_iteration, compute_all, aggregated, weight_of,
}
use selfevals.Aggregation.Failures.{
  tags, critical_tags, weighted_tags, unless_zero, aggregate-failures,
}

abbrev pub floats : Floats ℕ
floats = record {
  zero = 0;
  half = 1;
  one = 2;
  add = λ a b. a + b;
  mul = λ a b. a * b;
  div = λ a b. a / b;
  is_zero = λ a. a == 0;
  of_nat = λ n. n;
}

abbrev pub ordering : Ordering ℕ
ordering = record {
  positive = λ a. ltb 0 a;
  sub = λ a b. a - b;
  trunc = λ a. a;
  le = leb;
  q50 = 0;
  q95 = 1;
  q99 = 1;
}

abbrev leaf_node : String → BreakdownNode ℕ
leaf_node key = BreakdownNode.node key (some GradeLabel.fail) (some 1) 1 "" [] BreakdownNodes.leaf

-- a tree of three nodes, two of one key
abbrev tree : BreakdownNode ℕ
tree = BreakdownNode.node "root" none none 1 "" ("slow" ∷ []) (
    BreakdownNodes.more (leaf_node "cell:cat->dog")
      (BreakdownNodes.more (leaf_node "cell:cat->dog") BreakdownNodes.leaf))

abbrev flaky : CaseOutcome ℕ
flaky = record {
  case_id = "flaky";
  per_repetition_label = GradeLabel.pass ∷ GradeLabel.fail ∷ [];
  per_repetition_score = 2 ∷ 0 ∷ [];
  failure_modes = "slow" ∷ "rude" ∷ "slow" ∷ [];
  cost_usd = 3;
  duration_ms = 10;
  cache_hit_count = 0;
  llm_call_count = 1;
  breakdowns = tree ∷ [];
  per_grader_label = ("judge", GradeLabel.pass ∷ GradeLabel.fail ∷ []) ∷ [];
  failure_weights = ("slow", 5) ∷ [];
  critical_failure_modes = "slow" ∷ [];
}

abbrev late : CaseOutcome ℕ
late = record flaky {
  case_id = "late";
  per_repetition_label = GradeLabel.fail ∷ GradeLabel.pass ∷ [];
  critical_failure_modes = [];
}

abbrev pub outcomes : List (CaseOutcome ℕ)
outcomes = flaky ∷ late ∷ []

pass_hat-Ordered_example :
    Ordered
      (compute_metric (Metric.pass_hat 2) outcomes (some "judge"))
      (compute_metric (Metric.pass_at 2) outcomes (some "judge"))
pass_hat-Ordered_example = pass_hat-Ordered 2 outcomes (some "judge") (omega arith)

abbrev trace : Trace ℕ
trace = record { total_cost_usd = 1; total_duration_ms = 7; spans = Span.llm_call true ∷ [] }

abbrev crashed : RepetitionResult ℕ
crashed = record { trace = trace; error = some "timeout" }

abbrev case : EvalCase
case = record { id = "crash"; failure_weights = []; critical_failure_modes = [] }

abbrev grade : GradeLabel → GradeResult ℕ
grade l = record {
  grader = "judge";
  label = l;
  reason = "";
  score = none;
  confidence = none;
  failure_modes = [];
  breakdown = none;
}

pass_at_one-outcome_for_example :
    (errored (outcome_for floats case (crashed ∷ []) ((grade GradeLabel.pass ∷ []) ∷ [])) ≡ true)
    × (compute_metric
          (Metric.pass_at 1)
          (outcome_for floats case (crashed ∷ []) ((grade GradeLabel.pass ∷ []) ∷ []) ∷ outcomes)
          none
        ≡ compute_metric (Metric.pass_at 1) outcomes none)
pass_at_one-outcome_for_example =
    pass_at_one-outcome_for floats case crashed [] (grade GradeLabel.pass ∷ []) [] outcomes refl

-- the first repetition has a passing and a partial verdict, the second raised
abbrev verdicts : List (List (GradeResult ℕ))
verdicts =
    (grade GradeLabel.pass ∷ grade GradeLabel.partial ∷ []) ∷ (grade GradeLabel.pass ∷ []) ∷ []

abbrev second_crashed : CaseOutcome ℕ
second_crashed = outcome_for floats case (record crashed { error = none } ∷ crashed ∷ []) verdicts

per_repetition_label-worst_example :
    get_elem? second_crashed.per_repetition_label 0
    ≡ label_at false (some (grade GradeLabel.pass ∷ grade GradeLabel.partial ∷ []))
per_repetition_label-worst_example =
    per_repetition_label-worst floats case (record crashed { error = none } ∷ crashed ∷ []) verdicts
      0

counted-rollup_funnel_example : counted_all (rollup_funnel floats outcomes) ≡ size_outcomes outcomes
counted-rollup_funnel_example = counted-rollup_funnel floats outcomes

abbrev pairs : List Pair
pairs = ("cat", "cat") ∷ ("cat", "dog") ∷ ("dog", "cat") ∷ []

report-IsF1_example :
    All
      (λ (l, f). IsF1 (hits pairs l) (predicted pairs l) (expected pairs l) f)
      (confusion_from_pairs str_le pairs).per_label_f1
report-IsF1_example = report-IsF1 str_le pairs

cell_parsed : parse_cell_key "cell:cat->dog" ≡ some ("cat", "dog")
unfolding parse_cell_key
cell_parsed = refl

cell_refused : parse_cell_key "cell:->dog" ≡ none
unfolding parse_cell_key
cell_refused = refl

abbrev aggregate : IterationAggregate ℕ
aggregate =
    aggregated floats ordering outcomes (Metric.pass_at 1) none (record { num = 1; den = 2 }) []

returned : aggregate_iteration floats ordering outcomes (Metric.pass_at 1) [] none ≡ some aggregate
unfolding aggregate_iteration compute_all compute_metric compute_scored compute_worst_of
returned = refl

aggregate-failures_example :
    (lookup "critical_failure_count" aggregate.guardrails ≡ some (critical_tags outcomes))
    × (weight_of aggregate.failure_mode_counts "slow" ≡ tags "slow" outcomes)
    × (lookup "weighted_failure_total" aggregate.guardrails
        ≡ unless_zero floats ordering (weighted_tags outcomes) (weighted_tags outcomes))
    × (lookup "weighted_failure_per_case" aggregate.guardrails
        ≡ unless_zero floats ordering (weighted_tags outcomes) (weighted_tags outcomes / 2))
aggregate-failures_example =
    aggregate-failures floats ordering flaky (late ∷ []) (Metric.pass_at 1) [] none aggregate "slow"
      returned

critical : critical_tags outcomes ≡ 2
critical = refl
