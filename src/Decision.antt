-- ===== src/Decision.antt =====
-- decision/matrix.py: what is decided of an iteration, from its metrics, the best iteration before it
-- and the experiment's targets. The numbers are a type `F` with their comparisons and differences.
use selfevals.Prelude.{
  ℕ, String, Bool, false, ◌||◌, not, Option, none, some, List, [], ◌∷◌, if◌then◌else◌,
}
use selfevals.Aggregation.{Dict, lookup}

pub record Numbers (F : Type 0) : Type 0 where
  pub zero : F
  pub lt : F → F → Bool
  pub same : F → F → Bool
  pub sub : F → F → F

-- schemas/enums.py, `ComparisonOp`
pub data ComparisonOp : Type 0 where
  gt ge lt le eq : ComparisonOp

-- schemas/experiment.py
pub record MetricTarget (F : Type 0) : Type 0 where
  pub name : String
  pub operator : ComparisonOp
  pub value : F

pub data DecisionOutcome : Type 0 where
  keep_candidate reject revert feature_flag investigate require_tradeoff_review
        spawn_subexperiment :
      DecisionOutcome

pub data RegressionPolicy : Type 0 where
  reject_regression investigate_regression spawn_on_regression : RegressionPolicy

pub data GuardrailPolicy : Type 0 where
  reject_guardrail review_guardrail : GuardrailPolicy

pub record Contract (F : Type 0) : Type 0 where
  pub primary : MetricTarget F
  pub guardrails : List (MetricTarget F)
  pub if_regression_fails : RegressionPolicy
  pub if_guardrail_fails : GuardrailPolicy

-- what is read of an iteration's aggregate
pub record Measured (F : Type 0) : Type 0 where
  pub primary_value : F
  pub guardrails : Dict F
  pub reliability : Dict F
  pub failure_mode_counts : Dict ℕ

pub record DecisionEvaluation (F : Type 0) : Type 0 where
  pub outcome : DecisionOutcome
  pub violated_guardrails : List String
  pub primary_delta : Option F

unfoldable pub outcome_for_regression : RegressionPolicy → DecisionOutcome
outcome_for_regression RegressionPolicy.reject_regression = DecisionOutcome.reject
outcome_for_regression RegressionPolicy.investigate_regression = DecisionOutcome.investigate
outcome_for_regression RegressionPolicy.spawn_on_regression = DecisionOutcome.spawn_subexperiment

unfoldable pub outcome_for_guardrail : GuardrailPolicy → DecisionOutcome
outcome_for_guardrail GuardrailPolicy.reject_guardrail = DecisionOutcome.reject
outcome_for_guardrail GuardrailPolicy.review_guardrail = DecisionOutcome.require_tradeoff_review

module _ {F : Type 0} (num : Numbers F) where
  unfoldable pub check_operator : F → ComparisonOp → F → Bool
  check_operator value ComparisonOp.gt threshold = num.lt threshold value
  check_operator value ComparisonOp.ge threshold =
      num.lt threshold value || num.same value threshold
  check_operator value ComparisonOp.lt threshold = num.lt value threshold
  check_operator value ComparisonOp.le threshold =
      num.lt value threshold || num.same value threshold
  check_operator value ComparisonOp.eq threshold = num.same value threshold

  -- the guardrails' value, or the reliability's
  unfoldable pub observed : Measured F → String → Option F
  observed m name = elim (lookup name m.guardrails) [
    | some v ↦ some v
    | none ↦ lookup name m.reliability
  ]

  -- a guardrail with no value passes
  unfoldable pub fails : MetricTarget F → Option F → Bool
  unfolding check_operator
  fails g none = false
  fails g (some value) = not (check_operator value g.operator g.value)

  unfoldable pub guardrails_violated : Measured F → List (MetricTarget F) → List String
  unfolding fails observed
  guardrails_violated m [] = []
  guardrails_violated m (g ∷ gs) =
      let rest = guardrails_violated m gs in
      if fails g (observed m g.name) then g.name ∷ rest else rest

  unfoldable pub delta : Measured F → Option (Measured F) → Option F
  delta m none = none
  delta m (some baseline) = some (num.sub m.primary_value baseline.primary_value)

  -- no guardrail is violated
  unfoldable pub evaluate_primary : Contract F → Measured F → Option F → DecisionEvaluation F
  unfolding check_operator outcome_for_regression
  evaluate_primary c m none = record {
    outcome =
        if check_operator m.primary_value c.primary.operator c.primary.value
        then DecisionOutcome.keep_candidate
        else DecisionOutcome.investigate;
    violated_guardrails = [];
    primary_delta = none;
  }
  evaluate_primary c m (some d) = record {
    outcome =
        if num.lt num.zero d
        then DecisionOutcome.keep_candidate
        else if check_operator m.primary_value c.primary.operator c.primary.value
        then DecisionOutcome.reject
        else outcome_for_regression c.if_regression_fails;
    violated_guardrails = [];
    primary_delta = some d;
  }

  unfoldable pub evaluate_with :
      Contract F → Measured F → Option (Measured F) → List String → DecisionEvaluation F
  unfolding evaluate_primary delta outcome_for_guardrail
  evaluate_with c m baseline [] = evaluate_primary c m (delta m baseline)
  evaluate_with c m baseline (v ∷ vs) = record {
    outcome = outcome_for_guardrail c.if_guardrail_fails;
    violated_guardrails = v ∷ vs;
    primary_delta = delta m baseline;
  }

  unfoldable pub evaluate_iteration :
      Contract F → Measured F → Option (Measured F) → DecisionEvaluation F
  unfolding evaluate_with guardrails_violated
  evaluate_iteration c m baseline = evaluate_with c m baseline (guardrails_violated m c.guardrails)
