-- ===== src/Aggregation/Metrics.antt =====
-- optimization/aggregator.py, `_compute_metric` and `_compute_pass_metric_for_grader`. A quotient of
-- two counts is kept as its numerator and denominator; the names `pass@k` and `pass^k` are
-- constructors with the number that the code parses out of them.
use selfevals.Prelude.{
  ℕ, ◌+◌, ◌*◌, ◌≤◌, ◌==◌, String, Bool, true, false, ◌&&◌, not, Option, none, some, List, [], ◌∷◌,
  leb, if◌then◌else◌, length, take, drop, any, all, select, count,
}
use selfevals.Graders.{GradeLabel, is_pass}
use selfevals.Aggregation.{CaseOutcome, Dict, lookup, update, errored, passed, first_is}

pub data Metric : Type 0 where
  pass_at pass_hat : (k : ℕ) → Metric
  consistency_rate stability_score recovery_rate : Metric
  other_metric : String → Metric

pub record Ratio : Type 0 where
  pub num : ℕ
  pub den : ℕ

-- the order of two quotients
abbrev pub AtMost : Ratio → Ratio → Type 0
AtMost r s = r.num * s.den ≤ s.num * r.den

abbrev pub nothing : Ratio
nothing = record { num = 0; den = 1 }

-- `GradeLabel.PASS in labels[:k]`
unfoldable pub some_pass : ℕ → List GradeLabel → Bool
some_pass k labels = any is_pass (take k labels)

-- k labels, and all of them PASS
unfoldable pub all_pass : ℕ → List GradeLabel → Bool
all_pass k labels = leb k (length (take k labels)) && all is_pass (take k labels)

-- the mean of the quotients `passes / repetitions`, 0.0 where there is no repetition
unfoldable pub add_rate : List GradeLabel → Ratio → Ratio
add_rate labels r = if length labels == 0 then r else record {
  num = count is_pass labels * r.den + r.num * length labels;
  den = length labels * r.den;
}

-- x / n, 0.0 when n is zero
abbrev pub quotient : ℕ → ℕ → Ratio
quotient x n = if n == 0 then nothing else record { num = x; den = n }

unfoldable pub compute_pass_metric : Metric → List (List GradeLabel) → Option Ratio
unfolding some_pass all_pass
compute_pass_metric (Metric.pass_at k) ws =
    if k == 1
    then some (quotient (count (first_is is_pass) ws) (length ws))
    else some (quotient (count (some_pass k) ws) (length ws))
compute_pass_metric (Metric.pass_hat k) ws = some (quotient (count (all_pass k) ws) (length ws))
compute_pass_metric _ ws = none

abbrev pub is_pass_metric : Metric → Bool
is_pass_metric (Metric.pass_at k) = true
is_pass_metric (Metric.pass_hat k) = true
is_pass_metric _ = false

-- `_per_grader_pass_rate`: sums and counts of `pass_at_1_for_grader`
abbrev pub add_to : ℕ → Option Ratio → Ratio
add_to value none = record { num = value; den = 1 }
add_to value (some r) = record { num = r.num + value; den = r.den + 1 }

unfoldable pub add_graders : Dict (List GradeLabel) → Dict Ratio → Dict Ratio
add_graders [] rates = rates
add_graders ((grader, []) ∷ items) rates = add_graders items rates
add_graders ((grader, l ∷ ls) ∷ items) rates =
    add_graders items (update grader (add_to (if is_pass l then 1 else 0)) rates)

module _ {F : Type 0} where
  unfoldable pub sum_rates : List (CaseOutcome F) → Ratio
  unfolding add_rate
  sum_rates [] = nothing
  sum_rates (o ∷ os) = add_rate o.per_repetition_label (sum_rates os)

  unfoldable pub mean_rate : List (CaseOutcome F) → Ratio
  unfolding sum_rates
  mean_rate outcomes = record {
    num = (sum_rates outcomes).num;
    den = (sum_rates outcomes).den * length outcomes;
  }

  -- a case whose first repetition did not pass
  unfoldable pub failed_first : CaseOutcome F → Bool
  failed_first o = first_is (λ l. not (is_pass l)) o.per_repetition_label

  unfoldable pub recovered : CaseOutcome F → Bool
  unfolding failed_first
  recovered o = failed_first o && any is_pass (drop 1 o.per_repetition_label)

  unfoldable pub pass_at_one : List (CaseOutcome F) → Ratio
  unfolding errored passed
  pass_at_one outcomes =
      let scored = select (λ o. not (errored o)) outcomes in
      quotient (count passed scored) (length scored)

  -- the label lists of a grader, where it has any
  unfoldable pub windows : String → List (CaseOutcome F) → List (List GradeLabel)
  windows grader [] = []
  windows grader (o ∷ os) =
      let rest = windows grader os in
      elim (lookup grader o.per_grader_label) [
        | none ↦ rest
        | some [] ↦ rest
        | some (l ∷ ls) ↦ (l ∷ ls) ∷ rest
      ]

  -- without a primary grader: the labels are the worst of each repetition; an unknown metric raises
  unfoldable pub compute_worst_of : Metric → List (CaseOutcome F) → Option Ratio
  unfolding pass_at_one some_pass all_pass mean_rate recovered failed_first
  compute_worst_of (Metric.pass_at k) outcomes =
      if k == 1
      then some (pass_at_one outcomes)
      else some (
          quotient (count (λ (o : CaseOutcome F). some_pass k o.per_repetition_label) outcomes)
            (length outcomes))
  compute_worst_of (Metric.pass_hat k) outcomes = some (
      quotient (count (λ (o : CaseOutcome F). all_pass k o.per_repetition_label) outcomes)
        (length outcomes))
  compute_worst_of Metric.consistency_rate outcomes = some (mean_rate outcomes)
  compute_worst_of Metric.stability_score outcomes = some (mean_rate outcomes)
  compute_worst_of Metric.recovery_rate outcomes =
      some (quotient (count recovered outcomes) (count failed_first outcomes))
  compute_worst_of (Metric.other_metric name) outcomes = none

  -- the choice by `primary_grader`
  unfoldable pub compute_scored : Metric → List (CaseOutcome F) → Option String → Option Ratio
  unfolding compute_worst_of compute_pass_metric windows
  compute_scored metric outcomes none = compute_worst_of metric outcomes
  compute_scored metric outcomes (some grader) =
      if is_pass_metric metric
      then compute_pass_metric metric (windows grader outcomes)
      else compute_worst_of metric outcomes

  unfoldable pub compute_metric : Metric → List (CaseOutcome F) → Option String → Option Ratio
  unfolding compute_scored
  compute_metric metric [] grader = some nothing
  compute_metric metric (o ∷ os) grader = compute_scored metric (o ∷ os) grader

  unfoldable pub add_outcomes : List (CaseOutcome F) → Dict Ratio → Dict Ratio
  unfolding add_graders
  add_outcomes [] rates = rates
  add_outcomes (o ∷ os) rates = add_outcomes os (add_graders o.per_grader_label rates)

  unfoldable pub per_grader_pass_rate : List (CaseOutcome F) → Dict Ratio
  unfolding add_outcomes
  per_grader_pass_rate outcomes = add_outcomes outcomes []
