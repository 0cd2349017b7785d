-- ===== src/Aggregation/Iteration.antt =====
-- optimization/aggregator.py, `aggregate_iteration`: the outcomes of an iteration's cases in one
-- record.
use selfevals.Prelude.{
  ℕ, ◌+◌, ◌*◌, ◌≡◌, refl, ◌==◌, String, str_eq, Bool, not, Option, none, some, List, [], ◌∷◌, map,
  sum, count, length, any, sort_with, get_elem?, ltb, if◌then◌else◌,
}
use selfevals.Graders.{Floats}
use selfevals.Aggregation.{CaseOutcome, Dict, lookup, errored, passed, sum_floats}
use selfevals.Aggregation.Metrics.{
  Metric, Ratio, nothing, quotient, compute_metric, per_grader_pass_rate,
}
use selfevals.Aggregation.Funnel.{FunnelNodes, count_in, rollup_funnel}
use selfevals.Aggregation.Confusion.{ConfusionReport}
use selfevals.Aggregation.Cells.{rollup_confusion}

-- what raises is `none`
infixl 5 ◌>>=◌
abbrev pub ◌>>=◌ : {A B : Type 0} → Option A → (A → Option B) → Option B
none >>= rest = none
some value >>= rest = rest value

pub >>=-eq-some :
    {A B : Type 0} (first : Option A) (rest : A → Option B) {last : B}
    → (first >>= rest) ≡ some last
    → (value : A) × (first ≡ some value) × (rest value ≡ some last)
>>=-eq-some none rest h = cc
>>=-eq-some (some value) rest h = (value, refl, h)

-- per_case_counts: every mode of the case with its number, weighted by the case's own weight
abbrev pub weight_of : Dict ℕ → String → ℕ
weight_of weights mode = elim (lookup mode weights) [ none ↦ 0 | some w ↦ w ]

unfoldable pub weigh : Dict ℕ → Dict ℕ → ℕ
weigh weights [] = 0
weigh weights ((mode, n) ∷ counts) = n * weight_of weights mode + weigh weights counts

unfoldable pub count_critical : List String → Dict ℕ → ℕ
count_critical critical [] = 0
count_critical critical ((mode, n) ∷ counts) =
    let rest = count_critical critical counts in
    if any (λ c. str_eq c mode) critical then n + rest else rest

module _ {F : Type 0} where
  -- `failure_counter`
  unfoldable pub failure_counter : List (CaseOutcome F) → Dict ℕ → Dict ℕ
  unfolding count_in
  failure_counter [] counts = counts
  failure_counter (o ∷ os) counts = failure_counter os (count_in o.failure_modes counts)

  unfoldable pub weighted_failure_total : List (CaseOutcome F) → ℕ
  unfolding weigh count_in
  weighted_failure_total [] = 0
  weighted_failure_total (o ∷ os) =
      weigh o.failure_weights (count_in o.failure_modes []) + weighted_failure_total os

  unfoldable pub critical_failure_count : List (CaseOutcome F) → ℕ
  unfolding count_critical count_in
  critical_failure_count [] = 0
  critical_failure_count (o ∷ os) =
      count_critical o.critical_failure_modes (count_in o.failure_modes [])
      + critical_failure_count os

pub record IterationAggregate (F : Type 0) : Type 0 where
  pub primary_metric : Metric
  pub primary_value : Ratio
  pub guardrails : Dict F
  pub reliability : List (Metric × Ratio)
  pub failure_mode_counts : Dict ℕ
  pub total_cost_usd : F
  pub total_duration_ms : ℕ
  pub cache_hit_count : ℕ
  pub llm_call_count : ℕ
  pub case_count : ℕ
  pub case_outcomes : List (CaseOutcome F)
  pub funnel : FunnelNodes F
  pub per_grader_pass_rate : Dict Ratio
  pub primary_grader : Option String
  pub error_rate : Ratio
  pub confusion : Option ConfusionReport

-- What else the guardrails use of floats.
pub record Ordering (F : Type 0) : Type 0 where
  pub positive : F → Bool
  pub sub : F → F → F
  -- `int`, of a float that is not negative
  pub trunc : F → ℕ
  pub le : F → F → Bool
  -- the literals 0.50, 0.95 and 0.99
  pub q50 : F
  pub q95 : F
  pub q99 : F

module _ {F : Type 0} (fl : Floats F) (or : Ordering F) where
  abbrev pub elem_or : F → Option F → F
  elem_or default none = default
  elem_or default (some x) = x

  abbrev pub at : ℕ → List F → F
  at i xs = elem_or fl.zero (get_elem? xs i)

  -- `_percentile`: linear interpolation between the two nearest ranks
  unfoldable pub percentile : F → List F → F
  percentile q [] = fl.zero
  percentile q (x ∷ []) = x
  percentile q (x ∷ y ∷ ys) =
      let xs = x ∷ y ∷ ys in
      let rank = fl.mul q (fl.of_nat (length ys + 1)) in
      let low = or.trunc rank in
      let frac = or.sub rank (fl.of_nat low) in
      if ltb (low + 1) (length xs)
      then fl.add (at low xs) (fl.mul frac (or.sub (at (low + 1) xs) (at low xs)))
      else at (length ys + 1) xs

  unfoldable pub cost_guardrails : F → ℕ → Dict F → Dict F
  cost_guardrails total n rest =
      if or.positive total then ("cost_usd_per_case", fl.div total (fl.of_nat n)) ∷ rest else rest

  unfoldable pub latency_guardrails : List (CaseOutcome F) → Dict F → Dict F
  unfolding percentile
  latency_guardrails outcomes rest =
      let total = sum (map (λ o. o.duration_ms) outcomes) in
      let latencies = sort_with or.le (map (λ o. fl.of_nat o.duration_ms) outcomes) in
      if total == 0
      then rest
      else ("latency_ms_per_case_avg", fl.div (fl.of_nat total) (fl.of_nat (length outcomes)))
        ∷ ("latency_ms_p50", percentile or.q50 latencies)
        ∷ ("latency_ms_p95", percentile or.q95 latencies)
        ∷ ("latency_ms_p99", percentile or.q99 latencies)
        ∷ rest

  unfoldable pub failure_guardrails : List (CaseOutcome F) → Dict F
  unfolding weighted_failure_total critical_failure_count
  failure_guardrails outcomes =
      let critical = ("critical_failure_count", fl.of_nat (critical_failure_count outcomes)) ∷ [] in
      let weighted = weighted_failure_total outcomes in
      if weighted == 0
      then critical
      else ("weighted_failure_total", fl.of_nat weighted)
        ∷ ("weighted_failure_per_case", fl.div (fl.of_nat weighted) (fl.of_nat (length outcomes)))
        ∷ critical

  unfoldable pub guardrails_of : List (CaseOutcome F) → Dict F
  unfolding cost_guardrails latency_guardrails failure_guardrails
  guardrails_of outcomes =
      cost_guardrails (sum_floats fl (map (λ o. o.cost_usd) outcomes)) (length outcomes)
        (latency_guardrails outcomes (failure_guardrails outcomes))

  -- the metrics of a list of names; one that is unknown raises
  unfoldable pub compute_all : List Metric → List (CaseOutcome F) → Option (List (Metric × Ratio))
  unfolding compute_metric
  compute_all [] outcomes = some []
  compute_all (m ∷ ms) outcomes = do
    value ← compute_metric m outcomes none
    values ← compute_all ms outcomes
    some ((m, value) ∷ values)

  unfoldable pub aggregated :
      List (CaseOutcome F)
      → Metric
      → Option String
      → Ratio
      → List (Metric × Ratio)
      → IterationAggregate F
  unfolding errored guardrails_of failure_counter rollup_funnel rollup_confusion
      per_grader_pass_rate
  aggregated outcomes metric grader value reliability = record {
    primary_metric = metric;
    primary_value = value;
    guardrails = guardrails_of outcomes;
    reliability = reliability;
    failure_mode_counts = failure_counter outcomes [];
    total_cost_usd = sum_floats fl (map (λ o. o.cost_usd) outcomes);
    total_duration_ms = sum (map (λ o. o.duration_ms) outcomes);
    cache_hit_count = sum (map (λ o. o.cache_hit_count) outcomes);
    llm_call_count = sum (map (λ o. o.llm_call_count) outcomes);
    case_count = length outcomes;
    case_outcomes = outcomes;
    funnel = rollup_funnel fl outcomes;
    per_grader_pass_rate = per_grader_pass_rate outcomes;
    primary_grader = grader;
    error_rate = quotient (count errored outcomes) (length outcomes);
    confusion = rollup_confusion outcomes;
  }

  unfoldable pub aggregate_iteration :
      List (CaseOutcome F) → Metric → List Metric → Option String → Option (IterationAggregate F)
  unfolding compute_all aggregated compute_metric
  aggregate_iteration [] metric reliability grader = some (record {
    primary_metric = metric;
    primary_value = nothing;
    guardrails = [];
    reliability = [];
    failure_mode_counts = [];
    total_cost_usd = fl.zero;
    total_duration_ms = 0;
    cache_hit_count = 0;
    llm_call_count = 0;
    case_count = 0;
    case_outcomes = [];
    funnel = FunnelNodes.no_funnel;
    per_grader_pass_rate = [];
    primary_grader = grader;
    error_rate = nothing;
    confusion = none;
  })
  aggregate_iteration (o ∷ os) metric reliability grader = do
    value ← compute_metric metric (o ∷ os) grader
    values ← compute_all reliability (o ∷ os)
    some (aggregated (o ∷ os) metric grader value values)

  -- `IterationAggregate.fail_rate`
  unfoldable pub fail_rate : IterationAggregate F → Ratio
  unfolding passed
  fail_rate a = quotient (count (λ o. not (passed o)) a.case_outcomes) (length a.case_outcomes)
