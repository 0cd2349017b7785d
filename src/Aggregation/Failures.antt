-- ===== src/Aggregation/Failures.antt =====
-- The failure counts that an iteration publishes, from the tags of its cases
-- (optimization/aggregator.py, `aggregate_iteration`).
use selfevals.Prelude.{
  ℕ, ◌+◌, ◌==◌, String, str_eq, ◌≡◌, refl, ◌∙◌, ap, sym, false, Option, none, some, if◌then◌else◌,
  List, [], ◌∷◌, arith, Bool-cases, inl, inr, any, count, sum, map, length,
}
use selfevals.Graders.{Floats}
use selfevals.Aggregation.{CaseOutcome, Dict, lookup, sum_floats}
use selfevals.Aggregation.Metrics.{Metric, compute_metric}
use selfevals.Aggregation.Funnel.{count_in}
use selfevals.Aggregation.Counters.{weigh-count_in, count_critical-count_in, weight_of-count_in}
use selfevals.Aggregation.Iteration.{
  Ordering, IterationAggregate, weight_of, weigh, count_critical, failure_counter,
  weighted_failure_total, critical_failure_count, cost_guardrails, latency_guardrails,
  failure_guardrails, guardrails_of, compute_all, aggregated, aggregate_iteration, >>=-eq-some,
}

some-inj : {A : Type 0} {a b : A} → some a ≡ some b → a ≡ b
some-inj e = cc

module _ {F : Type 0} where
  -- the failures of an iteration, tag by tag
  abbrev pub tags : String → List (CaseOutcome F) → ℕ
  tags mode [] = 0
  tags mode (o ∷ os) = count (str_eq mode) o.failure_modes + tags mode os

  abbrev pub critical_tags : List (CaseOutcome F) → ℕ
  critical_tags [] = 0
  critical_tags (o ∷ os) =
      count (λ m. any (λ c. str_eq c m) o.critical_failure_modes) o.failure_modes + critical_tags os

  abbrev pub weighted_tags : List (CaseOutcome F) → ℕ
  weighted_tags [] = 0
  weighted_tags (o ∷ os) =
      sum (map (weight_of o.failure_weights) o.failure_modes) + weighted_tags os

  failure_counter-tags :
      (mode : String) (os : List (CaseOutcome F)) (counts : Dict ℕ)
      → weight_of (failure_counter os counts) mode ≡ weight_of counts mode + tags mode os
  unfolding failure_counter
  failure_counter-tags mode [] counts = omega arith
  failure_counter-tags mode (o ∷ os) counts = omega (
    arith,
    weight_of-count_in mode o.failure_modes counts,
    failure_counter-tags mode os (count_in o.failure_modes counts),
  )

  critical_lem : (os : List (CaseOutcome F)) → critical_failure_count os ≡ critical_tags os
  unfolding critical_failure_count count_critical
  critical_lem [] = refl
  critical_lem (o ∷ os) =
      omega (
        arith,
        count_critical-count_in o.critical_failure_modes o.failure_modes [],
        critical_lem os,
      )

  weighted_lem : (os : List (CaseOutcome F)) → weighted_failure_total os ≡ weighted_tags os
  unfolding weighted_failure_total weigh
  weighted_lem [] = refl
  weighted_lem (o ∷ os) =
      omega (arith, weigh-count_in o.failure_weights o.failure_modes [], weighted_lem os)

  module _ (fl : Floats F) (or : Ordering F) where
    -- what stands before the failure guardrails does not hide them
    lookup-cost :
        (key : String) (total : F) (n : ℕ) (rest : Dict F)
        → str_eq "cost_usd_per_case" key ≡ false
        → lookup key (cost_guardrails fl or total n rest) ≡ lookup key rest
    unfolding cost_guardrails
    lookup-cost key total n rest h = elim (Bool-cases (or.positive total)) [
      | inl e ↦ rw (e, h) refl
      | inr e ↦ rw e refl
    ]

    lookup-latency :
        (key : String) (os : List (CaseOutcome F)) (rest : Dict F)
        → str_eq "latency_ms_per_case_avg" key ≡ false
        → str_eq "latency_ms_p50" key ≡ false
        → str_eq "latency_ms_p95" key ≡ false
        → str_eq "latency_ms_p99" key ≡ false
        → lookup key (latency_guardrails fl or os rest) ≡ lookup key rest
    unfolding latency_guardrails
    lookup-latency key os rest h₁ h₂ h₃ h₄ =
        elim (Bool-cases (sum (map (λ o. o.duration_ms) os) == 0)) [
          | inl e ↦ rw e refl
          | inr e ↦ rw (e, h₁, h₂, h₃, h₄) refl
        ]

    lookup-critical :
        (os : List (CaseOutcome F))
        → lookup "critical_failure_count" (guardrails_of fl or os)
          ≡ some (fl.of_nat (critical_tags os))
    unfolding guardrails_of failure_guardrails
    lookup-critical os =
        lookup-cost "critical_failure_count" (sum_floats fl (map (λ o. o.cost_usd) os)) (length os)
          _ refl
        ∙ lookup-latency "critical_failure_count" os _ refl refl refl refl
        ∙ last
        ∙ ap (λ n. some (fl.of_nat n)) (critical_lem os)
      where
        last :
            lookup "critical_failure_count" (failure_guardrails fl or os)
            ≡ some (fl.of_nat (critical_failure_count os))
        last = elim (Bool-cases (weighted_failure_total os == 0)) [
          | inl e ↦ rw e refl
          | inr e ↦ rw e refl
        ]

    -- a guardrail that is published only when there are weighted failures
    abbrev pub unless_zero : ℕ → F → Option F
    unless_zero n published = if n == 0 then none else some published

    lookup-weighted :
        (os : List (CaseOutcome F))
        → lookup "weighted_failure_total" (guardrails_of fl or os)
          ≡ unless_zero (weighted_tags os) (fl.of_nat (weighted_tags os))
    unfolding guardrails_of failure_guardrails
    lookup-weighted os =
        lookup-cost "weighted_failure_total" (sum_floats fl (map (λ o. o.cost_usd) os)) (length os)
          _ refl
        ∙ lookup-latency "weighted_failure_total" os _ refl refl refl refl
        ∙ last
        ∙ ap (λ n. unless_zero n (fl.of_nat n)) (weighted_lem os)
      where
        last :
            lookup "weighted_failure_total" (failure_guardrails fl or os)
            ≡ unless_zero (weighted_failure_total os) (fl.of_nat (weighted_failure_total os))
        last = elim (Bool-cases (weighted_failure_total os == 0)) [
          | inl e ↦ rw e refl
          | inr e ↦ rw e refl
        ]

    lookup-per_case :
        (os : List (CaseOutcome F))
        → lookup "weighted_failure_per_case" (guardrails_of fl or os)
          ≡ unless_zero
              (weighted_tags os)
              (fl.div (fl.of_nat (weighted_tags os)) (fl.of_nat (length os)))
    unfolding guardrails_of failure_guardrails
    lookup-per_case os =
        lookup-cost "weighted_failure_per_case" (sum_floats fl (map (λ o. o.cost_usd) os))
          (length os) _ refl
        ∙ lookup-latency "weighted_failure_per_case" os _ refl refl refl refl
        ∙ last
        ∙ ap (λ n. unless_zero n (fl.div (fl.of_nat n) (fl.of_nat (length os)))) (weighted_lem os)
      where
        last :
            lookup "weighted_failure_per_case" (failure_guardrails fl or os)
            ≡ unless_zero
                (weighted_failure_total os)
                (fl.div (fl.of_nat (weighted_failure_total os)) (fl.of_nat (length os)))
        last = elim (Bool-cases (weighted_failure_total os == 0)) [
          | inl e ↦ rw e refl
          | inr e ↦ rw e refl
        ]

    -- The failures that an aggregate publishes are counted tag by tag. Whenever `aggregate_iteration`
    -- of at least one case returns, the guardrail `critical_failure_count` is present, also when it is
    -- zero, and is the number of tags that are critical for their own case; the count of a mode is the
    -- number of tags of that mode; and the guardrail `weighted_failure_total` is the sum of each tag's
    -- weight in its own case, and `weighted_failure_per_case` that sum divided by the number of cases,
    -- both absent when the sum is zero.
    pub aggregate-failures :
        (o : CaseOutcome F) (os : List (CaseOutcome F)) (metric : Metric)
        (reliability : List Metric) (grader : Option String) (a : IterationAggregate F)
        (mode : String)
        → aggregate_iteration fl or (o ∷ os) metric reliability grader ≡ some a
        → (lookup "critical_failure_count" a.guardrails ≡ some (fl.of_nat (critical_tags (o ∷ os))))
          × (weight_of a.failure_mode_counts mode ≡ tags mode (o ∷ os))
          × (lookup "weighted_failure_total" a.guardrails
              ≡ unless_zero (weighted_tags (o ∷ os)) (fl.of_nat (weighted_tags (o ∷ os))))
          × (lookup "weighted_failure_per_case" a.guardrails
              ≡ unless_zero
                  (weighted_tags (o ∷ os))
                  (fl.div (fl.of_nat (weighted_tags (o ∷ os))) (fl.of_nat (length (o ∷ os)))))
    unfolding aggregate_iteration aggregated
    aggregate-failures o os metric reliability grader a mode e =
        let (v, _, e₁) = >>=-eq-some (compute_metric metric (o ∷ os) grader) _ e in
        let (vs, _, e₂) = >>=-eq-some (compute_all fl or reliability (o ∷ os)) _ e₁ in
        let same : aggregated fl or (o ∷ os) metric grader v vs ≡ a = some-inj e₂ in
        (
          sym (ap (λ b. lookup "critical_failure_count" b.guardrails) same)
              ∙ lookup-critical (o ∷ os),
          sym (ap (λ b. weight_of b.failure_mode_counts mode) same)
              ∙ omega (arith, failure_counter-tags mode (o ∷ os) []),
          sym (ap (λ b. lookup "weighted_failure_total" b.guardrails) same)
              ∙ lookup-weighted (o ∷ os),
          sym (ap (λ b. lookup "weighted_failure_per_case" b.guardrails) same)
              ∙ lookup-per_case (o ∷ os),
        )
