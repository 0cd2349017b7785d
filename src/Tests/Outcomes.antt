-- ===== src/Tests/Outcomes.antt =====
-- Rows of outcomes at concrete values: two outcomes that carry breakdown trees, and labels that are
-- none.
use selfevals.Prelude.{◌≡◌, refl, [], ◌∷◌, map, some, none}
use selfevals.Aggregation.Metrics.{Metric}
use selfevals.Aggregation.Iteration.{aggregate_iteration}
use selfevals.Outcomes.{
  case_outcome_to_fields, outcomes_from, aggregate_iteration_from_storage, parse_labels,
}
use selfevals.Outcomes.Lossless.{aggregate-from_storage}
use selfevals.Tests.Aggregation.{floats, ordering, outcomes}

aggregate-from_storage_example :
    (outcomes_from floats (map case_outcome_to_fields outcomes) ≡ some outcomes)
    × (aggregate_iteration_from_storage floats ordering
          (map case_outcome_to_fields outcomes)
          (Metric.pass_at 1)
          (Metric.pass_hat 2 ∷ [])
          (some "judge")
        ≡ aggregate_iteration floats ordering outcomes
            (Metric.pass_at 1)
            (Metric.pass_hat 2 ∷ [])
            (some "judge"))
aggregate-from_storage_example =
    aggregate-from_storage floats ordering outcomes (Metric.pass_at 1) (Metric.pass_hat 2 ∷ [])
      (some "judge")

label_refused : parse_labels ("pass" ∷ "passed" ∷ []) ≡ none
unfolding parse_labels
label_refused = refl
