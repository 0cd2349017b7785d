-- ===== src/Outcomes/Lossless.antt =====
-- The row of an outcome loses nothing (optimization/scenario_outcomes.py).
use selfevals.Prelude.{String, ◌≡◌, refl, Option, none, some, List, [], ◌∷◌, map}
use selfevals.Graders.{GradeLabel, BreakdownNode, BreakdownNodes, Floats}
use selfevals.Aggregation.{CaseOutcome, Dict}
use selfevals.Aggregation.Metrics.{Metric}
use selfevals.Aggregation.Funnel.{label_value}
use selfevals.Aggregation.Iteration.{Ordering, aggregate_iteration}
use selfevals.Outcomes.{
  label_text, parse_label, parse_optional, parse_labels, parse_graders, to_dict, to_dicts,
  from_dict, from_dicts, from_all, case_outcome_to_fields, case_outcome_from_fields, outcomes_from,
  aggregate_iteration_from_storage,
}

parse-label_value : (l : GradeLabel) → parse_label (label_value l) ≡ some l
unfolding parse_label
parse-label_value GradeLabel.pass = refl
parse-label_value GradeLabel.fail = refl
parse-label_value GradeLabel.partial = refl
parse-label_value GradeLabel.error = refl
parse-label_value GradeLabel.skipped = refl

parse-label_text : (l : Option GradeLabel) → parse_optional (label_text l) ≡ some l
unfolding parse_optional
parse-label_text none = refl
parse-label_text (some l) = rw (parse-label_value l) refl

parse_labels-map : (ls : List GradeLabel) → parse_labels (map label_value ls) ≡ some ls
unfolding parse_labels
parse_labels-map [] = refl
parse_labels-map (l ∷ ls) = rw (parse-label_value l) (rw (parse_labels-map ls) refl)

parse_graders-map :
    (items : Dict (List GradeLabel))
    → parse_graders (map (λ (grader, labels). (grader, map label_value labels)) items) ≡ some items
unfolding parse_graders
parse_graders-map [] = refl
parse_graders-map ((g, ls) ∷ items) = rw (parse_labels-map ls) (rw (parse_graders-map items) refl)

module _ {F : Type 0} (fl : Floats F) where
  mutual
    unfolding from_dict to_dict

    from_dict-to_dict : (b : BreakdownNode F) → from_dict fl (to_dict b) ≡ some b
    from_dict-to_dict (BreakdownNode.node key label score weight reason modes children) =
        rw (parse-label_text label) (rw (from_dicts-to_dicts children) refl)

    from_dicts-to_dicts : (bs : BreakdownNodes F) → from_dicts fl (to_dicts bs) ≡ some bs
    from_dicts-to_dicts BreakdownNodes.leaf = refl
    from_dicts-to_dicts (BreakdownNodes.more b bs) =
        rw (from_dict-to_dict b) (rw (from_dicts-to_dicts bs) refl)

  from_all-map : (bs : List (BreakdownNode F)) → from_all fl (map to_dict bs) ≡ some bs
  unfolding from_all
  from_all-map [] = refl
  from_all-map (b ∷ bs) = rw (from_dict-to_dict b) (rw (from_all-map bs) refl)

  from-to_fields :
      (o : CaseOutcome F) → case_outcome_from_fields fl (case_outcome_to_fields o) ≡ some o
  unfolding case_outcome_from_fields case_outcome_to_fields
  from-to_fields o =
      rw (parse_labels-map o.per_repetition_label)
        (rw (parse_graders-map o.per_grader_label) (rw (from_all-map o.breakdowns) refl))

  outcomes_from-map :
      (os : List (CaseOutcome F)) → outcomes_from fl (map case_outcome_to_fields os) ≡ some os
  unfolding outcomes_from
  outcomes_from-map [] = refl
  outcomes_from-map (o ∷ os) = rw (from-to_fields o) (rw (outcomes_from-map os) refl)

  -- The rows of outcomes, read back, are the outcomes, with every label, grader, breakdown tree and
  -- count; so the metrics that the coordinator aggregates from the rows that workers wrote are those
  -- of the outcomes themselves, whatever the metrics are, an unknown one that raises included.
  pub aggregate-from_storage :
      (or : Ordering F) (os : List (CaseOutcome F)) (metric : Metric) (reliability : List Metric)
      (grader : Option String)
      → (outcomes_from fl (map case_outcome_to_fields os) ≡ some os)
        × (aggregate_iteration_from_storage fl or
              (map case_outcome_to_fields os)
              metric
              reliability
              grader
            ≡ aggregate_iteration fl or os metric reliability grader)
  unfolding aggregate_iteration_from_storage
  aggregate-from_storage or os metric reliability grader =
      (outcomes_from-map os, rw (outcomes_from-map os) refl)
