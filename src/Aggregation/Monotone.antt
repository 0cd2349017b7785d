-- ===== src/Aggregation/Monotone.antt =====
-- How the pass metrics change with the number of repetitions, and what a case that errored does to
-- them (optimization/aggregator.py, `_compute_metric`).
use selfevals.Prelude.{◌≡◌, refl, true, none, List, [], ◌∷◌, is_some}
use selfevals.Graders.{GradeResult, Floats}
use selfevals.Aggregation.{
  CaseOutcome, EvalCase, RepetitionResult, errored, outcome_for, rep_labels,
}
use selfevals.Aggregation.Metrics.{
  Metric, pass_at_one, compute_worst_of, compute_scored, compute_metric,
}

module _ {F : Type 0} where
  at_one-errored :
      (o : CaseOutcome F) (os : List (CaseOutcome F))
      → errored o ≡ true
      → compute_metric (Metric.pass_at 1) (o ∷ os) none ≡ compute_metric (Metric.pass_at 1) os none
  unfolding compute_metric compute_scored compute_worst_of pass_at_one
  at_one-errored o [] e = rw e refl
  at_one-errored o (p ∷ ps) e = rw e refl

  -- A case whose first repetition raised errored, whatever its graders said of that repetition; and
  -- where no primary grader is set it has no part in pass@1: the metric is that of the other cases.
  pub pass_at_one-outcome_for :
      (fl : Floats F) (case : EvalCase) (rep : RepetitionResult F)
      (reps : List (RepetitionResult F)) (results : List (GradeResult F))
      (grades : List (List (GradeResult F))) (os : List (CaseOutcome F))
      → is_some rep.error ≡ true
      → (errored (outcome_for fl case (rep ∷ reps) (results ∷ grades)) ≡ true)
        × (compute_metric
              (Metric.pass_at 1)
              (outcome_for fl case (rep ∷ reps) (results ∷ grades) ∷ os)
              none
            ≡ compute_metric (Metric.pass_at 1) os none)
  unfolding outcome_for rep_labels errored
  pass_at_one-outcome_for fl case rep reps results grades os raised =
      let e : errored (outcome_for fl case (rep ∷ reps) (results ∷ grades)) ≡ true =
        rw raised refl in
      (e, at_one-errored (outcome_for fl case (rep ∷ reps) (results ∷ grades)) os e)
