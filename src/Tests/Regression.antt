-- ===== src/Tests/Regression.antt =====
-- The gate at a class that the current run never gets right: its F1 was 9 in the baseline.
use selfevals.Prelude.{
  ℕ, ◌+◌, ◌-◌, ◌/◌, ◌*◌, ◌≡◌, refl, false, ◌&&◌, some, List, [], ◌∷◌, any, All, ltb,
}
use selfevals.Aggregation.Confusion.{Pair, confusion_from_pairs, sum_cells, cell}
use selfevals.Aggregation.Cells.{str_le}
use selfevals.Regression.{
  Deltas, RegressionThresholds, BaselineMetrics, RegressionFinding, from_confusion,
  evaluate_regression,
}
use selfevals.Regression.Gate.{is_f1, evaluate_regression-hits}

-- naturals stand for floats: 100 is zero
abbrev deltas : Deltas ℕ
deltas = record {
  lt = ltb;
  sub = λ a b. 100 + a - b;
  add = λ a b. a + b;
  neg = λ a. 100 - a;
  of_ratio = λ r. 10 * r.num / r.den;
}

abbrev strict : RegressionThresholds ℕ
strict = record { primary_drop = 0; per_class_f1_drop = 0; error_rate_rise = 100; tolerance = 0 }

abbrev baseline : BaselineMetrics ℕ
baseline = record {
  primary_metric = "pass@1";
  primary_value = 5;
  error_rate = 0;
  per_class_f1 = ("dog", 9) ∷ ("cat", 3) ∷ [];
}

abbrev pairs : List Pair
pairs = ("dog", "cat") ∷ ("cat", "dog") ∷ ("cat", "cat") ∷ []

evaluate_regression-hits_example :
    ((evaluate_regression deltas str_le baseline
        (from_confusion deltas "pass@1" 5 0 (some (confusion_from_pairs str_le pairs)))
        strict).regressed
      ≡ any
          (λ (f : RegressionFinding ℕ). f.regressed)
          (evaluate_regression deltas str_le baseline
            (from_confusion deltas "pass@1" 5 0 (some (confusion_from_pairs str_le pairs)))
            strict).findings)
    × All
        (λ (f : RegressionFinding ℕ). (is_f1 "dog" f.signal && f.regressed) ≡ false)
        (evaluate_regression deltas str_le baseline
          (from_confusion deltas "pass@1" 5 0 (some (confusion_from_pairs str_le pairs)))
          strict).findings
evaluate_regression-hits_example =
    evaluate_regression-hits deltas str_le baseline "pass@1" 5 0 pairs strict "dog" refl

passes :
    (evaluate_regression deltas str_le baseline
      (from_confusion deltas "pass@1" 5 0 (some (confusion_from_pairs str_le pairs)))
      strict).regressed
    ≡ false
unfolding evaluate_regression from_confusion confusion_from_pairs sum_cells cell
passes = refl
