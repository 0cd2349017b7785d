-- ===== src/Regression.antt =====
-- ci/regression.py: the gate that compares the metrics of a run with those of a baseline. The text of
-- the findings is left out.
pub mod Gate
use selfevals.Prelude.{
  ℕ, String, str_eq, Bool, true, false, ◌||◌, Option, none, some, List, [], ◌∷◌, ◌++◌, map, any,
  sort_with, set_of, if◌then◌else◌,
}
use selfevals.Aggregation.{Dict, lookup}
use selfevals.Aggregation.Metrics.{Ratio}
use selfevals.Aggregation.Confusion.{ConfusionReport}

-- What the gate uses of floats.
pub record Deltas (F : Type 0) : Type 0 where
  pub lt : F → F → Bool
  pub sub : F → F → F
  pub add : F → F → F
  pub neg : F → F
  pub of_ratio : Ratio → F

pub record RegressionThresholds (F : Type 0) : Type 0 where
  pub primary_drop : F
  pub per_class_f1_drop : F
  pub error_rate_rise : F
  pub tolerance : F

pub record BaselineMetrics (F : Type 0) : Type 0 where
  pub primary_metric : String
  pub primary_value : F
  pub error_rate : F
  pub per_class_f1 : Dict F

pub data Signal : Type 0 where
  primary error_rate : Signal
  class_f1 : String → Signal

pub record RegressionFinding (F : Type 0) : Type 0 where
  pub signal : Signal
  pub baseline : Option F
  pub current : Option F
  pub delta : Option F
  pub regressed : Bool

pub record RegressionResult (F : Type 0) : Type 0 where
  pub regressed : Bool
  pub findings : List (RegressionFinding F)

abbrev pub keys : {V : Type 0} → Dict V → List String
keys items = map (λ (k, v). k) items

module _ {F : Type 0} (d : Deltas F) where
  -- the per-label F1s that are not None
  unfoldable pub per_class : Dict (Option Ratio) → Dict F
  per_class [] = []
  per_class ((label, none) ∷ items) = per_class items
  per_class ((label, some r) ∷ items) = (label, d.of_ratio r) ∷ per_class items

  abbrev pub per_class_of : Option ConfusionReport → Dict F
  per_class_of none = []
  per_class_of (some report) = per_class report.per_label_f1

  -- `BaselineMetrics.from_confusion`
  unfoldable pub from_confusion : String → F → F → Option ConfusionReport → BaselineMetrics F
  unfolding per_class
  from_confusion metric value errors confusion = record {
    primary_metric = metric;
    primary_value = value;
    error_rate = errors;
    per_class_f1 = per_class_of confusion;
  }

  -- a value that fell by more than is allowed
  unfoldable pub dropped : F → F → F → Bool
  dropped delta allowed tolerance = d.lt delta (d.neg (d.add allowed tolerance))

  unfoldable pub primary_finding :
      RegressionThresholds F → BaselineMetrics F → BaselineMetrics F → RegressionFinding F
  unfolding dropped
  primary_finding th base cur =
      let delta = d.sub cur.primary_value base.primary_value in
      if str_eq cur.primary_metric base.primary_metric
      then record {
        signal = primary;
        baseline = some base.primary_value;
        current = some cur.primary_value;
        delta = some delta;
        regressed = dropped delta th.primary_drop th.tolerance;
      }
      else record {
        signal = primary;
        baseline = some base.primary_value;
        current = some cur.primary_value;
        delta = none;
        regressed = true;
      }

  unfoldable pub error_finding :
      RegressionThresholds F → BaselineMetrics F → BaselineMetrics F → RegressionFinding F
  error_finding th base cur =
      let delta = d.sub cur.error_rate base.error_rate in
      record {
        signal = error_rate;
        baseline = some base.error_rate;
        current = some cur.error_rate;
        delta = some delta;
        regressed = d.lt (d.add th.error_rate_rise th.tolerance) delta;
      }

  unfoldable pub class_finding :
      RegressionThresholds F → String → Option F → Option F → RegressionFinding F
  unfolding dropped
  class_finding th label (some b) (some c) =
      let delta = d.sub c b in
      record {
        signal = class_f1 label;
        baseline = some b;
        current = some c;
        delta = some delta;
        regressed = dropped delta th.per_class_f1_drop th.tolerance;
      }
  class_finding th label (some b) none = record {
    signal = class_f1 label;
    baseline = some b;
    current = none;
    delta = none;
    regressed = false;
  }
  class_finding th label none c = record {
    signal = class_f1 label;
    baseline = none;
    current = c;
    delta = none;
    regressed = false;
  }

  unfoldable pub class_findings :
      RegressionThresholds F → Dict F → Dict F → List String → List (RegressionFinding F)
  unfolding class_finding
  class_findings th base cur [] = []
  class_findings th base cur (label ∷ labels) =
      class_finding th label (lookup label base) (lookup label cur)
      ∷ class_findings th base cur labels

  -- `any_regressed` after the loop over the classes
  unfoldable pub any_class_regressed : Bool → List (RegressionFinding F) → Bool
  any_class_regressed flag [] = flag
  any_class_regressed flag (f ∷ fs) = any_class_regressed (flag || f.regressed) fs

  module _ (str_le : String → String → Bool) where
    unfoldable pub evaluate_regression :
        BaselineMetrics F → BaselineMetrics F → RegressionThresholds F → RegressionResult F
    unfolding primary_finding error_finding class_findings any_class_regressed
    evaluate_regression base cur th =
        let p = primary_finding th base cur in
        let e = error_finding th base cur in
        let classes =
          class_findings th base.per_class_f1 cur.per_class_f1
            (sort_with str_le (set_of (keys base.per_class_f1 ++ keys cur.per_class_f1))) in
        record {
          regressed = any_class_regressed (p.regressed || e.regressed) classes;
          findings = p ∷ e ∷ classes;
        }
