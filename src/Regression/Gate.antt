-- ===== src/Regression/Gate.antt =====
-- What the regression gate says of its findings, and of a class with no right answer
-- (ci/regression.py, graders/_confusion.py).
use selfevals.Prelude.{
  set_of, String, str_eq, eq_iff, ◌≡◌, refl, Bool, true, false, ◌&&◌, ◌||◌, Option, none, some, inl,
  inr, List, [], ◌∷◌, ◌++◌, arith, Bool-cases, map, any, All, sort_with,
}
use selfevals.Aggregation.{Dict, lookup}
use selfevals.Aggregation.Metrics.{Ratio}
use selfevals.Aggregation.Confusion.{
  Pair, Matrix, bump_all, f1_of, classes, report_of, confusion_from_pairs,
}
use selfevals.Aggregation.Confusions.{hits, f1_of-IsF1}
use selfevals.Regression.{
  Deltas, RegressionThresholds, BaselineMetrics, Signal, RegressionFinding, keys, per_class,
  from_confusion, primary_finding, error_finding, class_finding, class_findings,
  any_class_regressed, evaluate_regression,
}

f1_of-none :
    (ps : List Pair) (label : String) → hits ps label ≡ 0 → f1_of (bump_all ps []) label ≡ none
f1_of-none ps label h = elim (f1_of-IsF1 ps label) [
  | inl (z, e) ↦ e
  | inr (pos, rest) ↦ absurd (omega (arith, h, pos))
]

abbrev pub is_f1 : String → Signal → Bool
is_f1 label (Signal.class_f1 l) = str_eq l label
is_f1 label _ = false

module _ {F : Type 0} (d : Deltas F) where
  lookup-per_class :
      (m : Matrix) (label : String) (labels : List String)
      → f1_of m label ≡ none
      → lookup label (per_class d (map (λ l. (l, f1_of m l)) labels)) ≡ none
  unfolding per_class
  lookup-per_class m label [] h = refl
  lookup-per_class m label (l ∷ ls) h = elim (Bool-cases (str_eq l label)) [
    | inl e ↦
        let none_here : f1_of m l ≡ none = rw ((eq_iff l label).0 e) h in
        rw none_here (lookup-per_class m label ls h)
    | inr e ↦ keep (f1_of m l) e (lookup-per_class m label ls h)
  ]
    where
      keep :
          (f : Option Ratio)
          → str_eq l label ≡ false
          → lookup label (per_class d (map (λ k. (k, f1_of m k)) ls)) ≡ none
          → lookup label (per_class d ((l, f) ∷ map (λ k. (k, f1_of m k)) ls)) ≡ none
      keep none e rest = rest
      keep (some r) e rest = rw e rest

  class_finding-none :
      (th : RegressionThresholds F) (l label : String) (b c : Option F)
      → (str_eq l label ≡ true → c ≡ none)
      → (is_f1 label (class_finding d th l b c).signal && (class_finding d th l b c).regressed)
        ≡ false
  unfolding class_finding
  class_finding-none th l label none c h = ground arith
  class_finding-none th l label (some b) none h = ground arith
  class_finding-none th l label (some b) (some c) h = elim (Bool-cases (str_eq l label)) [
    | inl e ↦ let f = h e in cc
    | inr e ↦ rw e refl
  ]

  class_findings-none :
      (th : RegressionThresholds F) (label : String) (base cur : Dict F) (labels : List String)
      → lookup label cur ≡ none
      → All
          (λ f. (is_f1 label f.signal && f.regressed) ≡ false)
          (class_findings d th base cur labels)
  unfolding class_findings
  class_findings-none th label base cur [] h = tt
  class_findings-none th label base cur (l ∷ ls) h = (
    class_finding-none th l label (lookup l base) (lookup l cur) (λ e. rw ((eq_iff l label).0 e) h),
    class_findings-none th label base cur ls h,
  )

  primary_finding-is_f1 :
      (th : RegressionThresholds F) (base cur : BaselineMetrics F) (label : String)
      → (is_f1 label (primary_finding d th base cur).signal
          && (primary_finding d th base cur).regressed)
        ≡ false
  unfolding primary_finding
  primary_finding-is_f1 th base cur label =
      elim (Bool-cases (str_eq cur.primary_metric base.primary_metric)) [
        | inl e ↦ rw e refl
        | inr e ↦ rw e refl
      ]

  any_class-any :
      (flag : Bool) (fs : List (RegressionFinding F))
      → any_class_regressed d flag fs ≡ (flag || any (λ f. f.regressed) fs)
  unfolding any_class_regressed
  any_class-any flag [] = ground arith
  any_class-any flag (f ∷ fs) = ground (arith, any_class-any (flag || f.regressed) fs)

  module _ (str_le : String → String → Bool) where
    lookup-report :
        (ps : List Pair) (label : String)
        → hits ps label ≡ 0
        → lookup label (per_class d (confusion_from_pairs str_le ps).per_label_f1) ≡ none
    unfolding confusion_from_pairs report_of per_class
    lookup-report [] label h = refl
    lookup-report (p ∷ ps) label h =
        lookup-per_class (bump_all (p ∷ ps) []) label
          (sort_with str_le (classes (bump_all (p ∷ ps) []))) (f1_of-none (p ∷ ps) label h)

    -- The gate fails exactly if one of the findings that it reports failed; and it never fails for a
    -- class of which the current run got nothing right, whatever the baseline's F1 of the class was
    -- and whatever the thresholds are: the class has no F1 then, and counts as vanished.
    pub evaluate_regression-hits :
        (base : BaselineMetrics F) (metric : String) (value errors : F) (ps : List Pair)
        (th : RegressionThresholds F) (label : String)
        → hits ps label ≡ 0
        → ((evaluate_regression d str_le base
              (from_confusion d metric value errors (some (confusion_from_pairs str_le ps)))
              th).regressed
            ≡ any
                (λ f. f.regressed)
                (evaluate_regression d str_le base
                  (from_confusion d metric value errors (some (confusion_from_pairs str_le ps)))
                  th).findings)
          × All
              (λ f. (is_f1 label f.signal && f.regressed) ≡ false)
              (evaluate_regression d str_le base
                (from_confusion d metric value errors (some (confusion_from_pairs str_le ps)))
                th).findings
    unfolding evaluate_regression from_confusion primary_finding error_finding
    evaluate_regression-hits base metric value errors ps th label h =
        let cur = from_confusion d metric value errors (some (confusion_from_pairs str_le ps)) in
        let p = primary_finding d th base cur in
        let e = error_finding d th base cur in
        let labels = sort_with str_le (set_of (keys base.per_class_f1 ++ keys cur.per_class_f1)) in
        let found = class_findings d th base.per_class_f1 cur.per_class_f1 labels in
        (
          ground (arith, any_class-any (p.regressed || e.regressed) found),
          (
            primary_finding-is_f1 th base cur label,
            (
              refl,
              class_findings-none th label base.per_class_f1 cur.per_class_f1 labels
                  (lookup-report ps label h),
            ),
          ),
        )
