-- ===== src/SetMatch.antt =====
-- graders/set_match.py: a detected set of labels is scored against an expected one. Quotients are
-- exact; the lower case of a string is the language's, an argument, and what the path selector found
-- in the response is another. The breakdown of the grade is left out.
pub mod Gating
use selfevals.Prelude.{
  ℕ, ◌+◌, ◌*◌, ◌==◌, String, str_eq, Bool, true, false, not, Option, none, some, List, [], ◌∷◌,
  ◌++◌, map, any, count, length, leb, set_of, if◌then◌else◌,
}
use selfevals.Graders.{GradeLabel}
use selfevals.Aggregation.{Dict, lookup}
use selfevals.Aggregation.Metrics.{Ratio}

pub data GatingDimension : Type 0 where
  completeness precision recall f1 : GatingDimension

pub record Scores : Type 0 where
  pub completeness_score : Ratio
  pub precision_score : Ratio
  pub recall_score : Ratio
  pub f1_score : Ratio

unfoldable pub get_score : Scores → GatingDimension → Ratio
get_score s GatingDimension.completeness = s.completeness_score
get_score s GatingDimension.precision = s.precision_score
get_score s GatingDimension.recall = s.recall_score
get_score s GatingDimension.f1 = s.f1_score

abbrev pub member : List String → String → Bool
member items x = any (str_eq x) items

abbrev pub or_raw : String → Option String → String
or_raw raw none = raw
or_raw raw (some mapped) = mapped

-- `_normalize`
unfoldable pub normalize : (String → String) → Dict String → Bool → List String → List String
normalize lower aliases case_sensitive items =
    map
      (λ raw.
        let mapped = or_raw raw (lookup raw aliases) in
        if case_sensitive then mapped else lower mapped)
      items

-- x / n, 1.0 where the set is empty
unfoldable pub fraction : ℕ → ℕ → Ratio
fraction x n = if n == 0 then record { num = 1; den = 1 } else record { num = x; den = n }

-- 2pr / (p + r), 0.0 where the sum is zero
unfoldable pub harmonic : Ratio → Ratio → Ratio
harmonic p r =
    if p.num * r.den + r.num * p.den == 0
    then record { num = 0; den = 1 }
    else record { num = 2 * (p.num * r.num); den = p.num * r.den + r.num * p.den }

-- `_compute_scores`; the intersection is counted over the expected set
unfoldable pub compute_scores : List String → List String → Scores
unfolding fraction harmonic
compute_scores detected expected =
    let detected_set = set_of detected in
    let expected_set = set_of expected in
    let inter = count (member detected_set) expected_set in
    let complete = fraction inter (length expected_set) in
    let precise = fraction inter (length detected_set) in
    record {
      completeness_score = complete;
      precision_score = precise;
      recall_score = complete;
      f1_score = harmonic precise complete;
    }

-- `_collect_failure_modes`
unfoldable pub collect_failure_modes : List String → List String → List String
collect_failure_modes detected expected =
    let detected_set = set_of detected in
    let expected_set = set_of expected in
    let missing = any (λ e. not (member detected_set e)) expected_set in
    let extraneous = any (λ d. not (member expected_set d)) detected_set in
    (if missing then "set_match_missing" ∷ [] else [])
    ++ (if extraneous then "set_match_extraneous" ∷ [] else [])

-- the score >= threshold
abbrev pub at_least : Ratio → Ratio → Bool
at_least score threshold = leb (threshold.num * score.den) (score.num * threshold.den)

pub record Grade : Type 0 where
  pub label : GradeLabel
  pub score : Ratio
  pub failure_modes : List String

pub record SetMatchGrader : Type 0 where
  pub gating : GatingDimension
  pub threshold : Ratio
  pub case_sensitive : Bool

unfoldable pub grade_sets : SetMatchGrader → List String → List String → Grade
unfolding get_score compute_scores collect_failure_modes
grade_sets g detected expected =
    let score = get_score (compute_scores detected expected) g.gating in
    if at_least score g.threshold
    then record { label = GradeLabel.pass; score = score; failure_modes = [] }
    else record {
      label = GradeLabel.fail;
      score = score;
      failure_modes = collect_failure_modes detected expected;
    }

-- `SetMatchGrader.grade`
unfoldable pub grade :
    (String → String) → SetMatchGrader → Dict String → Option (List String) → List String → Grade
unfolding grade_sets normalize
grade lower g aliases none must_include = record {
  label = GradeLabel.fail;
  score = record { num = 0; den = 1 };
  failure_modes = "set_match_no_detected" ∷ [];
}
grade lower g aliases (some raw) must_include =
    grade_sets g (normalize lower aliases g.case_sensitive raw)
      (normalize lower aliases g.case_sensitive must_include)
