-- ===== src/Aggregation/Labels.antt =====
-- The label of a repetition is the worst of its graders' (optimization/aggregator.py,
-- `_pick_label`).
use selfevals.Prelude.{
  ℕ, zero, suc, ◌≡◌, refl, ◌∙◌, ap, Bool, true, false, ◌||◌, Option, none, some, List, [], ◌∷◌,
  arith, leb, any, is_some, get_elem?, if◌then◌else◌,
}
use selfevals.Graders.{GradeLabel, GradeResult, Floats, is_error}
use selfevals.Aggregation.{
  EvalCase, RepetitionResult, rep_labels, outcome_for, severity, worse, most_severe, pick_label,
}

abbrev is_fail : GradeLabel → Bool
is_fail GradeLabel.fail = true
is_fail _ = false

abbrev is_partial : GradeLabel → Bool
is_partial GradeLabel.partial = true
is_partial _ = false

abbrev is_skipped : GradeLabel → Bool
is_skipped GradeLabel.skipped = true
is_skipped _ = false

by_level :
    (l : GradeLabel) (e f p s : Bool)
    → leb 4 (severity l) ≡ e
    → leb 3 (severity l) ≡ (e || f)
    → leb 2 (severity l) ≡ (e || f || p)
    → leb 1 (severity l) ≡ (e || f || p || s)
    → l ≡ (
        if e
        then GradeLabel.error
        else if f
        then GradeLabel.fail
        else if p
        then GradeLabel.partial
        else if s
        then GradeLabel.skipped
        else GradeLabel.pass)
by_level l e f p s h₄ h₃ h₂ h₁ = ground (arith, h₄, h₃, h₂, h₁)

module _ {F : Type 0} where
  worse-leb :
      (k : ℕ) (a b : GradeResult F)
      → leb k (severity (worse a b).label) ≡ (leb k (severity a.label) || leb k (severity b.label))
  unfolding worse
  worse-leb k a b = ground arith

  -- a level is reached by the worst label if it is by one of the labels
  most_severe-leb :
      (k : ℕ) (best : GradeResult F) (rs : List (GradeResult F))
      → leb k (severity (most_severe best rs).label)
        ≡ (leb k (severity best.label) || any (λ r. leb k (severity r.label)) rs)
  unfolding most_severe
  most_severe-leb k best [] = ground arith
  most_severe-leb k best (r ∷ rs) =
      ground (arith, worse-leb k best r, most_severe-leb k (worse best r) rs)

  -- the verdicts of a repetition, by label
  abbrev found : (GradeLabel → Bool) → List (GradeResult F) → Bool
  found test rs = any (λ r. test r.label) rs

  -- The documented order: ERROR > FAIL > PARTIAL > SKIPPED > PASS, and SKIPPED without a verdict.
  abbrev pub worst_of : List (GradeResult F) → GradeLabel
  worst_of [] = GradeLabel.skipped
  worst_of (r ∷ rs) =
      if any (λ s. is_error s.label) (r ∷ rs)
      then GradeLabel.error
      else if any (λ s. is_fail s.label) (r ∷ rs)
      then GradeLabel.fail
      else if any (λ s. is_partial s.label) (r ∷ rs)
      then GradeLabel.partial
      else if any (λ s. is_skipped s.label) (r ∷ rs)
      then GradeLabel.skipped
      else GradeLabel.pass

  any-level :
      (rs : List (GradeResult F))
      → (any (λ r. leb 4 (severity r.label)) rs ≡ found is_error rs)
        × (any (λ r. leb 3 (severity r.label)) rs ≡ (found is_error rs || found is_fail rs))
        × (any (λ r. leb 2 (severity r.label)) rs
            ≡ (found is_error rs || found is_fail rs || found is_partial rs))
        × (any (λ r. leb 1 (severity r.label)) rs
            ≡ (found is_error rs || found is_fail rs || found is_partial rs || found is_skipped rs))
  any-level [] = (refl, refl, refl, refl)
  any-level (r ∷ rs) = ground (arith, any-level rs)

  pick_label-worst_of : (rs : List (GradeResult F)) → pick_label rs ≡ worst_of rs
  unfolding pick_label
  pick_label-worst_of [] = refl
  pick_label-worst_of (r ∷ rs) =
      let levels = any-level (r ∷ rs) in
      by_level (most_severe r rs).label _ _ _ _ (most_severe-leb 4 r rs ∙ levels.0)
        (most_severe-leb 3 r rs ∙ levels.1) (most_severe-leb 2 r rs ∙ levels.2)
        (most_severe-leb 1 r rs ∙ levels.3)

-- whether the repetition at an index raised; it may not exist
abbrev pub raised_at : {F : Type 0} → List (RepetitionResult F) → ℕ → Bool
raised_at reps i = elim (get_elem? reps i) [ none ↦ false | some rep ↦ is_some rep.error ]

-- the label that the documented order gives to what was found at an index
abbrev pub label_at : {F : Type 0} → Bool → Option (List (GradeResult F)) → Option GradeLabel
label_at raised none = none
label_at raised (some results) = some (if raised then GradeLabel.error else worst_of results)

rep_labels-worst_of :
    {F : Type 0} (reps : List (RepetitionResult F)) (grades : List (List (GradeResult F))) (i : ℕ)
    → get_elem? (rep_labels reps grades) i ≡ label_at (raised_at reps i) (get_elem? grades i)
unfolding rep_labels
rep_labels-worst_of reps [] i = refl
rep_labels-worst_of [] (results ∷ rest) zero = ap some (pick_label-worst_of results)
rep_labels-worst_of [] (results ∷ rest) (suc i) = rep_labels-worst_of [] rest i
rep_labels-worst_of (rep ∷ reps) (results ∷ rest) zero = rw (pick_label-worst_of results) refl
rep_labels-worst_of (rep ∷ reps) (results ∷ rest) (suc i) = rep_labels-worst_of reps rest i

-- The label of a repetition that was graded is ERROR if the repetition raised, whatever its graders
-- said; else it is the worst of its graders' labels in the documented order, ERROR before FAIL
-- before PARTIAL before SKIPPED before PASS, and SKIPPED if no grader gave a verdict.
pub per_repetition_label-worst :
    {F : Type 0} (fl : Floats F) (case : EvalCase) (reps : List (RepetitionResult F))
    (grades : List (List (GradeResult F))) (i : ℕ)
    → get_elem? (outcome_for fl case reps grades).per_repetition_label i
      ≡ label_at (raised_at reps i) (get_elem? grades i)
unfolding outcome_for
per_repetition_label-worst fl case reps grades i = rep_labels-worst_of reps grades i
