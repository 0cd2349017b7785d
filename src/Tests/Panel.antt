-- ===== src/Tests/Panel.antt =====
-- A panel of three: one vote for each label, so that the tie goes to the most conservative.
use selfevals.Prelude.{
  ℕ, ◌+◌, ◌*◌, ◌/◌, ◌==◌, ◌≡◌, refl, String, none, some, List, [], ◌∷◌, arith, all,
}
use selfevals.Graders.{GradeLabel, Floats, is_pass}
use selfevals.Panel.{MemberOutcome, ConsensusRule, counts, votes, combine_labels}
use selfevals.Panel.Majority.{IsWinner, combine_labels-IsWinner}

abbrev floats : Floats ℕ
floats = record {
  zero = 0;
  half = 1;
  one = 2;
  add = λ a b. a + b;
  mul = λ a b. a * b;
  div = λ a b. a / b;
  is_zero = λ a. a == 0;
  of_nat = λ n. n;
}

abbrev member : String → GradeLabel → ℕ → MemberOutcome ℕ
member name label weight = record {
  name = name;
  result = record {
    grader = name;
    label = label;
    reason = "";
    score = none;
    confidence = none;
    failure_modes = [];
    breakdown = none;
  };
  weight = weight;
}

abbrev first : MemberOutcome ℕ
first = member "a" GradeLabel.pass 3

abbrev others : List (MemberOutcome ℕ)
others = member "b" GradeLabel.partial 1 ∷ member "c" GradeLabel.fail 1 ∷ []

combine_labels-IsWinner_example :
    ((l : GradeLabel) × (combine_labels floats counts ConsensusRule.majority (first ∷ others)
        ≡ some l)
      × IsWinner (λ k. votes k (first ∷ others)) l)
    × ((l : GradeLabel) × (combine_labels floats counts ConsensusRule.unanimous (first ∷ others)
          ≡ some l)
        × (is_pass l ≡ all (λ (p : MemberOutcome ℕ). is_pass p.result.label) (first ∷ others)))
combine_labels-IsWinner_example =
    combine_labels-IsWinner floats counts first others
      (omega arith, (omega arith, (omega arith, tt)))

tie : combine_labels floats counts ConsensusRule.majority (first ∷ others) ≡ some GradeLabel.fail
unfolding combine_labels
tie = refl

heavy : combine_labels floats counts ConsensusRule.weighted (first ∷ others) ≡ some GradeLabel.pass
unfolding combine_labels
heavy = refl
