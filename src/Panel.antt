-- ===== src/Panel.antt =====
-- graders/judge_panel_consensus.py: how a panel of judges comes to a label, a score and a confidence.
-- Only members that voted FAIL, PARTIAL or PASS are given to these functions; floats are a type `F`.
pub mod Majority
use selfevals.Prelude.{
  ℕ, zero, ◌+◌, ◌==◌, Bool, true, false, ◌&&◌, ◌||◌, not, String, Option, none, some, List, [], ◌∷◌,
  all, map, count, length, ltb, leb, if◌then◌else◌,
}
use selfevals.Graders.{GradeLabel, GradeResult, Floats, is_pass}

pub record MemberOutcome (F : Type 0) : Type 0 where
  pub name : String
  pub result : GradeResult F
  pub weight : F

pub data ConsensusRule : Type 0 where
  unanimous weighted majority : ConsensusRule

-- `_CONSERVATISM_RANK`; it has no entry for the labels that do not vote, which are never asked for
abbrev pub rank : GradeLabel → ℕ
rank GradeLabel.fail = 0
rank GradeLabel.partial = 1
rank GradeLabel.pass = 2
rank GradeLabel.error = 3
rank GradeLabel.skipped = 3

abbrev pub same_label : GradeLabel → GradeLabel → Bool
same_label a b = rank a == rank b

-- The comparison of tallies, which are counts or sums of weights.
pub record Tallies (V : Type 0) : Type 0 where
  pub nonzero : V → Bool
  pub lt : V → V → Bool
  pub same : V → V → Bool

abbrev pub counts : Tallies ℕ
counts = record { nonzero = λ n. ltb 0 n; lt = ltb; same = λ a b. a == b }

module _ {V : Type 0} (t : Tallies V) (tally : GradeLabel → V) where
  -- whether the key of `l` is above that of the best label so far
  unfoldable pub wins : GradeLabel → Option GradeLabel → Bool
  wins l none = true
  wins l (some best) =
      t.lt (tally best) (tally l) || (t.same (tally best) (tally l) && ltb (rank l) (rank best))

  unfoldable pub consider : GradeLabel → Option GradeLabel → Option GradeLabel
  unfolding wins
  consider l best = if t.nonzero (tally l) && wins l best then some l else best

  -- `argmax_label`; `max` of no candidate raises
  unfoldable pub argmax_label : Option GradeLabel
  unfolding consider
  argmax_label =
      consider GradeLabel.pass (consider GradeLabel.partial (consider GradeLabel.fail none))

module _ {F : Type 0} where
  unfoldable pub most_conservative : GradeLabel → List (MemberOutcome F) → GradeLabel
  most_conservative best [] = best
  most_conservative best (o ∷ os) =
      most_conservative (if ltb (rank o.result.label) (rank best) then o.result.label else best) os

  unfoldable pub votes : GradeLabel → List (MemberOutcome F) → ℕ
  votes l = count (λ o. same_label o.result.label l)

  -- the rule `unanimous`
  unfoldable pub combine_unanimous : List (MemberOutcome F) → Option GradeLabel
  unfolding most_conservative
  combine_unanimous [] = none
  combine_unanimous (o ∷ os) =
      if all (λ p. is_pass p.result.label) (o ∷ os)
      then some GradeLabel.pass
      else some (most_conservative o.result.label os)

module _ {F : Type 0} (fl : Floats F) (t : Tallies F) where
  unfoldable pub weight_tally : GradeLabel → List (MemberOutcome F) → F → F
  weight_tally l [] total = total
  weight_tally l (o ∷ os) total =
      weight_tally l os (if same_label o.result.label l then fl.add total o.weight else total)

  -- `combine_labels`
  unfoldable pub combine_labels : ConsensusRule → List (MemberOutcome F) → Option GradeLabel
  unfolding combine_unanimous argmax_label weight_tally votes
  combine_labels ConsensusRule.unanimous voting = combine_unanimous voting
  combine_labels ConsensusRule.weighted voting = argmax_label t (λ l. weight_tally l voting fl.zero)
  combine_labels ConsensusRule.majority voting = argmax_label counts (λ l. votes l voting)

  abbrev pub label_score : GradeLabel → F
  label_score GradeLabel.pass = fl.one
  label_score GradeLabel.partial = fl.half
  label_score _ = fl.zero

  unfoldable pub member_score : GradeResult F → F
  member_score r = elim r.score [ some s ↦ s | none ↦ label_score r.label ]

  unfoldable pub weight_in : ConsensusRule → MemberOutcome F → F
  weight_in ConsensusRule.weighted o = o.weight
  weight_in _ o = fl.one

  unfoldable pub score_sums : ConsensusRule → List (MemberOutcome F) → F → F → F × F
  unfolding member_score weight_in
  score_sums rule [] num den = (num, den)
  score_sums rule (o ∷ os) num den =
      score_sums rule os (fl.add num (fl.mul (weight_in rule o) (member_score o.result)))
        (fl.add den (weight_in rule o))

  -- `combine_scores`
  unfoldable pub combine_scores : ConsensusRule → List (MemberOutcome F) → GradeLabel → F
  unfolding score_sums
  combine_scores rule voting label =
      let (num, den) = score_sums rule voting fl.zero fl.zero in
      if fl.is_zero den then label_score label else fl.div num den
