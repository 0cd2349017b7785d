-- ===== src/Panel/Majority.antt =====
-- What the consensus rules of a panel guarantee (graders/judge_panel_consensus.py).
use selfevals.Prelude.{
  ℕ, ◌+◌, ◌≤◌, ◌<◌, ◌≡◌, refl, ◌∙◌, true, false, ◌&&◌, ◌⊎◌, inl, inr, some, List, [], ◌∷◌, arith,
  Bool-cases, all, All, length, ltb,
}
use selfevals.Graders.{GradeLabel, Floats, is_pass}
use selfevals.Panel.{
  most_conservative, MemberOutcome, ConsensusRule, Tallies, rank, counts, argmax_label, votes,
  combine_labels, combine_unanimous,
}

-- A label that wins a vote: some member voted for it, no label has more votes, and none that is
-- more conservative has as many.
pub record IsWinner (tally : GradeLabel → ℕ) (l : GradeLabel) : Type 0 where
  pub voted : 0 < tally l
  pub most_fail : tally GradeLabel.fail ≤ tally l
  pub most_partial : tally GradeLabel.partial ≤ tally l
  pub most_pass : tally GradeLabel.pass ≤ tally l
  pub tie_fail : (l ≡ GradeLabel.fail) ⊎ (tally GradeLabel.fail < tally l)
  pub tie_partial : (rank l ≤ 1) ⊎ (tally GradeLabel.partial < tally l)

module _ (tally : GradeLabel → ℕ) where
  argmax-fail :
      0 < tally GradeLabel.fail
      → tally GradeLabel.partial ≤ tally GradeLabel.fail
      → tally GradeLabel.pass ≤ tally GradeLabel.fail
      → argmax_label counts tally ≡ some GradeLabel.fail
  unfolding argmax_label
  argmax-fail h k m =
      let a : ltb 0 (tally GradeLabel.fail) ≡ true = ground arith in
      let b : ltb (tally GradeLabel.fail) (tally GradeLabel.partial) ≡ false = ground arith in
      let c : ltb (tally GradeLabel.fail) (tally GradeLabel.pass) ≡ false = ground arith in
      rw a (rw b (ground arith))

  argmax-partial :
      tally GradeLabel.fail < tally GradeLabel.partial
      → tally GradeLabel.pass ≤ tally GradeLabel.partial
      → argmax_label counts tally ≡ some GradeLabel.partial
  unfolding argmax_label
  argmax-partial h k = ground arith

  argmax-pass :
      tally GradeLabel.fail < tally GradeLabel.pass
      → tally GradeLabel.partial < tally GradeLabel.pass
      → argmax_label counts tally ≡ some GradeLabel.pass
  unfolding argmax_label
  argmax-pass h k = ground arith

  argmax-IsWinner :
      0 < tally GradeLabel.fail + tally GradeLabel.partial + tally GradeLabel.pass
      → (l : GradeLabel) × (argmax_label counts tally ≡ some l) × IsWinner tally l
  argmax-IsWinner h = elim (Bool-cases (ltb (tally GradeLabel.fail) (tally GradeLabel.partial))) [
    | inl a ↦ elim (Bool-cases (ltb (tally GradeLabel.partial) (tally GradeLabel.pass))) [
      | inl b ↦ passes (ground arith) (ground arith)
      | inr b ↦ partials (ground arith) (ground arith)
    ]
    | inr a ↦ elim (Bool-cases (ltb (tally GradeLabel.fail) (tally GradeLabel.pass))) [
      | inl b ↦ passes (ground arith) (ground arith)
      | inr b ↦ fails (ground arith) (ground arith) (ground arith)
    ]
  ]
    where
      passes :
          tally GradeLabel.fail < tally GradeLabel.pass
          → tally GradeLabel.partial < tally GradeLabel.pass
          → (l : GradeLabel) × (argmax_label counts tally ≡ some l) × IsWinner tally l
      passes f p = (
        GradeLabel.pass,
        argmax-pass f p,
        record {
          voted = omega arith;
          most_fail = omega arith;
          most_partial = omega arith;
          most_pass = omega arith;
          tie_fail = inr f;
          tie_partial = inr p;
        },
      )

      partials :
          tally GradeLabel.fail < tally GradeLabel.partial
          → tally GradeLabel.pass ≤ tally GradeLabel.partial
          → (l : GradeLabel) × (argmax_label counts tally ≡ some l) × IsWinner tally l
      partials f p = (
        GradeLabel.partial,
        argmax-partial f p,
        record {
          voted = omega arith;
          most_fail = omega arith;
          most_partial = omega arith;
          most_pass = omega arith;
          tie_fail = inr f;
          tie_partial = inl (omega arith);
        },
      )

      fails :
          0 < tally GradeLabel.fail
          → tally GradeLabel.partial ≤ tally GradeLabel.fail
          → tally GradeLabel.pass ≤ tally GradeLabel.fail
          → (l : GradeLabel) × (argmax_label counts tally ≡ some l) × IsWinner tally l
      fails z f p = (
        GradeLabel.fail,
        argmax-fail z f p,
        record {
          voted = z;
          most_fail = omega arith;
          most_partial = f;
          most_pass = p;
          tie_fail = inl refl;
          tie_partial = inl (omega arith);
        },
      )

module _ {F : Type 0} where
  -- a member that votes
  abbrev pub Votes : MemberOutcome F → Type 0
  Votes o = rank o.result.label ≤ 2

  votes-length :
      (voting : List (MemberOutcome F))
      → All Votes voting
      → votes GradeLabel.fail voting
          + votes GradeLabel.partial voting
          + votes GradeLabel.pass voting
        ≡ length voting
  unfolding votes
  votes-length [] h = omega arith
  votes-length (o ∷ os) h = ground (arith, votes-length os h.1, h.0)

  most_conservative-is_pass :
      (best : GradeLabel) (os : List (MemberOutcome F))
      → rank best ≤ 2
      → All Votes os
      → is_pass (most_conservative best os) ≡ (is_pass best && all (λ o. is_pass o.result.label) os)
  unfolding most_conservative
  most_conservative-is_pass best [] h hs = ground arith
  most_conservative-is_pass best (o ∷ os) h hs =
      elim (Bool-cases (ltb (rank o.result.label) (rank best))) [
        | inl e ↦
            rw e (ground (arith, e, h, hs.0, most_conservative-is_pass o.result.label os hs.0 hs.1))
        | inr e ↦ rw e (ground (arith, e, h, hs.0, most_conservative-is_pass best os h hs.1))
      ]

  -- A panel with at least one member, all of which voted, comes to a label. By majority it is one that
  -- no label has more votes than, and no more conservative label has as many; by unanimity it is PASS
  -- exactly if every member voted PASS.
  pub combine_labels-IsWinner :
      (fl : Floats F) (t : Tallies F) (o : MemberOutcome F) (os : List (MemberOutcome F))
      → All Votes (o ∷ os)
      → ((l : GradeLabel) × (combine_labels fl t ConsensusRule.majority (o ∷ os) ≡ some l)
          × IsWinner (λ k. votes k (o ∷ os)) l)
        × ((l : GradeLabel) × (combine_labels fl t ConsensusRule.unanimous (o ∷ os) ≡ some l)
            × (is_pass l ≡ all (λ p. is_pass p.result.label) (o ∷ os)))
  unfolding combine_labels combine_unanimous
  combine_labels-IsWinner fl t o os h = (
    argmax-IsWinner (λ k. votes k (o ∷ os)) (omega (arith, votes-length (o ∷ os) h)),
    elim (Bool-cases (all (λ (p : MemberOutcome F). is_pass p.result.label) (o ∷ os))) [
      | inl e ↦ rw e (GradeLabel.pass, refl, refl)
      | inr e ↦ rw e (
        most_conservative o.result.label os,
        refl,
        most_conservative-is_pass o.result.label os h.0 h.1 ∙ e,
      )
    ],
  )
