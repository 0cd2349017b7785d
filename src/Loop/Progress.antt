-- ===== src/Loop/Progress.antt =====
-- What a run of the loop ends with (optimization/loop.py, decision/matrix.py).
use selfevals.Prelude.{
  ℕ, zero, suc, ◌+◌, ◌≤◌, ◌<◌, String, ◌≡◌, refl, ◌∙◌, Bool, true, false, ◌⊎◌, inl, inr, Option,
  none, some, List, [], ◌∷◌, arith, Bool-cases, All, All-weaken, length,
}
use selfevals.Decision.{
  Numbers, Contract, Measured, DecisionOutcome, evaluate_iteration, evaluate_with, evaluate_primary,
  guardrails_violated, delta, outcome_for_guardrail, outcome_for_regression, check_operator,
  GuardrailPolicy, RegressionPolicy,
}
use selfevals.Loop.{
  Proposal, IterationOutcome, LoopState, Ended, RunSpec, Calls, Reason, Try, after_run, better,
  context, outcome_of, after_iteration, stops, iterate_once, iterate,
}

-- What the loop relies on of the comparison of floats that are numbers: a strict total order, in
-- which a difference is positive exactly if its first number is the greater one.
pub record IsOrder {F : Type 0} (num : Numbers F) : Type 0 where
  pub irrefl : (a : F) → num.lt a a ≡ false
  pub trans : (a b c : F) → num.lt a b ≡ true → num.lt b c ≡ true → num.lt a c ≡ true
  pub through : (a b c : F) → num.lt a b ≡ false → num.lt a c ≡ true → num.lt b c ≡ true
  pub sub_lt : (a b : F) → num.lt num.zero (num.sub a b) ≡ num.lt b a

abbrev pub is_keep : DecisionOutcome → Bool
is_keep DecisionOutcome.keep_candidate = true
is_keep _ = false

module _ {F : Type 0} (num : Numbers F) (order : IsOrder num) where
  -- none of the iterations is above the baseline
  abbrev pub IsBest : Option (Measured F) → List (IterationOutcome F) → Type 0
  IsBest none its = its ≡ []
  IsBest (some b) its = All (λ it. num.lt b.primary_value it.aggregate.primary_value ≡ false) its

  -- A kept iteration is above every earlier one; the newest stands first.
  abbrev pub IsRanked : List (IterationOutcome F) → Type 0
  IsRanked [] = Unit
  IsRanked (it ∷ earlier) =
      ((is_keep it.decision ≡ false)
        ⊎ All (λ e. num.lt e.aggregate.primary_value it.aggregate.primary_value ≡ true) earlier)
      × IsRanked earlier

  -- the iterations are numbered from zero, without a gap
  abbrev pub IsNumbered : List (IterationOutcome F) → Type 0
  IsNumbered [] = Unit
  IsNumbered (it ∷ earlier) = (it.iteration ≡ length earlier) × IsNumbered earlier

  guardrail-is_keep : (p : GuardrailPolicy) → is_keep (outcome_for_guardrail p) ≡ false
  unfolding outcome_for_guardrail
  guardrail-is_keep p = ground arith

  regression-is_keep : (p : RegressionPolicy) → is_keep (outcome_for_regression p) ≡ false
  unfolding outcome_for_regression
  regression-is_keep p = ground arith

  -- against a baseline, only what is above it is kept
  keep_above :
      (c : Contract F) (m b : Measured F) (violated : List String)
      → num.lt b.primary_value m.primary_value ≡ false
      → is_keep (evaluate_with num c m (some b) violated).outcome ≡ false
  unfolding evaluate_with evaluate_primary delta
  keep_above c m b [] h =
      let e : num.lt num.zero (num.sub m.primary_value b.primary_value) ≡ false =
        order.sub_lt m.primary_value b.primary_value ∙ h in
      rw e
        (elim (Bool-cases (check_operator num m.primary_value c.primary.operator c.primary.value)) [
          | inl f ↦ rw f refl
          | inr f ↦ rw f (regression-is_keep c.if_regression_fails)
        ])
  keep_above c m b (v ∷ vs) h = guardrail-is_keep c.if_guardrail_fails

  above_rest :
      (b m : Measured F) (its : List (IterationOutcome F))
      → num.lt b.primary_value m.primary_value ≡ true
      → IsBest (some b) its
      → IsBest (some m) its
  above_rest b m its h best =
      All-weaken (λ it. num.lt b.primary_value it.aggregate.primary_value ≡ false)
        (λ it. num.lt m.primary_value it.aggregate.primary_value ≡ false) its
        (λ it low. elim (Bool-cases (num.lt m.primary_value it.aggregate.primary_value)) [
          | inl high ↦
              let up =
                order.trans b.primary_value m.primary_value it.aggregate.primary_value h high in
              cc
          | inr e ↦ e
        ])
        best

  better-IsBest :
      (m : Measured F) (b : Option (Measured F)) (it : IterationOutcome F)
      (its : List (IterationOutcome F))
      → it.aggregate ≡ m
      → IsBest b its
      → IsBest (better num m b) (it ∷ its)
  unfolding better
  better-IsBest m none it [] e best = rw e (order.irrefl m.primary_value, tt)
  better-IsBest m none it (i ∷ is) e best = cc
  better-IsBest m (some b) it its e best =
      elim (Bool-cases (num.lt b.primary_value m.primary_value)) [
        | inl h ↦ rw h (rw e (order.irrefl m.primary_value), above_rest b m its h best)
        | inr h ↦ rw h (rw e h, best)
      ]

  kept-above :
      (c : Contract F) (m : Measured F) (b : Option (Measured F)) (violated : List String)
      (its : List (IterationOutcome F))
      → IsBest b its
      → (is_keep (evaluate_with num c m b violated).outcome ≡ false)
        ⊎ All (λ e. num.lt e.aggregate.primary_value m.primary_value ≡ true) its
  kept-above c m none violated [] best = inr tt
  kept-above c m none violated (i ∷ is) best = cc
  kept-above c m (some b) violated its best =
      elim (Bool-cases (num.lt b.primary_value m.primary_value)) [
        | inl h ↦ inr (
            All-weaken (λ it. num.lt b.primary_value it.aggregate.primary_value ≡ false)
              (λ e. num.lt e.aggregate.primary_value m.primary_value ≡ true) its
              (λ it low.
                order.through b.primary_value it.aggregate.primary_value m.primary_value low h)
              best)
        | inr h ↦ inl (keep_above c m b violated h)
      ]

  -- The invariant of the loop before the iteration of an index.
  pub record IsRun (index : ℕ) (s : LoopState F) : Type 0 where
    pub best : IsBest s.baseline s.iterations
    pub ranked : IsRanked s.iterations
    pub numbered : IsNumbered s.iterations
    pub next_index : index ≡ length s.iterations

  module _ {W : Type 0} (mode_le : String → String → Bool) (calls : Calls F W)
      (contract : Contract F) (run : RunSpec F) where
    after_iteration-IsRun :
        (index : ℕ) (p : Proposal) (m : Measured F) (s : LoopState F)
        → IsRun index s
        → IsRun (index + 1) (after_iteration num mode_le calls contract run index p m s)
    unfolding after_iteration evaluate_iteration
    after_iteration-IsRun index p m s r = record {
      best =
          better-IsBest m s.baseline (outcome_of num mode_le calls contract run index p m s)
            s.iterations refl r.best;
      ranked = (
        kept-above contract m s.baseline (guardrails_violated num m contract.guardrails)
            s.iterations r.best,
        r.ranked,
      );
      numbered = (r.next_index, r.numbered);
      next_index = omega (arith, r.next_index);
    }

    -- What an end says: the invariant, and a number of iterations that is within the bound, and is the
    -- bound unless the proposer had nothing left, the run converged or an exception left it.
    pub record IsEnd (bound : ℕ) (ended : Ended F W) : Type 0 where
      pub ranked : IsRanked ended.state.iterations
      pub numbered : IsNumbered ended.state.iterations
      pub within : length ended.state.iterations ≤ bound
      pub reached :
          (ended.terminated_reason ≡ Reason.search_space_exhausted)
          ⊎ (ended.terminated_reason ≡ Reason.converged)
          ⊎ (length ended.state.iterations ≡ bound)
          ⊎ ((error : String) × (ended.terminated_reason ≡ Reason.raised error))

    -- an end in the state of the loop before an iteration
    stays-IsEnd :
        (index bound : ℕ) (s : LoopState F) (reason : Reason) (w : W)
        → index < bound
        → IsRun index s
        → (reason ≡ Reason.search_space_exhausted)
          ⊎ ((error : String) × (reason ≡ Reason.raised error))
        → IsEnd bound (record { state = s; terminated_reason = reason; world = w })
    stays-IsEnd index bound s reason w h r why = record {
      ranked = r.ranked;
      numbered = r.numbered;
      within = omega (arith, r.next_index);
      reached = elim why [ inl e ↦ inl e | inr e ↦ inr (inr (inr e)) ];
    }

    after_run-IsEnd :
        (rest : LoopState F → W → Ended F W) (index bound : ℕ) (p : Proposal) (s : LoopState F)
        (ran : Try (Measured F) × W)
        → ((s' : LoopState F) (w : W) → IsRun (index + 1) s' → IsEnd bound (rest s' w))
        → index < bound
        → IsRun index s
        → IsEnd bound (after_run num mode_le calls contract run rest index p s ran)
    unfolding after_run
    after_run-IsEnd rest index bound p s (Try.raises error, w) ends h r =
        stays-IsEnd index bound s (Reason.raised error) w h r (inr (error, refl))
    after_run-IsEnd rest index bound p s (Try.returns m, w) ends h r =
        let s' = after_iteration num mode_le calls contract run index p m s in
        let r' = after_iteration-IsRun index p m s r in
        elim (Bool-cases (stops num mode_le calls contract run s')) [
          | inl e ↦ rw e (record {
            ranked = r'.ranked;
            numbered = r'.numbered;
            within = omega (arith, r'.next_index);
            reached = inr (inl refl);
          })
          | inr e ↦ rw e (ends s' _ r')
        ]

    iterate_once-IsEnd :
        (rest : LoopState F → W → Ended F W) (index bound : ℕ) (s : LoopState F)
        (proposed : Try (Option Proposal) × W)
        → ((s' : LoopState F) (w : W) → IsRun (index + 1) s' → IsEnd bound (rest s' w))
        → index < bound
        → IsRun index s
        → IsEnd bound (iterate_once num mode_le calls contract run rest index s proposed)
    unfolding iterate_once
    iterate_once-IsEnd rest index bound s (Try.raises error, w) ends h r =
        stays-IsEnd index bound s (Reason.raised error) w h r (inr (error, refl))
    iterate_once-IsEnd rest index bound s (Try.returns none, w) ends h r =
        stays-IsEnd index bound s Reason.search_space_exhausted w h r (inl refl)
    iterate_once-IsEnd rest index bound s (Try.returns (some p), w) ends h r =
        after_run-IsEnd rest index bound p s (calls.run_iteration w p index) ends h r

    pub iterate-IsEnd :
        (left index : ℕ) (s : LoopState F) (w : W)
        → IsRun index s
        → IsEnd (index + left) (iterate num mode_le calls contract run left index s w)
    unfolding iterate
    iterate-IsEnd zero index s w r = record {
      ranked = r.ranked;
      numbered = r.numbered;
      within = omega (arith, r.next_index);
      reached = inr (inr (inl (omega (arith, r.next_index))));
    }
    iterate-IsEnd (suc left) index s w r =
        iterate_once-IsEnd (iterate num mode_le calls contract run left (index + 1)) index
          (index + suc left) s (calls.propose w (context num mode_le calls contract run index s))
          (λ s' w' r'.
            let e : index + suc left ≡ index + 1 + left = omega arith in
            rw e (iterate-IsEnd left (index + 1) s' w' r'))
          (omega arith) r
