-- ===== src/Loop/Sweep.antt =====
-- A run of the loop with the grid as its proposer (optimization/loop.py with GridProposer of
-- optimization/proposers.py).
use selfevals.Prelude.{
  ℕ, ◌*◌, ◌≤◌, ◌≡◌, ◌⊎◌, inl, inr, refl, ap, sym, ◌∙◌, String, Bool, true, false, Option, none,
  some, List, [], arith, length, length-map, take, get_elem?, All,
}
use selfevals.Aggregation.{Dict}
use selfevals.Experiments.{ExperimentState, Experiment}
use selfevals.Decision.{Numbers, Contract}
use selfevals.Loop.{
  Proposal, ProposerContext, IterationOutcome, Try, Ended, RunSpec, Calls, early_stop_enabled,
  run_iterations,
}
use selfevals.Decision.{Measured}
use selfevals.Loop.Completion.{Startable}
use selfevals.Loop.Coverage.{IsWalk, onto, proposals, run_iterations-covers}
use selfevals.Loop.Shown.{
  take_all, onto-IsAt, length-onto, All-at, All-cross, shown_at, numbered, from_first,
  length-numbered,
}
use selfevals.Proposers.{Value, Answer, validated, Experiment as Searched, Proposal as Proposed}
use selfevals.Proposers.Combos.{map_some, Reading, cross, agent_with, values_of, grid_combinations}
use selfevals.Proposers.Strategies.{plain, validated_or, propose_combo, answer_from, propose_grid}
use selfevals.Proposers.Positions.{IsAt, cross-IsAt, length-cross, lengths}
use selfevals.Proposers.Grid.{
  Picks, Agrees, chosen, chosen-Agrees, grid_combinations-IsAt, length-grid_combinations,
  all_combos-cross,
}
use selfevals.Proposers.Coverage.{validated-agent_with}

-- What the loop calls when the grid proposes: an answer is passed on, the end of the grid is the end
-- of the search space, no iteration raises, and no other call touches the combinations that the grid keeps.
pub record IsGrid {V F : Type 0} {W : Type 0} (half : F)
    (label : String → ℕ → Dict (Value V) → String) (rd : Reading V) (exp : Searched V)
    (shown : Proposed V F → Proposal) (kept : W → Option (List (Dict (Value V))))
    (calls : Calls F W) : Type 0 where
  pub serves :
      (w : W) (c : ProposerContext F) (p : Proposed V F)
      → (propose_grid half label rd (kept w) exp c.iteration_index).0 ≡ Answer.proposed p
      → (calls.propose w c).0 ≡ Try.returns (some (shown p))
  pub ends :
      (w : W) (c : ProposerContext F)
      → (propose_grid half label rd (kept w) exp c.iteration_index).0 ≡ Answer.exhausted
      → (calls.propose w c).0 ≡ Try.returns none
  pub runs :
      (w : W) (p : Proposal) (i : ℕ)
      → (m : Measured F) × ((calls.run_iteration w p i).0 ≡ Try.returns m)
  pub keeps :
      (w : W) (c : ProposerContext F)
      → kept (calls.propose w c).1 ≡ (propose_grid half label rd (kept w) exp c.iteration_index).1
  pub run_keeps : (w : W) (p : Proposal) (i : ℕ) → kept (calls.run_iteration w p i).1 ≡ kept w
  pub persist_keeps : (w : W) (it : IterationOutcome F) → kept (calls.persist w it) ≡ kept w
  pub staging_keeps : (w : W) (i : ℕ) (m : Measured F) → kept (calls.stage_analysis w i m) ≡ kept w
  pub experiment_keeps : (w : W) (e : Experiment) → kept (calls.persist_experiment w e) ≡ kept w

-- the agents with the parameters
abbrev combos_of : {V : Type 0} → Reading V → Searched V → List (Dict (Value V))
combos_of rd exp = cross agent_with exp.agents (grid_combinations rd exp.model_params)

-- the grid has these combinations, or is fresh
abbrev HasCombos : {A : Type 0} → A → Option A → Type 0
HasCombos combos k = (k ≡ none) ⊎ (k ≡ some combos)

module _ {V F : Type 0} (half : F) (label : String → ℕ → Dict (Value V) → String)
    (shown : Proposed V F → Proposal) (rd : Reading V) (exp : Searched V) {W : Type 0}
    (kept : W → Option (List (Dict (Value V)))) (calls : Calls F W)
    (grid : IsGrid half label rd exp shown kept calls) (agent : V) (f : String → V)
    (choice : exp.editable.model_choice ≡ true) (model : exp.editable.model_params ≡ true)
    (nonempty : 1 ≤ length exp.model_params) (at : IsAt agent exp.agents)
    (picks : Picks rd f exp.model_params) where
  answer-HasCombos :
      (k : Option (List (Dict (Value V)))) (i : ℕ)
      → HasCombos (combos_of rd exp) k
      → propose_grid half label rd k exp i
        ≡ (propose_combo half label (combos_of rd exp) exp i, some (combos_of rd exp))
  unfolding propose_grid
  answer-HasCombos k i (inl e) = rw e (
      ap (λ c. answer_from half label c exp i)
        (all_combos-cross agent (chosen rd f exp.model_params) exp.agents
          (grid_combinations rd exp.model_params) at
          (grid_combinations-IsAt rd f exp.model_params nonempty picks)))
  answer-HasCombos k i (inr e) = rw e refl

  all_validated :
      All
        (λ c. (t : String) → validated exp (plain half c t) ≡ Answer.proposed (plain half c t))
        (combos_of rd exp)
  all_validated =
      All-cross agent_with
        (λ c. (t : String) → validated exp (plain half c t) ≡ Answer.proposed (plain half c t))
        (λ a params t. validated-agent_with exp half t a params choice model) exp.agents
        (grid_combinations rd exp.model_params)

  served :
      (w : W) (c : ProposerContext F) (found : Option (Dict (Value V)))
      → HasCombos (combos_of rd exp) (kept w)
      → get_elem? (combos_of rd exp) c.iteration_index ≡ found
      → (calls.propose w c).0
        ≡ Try.returns (map_some (shown_at half label shown c.iteration_index) found)
  served w c none good e = grid.ends w c (
      ap (λ a. a.0) (answer-HasCombos (kept w) c.iteration_index good)
      ∙ ap
          (λ found.
            validated_or Answer.exhausted exp
              (map_some (λ ps. plain half ps (label "grid" c.iteration_index ps)) found))
          e)
  served w c (some params) good e =
      grid.serves w c (plain half params (label "grid" c.iteration_index params)) (
        ap (λ a. a.0) (answer-HasCombos (kept w) c.iteration_index good)
        ∙ ap
            (λ found.
              validated_or Answer.exhausted exp
                (map_some (λ ps. plain half ps (label "grid" c.iteration_index ps)) found))
            e
        ∙ All-at
            (λ c'.
              (t : String) → validated exp (plain half c' t) ≡ Answer.proposed (plain half c' t))
            (combos_of rd exp) c.iteration_index params all_validated e
            (label "grid" c.iteration_index params))

  grid-IsWalk :
      IsWalk calls
        (λ w. HasCombos (combos_of rd exp) (kept w))
        (numbered half label shown 0 (combos_of rd exp))
  grid-IsWalk = record {
    proposes = λ w c good.
        served w c (get_elem? (combos_of rd exp) c.iteration_index) good refl
        ∙ ap Try.returns (sym (from_first half label shown (combos_of rd exp) c.iteration_index));
    runs = λ w p i good. grid.runs w p i;
    after_propose = λ w c good.
        inr (grid.keeps w c ∙ ap (λ a. a.1) (answer-HasCombos (kept w) c.iteration_index good));
    after_run = λ w p i good. rw (grid.run_keeps w p i) good;
    after_persist = λ w it good. rw (grid.persist_keeps w it) good;
    after_staging = λ w i m good. rw (grid.staging_keeps w i m) good;
    after_experiment = λ w e good. rw (grid.experiment_keeps w e) good;
  }

  -- A run of the loop with a fresh grid, whose iterations do not raise, for an experiment whose
  -- contract lets the agent and the parameters be changed, that may not stop early and has room for
  -- the whole grid, completes after
  -- as many iterations as the product of the number of agents and the lengths of the lists of values;
  -- and for every agent and every choice of a value from each list, one of those iterations is of the
  -- agent with parameters that give each key its chosen value or its constant.
  pub run_iterations-sweep :
      (num : Numbers F) (mode_le : String → String → Bool) (contract : Contract F) (run : RunSpec F)
      (e : Experiment) (w : W)
      → early_stop_enabled run.early_stop calls.is_grid ≡ false
      → length exp.agents * lengths (values_of rd exp.model_params) ≤ run.max_iterations
      → kept w ≡ none
      → Startable e.state
      → (ended : Ended F W) × (run_iterations num mode_le calls contract run e w
          ≡ some (record e { state = ExperimentState.completed }, ended))
        × (length ended.state.iterations
            ≡ length exp.agents * lengths (values_of rd exp.model_params))
        × ((i : ℕ) × (params : Dict V) × Agrees f exp.model_params params
            × IsAt
                (shown_at half label shown i (agent_with agent params))
                (proposals ended.state.iterations))
  run_iterations-sweep num mode_le contract run e w never room fresh h =
      let combos = combos_of rd exp in
      let params = chosen rd f exp.model_params in
      let ran =
        run_iterations-covers num mode_le calls contract run (λ v. HasCombos combos (kept v))
          (numbered half label shown 0 combos) grid-IsWalk never e w (inl fresh) h in
      let size : length combos ≡ length exp.agents * lengths (values_of rd exp.model_params) =
        length-cross agent_with exp.agents (grid_combinations rd exp.model_params)
        ∙ ap (λ n. length exp.agents * n) (length-grid_combinations rd exp.model_params nonempty) in
      let whole : take run.max_iterations (numbered half label shown 0 combos)
          ≡ numbered half label shown 0 combos =
        take_all run.max_iterations (numbered half label shown 0 combos)
          (omega (arith, size, room, length-numbered half label shown 0 combos)) in
      let found =
        cross-IsAt agent_with agent params exp.agents (grid_combinations rd exp.model_params) at
          (grid_combinations-IsAt rd f exp.model_params nonempty picks) in
      let tried : proposals ran.0.state.iterations ≡ onto (numbered half label shown 0 combos) [] =
        ran.2 ∙ ap (λ ps. onto ps []) whole in
      let shown_there =
        from_first half label shown combos found.0
        ∙ ap (map_some (shown_at half label shown found.0)) found.1 in
      let count = sym (length-map (λ it. it.proposal) ran.0.state.iterations) ∙ ap length tried in
      (
        ran.0,
        ran.1,
        omega (
          arith,
          count,
          length-onto (numbered half label shown 0 combos) [],
          length-numbered half label shown 0 combos,
          size,
        ),
        (
          found.0,
          params,
          chosen-Agrees rd f exp.model_params picks,
          rw tried
              (onto-IsAt _ (numbered half label shown 0 combos) [] (inl (found.0, shown_there))),
        ),
      )
