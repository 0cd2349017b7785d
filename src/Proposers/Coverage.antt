-- ===== src/Proposers/Coverage.antt =====
-- The iterations at which the grid tries each combination (optimization/proposers.py).
use selfevals.Prelude.{
  ℕ, zero, suc, ◌*◌, ◌≤◌, ◌<◌, ◌≡◌, refl, ◌∙◌, ap, String, true, Option, none, some, List, [], ◌∷◌,
  length, get_elem?, arith,
}
use selfevals.Aggregation.{Dict}
use selfevals.Proposers.{
  Value, Experiment, proposal_key_to_editable, allows, bad_keys, violations_against, violations,
  Answer, validated,
}
use selfevals.Proposers.Combos.{
  map_some, Reading, cross, values_of, grid_combinations, agent_with, grid_size,
}
use selfevals.Proposers.Strategies.{plain, validated_or, answer_from, propose_grid}
use selfevals.Proposers.Positions.{IsAt, at_within, cross-IsAt, length-cross, lengths}
use selfevals.Proposers.Grid.{
  Picks, Agrees, chosen, chosen-Agrees, grid_combinations-IsAt, length-grid_combinations,
  all_combos-cross,
}

-- a proposal that sets the agent and the parameters is let through when both may be changed
pub validated-agent_with :
    {V F : Type 0} (exp : Experiment V) (half : F) (text : String) (agent : V) (params : Dict V)
    → exp.editable.model_choice ≡ true
    → exp.editable.model_params ≡ true
    → validated exp (plain half (agent_with agent params) text)
      ≡ Answer.proposed (plain half (agent_with agent params) text)
unfolding validated violations violations_against bad_keys allows proposal_key_to_editable
validated-agent_with exp half text agent params c m = rw (c, m) refl

beyond_none : {A : Type 0} (xs : List A) (i : ℕ) → length xs ≤ i → get_elem? xs i ≡ none
beyond_none [] i h = refl
beyond_none (x ∷ xs) zero h = absurd (omega (arith, h))
beyond_none (x ∷ xs) (suc i) h = beyond_none xs i (omega (arith, h))

module _ {V F : Type 0} (half : F) (label : String → ℕ → Dict (Value V) → String) (rd : Reading V)
    (exp : Experiment V) (agent : V) (f : String → V) where
  -- the size of the grid: the agents times the values of each list
  abbrev pub grid_product : ℕ
  grid_product = length exp.agents * lengths (values_of rd exp.model_params)

  -- The grid tries an agent with the values that `f` chooses at iteration i.
  abbrev pub TriesAt : ℕ → Dict V → Type 0
  TriesAt i params =
      ((propose_grid half label rd none exp i).0
        ≡ Answer.proposed
            (plain half (agent_with agent params) (label "grid" i (agent_with agent params))))
      × Agrees f exp.model_params params
      × (i < grid_product)

  -- the answer of a fresh grid, from the element of the product at the index
  abbrev answer_at : Option (Dict (Value V)) → ℕ → Answer V F
  answer_at found i =
      validated_or Answer.exhausted exp
        (map_some (λ params. plain half params (label "grid" i params)) found)

  fresh_grid :
      (i : ℕ)
      → 1 ≤ length exp.model_params
      → IsAt agent exp.agents
      → Picks rd f exp.model_params
      → (propose_grid half label rd none exp i).0
        ≡ answer_at
            (get_elem? (cross agent_with exp.agents (grid_combinations rd exp.model_params)) i)
            i
  unfolding propose_grid
  fresh_grid i nonempty at picks =
      ap (λ kept. (answer_from half label kept exp i).0)
        (all_combos-cross agent (chosen rd f exp.model_params) exp.agents
          (grid_combinations rd exp.model_params) at
          (grid_combinations-IsAt rd f exp.model_params nonempty picks))

  fresh_size :
      1 ≤ length exp.model_params
      → IsAt agent exp.agents
      → Picks rd f exp.model_params
      → grid_size rd exp none
        ≡ some (length (cross agent_with exp.agents (grid_combinations rd exp.model_params)))
  unfolding grid_size
  fresh_size nonempty at picks = ap (map_some length) (
      all_combos-cross agent (chosen rd f exp.model_params) exp.agents
        (grid_combinations rd exp.model_params) at
        (grid_combinations-IsAt rd f exp.model_params nonempty picks))

  -- When the contract lets the agent and the parameters be changed, a fresh grid over agents and a
  -- search space that is not empty proposes, at an iteration below the product of the number of
  -- agents and the lengths of the lists of values, the agent together with parameters that give every
  -- key the chosen value: any member of its list, or its constant. That product is the size of the
  -- grid, and an iteration at or beyond it is answered by exhaustion.
  pub propose_grid-covers :
      (beyond : ℕ)
      → exp.editable.model_choice ≡ true
      → exp.editable.model_params ≡ true
      → 1 ≤ length exp.model_params
      → IsAt agent exp.agents
      → Picks rd f exp.model_params
      → grid_product ≤ beyond
      → ((i : ℕ) × (params : Dict V) × TriesAt i params)
        × ((propose_grid half label rd none exp beyond).0 ≡ Answer.exhausted)
        × (grid_size rd exp none ≡ some grid_product)
  propose_grid-covers beyond choice model nonempty at picks past =
      let combos = grid_combinations rd exp.model_params in
      let params = chosen rd f exp.model_params in
      let found =
        cross-IsAt agent_with agent params exp.agents combos at
          (grid_combinations-IsAt rd f exp.model_params nonempty picks) in
      let size : length (cross agent_with exp.agents combos) ≡ grid_product =
        length-cross agent_with exp.agents combos
        ∙ ap (λ n. length exp.agents * n) (length-grid_combinations rd exp.model_params nonempty) in
      let outside =
        beyond_none (cross agent_with exp.agents combos) beyond (omega (arith, size, past)) in
      let inside =
        at_within (agent_with agent params) (cross agent_with exp.agents combos) found.0 found.1 in
      (
        (
          found.0,
          params,
          (
            fresh_grid found.0 nonempty at picks
                ∙ ap (λ c. answer_at c found.0) found.1
                ∙ validated-agent_with exp half (label "grid" found.0 (agent_with agent params))
                    agent params choice model,
            chosen-Agrees rd f exp.model_params picks,
            omega (arith, inside, size),
          ),
        ),
        fresh_grid beyond nonempty at picks ∙ ap (λ c. answer_at c beyond) outside,
        fresh_size nonempty at picks ∙ ap some size,
      )
