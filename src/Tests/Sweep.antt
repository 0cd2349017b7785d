-- ===== src/Tests/Sweep.antt =====
-- A run of the loop over a grid of twelve combinations; the world is what the grid keeps.
use selfevals.Prelude.{ℕ, ◌≡◌, refl, ap, true, Option, none, some, List, arith, length, inl}
use selfevals.Aggregation.{Dict}
use selfevals.Experiments.{ExperimentState}
use selfevals.Loop.{Proposal, Try, Ended, RunSpec, Calls, run_iterations, early_stop_enabled}
use selfevals.Loop.Coverage.{proposals}
use selfevals.Loop.Shown.{shown_at}
use selfevals.Loop.Sweep.{IsGrid, run_iterations-sweep}
use selfevals.Proposers.{Value, Answer, Proposal as Proposed}
use selfevals.Proposers.Combos.{agent_with}
use selfevals.Proposers.Strategies.{propose_grid}
use selfevals.Proposers.Positions.{IsAt}
use selfevals.Proposers.Grid.{Agrees}
use selfevals.Tests.Loop.{numbers, measured, contract, draft, by_order}
use selfevals.Tests.Proposers.{Json, num, reading, half, untitled, sweep, picked}

abbrev shown : Proposed Json ℕ → Proposal
shown p = record { parameters = "combination"; hypothesis = p.hypothesis }

abbrev passed_on : Answer Json ℕ → Try (Option Proposal)
passed_on (Answer.proposed p) = Try.returns (some (shown p))
passed_on Answer.exhausted = Try.returns none
passed_on (Answer.rejected keys) = Try.raises "proposal violates editable contract"
passed_on Answer.unusable = Try.raises "grid proposer requires at least one combination"

abbrev grid_calls : Calls ℕ (Option (List (Dict (Value Json))))
grid_calls = record {
  is_grid = true;
  propose = λ w c.
      let answer = propose_grid half untitled reading w sweep c.iteration_index in
      (passed_on answer.0, answer.1);
  run_iteration = λ w p i. (Try.returns (measured i), w);
  persist = λ w it. w;
  stage_analysis = λ w i m. w;
  persist_experiment = λ w e. w;
}

grid_calls-IsGrid : IsGrid half untitled reading sweep shown (λ w. w) grid_calls
grid_calls-IsGrid = record {
  serves = λ w c p e. ap passed_on e;
  ends = λ w c e. ap passed_on e;
  runs = λ w p i. (measured i, refl);
  keeps = λ w c. refl;
  run_keeps = λ w p i. refl;
  persist_keeps = λ w it. refl;
  staging_keeps = λ w i m. refl;
  experiment_keeps = λ w e. refl;
}

abbrev spec : RunSpec ℕ
spec = record { max_iterations = 20; min_delta = 1; patience = 1; early_stop = none }

run_iterations-sweep_example :
    (ended : Ended ℕ (Option (List (Dict (Value Json))))) × (run_iterations numbers by_order
        grid_calls contract spec draft none
      ≡ some (record draft { state = ExperimentState.completed }, ended))
    × (length ended.state.iterations ≡ 12)
    × ((i : ℕ) × (params : Dict Json) × Agrees picked sweep.model_params params
        × IsAt
            (shown_at half untitled shown i (agent_with (num 200) params))
            (proposals ended.state.iterations))
unfolding early_stop_enabled
run_iterations-sweep_example =
    run_iterations-sweep half untitled shown reading sweep (λ w. w) grid_calls grid_calls-IsGrid
      (num 200) picked refl refl (omega arith) (1, refl) ((1, refl), (refl, ((2, refl), tt)))
      numbers by_order contract spec draft none refl (omega arith) refl (inl refl)
