-- ===== src/Tests/Loop.antt =====
-- The loop at a concrete experiment: three proposals, measured 1, 4 and 3; the numbers are naturals.
use selfevals.Prelude.{
  ℕ, zero, suc, ◌+◌, ◌-◌, String, ◌≡◌, refl, Bool, true, none, some, List, [], ◌∷◌, inl, ltb, ◌==◌,
  get_elem?, take, length, Option,
}
use selfevals.Experiments.{
  ExperimentState, Experiment, transition_to, same_state, legal_transitions, contains,
}
use selfevals.Decision.{
  Numbers, Contract, Measured, ComparisonOp, RegressionPolicy, GuardrailPolicy, DecisionOutcome,
  evaluate_iteration, check_operator,
}
use selfevals.Loop.{
  Proposal, Try, Ended, RunSpec, Calls, start, run_started, iterate, iterate_once, after_run,
  after_iteration, stops, finish, better, dominant_modes, run_iterations, early_stop_enabled,
  has_converged,
}
use selfevals.Loop.Coverage.{IsWalk, onto, proposals, run_iterations-covers}

abbrev pub numbers : Numbers ℕ
numbers = record { zero = 0; lt = ltb; same = λ a b. a == b; sub = λ a b. a - b }

abbrev proposal : String → Proposal
proposal parameters = record { parameters = parameters; hypothesis = "" }

abbrev listed : List Proposal
listed = proposal "a" ∷ proposal "b" ∷ proposal "c" ∷ []

abbrev value_at : ℕ → ℕ
value_at zero = 1
value_at (suc zero) = 4
value_at (suc (suc n)) = 3

abbrev pub measured : ℕ → Measured ℕ
measured i = record {
  primary_value = value_at i;
  guardrails = ("cost", 2) ∷ [];
  reliability = [];
  failure_mode_counts = [];
}

-- the world counts what is stored
abbrev calls : Calls ℕ ℕ
calls = record {
  is_grid = true;
  propose = λ w c. (Try.returns (get_elem? listed c.iteration_index), w);
  run_iteration = λ w p i. (Try.returns (measured i), w);
  persist = λ w it. w + 2;
  stage_analysis = λ w i m. w;
  persist_experiment = λ w e. w + 1;
}

abbrev pub contract : Contract ℕ
contract = record {
  primary = record { name = "pass@1"; operator = ComparisonOp.ge; value = 3 };
  guardrails = record { name = "cost"; operator = ComparisonOp.le; value = 5 } ∷ [];
  if_regression_fails = RegressionPolicy.reject_regression;
  if_guardrail_fails = GuardrailPolicy.review_guardrail;
}

abbrev spec : RunSpec ℕ
spec = record { max_iterations = 2; min_delta = 1; patience = 1; early_stop = none }

abbrev pub draft : Experiment
draft = record {
  id = "exp";
  workspace_id = "ws";
  version = 1;
  created_at = 3;
  state = ExperimentState.draft;
}

abbrev pub by_order : String → String → Bool
by_order a b = true

calls-IsWalk : IsWalk calls (λ w. Unit) listed
calls-IsWalk = record {
  proposes = λ w c good. refl;
  runs = λ w p i good. (measured i, refl);
  after_propose = λ w c good. tt;
  after_run = λ w p i good. tt;
  after_persist = λ w it good. tt;
  after_staging = λ w i m good. tt;
  after_experiment = λ w e good. tt;
}

run_iterations-covers_example :
    (ended : Ended ℕ ℕ) × (run_iterations numbers by_order calls contract spec draft 0
      ≡ some (record draft { state = ExperimentState.completed }, ended))
    × (proposals ended.state.iterations ≡ onto (take 2 listed) [])
unfolding early_stop_enabled
run_iterations-covers_example =
    run_iterations-covers numbers by_order calls contract spec (λ w. Unit) listed calls-IsWalk refl
      draft 0 tt (inl refl)

-- the first iteration is below the target, the second improves, the third does not
second :
    (evaluate_iteration numbers contract (measured 1) (some (measured 0))).outcome
    ≡ DecisionOutcome.keep_candidate
unfolding evaluate_iteration check_operator
second = refl

third :
    (evaluate_iteration numbers contract (measured 2) (some (measured 1))).outcome
    ≡ DecisionOutcome.reject
unfolding evaluate_iteration check_operator
third = refl

-- a window in which the best value rose by 8 counts as a plateau when its last value is no new best
plateau_after_rise : has_converged numbers (1 ∷ 5 ∷ 9 ∷ 9 ∷ []) 1 3 ≡ true
unfolding has_converged
plateau_after_rise = refl

-- a proposer whose second proposal violates the contract
abbrev refusal : ℕ → Try (Option Proposal)
refusal zero = Try.returns (some (proposal "a"))
refusal (suc i) = Try.raises "proposal violates editable contract"

abbrev refused_calls : Calls ℕ ℕ
refused_calls = record calls { propose = λ w c. (refusal c.iteration_index, w) }

-- the experiment and the number of iterations that a run leaves
abbrev left : Option (Experiment × Ended ℕ ℕ) → Option (ExperimentState × ℕ)
left none = none
left (some (e, ended)) = some (e.state, length ended.state.iterations)

refused_stays_running :
    left (run_iterations numbers by_order refused_calls contract spec draft 0)
    ≡ some (ExperimentState.running, 1)
unfolding run_iterations start transition_to same_state legal_transitions contains run_started
    iterate iterate_once after_run after_iteration stops early_stop_enabled has_converged finish
    better dominant_modes
refused_stays_running = refl
