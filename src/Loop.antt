-- ===== src/Loop.antt =====
-- optimization/loop.py: the loop of an experiment, from one proposal to the next. The proposer, the
-- run of an iteration and what is stored are arguments, with the state `W` of everything around the
-- loop; the experiment's own state is that of Experiments.
pub mod Progress
pub mod Completion
pub mod Coverage
pub mod Shown
pub mod Sweep
use selfevals.Prelude.{
  ℕ, zero, suc, ◌+◌, ◌-◌, ◌==◌, String, Bool, true, false, ◌&&◌, ◌||◌, not, Option, none, some,
  List, [], ◌∷◌, ◌++◌, map, length, drop, ltb, if◌then◌else◌, sort_with,
}
use selfevals.Aggregation.{Dict}
use selfevals.Experiments.{ExperimentState, Experiment, Transition, transition_to, same_state}
use selfevals.Decision.{Numbers, Contract, Measured, DecisionOutcome, evaluate_iteration}

pub record Proposal : Type 0 where
  pub parameters : String
  pub hypothesis : String

-- The record of an iteration, with the decision of its evaluation.
pub record IterationOutcome (F : Type 0) : Type 0 where
  pub iteration : ℕ
  pub proposal : Proposal
  pub aggregate : Measured F
  pub decision : DecisionOutcome
  pub failure_modes_consulted : List String

-- What a proposer is shown; the history has the newest iteration first.
pub record ProposerContext (F : Type 0) : Type 0 where
  pub iteration_index : ℕ
  pub history : List (IterationOutcome F)
  pub failure_modes : List String

-- How a call ends: with a value, or with the exception that it raises.
pub data Try (A : Type 0) : Type 0 where
  raises : String → Try A
  returns : A → Try A

-- `terminated_reason`, or the exception that leaves the loop
pub data Reason : Type 0 where
  search_space_exhausted converged max_iterations : Reason
  raised : String → Reason

-- What the loop keeps between iterations; `iterations` has the newest first.
pub record LoopState (F : Type 0) : Type 0 where
  pub iterations : List (IterationOutcome F)
  pub baseline : Option (Measured F)
  pub recent_primary : List F
  pub prev_failure_modes : List String

pub record Ended (F : Type 0) (W : Type 0) : Type 0 where
  pub state : LoopState F
  pub terminated_reason : Reason
  pub world : W

pub record RunSpec (F : Type 0) : Type 0 where
  pub max_iterations : ℕ
  pub min_delta : F
  pub patience : ℕ
  pub early_stop : Option Bool

-- What the loop calls: `propose` raises SearchSpaceExhaustedError by `none`, and any other exception,
-- ProposalRejectedError among them, by `raises`. The writes to storage are taken not to raise.
pub record Calls (F : Type 0) (W : Type 0) : Type 0 where
  pub is_grid : Bool
  pub propose : W → ProposerContext F → Try (Option Proposal) × W
  pub run_iteration : W → Proposal → ℕ → Try (Measured F) × W
  pub persist : W → IterationOutcome F → W
  pub stage_analysis : W → ℕ → Measured F → W
  pub persist_experiment : W → Experiment → W

unfoldable pub early_stop_enabled : Option Bool → Bool → Bool
early_stop_enabled (some override) is_grid = override
early_stop_enabled none is_grid = not is_grid

-- sorted by the number, downwards, then by the mode
unfoldable pub dominant_modes : (String → String → Bool) → Dict ℕ → List String
dominant_modes mode_le counts =
    map (λ (mode, n). mode) (sort_with (λ (a, m) (b, n). ltb n m || (m == n && mode_le a b)) counts)

-- the transitions before the loop; `none` where it raises RuntimeError
abbrev pub moved_or : Experiment → Transition → Experiment
moved_or e (Transition.moved after) = after
moved_or e (Transition.illegal found legal) = e

unfoldable pub start : Experiment → Option Experiment
unfolding transition_to same_state
start e =
    let queued =
      if same_state e.state ExperimentState.draft
      then moved_or e (transition_to ExperimentState.queued e)
      else e in
    let running =
      if same_state queued.state ExperimentState.queued
      then moved_or queued (transition_to ExperimentState.running queued)
      else queued in
    if same_state running.state ExperimentState.running then some running else none

module _ {F : Type 0} (num : Numbers F) where
  -- the tail of patience + 1 values, its last apart
  unfoldable pub plateau : F → F → List F → Bool
  plateau min_delta best [] = false
  plateau min_delta best (latest ∷ []) = num.lt (num.sub latest best) min_delta
  plateau min_delta best (x ∷ y ∷ ys) =
      plateau min_delta (if num.lt best x then x else best) (y ∷ ys)

  unfoldable pub plateau_of : F → List F → Bool
  unfolding plateau
  plateau_of min_delta [] = false
  plateau_of min_delta (x ∷ xs) = plateau min_delta x xs

  unfoldable pub has_converged : List F → F → ℕ → Bool
  unfolding plateau_of
  has_converged values min_delta patience =
      if ltb (length values) (patience + 1)
      then false
      else plateau_of min_delta (drop (length values - (patience + 1)) values)

  unfoldable pub better : Measured F → Option (Measured F) → Option (Measured F)
  better m none = some m
  better m (some baseline) =
      if num.lt baseline.primary_value m.primary_value then some m else some baseline

  module _ {W : Type 0} (mode_le : String → String → Bool) (calls : Calls F W)
      (contract : Contract F) (run : RunSpec F) where
    abbrev pub context : ℕ → LoopState F → ProposerContext F
    context index s = record {
      iteration_index = index;
      history = s.iterations;
      failure_modes = s.prev_failure_modes;
    }

    abbrev pub outcome_of : ℕ → Proposal → Measured F → LoopState F → IterationOutcome F
    outcome_of index proposal m s = record {
      iteration = index;
      proposal = proposal;
      aggregate = m;
      decision = (evaluate_iteration num contract m s.baseline).outcome;
      failure_modes_consulted = s.prev_failure_modes;
    }

    -- an iteration that has run: its decision is against the baseline before it
    unfoldable pub after_iteration : ℕ → Proposal → Measured F → LoopState F → LoopState F
    unfolding better dominant_modes
    after_iteration index proposal m s = record {
      iterations = outcome_of index proposal m s ∷ s.iterations;
      baseline = better m s.baseline;
      recent_primary = s.recent_primary ++ (m.primary_value ∷ []);
      prev_failure_modes = dominant_modes mode_le m.failure_mode_counts;
    }

    unfoldable pub stops : LoopState F → Bool
    unfolding early_stop_enabled has_converged
    stops s =
        early_stop_enabled run.early_stop calls.is_grid
        && has_converged s.recent_primary run.min_delta run.patience

    -- after `_run_iteration`; `rest` is the iterations that are left
    unfoldable pub after_run :
        (LoopState F → W → Ended F W)
        → ℕ
        → Proposal
        → LoopState F
        → Try (Measured F) × W
        → Ended F W
    unfolding after_iteration stops
    after_run rest index proposal s (Try.raises error, w) = record {
      state = s;
      terminated_reason = Reason.raised error;
      world = w;
    }
    after_run rest index proposal s (Try.returns m, w) =
        let s' = after_iteration index proposal m s in
        let w' = calls.stage_analysis (calls.persist w (outcome_of index proposal m s)) index m in
        if stops s'
        then record { state = s'; terminated_reason = Reason.converged; world = w' }
        else rest s' w'

    -- the body of `for index in range(max_iter)`, with what was proposed
    unfoldable pub iterate_once :
        (LoopState F → W → Ended F W) → ℕ → LoopState F → Try (Option Proposal) × W → Ended F W
    unfolding after_run
    iterate_once rest index s (Try.raises error, w) = record {
      state = s;
      terminated_reason = Reason.raised error;
      world = w;
    }
    iterate_once rest index s (Try.returns none, w) = record {
      state = s;
      terminated_reason = Reason.search_space_exhausted;
      world = w;
    }
    iterate_once rest index s (Try.returns (some proposal), w) =
        after_run rest index proposal s (calls.run_iteration w proposal index)

    unfoldable pub iterate : ℕ → ℕ → LoopState F → W → Ended F W
    unfolding iterate_once
    iterate zero index s w = record {
      state = s;
      terminated_reason = Reason.max_iterations;
      world = w;
    }
    iterate (suc left) index s w =
        iterate_once (iterate left (index + 1)) index s (calls.propose w (context index s))

    abbrev pub fresh : LoopState F
    fresh = record {
      iterations = [];
      baseline = none;
      recent_primary = [];
      prev_failure_modes = [];
    }

    -- after the loop: the experiment is completed, unless an exception leaves the loop
    unfoldable pub finish : Reason → Experiment → Ended F W → Experiment × Ended F W
    unfolding transition_to
    finish (Reason.raised error) e ended = (e, ended)
    finish reason e ended =
        let completed = moved_or e (transition_to ExperimentState.completed e) in
        (completed, record ended { world = calls.persist_experiment ended.world completed })

    unfoldable pub run_started : Option Experiment → W → Option (Experiment × Ended F W)
    unfolding iterate finish
    run_started none w = none
    run_started (some e) w =
        let ended = iterate run.max_iterations 0 fresh (calls.persist_experiment w e) in
        some (finish ended.terminated_reason e ended)

    unfoldable pub run_iterations : Experiment → W → Option (Experiment × Ended F W)
    unfolding start run_started
    run_iterations e w = run_started (start e) w
