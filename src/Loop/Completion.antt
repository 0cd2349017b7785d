-- ===== src/Loop/Completion.antt =====
-- A run of the loop that may start comes to its end (optimization/loop.py, `_run_iterations`).
use selfevals.Prelude.{String, ◌≡◌, refl, ap, Bool, ◌⊎◌, inl, inr, some}
use selfevals.Experiments.{
  ExperimentState, Experiment, transition_to, same_state, legal_transitions, contains,
}
use selfevals.Decision.{Numbers, Contract}
use selfevals.Loop.{Ended, Reason, RunSpec, Calls, moved_or, finish, start}

-- the states in which a run may start
abbrev pub Startable : ExperimentState → Type 0
Startable s =
    (s ≡ ExperimentState.draft) ⊎ (s ≡ ExperimentState.queued) ⊎ (s ≡ ExperimentState.running)

pub start-running :
    (e : Experiment)
    → Startable e.state
    → start e ≡ some (record e { state = ExperimentState.running })
unfolding start transition_to same_state legal_transitions contains
start-running e (inl h) = rw h refl
start-running e (inr (inl h)) = rw h refl
start-running e (inr (inr h)) = rw h refl

-- what becomes of a running experiment: an exception that leaves the loop leaves it running
abbrev pub state_after : Reason → ExperimentState
state_after (Reason.raised error) = ExperimentState.running
state_after _ = ExperimentState.completed

module _ {F : Type 0} (num : Numbers F) {W : Type 0} (mode_le : String → String → Bool)
    (calls : Calls F W) (contract : Contract F) (run : RunSpec F) where
  abbrev closing : Experiment → Ended F W → W
  closing e ended =
      calls.persist_experiment ended.world (moved_or e (transition_to ExperimentState.completed e))

  -- `finish` changes nothing of an end but the world
  pub finish-state_after :
      (r : Reason) (e : Experiment) (ended : Ended F W)
      → e.state ≡ ExperimentState.running
      → (w : W) × (finish num mode_le calls contract run r e ended
          ≡ (record e { state = state_after r }, record ended { world = w }))
  unfolding finish transition_to same_state legal_transitions contains
  finish-state_after (Reason.raised error) e ended h =
      (ended.world, ap (λ s. (record e { state = s }, ended)) h)
  finish-state_after Reason.search_space_exhausted e ended h = (closing e ended, rw h refl)
  finish-state_after Reason.converged e ended h = (closing e ended, rw h refl)
  finish-state_after Reason.max_iterations e ended h = (closing e ended, rw h refl)
