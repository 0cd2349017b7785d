-- ===== src/Experiments.antt =====
-- schemas/experiment.py: the state machine of an experiment.
pub mod Lifecycle
use selfevals.Prelude.{refl, String, ℕ, Bool, true, false, List, [], ◌∷◌, ◌||◌, ◌==◌, if◌then◌else◌}
use selfevals.Storage.{Entity}

pub data ExperimentState : Type 0 where
  draft queued running paused completed aborted superseded : ExperimentState

-- `_LEGAL_TRANSITIONS`
unfoldable pub legal_transitions : ExperimentState → List ExperimentState
legal_transitions ExperimentState.draft = ExperimentState.queued ∷ ExperimentState.aborted ∷ []
legal_transitions ExperimentState.queued =
    ExperimentState.running ∷ ExperimentState.aborted ∷ ExperimentState.draft ∷ []
legal_transitions ExperimentState.running =
    ExperimentState.paused ∷ ExperimentState.completed ∷ ExperimentState.aborted ∷ []
legal_transitions ExperimentState.paused =
    ExperimentState.running ∷ ExperimentState.aborted ∷ ExperimentState.completed ∷ []
legal_transitions ExperimentState.completed = ExperimentState.superseded ∷ []
legal_transitions ExperimentState.aborted = []
legal_transitions ExperimentState.superseded = []

abbrev pub code : ExperimentState → ℕ
code ExperimentState.draft = 0
code ExperimentState.queued = 1
code ExperimentState.running = 2
code ExperimentState.paused = 3
code ExperimentState.completed = 4
code ExperimentState.aborted = 5
code ExperimentState.superseded = 6

unfoldable pub same_state : ExperimentState → ExperimentState → Bool
same_state a b = code a == code b

unfoldable pub contains : ExperimentState → List ExperimentState → Bool
unfolding same_state
contains s [] = false
contains s (t ∷ ts) = same_state s t || contains s ts

-- The columns of an `Experiment` that its lifecycle reads and writes.
pub record Experiment : Type 0 where
  pub id : String
  pub workspace_id : String
  pub version : ℕ
  pub created_at : ℕ
  pub state : ExperimentState

abbrev pub experiment : Entity Experiment
experiment = record {
  id = λ x. x.id;
  workspace_id = λ x. x.workspace_id;
  version = λ x. x.version;
  created_at = λ x. x.created_at;
  created = λ t x. record x { created_at = t };
  id-created = λ t x. refl;
  workspace_id-created = λ t x. refl;
}

-- `IllegalStateTransitionError`, with the two states of its message, as a value.
pub data Transition : Type 0 where
  moved : Experiment → Transition
  illegal : ExperimentState → ExperimentState → Transition

unfoldable pub transition_to : ExperimentState → Experiment → Transition
unfolding contains legal_transitions
transition_to new exp =
    if contains new (legal_transitions exp.state)
    then moved (record exp { state = new })
    else illegal exp.state new

unfoldable pub terminal_state : ExperimentState → Bool
terminal_state ExperimentState.completed = true
terminal_state ExperimentState.aborted = true
terminal_state ExperimentState.superseded = true
terminal_state _ = false

unfoldable pub is_terminal : Experiment → Bool
unfolding terminal_state
is_terminal exp = terminal_state exp.state
