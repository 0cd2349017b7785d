-- ===== src/Experiments/Lifecycle.antt =====
-- What the transition table of schemas/experiment.py allows over any sequence of requests.
use selfevals.Prelude.{◌≡◌, ◌⊎◌, inl, inr, Bool, true, false, List, [], ◌∷◌, arith}
use selfevals.Experiments.{
  Experiment, ExperimentState, Transition, moved, illegal, transition_to, is_terminal, same_state,
  contains,
}

-- A caller that asks for one state after another, and goes on after an illegal request.
pub after : Transition → Experiment → Experiment
after (moved next) exp = next
after (illegal from to) exp = exp

unfoldable pub request_all : Experiment → List ExperimentState → Experiment
unfolding after
request_all exp [] = exp
request_all exp (s ∷ ss) = request_all (after (transition_to s exp) exp) ss

-- The states that an experiment has before and after each request, in order.
unfoldable pub visited : Experiment → List ExperimentState → List ExperimentState
unfolding after
visited exp [] = exp.state ∷ []
visited exp (s ∷ ss) = exp.state ∷ visited (after (transition_to s exp) exp) ss

step-is_terminal :
    (s : ExperimentState) (exp : Experiment)
    → is_terminal exp ≡ true
    → is_terminal (after (transition_to s exp) exp) ≡ true
unfolding transition_to is_terminal after
step-is_terminal s exp h = ground arith

-- A terminal experiment stays terminal, whatever states are asked for afterwards.
pub request_all-is_terminal :
    (exp : Experiment) (ss : List ExperimentState)
    → is_terminal exp ≡ true
    → is_terminal (request_all exp ss) ≡ true
unfolding request_all
request_all-is_terminal exp [] h = h
request_all-is_terminal exp (s ∷ ss) h =
    request_all-is_terminal (after (transition_to s exp) exp) ss (step-is_terminal s exp h)

-- states that only a started experiment can have
abbrev started : ExperimentState → Bool
started ExperimentState.draft = false
started ExperimentState.queued = false
started ExperimentState.aborted = false
started _ = true

step-started :
    (s : ExperimentState) (exp : Experiment)
    → started (after (transition_to s exp) exp).state ≡ true
    → (started exp.state ≡ true)
      ⊎ (same_state ExperimentState.running (after (transition_to s exp) exp).state ≡ true)
unfolding transition_to after
step-started s exp h = ground arith

visited-head :
    (exp : Experiment) (ss : List ExperimentState)
    → same_state ExperimentState.running exp.state ≡ true
    → contains ExperimentState.running (visited exp ss) ≡ true
unfolding visited contains
visited-head exp [] h = ground arith
visited-head exp (s ∷ ss) h = ground arith

started-visited :
    (exp : Experiment) (ss : List ExperimentState)
    → started (request_all exp ss).state ≡ true
    → (started exp.state ≡ true) ⊎ (contains ExperimentState.running (visited exp ss) ≡ true)
unfolding request_all visited contains
started-visited exp [] h = inl h
started-visited exp (s ∷ ss) h = elim (started-visited (after (transition_to s exp) exp) ss h) [
  | inl e ↦ elim (step-started s exp e) [
    | inl f ↦ inl f
    | inr f ↦ inr (ground (arith, visited-head (after (transition_to s exp) exp) ss f))
  ]
  | inr e ↦ inr (ground arith)
]

-- An experiment that starts as a draft and is completed or superseded after some requests has
-- been running at some point between.
pub completed-visited_running :
    (exp : Experiment) (ss : List ExperimentState)
    → exp.state ≡ ExperimentState.draft
    → ((request_all exp ss).state ≡ ExperimentState.completed)
      ⊎ ((request_all exp ss).state ≡ ExperimentState.superseded)
    → contains ExperimentState.running (visited exp ss) ≡ true
completed-visited_running exp ss h done = ground (arith, started-visited exp ss)
