-- ===== src/Loop/Coverage.antt =====
-- A run that may not stop early tries every proposal that there is room for (optimization/loop.py,
-- with a proposer that walks a list, as ManualProposer and GridProposer do).
use selfevals.Prelude.{
  ℕ, zero, suc, ◌+◌, String, ◌≡◌, refl, ap, ◌∙◌, Bool, false, Option, none, some, List, [], ◌∷◌,
  arith, map, take, drop, get_elem?,
}
use selfevals.Experiments.{ExperimentState, Experiment}
use selfevals.Decision.{Numbers, Contract, Measured}
use selfevals.Loop.{
  Proposal, ProposerContext, IterationOutcome, LoopState, Ended, RunSpec, Calls, Try, after_run,
  early_stop_enabled, context, after_iteration, stops, iterate_once, iterate, fresh, run_started,
  run_iterations,
}
use selfevals.Loop.Completion.{Startable, start-running, state_after, finish-state_after}

drop-get_none : (i : ℕ) (ps : List Proposal) → get_elem? ps i ≡ none → drop i ps ≡ []
drop-get_none zero [] h = refl
drop-get_none (suc i) [] h = refl
drop-get_none zero (p ∷ ps) h = cc
drop-get_none (suc i) (p ∷ ps) h = drop-get_none i ps h

drop-get_some :
    (i : ℕ) (ps : List Proposal) (p : Proposal)
    → get_elem? ps i ≡ some p
    → drop i ps ≡ p ∷ drop (i + 1) ps
drop-get_some i [] p h = cc
drop-get_some zero (q ∷ ps) p h = let e : q ≡ p = cc in ap (λ x. x ∷ ps) e
drop-get_some (suc i) (q ∷ ps) p h =
    let e : suc i + 1 ≡ suc (i + 1) = omega arith in rw e (drop-get_some i ps p h)

-- the newest first
abbrev pub onto : {A : Type 0} → List A → List A → List A
onto [] done = done
onto (x ∷ xs) done = onto xs (x ∷ done)

abbrev pub proposals : {F : Type 0} → List (IterationOutcome F) → List Proposal
proposals its = map (λ it. it.proposal) its

-- The calls of a loop whose proposer walks a list, while the world stays good.
pub record IsWalk {F : Type 0} {W : Type 0} (calls : Calls F W) (Good : W → Type 0)
    (ps : List Proposal) : Type 0 where
  pub proposes :
      (w : W) (c : ProposerContext F)
      → Good w
      → (calls.propose w c).0 ≡ Try.returns (get_elem? ps c.iteration_index)
  pub runs :
      (w : W) (p : Proposal) (i : ℕ)
      → Good w
      → (m : Measured F) × ((calls.run_iteration w p i).0 ≡ Try.returns m)
  pub after_propose : (w : W) (c : ProposerContext F) → Good w → Good (calls.propose w c).1
  pub after_run : (w : W) (p : Proposal) (i : ℕ) → Good w → Good (calls.run_iteration w p i).1
  pub after_persist : (w : W) (it : IterationOutcome F) → Good w → Good (calls.persist w it)
  pub after_staging : (w : W) (i : ℕ) (m : Measured F) → Good w → Good (calls.stage_analysis w i m)
  pub after_experiment : (w : W) (e : Experiment) → Good w → Good (calls.persist_experiment w e)

module _ {F : Type 0} (num : Numbers F) {W : Type 0} (mode_le : String → String → Bool)
    (calls : Calls F W) (contract : Contract F) (run : RunSpec F) (Good : W → Type 0)
    (ps : List Proposal) (walk : IsWalk calls Good ps)
    (never : early_stop_enabled run.early_stop calls.is_grid ≡ false) where
  -- an end without an exception, with the proposals of its iterations
  abbrev Covered : List Proposal → Ended F W → Type 0
  Covered tried ended =
      (proposals ended.state.iterations ≡ tried)
      × (state_after ended.terminated_reason ≡ ExperimentState.completed)

  after_run-covers :
      (rest : LoopState F → W → Ended F W) (index : ℕ) (p : Proposal) (s : LoopState F)
      (tried : List Proposal) (ran : Try (Measured F) × W)
      → ((s' : LoopState F) (w : W)
          → Good w
          → proposals s'.iterations ≡ p ∷ proposals s.iterations
          → Covered tried (rest s' w))
      → (m : Measured F) × (ran.0 ≡ Try.returns m)
      → Good ran.1
      → Covered tried (after_run num mode_le calls contract run rest index p s ran)
  unfolding after_run stops after_iteration
  after_run-covers rest index p s tried (Try.raises error, w) more (m, h) good = cc
  after_run-covers rest index p s tried (Try.returns m, w) more h good =
      rw never (more _ _ (walk.after_staging _ _ _ (walk.after_persist _ _ good)) refl)

  iterate_once-covers :
      (rest : LoopState F → W → Ended F W) (index left : ℕ) (s : LoopState F)
      (proposed : Try (Option Proposal) × W)
      → ((s' : LoopState F) (w : W)
          → Good w
          → Covered (onto (take left (drop (index + 1) ps)) (proposals s'.iterations)) (rest s' w))
      → proposed.0 ≡ Try.returns (get_elem? ps index)
      → Good proposed.1
      → Covered
          (onto (take (suc left) (drop index ps)) (proposals s.iterations))
          (iterate_once num mode_le calls contract run rest index s proposed)
  unfolding iterate_once
  iterate_once-covers rest index left s (Try.raises error, w) more h good = cc
  iterate_once-covers rest index left s (Try.returns none, w) more h good =
      let end : get_elem? ps index ≡ none = cc in rw (drop-get_none index ps end) (refl, refl)
  iterate_once-covers rest index left s (Try.returns (some p), w) more h good =
      let found : get_elem? ps index ≡ some p = cc in
      rw (drop-get_some index ps p found) (
        after_run-covers rest index p s
          (onto (take left (drop (index + 1) ps)) (p ∷ proposals s.iterations))
          (calls.run_iteration w p index) (λ s' w' fine same. rw (← same) (more s' w' fine))
          (walk.runs w p index good) (walk.after_run w p index good))

  iterate-covers :
      (left index : ℕ) (s : LoopState F) (w : W)
      → Good w
      → Covered
          (onto (take left (drop index ps)) (proposals s.iterations))
          (iterate num mode_le calls contract run left index s w)
  unfolding iterate
  iterate-covers zero index s w good = (refl, refl)
  iterate-covers (suc left) index s w good =
      let now = context num mode_le calls contract run index s in
      iterate_once-covers (iterate num mode_le calls contract run left (index + 1)) index left s
        (calls.propose w now) (iterate-covers left (index + 1)) (walk.proposes w now good)
        (walk.after_propose w now good)

  -- A run that may not stop early, as a grid's is unless it is overridden, with a proposer that walks
  -- a list of proposals, and iterations that do not raise, while the world is good, from a good world:
  -- the iterations that it makes are those of the list's first `max_iterations` proposals, in order,
  -- each exactly once (the newest stands first), and the experiment is completed; a plateau skips none
  -- of them.
  pub run_iterations-covers :
      (e : Experiment) (w : W)
      → Good w
      → Startable e.state
      → (ended : Ended F W) × (run_iterations num mode_le calls contract run e w
          ≡ some (record e { state = ExperimentState.completed }, ended))
        × (proposals ended.state.iterations ≡ onto (take run.max_iterations ps) [])
  unfolding run_iterations run_started
  run_iterations-covers e w good h =
      let started : Experiment = record e { state = ExperimentState.running } in
      let first = calls.persist_experiment w started in
      let ended =
        iterate num mode_le calls contract run run.max_iterations 0
          (fresh num mode_le calls contract run) first in
      let (tried, whole) =
        iterate-covers run.max_iterations 0 (fresh num mode_le calls contract run) first
          (walk.after_experiment w started good) in
      let (last, closed) =
        finish-state_after num mode_le calls contract run ended.terminated_reason started ended
          refl in
      (
        record ended { world = last },
        rw (start-running e h) (
            ap some
              (closed ∙ ap (λ st. (record e { state = st }, record ended { world = last })) whole)),
        tried,
      )
