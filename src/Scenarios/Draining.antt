-- ===== src/Scenarios/Draining.antt =====
-- A worker that drains an iteration alone ends, and leaves the coordinator's barrier clear
-- (worker/scenario_runner.py, optimization/coordinator.py).
use selfevals.Prelude.{
  ℕ, ◌+◌, ◌-◌, ◌<◌, String, ◌≡◌, refl, ap, ◌∙◌, Bool, true, false, Option, none, some, List, [],
  ◌∷◌, arith, Bool-cases, inl, inr, All, All-select_of, All-weaken, select, map, length, sum,
}
use selfevals.Scenarios.{ScenarioJob, ScenarioJobStatus}
use selfevals.Scenarios.Queue.{
  contains, in_iteration, frontier, update_claimed, claim_scenario_jobs, finalize_scenario_job,
}
use selfevals.Scenarios.Batches.{
  IsKeyed, HasAttempt, IsFree, IsCopy, All-map_of, map-IsKeyed, run_batch-IsKeyed,
  run_batch-HasAttempt, run_batch-IsFree, frontier-attempt, claim-HeldIn,
}
use selfevals.Scenarios.Worker.{Worker, run_one, run_batch, run_claimed}

-- The attempts that the rows of a table have left: the measure that a batch makes fall.
abbrev pub attempts_left : List ScenarioJob → ℕ
attempts_left rows = sum (map (λ j. j.max_attempts - j.attempt) rows)

-- a finalized row keeps its id, its unit and its attempts
attempts-finalize :
    (key : String) (s : ScenarioJobStatus) (e : Option String) (at : ℕ) (rows : List ScenarioJob)
    → attempts_left (finalize_scenario_job key s e at rows) ≡ attempts_left rows
unfolding finalize_scenario_job
attempts-finalize key s e at [] = refl
attempts-finalize key s e at (j ∷ js) = ground (arith, attempts-finalize key s e at js)

attempts-run_one :
    (now : ℕ) (r : Option String) (job : ScenarioJob) (rows : List ScenarioJob)
    → attempts_left (run_one now r job rows) ≡ attempts_left rows
unfolding run_one
attempts-run_one now none job rows = attempts-finalize _ _ _ _ rows
attempts-run_one now (some x) job rows = attempts-finalize _ _ _ _ rows

attempts-run_batch :
    (run : ScenarioJob → Option String) (now : ℕ) (jobs rows : List ScenarioJob)
    → attempts_left (run_batch run now jobs rows) ≡ attempts_left rows
unfolding run_batch
attempts-run_batch run now [] rows = refl
attempts-run_batch run now (j ∷ js) rows =
    attempts-run_batch run now js (run_one now (run j) j rows) ∙ attempts-run_one now (run j) j rows

module _ (id_le : String → String → Bool) (run : String) (n : ℕ) where
  attempts-update :
      (ids : List String) (worker : String) (until : ℕ) (rows : List ScenarioJob)
      → All (λ j. contains ids j.id ≡ true → j.attempt < j.max_attempts) rows
      → attempts_left (update_claimed id_le (λ _. false) run n ids worker until rows)
          + length (
              select
                (λ j. contains ids j.id)
                (update_claimed id_le (λ _. false) run n ids worker until rows))
        ≡ attempts_left rows
  unfolding update_claimed
  attempts-update ids worker until [] h = omega arith
  attempts-update ids worker until (j ∷ js) h = elim (Bool-cases (contains ids j.id)) [
    | inl e ↦
        let left : j.attempt < j.max_attempts = h.0 e in
        rw e (rw e (omega (arith, attempts-update ids worker until js h.1, left)))
    | inr e ↦ rw e (rw e (omega (arith, attempts-update ids worker until js h.1)))
  ]

-- Before and after each batch of a worker that is alone: ids are keys, every pending row of the
-- iteration has an attempt left, and no row of it is held.
pub record IsReady (run : String) (n : ℕ) (rows : List ScenarioJob) : Type 0 where
  pub keyed : IsKeyed rows
  pub attempts : All (HasAttempt run n) rows
  pub free : All (IsFree run n) rows

module _ (w : Worker) (run : String) (n : ℕ) where
  abbrev pub ids : List ScenarioJob → List String
  ids rows = frontier w.id_le (λ _. false) run n w.batch rows

  abbrev pub claimed_table : List ScenarioJob → List ScenarioJob
  claimed_table rows =
      update_claimed w.id_le (λ _. false) run n (ids rows) w.name (w.now + w.lease_seconds) rows

  abbrev pub batch_of : List ScenarioJob → List ScenarioJob
  batch_of rows = select (λ j. contains (ids rows) j.id) (claimed_table rows)

  abbrev pub once : List ScenarioJob → ℕ × List ScenarioJob
  once rows = run_claimed w run n (λ _. false) rows

  pub once_lem :
      (rows : List ScenarioJob)
      → once rows
        ≡ (length (batch_of rows), run_batch w.run w.now (batch_of rows) (claimed_table rows))
  unfolding run_claimed claim_scenario_jobs
  once_lem rows = refl

  claimed_table-IsKeyed : (rows : List ScenarioJob) → IsKeyed rows → IsKeyed (claimed_table rows)
  unfolding update_claimed
  claimed_table-IsKeyed rows k = map-IsKeyed _ rows (λ r. ground arith) k

  claimed_table-attempts :
      (rows : List ScenarioJob)
      → All (HasAttempt run n) rows
      → All (HasAttempt run n) (claimed_table rows)
  unfolding update_claimed in_iteration
  claimed_table-attempts rows h =
      All-map_of (HasAttempt run n) (HasAttempt run n) _ rows (λ r k i p. ground (arith, k)) h

  -- the batch holds copies of the rows of the table
  batch-IsCopy :
      (test : ScenarioJob → Bool) (rows : List ScenarioJob)
      → IsKeyed rows
      → All (λ job. All (IsCopy job) rows) (select test rows)
  batch-IsCopy test rows keyed =
      All-select_of test (λ job. All (IsCopy job) rows) rows
        (All-weaken (λ j. All (λ r. r.id ≡ j.id → r ≡ j) rows) _ rows
          (λ j same _.
            All-weaken (λ r. r.id ≡ j.id → r ≡ j) (IsCopy j) rows
              (λ r k p. (
                ap (λ (s : ScenarioJob). s.attempt) (k p),
                ap (λ (s : ScenarioJob). s.max_attempts) (k p),
              ))
              same)
          keyed)

  pub once-IsReady : (rows : List ScenarioJob) → IsReady run n rows → IsReady run n (once rows).1
  once-IsReady rows s = rw once_lem (record {
    keyed =
        run_batch-IsKeyed w.run w.now (batch_of rows) (claimed_table rows)
          (claimed_table-IsKeyed rows s.keyed);
    attempts =
        run_batch-HasAttempt run n w.run w.now (batch_of rows) (claimed_table rows)
          (claimed_table-attempts rows s.attempts)
          (batch-IsCopy _ (claimed_table rows) (claimed_table-IsKeyed rows s.keyed));
    free = run_batch-IsFree run n w.run w.now (batch_of rows) (claimed_table rows) (
        claim-HeldIn w.id_le run n (ids rows) w.name (w.now + w.lease_seconds) rows
          (claimed_table rows) refl s.free);
  })

  -- each job of a batch uses up one attempt
  pub once-attempts :
      (rows : List ScenarioJob)
      → IsReady run n rows
      → attempts_left (once rows).1 + (once rows).0 ≡ attempts_left rows
  once-attempts rows s = rw once_lem (
      omega (
        arith,
        attempts-run_batch w.run w.now (batch_of rows) (claimed_table rows),
        attempts-update w.id_le run n (ids rows) w.name (w.now + w.lease_seconds) rows
            (frontier-attempt w.id_le run n w.batch rows s.keyed s.attempts),
      ))
