-- ===== src/Scenarios/Worker.antt =====
-- worker/scenario_runner.py: a worker that claims a batch of scenario jobs and runs each, and the
-- coordinator's drain of an iteration (optimization/coordinator.py waits on its barrier).
use selfevals.Prelude.{
  ℕ, zero, suc, ◌+◌, ◌==◌, String, Bool, false, Option, none, some, List, [], ◌∷◌, if◌then◌else◌,
  length,
}
use selfevals.Jobs.{RunJob}
use selfevals.Scenarios.{ScenarioJob, ScenarioJobStatus, mark_failed_or_dead_lettered}
use selfevals.Scenarios.Queue.{
  claim_scenario_jobs, finalize_scenario_job, barrier_counts, is_pending, is_held,
}

-- Running and grading a case, and storing its outcome, is an argument: the text of the error that
-- it raises, if it does.
abbrev pub Run : Type 0
Run = ScenarioJob → Option String

-- `_run_one_scenario_job`
unfoldable pub run_one : ℕ → Option String → ScenarioJob → List ScenarioJob → List ScenarioJob
run_one now none job rows = finalize_scenario_job job.id ScenarioJobStatus.succeeded none now rows
run_one now (some error) job rows =
    finalize_scenario_job job.id (mark_failed_or_dead_lettered error now job).0.status (some error)
      now rows

-- the loop over the claimed batch
unfoldable pub run_batch : Run → ℕ → List ScenarioJob → List ScenarioJob → List ScenarioJob
unfolding run_one
run_batch run now [] rows = rows
run_batch run now (job ∷ jobs) rows = run_batch run now jobs (run_one now (run job) job rows)

-- What a worker is given: the order of ids, its name, the size of a batch, the case runner.
pub record Worker : Type 0 where
  pub id_le : String → String → Bool
  pub name : String
  pub batch : ℕ
  pub run : Run
  pub now : ℕ
  pub lease_seconds : ℕ

module _ (w : Worker) (run_job_id : String) (iteration : ℕ) where
  -- `run_scenario_jobs_once` once the run job is found: the number of jobs processed, and the table
  -- afterwards; `locked` are the rows that other workers' claims hold. Building the loop from the
  -- run job's spec is taken not to raise.
  unfoldable pub run_claimed : (String → Bool) → List ScenarioJob → ℕ × List ScenarioJob
  unfolding run_batch
  run_claimed locked rows =
      let (jobs, rows') =
        claim_scenario_jobs w.id_le locked run_job_id iteration w.name (w.now + w.lease_seconds)
          w.batch rows in
      (length jobs, run_batch w.run w.now jobs rows')

  -- with the answer of `get_run_job`
  unfoldable pub run_scenario_jobs_once :
      Option RunJob → (String → Bool) → List ScenarioJob → ℕ × List ScenarioJob
  unfolding run_claimed
  run_scenario_jobs_once none locked rows = (0, rows)
  run_scenario_jobs_once (some job) locked rows = run_claimed locked rows

  -- `drain_self`: `while run_scenario_jobs_once(…): pass`, on fuel, with no other worker about
  unfoldable pub drain : Option RunJob → ℕ → List ScenarioJob → Option (List ScenarioJob)
  drain found zero rows = none
  drain found (suc fuel) rows =
      let (processed, rows') = run_scenario_jobs_once found (λ _. false) rows in
      let rest = drain found fuel rows' in if processed == 0 then some rows' else rest

-- `in_flight` of `_await_barrier`
unfoldable pub in_flight : String → ℕ → List ScenarioJob → ℕ
in_flight run_job_id iteration rows =
    barrier_counts run_job_id iteration is_pending rows
    + barrier_counts run_job_id iteration is_held rows
