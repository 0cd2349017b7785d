-- ===== src/Tests/Scenarios.antt =====
-- Scenario jobs at concrete rows: three cases of one iteration, one of which fails.
use selfevals.Prelude.{
  ◌&&◌, not, String, str_eq, ◌≡◌, ◌≢◌, refl, Bool, true, false, none, some, List, [], ◌∷◌, arith,
  All, if◌then◌else◌,
}
use selfevals.Jobs.{RunJob, RunJobStatus}
use selfevals.Scenarios.{ScenarioJob, ScenarioJobStatus, is_terminal}
use selfevals.Scenarios.Queue.{
  claim_scenario_jobs, claimable, frontier, in_iteration, same_unit, insert_scenario_jobs, contains,
}
use selfevals.Scenarios.Worker.{Worker, drain, in_flight}
use selfevals.Scenarios.Planning.{planned, plan_scenario_jobs, IsUnique, plan-plan}
use selfevals.Scenarios.Claims.{claim-claim}
use selfevals.Scenarios.Draining.{IsReady}
use selfevals.Scenarios.Drained.{drain-clears}

abbrev job : RunJob
job = record {
  id = "run";
  workspace_id = "ws";
  version = 1;
  created_at = 0;
  updated_at = 0;
  deleted_at = none;
  experiment_id = "exp";
  status = RunJobStatus.running;
  attempt = 1;
  max_attempts = 2;
  lease_owner = some "coordinator";
  lease_expires_at = some 300;
  cancel_requested_at = none;
  started_at = some 1;
  finished_at = none;
  last_error = none;
  spec_payload = "{}";
  reps = 2;
}

abbrev row : String → ScenarioJob
row key = record {
  id = key;
  workspace_id = "ws";
  run_job_id = "run";
  experiment_id = "exp";
  iteration = 0;
  case_id = key;
  reps = 2;
  status = ScenarioJobStatus.pending;
  attempt = 0;
  max_attempts = 2;
  lease_until = none;
  worker_id = none;
  error = none;
  parameter_overrides = "";
  started_at = none;
  finished_at = none;
}

abbrev rows : List ScenarioJob
rows = row "a" ∷ row "b" ∷ row "c" ∷ []

-- `plan_scenario_jobs` twice: the second coordinator makes other ids
abbrev cases : List String
cases = "a" ∷ "b" ∷ "b" ∷ []

plan-plan_example :
    (plan_scenario_jobs job 0 "" 2
        (λ _. "fresh")
        cases
        (plan_scenario_jobs job 0 "" 2 (λ c. c) cases []).0
      ≡ ((plan_scenario_jobs job 0 "" 2 (λ c. c) cases []).0, 0))
    × IsUnique (plan_scenario_jobs job 0 "" 2 (λ c. c) cases []).0
plan-plan_example = plan-plan job 0 (λ c. c) (λ _. "fresh") "" "" 2 2 cases [] tt

two_planned : plan_scenario_jobs job 0 "" 2 (λ c. c) cases [] ≡ (row "b" ∷ row "a" ∷ [], 2)
unfolding plan_scenario_jobs planned insert_scenario_jobs same_unit
two_planned = refl

-- rows come in the order of the table
abbrev by_id : String → String → Bool
by_id a b = true

claim-claim_example :
    All
      (λ a.
        All
          (λ b. a.id ≢ b.id)
          (claim_scenario_jobs by_id
            (λ _. false)
            "run"
            0
            "w2"
            301
            2
            (claim_scenario_jobs by_id (λ _. false) "run" 0 "w1" 300 2 rows).1).0)
      (claim_scenario_jobs by_id (λ _. false) "run" 0 "w1" 300 2 rows).0
    × All
        (λ a.
          All
            (λ b. a.id ≢ b.id)
            (claim_scenario_jobs by_id
              (contains (frontier by_id (λ _. false) "run" 0 2 rows))
              "run"
              0
              "w2"
              301
              2
              rows).0)
        (claim_scenario_jobs by_id (λ _. false) "run" 0 "w1" 300 2 rows).0
claim-claim_example = claim-claim by_id "run" 0 "w1" "w2" 300 301 2 2 rows (λ _. false) (λ _. false)

first_two : frontier by_id (λ _. false) "run" 0 2 rows ≡ "a" ∷ "b" ∷ []
unfolding frontier claimable in_iteration
first_two = refl

-- a worker whose case `b` fails, two jobs at a time
abbrev worker : Worker
worker = record {
  id_le = by_id;
  name = "w1";
  batch = 2;
  run = λ j. if str_eq j.case_id "b" then some "boom" else none;
  now = 100;
  lease_seconds = 300;
}

rows-IsReady : IsReady "run" 0 rows
unfolding in_iteration
rows-IsReady = record { keyed = ground arith; attempts = ground arith; free = ground arith }

drain-clears_example :
    (out : List ScenarioJob) × (drain worker "run" 0 (some job) 7 rows ≡ some out)
    × (in_flight "run" 0 out ≡ 0)
    × All (λ j. (in_iteration "run" 0 j && not (is_terminal j)) ≡ false) out
drain-clears_example =
    drain-clears worker "run" 0 job 7 rows rows-IsReady (omega arith) (omega arith)
