-- ===== src/Scenarios.antt =====
-- schemas/job.py, `ScenarioJob`: one case of one iteration of a run, and its transitions.
pub mod Queue
pub mod Worker
pub mod Planning
pub mod Claims
pub mod Batches
pub mod Draining
pub mod Drained
use selfevals.Prelude.{ℕ, String, Bool, true, false, Option, none, some, leb, if◌then◌else◌}
use selfevals.Jobs.{Verdict, retry, dead, or_else}

pub data ScenarioJobStatus : Type 0 where
  pending claimed running succeeded failed dead_lettered cancelled : ScenarioJobStatus

pub record ScenarioJob : Type 0 where
  pub id : String
  pub workspace_id : String
  pub run_job_id : String
  pub experiment_id : String
  pub iteration : ℕ
  pub case_id : String
  pub reps : ℕ
  pub status : ScenarioJobStatus
  pub attempt : ℕ
  pub max_attempts : ℕ
  pub lease_until : Option ℕ
  pub worker_id : Option String
  pub error : Option String
  pub parameter_overrides : String
  pub started_at : Option ℕ
  pub finished_at : Option ℕ

unfoldable pub is_terminal : ScenarioJob → Bool
is_terminal j = elim j.status [
  | ScenarioJobStatus.succeeded ↦ true
  | ScenarioJobStatus.failed ↦ true
  | ScenarioJobStatus.dead_lettered ↦ true
  | ScenarioJobStatus.cancelled ↦ true
  | _ ↦ false
]

unfoldable pub mark_claimed : String → ℕ → ScenarioJob → ScenarioJob
mark_claimed worker until j = record j {
  status = ScenarioJobStatus.claimed;
  worker_id = some worker;
  lease_until = some until;
}

unfoldable pub mark_running : String → ℕ → ℕ → ScenarioJob → ScenarioJob
mark_running worker until started j = record j {
  status = ScenarioJobStatus.running;
  worker_id = some worker;
  lease_until = some until;
  started_at = or_else j.started_at started;
}

unfoldable pub mark_succeeded : ℕ → ScenarioJob → ScenarioJob
mark_succeeded when j = record j {
  status = ScenarioJobStatus.succeeded;
  finished_at = some when;
  worker_id = none;
  lease_until = none;
  error = none;
}

unfoldable pub mark_cancelled : ℕ → ScenarioJob → ScenarioJob
mark_cancelled when j = record j {
  status = ScenarioJobStatus.cancelled;
  finished_at = some when;
  worker_id = none;
  lease_until = none;
}

unfoldable pub mark_failed_or_dead_lettered : String → ℕ → ScenarioJob → ScenarioJob × Verdict
mark_failed_or_dead_lettered error when j =
    if leb j.max_attempts j.attempt
    then (
      record j {
        error = some error;
        worker_id = none;
        lease_until = none;
        status = ScenarioJobStatus.dead_lettered;
        finished_at = some when;
      },
      dead,
    )
    else (
      record j {
        error = some error;
        worker_id = none;
        lease_until = none;
        status = ScenarioJobStatus.pending;
      },
      retry,
    )
