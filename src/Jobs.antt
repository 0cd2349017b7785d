-- ===== src/Jobs.antt =====
-- schemas/job.py, `RunJob`: the durable envelope of one experiment run, and its transitions.
-- Datetimes are numbers; the spec payload is the text of its JSON.
pub mod Lease
pub mod Execute
pub mod Sweep
pub mod Exclusion
pub mod Recovery
pub mod Stale
pub mod Writes
pub mod Lifecycle
pub mod Spared
use selfevals.Prelude.{
  ℕ, String, Bool, true, false, Option, none, some, leb, if◌then◌else◌, not, ◌&&◌, is_some, refl,
}
use selfevals.Storage.{Entity}

pub data RunJobStatus : Type 0 where
  queued leased running succeeded failed cancelled dead_lettered : RunJobStatus

pub record RunJob : Type 0 where
  pub id : String
  pub workspace_id : String
  pub version : ℕ
  pub created_at : ℕ
  pub updated_at : ℕ
  pub deleted_at : Option ℕ
  pub experiment_id : String
  pub status : RunJobStatus
  pub attempt : ℕ
  pub max_attempts : ℕ
  pub lease_owner : Option String
  pub lease_expires_at : Option ℕ
  pub cancel_requested_at : Option ℕ
  pub started_at : Option ℕ
  pub finished_at : Option ℕ
  pub last_error : Option String
  pub spec_payload : String
  pub reps : ℕ

abbrev pub run_job : Entity RunJob
run_job = record {
  id = λ j. j.id;
  workspace_id = λ j. j.workspace_id;
  version = λ j. j.version;
  created_at = λ j. j.created_at;
  created = λ t j. record j { created_at = t };
  id-created = λ t j. refl;
  workspace_id-created = λ t j. refl;
}

unfoldable pub terminal_status : RunJobStatus → Bool
terminal_status RunJobStatus.succeeded = true
terminal_status RunJobStatus.failed = true
terminal_status RunJobStatus.cancelled = true
terminal_status RunJobStatus.dead_lettered = true
terminal_status _ = false

unfoldable pub is_terminal : RunJob → Bool
unfolding terminal_status
is_terminal j = terminal_status j.status

unfoldable pub should_cancel : RunJob → Bool
should_cancel j = is_some j.cancel_requested_at

unfoldable pub mark_cancel_requested : ℕ → RunJob → RunJob
unfolding is_terminal
mark_cancel_requested when j =
    if not (is_terminal j) && not (is_some j.cancel_requested_at)
    then record j { cancel_requested_at = some when }
    else j

unfoldable pub mark_leased : String → ℕ → RunJob → RunJob
mark_leased owner expires j = record j {
  status = RunJobStatus.leased;
  lease_owner = some owner;
  lease_expires_at = some expires;
}

-- `a or b` on an optional value
abbrev pub or_else : Option ℕ → ℕ → Option ℕ
or_else none b = some b
or_else (some a) b = some a

unfoldable pub mark_running : String → ℕ → ℕ → RunJob → RunJob
mark_running owner expires started j = record j {
  status = RunJobStatus.running;
  lease_owner = some owner;
  lease_expires_at = some expires;
  started_at = or_else j.started_at started;
}

unfoldable pub renew_lease : String → ℕ → RunJob → RunJob
renew_lease owner expires j = record j { lease_owner = some owner; lease_expires_at = some expires }

unfoldable pub mark_succeeded : ℕ → RunJob → RunJob
mark_succeeded when j = record j {
  status = RunJobStatus.succeeded;
  finished_at = some when;
  lease_owner = none;
  lease_expires_at = none;
  last_error = none;
}

unfoldable pub mark_cancelled : ℕ → RunJob → RunJob
mark_cancelled when j = record j {
  status = RunJobStatus.cancelled;
  finished_at = some when;
  lease_owner = none;
  lease_expires_at = none;
}

-- The `Literal["retry", "dead"]` of the failure methods.
pub data Verdict : Type 0 where
  retry dead : Verdict

unfoldable pub mark_failed_or_dead_lettered : String → ℕ → RunJob → RunJob × Verdict
mark_failed_or_dead_lettered error when j =
    if leb j.max_attempts j.attempt
    then (
      record j {
        last_error = some error;
        lease_owner = none;
        lease_expires_at = none;
        status = RunJobStatus.dead_lettered;
        finished_at = some when;
      },
      dead,
    )
    else (
      record j {
        last_error = some error;
        lease_owner = none;
        lease_expires_at = none;
        status = RunJobStatus.failed;
      },
      retry,
    )
