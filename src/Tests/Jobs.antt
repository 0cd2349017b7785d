-- ===== src/Tests/Jobs.antt =====
-- Run jobs at concrete rows: one queued job of a workspace, its leases, failures and sweeps.
use selfevals.Prelude.{
  String, ◌≢◌, ◌+◌, ◌≡◌, ◌≢◌, refl, true, none, some, List, [], ◌∷◌, arith, inl,
}
use selfevals.Storage.{ok, find_row, load, upsert, put_entity, get_entity}
use selfevals.Storage.Laws.{get-put_all}
use selfevals.Experiments.{Experiment, ExperimentState, transition_to, contains}
use selfevals.Experiments.Lifecycle.{request_all, visited, completed-visited_running}
use selfevals.Jobs.{
  RunJob, RunJobStatus, run_job, should_cancel, is_terminal, mark_failed_or_dead_lettered,
  mark_leased, mark_running, mark_succeeded,
}
use selfevals.Jobs.Lease.{
  Db, put_job, leased_row, lease_run_job, lease_is_held, mark_run_job_failed, mark_run_job_running,
  mark_run_job_succeeded,
}
use selfevals.Jobs.Exclusion.{lease-lease}
use selfevals.Jobs.Recovery.{lease-mark_failed}
use selfevals.Jobs.Lifecycle.{System, overwrite}
use selfevals.Jobs.Stale.{mark_succeeded-mark_failed}
use selfevals.Jobs.Sweep.{Swept, sweep_once, get_run_job, expired_run_job_leases, is_expired}
use selfevals.Jobs.Spared.{get-sweep_once}
use selfevals.Jobs.Execute.{Runner, Times, execute_run_job}

abbrev queued_job : RunJob
queued_job = record {
  id = "job_1";
  workspace_id = "ws";
  version = 1;
  created_at = 3;
  updated_at = 3;
  deleted_at = none;
  experiment_id = "exp_1";
  status = RunJobStatus.queued;
  attempt = 0;
  max_attempts = 3;
  lease_owner = none;
  lease_expires_at = none;
  cancel_requested_at = none;
  started_at = none;
  finished_at = none;
  last_error = none;
  spec_payload = "{}";
  reps = 1;
}

abbrev draft : Experiment
draft = record {
  id = "exp_1";
  workspace_id = "ws";
  version = 1;
  created_at = 3;
  state = ExperimentState.draft;
}

abbrev other_job : RunJob
other_job = record queued_job { id = "job_2" }

abbrev newer : RunJob
newer = record queued_job { version = 3 }

abbrev rows : List RunJob
rows = queued_job ∷ other_job ∷ []

abbrev db : Db
db = record { jobs = rows; experiments = draft ∷ [] }

abbrev leased_job : RunJob
leased_job = leased_row "worker" 400 queued_job

abbrev leased_db : Db
leased_db = record db { jobs = leased_job ∷ other_job ∷ [] }

-- what is written carries another time of creation than the row
abbrev redated : RunJob
redated = record leased_job { created_at = 900 }

get-put_all_example :
    (get_entity run_job "ws" "job_1" (leased_job ∷ other_job ∷ []) ≡ ok leased_job)
    × ((at key : String)
        → "job_1" ≢ key
        → get_entity run_job at key (leased_job ∷ other_job ∷ []) ≡ get_entity run_job at key rows)
unfolding put_entity find_row upsert mark_leased
get-put_all_example = get-put_all run_job "ws" redated rows (leased_job ∷ other_job ∷ []) refl

granted : lease_run_job "ws" "job_1" "worker" 100 300 db ≡ ok (some leased_job, leased_db)
unfolding lease_run_job get_entity load put_job put_entity find_row upsert is_terminal lease_is_held
    mark_leased
granted = refl

lease-lease_example :
    (lease_run_job "ws" "job_1" "rival" 399 300 leased_db ≡ ok (none, leased_db))
    × (leased_job.lease_owner ≡ some "worker")
    × ((before : RunJob) × (get_entity run_job "ws" "job_1" db.jobs ≡ ok before)
        × (leased_job.attempt ≡ before.attempt + 1))
lease-lease_example =
    lease-lease "ws" "job_1" "worker" 100 300 db leased_job leased_db "rival" 399 300 granted
      (omega arith)

abbrev failed_job : RunJob
failed_job = record leased_job {
  last_error = some "boom";
  lease_owner = none;
  lease_expires_at = none;
  status = RunJobStatus.failed;
}

abbrev failed_db : Db
failed_db = record leased_db { jobs = failed_job ∷ other_job ∷ [] }

failure : mark_run_job_failed "boom" 150 leased_job leased_db ≡ ok (failed_job, true, failed_db)
unfolding mark_run_job_failed mark_failed_or_dead_lettered mark_leased put_job put_entity find_row
    upsert
failure = refl

lease-mark_failed_example :
    lease_run_job "ws" "job_1" "rival" 5000 300 failed_db ≡ ok (none, failed_db)
unfolding mark_leased
lease-mark_failed_example =
    lease-mark_failed "boom" 150 leased_job leased_db failed_job true failed_db "rival" 5000 300
      failure

-- a worker leases and starts its job, the sweeper fails it, and the worker finishes from its copy
abbrev fresh : System
fresh = record { row = queued_job; held = [] }

abbrev running_job : RunJob
running_job = mark_running "worker" 410 110 leased_job

abbrev started : System
started = overwrite running_job (overwrite leased_job (record fresh { held = queued_job ∷ [] }))

abbrev given_up : System
given_up = overwrite (mark_failed_or_dead_lettered "lease expired" 500 running_job).0 started

abbrev given_up_db : Db
given_up_db = record db { jobs = given_up.row ∷ other_job ∷ [] }

mark_succeeded-mark_failed_example :
    (is_terminal failed_job ≡ true)
    × (failed_job.last_error ≡ some "boom")
    × ((db₂ : Db) × (row : RunJob) × (mark_run_job_succeeded 600 running_job failed_db
          ≡ ok (mark_succeeded 600 running_job, db₂))
        × (get_entity run_job "ws" "job_1" db₂.jobs ≡ ok row)
        × (row.status ≡ RunJobStatus.succeeded)
        × (row.last_error ≡ none))
unfolding mark_leased mark_running
mark_succeeded-mark_failed_example =
    mark_succeeded-mark_failed "boom" 150 600 leased_job running_job leased_db failed_job true
      failed_db refl refl refl failure

-- a worker died while it held `job_1`; `job_2` is queued
abbrev swept : Swept
swept = record {
  db = record leased_db {
    jobs = record failed_job { last_error = some "lease expired" } ∷ other_job ∷ [];
  };
  requeued = record failed_job { last_error = some "lease expired" } ∷ [];
  reaped = 1;
}

sweep : sweep_once true "lease expired" 500 100 leased_db ≡ ok swept
unfolding sweep_once expired_run_job_leases get_run_job get_entity load mark_run_job_failed
    is_terminal mark_failed_or_dead_lettered mark_leased put_job put_entity find_row upsert
sweep = refl

get-sweep_once_example :
    get_entity run_job "ws" "job_2" swept.db.jobs ≡ get_entity run_job "ws" "job_2" leased_db.jobs
unfolding find_row is_expired mark_leased
get-sweep_once_example =
    get-sweep_once true "lease expired" 500 100 leased_db swept "ws" "job_2" other_job
      (refl, (refl, tt)) refl refl sweep

abbrev whole_life : List ExperimentState
whole_life =
    ExperimentState.queued ∷ ExperimentState.completed ∷ ExperimentState.running
    ∷ ExperimentState.completed ∷ []

completed-visited_running_example :
    contains ExperimentState.running (visited draft whole_life) ≡ true
unfolding request_all transition_to
completed-visited_running_example = completed-visited_running draft whole_life refl (inl refl)

-- a whole run: leased, started, succeeded
abbrev runner : Runner
runner = record {
  coordinate = λ job d. (d, none);
  decodes = λ _. true;
  message = λ _. "storage";
  has_queue = true;
}

abbrev times : Times
times = record { leased = 100; started = 101; finished = 150; failed = 151; lease_seconds = 300 }

whole_run : (execute_run_job runner times "worker" "ws" "job_1" db).returned ≡ some true
unfolding execute_run_job lease_run_job get_entity load put_job put_entity find_row upsert
    is_terminal lease_is_held mark_leased mark_running mark_succeeded should_cancel
    mark_run_job_running mark_run_job_succeeded
whole_run = refl
