-- ===== src/Jobs/Execute.antt =====
-- api/run_launcher.py, `execute_run_job`: one worker's attempt at a run job. The coordinator's run
-- is an argument: it returns the tables that it leaves and, if it raises, the text of the error.
-- So is the decoder of the spec payload, outside whose `try` an error leaves the call.
use selfevals.Prelude.{
  ℕ, String, Bool, true, false, Option, none, some, List, [], ◌∷◌, if◌then◌else◌, ◌&&◌,
}
use selfevals.Storage.{StorageError, Result, ok, err}
use selfevals.Jobs.{RunJob, should_cancel, mark_succeeded}
use selfevals.Jobs.Lease.{
  Db, lease_run_job, mark_run_job_running, mark_run_job_succeeded, mark_run_job_cancelled,
  mark_run_job_failed, cancelled_leaves, failed_leaves,
}

-- What a call leaves: the tables, the jobs put back on the queue, and the value that it returns,
-- `none` if it raises.
pub record Exec : Type 0 where
  pub db : Db
  pub requeued : List RunJob
  pub returned : Option Bool

abbrev pub returns : Bool → Db → Exec
returns value db = record { db = db; requeued = []; returned = some value }

abbrev pub raises : Db → Exec
raises db = record { db = db; requeued = []; returned = none }

-- The code that the launcher calls and does not implement.
pub record Runner : Type 0 where
  pub coordinate : RunJob → Db → Db × Option String
  pub decodes : String → Bool
  pub message : StorageError → String
  pub has_queue : Bool

-- The five readings of the clock.
pub record Times : Type 0 where
  pub leased : ℕ
  pub started : ℕ
  pub finished : ℕ
  pub failed : ℕ
  pub lease_seconds : ℕ

module _ (r : Runner) (t : Times) (owner : String) where
  -- the `except` clause
  unfoldable pub on_failure : String → RunJob → Db → Exec
  unfolding failed_leaves
  on_failure error job db = elim (mark_run_job_failed error t.failed job db) [
    | err e ↦ raises (failed_leaves error t.failed job db)
    | ok (job', should_retry, db') ↦ record {
      db = db';
      requeued = if should_retry && r.has_queue then job' ∷ [] else [];
      returned = some false;
    }
  ]

  -- after the coordinator's run; a write that raises has already marked the job in memory
  unfoldable pub on_run : RunJob → Db × Option String → Exec
  unfolding on_failure
  on_run job (db, some error) = on_failure error job db
  on_run job (db, none) = elim (mark_run_job_succeeded t.finished job db) [
    | err e ↦ on_failure (r.message e) (mark_succeeded t.finished job) db
    | ok (job', db') ↦ returns true db'
  ]

  unfoldable pub on_running : Result (RunJob × Db) → Db → Exec
  unfolding on_run
  on_running (err e) before = raises before
  on_running (ok (job, db)) before =
      if r.decodes job.spec_payload then on_run job (r.coordinate job db) else raises db

  unfoldable pub on_leased : Result (Option RunJob × Db) → Db → Exec
  unfolding on_running cancelled_leaves
  on_leased (err e) before = raises before
  on_leased (ok (none, db)) before = returns false db
  on_leased (ok (some job, db)) before =
      if should_cancel job
      then elim (mark_run_job_cancelled t.finished job db) [
        | err e ↦ raises (cancelled_leaves job db)
        | ok (_, db') ↦ returns true db'
      ]
      else on_running (mark_run_job_running owner t.started t.lease_seconds job db) db

  unfoldable pub execute_run_job : String → String → Db → Exec
  unfolding on_leased
  execute_run_job ws job_id db =
      on_leased (lease_run_job ws job_id owner t.leased t.lease_seconds db) db
