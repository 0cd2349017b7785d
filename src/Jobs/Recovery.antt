-- ===== src/Jobs/Recovery.antt =====
-- What becomes of a run job that failed or whose worker died (api/run_jobs.py, api/run_launcher.py,
-- worker/lease_sweeper.py).
use selfevals.Prelude.{ℕ, ◌<◌, ◌≤◌, String, ◌≡◌, refl, Bool, true, none, some, arith}
use selfevals.Storage.{ok, >>=-eq-ok, get_entity}
use selfevals.Jobs.{
  RunJob, RunJobStatus, retry, dead, run_job, is_terminal, mark_failed_or_dead_lettered,
}
use selfevals.Jobs.Lease.{
  Db, put_job, abort_if_dead, lease_row, lease_run_job, mark_run_job_failed, is_retry,
}
use selfevals.Jobs.Exclusion.{IsStored, get-put_job_at}

-- A failure is retried exactly when the job has attempts left, and dead-lettered otherwise; either
-- way the lease is given up, the error is kept and the attempts are not counted again.
pub mark_failed-verdict :
    (error : String) (when : ℕ) (job : RunJob)
    → (job.attempt < job.max_attempts → (mark_failed_or_dead_lettered error when job).1 ≡ retry)
      × (job.max_attempts ≤ job.attempt
          → ((mark_failed_or_dead_lettered error when job).1 ≡ dead)
            × ((mark_failed_or_dead_lettered error when job).0.status ≡ RunJobStatus.dead_lettered)
            × ((mark_failed_or_dead_lettered error when job).0.finished_at ≡ some when))
      × ((mark_failed_or_dead_lettered error when job).0.lease_owner ≡ none)
      × ((mark_failed_or_dead_lettered error when job).0.lease_expires_at ≡ none)
      × ((mark_failed_or_dead_lettered error when job).0.last_error ≡ some error)
      × ((mark_failed_or_dead_lettered error when job).0.attempt ≡ job.attempt)
unfolding mark_failed_or_dead_lettered
mark_failed-verdict error when job = (
  λ h. ground arith,
  λ h. (ground arith, ground arith, ground arith),
  ground arith,
  ground arith,
  ground arith,
  ground arith,
)

pub failed-is_terminal :
    (error : String) (when : ℕ) (job : RunJob)
    → is_terminal (mark_failed_or_dead_lettered error when job).0 ≡ true
unfolding mark_failed_or_dead_lettered is_terminal
failed-is_terminal error when job = ground arith

pub failed-key :
    (error : String) (when : ℕ) (job : RunJob)
    → ((mark_failed_or_dead_lettered error when job).0.id ≡ job.id)
      × ((mark_failed_or_dead_lettered error when job).0.workspace_id ≡ job.workspace_id)
unfolding mark_failed_or_dead_lettered
failed-key error when job = (ground arith, ground arith)

-- what a failure that is written leaves to be read
IsStored-failure :
    (error : String) (now : ℕ) (job : RunJob) (db : Db) (job' : RunJob) (again : Bool) (db' : Db)
    → mark_run_job_failed error now job db ≡ ok (job', again, db')
    → (job' ≡ (mark_failed_or_dead_lettered error now job).0)
      × (again ≡ is_retry (mark_failed_or_dead_lettered error now job).1)
      × IsStored job.workspace_id job.id job' db'
unfolding mark_run_job_failed
IsStored-failure error now job db job' again db' h =
    let failed = mark_failed_or_dead_lettered error now job in
    let (aborted, _, rest) =
      >>=-eq-ok (abort_if_dead failed.1 failed.0.workspace_id failed.0.experiment_id db) _ h in
    let (written, put, e) = >>=-eq-ok (put_job failed.0.workspace_id failed.0 aborted) _ rest in
    let row : job' ≡ failed.0 = cc in
    let same : db' ≡ written = cc in
    let read : IsStored job.workspace_id job.id failed.0 written =
      get-put_job_at failed.0.workspace_id job.workspace_id job.id failed.0 aborted written put
        (failed-key error now job).1 (failed-key error now job).0 in
    (row, cc, rw (row, same) read)

-- a terminal row is not leased
lease-terminal :
    (ws key owner : String) (now secs : ℕ) (db : Db) (row : RunJob)
    → get_entity run_job ws key db.jobs ≡ ok row
    → is_terminal row ≡ true
    → lease_run_job ws key owner now secs db ≡ ok (none, db)
unfolding lease_run_job lease_row
lease-terminal ws key owner now secs db row read t = rw (read, t) refl

created-is_terminal :
    (t : ℕ) (job : RunJob)
    → is_terminal job ≡ true
    → is_terminal (record job { created_at = t }) ≡ true
unfolding is_terminal
created-is_terminal t job h = h

-- A failure that is to be retried, as `mark_run_job_failed` reports to its callers, which then put
-- the job back on the queue, is stored with a terminal status: whatever worker takes the job from
-- the queue, at any time, `lease_run_job` yields nothing and writes nothing, so it never runs again.
pub lease-mark_failed :
    (error : String) (now : ℕ) (job : RunJob) (db : Db) (job' : RunJob) (again : Bool) (db' : Db)
    (owner : String) (later secs : ℕ)
    → mark_run_job_failed error now job db ≡ ok (job', again, db')
    → lease_run_job job.workspace_id job.id owner later secs db' ≡ ok (none, db')
lease-mark_failed error now job db job' again db' owner later secs h =
    let (row, _, stored) = IsStored-failure error now job db job' again db' h in
    lease-terminal job.workspace_id job.id owner later secs db' _ stored.read
      (created-is_terminal stored.created job' (rw row (failed-is_terminal error now job)))
