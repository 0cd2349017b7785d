-- ===== src/Jobs/Lease.antt =====
-- api/run_jobs.py: leasing a run job and moving it, in the tables `run_jobs` and `experiments`.
-- Each call's `utc_now()` is an argument. A call that raises is an `err`, without tables. Each write
-- commits on its own, so the abort of an experiment stands when the write of the job raises after
-- it: `cancelled_leaves` and `failed_leaves` are the tables then.
use selfevals.Prelude.{
  ℕ, ◌+◌, String, str_eq, Bool, true, false, ◌&&◌, Option, none, some, List, [], ◌∷◌, ltb,
  if◌then◌else◌, select,
}
use selfevals.Storage.{
  entity_not_found, workspace_mismatch, optimistic_concurrency, Result, ok, err, ◌>>=◌, load,
  get_entity, put_entity,
}
use selfevals.Experiments.{
  Experiment, ExperimentState, Transition, moved, illegal, experiment, transition_to,
  terminal_state,
}
use selfevals.Jobs.{
  RunJob, RunJobStatus, Verdict, retry, dead, run_job, is_terminal, mark_cancel_requested,
  mark_leased, mark_running, renew_lease, mark_succeeded, mark_cancelled,
  mark_failed_or_dead_lettered,
}

pub record Db : Type 0 where
  pub jobs : List RunJob
  pub experiments : List Experiment

-- `scope.put_entity(job)`
unfoldable pub put_job : String → RunJob → Db → Result Db
put_job ws job db = do rows ← put_entity run_job ws job db.jobs; ok (record db { jobs = rows })

unfoldable pub put_experiment : String → Experiment → Db → Result Db
put_experiment ws exp db = do
  rows ← put_entity experiment ws exp db.experiments
  ok (record db { experiments = rows })

-- `_abort_experiment_in_scope`; the transition to `aborted` is legal from every state that the
-- test lets through, so the row of an illegal one is kept
unfoldable pub aborted_row : Experiment → Transition → Experiment
aborted_row exp (moved next) = next
aborted_row exp (illegal from to) = exp

unfoldable pub abort_row : String → Option Experiment → Db → Result Db
unfolding aborted_row
abort_row ws none db = ok db
abort_row ws (some exp) db =
    if terminal_state exp.state
    then ok db
    else put_experiment ws (aborted_row exp (transition_to ExperimentState.aborted exp)) db

unfoldable pub abort_experiment_in_scope : String → String → Db → Result Db
unfolding abort_row
abort_experiment_in_scope ws exp_id db = abort_row ws (load experiment ws exp_id db.experiments) db

-- `job.lease_expires_at is not None and job.lease_expires_at > now`
unfoldable pub lease_is_held : ℕ → Option ℕ → Bool
lease_is_held now none = false
lease_is_held now (some expires) = ltb now expires

-- the row that `lease_run_job` writes
abbrev pub leased_row : String → ℕ → RunJob → RunJob
leased_row owner expires job = mark_leased owner expires (record job { attempt = job.attempt + 1 })

-- `lease_run_job`, after the read
unfoldable pub lease_row :
    String → String → ℕ → ℕ → Result RunJob → Db → Result (Option RunJob × Db)
lease_row ws owner now secs (err (entity_not_found key)) db = ok (none, db)
lease_row ws owner now secs (err (workspace_mismatch found)) db = err (workspace_mismatch found)
lease_row ws owner now secs (err (optimistic_concurrency found)) db =
    err (optimistic_concurrency found)
lease_row ws owner now secs (ok job) db =
    if is_terminal job
    then ok (none, db)
    else if lease_is_held now job.lease_expires_at
    then ok (none, db)
    else do
      db' ← put_job ws (leased_row owner (now + secs) job) db
      ok (some (leased_row owner (now + secs) job), db')

unfoldable pub lease_run_job : String → String → String → ℕ → ℕ → Db → Result (Option RunJob × Db)
unfolding lease_row
lease_run_job ws job_id owner now secs db =
    lease_row ws owner now secs (get_entity run_job ws job_id db.jobs) db

unfoldable pub mark_run_job_running : String → ℕ → ℕ → RunJob → Db → Result (RunJob × Db)
mark_run_job_running owner now secs job db = do
  let job' = mark_running owner (now + secs) now job
  db' ← put_job job'.workspace_id job' db
  ok (job', db')

unfoldable pub renew_run_job_lease : String → ℕ → ℕ → RunJob → Db → Result (RunJob × Db)
renew_run_job_lease owner now secs job db = do
  let job' = renew_lease owner (now + secs) job
  db' ← put_job job'.workspace_id job' db
  ok (job', db')

unfoldable pub mark_run_job_succeeded : ℕ → RunJob → Db → Result (RunJob × Db)
mark_run_job_succeeded now job db = do
  let job' = mark_succeeded now job
  db' ← put_job job'.workspace_id job' db
  ok (job', db')

unfoldable pub mark_run_job_cancelled : ℕ → RunJob → Db → Result (RunJob × Db)
mark_run_job_cancelled now job db = do
  let job' = mark_cancelled now job
  aborted ← abort_experiment_in_scope job'.workspace_id job'.experiment_id db
  db' ← put_job job'.workspace_id job' aborted
  ok (job', db')

-- the tables after the abort, or those before it if it raised
abbrev committed : Db → Result Db → Db
committed before (ok aborted) = aborted
committed before (err e) = before

-- what `mark_run_job_cancelled` leaves if it raises
unfoldable pub cancelled_leaves : RunJob → Db → Db
cancelled_leaves job db =
    committed db (abort_experiment_in_scope job.workspace_id job.experiment_id db)

abbrev pub is_retry : Verdict → Bool
is_retry retry = true
is_retry dead = false

abbrev pub abort_if_dead : Verdict → String → String → Db → Result Db
abort_if_dead dead ws exp_id db = abort_experiment_in_scope ws exp_id db
abort_if_dead retry ws exp_id db = ok db

unfoldable pub mark_run_job_failed : String → ℕ → RunJob → Db → Result (RunJob × Bool × Db)
mark_run_job_failed error now job db = do
  let failed = mark_failed_or_dead_lettered error now job
  aborted ← abort_if_dead failed.1 failed.0.workspace_id failed.0.experiment_id db
  db' ← put_job failed.0.workspace_id failed.0 aborted
  ok (failed.0, is_retry failed.1, db')

-- what `mark_run_job_failed` leaves if it raises
unfoldable pub failed_leaves : String → ℕ → RunJob → Db → Db
failed_leaves error now job db =
    let failed = mark_failed_or_dead_lettered error now job in
    committed db (abort_if_dead failed.1 failed.0.workspace_id failed.0.experiment_id db)

-- `jobs[0]` of a listing by `updated_at`, newest first
unfoldable pub newest : List RunJob → Option RunJob
newest [] = none
newest (job ∷ jobs) = elim (newest jobs) [
  | none ↦ some job
  | some best ↦ if ltb job.updated_at best.updated_at then some best else some job
]

unfoldable pub latest_run_job_for_experiment : String → String → Db → Option RunJob
unfolding newest
latest_run_job_for_experiment ws exp_id db =
    newest (select (λ j. str_eq j.workspace_id ws && str_eq j.experiment_id exp_id) db.jobs)

abbrev pub is_queued : RunJobStatus → Bool
is_queued RunJobStatus.queued = true
is_queued _ = false

-- the body of `request_cancel_run_job`, for the job that it finds
unfoldable pub cancel_row : String → String → ℕ → RunJob → Db → Result (RunJob × Db)
cancel_row ws exp_id now job db =
    let requested = mark_cancel_requested now job in
    if is_queued requested.status
    then (do
      aborted ← abort_experiment_in_scope ws exp_id db
      db' ← put_job ws (mark_cancelled now requested) aborted
      ok (mark_cancelled now requested, db'))
    else (do db' ← put_job ws requested db; ok (requested, db'))

unfoldable pub request_cancel_run_job : String → String → ℕ → Db → Result (Option RunJob × Db)
unfolding cancel_row
request_cancel_run_job ws exp_id now db = elim (latest_run_job_for_experiment ws exp_id db) [
  | none ↦ ok (none, db)
  | some job ↦ do cancelled ← cancel_row ws exp_id now job db; ok (some cancelled.0, cancelled.1)
]
