-- ===== src/Jobs/Sweep.antt =====
-- worker/lease_sweeper.py, and the queries on `run_jobs` of storage/postgres/queries.py.
use selfevals.Prelude.{
  ℕ, ◌+◌, String, str_eq, Bool, true, false, ◌&&◌, Option, none, some, List, [], ◌∷◌, ltb, leb,
  if◌then◌else◌, select, take, sort_with, map, not, is_some,
}
use selfevals.Storage.{
  entity_not_found, workspace_mismatch, optimistic_concurrency, Result, ok, err, ◌>>=◌, get_entity,
}
use selfevals.Jobs.{RunJob, RunJobStatus, run_job, is_terminal}
use selfevals.Jobs.Lease.{Db, mark_run_job_failed, is_queued}

-- status IN ('leased', 'running')
unfoldable pub in_flight : RunJobStatus → Bool
in_flight RunJobStatus.leased = true
in_flight RunJobStatus.running = true
in_flight _ = false

-- lease_expires_at IS NOT NULL AND lease_expires_at < now
unfoldable pub lapsed : ℕ → Option ℕ → Bool
lapsed now none = false
lapsed now (some expires) = ltb expires now

unfoldable pub is_expired : ℕ → RunJob → Bool
unfolding in_flight lapsed
is_expired now job = in_flight job.status && lapsed now job.lease_expires_at

-- ORDER BY lease_expires_at; only rows with a lease are sorted
abbrev expiry : RunJob → ℕ
expiry job = elim job.lease_expires_at [ none ↦ 0 | some expires ↦ expires ]

abbrev pub sooner : RunJob → RunJob → Bool
sooner a b = leb (expiry a) (expiry b)

unfoldable pub expired_run_job_leases : ℕ → ℕ → Db → List (String × String)
unfolding is_expired
expired_run_job_leases now limit db =
    map (λ j. (j.workspace_id, j.id))
      (take limit (sort_with sooner (select (is_expired now) db.jobs)))

-- `touch_run_job_lease`: the heartbeat's UPDATE, and whether a row was renewed
unfoldable pub touch_rows : String → String → String → ℕ → List RunJob → List RunJob × Bool
unfolding in_flight
touch_rows ws job_id owner expires [] = ([], false)
touch_rows ws job_id owner expires (job ∷ jobs) =
    let (rest, renewed) = touch_rows ws job_id owner expires jobs in
    if str_eq job.id job_id && str_eq job.workspace_id ws && in_flight job.status
    then (
      record job { lease_owner = some owner; lease_expires_at = some expires; updated_at = expires }
          ∷ rest,
      true,
    )
    else (job ∷ rest, renewed)

unfoldable pub heartbeat_run_job_lease : String → String → String → ℕ → ℕ → Db → Bool × Db
unfolding touch_rows
heartbeat_run_job_lease ws job_id owner now secs db =
    let (jobs, renewed) = touch_rows ws job_id owner (now + secs) db.jobs in
    (renewed, record db { jobs = jobs })

-- status = 'queued' AND deleted_at IS NULL
abbrev waiting : RunJob → Bool
waiting job = is_queued job.status && not (is_some job.deleted_at)

-- ORDER BY created_at
abbrev older : RunJob → RunJob → Bool
older a b = leb a.created_at b.created_at

unfoldable pub queued_run_jobs : ℕ → Db → List (String × String)
queued_run_jobs limit db =
    map (λ j. (j.workspace_id, j.id)) (take limit (sort_with older (select waiting db.jobs)))

-- `get_run_job`
unfoldable pub found_job : Result RunJob → Result (Option RunJob)
found_job (ok job) = ok (some job)
found_job (err (entity_not_found key)) = ok none
found_job (err (workspace_mismatch found)) = err (workspace_mismatch found)
found_job (err (optimistic_concurrency found)) = err (optimistic_concurrency found)

unfoldable pub get_run_job : String → String → Db → Result (Option RunJob)
unfolding found_job
get_run_job ws job_id db = found_job (get_entity run_job ws job_id db.jobs)

-- What a sweep leaves: the tables, the jobs put back on the queue, the number reaped.
pub record Swept : Type 0 where
  pub db : Db
  pub requeued : List RunJob
  pub reaped : ℕ

module _ (has_queue : Bool) (error : String) (now : ℕ) where
  -- one round of the loop of `sweep_once`, for the job that it loads
  unfoldable pub sweep_job : Option RunJob → Swept → Result Swept
  sweep_job none s = ok s
  sweep_job (some job) s = if is_terminal job then ok s else do
    failed ← mark_run_job_failed error now job s.db
    ok (record {
      db = failed.2;
      requeued = if failed.1 && has_queue then failed.0 ∷ s.requeued else s.requeued;
      reaped = s.reaped + 1;
    })

  unfoldable pub sweep_all : List (String × String) → Swept → Result Swept
  unfolding sweep_job
  sweep_all [] s = ok s
  sweep_all ((ws, job_id) ∷ rest) s = do
    job ← get_run_job ws job_id s.db
    s' ← sweep_job job s
    sweep_all rest s'

  unfoldable pub sweep_once : ℕ → Db → Result Swept
  unfolding sweep_all
  sweep_once batch db =
      sweep_all (expired_run_job_leases now batch db)
        (record { db = db; requeued = []; reaped = 0 })
