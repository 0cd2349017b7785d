-- ===== src/Jobs/Stale.antt =====
-- A worker whose lease lapsed finishes after its job was swept (api/run_jobs.py,
-- worker/lease_sweeper.py).
use selfevals.Prelude.{ℕ, String, ◌≡◌, refl, ◌∙◌, sym, ap, Bool, true, none, some, arith}
use selfevals.Storage.{ok, >>=-eq-ok, find_row, put_entity, upsert, get_entity}
use selfevals.Storage.Laws.{put-upsert, find_row-upsert_self}
use selfevals.Jobs.{
  RunJob, RunJobStatus, run_job, is_terminal, mark_succeeded, mark_failed_or_dead_lettered,
}
use selfevals.Jobs.Lease.{Db, put_job, abort_if_dead, mark_run_job_failed, mark_run_job_succeeded}
use selfevals.Jobs.Exclusion.{stored_job, get-put_job}
use selfevals.Jobs.Writes.{put_job-same_version}
use selfevals.Jobs.Recovery.{failed-key, failed-is_terminal}

-- the row after a write
put_job-row :
    (ws : String) (job : RunJob) (db db' : Db)
    → put_job ws job db ≡ ok db'
    → (t : ℕ) × (find_row run_job job.id db'.jobs ≡ some (record job { created_at = t }))
unfolding put_job
put_job-row ws job db db' h =
    let (rows, put, e) = >>=-eq-ok (put_entity run_job ws job db.jobs) _ h in
    let (_, written) = put-upsert run_job ws job db.jobs rows put in
    let same : db'.jobs ≡ upsert run_job job db.jobs = cc in
    let (t, row) = stored_job job (find_row run_job job.id db.jobs) in
    (t, rw same (find_row-upsert_self run_job job db.jobs ∙ ap some row))

failed-version :
    (error : String) (when : ℕ) (job : RunJob)
    → (mark_failed_or_dead_lettered error when job).0.version ≡ job.version
unfolding mark_failed_or_dead_lettered
failed-version error when job = ground arith

failed-last_error :
    (error : String) (when : ℕ) (job : RunJob)
    → (mark_failed_or_dead_lettered error when job).0.last_error ≡ some error
unfolding mark_failed_or_dead_lettered
failed-last_error error when job = ground arith

-- what a failure that is written leaves in the table
failed-row :
    (error : String) (at : ℕ) (copy : RunJob) (db : Db) (failed : RunJob) (again : Bool) (db' : Db)
    → mark_run_job_failed error at copy db ≡ ok (failed, again, db')
    → (failed ≡ (mark_failed_or_dead_lettered error at copy).0)
      × ((t : ℕ) × (find_row run_job failed.id db'.jobs ≡ some (record failed { created_at = t })))
unfolding mark_run_job_failed
failed-row error at copy db failed again db' h =
    let marked = mark_failed_or_dead_lettered error at copy in
    let (aborted, _, rest) =
      >>=-eq-ok (abort_if_dead marked.1 marked.0.workspace_id marked.0.experiment_id db) _ h in
    let (written, put, e) = >>=-eq-ok (put_job marked.0.workspace_id marked.0 aborted) _ rest in
    let row : failed ≡ marked.0 = cc in
    let same : db' ≡ written = cc in
    (row, rw (row, same) (put_job-row marked.0.workspace_id marked.0 aborted written put))

-- The sweeper gives up a job whose worker is still running it: whatever copy of the row it failed or
-- dead-lettered, with the id, the workspace and the version of the worker's job, the worker's later
-- `mark_run_job_succeeded` does not raise, and the row, which was terminal, is then read as
-- succeeded, with its error gone: a terminal status does not last.
pub mark_succeeded-mark_failed :
    (error : String) (at now : ℕ) (copy job : RunJob) (db : Db) (failed : RunJob) (again : Bool)
    (db' : Db)
    → copy.id ≡ job.id
    → copy.workspace_id ≡ job.workspace_id
    → copy.version ≡ job.version
    → mark_run_job_failed error at copy db ≡ ok (failed, again, db')
    → (is_terminal failed ≡ true)
      × (failed.last_error ≡ some error)
      × ((db₂ : Db) × (row : RunJob) × (mark_run_job_succeeded now job db'
            ≡ ok (mark_succeeded now job, db₂))
          × (get_entity run_job job.workspace_id job.id db₂.jobs ≡ ok row)
          × (row.status ≡ RunJobStatus.succeeded)
          × (row.last_error ≡ none))
unfolding mark_run_job_succeeded mark_succeeded
mark_succeeded-mark_failed error at now copy job db failed again db' id ws version h =
    let (row, after) = failed-row error at copy db failed again db' h in
    let (t, found) = after in
    let key = failed-key error at copy in
    let same_id : failed.id ≡ job.id = ap (λ (j : RunJob). j.id) row ∙ key.0 ∙ id in
    let same_ws : failed.workspace_id ≡ job.workspace_id =
      ap (λ (j : RunJob). j.workspace_id) row ∙ key.1 ∙ ws in
    let same_version : failed.version ≡ job.version =
      ap (λ (j : RunJob). j.version) row ∙ failed-version error at copy ∙ version in
    let done = mark_succeeded now job in
    let db₂ : Db = record db' { jobs = upsert run_job done db'.jobs } in
    let put : put_job job.workspace_id done db' ≡ ok db₂ =
      put_job-same_version job.workspace_id done (record failed { created_at = t }) db' refl
        (ap (λ k. find_row run_job k db'.jobs) (sym same_id) ∙ found) same_ws same_version in
    let stored = get-put_job job.workspace_id done db' db₂ put in
    (
      rw row (failed-is_terminal error at copy),
      rw row (failed-last_error error at copy),
      (db₂, record done { created_at = stored.created }, rw put refl, stored.read, refl, refl),
    )
