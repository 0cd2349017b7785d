-- ===== src/Jobs/Writes.antt =====
-- The steps of Jobs.Lifecycle in the tables: the calls of api/run_jobs.py that write a copy of a job.
use selfevals.Prelude.{String, ◌≡◌, refl, some}
use selfevals.Storage.{Result, ok, find_row, upsert}
use selfevals.Storage.Laws.{put-same_version}
use selfevals.Jobs.{RunJob, Verdict, run_job}
use selfevals.Jobs.Lease.{Db, put_job, abort_if_dead}
use selfevals.Jobs.Lifecycle.{System, overwrite}

-- a row that has the version of a job is overwritten
pub put_job-same_version :
    (ws : String) (job row : RunJob) (db : Db)
    → job.workspace_id ≡ ws
    → find_row run_job job.id db.jobs ≡ some row
    → row.workspace_id ≡ ws
    → row.version ≡ job.version
    → put_job ws job db ≡ ok (record db { jobs = upsert run_job job db.jobs })
unfolding put_job
put_job-same_version ws job row db mine found theirs same =
    rw (put-same_version run_job ws job row db.jobs mine found theirs same) refl

-- the table has the row of the system
abbrev pub Stores : System → Db → Type 0
Stores s db = find_row run_job s.row.id db.jobs ≡ some s.row

-- a call that does not raise, and writes a job over the row
abbrev pub Writes : {A : Type 0} → System → RunJob → Result (A × Db) → A → Type 0
Writes s job call answer = (db : Db) × (call ≡ ok (answer, db)) × Stores (overwrite job s) db

-- the abort that goes with a failure
abbrev pub abort_of : RunJob × Verdict → Db → Result Db
abort_of (failed, verdict) db = abort_if_dead verdict failed.workspace_id failed.experiment_id db
