-- ===== src/Jobs/Exclusion.antt =====
-- A lease on a run job keeps every other worker out until it lapses (api/run_jobs.py).
use mathlib.Core.Path.{subst}
use selfevals.Prelude.{
  ℕ, ◌+◌, ◌<◌, String, ◌≡◌, refl, ap, ◌∙◌, false, Option, none, some, arith, Bool-cases, inl, inr,
}
use selfevals.Storage.{
  Result, ok, err, entity_not_found, >>=-eq-ok, find_row, get_entity, put_entity,
}
use selfevals.Storage.Laws.{stored, get-put, get-key}
use selfevals.Jobs.{RunJob, run_job, is_terminal, mark_leased}
use selfevals.Jobs.Lease.{Db, put_job, lease_is_held, leased_row, lease_row, lease_run_job}

-- a row that was written, with the time of creation of the row before it
pub record IsStored (ws key : String) (job : RunJob) (db : Db) : Type 0 where
  pub created : ℕ
  pub read : get_entity run_job ws key db.jobs ≡ ok (record job { created_at = created })

pub stored_job :
    (job : RunJob) (found : Option RunJob)
    → (t : ℕ) × (stored run_job job found ≡ record job { created_at = t })
stored_job job none = (job.created_at, refl)
stored_job job (some row) = (row.created_at, refl)

-- what `put_job` stores is read back
pub get-put_job :
    (ws : String) (job : RunJob) (db db' : Db)
    → put_job ws job db ≡ ok db'
    → IsStored ws job.id job db'
unfolding put_job
get-put_job ws job db db' h =
    let (rows, written, e) = >>=-eq-ok (put_entity run_job ws job db.jobs) _ h in
    let same : db'.jobs ≡ rows = cc in
    let (t, row) = stored_job job (find_row run_job job.id db.jobs) in
    record { created = t; read = rw same (get-put run_job ws job db.jobs rows written ∙ ap ok row) }

pub get-put_job_at :
    (ws ws' key : String) (job : RunJob) (db db' : Db)
    → put_job ws job db ≡ ok db'
    → ws ≡ ws'
    → job.id ≡ key
    → IsStored ws' key job db'
get-put_job_at ws ws' key job db db' h p q =
    subst (λ w. IsStored w key job db') p
      (subst (λ k. IsStored ws k job db') q (get-put_job ws job db db' h))

-- what a lease that is granted was granted on, and what it writes
pub record IsGranted (ws key owner : String) (now secs : ℕ) (db : Db) (job : RunJob) (db' : Db)
    : Type 0 where
  pub before : RunJob
  pub read : get_entity run_job ws key db.jobs ≡ ok before
  pub live : is_terminal before ≡ false
  pub free : lease_is_held now before.lease_expires_at ≡ false
  pub row : job ≡ leased_row owner (now + secs) before
  pub written : put_job ws job db ≡ ok db'

IsGranted-row :
    (ws key owner : String) (now secs : ℕ) (db : Db) (job : RunJob) (db' : Db) (before : RunJob)
    → get_entity run_job ws key db.jobs ≡ ok before
    → lease_row ws owner now secs (ok before) db ≡ ok (some job, db')
    → IsGranted ws key owner now secs db job db'
unfolding lease_row
IsGranted-row ws key owner now secs db job db' before r h = elim (Bool-cases (is_terminal before)) [
  | inl t ↦ absurd (ground arith)
  | inr t ↦ elim (Bool-cases (lease_is_held now before.lease_expires_at)) [
    | inl held ↦ absurd (ground arith)
    | inr free ↦
        let (written, put, e) =
          >>=-eq-ok (put_job ws (leased_row owner (now + secs) before) db) _ (rw (t, free) at h) in
        let row : job ≡ leased_row owner (now + secs) before = cc in
        let same : db' ≡ written = cc in
        record {
          before = before;
          read = r;
          live = t;
          free = free;
          row = row;
          written = rw (row, same) put;
        }
  ]
]

lease_run_job-IsGranted_of :
    (ws key owner : String) (now secs : ℕ) (db : Db) (job : RunJob) (db' : Db) (r : Result RunJob)
    → get_entity run_job ws key db.jobs ≡ r
    → lease_row ws owner now secs r db ≡ ok (some job, db')
    → IsGranted ws key owner now secs db job db'
unfolding lease_row
lease_run_job-IsGranted_of ws key owner now secs db job db' (ok before) e h =
    IsGranted-row ws key owner now secs db job db' before e h
lease_run_job-IsGranted_of ws key owner now secs db job db' (err (entity_not_found k)) e h = cc
lease_run_job-IsGranted_of ws key owner now secs db job db' _ e h = cc

pub lease_run_job-IsGranted :
    (ws key owner : String) (now secs : ℕ) (db : Db) (job : RunJob) (db' : Db)
    → lease_run_job ws key owner now secs db ≡ ok (some job, db')
    → IsGranted ws key owner now secs db job db'
unfolding lease_run_job
lease_run_job-IsGranted ws key owner now secs db job db' h =
    lease_run_job-IsGranted_of ws key owner now secs db job db' (get_entity run_job ws key db.jobs)
      refl h

-- a row whose lease lies ahead is not leased
lease-held :
    (ws key owner : String) (now secs expires : ℕ) (db : Db) (row : RunJob)
    → get_entity run_job ws key db.jobs ≡ ok row
    → row.lease_expires_at ≡ some expires
    → now < expires
    → lease_run_job ws key owner now secs db ≡ ok (none, db)
unfolding lease_run_job lease_row lease_is_held
lease-held ws key owner now secs expires db row read lease early =
    rw read (elim (Bool-cases (is_terminal row)) [
      | inl t ↦ rw t refl
      | inr t ↦ rw (t, lease) (ground (arith, early))
    ])

-- After a lease is granted, no worker is granted the job before the lease lapses: any later call
-- for it, by any owner and with any lease time, before `now + secs`, yields nothing and writes
-- nothing. The granted job has one attempt more than the stored one, and the caller as its owner.
pub lease-lease :
    (ws key owner : String) (now secs : ℕ) (db : Db) (job : RunJob) (db' : Db) (owner' : String)
    (now' secs' : ℕ)
    → lease_run_job ws key owner now secs db ≡ ok (some job, db')
    → now' < now + secs
    → (lease_run_job ws key owner' now' secs' db' ≡ ok (none, db'))
      × (job.lease_owner ≡ some owner)
      × ((before : RunJob) × (get_entity run_job ws key db.jobs ≡ ok before)
          × (job.attempt ≡ before.attempt + 1))
unfolding mark_leased
lease-lease ws key owner now secs db job db' owner' now' secs' h early =
    let g = lease_run_job-IsGranted ws key owner now secs db job db' h in
    let (same_key, _) = get-key run_job ws key db.jobs g.before g.read in
    let id_kept : job.id ≡ key = ap (λ (j : RunJob). j.id) g.row ∙ same_key in
    let now_read = get-put_job_at ws ws key job db db' g.written refl id_kept in
    (
      lease-held ws key owner' now' secs' (now + secs) db' _ now_read.read
          (ap (λ (j : RunJob). j.lease_expires_at) g.row) early,
      ap (λ (j : RunJob). j.lease_owner) g.row,
      (g.before, g.read, ap (λ (j : RunJob). j.attempt) g.row),
    )
