-- ===== src/Jobs/Lifecycle.antt =====
-- The life of one run job: every write that the API, the workers, the heartbeat and the sweeper
-- make to its row, as a step relation.
use selfevals.Prelude.{
  ℕ, zero, suc, ◌+◌, ◌≤◌, ◌<◌, String, ◌≡◌, true, false, none, some, List, [], ◌∷◌, All, get_elem?,
  ◌⊎◌, arith, is_some,
}
use selfevals.Jobs.{
  RunJob, RunJobStatus, is_terminal, should_cancel, mark_cancel_requested, mark_running,
  mark_succeeded, mark_cancelled, mark_failed_or_dead_lettered,
}
use selfevals.Jobs.Lease.{lease_is_held, leased_row, is_queued}
use selfevals.Jobs.Sweep.{in_flight}

-- The row, and the copies of it that processes have read or changed in memory. A copy may be as old
-- as it likes when it is written: a mark never changes the version, so the version test of
-- `put_entity` lets it through.
pub record System : Type 0 where
  pub row : RunJob
  pub held : List RunJob

-- a copy over the row
abbrev pub overwrite : RunJob → System → System
overwrite c s = record { row = record c { created_at = s.row.created_at }; held = c ∷ s.held }

abbrev pub Holds : System → RunJob → Type 0
Holds s c = (i : ℕ) × (get_elem? s.held i ≡ some c)

-- The constructors carry the tests that the callers make of their copy before the write.
pub data Step (s : System) : System → Type 0 where
  -- `get_entity`
  read : Step s (record s { held = s.row ∷ s.held })
  -- `lease_run_job`
  lease :
      (c : RunJob) (owner : String) (now secs : ℕ)
      → Holds s c
      → is_terminal c ≡ false
      → lease_is_held now c.lease_expires_at ≡ false
      → Step s (overwrite (leased_row owner (now + secs) c) s)
  -- `execute_run_job` on its leased job
  start :
      (c : RunJob) (owner : String) (now secs : ℕ)
      → Holds s c
      → c.status ≡ RunJobStatus.leased
      → should_cancel c ≡ false
      → Step s (overwrite (mark_running owner (now + secs) now c) s)
  cancel_leased :
      (c : RunJob) (now : ℕ)
      → Holds s c
      → c.status ≡ RunJobStatus.leased
      → should_cancel c ≡ true
      → Step s (overwrite (mark_cancelled now c) s)
  succeed :
      (c : RunJob) (now : ℕ)
      → Holds s c
      → c.status ≡ RunJobStatus.running
      → Step s (overwrite (mark_succeeded now c) s)
  -- the success is marked in memory, and its write raises
  succeed_unwritten :
      (c : RunJob) (now : ℕ)
      → Holds s c
      → c.status ≡ RunJobStatus.running
      → Step s (record s { held = mark_succeeded now c ∷ s.held })
  -- the `except` clause, of a job that is running or marked as succeeded
  fail :
      (c : RunJob) (error : String) (now : ℕ)
      → Holds s c
      → (c.status ≡ RunJobStatus.running) ⊎ (c.status ≡ RunJobStatus.succeeded)
      → Step s (overwrite (mark_failed_or_dead_lettered error now c).0 s)
  -- the heartbeat's UPDATE
  beat :
      (owner : String) (expires : ℕ)
      → in_flight s.row.status ≡ true
      → Step s (record s {
        row = record s.row {
          lease_owner = some owner;
          lease_expires_at = some expires;
          updated_at = expires;
        };
      })
  -- `sweep_once`, of a row that was expired when it was listed
  sweep :
      (c : RunJob) (error : String) (now : ℕ)
      → Holds s c
      → is_terminal c ≡ false
      → Step s (overwrite (mark_failed_or_dead_lettered error now c).0 s)
  -- `request_cancel_run_job`
  request :
      (c : RunJob) (now : ℕ)
      → Holds s c
      → is_queued c.status ≡ false
      → Step s (overwrite (mark_cancel_requested now c) s)
  cancel_queued :
      (c : RunJob) (now : ℕ)
      → Holds s c
      → is_queued c.status ≡ true
      → Step s (overwrite (mark_cancelled now (mark_cancel_requested now c)) s)

pub data Reach (s : System) : System → Type 0 where
  here : Reach s s
  next : {t u : System} → Reach s t → Step t u → Reach s u

-- The invariant of a row: it has a lease, with an owner, exactly while it is leased or running; it
-- has been attempted if it is; a finished row has its time, and a queued one was never started.
pub record IsSound (j : RunJob) : Type 0 where
  pub owned : is_some j.lease_owner ≡ in_flight j.status
  pub timed : is_some j.lease_expires_at ≡ in_flight j.status
  pub attempted : in_flight j.status ≡ true → 0 < j.attempt
  pub running_started : j.status ≡ RunJobStatus.running → is_some j.started_at ≡ true
  pub succeeded_started : j.status ≡ RunJobStatus.succeeded → is_some j.started_at ≡ true
  pub succeeded_clean : j.status ≡ RunJobStatus.succeeded → j.last_error ≡ none
  pub dead_exhausted : j.status ≡ RunJobStatus.dead_lettered → j.max_attempts ≤ j.attempt

-- what the tests of `put_entity` compare
abbrev pub key_of : RunJob → String × String × ℕ
key_of j = (j.id, j.workspace_id, j.version)

-- the row is sound, and so is every copy, which has the id, the workspace and the version of the row
pub record IsLawful (s : System) : Type 0 where
  pub row : IsSound s.row
  pub held : All (λ c. IsSound c × (key_of c ≡ key_of s.row)) s.held

pub held-at :
    (P : RunJob → Type 0) (cs : List RunJob) (c : RunJob) (i : ℕ)
    → All P cs
    → get_elem? cs i ≡ some c
    → P c
held-at P [] c i h e = absurd (ground (arith, e))
held-at P (d ∷ cs) c zero (h, hs) e = let same : d ≡ c = ground (arith, e) in rw (← same) h
held-at P (d ∷ cs) c (suc i) (h, hs) e = held-at P cs c i hs e
