-- ===== src/Jobs/Spared.antt =====
-- The sweeper (worker/lease_sweeper.py) leaves the jobs alone whose leases have not lapsed.
use mathlib.Core.Logic.{◌≢◌}
use selfevals.Prelude.{
  ℕ, String, ◌≡◌, refl, sym, ◌∙◌, Bool, true, false, Option, none, some, List, [], ◌∷◌, arith,
  Bool-cases, inl, inr, All, All-take, All-sort_with, All-map, All-select_of, All-weaken,
}
use selfevals.Storage.{Result, ok, err, >>=-eq-ok, get_entity, put_entity, find_row, load}
use selfevals.Storage.Laws.{get-put_ne, get-key}
use selfevals.Experiments.{Experiment, ExperimentState, experiment, terminal_state, transition_to}
use selfevals.Jobs.{RunJob, Verdict, run_job, is_terminal, mark_failed_or_dead_lettered}
use selfevals.Jobs.Lease.{
  Db, put_job, put_experiment, abort_if_dead, abort_experiment_in_scope, abort_row, aborted_row,
  mark_run_job_failed,
}
use selfevals.Jobs.Recovery.{failed-key}
use selfevals.Jobs.Sweep.{
  is_expired, sooner, expired_run_job_leases, get_run_job, found_job, Swept, sweep_job, sweep_all,
  sweep_once,
}

-- The primary key of the table: a row is the one that a look-up of its id finds.
abbrev pub IsKeyed : List RunJob → Type 0
IsKeyed rows = All (λ row. find_row run_job row.id rows ≡ some row) rows

jobs-put_experiment :
    (ws : String) (x : Experiment) (db db' : Db)
    → put_experiment ws x db ≡ ok db'
    → db'.jobs ≡ db.jobs
unfolding put_experiment
jobs-put_experiment ws x db db' h =
    let (rows, _, e) = >>=-eq-ok (put_entity experiment ws x db.experiments) _ h in cc

jobs-abort_row :
    (ws : String) (x : Option Experiment) (db db' : Db)
    → abort_row ws x db ≡ ok db'
    → db'.jobs ≡ db.jobs
unfolding abort_row
jobs-abort_row ws none db db' h = cc
jobs-abort_row ws (some x) db db' h = elim (Bool-cases (terminal_state x.state)) [
  | inl e ↦ let same : ok db ≡ ok db' = rw e at h in cc
  | inr e ↦
      jobs-put_experiment ws (aborted_row x (transition_to ExperimentState.aborted x)) db db'
        (rw e at h)
]

pub jobs-abort_if_dead :
    (v : Verdict) (ws key : String) (db db' : Db)
    → abort_if_dead v ws key db ≡ ok db'
    → db'.jobs ≡ db.jobs
unfolding abort_experiment_in_scope
jobs-abort_if_dead Verdict.dead ws key db db' h =
    jobs-abort_row ws (load experiment ws key db.experiments) db db' h
jobs-abort_if_dead Verdict.retry ws key db db' h = cc

-- a failure writes the row of its own job alone
get-mark_failed_ne :
    (error : String) (now : ℕ) (job : RunJob) (db : Db) (r : RunJob × Bool × Db) (ws key : String)
    → mark_run_job_failed error now job db ≡ ok r
    → job.id ≢ key
    → get_entity run_job ws key r.2.jobs ≡ get_entity run_job ws key db.jobs
unfolding mark_run_job_failed put_job
get-mark_failed_ne error now job db r ws key h other =
    let failed = mark_failed_or_dead_lettered error now job in
    let (aborted, first, rest) =
      >>=-eq-ok (abort_if_dead failed.1 failed.0.workspace_id failed.0.experiment_id db) _ h in
    let (written, put, e) = >>=-eq-ok (put_job failed.0.workspace_id failed.0 aborted) _ rest in
    let (rows, stored, e') =
      >>=-eq-ok (put_entity run_job failed.0.workspace_id failed.0 aborted.jobs) _ put in
    let kept : get_entity run_job ws key rows ≡ get_entity run_job ws key aborted.jobs =
      get-put_ne run_job failed.0.workspace_id failed.0 aborted.jobs rows ws key stored
        (λ p. other (sym (failed-key error now job).0 ∙ p)) in
    cc (
      kept,
      jobs-abort_if_dead failed.1 failed.0.workspace_id failed.0.experiment_id db aborted first,
    )

found-key :
    (ws key : String) (db : Db) (job : RunJob)
    → get_run_job ws key db ≡ ok (some job)
    → job.id ≡ key
unfolding get_run_job
found-key ws key db job h = go (get_entity run_job ws key db.jobs) refl h
  where
    go :
        (r : Result RunJob)
        → get_entity run_job ws key db.jobs ≡ r
        → found_job r ≡ ok (some job)
        → job.id ≡ key
    go (ok row) e k = let (same, _) = get-key run_job ws key db.jobs row e in ground (arith, same)
    go (err x) e k = ground arith

module _ (has_queue : Bool) (error : String) (now : ℕ) where
  get-sweep_job_ne :
      (job : RunJob) (s s' : Swept) (ws key : String)
      → sweep_job has_queue error now (some job) s ≡ ok s'
      → job.id ≢ key
      → get_entity run_job ws key s'.db.jobs ≡ get_entity run_job ws key s.db.jobs
  unfolding sweep_job
  get-sweep_job_ne job s s' ws key h other = elim (Bool-cases (is_terminal job)) [
    | inl e ↦ let same : ok s ≡ ok s' = rw e at h in cc
    | inr e ↦
        let (r, failed, stored) =
          >>=-eq-ok (mark_run_job_failed error now job s.db) _ (rw e at h) in
        cc (get-mark_failed_ne error now job s.db r ws key failed other)
  ]

  get-sweep_all_ne :
      (keys : List (String × String)) (s s' : Swept) (ws key : String)
      → sweep_all has_queue error now keys s ≡ ok s'
      → All (λ p. p.1 ≢ key) keys
      → get_entity run_job ws key s'.db.jobs ≡ get_entity run_job ws key s.db.jobs
  unfolding sweep_all
  get-sweep_all_ne [] s s' ws key h hs = cc
  get-sweep_all_ne ((at, job_id) ∷ rest) s s' ws key h hs =
      let (found, read, h') = >>=-eq-ok (get_run_job at job_id s.db) _ h in
      let (s₁, swept, h₂) = >>=-eq-ok (sweep_job has_queue error now found s) _ h' in
      get-sweep_all_ne rest s₁ s' ws key h₂ hs.1 ∙ step found s₁ read swept
    where
      step :
          (found : Option RunJob) (s₁ : Swept)
          → get_run_job at job_id s.db ≡ ok found
          → sweep_job has_queue error now found s ≡ ok s₁
          → get_entity run_job ws key s₁.db.jobs ≡ get_entity run_job ws key s.db.jobs
      step none s₁ read swept = cc
      step (some job) s₁ read swept =
          get-sweep_job_ne job s s₁ ws key swept
            (λ p. hs.0 (sym (found-key at job_id s.db job read) ∙ p))

-- every listed key is that of an expired row
listed :
    (now batch : ℕ) (db : Db) (key : String) (job : RunJob)
    → IsKeyed db.jobs
    → find_row run_job key db.jobs ≡ some job
    → is_expired now job ≡ false
    → All (λ p. p.1 ≢ key) (expired_run_job_leases now batch db)
unfolding expired_run_job_leases
listed now batch db key job keyed found healthy =
    All-map (λ j. (j.workspace_id, j.id)) (λ p. p.1 ≢ key) _
      (All-take (λ j. j.id ≢ key) batch _
        (All-sort_with sooner (λ j. j.id ≢ key) _
          (All-select_of (is_expired now) (λ j. j.id ≢ key) db.jobs other)))
  where
    other : All (λ row. is_expired now row ≡ true → row.id ≢ key) db.jobs
    other =
        All-weaken (λ row. find_row run_job row.id db.jobs ≡ some row)
          (λ row. is_expired now row ≡ true → row.id ≢ key) db.jobs
          (λ row at ex p. clash row at ex p) keyed
      where
        clash :
            (row : RunJob)
            → find_row run_job row.id db.jobs ≡ some row
            → is_expired now row ≡ true
            → ¬ (row.id ≡ key)
        clash row at ex p =
            let same : some row ≡ some job = sym at ∙ rw p found in absurd (ground arith)

-- A sweep never touches a healthy job: in a table keyed by id, the row of a job that is not
-- expired when the sweep lists the expired ones (it is not in flight, has no lease, or its lease
-- ends no sooner than now) is read after the sweep as before it, whatever the batch.
pub get-sweep_once :
    (has_queue : Bool) (error : String) (now batch : ℕ) (db : Db) (s : Swept) (ws key : String)
    (job : RunJob)
    → IsKeyed db.jobs
    → find_row run_job key db.jobs ≡ some job
    → is_expired now job ≡ false
    → sweep_once has_queue error now batch db ≡ ok s
    → get_entity run_job ws key s.db.jobs ≡ get_entity run_job ws key db.jobs
unfolding sweep_once
get-sweep_once has_queue error now batch db s ws key job keyed found healthy h =
    get-sweep_all_ne has_queue error now (expired_run_job_leases now batch db)
      (record { db = db; requeued = []; reaped = 0 }) s ws key h
      (listed now batch db key job keyed found healthy)
