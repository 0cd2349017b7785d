-- ===== src/Scenarios/Batches.antt =====
-- What a batch of scenario jobs keeps true of the table (worker/scenario_runner.py).
use mathlib.Core.Path.{subst}
use selfevals.Prelude.{
  ℕ, ◌<◌, String, str_eq, eq_iff, ◌≡◌, refl, ap, sym, ◌∙◌, Bool, true, false, Option, none, some,
  List, [], ◌∷◌, arith, Bool-cases, inl, inr, All, All-weaken, All-always, All-both, select, map,
}
use selfevals.Scenarios.{ScenarioJob, ScenarioJobStatus, mark_failed_or_dead_lettered}
use selfevals.Scenarios.Queue.{
  contains, is_pending, is_held, in_iteration, claimable, frontier, update_claimed,
  finalize_scenario_job,
}
use selfevals.Scenarios.Claims.{frontier-All, contains-All}
use selfevals.Scenarios.Worker.{run_one, run_batch}

-- Two rows with one id are one row: the primary key of the table.
abbrev pub IsKeyed : List ScenarioJob → Type 0
IsKeyed rows = All (λ j. All (λ r. r.id ≡ j.id → r ≡ j) rows) rows

-- a pending row of the iteration has an attempt left
abbrev pub HasAttempt : String → ℕ → ScenarioJob → Type 0
HasAttempt run n j =
    in_iteration run n j ≡ true → is_pending j.status ≡ true → j.attempt < j.max_attempts

-- no worker holds a row of the iteration
abbrev pub IsFree : String → ℕ → ScenarioJob → Type 0
IsFree run n j = in_iteration run n j ≡ true → is_held j.status ≡ false

pub All-map_of :
    (P Q : ScenarioJob → Type 0) (f : ScenarioJob → ScenarioJob) (rows : List ScenarioJob)
    → ((j : ScenarioJob) → P j → Q (f j))
    → All P rows
    → All Q (map f rows)
All-map_of P Q f [] k h = tt
All-map_of P Q f (j ∷ js) k h = (k j h.0, All-map_of P Q f js k h.1)

-- a statement that rewrites rows one by one, and no id, keeps the key
pub map-IsKeyed :
    (f : ScenarioJob → ScenarioJob) (rows : List ScenarioJob)
    → ((j : ScenarioJob) → (f j).id ≡ j.id)
    → IsKeyed rows
    → IsKeyed (map f rows)
map-IsKeyed f rows same keyed =
    All-map_of (λ j. All (λ r. r.id ≡ j.id → r ≡ j) rows)
      (λ j. All (λ r. r.id ≡ j.id → r ≡ j) (map f rows)) f rows
      (λ j h.
        All-map_of (λ r. r.id ≡ j.id → r ≡ j) (λ r. r.id ≡ (f j).id → r ≡ f j) f rows
          (λ r k e. ap f (k (sym (same r) ∙ e ∙ same j))) h)
      keyed

-- a copy of a row that a worker holds has the row's attempts
abbrev pub IsCopy : ScenarioJob → ScenarioJob → Type 0
IsCopy job r = r.id ≡ job.id → (r.attempt ≡ job.attempt) × (r.max_attempts ≡ job.max_attempts)

module _ (run : String) (n : ℕ) where
  finalize-HasAttempt :
      (key : String) (s : ScenarioJobStatus) (e : Option String) (at : ℕ) (rows : List ScenarioJob)
      → All (HasAttempt run n) rows
      → All (λ r. r.id ≡ key → is_pending s ≡ true → r.attempt < r.max_attempts) rows
      → All (HasAttempt run n) (finalize_scenario_job key s e at rows)
  unfolding finalize_scenario_job in_iteration
  finalize-HasAttempt key s e at [] h k = tt
  finalize-HasAttempt key s e at (r ∷ rs) h k = elim (Bool-cases (str_eq r.id key)) [
    | inl same ↦
        rw same
          ((λ _ p. k.0 ((eq_iff r.id key).0 same) p), finalize-HasAttempt key s e at rs h.1 k.1)
    | inr other ↦ rw other (h.0, finalize-HasAttempt key s e at rs h.1 k.1)
  ]

  run_one-HasAttempt :
      (now : ℕ) (o : Option String) (job : ScenarioJob) (rows : List ScenarioJob)
      → All (HasAttempt run n) rows
      → All (IsCopy job) rows
      → All (HasAttempt run n) (run_one now o job rows)
  unfolding run_one mark_failed_or_dead_lettered
  run_one-HasAttempt now none job rows h c =
      finalize-HasAttempt job.id ScenarioJobStatus.succeeded none now rows h
        (All-always _ rows (λ r _ p. cc))
  run_one-HasAttempt now (some x) job rows h c =
      finalize-HasAttempt job.id (mark_failed_or_dead_lettered x now job).0.status (some x) now rows
        h (All-weaken (IsCopy job) _ rows (λ r k same p. retried r (k same) p) c)
    where
      retried :
          (r : ScenarioJob)
          → (r.attempt ≡ job.attempt) × (r.max_attempts ≡ job.max_attempts)
          → is_pending (mark_failed_or_dead_lettered x now job).0.status ≡ true
          → r.attempt < r.max_attempts
      retried r k p = ground arith

  run_one-IsCopy :
      (now : ℕ) (o : Option String) (job job' : ScenarioJob) (rows : List ScenarioJob)
      → All (IsCopy job') rows
      → All (IsCopy job') (run_one now o job rows)
  unfolding run_one finalize_scenario_job
  run_one-IsCopy now none job job' rows c =
      All-map_of (IsCopy job') (IsCopy job') _ rows (λ r k. ground arith) c
  run_one-IsCopy now (some x) job job' rows c =
      All-map_of (IsCopy job') (IsCopy job') _ rows (λ r k. ground arith) c

  pub run_batch-HasAttempt :
      (exec : ScenarioJob → Option String) (now : ℕ) (jobs rows : List ScenarioJob)
      → All (HasAttempt run n) rows
      → All (λ job. All (IsCopy job) rows) jobs
      → All (HasAttempt run n) (run_batch exec now jobs rows)
  unfolding run_batch
  run_batch-HasAttempt exec now [] rows h c = h
  run_batch-HasAttempt exec now (j ∷ js) rows h c =
      run_batch-HasAttempt exec now js (run_one now (exec j) j rows)
        (run_one-HasAttempt now (exec j) j rows h c.0)
        (All-weaken (λ job. All (IsCopy job) rows)
          (λ job. All (IsCopy job) (run_one now (exec j) j rows)) js
          (λ job k. run_one-IsCopy now (exec j) j job rows k) c.1)

abbrev pub ids_of : List ScenarioJob → List String
ids_of = map (λ j. j.id)

run_one-IsKeyed :
    (now : ℕ) (o : Option String) (job : ScenarioJob) (rows : List ScenarioJob)
    → IsKeyed rows
    → IsKeyed (run_one now o job rows)
unfolding run_one finalize_scenario_job
run_one-IsKeyed now none job rows k = map-IsKeyed _ rows (λ r. ground arith) k
run_one-IsKeyed now (some x) job rows k = map-IsKeyed _ rows (λ r. ground arith) k

pub run_batch-IsKeyed :
    (exec : ScenarioJob → Option String) (now : ℕ) (jobs rows : List ScenarioJob)
    → IsKeyed rows
    → IsKeyed (run_batch exec now jobs rows)
unfolding run_batch
run_batch-IsKeyed exec now [] rows k = k
run_batch-IsKeyed exec now (j ∷ js) rows k =
    run_batch-IsKeyed exec now js (run_one now (exec j) j rows)
      (run_one-IsKeyed now (exec j) j rows k)

module _ (run : String) (n : ℕ) where
  -- a row of the iteration that a worker holds is one of those still to be run
  abbrev pub HeldIn : List String → ScenarioJob → Type 0
  HeldIn ids r = in_iteration run n r ≡ true → is_held r.status ≡ true → contains ids r.id ≡ true

  run_one-HeldIn :
      (now : ℕ) (o : Option String) (job : ScenarioJob) (ids : List String)
      (rows : List ScenarioJob)
      → All (HeldIn (job.id ∷ ids)) rows
      → All (HeldIn ids) (run_one now o job rows)
  unfolding run_one finalize_scenario_job mark_failed_or_dead_lettered in_iteration
  run_one-HeldIn now none job ids rows h =
      All-map_of (HeldIn (job.id ∷ ids)) (HeldIn ids) _ rows
        (λ r k i e. ground (arith, eq_iff r.id job.id, eq_iff job.id r.id, k)) h
  run_one-HeldIn now (some x) job ids rows h =
      All-map_of (HeldIn (job.id ∷ ids)) (HeldIn ids) _ rows
        (λ r k i e. ground (arith, eq_iff r.id job.id, eq_iff job.id r.id, k)) h

  pub run_batch-IsFree :
      (exec : ScenarioJob → Option String) (now : ℕ) (jobs rows : List ScenarioJob)
      → All (HeldIn (ids_of jobs)) rows
      → All (IsFree run n) (run_batch exec now jobs rows)
  unfolding run_batch
  run_batch-IsFree exec now [] rows h =
      All-weaken (HeldIn []) (IsFree run n) rows (λ r k i. ground (arith, k i)) h
  run_batch-IsFree exec now (j ∷ js) rows h =
      run_batch-IsFree exec now js (run_one now (exec j) j rows)
        (run_one-HeldIn now (exec j) j (ids_of js) rows h)

-- what is taken from a list has its id among the ids taken
select-contains :
    (test : ScenarioJob → Bool) (rows out : List ScenarioJob)
    → select test rows ≡ out
    → All (λ r. test r ≡ true → contains (ids_of out) r.id ≡ true) rows
select-contains test [] out e = tt
select-contains test (r ∷ rs) out e = elim (Bool-cases (test r)) [
  | inl t ↦
      let e' : r ∷ select test rs ≡ out = rw t at e in
      (
        (λ _. subst (λ o. contains (ids_of o) r.id ≡ true) e' (ground (arith, eq_iff r.id r.id))),
        All-weaken (λ s. test s ≡ true → contains (ids_of (select test rs)) s.id ≡ true) _ rs
            (λ s k p. subst (λ o. contains (ids_of o) s.id ≡ true) e' (ground (arith, k p)))
            (select-contains test rs (select test rs) refl),
      )
  | inr f ↦
      let e' : select test rs ≡ out = rw f at e in
      ((λ p. absurd (ground arith)), select-contains test rs out e')
]

-- what holds of the rows of each id in a list holds of the rows whose ids are in it
rows_of :
    (P : ScenarioJob → Type 0) (ids : List String) (rows : List ScenarioJob)
    → ((key : String) → contains ids key ≡ true → All (λ r. r.id ≡ key → P r) rows)
    → All (λ r. contains ids r.id ≡ true → P r) rows
rows_of P ids [] h = tt
rows_of P ids (r ∷ rs) h = ((λ e. (h r.id e).0 refl), rows_of P ids rs (λ key e. (h key e).1))

module _ (id_le : String → String → Bool) (run : String) (n : ℕ) where
  -- every id of the frontier is that of rows with an attempt left
  pub frontier-attempt :
      (batch : ℕ) (rows : List ScenarioJob)
      → IsKeyed rows
      → All (HasAttempt run n) rows
      → All
          (λ r.
            contains (frontier id_le (λ _. false) run n batch rows) r.id ≡ true
            → r.attempt < r.max_attempts)
          rows
  unfolding claimable
  frontier-attempt batch rows keyed h =
      rows_of (λ r. r.attempt < r.max_attempts) (frontier id_le (λ _. false) run n batch rows) rows
        (λ key e.
          contains-All (λ key. All (λ r. r.id ≡ key → r.attempt < r.max_attempts) rows)
            (frontier id_le (λ _. false) run n batch rows) key
            (frontier-All id_le (λ _. false) run n
              (λ key. All (λ r. r.id ≡ key → r.attempt < r.max_attempts) rows) batch rows
              (All-weaken _ _ rows both (
                All-both (λ j. All (λ r. r.id ≡ j.id → r ≡ j) rows) (HasAttempt run n) rows keyed
                  h)))
            e)
    where
      both :
          (j : ScenarioJob)
          → All (λ r. r.id ≡ j.id → r ≡ j) rows × HasAttempt run n j
          → claimable id_le (λ _. false) run n j ≡ true
          → All (λ r. r.id ≡ j.id → r.attempt < r.max_attempts) rows
      both j (same, left) e =
          All-weaken (λ r. r.id ≡ j.id → r ≡ j) (λ r. r.id ≡ j.id → r.attempt < r.max_attempts) rows
            (λ r k p.
              subst (λ (s : ScenarioJob). s.attempt < s.max_attempts) (sym (k p))
                (left (ground arith) (ground arith)))
            same

  claimed_is_claimed :
      (ids : List String) (worker : String) (until : ℕ) (rows : List ScenarioJob)
      → All (IsFree run n) rows
      → All
          (λ r. in_iteration run n r ≡ true → is_held r.status ≡ true → contains ids r.id ≡ true)
          (update_claimed id_le (λ _. false) run n ids worker until rows)
  unfolding update_claimed in_iteration
  claimed_is_claimed ids worker until rows h =
      All-map_of (IsFree run n) _ _ rows (λ r k i e. ground (arith, k)) h

  pub claim-HeldIn :
      (ids : List String) (worker : String) (until : ℕ) (rows out : List ScenarioJob)
      → update_claimed id_le (λ _. false) run n ids worker until rows ≡ out
      → All (IsFree run n) rows
      → All (HeldIn run n (ids_of (select (λ j. contains ids j.id) out))) out
  claim-HeldIn ids worker until rows out e h =
      All-weaken _ _ out (λ r k i p. k.1 (k.0 i p))
        (All-both
          (λ r. in_iteration run n r ≡ true → is_held r.status ≡ true → contains ids r.id ≡ true)
          (λ r.
            contains ids r.id ≡ true
            → contains (ids_of (select (λ j. contains ids j.id) out)) r.id ≡ true)
          out (rw (← e) (claimed_is_claimed ids worker until rows h))
          (select-contains (λ j. contains ids j.id) out _ refl))
