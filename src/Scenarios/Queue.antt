-- ===== src/Scenarios/Queue.antt =====
-- storage/postgres/queries.py: the statements on the table `scenario_jobs`, a list of rows. The
-- order of ids is the database's, an argument; so are the rows that other transactions have locked.
use selfevals.Prelude.{
  ℕ, ◌+◌, ◌==◌, String, str_eq, Bool, true, false, ◌&&◌, ◌||◌, not, Option, none, some, List, [],
  ◌∷◌, if◌then◌else◌, select, take, count, any, sort_with, map,
}
use selfevals.Scenarios.{ScenarioJob, ScenarioJobStatus}

abbrev pub contains : List String → String → Bool
contains [] key = false
contains (k ∷ ks) key = str_eq k key || contains ks key

abbrev pub is_pending : ScenarioJobStatus → Bool
is_pending ScenarioJobStatus.pending = true
is_pending _ = false

-- status IN ('claimed', 'running')
abbrev pub is_held : ScenarioJobStatus → Bool
is_held ScenarioJobStatus.claimed = true
is_held ScenarioJobStatus.running = true
is_held _ = false

-- run_job_id = … AND iteration = …
unfoldable pub in_iteration : String → ℕ → ScenarioJob → Bool
in_iteration run n j = str_eq j.run_job_id run && j.iteration == n

module _ (id_le : String → String → Bool) (locked : String → Bool) (run : String) (n : ℕ) where
  -- the inner SELECT: the pending rows that no other transaction has locked
  unfoldable pub claimable : ScenarioJob → Bool
  unfolding in_iteration
  claimable j = in_iteration run n j && is_pending j.status && not (locked j.id)

  unfoldable pub frontier : ℕ → List ScenarioJob → List String
  frontier batch rows =
      map (λ j. j.id) (take batch (sort_with (λ a b. id_le a.id b.id) (select claimable rows)))

  -- the UPDATE's SET clause
  unfoldable pub claimed_row : String → ℕ → ScenarioJob → ScenarioJob
  claimed_row worker until j = record j {
    status = ScenarioJobStatus.claimed;
    worker_id = some worker;
    lease_until = some until;
    attempt = j.attempt + 1;
  }

  unfoldable pub update_claimed : List String → String → ℕ → List ScenarioJob → List ScenarioJob
  unfolding claimed_row
  update_claimed ids worker until =
      map (λ j. if contains ids j.id then claimed_row worker until j else j)

  -- the rows that RETURNING gives, and the table afterwards
  unfoldable pub claim_scenario_jobs :
      String → ℕ → ℕ → List ScenarioJob → List ScenarioJob × List ScenarioJob
  unfolding update_claimed frontier
  claim_scenario_jobs worker until batch rows =
      let ids = frontier batch rows in
      let rows' = update_claimed ids worker until rows in
      (select (λ j. contains ids j.id) rows', rows')

unfoldable pub same_unit : ScenarioJob → ScenarioJob → Bool
same_unit a b =
    str_eq a.run_job_id b.run_job_id && a.iteration == b.iteration && str_eq a.case_id b.case_id

-- ON CONFLICT (run_job_id, iteration, case_id) DO NOTHING, and the row count
unfoldable pub insert_scenario_jobs : List ScenarioJob → List ScenarioJob → List ScenarioJob × ℕ
unfolding same_unit
insert_scenario_jobs [] rows = (rows, 0)
insert_scenario_jobs (j ∷ js) rows =
    let clash = any (same_unit j) rows in
    let (rows', added) = insert_scenario_jobs js (if clash then rows else j ∷ rows) in
    (rows', if clash then added else added + 1)

-- `barrier_counts`, and the sum that the coordinator takes of it
unfoldable pub barrier_counts : String → ℕ → (ScenarioJobStatus → Bool) → List ScenarioJob → ℕ
unfolding in_iteration
barrier_counts run n test = count (λ j. in_iteration run n j && test j.status)

-- the UPDATE of `finalize_scenario_job`
unfoldable pub finalized_row : ScenarioJobStatus → Option String → ℕ → ScenarioJob → ScenarioJob
finalized_row status error finished j = record j {
  status = status;
  error = error;
  worker_id = none;
  lease_until = none;
  finished_at = if is_pending status then j.finished_at else some finished;
}

unfoldable pub finalize_scenario_job :
    String → ScenarioJobStatus → Option String → ℕ → List ScenarioJob → List ScenarioJob
unfolding finalized_row
finalize_scenario_job key status error finished =
    map (λ j. if str_eq j.id key then finalized_row status error finished j else j)

unfoldable pub touch_scenario_job_lease :
    String → String → ℕ → List ScenarioJob → List ScenarioJob × Bool
touch_scenario_job_lease key worker until rows = (
  map
      (λ j.
        if str_eq j.id key && is_held j.status
        then record j { lease_until = some until; worker_id = some worker }
        else j)
      rows,
  any (λ j. str_eq j.id key && is_held j.status) rows,
)
