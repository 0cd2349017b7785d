-- ===== src/Scenarios/Planning.antt =====
-- api/run_jobs.py, `plan_scenario_jobs`: seeding one scenario job for each case of an iteration.
use selfevals.Prelude.{
  ℕ, String, eq_iff, ◌≡◌, refl, Bool, true, false, none, List, [], ◌∷◌, arith, Bool-cases, inl, inr,
  any, All, map,
}
use selfevals.Jobs.{RunJob}
use selfevals.Scenarios.{ScenarioJob, ScenarioJobStatus}
use selfevals.Scenarios.Queue.{same_unit, insert_scenario_jobs}

module _ (job : RunJob) (iteration : ℕ) (overrides : String) (reps : ℕ) where
  -- `make_id` stands for the fresh id of a case's row
  unfoldable pub planned : (String → String) → String → ScenarioJob
  planned make_id case_id = record {
    id = make_id case_id;
    workspace_id = job.workspace_id;
    run_job_id = job.id;
    experiment_id = job.experiment_id;
    iteration = iteration;
    case_id = case_id;
    reps = reps;
    status = ScenarioJobStatus.pending;
    attempt = 0;
    max_attempts = job.max_attempts;
    lease_until = none;
    worker_id = none;
    error = none;
    parameter_overrides = overrides;
    started_at = none;
    finished_at = none;
  }

  unfoldable pub plan_scenario_jobs :
      (String → String) → List String → List ScenarioJob → List ScenarioJob × ℕ
  unfolding planned
  plan_scenario_jobs make_id case_ids rows =
      insert_scenario_jobs (map (planned make_id) case_ids) rows

-- No two rows are of one case of one iteration of one run: the UNIQUE constraint of the table.
abbrev pub IsUnique : List ScenarioJob → Type 0
IsUnique [] = Unit
IsUnique (row ∷ rows) = (any (same_unit row) rows ≡ false) × IsUnique rows

insert-IsUnique :
    (js rows : List ScenarioJob) → IsUnique rows → IsUnique (insert_scenario_jobs js rows).0
unfolding insert_scenario_jobs
insert-IsUnique [] rows u = u
insert-IsUnique (j ∷ js) rows u = elim (Bool-cases (any (same_unit j) rows)) [
  | inl e ↦ rw e (insert-IsUnique js rows u)
  | inr e ↦ rw e (insert-IsUnique js (j ∷ rows) (e, u))
]

-- what a row covers stays covered
insert-keeps :
    (test : ScenarioJob → Bool) (js rows : List ScenarioJob)
    → any test rows ≡ true
    → any test (insert_scenario_jobs js rows).0 ≡ true
unfolding insert_scenario_jobs
insert-keeps test [] rows h = h
insert-keeps test (j ∷ js) rows h = elim (Bool-cases (any (same_unit j) rows)) [
  | inl e ↦ rw e (insert-keeps test js rows h)
  | inr e ↦ rw e (insert-keeps test js (j ∷ rows) (ground arith))
]

same_unit_refl : (j : ScenarioJob) → same_unit j j ≡ true
unfolding same_unit
same_unit_refl j = ground (arith, eq_iff j.run_job_id j.run_job_id, eq_iff j.case_id j.case_id)

-- every row that was to be inserted has a row of its unit afterwards
insert-covers :
    (js rows out : List ScenarioJob)
    → (insert_scenario_jobs js rows).0 ≡ out
    → All (λ j. any (same_unit j) out ≡ true) js
unfolding insert_scenario_jobs
insert-covers [] rows out e = tt
insert-covers (j ∷ js) rows out e = elim (Bool-cases (any (same_unit j) rows)) [
  | inl c ↦
      let e' : (insert_scenario_jobs js rows).0 ≡ out = rw c at e in
      (rw (← e') (insert-keeps (same_unit j) js rows c), insert-covers js rows out e')
  | inr c ↦
      let e' : (insert_scenario_jobs js (j ∷ rows)).0 ≡ out = rw c at e in
      (
        rw (← e') (insert-keeps (same_unit j) js (j ∷ rows) (ground (arith, same_unit_refl j))),
        insert-covers js (j ∷ rows) out e',
      )
]

insert_covered :
    (js rows : List ScenarioJob)
    → All (λ j. any (same_unit j) rows ≡ true) js
    → insert_scenario_jobs js rows ≡ (rows, 0)
unfolding insert_scenario_jobs
insert_covered [] rows h = refl
insert_covered (j ∷ js) rows h = rw h.0 (rw (insert_covered js rows h.1))

module _ (job : RunJob) (n : ℕ) (f g : String → String) (p q : String) (reps reps' : ℕ) where
  -- the unit of a planned row does not depend on its id, its overrides or its repetitions
  replanned :
      (case_ids : List String) (rows : List ScenarioJob)
      → All (λ j. any (same_unit j) rows ≡ true) (map (planned job n p reps f) case_ids)
      → All (λ j. any (same_unit j) rows ≡ true) (map (planned job n q reps' g) case_ids)
  unfolding planned same_unit
  replanned [] rows h = tt
  replanned (c ∷ cs) rows h = (h.0, replanned cs rows h.1)

  -- Planning an iteration again, as a restarted coordinator does, inserts nothing and changes
  -- nothing, whatever fresh ids, overrides and repetitions it plans with; and planning keeps the
  -- table free of two rows for one case of an iteration.
  pub plan-plan :
      (case_ids : List String) (rows : List ScenarioJob)
      → IsUnique rows
      → (plan_scenario_jobs job n q reps' g case_ids
            (plan_scenario_jobs job n p reps f case_ids rows).0
          ≡ ((plan_scenario_jobs job n p reps f case_ids rows).0, 0))
        × IsUnique (plan_scenario_jobs job n p reps f case_ids rows).0
  unfolding plan_scenario_jobs
  plan-plan case_ids rows u = (
    insert_covered (map (planned job n q reps' g) case_ids) _
        (replanned case_ids _ (insert-covers (map (planned job n p reps f) case_ids) rows _ refl)),
    insert-IsUnique (map (planned job n p reps f) case_ids) rows u,
  )
