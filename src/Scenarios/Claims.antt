-- ===== src/Scenarios/Claims.antt =====
-- Workers that claim scenario jobs never hold the same one (storage/postgres/queries.py).
use selfevals.Prelude.{
  ℕ, String, str_eq, eq_iff, ◌≡◌, ◌≢◌, Bool, true, false, List, [], ◌∷◌, arith, Bool-cases, inl,
  inr, All, All-take, All-sort_with, All-map, All-select, All-select_of, All-weaken, All-always,
}
use selfevals.Scenarios.{ScenarioJob}
use selfevals.Scenarios.Queue.{
  contains, is_pending, claimable, frontier, update_claimed, claim_scenario_jobs,
}

pub contains-All :
    (P : String → Type 0) (keys : List String) (key : String)
    → All P keys
    → contains keys key ≡ true
    → P key
contains-All P [] key h e = absurd (ground arith)
contains-All P (k ∷ ks) key h e = elim (Bool-cases (str_eq k key)) [
  | inl same ↦ rw (← (eq_iff k key).0 same) h.0
  | inr other ↦ contains-All P ks key h.1 (rw other at e)
]

module _ (id_le : String → String → Bool) (locked : String → Bool) (run : String) (n : ℕ) where
  -- a row that is pending in the table after a claim was not claimed
  update_claimed-pending :
      (ids : List String) (worker : String) (until : ℕ) (rows : List ScenarioJob)
      → All
          (λ j. is_pending j.status ≡ true → contains ids j.id ≡ false)
          (update_claimed id_le locked run n ids worker until rows)
  unfolding update_claimed
  update_claimed-pending ids worker until [] = tt
  update_claimed-pending ids worker until (j ∷ js) = elim (Bool-cases (contains ids j.id)) [
    | inl e ↦ rw e ((λ h. absurd (ground arith)), update_claimed-pending ids worker until js)
    | inr e ↦ rw e ((λ h. e), update_claimed-pending ids worker until js)
  ]

  -- what holds of every pending row holds of every row that a claim takes
  pub frontier-All :
      (P : String → Type 0) (batch : ℕ) (rows : List ScenarioJob)
      → All (λ j. claimable id_le locked run n j ≡ true → P j.id) rows
      → All P (frontier id_le locked run n batch rows)
  unfolding frontier
  frontier-All P batch rows h =
      All-map (λ j. j.id) P _
        (All-take (λ j. P j.id) batch _
          (All-sort_with (λ a b. id_le a.id b.id) (λ j. P j.id) _
            (All-select_of (claimable id_le locked run n) (λ j. P j.id) rows h)))

module _ (id_le : String → String → Bool) (run : String) (n : ℕ) where
  -- every row that a claim returns is in its frontier
  claimed-in_frontier :
      (locked : String → Bool) (worker : String) (until batch : ℕ) (rows : List ScenarioJob)
      → All
          (λ j. contains (frontier id_le locked run n batch rows) j.id ≡ true)
          (claim_scenario_jobs id_le locked run n worker until batch rows).0
  unfolding claim_scenario_jobs
  claimed-in_frontier locked worker until batch rows =
      All-select (λ (j : ScenarioJob). contains (frontier id_le locked run n batch rows) j.id) _

  -- so what holds of the id of every claimable row holds of every row returned
  claimed-All :
      (P : String → Type 0) (locked : String → Bool) (worker : String) (until batch : ℕ)
      (rows : List ScenarioJob)
      → All (λ j. claimable id_le locked run n j ≡ true → P j.id) rows
      → All (λ j. P j.id) (claim_scenario_jobs id_le locked run n worker until batch rows).0
  claimed-All P locked worker until batch rows h =
      All-weaken (λ j. contains (frontier id_le locked run n batch rows) j.id ≡ true) (λ j. P j.id)
        _
        (λ j e.
          contains-All P (frontier id_le locked run n batch rows) j.id
            (frontier-All id_le locked run n P batch rows h) e)
        (claimed-in_frontier locked worker until batch rows)

  apart :
      (ids : List String) (first second : List ScenarioJob)
      → All (λ a. contains ids a.id ≡ true) first
      → All (λ b. contains ids b.id ≡ false) second
      → All (λ a. All (λ b. a.id ≢ b.id) second) first
  apart ids first second h k =
      All-weaken (λ a. contains ids a.id ≡ true) (λ a. All (λ b. a.id ≢ b.id) second) first
        (λ a e.
          All-weaken (λ b. contains ids b.id ≡ false) (λ b. a.id ≢ b.id) second
            (λ b f p. clash a.id b.id e f p) k)
        h
    where
      clash : (x y : String) → contains ids x ≡ true → contains ids y ≡ false → ¬ (x ≡ y)
      clash x y e f p = let g : contains ids y ≡ true = rw (← p) e in cc

  -- No scenario job is claimed twice: of two workers that claim from one iteration, the second
  -- takes no row that the first took, neither when it claims after the first has committed nor when
  -- it claims at the same time and skips the rows that the first has locked.
  pub claim-claim :
      (worker worker' : String) (until until' batch batch' : ℕ) (rows : List ScenarioJob)
      (locked locked' : String → Bool)
      → All
          (λ a.
            All
              (λ b. a.id ≢ b.id)
              (claim_scenario_jobs id_le locked' run n worker' until' batch'
                (claim_scenario_jobs id_le locked run n worker until batch rows).1).0)
          (claim_scenario_jobs id_le locked run n worker until batch rows).0
        × All
            (λ a.
              All
                (λ b. a.id ≢ b.id)
                (claim_scenario_jobs id_le
                  (contains (frontier id_le locked run n batch rows))
                  run
                  n
                  worker'
                  until'
                  batch'
                  rows).0)
            (claim_scenario_jobs id_le locked run n worker until batch rows).0
  unfolding claim_scenario_jobs claimable
  claim-claim worker worker' until until' batch batch' rows locked locked' =
      let ids = frontier id_le locked run n batch rows in
      let first = claimed-in_frontier locked worker until batch rows in
      (
        apart ids _ _ first (
            claimed-All (λ k. contains ids k ≡ false) locked' worker' until' batch' _
              (All-weaken (λ j. is_pending j.status ≡ true → contains ids j.id ≡ false)
                (λ j. claimable id_le locked' run n j ≡ true → contains ids j.id ≡ false) _
                (λ j f e. f (ground arith))
                (update_claimed-pending id_le locked run n ids worker until rows))),
        apart ids _ _ first (
            claimed-All (λ k. contains ids k ≡ false) (contains ids) worker' until' batch' rows
              (All-always
                (λ j. claimable id_le (contains ids) run n j ≡ true → contains ids j.id ≡ false)
                rows (λ j e. ground arith))),
      )
