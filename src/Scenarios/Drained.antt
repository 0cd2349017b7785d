-- ===== src/Scenarios/Drained.antt =====
-- The drain of an iteration ends, and then the coordinator's barrier is clear
-- (worker/scenario_runner.py, optimization/coordinator.py).
use mathlib.Core.Path.{subst}
use selfevals.Prelude.{
  not, ◌&&◌, ℕ, zero, suc, ◌+◌, ◌<◌, ◌≤◌, ◌==◌, String, str_eq, eq_iff, ◌≡◌, refl, ap, sym, ◌∙◌,
  Bool, true, false, ◌&&◌, Option, some, List, [], ◌∷◌, arith, Bool-cases, inl, inr, All,
  All-weaken, select, take, map, any, length, count, length-sort_with, length-select,
}
use selfevals.Scenarios.{ScenarioJob, is_terminal}
use selfevals.Scenarios.Queue.{
  contains, is_pending, is_held, in_iteration, claimable, frontier, update_claimed, barrier_counts,
}
use selfevals.Scenarios.Claims.{frontier-All}
use selfevals.Scenarios.Batches.{IsFree}
use selfevals.Scenarios.Draining.{
  IsReady, attempts_left, ids, claimed_table, batch_of, once, once_lem, once-IsReady, once-attempts,
}
use selfevals.Jobs.{RunJob}
use selfevals.Scenarios.Worker.{Worker, run_batch, run_scenario_jobs_once, drain, in_flight}

length-take_zero : {A : Type 0} (n : ℕ) (xs : List A) → take n xs ≡ [] → 0 < n → length xs ≡ 0
length-take_zero zero xs e h = absurd (omega arith)
length-take_zero (suc n) [] e h = refl
length-take_zero (suc n) (x ∷ xs) e h = cc

map_nil : {A B : Type 0} (f : A → B) (xs : List A) → map f xs ≡ [] → xs ≡ []
map_nil f [] e = refl
map_nil f (x ∷ xs) e = cc

any_self : (rows : List ScenarioJob) → All (λ j. any (λ r. str_eq r.id j.id) rows ≡ true) rows
any_self [] = tt
any_self (j ∷ js) = (
  ground (arith, eq_iff j.id j.id),
  All-weaken (λ k. any (λ r. str_eq r.id k.id) js ≡ true)
      (λ k. any (λ r. str_eq r.id k.id) (j ∷ js) ≡ true) js (λ k h. ground (arith, h))
      (any_self js),
)

module _ (id_le : String → String → Bool) (run : String) (n : ℕ) where
  -- a claim of an id that a row has returns a row
  claim_some :
      (keys : List String) (key worker : String) (until : ℕ) (rows : List ScenarioJob)
      → contains keys key ≡ true
      → any (λ r. str_eq r.id key) rows ≡ true
      → 0
        < length (
            select
              (λ j. contains keys j.id)
              (update_claimed id_le (λ _. false) run n keys worker until rows))
  unfolding update_claimed
  claim_some keys key worker until [] c h = absurd (ground arith)
  claim_some keys key worker until (r ∷ rs) c h = elim (Bool-cases (contains keys r.id)) [
    | inl e ↦ rw e (rw e (omega arith))
    | inr e ↦ rw e (rw e (claim_some keys key worker until rs c (other e)))
  ]
    where
      other : contains keys r.id ≡ false → any (λ s. str_eq s.id key) rs ≡ true
      other e = elim (Bool-cases (str_eq r.id key)) [
        | inl same ↦
            let f : contains keys key ≡ false = rw (← (eq_iff r.id key).0 same) e in
            absurd (ground arith)
        | inr miss ↦ rw miss at h
      ]

  -- a batch with room that takes nothing finds nothing to take
  nothing_claimable :
      (batch : ℕ) (worker : String) (until : ℕ) (rows : List ScenarioJob) (keys : List String)
      → frontier id_le (λ _. false) run n batch rows ≡ keys
      → 0 < batch
      → length (
          select
            (λ j. contains keys j.id)
            (update_claimed id_le (λ _. false) run n keys worker until rows))
        ≡ 0
      → count (claimable id_le (λ _. false) run n) rows ≡ 0
  unfolding frontier
  nothing_claimable batch worker until rows [] e h none_taken = omega (
    arith,
    length-take_zero batch _ (map_nil (λ j. j.id) _ e) h,
    length-sort_with (λ a b. id_le a.id b.id) (select (claimable id_le (λ _. false) run n) rows),
    length-select (claimable id_le (λ _. false) run n) rows,
  )
  nothing_claimable batch worker until rows (k ∷ ks) e h none_taken =
      let all : All (λ key. any (λ r. str_eq r.id key) rows ≡ true) (k ∷ ks) =
        subst (λ l. All (λ key. any (λ r. str_eq r.id key) rows ≡ true) l) e
          (frontier-All id_le (λ _. false) run n (λ key. any (λ r. str_eq r.id key) rows ≡ true)
            batch rows
            (All-weaken (λ j. any (λ r. str_eq r.id j.id) rows ≡ true) _ rows (λ j a _. a)
              (any_self rows))) in
      absurd (
        omega (
          arith,
          claim_some (k ∷ ks) k worker until rows (ground (arith, eq_iff k k)) all.0,
          none_taken,
        ))

  -- a claim leaves no more pending rows than there were
  pending_after_claim :
      (keys : List String) (worker : String) (until : ℕ) (rows : List ScenarioJob)
      → count
          (λ j. in_iteration run n j && is_pending j.status)
          (update_claimed id_le (λ _. false) run n keys worker until rows)
        ≤ count (claimable id_le (λ _. false) run n) rows
  unfolding update_claimed claimable in_iteration
  pending_after_claim keys worker until [] = omega arith
  pending_after_claim keys worker until (r ∷ rs) =
      ground (arith, pending_after_claim keys worker until rs)

count_free :
    (run : String) (n : ℕ) (rows : List ScenarioJob)
    → All (IsFree run n) rows
    → barrier_counts run n is_held rows ≡ 0
unfolding barrier_counts in_iteration
count_free run n [] h = refl
count_free run n (r ∷ rs) h = ground (arith, count_free run n rs h.1, h.0)

run_batch_nil :
    (exec : ScenarioJob → Option String) (now : ℕ) (jobs rows : List ScenarioJob)
    → length jobs ≡ 0
    → run_batch exec now jobs rows ≡ rows
unfolding run_batch
run_batch_nil exec now [] rows e = refl
run_batch_nil exec now (j ∷ js) rows e = absurd (omega arith)

-- the sum that the coordinator polls is zero exactly when no row of the iteration has work left
clear-is_terminal :
    (run : String) (n : ℕ) (rows : List ScenarioJob)
    → in_flight run n rows ≡ 0
    → All (λ j. (in_iteration run n j && not (is_terminal j)) ≡ false) rows
unfolding in_flight barrier_counts is_terminal in_iteration
clear-is_terminal run n [] h = tt
clear-is_terminal run n (r ∷ rs) h = (ground arith, clear-is_terminal run n rs (ground arith))

module _ (w : Worker) (run : String) (n : ℕ) where
  pending_left :
      (rows : List ScenarioJob)
      → 0 < w.batch
      → length (batch_of w run n rows) ≡ 0
      → barrier_counts run n is_pending (claimed_table w run n rows) ≡ 0
  unfolding barrier_counts
  pending_left rows room taken = omega (
    arith,
    pending_after_claim w.id_le run n (ids w run n rows) w.name (w.now + w.lease_seconds) rows,
    nothing_claimable w.id_le run n w.batch w.name (w.now + w.lease_seconds) rows (ids w run n rows)
        refl room taken,
  )

  -- a batch that processes nothing leaves nothing in flight
  once_nothing :
      (rows : List ScenarioJob)
      → IsReady run n rows
      → 0 < w.batch
      → (once w run n rows).0 ≡ 0
      → in_flight run n (once w run n rows).1 ≡ 0
  unfolding in_flight
  once_nothing rows s room zero_taken =
      let r = once-IsReady w run n rows s in
      let taken : length (batch_of w run n rows) ≡ 0 =
        sym (ap (λ (p : ℕ × List ScenarioJob). p.0) (once_lem w run n rows)) ∙ zero_taken in
      let after : (once w run n rows).1 ≡ claimed_table w run n rows =
        ap (λ (p : ℕ × List ScenarioJob). p.1) (once_lem w run n rows)
        ∙ run_batch_nil w.run w.now (batch_of w run n rows) (claimed_table w run n rows) taken in
      omega (
        arith,
        count_free run n (once w run n rows).1 r.free,
        ap (barrier_counts run n is_pending) after ∙ pending_left rows room taken,
      )

  -- A drain ends. Of a run job that is found, and from a table whose ids are keys, in which every
  -- pending job of the iteration has an attempt left and no job of it is held, a worker that claims at least one job at a time and
  -- has more rounds than the jobs have attempts left drains the iteration, whichever cases fail and
  -- however often: then the sum that the coordinator polls is zero, and every job of the iteration
  -- is terminal.
  pub drain-clears :
      (job : RunJob) (fuel : ℕ) (rows : List ScenarioJob)
      → IsReady run n rows
      → 0 < w.batch
      → attempts_left rows < fuel
      → (out : List ScenarioJob) × (drain w run n (some job) fuel rows ≡ some out)
        × (in_flight run n out ≡ 0)
        × All (λ j. (in_iteration run n j && not (is_terminal j)) ≡ false) out
  unfolding drain run_scenario_jobs_once
  drain-clears job zero rows s room h = absurd (omega arith)
  drain-clears job (suc fuel) rows s room h = elim (Bool-cases ((once w run n rows).0 == 0)) [
    | inl done ↦
        let clear = once_nothing rows s room (ground arith) in
        ((once w run n rows).1, rw done, clear, clear-is_terminal run n (once w run n rows).1 clear)
    | inr more ↦
        let fewer : attempts_left (once w run n rows).1 < fuel =
          ground (arith, once-attempts w run n rows s) in
        let (out, e, clear, ended) =
          drain-clears job fuel (once w run n rows).1 (once-IsReady w run n rows s) room fewer in
        (out, rw more e, clear, ended)
  ]
