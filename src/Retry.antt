-- ===== src/Retry.antt =====
-- runner/retry.py, `RetryingAdapter`: a call is made again after a transient error, with a growing
-- delay. The wrapped adapter is an argument, with a state `W`; what is slept is kept in a list, and
-- the random numbers are an argument, one for each attempt. The loop runs on fuel.
pub mod Attempts
use selfevals.Prelude.{
  ℕ, zero, suc, ◌+◌, String, Bool, true, false, ◌||◌, not, Option, none, some, List, [], ◌∷◌, ◌++◌,
  leb, if◌then◌else◌,
}

-- runner/adapters.py, `AdapterError`
pub record AdapterError (F : Type 0) : Type 0 where
  pub message : String
  pub retryable : Bool
  pub status_code : Option ℕ
  pub retry_after_seconds : Option F

pub data Answer (F : Type 0) (A : Type 0) : Type 0 where
  response : A → Answer F A
  raised : AdapterError F → Answer F A

-- What the delays use of floats.
pub record Delays (F : Type 0) : Type 0 where
  pub one : F
  pub add : F → F → F
  pub sub : F → F → F
  pub mul : F → F → F
  pub pow : F → ℕ → F
  pub min : F → F → F
  pub max : F → F → F

pub record RetryPolicy (F : Type 0) : Type 0 where
  pub max_retries : ℕ
  pub base_delay : F
  pub max_delay : F
  pub multiplier : F
  pub jitter : F

-- How an invocation ends: the last answer, what was slept before it, the answers before it and the
-- state of the adapter.
pub record Invoked (F : Type 0) (A : Type 0) (W : Type 0) : Type 0 where
  pub answer : Answer F A
  pub slept : List F
  pub failed : List (AdapterError F)
  pub world : W

module _ {F : Type 0} (d : Delays F) (policy : RetryPolicy F) (random : ℕ → F) where
  unfoldable pub floored : Option F → F → F
  floored none delay = delay
  floored (some after) delay = d.min policy.max_delay (d.max delay after)

  -- `_compute_delay`
  unfoldable pub compute_delay : ℕ → Option F → F
  unfolding floored
  compute_delay attempt retry_after =
      let expo =
        d.min policy.max_delay (d.mul policy.base_delay (d.pow policy.multiplier attempt)) in
      let low = d.mul expo (d.sub d.one policy.jitter) in
      floored retry_after (d.add low (d.mul (random attempt) (d.sub expo low)))

  module _ {A : Type 0} {W : Type 0} (inner : W → Answer F A × W) where
    -- one round of `while True`: `again` is the rounds that follow
    unfoldable pub attempt_once :
        (List F → List (AdapterError F) → W → Option (Invoked F A W))
        → ℕ
        → List F
        → List (AdapterError F)
        → Answer F A × W
        → Option (Invoked F A W)
    unfolding compute_delay
    attempt_once again attempt slept failed (response a, w) =
        some (record { answer = response a; slept = slept; failed = failed; world = w })
    attempt_once again attempt slept failed (raised e, w) =
        if not e.retryable || leb policy.max_retries attempt
        then some (record { answer = raised e; slept = slept; failed = failed; world = w })
        else again (slept ++ (compute_delay attempt e.retry_after_seconds ∷ []))
            (failed ++ (e ∷ [])) w

    unfoldable pub attempts : ℕ → ℕ → List F → List (AdapterError F) → W → Option (Invoked F A W)
    unfolding attempt_once
    attempts zero attempt slept failed w = none
    attempts (suc fuel) attempt slept failed w =
        attempt_once (attempts fuel (attempt + 1)) attempt slept failed (inner w)

    -- `invoke`: max_retries + 1 rounds are enough
    unfoldable pub invoke : W → Option (Invoked F A W)
    unfolding attempts
    invoke w = attempts (policy.max_retries + 1) 0 [] [] w
