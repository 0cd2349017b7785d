-- ===== src/Tests/Retry.antt =====
-- A call that is rate limited once and then answers.
use selfevals.Prelude.{
  ℕ, zero, suc, ◌+◌, ◌-◌, ◌*◌, ◌^◌, min, String, ◌≡◌, refl, true, some, [], ◌∷◌, ltb, if◌then◌else◌,
}
use selfevals.Retry.{AdapterError, Answer, response, raised, Delays, RetryPolicy, Invoked, invoke}
use selfevals.Retry.Attempts.{IsInvoked, invoke-IsInvoked}

abbrev delays : Delays ℕ
delays = record {
  one = 1;
  add = λ a b. a + b;
  sub = λ a b. a - b;
  mul = λ a b. a * b;
  pow = λ a n. a ^ n;
  min = λ a b. min a b;
  max = λ a b. if ltb a b then b else a;
}

abbrev policy : RetryPolicy ℕ
policy = record { max_retries = 2; base_delay = 3; max_delay = 30; multiplier = 2; jitter = 0 }

abbrev limited : AdapterError ℕ
limited = record {
  message = "429";
  retryable = true;
  status_code = some 429;
  retry_after_seconds = some 7;
}

-- the state counts the calls
abbrev inner : ℕ → Answer ℕ String × ℕ
inner zero = (raised limited, 1)
inner (suc n) = (response "fine", suc (suc n))

invoke-IsInvoked_example :
    (i : Invoked ℕ String ℕ) × (invoke delays policy (λ n. n) inner 0 ≡ some i)
    × IsInvoked delays policy (λ n. n) inner i
invoke-IsInvoked_example = invoke-IsInvoked delays policy (λ n. n) inner 0

second_answer :
    invoke delays policy (λ n. n) inner 0
    ≡ some (record { answer = response "fine"; slept = 7 ∷ []; failed = limited ∷ []; world = 2 })
unfolding invoke
second_answer = refl
