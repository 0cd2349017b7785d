-- ===== src/Retry/Attempts.antt =====
-- An invocation with retries ends, and what it then has tried (runner/retry.py).
use selfevals.Prelude.{
  ℕ, zero, suc, ◌+◌, ◌≤◌, ◌<◌, ◌≡◌, refl, true, false, ◌||◌, not, ◌⊎◌, inl, inr, Option, some, List,
  [], ◌∷◌, ◌++◌, arith, Bool-cases, All, length, length-append, leb,
}
use selfevals.Retry.{
  AdapterError, Answer, response, raised, Delays, RetryPolicy, Invoked, compute_delay, attempt_once,
  attempts, invoke,
}

All-append : {A : Type 0} (P : A → Type 0) (xs ys : List A) → All P xs → All P ys → All P (xs ++ ys)
All-append P [] ys h k = k
All-append P (x ∷ xs) ys h k = (h.0, All-append P xs ys h.1 k)

module _ {F : Type 0} (d : Delays F) (policy : RetryPolicy F) (random : ℕ → F) {A : Type 0}
    {W : Type 0} (inner : W → Answer F A × W) where
  -- An error is final if it is permanent, or if the budget of retries is spent after `n` of them.
  abbrev pub IsFinal : ℕ → Answer F A → Type 0
  IsFinal n (response a) = Unit
  IsFinal n (raised e) = (e.retryable ≡ false) ⊎ (n ≡ policy.max_retries)

  -- What the end of an invocation says.
  pub record IsInvoked (i : Invoked F A W) : Type 0 where
    pub transient : All (λ (e : AdapterError F). e.retryable ≡ true) i.failed
    pub slept_once_each : length i.slept ≡ length i.failed
    pub within : length i.failed ≤ policy.max_retries
    pub final : IsFinal (length i.failed) i.answer

  -- the state of the loop at an attempt
  record IsTrying (attempt : ℕ) (slept : List F) (failed : List (AdapterError F)) : Type 0 where
    transient : All (λ (e : AdapterError F). e.retryable ≡ true) failed
    slept_each : length slept ≡ attempt
    failed_each : length failed ≡ attempt
    within : attempt ≤ policy.max_retries

  abbrev Ends : Option (Invoked F A W) → Type 0
  Ends o = (i : Invoked F A W) × (o ≡ some i) × IsInvoked i

  attempt_once-Ends :
      (again : List F → List (AdapterError F) → W → Option (Invoked F A W)) (attempt : ℕ)
      (slept : List F) (failed : List (AdapterError F)) (answered : Answer F A × W)
      → ((slept' : List F) (failed' : List (AdapterError F)) (w : W)
          → IsTrying (attempt + 1) slept' failed'
          → Ends (again slept' failed' w))
      → IsTrying attempt slept failed
      → Ends (attempt_once d policy random inner again attempt slept failed answered)
  unfolding attempt_once
  attempt_once-Ends again attempt slept failed (response a, w) more t = (
    _,
    refl,
    record {
      transient = t.transient;
      slept_once_each = omega (arith, t.slept_each, t.failed_each);
      within = omega (arith, t.failed_each, t.within);
      final = tt;
    },
  )
  attempt_once-Ends again attempt slept failed (raised e, w) more t =
      elim (Bool-cases (not e.retryable || leb policy.max_retries attempt)) [
        | inl stop ↦ rw stop (
          _,
          refl,
          record {
            transient = t.transient;
            slept_once_each = omega (arith, t.slept_each, t.failed_each);
            within = omega (arith, t.failed_each, t.within);
            final = elim (Bool-cases e.retryable) [
              | inl again_ok ↦ inr (ground (arith, t.failed_each, t.within))
              | inr permanent ↦ inl permanent
            ];
          },
        )
        | inr go ↦ rw go (
            more _ _ w (record {
              transient =
                  All-append (λ (x : AdapterError F). x.retryable ≡ true) failed (e ∷ [])
                    t.transient (ground arith, tt);
              slept_each = omega (
                arith,
                t.slept_each,
                length-append slept
                    (compute_delay d policy random attempt e.retry_after_seconds ∷ []),
              );
              failed_each = omega (arith, t.failed_each, length-append failed (e ∷ []));
              within = ground arith;
            }))
      ]

  attempts-Ends :
      (fuel attempt : ℕ) (slept : List F) (failed : List (AdapterError F)) (w : W)
      → policy.max_retries < attempt + fuel
      → IsTrying attempt slept failed
      → Ends (attempts d policy random inner fuel attempt slept failed w)
  unfolding attempts
  attempts-Ends zero attempt slept failed w h t = absurd (omega (arith, t.within))
  attempts-Ends (suc fuel) attempt slept failed w h t =
      attempt_once-Ends (attempts d policy random inner fuel (attempt + 1)) attempt slept failed
        (inner w)
        (λ slept' failed' w' t'.
          attempts-Ends fuel (attempt + 1) slept' failed' w' (omega arith) t')
        t

  -- An invocation ends, whatever the wrapped adapter answers: it makes at most `max_retries` calls
  -- that it does not report, each of which raised a transient error and was followed by one sleep,
  -- and an error that it does report is permanent, or comes after exactly `max_retries` retries.
  pub invoke-IsInvoked :
      (w : W) → (i : Invoked F A W) × (invoke d policy random inner w ≡ some i) × IsInvoked i
  unfolding invoke
  invoke-IsInvoked w =
      attempts-Ends (policy.max_retries + 1) 0 [] [] w (omega arith)
        (record { transient = tt; slept_each = refl; failed_each = refl; within = omega arith })
