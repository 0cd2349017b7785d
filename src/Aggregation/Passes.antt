-- ===== src/Aggregation/Passes.antt =====
-- How the pass metrics of an iteration compare (optimization/aggregator.py, `_compute_metric`).
use selfevals.Prelude.{
  ℕ, zero, suc, ◌*◌, ◌≤◌, ◌<◌, ◌==◌, String, ◌≡◌, refl, Bool, true, not, inl, inr, Option, none,
  some, List, [], ◌∷◌, arith, Bool-cases, length, select, count, count-le, length-select,
  count-le-length,
}
use selfevals.Graders.{GradeLabel, is_pass}
use selfevals.Aggregation.{CaseOutcome, errored, passed, first_is}
use selfevals.Aggregation.Metrics.{
  Metric, Ratio, AtMost, nothing, quotient, some_pass, all_pass, windows, pass_at_one,
  compute_pass_metric, compute_worst_of, compute_scored, compute_metric,
}

pub some_pass-le :
    (k j : ℕ) (labels : List GradeLabel)
    → k ≤ j
    → some_pass k labels ≡ true
    → some_pass j labels ≡ true
unfolding some_pass
some_pass-le zero j labels h e = absurd (ground arith)
some_pass-le (suc k) zero labels h e = absurd (omega arith)
some_pass-le (suc k) (suc j) [] h e = e
some_pass-le (suc k) (suc j) (l ∷ ls) h e = ground (arith, some_pass-le k j ls (omega arith))

pub all_pass-le :
    (k j : ℕ) (labels : List GradeLabel)
    → k ≤ j
    → all_pass j labels ≡ true
    → all_pass k labels ≡ true
unfolding all_pass
all_pass-le zero j labels h e = ground arith
all_pass-le (suc k) zero labels h e = absurd (omega arith)
all_pass-le (suc k) (suc j) [] h e = absurd (ground arith)
all_pass-le (suc k) (suc j) (l ∷ ls) h e = ground (arith, all_pass-le k j ls (omega arith))

all_pass-some_pass :
    (k : ℕ) (labels : List GradeLabel)
    → 0 < k
    → all_pass k labels ≡ true
    → some_pass k labels ≡ true
unfolding all_pass some_pass
all_pass-some_pass zero labels h e = absurd (omega arith)
all_pass-some_pass (suc k) [] h e = absurd (ground arith)
all_pass-some_pass (suc k) (l ∷ ls) h e = ground arith

all_pass-first :
    (k : ℕ) (labels : List GradeLabel)
    → 0 < k
    → all_pass k labels ≡ true
    → first_is is_pass labels ≡ true
unfolding all_pass
all_pass-first zero labels h e = absurd (omega arith)
all_pass-first (suc k) [] h e = absurd (ground arith)
all_pass-first (suc k) (l ∷ ls) h e = ground arith

pub first-some_pass :
    (k : ℕ) (labels : List GradeLabel)
    → 0 < k
    → first_is is_pass labels ≡ true
    → some_pass k labels ≡ true
unfolding some_pass
first-some_pass zero labels h e = absurd (omega arith)
first-some_pass (suc k) [] h e = absurd (ground arith)
first-some_pass (suc k) (l ∷ ls) h e = ground arith

pub mul-le : (x y n : ℕ) → x ≤ y → x * n ≤ y * n
mul-le x y zero h = omega arith
mul-le x y (suc n) h = omega (arith, mul-le x y n h)

quotient-suc : (x n : ℕ) → quotient x (suc n) ≡ record { num = x; den = suc n }
quotient-suc x n = ground arith

-- a fraction grows with its numerator, and when its denominator shrinks
pub quotient-AtMost : (x y n m : ℕ) → x ≤ y → m ≤ n → y ≤ m → AtMost (quotient x n) (quotient y m)
quotient-AtMost x y zero m h k l = ground arith
quotient-AtMost x y (suc n) zero h k l = ground arith
quotient-AtMost x y (suc n) (suc m) h k l =
    rw (quotient-suc x n)
      (rw (quotient-suc y m) (omega (arith, mul-le x y (suc m) h, mul-le (suc m) (suc n) y k)))

-- Two metrics of the same outcomes have values, and the first is at most the second.
abbrev pub Ordered : Option Ratio → Option Ratio → Type 0
Ordered a b = (r : Ratio) × (s : Ratio) × (a ≡ some r) × (b ≡ some s) × AtMost r s

pub counts-Ordered :
    {A : Type 0} (P Q : A → Bool) (xs : List A)
    → ((x : A) → P x ≡ true → Q x ≡ true)
    → Ordered (some (quotient (count P xs) (length xs))) (some (quotient (count Q xs) (length xs)))
counts-Ordered P Q xs h = (
  _,
  _,
  refl,
  refl,
  quotient-AtMost _ _ _ _ (count-le P Q xs h) (omega arith) (count-le-length Q xs),
)

windows-Ordered :
    (k : ℕ) (ws : List (List GradeLabel))
    → 0 < k
    → Ordered
        (compute_pass_metric (Metric.pass_hat k) ws)
        (compute_pass_metric (Metric.pass_at k) ws)
unfolding compute_pass_metric
windows-Ordered k ws h = elim (Bool-cases (k == 1)) [
  | inl e ↦ rw e (counts-Ordered (all_pass k) (first_is is_pass) ws (λ l. all_pass-first k l h))
  | inr e ↦ rw e (counts-Ordered (all_pass k) (some_pass k) ws (λ l. all_pass-some_pass k l h))
]

module _ {F : Type 0} where
  -- pass@1 counts every case that passed, and leaves out only cases that did not
  count-scored :
      (outcomes : List (CaseOutcome F))
      → count passed (select (λ o. not (errored o)) outcomes) ≡ count passed outcomes
  unfolding passed errored
  count-scored [] = refl
  count-scored (o ∷ os) = ground (arith, count-scored os)

  worst-Ordered :
      (k : ℕ) (outcomes : List (CaseOutcome F))
      → 0 < k
      → Ordered
          (compute_worst_of (Metric.pass_hat k) outcomes)
          (compute_worst_of (Metric.pass_at k) outcomes)
  unfolding compute_worst_of pass_at_one passed
  worst-Ordered k outcomes h = elim (Bool-cases (k == 1)) [
    | inl e ↦ rw e (
      _,
      _,
      refl,
      refl,
      quotient-AtMost (count (λ (o : CaseOutcome F). all_pass k o.per_repetition_label) outcomes)
          (count passed (select (λ o. not (errored o)) outcomes)) (length outcomes)
          (length (select (λ o. not (errored o)) outcomes))
          (omega (
            arith,
            count-scored outcomes,
            count-le (λ (o : CaseOutcome F). all_pass k o.per_repetition_label) passed outcomes
                (λ o. all_pass-first k o.per_repetition_label h),
          ))
          (omega (
            arith,
            length-select (λ (o : CaseOutcome F). not (errored o)) outcomes,
            count-le-length (λ (o : CaseOutcome F). not (errored o)) outcomes,
          ))
          (count-le-length passed (select (λ o. not (errored o)) outcomes)),
    )
    | inr e ↦ rw e (
        counts-Ordered (λ (o : CaseOutcome F). all_pass k o.per_repetition_label)
          (λ (o : CaseOutcome F). some_pass k o.per_repetition_label) outcomes
          (λ o. all_pass-some_pass k o.per_repetition_label h))
  ]

  -- Of the same outcomes, with or without a primary grader, pass^k is at most pass@k, for every k
  -- from 1: both have a value, and the fraction of cases that pass each of k repetitions is at most
  -- that of the cases that pass one of them.
  pub pass_hat-Ordered :
      (k : ℕ) (outcomes : List (CaseOutcome F)) (grader : Option String)
      → 0 < k
      → Ordered
          (compute_metric (Metric.pass_hat k) outcomes grader)
          (compute_metric (Metric.pass_at k) outcomes grader)
  unfolding compute_metric compute_scored
  pass_hat-Ordered k [] grader h = (nothing, nothing, refl, refl, omega arith)
  pass_hat-Ordered k (o ∷ os) none h = worst-Ordered k (o ∷ os) h
  pass_hat-Ordered k (o ∷ os) (some g) h = windows-Ordered k (windows g (o ∷ os)) h
