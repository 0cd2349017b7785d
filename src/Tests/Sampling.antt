-- ===== src/Tests/Sampling.antt =====
-- Runs of the sampling and instances of its laws (optimization/sampling.py).
use selfevals.Prelude.{
  ℕ, zero, suc, ◌+◌, ◌-◌, ◌*◌, ◌/◌, ◌≤◌, ◌≡◌, refl, Bool, true, false, not, none, some, List, [],
  ◌∷◌, String, All, select, length, take, leb, ltb, arith,
}
use selfevals.Sampling.{
  SampleStrategy, Sample, Shares, Case, RunSpec, contains, fraction_of, target_size,
  select_optimization_set,
}
use selfevals.Sampling.Counting.{IsDistinct}
use selfevals.Sampling.Sizes.{IsSample}
use selfevals.Sampling.Selected.{
  Sublist, HasSize, select_optimization_set-Splits, select_optimization_set-NonEmpty,
}

-- the first members
abbrev first_ones : Sample
first_ones seed population k = take k population

length-take : (k : ℕ) (xs : List ℕ) → k ≤ length xs → length (take k xs) ≡ k
length-take zero xs h = refl
length-take (suc k) [] h = omega (arith, h)
length-take (suc k) (x ∷ xs) h = ground (arith, length-take k xs)

contains-take : (i k : ℕ) (xs : List ℕ) → contains i xs ≡ false → contains i (take k xs) ≡ false
contains-take i zero xs h = refl
contains-take i (suc k) [] h = refl
contains-take i (suc k) (x ∷ xs) h = ground (arith, h, contains-take i k xs)

take-IsDistinct : (k : ℕ) (xs : List ℕ) → IsDistinct xs → IsDistinct (take k xs)
take-IsDistinct zero xs d = tt
take-IsDistinct (suc k) [] d = tt
take-IsDistinct (suc k) (x ∷ xs) (fresh, d) = (contains-take x k xs fresh, take-IsDistinct k xs d)

also_here :
    (x : ℕ) (xs ys : List ℕ)
    → All (λ i. contains i xs ≡ true) ys
    → All (λ i. contains i (x ∷ xs) ≡ true) ys
also_here x xs [] h = tt
also_here x xs (y ∷ ys) (e, h) = (ground (arith, e), also_here x xs ys h)

take_within : (k : ℕ) (xs : List ℕ) → All (λ i. contains i xs ≡ true) (take k xs)
take_within zero xs = tt
take_within (suc k) [] = tt
take_within (suc k) (x ∷ xs) = (ground arith, also_here x xs (take k xs) (take_within k xs))

first_ones-IsSample : IsSample first_ones
first_ones-IsSample = record {
  sized = λ seed population k h. length-take k population h;
  distinct = λ seed population k d. take-IsDistinct k population d;
  within = λ seed population k. take_within k population;
}

-- a fraction is a number of hundredths
abbrev hundredths : Shares ℕ
hundredths = record {
  one = 100;
  is_positive = λ f. ltb 0 f;
  times = λ f n. f * n;
  round = λ f. (f + 50) / 100;
  trunc = λ f. f / 100;
  rest = λ f n. f - n * 100;
  le = leb;
}

abbrev held_out_named : Case (Bool × String)
held_out_named = record { holdout = λ (h, name). h; feature = λ (h, name). name }

abbrev cases : List (Bool × String)
cases =
    (false, "search")
    ∷ (true, "search")
    ∷ (false, "chat")
    ∷ (false, "search")
    ∷ (false, "chat")
    ∷ (false, "search")
    ∷ []

abbrev spec_of : SampleStrategy → RunSpec
spec_of strategy = record { sample_strategy = strategy; seed = none }

half_stratified :
    select_optimization_set hundredths first_ones held_out_named cases
      (spec_of SampleStrategy.stratified)
      (some 60)
    ≡ record {
      optimization = (false, "search") ∷ (false, "chat") ∷ (false, "search") ∷ [];
      holdout = (true, "search") ∷ [];
    }
unfolding select_optimization_set
half_stratified = refl

select_optimization_set-Splits_example :
    let split =
      select_optimization_set hundredths first_ones held_out_named cases
        (spec_of SampleStrategy.stratified)
        (some 60) in
    let pool = select (λ c. not (held_out_named.holdout c)) cases in
    let target = target_size hundredths (length pool) (fraction_of hundredths (some 60)) in
    Sublist split.optimization pool
    × All (λ c. held_out_named.holdout c ≡ false) split.optimization
    × HasSize SampleStrategy.stratified (length pool) target (length split.optimization)
    × All (λ c. held_out_named.holdout c ≡ true) split.holdout
    × (length split.holdout + length pool ≡ length cases)
select_optimization_set-Splits_example =
    select_optimization_set-Splits hundredths first_ones held_out_named cases
      (spec_of SampleStrategy.stratified) (some 60) first_ones-IsSample

one_percent-positive : ltb 0 (fraction_of hundredths (some 1)) ≡ true
unfolding fraction_of
one_percent-positive = refl

-- one case of the pool although the fraction rounds to none
select_optimization_set-NonEmpty_example :
    1
    ≤ length
        (select_optimization_set hundredths first_ones held_out_named cases
          (spec_of SampleStrategy.random_subset)
          (some 1)).optimization
select_optimization_set-NonEmpty_example =
    select_optimization_set-NonEmpty hundredths first_ones held_out_named cases
      (spec_of SampleStrategy.random_subset) (some 1) first_ones-IsSample one_percent-positive refl
