-- ===== src/Sampling/Selected.antt =====
-- Which cases enter the optimization loop (optimization/sampling.py).
use selfevals.Prelude.{
  ℕ, suc, ◌+◌, ◌≤◌, ◌==◌, ◌≡◌, refl, sym, Bool, true, false, not, Option, List, [], ◌∷◌, ◌⊎◌,
  select, All-select, any, length, All, leb, ltb, arith, Bool-cases, inl, inr,
}
use mathlib.Core.Path.{subst}
use selfevals.Prelude.Int.{ℤ}
use selfevals.Sampling.{
  SampleStrategy, Sample, Shares, Case, RunSpec, contains, keep, seed_of, fraction_of, target_size,
  choose_random, top_up, choose_stratified, choose_by, select_optimization_set,
}
use selfevals.Sampling.Sizes.{IsSample, length-choose_random, length-choose_stratified}

-- some members of a list, in its order
pub Sublist : {C : Type 0} → List C → List C → Type 0
Sublist [] ys = Unit
Sublist (x ∷ xs) [] = ⊥
Sublist (x ∷ xs) (y ∷ ys) = ((x ≡ y) × Sublist xs ys) ⊎ Sublist (x ∷ xs) ys

Sublist-skip : {C : Type 0} (xs ys : List C) (y : C) → Sublist xs ys → Sublist xs (y ∷ ys)
unfolding Sublist
Sublist-skip [] ys y h = tt
Sublist-skip (x ∷ xs) ys y h = inr h

Sublist-none : {C : Type 0} (ys : List C) → Sublist [] ys
unfolding Sublist
Sublist-none ys = tt

Sublist-All : {C : Type 0} (P : C → Type 0) (xs ys : List C) → All P ys → Sublist xs ys → All P xs
unfolding Sublist
Sublist-All P [] ys h s = tt
Sublist-All P (x ∷ xs) [] h s = absurd s
Sublist-All P (x ∷ xs) (y ∷ ys) (e, h) (inl (same, s)) =
    (subst P (sym same) e, Sublist-All P xs ys h s)
Sublist-All P (x ∷ xs) (y ∷ ys) (e, h) (inr s) = Sublist-All P (x ∷ xs) ys h s

unselected_all :
    {C : Type 0} (p : C → Bool) (xs : List C) → All (λ x. p x ≡ false) (select (λ x. not (p x)) xs)
unselected_all p [] = tt
unselected_all p (x ∷ xs) = elim (Bool-cases (p x)) [
  | inl e ↦ rw e (unselected_all p xs)
  | inr e ↦ rw e (e, unselected_all p xs)
]

length-partition :
    {C : Type 0} (p : C → Bool) (xs : List C)
    → length (select p xs) + length (select (λ x. not (p x)) xs) ≡ length xs
length-partition p [] = refl
length-partition p (x ∷ xs) = ground (arith, length-partition p xs)

Sublist-self : {C : Type 0} (xs : List C) → Sublist xs xs
unfolding Sublist
Sublist-self [] = tt
Sublist-self (x ∷ xs) = inl (refl, Sublist-self xs)

Sublist-keep :
    {C : Type 0} (chosen : List ℕ) (i : ℕ) (pool : List C) → Sublist (keep chosen i pool) pool
unfolding Sublist
Sublist-keep chosen i [] = tt
Sublist-keep chosen i (c ∷ pool) = elim (Bool-cases (contains i chosen)) [
  | inl e ↦ rw e (inl (refl, Sublist-keep chosen (suc i) pool))
  | inr e ↦ rw e (Sublist-skip (keep chosen (suc i) pool) pool c (Sublist-keep chosen (suc i) pool))
]

-- How large the selected set is by the strategy: the whole pool, exactly the target, or at least
-- the target.
abbrev pub HasSize : SampleStrategy → ℕ → ℕ → ℕ → Type 0
HasSize SampleStrategy.full pool_size target n = n ≡ pool_size
HasSize SampleStrategy.random_subset pool_size target n = n ≡ target
HasSize SampleStrategy.stratified pool_size target n = target ≤ n

module _ (sample : Sample) where
  top_up-Sublist :
      {C : Type 0} (seed : ℤ) (target : ℕ) (pool : List C) (chosen : List ℕ)
      → Sublist (top_up sample seed target pool chosen) pool
  unfolding top_up
  top_up-Sublist seed target pool chosen =
      elim (Bool-cases (ltb (length (keep chosen 0 pool)) target)) [
        | inl e ↦ rw e (Sublist-keep _ 0 pool)
        | inr e ↦ rw e (Sublist-keep chosen 0 pool)
      ]

  module _ {F : Type 0} (sh : Shares F) {C : Type 0} (cs : Case C) where
    choose_by-Sublist :
        (strategy : SampleStrategy) (pool : List C) (fraction : F) (seed : ℤ)
        → Sublist (choose_by sh sample cs strategy pool fraction seed) pool
    unfolding choose_by choose_random choose_stratified
    choose_by-Sublist SampleStrategy.full pool fraction seed = Sublist-self pool
    choose_by-Sublist SampleStrategy.random_subset pool fraction seed =
        elim (Bool-cases (leb (length pool) (target_size sh (length pool) fraction))) [
          | inl e ↦ rw e (Sublist-self pool)
          | inr e ↦ rw e (Sublist-keep _ 0 pool)
        ]
    choose_by-Sublist SampleStrategy.stratified pool fraction seed =
        elim (Bool-cases (leb (length pool) (target_size sh (length pool) fraction))) [
          | inl e ↦ rw e (Sublist-self pool)
          | inr e ↦ elim (Bool-cases (target_size sh (length pool) fraction == 0)) [
            | inl z ↦ rw (e, z) (Sublist-none pool)
            | inr z ↦ rw (e, z) (top_up-Sublist seed _ pool _)
          ]
        ]

    choose_by-HasSize :
        IsSample sample
        → (strategy : SampleStrategy) (pool : List C) (fraction : F) (seed : ℤ)
        → HasSize strategy
            (length pool)
            (target_size sh (length pool) fraction)
            (length (choose_by sh sample cs strategy pool fraction seed))
    unfolding choose_by
    choose_by-HasSize law SampleStrategy.full pool fraction seed = refl
    choose_by-HasSize law SampleStrategy.random_subset pool fraction seed =
        length-choose_random sample law sh pool fraction seed
    choose_by-HasSize law SampleStrategy.stratified pool fraction seed =
        length-choose_stratified sample law sh cs pool fraction seed

-- For any sampler that gives as many distinct members of its population as it is asked for, every
-- strategy selects cases of the non-holdout pool in its order, none of them held out; the number of
-- selected cases is the pool's for `full`, exactly the target size for `random_subset` and at least
-- the target size for `stratified`. The holdout set is held out, and it and the pool make up the
-- cases.
pub select_optimization_set-Splits :
    {F : Type 0} (sh : Shares F) (sample : Sample) {C : Type 0} (cs : Case C) (cases : List C)
    (spec : RunSpec) (allocation : Option F)
    → IsSample sample
    → let split = select_optimization_set sh sample cs cases spec allocation in
      let pool = select (λ c. not (cs.holdout c)) cases in
      let target = target_size sh (length pool) (fraction_of sh allocation) in
      Sublist split.optimization pool
      × All (λ c. cs.holdout c ≡ false) split.optimization
      × HasSize spec.sample_strategy (length pool) target (length split.optimization)
      × All (λ c. cs.holdout c ≡ true) split.holdout
      × (length split.holdout + length pool ≡ length cases)
unfolding select_optimization_set
select_optimization_set-Splits sh sample cs cases spec allocation law =
    let pool = select (λ c. not (cs.holdout c)) cases in
    let chosen =
      choose_by-Sublist sample sh cs spec.sample_strategy pool (fraction_of sh allocation)
        (seed_of spec) in
    (
      chosen,
      Sublist-All (λ c. cs.holdout c ≡ false) _ pool (unselected_all cs.holdout cases) chosen,
      choose_by-HasSize sample sh cs law spec.sample_strategy pool (fraction_of sh allocation)
          (seed_of spec),
      All-select cs.holdout cases,
      length-partition cs.holdout cases,
    )

select-NonEmpty :
    {C : Type 0} (p : C → Bool) (xs : List C) → any p xs ≡ true → 1 ≤ length (select p xs)
select-NonEmpty p [] h = absurd (ground (arith, h))
select-NonEmpty p (x ∷ xs) h = elim (Bool-cases (p x)) [
  | inl e ↦ rw e (ground arith)
  | inr e ↦ rw e (select-NonEmpty p xs (ground (arith, h, e)))
]

some_left :
    (strategy : SampleStrategy) (pool_size target n : ℕ)
    → 1 ≤ pool_size
    → 1 ≤ target
    → HasSize strategy pool_size target n
    → 1 ≤ n
some_left SampleStrategy.full pool_size target n p t h = omega (arith, p, h)
some_left SampleStrategy.random_subset pool_size target n p t h = omega (arith, t, h)
some_left SampleStrategy.stratified pool_size target n p t h = omega (arith, t, h)

positive_target :
    {F : Type 0} (sh : Shares F) (pool_size : ℕ) (fraction : F)
    → 1 ≤ pool_size
    → sh.is_positive fraction ≡ true
    → 1 ≤ target_size sh pool_size fraction
unfolding target_size
positive_target sh pool_size fraction p e = rw e (ground arith)

-- A positive fraction over cases of which one is not held out never selects an empty set, whatever
-- the strategy and however small the fraction, for any sampler that gives as many distinct members
-- as it is asked for.
pub select_optimization_set-NonEmpty :
    {F : Type 0} (sh : Shares F) (sample : Sample) {C : Type 0} (cs : Case C) (cases : List C)
    (spec : RunSpec) (allocation : Option F)
    → IsSample sample
    → sh.is_positive (fraction_of sh allocation) ≡ true
    → any (λ c. not (cs.holdout c)) cases ≡ true
    → 1 ≤ length (select_optimization_set sh sample cs cases spec allocation).optimization
unfolding select_optimization_set
select_optimization_set-NonEmpty sh sample cs cases spec allocation law positive exists =
    let pool = select (λ c. not (cs.holdout c)) cases in
    let fraction = fraction_of sh allocation in
    let nonempty = select-NonEmpty (λ c. not (cs.holdout c)) cases exists in
    some_left spec.sample_strategy (length pool) (target_size sh (length pool) fraction) _ nonempty
      (positive_target sh (length pool) fraction nonempty positive)
      (choose_by-HasSize sample sh cs law spec.sample_strategy pool fraction (seed_of spec))
