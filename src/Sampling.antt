-- ===== src/Sampling.antt =====
-- optimization/sampling.py: which cases enter the optimization loop. The generator of random samples
-- is an argument, and so is the arithmetic of the fraction, which is a float.
pub mod Counting
pub mod Sizes
pub mod Selected
use selfevals.Prelude.{
  ℕ, zero, suc, ◌+◌, ◌-◌, ◌==◌, String, str_eq, Bool, true, false, not, ◌&&◌, ◌||◌, Option, none,
  some, List, [], ◌∷◌, ◌++◌, map, select, any, length, sum, take, sort_with, leb, ltb, min,
  if◌then◌else◌,
}
use selfevals.Prelude.Int.{ℤ, pos}
use selfevals.Aggregation.{Dict, lookup, update}
use selfevals.Aggregation.Cells.{str_le}

pub data SampleStrategy : Type 0 where
  full random_subset stratified : SampleStrategy

-- what the seed of a generator is made from: the seed of the run, or that and a text
pub data Seed : Type 0 where
  plain : ℤ → Seed
  joined : ℤ → String → Seed

-- `random.Random(seed).sample(population, k)`
abbrev pub Sample : Type 0
Sample = Seed → List ℕ → ℕ → List ℕ

-- the float operations of the module; the fraction is not negative
pub record Shares (F : Type 0) : Type 0 where
  pub one : F
  pub is_positive : F → Bool
  pub times : F → ℕ → F
  pub round : F → ℕ
  pub trunc : F → ℕ
  pub rest : F → ℕ → F
  pub le : F → F → Bool

-- what the module reads of a case
pub record Case (C : Type 0) : Type 0 where
  pub holdout : C → Bool
  pub feature : C → String

pub record RunSpec : Type 0 where
  pub sample_strategy : SampleStrategy
  pub seed : Option ℤ

pub record OptimizationSplit (C : Type 0) : Type 0 where
  pub optimization : List C
  pub holdout : List C

abbrev pub contains : ℕ → List ℕ → Bool
contains i indices = any (λ j. j == i) indices

-- range(start, start + n)
abbrev pub range_from : ℕ → ℕ → List ℕ
range_from start zero = []
range_from start (suc n) = start ∷ range_from (suc start) n

-- [c for i, c in enumerate(pool) if i in chosen], from an index on
abbrev pub keep : {C : Type 0} → List ℕ → ℕ → List C → List C
keep chosen i [] = []
keep chosen i (c ∷ cs) =
    if contains i chosen then c ∷ keep chosen (suc i) cs else keep chosen (suc i) cs

unfoldable pub seed_of : RunSpec → ℤ
seed_of spec = elim spec.seed [ none ↦ pos 0 | some seed ↦ seed ]

abbrev pub or_empty : Option (List ℕ) → List ℕ
or_empty none = []
or_empty (some indices) = indices

-- indices by feature, the features in the order of their first case
unfoldable pub group_from : {C : Type 0} → Case C → ℕ → List C → Dict (List ℕ) → Dict (List ℕ)
group_from cs i [] strata = strata
group_from cs i (c ∷ pool) strata =
    group_from cs (suc i) pool (update (cs.feature c) (λ older. or_empty older ++ i ∷ []) strata)

abbrev pub count_of : Dict ℕ → String → ℕ
count_of counts key = elim (lookup key counts) [ none ↦ 0 | some n ↦ n ]

-- one more seat for each of the keys
unfoldable pub hand_out : Dict (List ℕ) → List String → Dict ℕ → Dict ℕ
hand_out strata [] counts = counts
hand_out strata (key ∷ keys) counts = hand_out strata keys (
    update key (λ older. min (count_of counts key + 1) (length (or_empty (lookup key strata))))
      counts)

module _ (sample : Sample) where
  unfoldable pub choose_strata : ℤ → Dict ℕ → Dict (List ℕ) → List ℕ
  choose_strata seed counts [] = []
  choose_strata seed counts ((key, indices) ∷ strata) =
      let number = min (count_of counts key) (length indices) in
      let rest = choose_strata seed counts strata in
      if number == 0 then rest else sample (Seed.joined seed key) indices number ++ rest

  -- the draw of more cases when the strata gave too few
  unfoldable pub top_up : {C : Type 0} → ℤ → ℕ → List C → List ℕ → List C
  top_up seed target pool chosen =
      let selected = keep chosen 0 pool in
      let remaining = select (λ i. not (contains i chosen)) (range_from 0 (length pool)) in
      if ltb (length selected) target
      then keep
          (sample (Seed.joined seed "__topup__") remaining
              (min (target - length selected) (length remaining))
            ++ chosen)
          0 pool
      else selected

module _ {F : Type 0} (sh : Shares F) where
  -- `_fraction`
  unfoldable pub fraction_of : Option F → F
  fraction_of none = sh.one
  fraction_of (some optimization) = optimization

  abbrev pub at_least_one : F → ℕ → ℕ
  at_least_one fraction target = if sh.is_positive fraction && target == 0 then 1 else target

  unfoldable pub target_size : ℕ → F → ℕ
  target_size pool_size fraction =
      if pool_size == 0
      then 0
      else min pool_size (at_least_one fraction (sh.round (sh.times fraction pool_size)))

  abbrev pub raw_share : F → List ℕ → F
  raw_share fraction indices = sh.times fraction (length indices)

  -- the order of `sorted(strata, key=…)`: the larger remainder first, then the key
  abbrev pub before : F → Dict (List ℕ) → Dict ℕ → String → String → Bool
  before fraction strata counts a b =
      let rest = λ (key : String).
        sh.rest (raw_share fraction (or_empty (lookup key strata))) (count_of counts key) in
      not (sh.le (rest a) (rest b)) || (sh.le (rest b) (rest a) && str_le a b)

  -- the floors of the shares, and the seats that are left
  unfoldable pub apportion : F → ℕ → Dict (List ℕ) → Dict ℕ
  unfolding hand_out
  apportion fraction target strata =
      let floors : Dict ℕ =
        map (λ (key, indices). (key, sh.trunc (raw_share fraction indices))) strata in
      let assigned = sum (map (λ (key, n). n) floors) in
      if ltb assigned target
      then hand_out strata
          (take (target - assigned)
            (sort_with (before fraction strata floors) (map (λ (key, indices). key) strata)))
          floors
      else floors

  module _ (sample : Sample) where
    unfoldable pub choose_random : {C : Type 0} → List C → F → ℤ → List C
    unfolding target_size
    choose_random pool fraction seed =
        let target = target_size (length pool) fraction in
        if leb (length pool) target
        then pool
        else keep (sample (Seed.plain seed) (range_from 0 (length pool)) target) 0 pool

    unfoldable pub choose_stratified : {C : Type 0} → Case C → List C → F → ℤ → List C
    unfolding target_size group_from apportion choose_strata top_up
    choose_stratified cs pool fraction seed =
        let target = target_size (length pool) fraction in
        let strata = group_from cs 0 pool [] in
        if leb (length pool) target
        then pool
        else if target == 0
        then []
        else top_up sample seed target pool
            (choose_strata sample seed (apportion fraction target strata) strata)

    unfoldable pub choose_by : {C : Type 0} → Case C → SampleStrategy → List C → F → ℤ → List C
    unfolding choose_random choose_stratified
    choose_by cs SampleStrategy.full pool fraction seed = pool
    choose_by cs SampleStrategy.random_subset pool fraction seed = choose_random pool fraction seed
    choose_by cs SampleStrategy.stratified pool fraction seed =
        choose_stratified cs pool fraction seed

    unfoldable pub select_optimization_set :
        {C : Type 0} → Case C → List C → RunSpec → Option F → OptimizationSplit C
    unfolding choose_by fraction_of seed_of
    select_optimization_set cs cases spec allocation =
        let pool = select (λ c. not (cs.holdout c)) cases in
        record {
          optimization =
              choose_by cs spec.sample_strategy pool (fraction_of allocation) (seed_of spec);
          holdout = select cs.holdout cases;
        }
