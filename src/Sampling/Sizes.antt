-- ===== src/Sampling/Sizes.antt =====
-- How many cases are selected (optimization/sampling.py).
use selfevals.Prelude.{
  ℕ, ◌+◌, ◌-◌, ◌≤◌, ◌==◌, ◌≡◌, ◌∙◌, true, false, not, List, [], ◌∷◌, ◌++◌, select, length, All, leb,
  ltb, min, arith, Bool-cases, inl, inr,
}
use selfevals.Prelude.Int.{ℤ}
use selfevals.Sampling.{
  Seed, Sample, Shares, Case, contains, range_from, keep, target_size, choose_random, top_up,
  choose_stratified,
}
use selfevals.Sampling.Counting.{
  IsDistinct, hits, length-keep, hits-distinct, hits-append, length-range, range-IsDistinct,
  contains-select, select-IsDistinct, length-select-not,
}

-- What the library's `sample` promises: as many members of the population as were asked for, no two
-- of them the same.
pub record IsSample (sample : Sample) : Type 0 where
  pub sized :
      (seed : Seed) (population : List ℕ) (k : ℕ)
      → k ≤ length population
      → length (sample seed population k) ≡ k
  pub distinct :
      (seed : Seed) (population : List ℕ) (k : ℕ)
      → IsDistinct population
      → IsDistinct (sample seed population k)
  pub within :
      (seed : Seed) (population : List ℕ) (k : ℕ)
      → All (λ i. contains i population ≡ true) (sample seed population k)

-- an index that is drawn from the unchosen ones is not chosen
unchosen :
    (chosen population extra : List ℕ)
    → All (λ i. contains i (select (λ j. not (contains j chosen)) population) ≡ true) extra
    → All (λ i. contains i chosen ≡ false) extra
unchosen chosen population [] h = tt
unchosen chosen population (i ∷ extra) (e, h) =
    let out = contains-select (λ j. not (contains j chosen)) i population e in
    (ground (arith, out.0), unchosen chosen population extra h)

of_range :
    (chosen population extra : List ℕ)
    → All (λ i. contains i (select (λ j. not (contains j chosen)) population) ≡ true) extra
    → All (λ i. contains i population ≡ true) extra
of_range chosen population [] h = tt
of_range chosen population (i ∷ extra) (e, h) = (
  (contains-select (λ j. not (contains j chosen)) i population e).1,
  of_range chosen population extra h,
)

module _ (sample : Sample) (law : IsSample sample) where
  length-sampled :
      {C : Type 0} (seed : Seed) (pool : List C) (k : ℕ)
      → k ≤ length pool
      → length (keep (sample seed (range_from 0 (length pool)) k) 0 pool) ≡ k
  length-sampled seed pool k h =
      let population = range_from 0 (length pool) in
      length-keep (sample seed population k) 0 pool
      ∙ hits-distinct (sample seed population k) (length pool)
          (law.distinct seed population k (range-IsDistinct 0 (length pool)))
          (law.within seed population k)
      ∙ law.sized seed population k (omega (arith, length-range 0 (length pool)))

  -- k more cases are kept when k unchosen indices are drawn
  length-drawn :
      {C : Type 0} (seed : Seed) (pool : List C) (chosen : List ℕ) (k : ℕ)
      → k ≤ length (select (λ i. not (contains i chosen)) (range_from 0 (length pool)))
      → length (
          keep
            (sample seed (select (λ i. not (contains i chosen)) (range_from 0 (length pool))) k
              ++ chosen)
            0
            pool)
        ≡ k + length (keep chosen 0 pool)
  length-drawn seed pool chosen k h =
      let range = range_from 0 (length pool) in
      let remaining = select (λ i. not (contains i chosen)) range in
      let extra = sample seed remaining k in
      let inside = law.within seed remaining k in
      let more : hits extra range ≡ length extra =
        hits-distinct extra (length pool)
          (law.distinct seed remaining k (
            select-IsDistinct (λ i. not (contains i chosen)) range
              (range-IsDistinct 0 (length pool))))
          (of_range chosen range extra inside) in
      let all_kept = length-keep (extra ++ chosen) 0 pool in
      let split = hits-append extra chosen range (unchosen chosen range extra inside) in
      let before = length-keep chosen 0 pool in
      let size = law.sized seed remaining k h in omega (arith, all_kept, split, before, more, size)

  top_up_fills :
      {C : Type 0} (seed : ℤ) (target : ℕ) (pool : List C) (chosen : List ℕ)
      → target ≤ length pool
      → target ≤ length (top_up sample seed target pool chosen)
  unfolding top_up
  top_up_fills seed target pool chosen h =
      let range = range_from 0 (length pool) in
      let remaining = select (λ i. not (contains i chosen)) range in
      let number = min (target - length (keep chosen 0 pool)) (length remaining) in
      let kept = length-keep chosen 0 pool in
      let left = length-select-not (λ i. contains i chosen) range in
      let size = length-range 0 (length pool) in
      let fits : number ≤ length remaining = ground arith in
      let more = length-drawn (Seed.joined seed "__topup__") pool chosen number fits in
      elim (Bool-cases (ltb (length (keep chosen 0 pool)) target)) [
        | inl e ↦ rw (e, more) (ground (arith, kept, left, size))
        | inr e ↦ rw e (ground arith)
      ]

  module _ {F : Type 0} (sh : Shares F) where
    pub target_fits : (pool_size : ℕ) (fraction : F) → target_size sh pool_size fraction ≤ pool_size
    unfolding target_size
    target_fits pool_size fraction = ground arith

    pub length-choose_random :
        {C : Type 0} (pool : List C) (fraction : F) (seed : ℤ)
        → length (choose_random sh sample pool fraction seed)
          ≡ target_size sh (length pool) fraction
    unfolding choose_random
    length-choose_random pool fraction seed =
        let target = target_size sh (length pool) fraction in
        let fits : target ≤ length pool = target_fits (length pool) fraction in
        elim (Bool-cases (leb (length pool) target)) [
          | inl e ↦ rw e (ground arith)
          | inr e ↦ rw e (length-sampled (Seed.plain seed) pool target fits)
        ]

    pub length-choose_stratified :
        {C : Type 0} (cs : Case C) (pool : List C) (fraction : F) (seed : ℤ)
        → target_size sh (length pool) fraction
          ≤ length (choose_stratified sh sample cs pool fraction seed)
    unfolding choose_stratified
    length-choose_stratified cs pool fraction seed =
        let target = target_size sh (length pool) fraction in
        let fits : target ≤ length pool = target_fits (length pool) fraction in
        elim (Bool-cases (leb (length pool) target)) [
          | inl e ↦ rw e fits
          | inr e ↦ elim (Bool-cases (target == 0)) [
            | inl z ↦ rw (e, z) (ground arith)
            | inr z ↦ rw (e, z) (top_up_fills seed target pool _ fits)
          ]
        ]
