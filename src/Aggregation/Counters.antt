-- ===== src/Aggregation/Counters.antt =====
-- A counter of failure modes against the tags that were counted (optimization/aggregator.py, the
-- counters of `aggregate_iteration`).
use selfevals.Prelude.{
  ℕ, ◌+◌, String, str_eq, eq_iff, ◌≡◌, refl, List, [], ◌∷◌, arith, Bool-cases, inl, inr, any, count,
  sum, map,
}
use selfevals.Aggregation.{Dict, update}
use selfevals.Aggregation.Funnel.{one_more, count_in}
use selfevals.Aggregation.Iteration.{weight_of, weigh, count_critical}

-- the number of a key in a counter after one more
weight_of-update :
    (key mode : String) (counts : Dict ℕ)
    → weight_of (update mode one_more counts) key
      ≡ weight_of counts key + count (str_eq key) (mode ∷ [])
weight_of-update key mode [] = ground (arith, eq_iff key mode, eq_iff mode key)
weight_of-update key mode ((k, n) ∷ counts) = elim (Bool-cases (str_eq k mode)) [
  | inl e ↦ rw e (ground (arith, eq_iff k mode, eq_iff k key, eq_iff key mode))
  | inr e ↦ rw e (
      ground
        (arith, eq_iff k mode, eq_iff k key, eq_iff key mode, weight_of-update key mode counts))
]

weigh-update :
    (weights : Dict ℕ) (mode : String) (counts : Dict ℕ)
    → weigh weights (update mode one_more counts) ≡ weigh weights counts + weight_of weights mode
unfolding weigh
weigh-update weights mode [] = omega arith
weigh-update weights mode ((k, n) ∷ counts) = elim (Bool-cases (str_eq k mode)) [
  | inl e ↦
      let same : weight_of weights k ≡ weight_of weights mode = rw ((eq_iff k mode).0 e) refl in
      rw e (omega (arith, same))
  | inr e ↦ rw e (omega (arith, weigh-update weights mode counts))
]

count_critical-update :
    (critical : List String) (mode : String) (counts : Dict ℕ)
    → count_critical critical (update mode one_more counts)
      ≡ count_critical critical counts + count (λ m. any (λ c. str_eq c m) critical) (mode ∷ [])
unfolding count_critical
count_critical-update critical mode [] = ground arith
count_critical-update critical mode ((k, n) ∷ counts) = elim (Bool-cases (str_eq k mode)) [
  | inl e ↦
      let same : any (λ c. str_eq c k) critical ≡ any (λ c. str_eq c mode) critical =
        rw ((eq_iff k mode).0 e) refl in
      rw e (ground (arith, same))
  | inr e ↦ rw e (ground (arith, count_critical-update critical mode counts))
]

pub weigh-count_in :
    (weights : Dict ℕ) (modes : List String) (counts : Dict ℕ)
    → weigh weights (count_in modes counts)
      ≡ weigh weights counts + sum (map (weight_of weights) modes)
unfolding count_in
weigh-count_in weights [] counts = omega arith
weigh-count_in weights (m ∷ ms) counts =
    omega
      (arith, weigh-update weights m counts, weigh-count_in weights ms (update m one_more counts))

pub count_critical-count_in :
    (critical modes : List String) (counts : Dict ℕ)
    → count_critical critical (count_in modes counts)
      ≡ count_critical critical counts + count (λ m. any (λ c. str_eq c m) critical) modes
unfolding count_in
count_critical-count_in critical [] counts = omega arith
count_critical-count_in critical (m ∷ ms) counts = ground (
  arith,
  count_critical-update critical m counts,
  count_critical-count_in critical ms (update m one_more counts),
)

pub weight_of-count_in :
    (key : String) (modes : List String) (counts : Dict ℕ)
    → weight_of (count_in modes counts) key ≡ weight_of counts key + count (str_eq key) modes
unfolding count_in
weight_of-count_in key [] counts = omega arith
weight_of-count_in key (m ∷ ms) counts =
    ground
      (arith, weight_of-update key m counts, weight_of-count_in key ms (update m one_more counts))
