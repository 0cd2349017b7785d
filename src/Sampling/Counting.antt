-- ===== src/Sampling/Counting.antt =====
-- How many cases a list of chosen indices keeps (optimization/sampling.py).
use selfevals.Prelude.{
  ℕ, zero, suc, ◌+◌, ◌==◌, ◌≡◌, refl, ◌∙◌, ap, Bool, true, false, not, ◌&&◌, ◌||◌, List, [], ◌∷◌,
  ◌++◌, select, length, count, All, leb, ltb, arith, Bool-cases, inl, inr, if◌then◌else◌,
}
use selfevals.Sampling.{contains, range_from, keep}

abbrev pub IsDistinct : List ℕ → Type 0
IsDistinct [] = Unit
IsDistinct (i ∷ indices) = (contains i indices ≡ false) × IsDistinct indices

abbrev pub hits : List ℕ → List ℕ → ℕ
hits chosen indices = count (λ i. contains i chosen) indices

pub length-keep :
    {C : Type 0} (chosen : List ℕ) (i : ℕ) (pool : List C)
    → length (keep chosen i pool) ≡ hits chosen (range_from i (length pool))
length-keep chosen i [] = refl
length-keep chosen i (c ∷ pool) = elim (Bool-cases (contains i chosen)) [
  | inl e ↦ rw e (ap suc (length-keep chosen (suc i) pool))
  | inr e ↦ rw e (length-keep chosen (suc i) pool)
]

one-range :
    (x start n : ℕ)
    → count (λ i. x == i) (range_from start n) ≡ (if leb start x && ltb x (start + n) then 1 else 0)
one-range x start zero = ground arith
one-range x start (suc n) = ground (arith, one-range x (suc start) n)

contains-range :
    (x start n : ℕ) → contains x (range_from start n) ≡ (leb start x && ltb x (start + n))
contains-range x start zero = ground arith
contains-range x start (suc n) = ground (arith, contains-range x (suc start) n)

-- two tests that never hold together are counted apart
count-or :
    (p q : ℕ → Bool) (xs : List ℕ)
    → All (λ x. (p x && q x) ≡ false) xs
    → count (λ x. p x || q x) xs ≡ count p xs + count q xs
count-or p q [] h = omega arith
count-or p q (x ∷ xs) (e, h) = ground (arith, e, count-or p q xs h)

apart :
    (x : ℕ) (chosen indices : List ℕ)
    → contains x chosen ≡ false
    → All (λ i. ((x == i) && contains i chosen) ≡ false) indices
apart x chosen [] h = tt
apart x chosen (i ∷ indices) h = (here, apart x chosen indices h)
  where
    here : ((x == i) && contains i chosen) ≡ false
    here = elim (Bool-cases (x == i)) [
      | inl e ↦ let same : x ≡ i = ground arith in rw e (rw (← same) h)
      | inr e ↦ rw e refl
    ]

-- distinct indices of the range each keep one
pub hits-distinct :
    (chosen : List ℕ) (n : ℕ)
    → IsDistinct chosen
    → All (λ i. contains i (range_from 0 n) ≡ true) chosen
    → hits chosen (range_from 0 n) ≡ length chosen
hits-distinct [] n d w = none_hit (range_from 0 n)
  where
    none_hit : (xs : List ℕ) → count (λ i. false) xs ≡ 0
    none_hit [] = refl
    none_hit (x ∷ xs) = none_hit xs
hits-distinct (x ∷ chosen) n (fresh, d) (within, w) =
    count-or (λ i. x == i) (λ i. contains i chosen) (range_from 0 n)
      (apart x chosen (range_from 0 n) fresh)
    ∙ ground (arith, one-range x 0 n, contains-range x 0 n, within, hits-distinct chosen n d w)

contains-append :
    (i : ℕ) (xs ys : List ℕ) → contains i (xs ++ ys) ≡ (contains i xs || contains i ys)
contains-append i [] ys = refl
contains-append i (x ∷ xs) ys = ground (arith, contains-append i xs ys)

hits-same : (p q : ℕ → Bool) (xs : List ℕ) → ((x : ℕ) → p x ≡ q x) → count p xs ≡ count q xs
hits-same p q [] h = refl
hits-same p q (x ∷ xs) h = rw (h x) (rw (hits-same p q xs h) refl)

never_both :
    (i : ℕ) (extra chosen : List ℕ)
    → All (λ j. contains j chosen ≡ false) extra
    → (contains i extra && contains i chosen) ≡ false
never_both i [] chosen h = refl
never_both i (j ∷ extra) chosen (e, h) = elim (Bool-cases (j == i)) [
  | inl k ↦
      let same : j ≡ i = ground arith in
      let out : contains i chosen ≡ false = rw (← same) e in ground (arith, k, out)
  | inr k ↦ ground (arith, k, never_both i extra chosen h)
]

-- indices that are not chosen are counted apart from the chosen ones
pub hits-append :
    (extra chosen indices : List ℕ)
    → All (λ j. contains j chosen ≡ false) extra
    → hits (extra ++ chosen) indices ≡ hits extra indices + hits chosen indices
hits-append extra chosen indices h =
    hits-same (λ i. contains i (extra ++ chosen)) (λ i. contains i extra || contains i chosen)
      indices (λ i. contains-append i extra chosen)
    ∙ count-or (λ i. contains i extra) (λ i. contains i chosen) indices (disjoint indices)
  where
    disjoint : (xs : List ℕ) → All (λ i. (contains i extra && contains i chosen) ≡ false) xs
    disjoint [] = tt
    disjoint (x ∷ xs) = (never_both x extra chosen h, disjoint xs)

pub length-range : (start n : ℕ) → length (range_from start n) ≡ n
length-range start zero = refl
length-range start (suc n) = ap suc (length-range (suc start) n)

pub range-IsDistinct : (start n : ℕ) → IsDistinct (range_from start n)
range-IsDistinct start zero = tt
range-IsDistinct start (suc n) =
    (ground (arith, contains-range start (suc start) n), range-IsDistinct (suc start) n)

pub contains-select :
    (p : ℕ → Bool) (x : ℕ) (xs : List ℕ)
    → contains x (select p xs) ≡ true
    → (p x ≡ true) × (contains x xs ≡ true)
contains-select p x [] h = absurd (ground (arith, h))
contains-select p x (y ∷ ys) h = elim (Bool-cases (p y)) [
  | inl e ↦ elim (Bool-cases (y == x)) [
    | inl k ↦ let same : y ≡ x = ground arith in (rw (← same) e, ground (arith, k))
    | inr k ↦
        let rest = contains-select p x ys (ground (arith, h, e, k)) in
        (rest.0, ground (arith, rest))
  ]
  | inr e ↦
      let rest = contains-select p x ys (ground (arith, h, e)) in (rest.0, ground (arith, rest))
]

pub select-IsDistinct : (p : ℕ → Bool) (xs : List ℕ) → IsDistinct xs → IsDistinct (select p xs)
select-IsDistinct p [] d = tt
select-IsDistinct p (x ∷ xs) (fresh, d) = elim (Bool-cases (p x)) [
  | inl e ↦
      let out : contains x (select p xs) ≡ false = elim (Bool-cases (contains x (select p xs))) [
        | inl h ↦ absurd (ground (arith, fresh, (contains-select p x xs h).1))
        | inr h ↦ h
      ] in
      rw e (out, select-IsDistinct p xs d)
  | inr e ↦ rw e (select-IsDistinct p xs d)
]

pub length-select-not :
    (p : ℕ → Bool) (xs : List ℕ) → length (select (λ x. not (p x)) xs) + count p xs ≡ length xs
length-select-not p [] = refl
length-select-not p (x ∷ xs) = ground (arith, length-select-not p xs)
