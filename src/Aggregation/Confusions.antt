-- ===== src/Aggregation/Confusions.antt =====
-- The F1 of a class in its usual form, from the pairs themselves (graders/_confusion.py).
use selfevals.Prelude.{
  ℕ, zero, suc, ◌+◌, ◌*◌, ◌==◌, ◌≤◌, String, str_eq, eq_iff, ◌≡◌, refl, Bool, true, false, Option,
  none, some, List, [], ◌∷◌, arith, Bool-cases, inl, inr, count, ◌⊎◌, ◌<◌, count-le, All, sort_with,
  map,
}
use selfevals.Aggregation.Metrics.{Ratio}
use selfevals.Aggregation.Passes.{mul-le}
use selfevals.Aggregation.Confusion.{
  Pair, same_pair, Matrix, bump, bump_all, cell, sum_cells, safe_div, f1_score, precision_of,
  recall_of, f1_of, classes, report_of, confusion_from_pairs,
}

sum_cells-bump :
    (test : Pair → Bool) (p : Pair) (m : Matrix)
    → ((q : Pair) → same_pair q p ≡ true → test q ≡ test p)
    → sum_cells test (bump p m) ≡ sum_cells test m + count test (p ∷ [])
unfolding sum_cells bump
sum_cells-bump test p [] h = ground arith
sum_cells-bump test p ((q, n) ∷ cells) h = elim (Bool-cases (same_pair q p)) [
  | inl e ↦ rw e (ground (arith, h q e))
  | inr e ↦ rw e (ground (arith, sum_cells-bump test p cells h))
]

same_pair-eq : (p q : Pair) → same_pair p q ≡ true → p ≡ q
same_pair-eq (a, b) (c, d) e =
    let f : a ≡ c = (eq_iff a c).0 (ground arith) in
    let g : b ≡ d = (eq_iff b d).0 (ground arith) in rw f (rw g refl)

same_pair_refl : (p : Pair) → same_pair p p ≡ true
same_pair_refl p = ground (arith, eq_iff p.0 p.0, eq_iff p.1 p.1)

-- 1 for a test that holds
abbrev bit : Bool → ℕ
bit true = 1
bit false = 0

cell-bump : (k p : Pair) (m : Matrix) → cell k (bump p m) ≡ cell k m + bit (same_pair p k)
unfolding cell bump
cell-bump k p [] = ground arith
cell-bump k p ((q, n) ∷ cells) = elim (Bool-cases (same_pair q p)) [
  | inl e ↦
      let s : same_pair q k ≡ same_pair p k = rw (same_pair-eq q p e) refl in
      rw e (ground (arith, s))
  | inr e ↦ rw e (elim (Bool-cases (same_pair q k)) [
    | inl f ↦
        let s : same_pair k p ≡ false = rw (← same_pair-eq q k f) e in
        let t : same_pair p k ≡ false = other s in rw f (rw t (omega arith))
    | inr f ↦ rw f (cell-bump k p cells)
  ])
]
  where
    other : same_pair k p ≡ false → same_pair p k ≡ false
    other s = ground (arith, eq_iff k.0 p.0, eq_iff k.1 p.1, eq_iff p.0 k.0, eq_iff p.1 k.1)

cell-bump_all :
    (k : Pair) (ps : List Pair) (m : Matrix)
    → cell k (bump_all ps m) ≡ cell k m + count (λ p. same_pair p k) ps
unfolding bump_all
cell-bump_all k [] m = omega arith
cell-bump_all k (p ∷ ps) m = ground (arith, cell-bump k p m, cell-bump_all k ps (bump p m))

sum_cells-bump_all :
    (test : Pair → Bool) (ps : List Pair) (m : Matrix)
    → sum_cells test (bump_all ps m) ≡ sum_cells test m + count test ps
unfolding bump_all
sum_cells-bump_all test [] m = omega arith
sum_cells-bump_all test (p ∷ ps) m = ground (
  arith,
  sum_cells-bump test p m (λ q e. rw (same_pair-eq q p e) refl),
  sum_cells-bump_all test ps (bump p m),
)

-- the pairs of a class: right, predicted, expected
abbrev pub hits : List Pair → String → ℕ
hits ps label = count (λ p. same_pair p (label, label)) ps

abbrev pub predicted : List Pair → String → ℕ
predicted ps label = count (λ p. str_eq p.1 label) ps

abbrev pub expected : List Pair → String → ℕ
expected ps label = count (λ p. str_eq p.0 label) ps

f1_score-zero : (a b : ℕ) → f1_score (safe_div 0 a) (safe_div 0 b) ≡ none
unfolding f1_score safe_div
f1_score-zero zero b = ground arith
f1_score-zero (suc a) zero = ground arith
f1_score-zero (suc a) (suc b) = ground arith

safe_div-suc : (n a : ℕ) → safe_div n (suc a) ≡ some (record { num = n; den = suc a })
unfolding safe_div
safe_div-suc n a = ground arith

-- The F1 of a class with a right answer, in terms of the counts of its pairs.
abbrev pub IsF1 : ℕ → ℕ → ℕ → Option Ratio → Type 0
IsF1 right answered actual f1 =
    ((right ≡ 0) × (f1 ≡ none))
    ⊎ ((0 < right)
        × ((f : Ratio) × (f1 ≡ some f)
            × (f.num * (answered + actual) ≡ 2 * right * f.den)
            × (f.num ≤ f.den)
            × (0 < f.den)))

positive : (t b : ℕ) → 0 < suc t * suc b
positive t b = omega (arith, mul-le 1 (suc t) (suc b) (omega arith))

-- 2tp / (predicted + expected), not above 1
f1_score-positive :
    (t a b : ℕ)
    → suc t ≤ suc a
    → suc t ≤ suc b
    → (f : Ratio) × (f1_score
          (some (record { num = suc t; den = suc a }))
          (some (record { num = suc t; den = suc b }))
        ≡ some f)
      × (f.num * (suc a + suc b) ≡ 2 * suc t * f.den)
      × (f.num ≤ f.den)
      × (0 < f.den)
unfolding f1_score
f1_score-positive t a b h k =
    let e : (suc t * suc b + suc t * suc a == 0) ≡ false = ground (arith, positive t b) in
    rw e (
      record { num = 2 * (suc t * suc t); den = suc t * suc b + suc t * suc a },
      refl,
      omega arith,
      omega (arith, mul-le (suc t) (suc a) (suc t) h, mul-le (suc t) (suc b) (suc t) k),
      omega (arith, positive t b),
    )

f1_score-IsF1 : (t a b : ℕ) → t ≤ a → t ≤ b → IsF1 t a b (f1_score (safe_div t a) (safe_div t b))
f1_score-IsF1 zero a b h k = inl (refl, f1_score-zero a b)
f1_score-IsF1 (suc t) zero b h k = absurd (omega arith)
f1_score-IsF1 (suc t) (suc a) zero h k = absurd (omega arith)
f1_score-IsF1 (suc t) (suc a) (suc b) h k = inr (
  omega arith,
  rw (safe_div-suc (suc t) a) (rw (safe_div-suc (suc t) b) (f1_score-positive t a b h k)),
)

hits-le :
    (ps : List Pair) (label : String)
    → (hits ps label ≤ predicted ps label) × (hits ps label ≤ expected ps label)
hits-le ps label = (
  count-le (λ p. same_pair p (label, label)) (λ p. str_eq p.1 label) ps (λ p e. ground arith),
  count-le (λ p. same_pair p (label, label)) (λ p. str_eq p.0 label) ps (λ p e. ground arith),
)

cell-counts : (k : Pair) (ps : List Pair) → cell k (bump_all ps []) ≡ count (λ p. same_pair p k) ps
unfolding cell
cell-counts k ps = omega (arith, cell-bump_all k ps [])

sum_cells-counts :
    (test : Pair → Bool) (ps : List Pair) → sum_cells test (bump_all ps []) ≡ count test ps
unfolding sum_cells
sum_cells-counts test ps = omega (arith, sum_cells-bump_all test ps [])

pub f1_of-IsF1 :
    (ps : List Pair) (label : String)
    → IsF1 (hits ps label) (predicted ps label) (expected ps label) (f1_of (bump_all ps []) label)
unfolding f1_of precision_of recall_of
f1_of-IsF1 ps label = rw (cell-counts (label, label) ps) (
    rw (sum_cells-counts (λ p. str_eq p.1 label) ps) (
      rw (sum_cells-counts (λ p. str_eq p.0 label) ps) (
        f1_score-IsF1 (hits ps label) (predicted ps label) (expected ps label) (hits-le ps label).0
          (hits-le ps label).1)))

rates-IsF1 :
    (ps : List Pair) (labels : List String)
    → All
        (λ (l, f). IsF1 (hits ps l) (predicted ps l) (expected ps l) f)
        (map (λ l. (l, f1_of (bump_all ps []) l)) labels)
rates-IsF1 ps [] = tt
rates-IsF1 ps (l ∷ ls) = (f1_of-IsF1 ps l, rates-IsF1 ps ls)

-- The F1 of every class that a report lists is 2tp / (predicted + expected), counted over the pairs
-- themselves, and not above 1, where tp is the number of pairs whose two sides are the class; a class
-- with no such pair has no F1 (and so no part in the macro F1), even one that was both expected and
-- predicted.
pub report-IsF1 :
    (str_le : String → String → Bool) (ps : List Pair)
    → All
        (λ (l, f). IsF1 (hits ps l) (predicted ps l) (expected ps l) f)
        (confusion_from_pairs str_le ps).per_label_f1
unfolding confusion_from_pairs report_of
report-IsF1 str_le [] = tt
report-IsF1 str_le (p ∷ ps) =
    rates-IsF1 (p ∷ ps) (sort_with str_le (classes (bump_all (p ∷ ps) [])))
