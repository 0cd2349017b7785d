-- ===== src/Prelude/Lists.antt =====
-- Lists measured and indexed by native numbers, under the library's names, and the list loops
-- that the components share. It models no file of the program.
use Prim.Native.Nat.{ℕ, zero, suc, ◌+◌, ◌≤◌}
use mathlib.Core.Path.{◌≡◌, refl, ap}
use mathlib.Core.Bool.{Bool, true, false, ◌&&◌, ◌||◌}
use mathlib.Core.List.{List, [], ◌∷◌, ◌++◌, map}
use mathlib.Core.Option.{Option, none, some}
use native.Mathlib.Omega.{arith}
use Prim.Native.String.{String}
use text.Mathlib.Text.{◌==◌ as str_eq}
use mathlib.Core.Logic.{inl, inr}
use selfevals.Prelude.Tests.{if◌then◌else◌, Bool-cases}

module _ {ℓ} {A : Type ℓ} where
  abbrev pub length : List A → ℕ
  length [] = 0
  length (x ∷ xs) = suc (length xs)

  abbrev pub get_elem? : List A → ℕ → Option A
  get_elem? [] i = none
  get_elem? (x ∷ xs) zero = some x
  get_elem? (x ∷ xs) (suc i) = get_elem? xs i

  abbrev pub take : ℕ → List A → List A
  take zero xs = []
  take (suc n) [] = []
  take (suc n) (x ∷ xs) = x ∷ take n xs

  abbrev pub drop : ℕ → List A → List A
  drop zero xs = xs
  drop (suc n) [] = []
  drop (suc n) (x ∷ xs) = drop n xs

  -- any(test(x) for x in xs)
  abbrev pub any : (A → Bool) → List A → Bool
  any test [] = false
  any test (x ∷ xs) = test x || any test xs

  -- all(test(x) for x in xs)
  abbrev pub all : (A → Bool) → List A → Bool
  all test [] = true
  all test (x ∷ xs) = test x && all test xs

  -- [x for x in xs if test(x)]
  abbrev pub select : (A → Bool) → List A → List A
  select test [] = []
  select test (x ∷ xs) = if test x then x ∷ select test xs else select test xs

  -- sum(1 for x in xs if test(x))
  abbrev pub count : (A → Bool) → List A → ℕ
  count test [] = 0
  count test (x ∷ xs) = if test x then suc (count test xs) else count test xs

  abbrev pub All {κ} : (A → Type κ) → List A → Type κ
  All P [] = Unit
  All P (x ∷ xs) = P x × All P xs

  pub length-append : (xs ys : List A) → length (xs ++ ys) ≡ length xs + length ys
  length-append [] ys = omega arith
  length-append (x ∷ xs) ys = omega (arith, length-append xs ys)

  pub count-append :
      (test : A → Bool) (xs ys : List A) → count test (xs ++ ys) ≡ count test xs + count test ys
  count-append test [] ys = omega arith
  count-append test (x ∷ xs) ys = ground (arith, count-append test xs ys)

  pub count-le-length : (test : A → Bool) (xs : List A) → count test xs ≤ length xs
  count-le-length test [] = omega arith
  count-le-length test (x ∷ xs) = ground (arith, count-le-length test xs)

  pub length-select : (test : A → Bool) (xs : List A) → length (select test xs) ≡ count test xs
  length-select test [] = refl
  length-select test (x ∷ xs) = ground (arith, length-select test xs)

  pub length-take-le : (n : ℕ) (xs : List A) → length (take n xs) ≤ n
  length-take-le zero xs = omega arith
  length-take-le (suc n) [] = omega arith
  length-take-le (suc n) (x ∷ xs) = omega (arith, length-take-le n xs)

module _ {ℓ} {A : Type ℓ} where
  pub length-map {κ} : {B : Type κ} (f : A → B) (xs : List A) → length (map f xs) ≡ length xs
  length-map f [] = refl
  length-map f (x ∷ xs) = ap suc (length-map f xs)

abbrev pub sum : List ℕ → ℕ
sum [] = 0
sum (x ∷ xs) = x + sum xs

module _ {ℓ} {A : Type ℓ} (le : A → A → Bool) where
  -- sorted(xs), stable, by the order `le`
  abbrev pub insert_with : A → List A → List A
  insert_with a [] = a ∷ []
  insert_with a (x ∷ xs) = if le a x then a ∷ x ∷ xs else x ∷ insert_with a xs

  abbrev pub sort_with : List A → List A
  sort_with [] = []
  sort_with (x ∷ xs) = insert_with x (sort_with xs)

  pub All-insert_with {κ} :
      (P : A → Type κ) (a : A) (xs : List A) → P a → All P xs → All P (insert_with a xs)
  All-insert_with P a [] h hs = (h, hs)
  All-insert_with P a (x ∷ xs) h hs = elim (Bool-cases (le a x)) [
    | inl e ↦ rw e (h, hs)
    | inr e ↦ rw e (hs.0, All-insert_with P a xs h hs.1)
  ]

  pub All-sort_with {κ} : (P : A → Type κ) (xs : List A) → All P xs → All P (sort_with xs)
  All-sort_with P [] hs = hs
  All-sort_with P (x ∷ xs) hs = All-insert_with P x (sort_with xs) hs.0 (All-sort_with P xs hs.1)

module _ {ℓ κ} {A : Type ℓ} (P : A → Type κ) where
  pub All-take : (n : ℕ) (xs : List A) → All P xs → All P (take n xs)
  All-take zero xs h = tt
  All-take (suc n) [] h = tt
  All-take (suc n) (x ∷ xs) h = (h.0, All-take n xs h.1)

module _ {ℓ} {A : Type ℓ} where
  pub All-select : (test : A → Bool) (xs : List A) → All (λ x. test x ≡ true) (select test xs)
  All-select test [] = tt
  All-select test (x ∷ xs) = elim (Bool-cases (test x)) [
    | inl e ↦ rw e (e, All-select test xs)
    | inr e ↦ rw e (All-select test xs)
  ]

module _ {ℓ κ} {A : Type ℓ} where
  pub All-weaken {ι} :
      (P : A → Type κ) (Q : A → Type ι) (xs : List A) → ((x : A) → P x → Q x) → All P xs → All Q xs
  All-weaken P Q [] f h = tt
  All-weaken P Q (x ∷ xs) f h = (f x h.0, All-weaken P Q xs f h.1)

  pub All-both {ι} :
      (P : A → Type κ) (Q : A → Type ι) (xs : List A)
      → All P xs
      → All Q xs
      → All (λ x. P x × Q x) xs
  All-both P Q [] h k = tt
  All-both P Q (x ∷ xs) h k = ((h.0, k.0), All-both P Q xs h.1 k.1)

  pub All-always : (P : A → Type κ) (xs : List A) → ((x : A) → P x) → All P xs
  All-always P [] f = tt
  All-always P (x ∷ xs) f = (f x, All-always P xs f)

  pub All-select_of :
      (test : A → Bool) (P : A → Type κ) (xs : List A)
      → All (λ x. test x ≡ true → P x) xs
      → All P (select test xs)
  All-select_of test P [] h = tt
  All-select_of test P (x ∷ xs) h = elim (Bool-cases (test x)) [
    | inl e ↦ rw e (h.0 e, All-select_of test P xs h.1)
    | inr e ↦ rw e (All-select_of test P xs h.1)
  ]

  pub All-map {ι} :
      {B : Type ι} (f : A → B) (P : B → Type κ) (xs : List A)
      → All (λ x. P (f x)) xs
      → All P (map f xs)
  All-map f P [] h = tt
  All-map f P (x ∷ xs) h = (h.0, All-map f P xs h.1)

module _ {ℓ} {A : Type ℓ} (le : A → A → Bool) where
  pub length-insert_with : (a : A) (xs : List A) → length (insert_with le a xs) ≡ length xs + 1
  length-insert_with a [] = omega arith
  length-insert_with a (x ∷ xs) = ground (arith, length-insert_with a xs)

  pub length-sort_with : (xs : List A) → length (sort_with le xs) ≡ length xs
  length-sort_with [] = refl
  length-sort_with (x ∷ xs) =
      ground (arith, length-insert_with x (sort_with le xs), length-sort_with xs)

module _ {ℓ} {A : Type ℓ} where
  -- a stronger test counts no more
  pub count-le :
      (P Q : A → Bool) (xs : List A) → ((x : A) → P x ≡ true → Q x ≡ true) → count P xs ≤ count Q xs
  count-le P Q [] h = omega arith
  count-le P Q (x ∷ xs) h = elim (Bool-cases (P x)) [
    | inl e ↦ ground (arith, count-le P Q xs h, h x e)
    | inr e ↦ ground (arith, count-le P Q xs h)
  ]

-- the elements of a list of strings, each once, as a Python set has them
abbrev pub insert_new : String → List String → List String
insert_new x xs = if any (str_eq x) xs then xs else x ∷ xs

abbrev pub set_of : List String → List String
set_of [] = []
set_of (x ∷ xs) = insert_new x (set_of xs)
