-- ===== src/Loop/Shown.antt =====
-- What the loop is shown of the combinations of a grid (optimization/loop.py, proposers.py).
use selfevals.Prelude.{
  ℕ, zero, suc, ◌+◌, ◌≤◌, ◌≡◌, ◌⊎◌, inl, inr, refl, ap, ◌∙◌, String, some, List, [], ◌∷◌, ◌++◌,
  arith, map, length, take, get_elem?, All,
}
use selfevals.Aggregation.{Dict}
use selfevals.Loop.{Proposal}
use selfevals.Loop.Coverage.{onto}
use selfevals.Proposers.{Value, Proposal as Proposed}
use selfevals.Proposers.Combos.{map_some, cross}
use selfevals.Proposers.Strategies.{plain}
use selfevals.Proposers.Positions.{IsAt}

module _ {A : Type 0} where
  pub take_all : (n : ℕ) (xs : List A) → length xs ≤ n → take n xs ≡ xs
  take_all zero [] h = refl
  take_all zero (x ∷ xs) h = absurd (omega (arith, h))
  take_all (suc n) [] h = refl
  take_all (suc n) (x ∷ xs) h = ap (λ ys. x ∷ ys) (take_all n xs (omega (arith, h)))

  pub onto-IsAt : (x : A) (xs done : List A) → IsAt x xs ⊎ IsAt x done → IsAt x (onto xs done)
  onto-IsAt x [] done (inl (i, e)) = absurd (ground (arith, e))
  onto-IsAt x [] done (inr h) = h
  onto-IsAt x (y ∷ xs) done (inl (zero, e)) = onto-IsAt x xs (y ∷ done) (inr (0, e))
  onto-IsAt x (y ∷ xs) done (inl (suc i, e)) = onto-IsAt x xs (y ∷ done) (inl (i, e))
  onto-IsAt x (y ∷ xs) done (inr (i, e)) = onto-IsAt x xs (y ∷ done) (inr (suc i, e))

  pub length-onto : (xs done : List A) → length (onto xs done) ≡ length xs + length done
  length-onto [] done = omega arith
  length-onto (x ∷ xs) done = omega (arith, length-onto xs (x ∷ done))

  pub All-at :
      (P : A → Type 0) (xs : List A) (i : ℕ) (x : A) → All P xs → get_elem? xs i ≡ some x → P x
  All-at P [] i x h e = absurd (ground (arith, e))
  All-at P (y ∷ xs) zero x (h, hs) e = let same : y ≡ x = ground (arith, e) in rw (← same) h
  All-at P (y ∷ xs) (suc i) x (h, hs) e = All-at P xs i x hs e

module _ {A B C : Type 0} (f : A → B → C) (P : C → Type 0)
    (each : (x : A) (y : B) → P (f x y)) where
  All-row : (x : A) (ys : List B) (zs : List C) → All P zs → All P (map (f x) ys ++ zs)
  All-row x [] zs h = h
  All-row x (y ∷ ys) zs h = (each x y, All-row x ys zs h)

  pub All-cross : (xs : List A) (ys : List B) → All P (cross f xs ys)
  All-cross [] ys = tt
  All-cross (x ∷ xs) ys = All-row x ys (cross f xs ys) (All-cross xs ys)

module _ {V F : Type 0} (half : F) (label : String → ℕ → Dict (Value V) → String)
    (shown : Proposed V F → Proposal) where
  -- what the loop is shown of a combination at an index
  abbrev pub shown_at : ℕ → Dict (Value V) → Proposal
  shown_at i params = shown (plain half params (label "grid" i params))

  -- what it is shown of all of them, from an index on
  abbrev pub numbered : ℕ → List (Dict (Value V)) → List Proposal
  numbered i [] = []
  numbered i (c ∷ combos) = shown_at i c ∷ numbered (suc i) combos

  pub get_elem-numbered :
      (start : ℕ) (combos : List (Dict (Value V))) (i : ℕ)
      → get_elem? (numbered start combos) i ≡ map_some (shown_at (start + i)) (get_elem? combos i)
  get_elem-numbered start [] i = refl
  get_elem-numbered start (c ∷ combos) zero = let e : start + 0 ≡ start = omega arith in rw e refl
  get_elem-numbered start (c ∷ combos) (suc i) =
      let e : start + suc i ≡ suc start + i = omega arith in
      rw e (get_elem-numbered (suc start) combos i)

  pub from_first :
      (combos : List (Dict (Value V))) (i : ℕ)
      → get_elem? (numbered 0 combos) i ≡ map_some (shown_at i) (get_elem? combos i)
  from_first combos i =
      let e : 0 + i ≡ i = omega arith in
      get_elem-numbered 0 combos i ∙ ap (λ n. map_some (shown_at n) (get_elem? combos i)) e

  pub length-numbered :
      (start : ℕ) (combos : List (Dict (Value V))) → length (numbered start combos) ≡ length combos
  length-numbered start [] = refl
  length-numbered start (c ∷ combos) = ap suc (length-numbered (suc start) combos)
