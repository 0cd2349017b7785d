-- ===== src/Proposers/Positions.antt =====
-- Where an element stands in the product of lists (optimization/proposers.py).
use selfevals.Prelude.{
  ℕ, zero, suc, ◌*◌, ◌<◌, ◌≡◌, refl, ◌∙◌, ap, some, List, [], ◌∷◌, ◌++◌, map, length, length-append,
  length-map, get_elem?, arith,
}
use selfevals.Proposers.Combos.{map_some, cross, product}

-- an element of a list, with its position
abbrev pub IsAt : {A : Type 0} → A → List A → Type 0
IsAt x xs = (i : ℕ) × (get_elem? xs i ≡ some x)

module _ {A : Type 0} where
  append_left-IsAt : (x : A) (xs ys : List A) → IsAt x xs → IsAt x (xs ++ ys)
  append_left-IsAt x [] ys (i, e) = absurd (ground (arith, e))
  append_left-IsAt x (y ∷ xs) ys (zero, e) = (zero, e)
  append_left-IsAt x (y ∷ xs) ys (suc i, e) =
      let rest = append_left-IsAt x xs ys (i, e) in (suc rest.0, rest.1)

  append_right-IsAt : (x : A) (xs ys : List A) → IsAt x ys → IsAt x (xs ++ ys)
  append_right-IsAt x [] ys h = h
  append_right-IsAt x (y ∷ xs) ys h = let rest = append_right-IsAt x xs ys h in (suc rest.0, rest.1)

  pub at_within : (x : A) (xs : List A) (i : ℕ) → get_elem? xs i ≡ some x → i < length xs
  at_within x [] i e = absurd (ground (arith, e))
  at_within x (y ∷ xs) zero e = omega arith
  at_within x (y ∷ xs) (suc i) e = omega (arith, at_within x xs i e)

pub map-IsAt : {A B : Type 0} (f : A → B) (x : A) (xs : List A) → IsAt x xs → IsAt (f x) (map f xs)
map-IsAt f x [] (i, e) = absurd (ground (arith, e))
map-IsAt f x (y ∷ xs) (zero, e) = (zero, ap (map_some f) e)
map-IsAt f x (y ∷ xs) (suc i, e) = let rest = map-IsAt f x xs (i, e) in (suc rest.0, rest.1)

pub cross-IsAt :
    {A B C : Type 0} (f : A → B → C) (x : A) (y : B) (xs : List A) (ys : List B)
    → IsAt x xs
    → IsAt y ys
    → IsAt (f x y) (cross f xs ys)
cross-IsAt f x y [] ys (i, e) h = absurd (ground (arith, e))
cross-IsAt f x y (z ∷ xs) ys (zero, e) h =
    let same : z ≡ x = ground (arith, e) in
    rw (← same) (append_left-IsAt (f z y) (map (f z) ys) (cross f xs ys) (map-IsAt (f z) y ys h))
cross-IsAt f x y (z ∷ xs) ys (suc i, e) h =
    append_right-IsAt (f x y) (map (f z) ys) (cross f xs ys) (cross-IsAt f x y xs ys (i, e) h)

pub length-cross :
    {A B C : Type 0} (f : A → B → C) (xs : List A) (ys : List B)
    → length (cross f xs ys) ≡ length xs * length ys
length-cross f [] ys = omega arith
length-cross f (x ∷ xs) ys =
    length-append (map (f x) ys) (cross f xs ys)
    ∙ ground (arith, length-map (f x) ys, length-cross f xs ys)

abbrev pub lengths : {A : Type 0} → List (List A) → ℕ
lengths [] = 1
lengths (xs ∷ xss) = length xs * lengths xss

pub length-product : {A : Type 0} (xss : List (List A)) → length (product xss) ≡ lengths xss
length-product [] = refl
length-product (xs ∷ xss) =
    length-cross (λ x row. x ∷ row) xs (product xss) ∙ ap (λ n. length xs * n) (length-product xss)
