-- ===== src/Proposers/Grid.antt =====
-- The combinations that the grid tries (optimization/proposers.py).
use selfevals.Prelude.{
  suc, ◌+◌, ◌≤◌, ◌≡◌, ◌⊎◌, refl, ◌∙◌, sym, ap, String, str_eq, eq_iff, Bool, true, false, Option,
  none, some, List, [], ◌∷◌, map, length, length-map, leb, is_some, All, any, arith, Bool-cases,
  inl, inr, if◌then◌else◌,
}
use selfevals.Aggregation.{Dict, lookup, update}
use selfevals.Proposers.Combos.{
  Reading, cross, product, assign, keys_of, or_none, values_of, constants_of, grid_combinations,
  agent_with, all_combos,
}
use selfevals.Proposers.Positions.{IsAt, map-IsAt, cross-IsAt, lengths, length-product}

lookup-update :
    {V : Type 0} (key k : String) (v : V) (d : Dict V)
    → lookup key (update k (λ older. v) d) ≡ (if str_eq k key then some v else lookup key d)
lookup-update key k v [] = refl
lookup-update key k v ((k', v') ∷ d) =
    ground (arith, lookup-update key k v d, eq_iff k' k, eq_iff k' key, eq_iff k key)

module _ {V : Type 0} (f : String → V) where
  -- an assigned key, or one that was right before, is right after the assignments
  lookup-assign :
      (key : String) (keys : List String) (d : Dict V)
      → (any (λ k. str_eq k key) keys ≡ true) ⊎ (lookup key d ≡ some (f key))
      → lookup key (assign d keys (map f keys)) ≡ some (f key)
  lookup-assign key [] d (inl h) = absurd (ground (arith, h))
  lookup-assign key [] d (inr h) = h
  lookup-assign key (k ∷ keys) d h = elim (Bool-cases (str_eq k key)) [
    | inl e ↦
        let same : k ≡ key = (eq_iff k key).0 e in
        lookup-assign key keys (update k (λ older. f k) d)
          (inr (lookup-update key k (f k) d ∙ ground (arith, e, same)))
    | inr e ↦ lookup-assign key keys (update k (λ older. f k) d) (elim h [
      | inl t ↦ inl (ground (arith, t, e))
      | inr t ↦ inr (lookup-update key k (f k) d ∙ rw e t)
    ])
  ]

abbrev has : {V : Type 0} → String → Dict V → Bool
has key d = any (λ (k, v). str_eq k key) d

-- what the choice of a value is: the constant, or a member of the list
abbrev pub Picked : {V : Type 0} → V → V → Option (List V) → Type 0
Picked x v none = x ≡ v
Picked x v (some vs) = IsAt x vs

-- f chooses a value of each list of the search space, and has its constants
abbrev pub Picks : {V : Type 0} → Reading V → (String → V) → Dict V → Type 0
Picks rd f space = All (λ (key, v). Picked (f key) v (rd.as_list v)) space

-- every key of the search space has the chosen value
abbrev pub Agrees : {V : Type 0} → (String → V) → Dict V → Dict V → Type 0
Agrees f space d = All (λ (key, v). lookup key d ≡ some (f key)) space

Agrees-lookup :
    {V : Type 0} (f : String → V) (d space : Dict V)
    → ((key : String) → has key space ≡ true → lookup key d ≡ some (f key))
    → Agrees f space d
Agrees-lookup f d [] h = tt
Agrees-lookup f d ((k, v) ∷ space) h =
    (h k (ground (arith, eq_iff k k)), Agrees-lookup f d space (λ key e. h key (ground (arith, e))))

module _ {V : Type 0} (rd : Reading V) (f : String → V) where
  keyed-IsAt :
      (key : String) (v : V) (o : Option (List V)) (keys : List String) (rest : List (List V))
      → Picked (f key) v o
      → IsAt (map f keys) (product rest)
      → IsAt (map f (if is_some o then key ∷ keys else keys)) (product (or_none rd o rest))
  keyed-IsAt key v none keys rest p h = h
  keyed-IsAt key v (some vs) keys rest p h =
      cross-IsAt (λ x row. x ∷ row) (f key) (map f keys) vs (product rest) p h

  product-IsAt :
      (space : Dict V)
      → Picks rd f space
      → IsAt (map f (keys_of rd space)) (product (values_of rd space))
  product-IsAt [] h = (0, refl)
  product-IsAt ((key, v) ∷ space) (p, h) =
      keyed-IsAt key v (rd.as_list v) (keys_of rd space) (values_of rd space) p
        (product-IsAt space h)

  key_step :
      (key k : String) (v : V) (o : Option (List V)) (keys : List String) (constants : Dict V)
      → Picked (f k) v o
      → (str_eq k key ≡ true)
        ⊎ ((any (λ k'. str_eq k' key) keys ≡ true) ⊎ (lookup key constants ≡ some (f key)))
      → (any (λ k'. str_eq k' key) (if is_some o then k ∷ keys else keys) ≡ true)
        ⊎ (lookup key (if is_some o then constants else (k, v) ∷ constants) ≡ some (f key))
  key_step key k v (some vs) keys constants p (inl e) = inl (ground (arith, e))
  key_step key k v (some vs) keys constants p (inr (inl h)) = inl (ground (arith, h))
  key_step key k v (some vs) keys constants p (inr (inr h)) = inr h
  key_step key k v none keys constants p (inr (inl h)) = inl h
  key_step key k v none keys constants p (inl e) =
      let same : k ≡ key = (eq_iff k key).0 e in
      inr (rw e (ap some (sym p) ∙ ap (λ x. some (f x)) same))
  key_step key k v none keys constants p (inr (inr h)) = elim (Bool-cases (str_eq k key)) [
    | inl e ↦
        let same : k ≡ key = (eq_iff k key).0 e in
        inr (rw e (ap some (sym p) ∙ ap (λ x. some (f x)) same))
    | inr e ↦ inr (rw e h)
  ]

  -- a key of the search space is assigned, or a constant with the chosen value
  key_or_constant :
      (key : String) (space : Dict V)
      → Picks rd f space
      → has key space ≡ true
      → (any (λ k. str_eq k key) (keys_of rd space) ≡ true)
        ⊎ (lookup key (constants_of rd space) ≡ some (f key))
  key_or_constant key [] p h = absurd (ground (arith, h))
  key_or_constant key ((k, v) ∷ space) (p, ps) h =
      key_step key k v (rd.as_list v) (keys_of rd space) (constants_of rd space) p
        (elim (Bool-cases (str_eq k key)) [
          | inl e ↦ inl e
          | inr e ↦ inr (key_or_constant key space ps (ground (arith, h, e)))
        ])

assign_none : {V : Type 0} (d : Dict V) (keys : List String) → assign d keys [] ≡ d
assign_none d [] = refl
assign_none d (key ∷ keys) = refl

combinations_of :
    {V : Type 0} (values : List (List V)) (constants : Dict V) (keys : List String)
    → 1 ≤ length values + length constants
    → (if leb (length values) 0
        then (if leb (length constants) 0 then [] else constants ∷ [])
        else map (assign constants keys) (product values))
      ≡ map (assign constants keys) (product values)
combinations_of [] [] keys h = absurd (omega (arith, h))
combinations_of [] (c ∷ constants) keys h =
    let some_left : leb (suc (length constants)) 0 ≡ false = ground arith in
    rw some_left (ap (λ d. d ∷ []) (sym (assign_none (c ∷ constants) keys)))
combinations_of (vs ∷ values) constants keys h =
    let some_left : leb (suc (length values)) 0 ≡ false = ground arith in rw some_left refl

module _ {V : Type 0} (rd : Reading V) where
  length-keyed :
      (o : Option (List V)) (key : String) (v : V) (values : List (List V)) (constants : Dict V)
      → length (or_none rd o values)
          + length (if is_some o then constants else (key, v) ∷ constants)
        ≡ suc (length values + length constants)
  length-keyed none key v values constants = omega arith
  length-keyed (some vs) key v values constants = omega arith

  length-constants_of :
      (space : Dict V) → length (values_of rd space) + length (constants_of rd space) ≡ length space
  length-constants_of [] = refl
  length-constants_of ((key, v) ∷ space) =
      length-keyed (rd.as_list v) key v (values_of rd space) (constants_of rd space)
      ∙ ap suc (length-constants_of space)

  pub as_product :
      (space : Dict V)
      → 1 ≤ length space
      → grid_combinations rd space
        ≡ map (assign (constants_of rd space) (keys_of rd space)) (product (values_of rd space))
  unfolding grid_combinations
  as_product space h =
      combinations_of (values_of rd space) (constants_of rd space) (keys_of rd space)
        (omega (arith, h, length-constants_of space))

  pub length-grid_combinations :
      (space : Dict V)
      → 1 ≤ length space
      → length (grid_combinations rd space) ≡ lengths (values_of rd space)
  length-grid_combinations space h =
      ap length (as_product space h)
      ∙ length-map (assign (constants_of rd space) (keys_of rd space))
          (product (values_of rd space))
      ∙ length-product (values_of rd space)

  -- the combination that takes the chosen values
  abbrev pub chosen : (String → V) → Dict V → Dict V
  chosen f space = assign (constants_of rd space) (keys_of rd space) (map f (keys_of rd space))

  pub chosen-Agrees :
      (f : String → V) (space : Dict V) → Picks rd f space → Agrees f space (chosen f space)
  chosen-Agrees f space p = Agrees-lookup f (chosen f space) space (λ key h.
      lookup-assign f key (keys_of rd space) (constants_of rd space)
        (key_or_constant rd f key space p h))

  pub grid_combinations-IsAt :
      (f : String → V) (space : Dict V)
      → 1 ≤ length space
      → Picks rd f space
      → IsAt (chosen f space) (grid_combinations rd space)
  grid_combinations-IsAt f space h p = rw (as_product space h) (
      map-IsAt (assign (constants_of rd space) (keys_of rd space)) (map f (keys_of rd space))
        (product (values_of rd space)) (product-IsAt rd f space p))

pub all_combos-cross :
    {V : Type 0} (agent : V) (params : Dict V) (agents : List V) (combos : List (Dict V))
    → IsAt agent agents
    → IsAt params combos
    → all_combos agents combos ≡ some (cross agent_with agents combos)
all_combos-cross agent params [] combos (i, e) h = absurd (ground (arith, e))
all_combos-cross agent params (a ∷ agents) [] h (i, e) = absurd (ground (arith, e))
all_combos-cross agent params (a ∷ agents) (c ∷ combos) h k = refl
