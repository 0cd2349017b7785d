-- ===== src/Proposers/Combos.antt =====
-- optimization/proposers.py: the combinations of the grid, and how the values of a search space are
-- read.
use selfevals.Prelude.{
  ℕ, String, Bool, Option, none, some, List, [], ◌∷◌, ◌++◌, map, length, leb, is_some,
  if◌then◌else◌,
}
use selfevals.Aggregation.{Dict, update}
use selfevals.Proposers.{Value, Experiment}

-- `isinstance(v, list)`, a dict with `choices`, one with `lo` and `hi`, and the truth and the text
-- of a value
pub record Reading (V : Type 0) : Type 0 where
  pub as_list : V → Option (List V)
  pub choices : V → Option (List V)
  pub range : V → Option (V × V)
  pub truthy : V → Bool
  pub text : V → String

abbrev pub map_some : {A B : Type 0} → (A → B) → Option A → Option B
map_some f none = none
map_some f (some x) = some (f x)

-- every pair, the second varying fastest
abbrev pub cross : {A B C : Type 0} → (A → B → C) → List A → List B → List C
cross f [] ys = []
cross f (x ∷ xs) ys = map (f x) ys ++ cross f xs ys

-- itertools.product
abbrev pub product : {A : Type 0} → List (List A) → List (List A)
product [] = [] ∷ []
product (xs ∷ xss) = cross (λ x row. x ∷ row) xs (product xss)

-- `for k, val in zip(keys, combo): d[k] = val`
abbrev pub assign : {V : Type 0} → Dict V → List String → List V → Dict V
assign d [] row = d
assign d (key ∷ keys) [] = d
assign d (key ∷ keys) (v ∷ row) = assign (update key (λ older. v) d) keys row

module _ {V : Type 0} where
  abbrev pub params_only : Dict V → Dict (Value V)
  params_only params = ("model_params", Value.object params) ∷ []

  abbrev pub agent_only : V → Dict (Value V)
  agent_only agent = ("agent", Value.json agent) ∷ []

  abbrev pub agent_with : V → Dict V → Dict (Value V)
  agent_with agent params = ("agent", Value.json agent) ∷ ("model_params", Value.object params) ∷ []

  abbrev pub all_combos : List V → List (Dict V) → Option (List (Dict (Value V)))
  all_combos [] [] = none
  all_combos [] (p ∷ params) = some (map params_only (p ∷ params))
  all_combos (a ∷ agents) [] = some (map agent_only (a ∷ agents))
  all_combos (a ∷ agents) (p ∷ params) = some (cross agent_with (a ∷ agents) (p ∷ params))

module _ {V : Type 0} (rd : Reading V) where
  -- keys and values of the list-valued entries, and the other entries
  abbrev pub keys_of : Dict V → List String
  keys_of [] = []
  keys_of ((key, v) ∷ space) = if is_some (rd.as_list v) then key ∷ keys_of space else keys_of space

  abbrev pub or_none : Option (List V) → List (List V) → List (List V)
  or_none none rest = rest
  or_none (some vs) rest = vs ∷ rest

  abbrev pub values_of : Dict V → List (List V)
  values_of [] = []
  values_of ((key, v) ∷ space) = or_none (rd.as_list v) (values_of space)

  abbrev pub constants_of : Dict V → Dict V
  constants_of [] = []
  constants_of ((key, v) ∷ space) =
      if is_some (rd.as_list v) then constants_of space else (key, v) ∷ constants_of space

  -- `_grid_combinations`
  unfoldable pub grid_combinations : Dict V → List (Dict V)
  grid_combinations space =
      if leb (length (values_of space)) 0
      then (if leb (length (constants_of space)) 0 then [] else constants_of space ∷ [])
      else map (assign (constants_of space) (keys_of space)) (product (values_of space))

  -- the combinations, made at the first call; none is the ValueError
  unfoldable pub ensure_combos :
      Experiment V → Option (List (Dict (Value V))) → Option (List (Dict (Value V)))
  unfolding grid_combinations
  ensure_combos exp (some combos) = some combos
  ensure_combos exp none = all_combos exp.agents (grid_combinations exp.model_params)

  unfoldable pub grid_size : Experiment V → Option (List (Dict (Value V))) → Option ℕ
  unfolding ensure_combos
  grid_size exp combos = map_some length (ensure_combos exp combos)
