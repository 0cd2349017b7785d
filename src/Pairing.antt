-- ===== src/Pairing.antt =====
-- optimization/pairing.py: which pairs of candidates a tournament judges. The order of strings and the
-- digest of the stable shuffle (hashlib's) are arguments; so is the order of the standings.
pub mod Rounds
use selfevals.Prelude.{
  ℕ, zero, suc, ◌+◌, ◌-◌, ◌==◌, String, str_eq, Bool, true, false, ◌&&◌, ◌||◌, not, Option, none,
  some, List, [], ◌∷◌, ◌++◌, map, any, select, take, length, min, ltb, sort_with, set_of,
  if◌then◌else◌,
}

abbrev pub Pair : Type 0
Pair = String × String

abbrev pub contains : String → List String → Bool
contains c cs = any (str_eq c) cs

abbrev pub played : Pair → List Pair → Bool
played p ps = any (λ q. str_eq p.0 q.0 && str_eq p.1 q.1) ps

-- `vs_baseline`
unfoldable pub vs_baseline : List String → String → List Pair
vs_baseline candidates baseline_id =
    map (λ c. (c, baseline_id)) (select (λ c. not (str_eq c baseline_id)) candidates)

unfoldable pub round_robin : List String → List Pair
round_robin [] = []
round_robin (c ∷ cs) = map (λ d. (c, d)) cs ++ round_robin cs

module _ (str_le : String → String → Bool) where
  -- `key = (a, b) if a < b else (b, a)`
  abbrev pub key_of : String → String → Pair
  key_of a b = if str_le b a then (b, a) else (a, b)

  -- `all_pairs`
  unfoldable pub all_pairs : List String → List Pair
  unfolding round_robin
  all_pairs candidates = round_robin (sort_with str_le (set_of candidates))

  -- `_stable_shuffle`
  unfoldable pub stable_shuffle : (String → String) → List String → List String
  stable_shuffle digest items = sort_with (λ a b. str_le (digest a) (digest b)) items

  -- the opponents of one candidate: a pair that is not seen is added
  unfoldable pub add_opponents : String → List String → List Pair → List Pair
  add_opponents c [] pairs = pairs
  add_opponents c (o ∷ os) pairs =
      add_opponents c os (if played (key_of c o) pairs then pairs else pairs ++ (key_of c o ∷ []))

  unfoldable pub add_candidates :
      (String → String → String) → ℕ → List String → List String → List Pair → List Pair
  unfolding add_opponents stable_shuffle
  add_candidates digest k ordered [] pairs = pairs
  add_candidates digest k ordered (c ∷ cs) pairs = add_candidates digest k ordered cs (
      add_opponents c (take k (stable_shuffle (digest c) (select (λ o. not (str_eq o c)) ordered)))
        pairs)

  -- `sampled`; the digest of a candidate's opponents is salted with the candidate
  unfoldable pub sampled : (String → String → String) → ℕ → List String → List Pair
  unfolding add_candidates
  sampled digest comparisons candidates =
      let ordered = sort_with str_le (set_of candidates) in
      let n = length ordered in
      if ltb n 2 || ltb comparisons 1
      then []
      else add_candidates digest (min comparisons (n - 1)) ordered ordered []

  -- the first candidate after `a` that is free and that it has not met
  unfoldable pub opponent : String → List String → List String → List Pair → Option String
  opponent a [] paired already = none
  opponent a (b ∷ bs) paired already =
      if contains b paired || played (key_of a b) already
      then opponent a bs paired already
      else some b

  -- the loop of a round over the candidates in order of their standing
  unfoldable pub swiss_pairs : List String → List String → List Pair → List Pair
  unfolding opponent
  swiss_pairs [] paired already = []
  swiss_pairs (a ∷ rest) paired already =
      if contains a paired
      then swiss_pairs rest paired already
      else elim (opponent a rest paired already) [
        | none ↦ swiss_pairs rest paired already
        | some b ↦ (a, b) ∷ swiss_pairs rest (a ∷ b ∷ paired) already
      ]

  unfoldable pub next_swiss_round : (String → String → Bool) → List String → List Pair → List Pair
  unfolding swiss_pairs
  next_swiss_round ranked candidates already = swiss_pairs (sort_with ranked candidates) [] already
