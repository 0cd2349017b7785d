-- ===== src/Pairing/Rounds.antt =====
-- A Swiss round gives each candidate at most one game, and no game twice (optimization/pairing.py).
use selfevals.Prelude.{
  String, str_eq, eq_iff, ◌≡◌, ◌≢◌, refl, Bool, true, false, ◌||◌, Option, none, some, List, [],
  ◌∷◌, arith, Bool-cases, inl, inr, ◌⊎◌, All, All-weaken, sort_with, insert_with,
}
use selfevals.Pairing.{Pair, contains, played, key_of, opponent, swiss_pairs, next_swiss_round}

-- no candidate stands twice in a list
abbrev pub IsDistinct : List String → Type 0
IsDistinct [] = Unit
IsDistinct (c ∷ cs) = (contains c cs ≡ false) × IsDistinct cs

-- both sides of all pairs
abbrev pub sides : List Pair → List String
sides [] = []
sides (p ∷ ps) = p.0 ∷ p.1 ∷ sides ps

contains-insert_with :
    (le : String → String → Bool) (c x : String) (xs : List String)
    → contains c (insert_with le x xs) ≡ (str_eq c x || contains c xs)
contains-insert_with le c x [] = refl
contains-insert_with le c x (y ∷ ys) = elim (Bool-cases (le x y)) [
  | inl e ↦ rw e refl
  | inr e ↦ rw e (ground (arith, contains-insert_with le c x ys))
]

contains-sort_with :
    (le : String → String → Bool) (c : String) (xs : List String)
    → contains c (sort_with le xs) ≡ contains c xs
contains-sort_with le c [] = refl
contains-sort_with le c (x ∷ xs) =
    ground (arith, contains-insert_with le c x (sort_with le xs), contains-sort_with le c xs)

insert_with-IsDistinct :
    (le : String → String → Bool) (x : String) (xs : List String)
    → contains x xs ≡ false
    → IsDistinct xs
    → IsDistinct (insert_with le x xs)
insert_with-IsDistinct le x [] h d = (refl, tt)
insert_with-IsDistinct le x (y ∷ ys) h d = elim (Bool-cases (le x y)) [
  | inl e ↦ rw e (h, d)
  | inr e ↦ rw e (
    ground (arith, contains-insert_with le y x ys, d.0, eq_iff x y, eq_iff y x),
    insert_with-IsDistinct le x ys (ground arith) d.1,
  )
]

sort_with-IsDistinct :
    (le : String → String → Bool) (xs : List String) → IsDistinct xs → IsDistinct (sort_with le xs)
sort_with-IsDistinct le [] d = tt
sort_with-IsDistinct le (x ∷ xs) d =
    insert_with-IsDistinct le x (sort_with le xs) (ground (arith, contains-sort_with le x xs, d.0))
      (sort_with-IsDistinct le xs d.1)

contains_all-false :
    (k : String) (l xs : List String)
    → All (λ c. contains c l ≡ false) xs
    → contains k l ≡ true
    → contains k xs ≡ false
contains_all-false k l [] h e = refl
contains_all-false k l (x ∷ xs) h e = elim (Bool-cases (str_eq k x)) [
  | inl same ↦ let f : contains k l ≡ false = rw ((eq_iff k x).0 same) h.0 in absurd (ground arith)
  | inr ne ↦ ground (arith, contains_all-false k l xs h.1 e)
]

found-cases : (o : Option String) → (o ≡ none) ⊎ ((b : String) × (o ≡ some b))
found-cases none = inl refl
found-cases (some b) = inr (b, refl)

module _ (str_le : String → String → Bool) (already : List Pair) where
  opponent_lem :
      (a b : String) (rest paired : List String)
      → opponent str_le a rest paired already ≡ some b
      → (contains b rest ≡ true)
        × (contains b paired ≡ false)
        × (played (key_of str_le a b) already ≡ false)
  unfolding opponent
  opponent_lem a b [] paired h = cc
  opponent_lem a b (c ∷ cs) paired h =
      elim (Bool-cases (contains c paired || played (key_of str_le a c) already)) [
        | inl e ↦
            let h' : opponent str_le a cs paired already ≡ some b = rw e at h in
            let (f, g, k) = opponent_lem a b cs paired h' in (ground (arith, f), g, k)
        | inr e ↦
            let h' : some c ≡ some b = rw e at h in
            let same : c ≡ b = cc in
            rw (← same) (ground (arith, eq_iff c c), ground (arith, e), free c e)
      ]
    where
      free :
          (c : String)
          → (contains c paired || played (key_of str_le a c) already) ≡ false
          → played (key_of str_le a c) already ≡ false
      free c e = elim (Bool-cases (contains c paired)) [
        | inl f ↦ absurd (ground arith)
        | inr f ↦ rw f at e
      ]

  -- What a round gives, of the candidates that are left and those that are paired.
  pub record IsRound (left paired : List String) (ps : List Pair) : Type 0 where
    pub once : IsDistinct (sides ps)
    pub unpaired : All (λ c. contains c paired ≡ false) (sides ps)
    pub known : All (λ c. contains c left ≡ true) (sides ps)
    pub unmet : All (λ p. played (key_of str_le p.0 p.1) already ≡ false) ps

  skip-IsRound :
      (a : String) (rest paired : List String) (ps : List Pair)
      → IsRound rest paired ps
      → IsRound (a ∷ rest) paired ps
  skip-IsRound a rest paired ps r = record {
    once = r.once;
    unpaired = r.unpaired;
    known =
        All-weaken (λ c. contains c rest ≡ true) (λ c. contains c (a ∷ rest) ≡ true) (sides ps)
          (λ c h. ground arith) r.known;
    unmet = r.unmet;
  }

  pair-IsRound :
      (a b : String) (rest paired : List String) (ps : List Pair)
      → contains a rest ≡ false
      → contains a paired ≡ false
      → opponent str_le a rest paired already ≡ some b
      → IsRound rest (a ∷ b ∷ paired) ps
      → IsRound (a ∷ rest) paired ((a, b) ∷ ps)
  pair-IsRound a b rest paired ps fresh free h r =
      let (there, open_yet, unmet) = opponent_lem a b rest paired h in
      record {
        once = (
          ground (
            arith,
            eq_iff a b,
            ne there,
            contains_all-false a (a ∷ b ∷ paired) (sides ps) r.unpaired
                (ground (arith, eq_iff a a)),
          ),
          (
            contains_all-false b (a ∷ b ∷ paired) (sides ps) r.unpaired
                (ground (arith, eq_iff b b)),
            r.once,
          ),
        );
        unpaired = (
          free,
          (
            open_yet,
            All-weaken (λ c. contains c (a ∷ b ∷ paired) ≡ false) (λ c. contains c paired ≡ false)
                (sides ps) (λ c e. ground arith) r.unpaired,
          ),
        );
        known = (
          ground (arith, eq_iff a a),
          (
            ground arith,
            All-weaken (λ c. contains c rest ≡ true) (λ c. contains c (a ∷ rest) ≡ true) (sides ps)
                (λ c e. ground arith) r.known,
          ),
        );
        unmet = (unmet, r.unmet);
      }
    where
      ne : contains b rest ≡ true → a ≢ b
      ne there same = let f : contains b rest ≡ false = rw (← same) fresh in cc

  swiss-IsRound :
      (left paired : List String)
      → IsDistinct left
      → IsRound left paired (swiss_pairs str_le left paired already)
  unfolding swiss_pairs
  swiss-IsRound [] paired d = record { once = tt; unpaired = tt; known = tt; unmet = tt }
  swiss-IsRound (a ∷ rest) paired d = elim (Bool-cases (contains a paired)) [
    | inl e ↦ rw e (skip-IsRound a rest paired _ (swiss-IsRound rest paired d.1))
    | inr e ↦ rw e (elim (found-cases (opponent str_le a rest paired already)) [
      | inl f ↦ rw f (skip-IsRound a rest paired _ (swiss-IsRound rest paired d.1))
      | inr (b, f) ↦
          rw f (pair-IsRound a b rest paired _ d.0 e f (swiss-IsRound rest (a ∷ b ∷ paired) d.1))
    ])
  ]

  -- In a Swiss round of distinct candidates, however they are ranked, each candidate stands in at most
  -- one pair, the pairs are of two different candidates of the tournament, and none of them has been
  -- played already.
  pub next_swiss_round-IsRound :
      (ranked : String → String → Bool) (candidates : List String)
      → IsDistinct candidates
      → IsRound candidates [] (next_swiss_round str_le ranked candidates already)
  unfolding next_swiss_round
  next_swiss_round-IsRound ranked candidates d =
      let r =
        swiss-IsRound (sort_with ranked candidates) [] (sort_with-IsDistinct ranked candidates d) in
      record {
        once = r.once;
        unpaired = r.unpaired;
        known =
            All-weaken (λ c. contains c (sort_with ranked candidates) ≡ true)
              (λ c. contains c candidates ≡ true) _
              (λ c h. ground (arith, h, contains-sort_with ranked c candidates)) r.known;
        unmet = r.unmet;
      }
