-- ===== src/Tests/Pairing.antt =====
-- A Swiss round of four candidates, two of which have met.
use selfevals.Prelude.{String, ◌≡◌, refl, List, [], ◌∷◌}
use selfevals.Aggregation.Cells.{str_le}
use selfevals.Pairing.{Pair, next_swiss_round, all_pairs}
use selfevals.Pairing.Rounds.{IsRound, next_swiss_round-IsRound}

abbrev candidates : List String
candidates = "a" ∷ "b" ∷ "c" ∷ "d" ∷ []

abbrev met : List Pair
met = ("a", "b") ∷ []

next_swiss_round-IsRound_example :
    IsRound str_le met candidates [] (next_swiss_round str_le str_le candidates met)
next_swiss_round-IsRound_example =
    next_swiss_round-IsRound str_le met str_le candidates (refl, (refl, (refl, (refl, tt))))

second_round : next_swiss_round str_le str_le candidates met ≡ ("a", "c") ∷ ("b", "d") ∷ []
unfolding next_swiss_round
second_round = refl

whole_round : all_pairs str_le ("b" ∷ "a" ∷ "b" ∷ []) ≡ ("a", "b") ∷ []
unfolding all_pairs
whole_round = refl
