-- ===== src/Tests/SetMatch.antt =====
-- A set match in which one of three expected labels is detected, once under an alias.
use selfevals.Prelude.{String, ◌≡◌, refl, true, not, some, List, [], ◌∷◌}
use selfevals.Graders.{GradeLabel, is_pass}
use selfevals.SetMatch.{member, grade_sets, grade}
use selfevals.SetMatch.Gating.{default_gate, all_detected, grade_sets-all_detected}

abbrev detected : List String
detected = "price" ∷ "price" ∷ []

abbrev expected : List String
expected = "price" ∷ "stock" ∷ []

grade_sets-all_detected_example :
    (is_pass (grade_sets (default_gate true) detected expected).label
      ≡ all_detected detected expected)
    × (member (grade_sets (default_gate true) detected expected).failure_modes "set_match_missing"
        ≡ not (all_detected detected expected))
grade_sets-all_detected_example = grade_sets-all_detected true detected expected

half :
    (grade
      (λ s. s)
      (record (default_gate true) { threshold = record { num = 1; den = 2 } })
      (("price_check", "price") ∷ [])
      (some ("price_check" ∷ []))
      expected).label
    ≡ GradeLabel.pass
unfolding grade
half = refl
