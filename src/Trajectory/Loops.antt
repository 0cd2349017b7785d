-- ===== src/Trajectory/Loops.antt =====
-- What the check for loops of tools reports (graders/trajectory_checks.py).
use selfevals.Prelude.{
  ℕ, ◌≤◌, String, ◌≡◌, refl, ◌∙◌, sym, Bool, true, false, ◌||◌, ◌↔◌, Option, none, some, List,
  arith, if◌then◌else◌,
}
use selfevals.Trajectory.{loop_overrun, check_tool_loop, consecutive_overrun, total_overrun}
use selfevals.Trajectory.Runs.{too_long, consecutive_overrun-too_long}
use selfevals.Trajectory.Totals.{calls_of, total_overrun-calls_of}

-- no tool is called more often than the cap on the total, if there is one
abbrev pub WithinTotal : Option ℕ → List String → Type 0
WithinTotal none invoked = Unit
WithinTotal (some cap) invoked = (tool : String) → calls_of tool invoked ≤ cap

total_overrun-WithinTotal :
    (cap : Option ℕ) (invoked : List String)
    → (total_overrun cap invoked ≡ false) ↔ WithinTotal cap invoked
unfolding total_overrun
total_overrun-WithinTotal none invoked = (λ h. tt, λ h. refl)
total_overrun-WithinTotal (some cap) invoked = total_overrun-calls_of cap invoked

neither :
    (a b : Bool)
    → ((if a || b then some loop_overrun else none) ≡ none) ↔ ((a ≡ false) × (b ≡ false))
neither true b = (λ h. absurd (ground (arith, h)), λ h. absurd (ground (arith, h.0)))
neither false true = (λ h. absurd (ground (arith, h)), λ h. absurd (ground (arith, h.1)))
neither false false = (λ h. (refl, refl), λ h. refl)

-- The grader reports no loop of tools exactly when no tool is called more than the first cap times in
-- a row, wherever in the trace that is, and, if there is a second cap, no tool is called more often
-- than that in all: the dict of counts loses no call and counts none twice.
pub check_tool_loop-none :
    (invoked : List String) (max_consecutive : ℕ) (max_total : Option ℕ)
    → (check_tool_loop invoked max_consecutive max_total ≡ none)
      ↔ ((too_long max_consecutive invoked ≡ false) × WithinTotal max_total invoked)
unfolding check_tool_loop
check_tool_loop-none invoked max_consecutive max_total =
    let both =
      neither (consecutive_overrun max_consecutive none 0 invoked)
        (total_overrun max_total invoked) in
    let runs = consecutive_overrun-too_long max_consecutive invoked in
    let totals = total_overrun-WithinTotal max_total invoked in
    (
      λ h. let (a, b) = both.0 h in (sym runs ∙ a, totals.0 b),
      λ (a, b). both.1 (runs ∙ a, totals.1 b),
    )
