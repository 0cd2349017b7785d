-- ===== src/Aggregation/Cells.antt =====
-- The cells of graders/classification.py in the breakdowns of an iteration, and the confusion matrix
-- that is made of them (optimization/aggregator.py, `_rollup_confusion`).
use Prim.Native.String.{len, slice, compare}
use text.Mathlib.Text.{starts_with, find?, is_le}
use selfevals.Prelude.{
  ℕ, ◌+◌, ◌==◌, String, Bool, ◌||◌, Option, none, some, List, [], ◌∷◌, ◌++◌, if◌then◌else◌,
}
use selfevals.Graders.{BreakdownNode, BreakdownNodes}
use selfevals.Aggregation.{CaseOutcome}
use selfevals.Aggregation.Confusion.{ConfusionReport, Pair, confusion_from_pairs}

-- the body after `cell:`, cut at its first `->`
unfoldable pub parse_body : String → Option ℕ → Option Pair
parse_body body none = none
parse_body body (some i) =
    let expected = slice body 0 i in
    let predicted = slice body (i + 2) (len body) in
    if len expected == 0 || len predicted == 0 then none else some (expected, predicted)

unfoldable pub parse_cell_key : String → Option Pair
unfolding parse_body
parse_cell_key key =
    if starts_with key "cell:"
    then parse_body (slice key 5 (len key)) (find? (slice key 5 (len key)) "->")
    else none

abbrev pub cons_some : Option Pair → List Pair → List Pair
cons_some none pairs = pairs
cons_some (some p) pairs = p ∷ pairs

unfoldable mutual
  unfolding parse_cell_key

  pub collect_cell_pairs : {F : Type 0} → BreakdownNode F → List Pair
  collect_cell_pairs (BreakdownNode.node key label score weight reason modes children) =
      cons_some (parse_cell_key key) (collect_all children)

  pub collect_all : {F : Type 0} → BreakdownNodes F → List Pair
  collect_all BreakdownNodes.leaf = []
  collect_all (BreakdownNodes.more child children) =
      collect_cell_pairs child ++ collect_all children

abbrev pub str_le : String → String → Bool
str_le a b = is_le (compare a b)

unfoldable pub report_cells : List Pair → Option ConfusionReport
unfolding confusion_from_pairs
report_cells [] = none
report_cells (p ∷ ps) = some (confusion_from_pairs str_le (p ∷ ps))

module _ {F : Type 0} where
  unfoldable pub cells_of : List (BreakdownNode F) → List Pair
  unfolding collect_cell_pairs
  cells_of [] = []
  cells_of (b ∷ bs) = collect_cell_pairs b ++ cells_of bs

  unfoldable pub all_cells : List (CaseOutcome F) → List Pair
  unfolding cells_of
  all_cells [] = []
  all_cells (o ∷ os) = cells_of o.breakdowns ++ all_cells os

  unfoldable pub rollup_confusion : List (CaseOutcome F) → Option ConfusionReport
  unfolding report_cells all_cells
  rollup_confusion outcomes = report_cells (all_cells outcomes)
