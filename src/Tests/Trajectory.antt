-- ===== src/Tests/Trajectory.antt =====
-- A trace that plans, looks something up twice and answers.
use selfevals.Prelude.{true, ◌≡◌, refl, ◌↔◌, false, none, some, List, [], ◌∷◌, map, is_some}
use selfevals.Trajectory.{
  Span, Diagnostic, fm_wrong_tool_order, tools_invoked, diagnose, check_tool_loop,
  check_redundant_retrieval, loop_overrun,
}
use selfevals.Trajectory.Retrievals.{queries, has_repeat, check_redundant_retrieval-has_repeat}
use selfevals.Trajectory.Loops.{WithinTotal, check_tool_loop-none}
use selfevals.Trajectory.Runs.{too_long}
use selfevals.Trajectory.Order.{InOrder, has_mode, diagnose-InOrder}

abbrev spans : List Span
spans =
    Span.tool_call "plan"
    ∷ Span.handoff
    ∷ Span.tool_call "search"
    ∷ Span.retrieval (some "") (some "q")
    ∷ Span.tool_call "search"
    ∷ Span.retrieval none (some "q")
    ∷ Span.tool_call "answer"
    ∷ []

diagnose-InOrder_example :
    (has_mode fm_wrong_tool_order (diagnose spans ("plan" ∷ "answer" ∷ []) 1 none false) ≡ false)
    ↔ InOrder ("plan" ∷ "answer" ∷ []) (tools_invoked spans)
diagnose-InOrder_example = diagnose-InOrder spans ("plan" ∷ "answer" ∷ []) 1 none false

check_redundant_retrieval-has_repeat_example :
    is_some (check_redundant_retrieval spans) ≡ has_repeat (queries spans)
check_redundant_retrieval-has_repeat_example = check_redundant_retrieval-has_repeat spans

check_tool_loop-none_example :
    (check_tool_loop (tools_invoked spans) 1 (some 2) ≡ none)
    ↔ ((too_long 1 (tools_invoked spans) ≡ false) × WithinTotal (some 2) (tools_invoked spans))
check_tool_loop-none_example = check_tool_loop-none (tools_invoked spans) 1 (some 2)

repeats : has_repeat (queries spans) ≡ true
unfolding has_repeat queries
repeats = refl

all_diagnosed :
    map (λ (d : Diagnostic). d.key) (diagnose spans ("answer" ∷ "plan" ∷ []) 1 none false)
    ≡ "wrong_tool_order" ∷ "tool_loop_overrun" ∷ "missing_routing_decision" ∷ "redundant_retrieval"
      ∷ []
unfolding diagnose
all_diagnosed = refl

looped : check_tool_loop ("a" ∷ "b" ∷ "a" ∷ []) 1 (some 1) ≡ some loop_overrun
unfolding check_tool_loop
looped = refl

not_looped : check_tool_loop ("a" ∷ "b" ∷ "a" ∷ []) 1 (some 2) ≡ none
unfolding check_tool_loop
not_looped = refl
