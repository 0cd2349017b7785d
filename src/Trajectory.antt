-- ===== src/Trajectory.antt =====
-- graders/trajectory_checks.py: what the trajectory grader finds wrong with the spans of a trace. A
-- diagnostic keeps its key and its failure mode, not the text of its reason.
pub mod Order
pub mod Retrievals
pub mod Runs
pub mod Loops
pub mod Totals
use selfevals.Prelude.{
  ℕ, zero, suc, String, str_eq, Bool, true, false, ◌||◌, Option, none, some, List, [], ◌∷◌, any,
  if◌then◌else◌, is_some, ltb,
}
use selfevals.Aggregation.{Dict}
use selfevals.Aggregation.Iteration.{◌>>=◌}

pub data Span : Type 0 where
  tool_call : (tool_name : String) → Span
  retrieval : (query_hash query_pointer : Option String) → Span
  decision : Span
  handoff : Span
  other : Span

pub record Diagnostic : Type 0 where
  pub key : String
  pub failure_mode : String

abbrev pub fm_wrong_tool_order : String
fm_wrong_tool_order = "trajectory_wrong_tool_order"

abbrev pub fm_tool_loop_overrun : String
fm_tool_loop_overrun = "trajectory_tool_loop_overrun"

abbrev pub fm_missing_routing_decision : String
fm_missing_routing_decision = "trajectory_missing_routing_decision"

abbrev pub fm_redundant_retrieval : String
fm_redundant_retrieval = "trajectory_redundant_retrieval"

unfoldable pub tools_invoked : List Span → List String
tools_invoked [] = []
tools_invoked (Span.tool_call name ∷ spans) = name ∷ tools_invoked spans
tools_invoked (Span.retrieval hash pointer ∷ spans) = tools_invoked spans
tools_invoked (Span.decision ∷ spans) = tools_invoked spans
tools_invoked (Span.handoff ∷ spans) = tools_invoked spans
tools_invoked (Span.other ∷ spans) = tools_invoked spans

-- `token in it`: what is left of the iterator behind the first hit
unfoldable pub token_in : String → List String → Option (List String)
token_in token [] = none
token_in token (x ∷ xs) = if str_eq x token then some xs else token_in token xs

-- `all(token in it for token in needle)`
unfoldable pub all_in : List String → List String → Option (List String)
unfolding token_in
all_in [] it = some it
all_in (token ∷ needle) it = do left ← token_in token it; all_in needle left

unfoldable pub is_ordered_subsequence : List String → List String → Bool
unfolding all_in
is_ordered_subsequence needle haystack = is_some (all_in needle haystack)

unfoldable pub check_tool_order : List String → List String → Option Diagnostic
unfolding is_ordered_subsequence
check_tool_order invoked [] = none
check_tool_order invoked (tool ∷ expected) =
    if is_ordered_subsequence (tool ∷ expected) invoked
    then none
    else some (record { key = "wrong_tool_order"; failure_mode = fm_wrong_tool_order })

abbrev pub loop_overrun : Diagnostic
loop_overrun = record { key = "tool_loop_overrun"; failure_mode = fm_tool_loop_overrun }

abbrev pub same_tool : Option String → String → Bool
same_tool none tool = false
same_tool (some run_tool) tool = str_eq tool run_tool

-- the loop over the runs of one tool, with the tool and the length of the run so far
unfoldable pub consecutive_overrun : ℕ → Option String → ℕ → List String → Bool
consecutive_overrun cap run_tool run_len [] = false
consecutive_overrun cap run_tool run_len (tool ∷ tools) =
    let length_now : ℕ = if same_tool run_tool tool then suc run_len else 1 in
    ltb cap length_now || consecutive_overrun cap (some tool) length_now tools

unfoldable pub count_tool : String → Dict ℕ → Dict ℕ
count_tool tool [] = (tool, 1) ∷ []
count_tool tool ((t, n) ∷ counts) =
    if str_eq t tool then (t, suc n) ∷ counts else (t, n) ∷ count_tool tool counts

unfoldable pub count_tools : Dict ℕ → List String → Dict ℕ
unfolding count_tool
count_tools counts [] = counts
count_tools counts (tool ∷ tools) = count_tools (count_tool tool counts) tools

unfoldable pub total_overrun : Option ℕ → List String → Bool
unfolding count_tools
total_overrun none invoked = false
total_overrun (some cap) invoked = any (λ (tool, n). ltb cap n) (count_tools [] invoked)

unfoldable pub check_tool_loop : List String → ℕ → Option ℕ → Option Diagnostic
unfolding consecutive_overrun total_overrun
check_tool_loop invoked max_consecutive max_total =
    if consecutive_overrun max_consecutive none 0 invoked || total_overrun max_total invoked
    then some loop_overrun
    else none

abbrev pub is_decision : Span → Bool
is_decision Span.decision = true
is_decision (Span.tool_call name) = false
is_decision (Span.retrieval hash pointer) = false
is_decision Span.handoff = false
is_decision Span.other = false

abbrev pub is_handoff : Span → Bool
is_handoff Span.handoff = true
is_handoff (Span.tool_call name) = false
is_handoff (Span.retrieval hash pointer) = false
is_handoff Span.decision = false
is_handoff Span.other = false

unfoldable pub check_missing_routing : List Span → Bool → Option Diagnostic
check_missing_routing spans expect_routing_decision =
    if any is_decision spans
    then none
    else if any is_handoff spans || expect_routing_decision
    then some
        (record { key = "missing_routing_decision"; failure_mode = fm_missing_routing_decision })
    else none

-- `s.query_hash or s.query_pointer`, where the empty string counts as missing
abbrev pub retrieval_key : Option String → Option String → Option String
retrieval_key none pointer = pointer
retrieval_key (some hash) pointer = if str_eq hash "" then pointer else some hash

abbrev pub span_key : Span → Option String
span_key (Span.retrieval hash pointer) = retrieval_key hash pointer
span_key (Span.tool_call name) = none
span_key Span.decision = none
span_key Span.handoff = none
span_key Span.other = none

-- one round of the loop over the retrievals: `rest` is the loop from the keys seen then
unfoldable pub retrieval_once : Option String → List String → (List String → Bool) → Bool
retrieval_once none seen rest = rest seen
retrieval_once (some key) seen rest = any (str_eq key) seen || rest (key ∷ seen)

unfoldable pub issued_twice : List String → List Span → Bool
unfolding retrieval_once
issued_twice seen [] = false
issued_twice seen (s ∷ spans) = retrieval_once (span_key s) seen (λ now. issued_twice now spans)

unfoldable pub check_redundant_retrieval : List Span → Option Diagnostic
unfolding issued_twice
check_redundant_retrieval spans =
    if issued_twice [] spans
    then some (record { key = "redundant_retrieval"; failure_mode = fm_redundant_retrieval })
    else none

unfoldable pub append_found : List (Option Diagnostic) → List Diagnostic
append_found [] = []
append_found (none ∷ checks) = append_found checks
append_found (some found ∷ checks) = found ∷ append_found checks

unfoldable pub diagnose : List Span → List String → ℕ → Option ℕ → Bool → List Diagnostic
unfolding tools_invoked check_tool_order check_tool_loop check_missing_routing
    check_redundant_retrieval append_found
diagnose spans expected_tool_order max_consecutive max_total expect_routing_decision =
    append_found (
      check_tool_order (tools_invoked spans) expected_tool_order
      ∷ check_tool_loop (tools_invoked spans) max_consecutive max_total
      ∷ check_missing_routing spans expect_routing_decision
      ∷ check_redundant_retrieval spans
      ∷ [])
