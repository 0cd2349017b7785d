-- ===== src/Tests/Trace.antt =====
-- A turn of an agent with an LLM call, a tool call that raises, and a handoff; JSON values are texts,
-- floats naturals.
use selfevals.Prelude.{ℕ, ◌≡◌, refl, String, true, false, none, some, List, [], ◌∷◌, map, arith}
use selfevals.Trace.{LlmCall, ToolCall, StopReason, Span}
use selfevals.Trace.Whole.{RunInfo, AgentSnapshotRef, SandboxMode, Trace}
use selfevals.Trace.Valid.{ids_of, are_unique, tool_use_ids_linked, contains}
use selfevals.Trace.Builders.{new_llm_builder, new_tool_builder}
use selfevals.Trace.Recorder.{TraceRecorder, new_recorder, enter, exit, build, current_parent}
use selfevals.Trace.Recorder.Blocks.{open_block}
use selfevals.Trace.Recorder.Programs.{Act, Acts, Block, Mark, Note, run_acts}
use selfevals.Trace.Recorder.Spans.{Appended, spans_of_all, run_acts-Appended}
use selfevals.Trace.Recorder.Counts.{IsCounted}
use selfevals.Trace.Recorder.Counted.{run_acts-IsCounted}
use selfevals.Trace.Recorder.Builds.{final_of, build-valid, build-open_block}
use selfevals.Tests.Aggregation.{floats}

abbrev pub run : RunInfo
run = record {
  run_id = "run_1";
  experiment_id = none;
  iteration = some 0;
  variant_id = none;
  eval_case_id = some "case_1";
  repetition = 0;
  seed = none;
  thread_id = none;
  thread_position = none;
}

abbrev pub agent : AgentSnapshotRef
agent = record {
  fleet_version = none;
  agent_id = "ag_1";
  agent_version = 1;
  parameters_snapshot_id = none;
}

abbrev pub fresh : TraceRecorder String ℕ
fresh = record {
  workspace_id = "ws_1";
  run = run;
  agent = agent;
  framework_version = "0.0.3";
  runtime = "python-3.12";
  sandbox = SandboxMode.mock;
  env_started_at = 10;
  env_ended_at = none;
  sink_calls = [];
  spans = [];
  open_parents = [];
  grader_results = [];
  outputs = record { final_response_pointer = none; structured_output = none };
  links = [];
  final_state = none;
  tokens_in = 0;
  tokens_out = 0;
  cost_usd = 0;
  tool_call_count = 0;
  llm_call_count = 0;
  retries = 0;
}

recorder_made :
    new_recorder floats "ws_1" run agent "0.0.3" "python-3.12" SandboxMode.mock (some 10) 11
    ≡ some fresh
unfolding new_recorder
recorder_made = refl

abbrev mark : String → Mark
mark id = record { id = id; name = id; started_at = 11; duration_ms = 2000 }

abbrev llm : LlmCall String ℕ
llm = record (new_llm_builder floats "{}" "anthropic" "m" none) {
  output = record {
    content_pointer = none;
    content_hash = none;
    content_inline = none;
    stop_reason = some StopReason.tool_use;
    tool_use_requested =
        record { tool = "search"; tool_use_id = "use_1" }
        ∷ record { tool = "search"; tool_use_id = "use_2" }
        ∷ [];
  };
  tokens = record {
    input = 100;
    input_cache_read = 10;
    input_cache_creation = 0;
    output = 20;
    reasoning = 0;
    total = 130;
  };
  retries = 1;
}

abbrev tool : ToolCall String
tool = new_tool_builder "{}" "search" (some "use_2") none

abbrev pub acts : Acts String ℕ
acts =
    Acts.next
      (Act.block (mark "turn") Block.agent_turn (
        Acts.next (Act.block (mark "model") (Block.llm_call llm) Acts.done) (
          Acts.next
            (Act.block (mark "search") (Block.tool_call (some "ValueError: no") tool) Acts.done)
            Acts.done)))
      (Acts.next (Act.single "leave" "leave" 15 (Note.add_handoff "human")) Acts.done)

abbrev pub spans : List (Span String ℕ)
spans = spans_of_all floats none acts

ended_in_order : ids_of spans ≡ "model" ∷ "search" ∷ "turn" ∷ "leave" ∷ []
unfolding spans_of_all
ended_in_order = refl

under_the_turn :
    map (λ (s : Span String ℕ). s.base.parent_id) spans
    ≡ some "turn" ∷ some "turn" ∷ none ∷ none ∷ []
unfolding spans_of_all
under_the_turn = refl

run_acts-Appended_example :
    Appended fresh
      (run_acts floats acts fresh)
      (spans_of_all floats (current_parent fresh.open_parents) acts)
run_acts-Appended_example = run_acts-Appended floats acts fresh

fresh-IsCounted : IsCounted floats fresh
fresh-IsCounted = record {
  tokens_in = refl;
  tokens_out = refl;
  cost = refl;
  llm_calls = refl;
  tool_calls = refl;
  retries = refl;
}

run_acts-IsCounted_example : IsCounted floats (run_acts floats acts fresh)
run_acts-IsCounted_example = run_acts-IsCounted floats acts fresh fresh-IsCounted

tokens_counted : (run_acts floats acts fresh).tokens_in ≡ 110
unfolding run_acts
tokens_counted = refl

distinct : are_unique (ids_of spans) ≡ true
unfolding spans_of_all are_unique
distinct = refl

linked : tool_use_ids_linked spans ≡ true
unfolding spans_of_all tool_use_ids_linked
linked = refl

build-valid_example :
    (trace : Trace String ℕ) × ((build "tr_1" "1.5.0" 20
        (exit 19 (some "no") (run_acts floats acts (enter fresh)))).0
      ≡ some trace)
    × (trace.spans ≡ spans)
    × (trace.environment.ended_at ≡ some 19)
    × (trace.final_state ≡ final_of fresh.final_state (some "no"))
build-valid_example =
    build-valid floats acts fresh 19 20 (some "no") "tr_1" "1.5.0" refl refl distinct linked
      (omega arith)

abbrev pub only : Act String ℕ
only = Act.single "leave" "leave" 15 (Note.add_handoff "human")

not_recorded :
    contains "turn" (ids_of (spans_of_all floats (some "turn") (Acts.next only Acts.done))) ≡ false
unfolding spans_of_all
not_recorded = refl

open_turn_refused :
    (build "tr_1" "1.5.0" 20
      (run_acts floats (Acts.next only Acts.done) (open_block "turn" fresh))).0
    ≡ none
open_turn_refused =
    build-open_block floats only Acts.done fresh "turn" 20 "tr_1" "1.5.0" refl not_recorded
