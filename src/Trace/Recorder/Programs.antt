-- ===== src/Trace/Recorder/Programs.antt =====
-- An agent's execution as the recorder of trace/recorder.py sees it: blocks that nest, and single
-- spans. What an exception skips is not there. `run_acts` makes the recorder's calls.
use selfevals.Prelude.{ℕ, String, Bool, Option, List}
use selfevals.Graders.{Floats}
use selfevals.Trace.{Detail, LlmCall, ToolCall, Stt, Tts, RetrievedDoc, SpanBase}
use selfevals.Trace.Recorder.{TraceRecorder, current_parent}
use selfevals.Trace.Recorder.Blocks.{
  open_block, close_agent_turn, close_llm_call, close_tool_call, close_stt, close_tts, add_span,
  build_retrieval_span, build_memory_read_span, build_memory_write_span, build_decision_span,
  build_handoff_span, build_human_intervention_span, build_guardrail_check_span, build_error_span,
}

-- the `add_*` calls with their arguments
pub data Note (F : Type 0) : Type 0 where
  add_retrieval :
      String
      → ℕ
      → Option (List (RetrievedDoc F))
      → Option String
      → Option String
      → Option String
      → Note F
  add_memory_read : String → List String → List String → Note F
  add_memory_write : String → List String → Note F
  add_decision : String → String → Option (List String) → Option F → Note F
  add_handoff : String → Note F
  add_human_intervention : String → String → Note F
  add_guardrail_check : String → Bool → Note F
  add_error : String → String → Bool → Note F

unfoldable pub detail_of : {J F : Type 0} → Note F → Detail J F
unfolding build_retrieval_span build_memory_read_span build_memory_write_span build_decision_span
    build_handoff_span build_human_intervention_span build_guardrail_check_span build_error_span
detail_of (Note.add_retrieval retriever k docs reranker pointer hash) =
    build_retrieval_span retriever k docs reranker pointer hash
detail_of (Note.add_memory_read store hits misses) = build_memory_read_span store hits misses
detail_of (Note.add_memory_write store keys) = build_memory_write_span store keys
detail_of (Note.add_decision kind chosen alternatives confidence) =
    build_decision_span kind chosen alternatives confidence
detail_of (Note.add_handoff target) = build_handoff_span target
detail_of (Note.add_human_intervention actor action) = build_human_intervention_span actor action
detail_of (Note.add_guardrail_check guardrail passed) = build_guardrail_check_span guardrail passed
detail_of (Note.add_error kind message recoverable) = build_error_span kind message recoverable

-- the kind of a block, with its builder at the exit, and the exception that leaves a tool call
pub data Block (J F : Type 0) : Type 0 where
  agent_turn : Block J F
  llm_call : LlmCall J F → Block J F
  tool_call : Option String → ToolCall J → Block J F
  stt : Stt J F → Block J F
  tts : Tts J → Block J F

-- the id, the name, the clock at the entry, and the duration of a span
pub record Mark : Type 0 where
  pub id : String
  pub name : String
  pub started_at : ℕ
  pub duration_ms : ℕ

abbrev pub base_of : Mark → Option String → SpanBase
base_of m parent = record {
  id = m.id;
  parent_id = parent;
  name = m.name;
  started_at = m.started_at;
  duration_ms = m.duration_ms;
}

mutual
  pub data Act (J F : Type 0) : Type 0 where
    block : Mark → Block J F → Acts J F → Act J F
    single : (id name : String) (now : ℕ) → Note F → Act J F

  pub data Acts (J F : Type 0) : Type 0 where
    done : Acts J F
    next : Act J F → Acts J F → Acts J F

module _ {J F : Type 0} (fl : Floats F) where
  unfoldable pub close_block : Block J F → SpanBase → TraceRecorder J F → TraceRecorder J F
  unfolding close_agent_turn close_llm_call close_tool_call close_stt close_tts
  close_block Block.agent_turn base r = close_agent_turn base r
  close_block (Block.llm_call builder) base r = close_llm_call fl builder base r
  close_block (Block.tool_call raised builder) base r = close_tool_call raised builder base r
  close_block (Block.stt builder) base r = close_stt builder base r
  close_block (Block.tts builder) base r = close_tts builder base r

  unfoldable mutual
    unfolding open_block close_block add_span detail_of

    -- the parent of a block is the innermost one that is open at its entry
    pub run_act : Act J F → TraceRecorder J F → TraceRecorder J F
    run_act (Act.block m kind body) r =
        close_block kind (base_of m (current_parent r.open_parents))
          (run_acts body (open_block m.id r))
    run_act (Act.single id name now note) r = add_span id name now (detail_of note) r

    pub run_acts : Acts J F → TraceRecorder J F → TraceRecorder J F
    run_acts Acts.done r = r
    run_acts (Acts.next act acts) r = run_acts acts (run_act act r)
