-- ===== src/Trace/Recorder/Blocks.antt =====
-- trace/recorder.py and trace/recorder_spans.py: the blocks and the single calls that record spans. A
-- block is opened with its id, and closed with what its span shares with the others and the builder
-- as the body left it. An exception that leaves a block passes through the exits of the blocks
-- around it.
use selfevals.Prelude.{ℕ, ◌+◌, String, Bool, Option, none, List, [], ◌∷◌, drop, length}
use selfevals.Graders.{Floats}
use selfevals.Trace.{Detail, LlmCall, ToolCall, Stt, Tts, RetrievedDoc, SpanBase, Span}
use selfevals.Trace.Builders.{value_or, build_llm_call, mark_raised}
use selfevals.Trace.Recorder.{TraceRecorder, current_parent, record_span}

abbrev pub span_of : {J F : Type 0} → SpanBase → Detail J F → Span J F
span_of base detail = record { base = base; detail = detail }

module _ {J F : Type 0} where
  -- the entry of a block
  unfoldable pub open_block : String → TraceRecorder J F → TraceRecorder J F
  open_block id r = record r { open_parents = id ∷ r.open_parents }

  -- `self._open_parents.pop()`
  unfoldable pub pop_parent : TraceRecorder J F → TraceRecorder J F
  pop_parent r = record r { open_parents = drop 1 r.open_parents }

  -- the exits of `agent_turn`, `llm_call`, `tool_call`, `stt` and `tts`, with the span they record
  unfoldable pub close_agent_turn : SpanBase → TraceRecorder J F → TraceRecorder J F
  unfolding pop_parent record_span
  close_agent_turn s r = record_span (span_of s Detail.agent_turn) (pop_parent r)

  unfoldable pub close_llm_call :
      Floats F → LlmCall J F → SpanBase → TraceRecorder J F → TraceRecorder J F
  unfolding pop_parent record_span build_llm_call
  close_llm_call fl builder s r =
      let call = build_llm_call fl s.duration_ms builder in
      let r' = record_span (span_of s (Detail.llm_call call)) (pop_parent r) in
      record r' {
        llm_call_count = r'.llm_call_count + 1;
        tokens_in = r'.tokens_in + (call.tokens.input + call.tokens.input_cache_read);
        tokens_out = r'.tokens_out + call.tokens.output;
        cost_usd = fl.add r'.cost_usd call.cost_usd.total;
        retries = r'.retries + call.retries;
      }

  unfoldable pub close_tool_call :
      Option String → ToolCall J → SpanBase → TraceRecorder J F → TraceRecorder J F
  unfolding pop_parent record_span mark_raised
  close_tool_call raised builder s r =
      let call = mark_raised raised builder in
      let r' = record_span (span_of s (Detail.tool_call call)) (pop_parent r) in
      record r' { tool_call_count = r'.tool_call_count + 1 }

  unfoldable pub close_stt : Stt J F → SpanBase → TraceRecorder J F → TraceRecorder J F
  unfolding pop_parent record_span
  close_stt builder s r = record_span (span_of s (Detail.stt builder)) (pop_parent r)

  unfoldable pub close_tts : Tts J → SpanBase → TraceRecorder J F → TraceRecorder J F
  unfolding pop_parent record_span
  close_tts builder s r = record_span (span_of s (Detail.tts builder)) (pop_parent r)

  -- what the `build_*_span` functions of recorder_spans.py put into a span
  unfoldable pub build_retrieval_span :
      (retriever : String) (top_k_requested : ℕ) (retrieved : Option (List (RetrievedDoc F)))
      (reranker query_pointer query_hash : Option String)
      → Detail J F
  build_retrieval_span retriever top_k_requested retrieved reranker query_pointer query_hash =
      let docs = value_or [] retrieved in
      Detail.retrieval (record {
        retriever = retriever;
        query_pointer = query_pointer;
        query_hash = query_hash;
        query_embedding_model = none;
        top_k_requested = top_k_requested;
        top_k_returned = length docs;
        retrieved = docs;
        reranker = reranker;
        grounding_used = [];
      })

  unfoldable pub build_memory_read_span : String → List String → List String → Detail J F
  build_memory_read_span store hits misses = Detail.memory_read (record {
    memory_store = store;
    keys_requested = [];
    keys_hit = hits;
    keys_missed = misses;
    values_pointer = none;
  })

  unfoldable pub build_memory_write_span : String → List String → Detail J F
  build_memory_write_span store keys =
      Detail.memory_write
        (record { memory_store = store; keys_written = keys; values_pointer = none })

  unfoldable pub build_decision_span :
      String → String → Option (List String) → Option F → Detail J F
  build_decision_span decision_type chosen alternatives confidence = Detail.decision (record {
    decision_type = decision_type;
    chosen = chosen;
    alternatives_considered = value_or [] alternatives;
    rationale_pointer = none;
    confidence = confidence;
  })

  unfoldable pub build_handoff_span : String → Detail J F
  build_handoff_span target = Detail.handoff (record { target = target; payload_pointer = none })

  unfoldable pub build_human_intervention_span : String → String → Detail J F
  build_human_intervention_span actor action =
      Detail.human_intervention
        (record { actor = actor; action = action; rationale_pointer = none })

  unfoldable pub build_guardrail_check_span : String → Bool → Detail J F
  build_guardrail_check_span guardrail passed =
      Detail.guardrail_check
        (record { guardrail = guardrail; passed = passed; detail_pointer = none })

  unfoldable pub build_error_span : String → String → Bool → Detail J F
  build_error_span error_type message recoverable =
      Detail.error_span
        (record { error_type = error_type; message = message; recoverable = recoverable })

  -- `add_retrieval`, `add_decision` and the others: a span with no duration under the innermost
  -- parent, with the detail that the functions above build
  unfoldable pub add_span :
      (id name : String) (now : ℕ) → Detail J F → TraceRecorder J F → TraceRecorder J F
  unfolding record_span
  add_span id name now detail r =
      record_span
        (span_of
          (record {
            id = id;
            parent_id = current_parent r.open_parents;
            name = name;
            started_at = now;
            duration_ms = 0;
          })
          detail)
        r
