-- ===== src/Trace/Rows/Write.antt =====
-- storage/postgres/mappers/trace_spans_write.py: the rows of a span, and the deletion of a trace's
-- spans, which cascades to the detail tables.
use selfevals.Prelude.{ℕ, suc, String, Option, none, some, List, [], ◌∷◌, ◌++◌}
use selfevals.Trace.{
  Detail, LlmCall, ToolCall, ToolCallStatus, StopReason, Retrieval, RetrievedDoc, ToolUseRequest,
  Span,
}
use selfevals.Trace.Rows.{
  Keyed, SpanRow, LlmRow, ToolRequestRow, ToolRow, RetrievalRow, DocRow, Tables, without_trace,
}

-- the values of the enums
abbrev pub stop_value : StopReason → String
stop_value StopReason.end_turn = "end_turn"
stop_value StopReason.tool_use = "tool_use"
stop_value StopReason.max_tokens = "max_tokens"
stop_value StopReason.stop_sequence = "stop_sequence"
stop_value StopReason.pause_turn = "pause_turn"
stop_value StopReason.refusal = "refusal"
stop_value StopReason.stop_error = "error"

abbrev pub status_value : ToolCallStatus → String
status_value ToolCallStatus.ok = "ok"
status_value ToolCallStatus.error = "error"
status_value ToolCallStatus.timed_out = "timeout"

abbrev pub stop_text : Option StopReason → Option String
stop_text none = none
stop_text (some reason) = some (stop_value reason)

abbrev pub kind_value : {J F : Type 0} → Detail J F → String
kind_value Detail.agent_turn = "agent_turn"
kind_value (Detail.llm_call c) = "llm_call"
kind_value (Detail.tool_call c) = "tool_call"
kind_value (Detail.retrieval c) = "retrieval"
kind_value (Detail.memory_read c) = "memory_read"
kind_value (Detail.memory_write c) = "memory_write"
kind_value (Detail.decision c) = "decision"
kind_value (Detail.handoff c) = "handoff"
kind_value (Detail.human_intervention c) = "human_intervention"
kind_value (Detail.guardrail_check c) = "guardrail_check"
kind_value (Detail.stt c) = "stt"
kind_value (Detail.tts c) = "tts"
kind_value (Detail.error_span c) = "error"
kind_value (Detail.custom c) = "custom"

abbrev pub row : {R : Type 0} → String → String → R → Keyed R
row trace_id span_id columns = record { trace_id = trace_id; span_id = span_id; columns = columns }

abbrev pub span_row : {J F : Type 0} → String → ℕ → Span J F → SpanRow
span_row workspace_id index s = record {
  workspace_id = workspace_id;
  span_index = index;
  kind = kind_value s.detail;
  parent_id = s.base.parent_id;
  name = s.base.name;
  started_at = s.base.started_at;
  duration_ms = s.base.duration_ms;
}

abbrev pub llm_row : {J F : Type 0} → String → LlmCall J F → LlmRow J F
llm_row workspace_id c = record {
  workspace_id = workspace_id;
  provider = c.provider;
  model = c.model;
  model_version_pinned = c.model_version_pinned;
  system_prompt_pointer = c.system_prompt_pointer;
  system_prompt_hash = c.system_prompt_hash;
  system_prompt_inline = c.system_prompt_inline;
  messages_pointer = c.messages_pointer;
  messages_hash = c.messages_hash;
  messages_inline = c.messages_inline;
  tools_offered = c.tools_offered;
  tools_offered_hash = c.tools_offered_hash;
  params = c.params;
  reasoning_available = c.reasoning.available;
  reasoning_redacted = c.reasoning.redacted;
  reasoning_summary_pointer = c.reasoning.summary_pointer;
  reasoning_full_pointer = c.reasoning.full_pointer;
  reasoning_thinking_tokens = c.reasoning.thinking_tokens;
  reasoning_signature = c.reasoning.signature;
  output_content_pointer = c.output.content_pointer;
  output_content_hash = c.output.content_hash;
  output_content_inline = c.output.content_inline;
  output_stop_reason = stop_text c.output.stop_reason;
  tokens_input = c.tokens.input;
  tokens_input_cache_read = c.tokens.input_cache_read;
  tokens_input_cache_creation = c.tokens.input_cache_creation;
  tokens_output = c.tokens.output;
  tokens_reasoning = c.tokens.reasoning;
  tokens_total = c.tokens.total;
  cost_input = c.cost_usd.input;
  cost_cache_read = c.cost_usd.cache_read;
  cost_cache_creation = c.cost_usd.cache_creation;
  cost_output = c.cost_usd.output;
  cost_total = c.cost_usd.total;
  time_to_first_token_ms = c.time_to_first_token_ms;
  tokens_per_second = c.tokens_per_second;
  retries = c.retries;
  cache_hit = c.cache_hit;
  provider_metadata = c.provider_metadata;
}

abbrev pub tool_row : {J : Type 0} → String → ToolCall J → ToolRow J
tool_row workspace_id c = record {
  workspace_id = workspace_id;
  tool_name = c.tool_name;
  tool_version = c.tool_version;
  tool_use_id = c.tool_use_id;
  args_pointer = c.args_pointer;
  args_hash = c.args_hash;
  args_inline = c.args_inline;
  result_pointer = c.result_pointer;
  result_hash = c.result_hash;
  result_inline = c.result_inline;
  status = status_value c.status;
  error = c.error;
  retry_chain = c.retry_chain;
  sandboxed = c.sandboxed;
  side_effects = c.side_effects;
}

abbrev pub retrieval_row : {F : Type 0} → Retrieval F → RetrievalRow
retrieval_row c = record {
  retriever = c.retriever;
  query_pointer = c.query_pointer;
  query_hash = c.query_hash;
  query_embedding_model = c.query_embedding_model;
  top_k_requested = c.top_k_requested;
  top_k_returned = c.top_k_returned;
  reranker = c.reranker;
  grounding_used = c.grounding_used;
}

-- `for pos, req in enumerate(…)`, from a position on
abbrev pub request_rows : String → String → ℕ → List ToolUseRequest → List (Keyed ToolRequestRow)
request_rows trace_id span_id pos [] = []
request_rows trace_id span_id pos (req ∷ requests) =
    row trace_id span_id (record { position = pos; tool = req.tool; tool_use_id = req.tool_use_id })
    ∷ request_rows trace_id span_id (suc pos) requests

abbrev pub doc_rows :
    {F : Type 0} → String → String → ℕ → List (RetrievedDoc F) → List (Keyed (DocRow F))
doc_rows trace_id span_id pos [] = []
doc_rows trace_id span_id pos (doc ∷ docs) =
    row trace_id span_id (record {
      position = pos;
      doc_id = doc.doc_id;
      doc_version = doc.doc_version;
      chunk_id = doc.chunk_id;
      raw_score = doc.raw_score;
      rerank_score = doc.rerank_score;
    })
    ∷ doc_rows trace_id span_id (suc pos) docs

module _ {J F : Type 0} (trace_id workspace_id : String) where
  -- the functions `_insert_*_span`, by the kind of the span
  unfoldable pub insert_detail : String → Detail J F → Tables J F → Tables J F
  insert_detail id Detail.agent_turn db = db
  insert_detail id (Detail.llm_call c) db = record db {
    llm_calls = db.llm_calls ++ row trace_id id (llm_row workspace_id c) ∷ [];
    llm_tool_requests =
        db.llm_tool_requests ++ request_rows trace_id id 0 c.output.tool_use_requested;
  }
  insert_detail id (Detail.tool_call c) db = record db {
    tool_calls = db.tool_calls ++ row trace_id id (tool_row workspace_id c) ∷ [];
  }
  insert_detail id (Detail.retrieval c) db = record db {
    retrieval_spans = db.retrieval_spans ++ row trace_id id (retrieval_row c) ∷ [];
    retrieved_docs = db.retrieved_docs ++ doc_rows trace_id id 0 c.retrieved;
  }
  insert_detail id (Detail.memory_read c) db = record db {
    memory_read_spans = db.memory_read_spans ++ row trace_id id c ∷ [];
  }
  insert_detail id (Detail.memory_write c) db = record db {
    memory_write_spans = db.memory_write_spans ++ row trace_id id c ∷ [];
  }
  insert_detail id (Detail.decision c) db = record db {
    decision_spans = db.decision_spans ++ row trace_id id c ∷ [];
  }
  insert_detail id (Detail.handoff c) db = record db {
    handoff_spans = db.handoff_spans ++ row trace_id id c ∷ [];
  }
  insert_detail id (Detail.human_intervention c) db = record db {
    human_intervention_spans = db.human_intervention_spans ++ row trace_id id c ∷ [];
  }
  insert_detail id (Detail.guardrail_check c) db = record db {
    guardrail_check_spans = db.guardrail_check_spans ++ row trace_id id c ∷ [];
  }
  insert_detail id (Detail.stt c) db = record db {
    stt_spans = db.stt_spans ++ row trace_id id c ∷ [];
  }
  insert_detail id (Detail.tts c) db = record db {
    tts_spans = db.tts_spans ++ row trace_id id c ∷ [];
  }
  insert_detail id (Detail.error_span c) db = record db {
    error_spans = db.error_spans ++ row trace_id id c ∷ [];
  }
  insert_detail id (Detail.custom payload) db = record db {
    custom_spans = db.custom_spans ++ row trace_id id payload ∷ [];
  }

  unfoldable pub insert_span : ℕ → Span J F → Tables J F → Tables J F
  unfolding insert_detail
  insert_span index s db = insert_detail s.base.id s.detail (record db {
    spans = db.spans ++ row trace_id s.base.id (span_row workspace_id index s) ∷ [];
  })

  -- `for index, span in enumerate(entity.spans)`, from an index on
  unfoldable pub insert_spans : ℕ → List (Span J F) → Tables J F → Tables J F
  unfolding insert_span
  insert_spans index [] db = db
  insert_spans index (s ∷ spans) db = insert_spans (suc index) spans (insert_span index s db)

-- DELETE FROM trace_spans WHERE trace_id = …, which cascades
unfoldable pub delete_spans : {J F : Type 0} → String → Tables J F → Tables J F
delete_spans trace_id db = record {
  spans = without_trace trace_id db.spans;
  llm_calls = without_trace trace_id db.llm_calls;
  llm_tool_requests = without_trace trace_id db.llm_tool_requests;
  tool_calls = without_trace trace_id db.tool_calls;
  retrieval_spans = without_trace trace_id db.retrieval_spans;
  retrieved_docs = without_trace trace_id db.retrieved_docs;
  memory_read_spans = without_trace trace_id db.memory_read_spans;
  memory_write_spans = without_trace trace_id db.memory_write_spans;
  decision_spans = without_trace trace_id db.decision_spans;
  handoff_spans = without_trace trace_id db.handoff_spans;
  human_intervention_spans = without_trace trace_id db.human_intervention_spans;
  guardrail_check_spans = without_trace trace_id db.guardrail_check_spans;
  stt_spans = without_trace trace_id db.stt_spans;
  tts_spans = without_trace trace_id db.tts_spans;
  error_spans = without_trace trace_id db.error_spans;
  custom_spans = without_trace trace_id db.custom_spans;
}
