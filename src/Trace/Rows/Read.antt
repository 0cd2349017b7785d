-- ===== src/Trace/Rows/Read.antt =====
-- storage/postgres/mappers/trace_spans_read.py: the spans of a trace from its rows. What raises (a
-- kind, a status or a reason that is none, a detail row that is missing) is `none`.
use selfevals.Prelude.{
  String, str_eq, Option, none, some, List, [], ◌∷◌, map, sort_with, leb, if◌then◌else◌,
}
use selfevals.Aggregation.Iteration.{◌>>=◌}
use selfevals.Trace.{Detail, ToolCallStatus, StopReason, RetrievedDoc, ToolUseRequest, Span}
use selfevals.Trace.Rows.{
  Keyed, SpanRow, ToolRequestRow, DocRow, Tables, SpanRows, where_span, where_trace,
}

-- the enums from their values
unfoldable pub parse_stop : String → Option StopReason
parse_stop value =
    if str_eq value "end_turn"
    then some StopReason.end_turn
    else if str_eq value "tool_use"
    then some StopReason.tool_use
    else if str_eq value "max_tokens"
    then some StopReason.max_tokens
    else if str_eq value "stop_sequence"
    then some StopReason.stop_sequence
    else if str_eq value "pause_turn"
    then some StopReason.pause_turn
    else if str_eq value "refusal"
    then some StopReason.refusal
    else if str_eq value "error"
    then some StopReason.stop_error
    else none

unfoldable pub parse_stop_text : Option String → Option (Option StopReason)
unfolding parse_stop
parse_stop_text none = some none
parse_stop_text (some value) = do reason ← parse_stop value; some (some reason)

unfoldable pub parse_status : String → Option ToolCallStatus
parse_status value =
    if str_eq value "ok"
    then some ToolCallStatus.ok
    else if str_eq value "error"
    then some ToolCallStatus.error
    else if str_eq value "timeout"
    then some ToolCallStatus.timed_out
    else none

-- `cur.fetchone()`
abbrev pub fetchone : {A : Type 0} → List A → Option A
fetchone [] = none
fetchone (row ∷ rows) = some row

-- ORDER BY position
abbrev pub by_position : {F : Type 0} → List (DocRow F) → List (DocRow F)
by_position {F} rows = sort_with (λ (a b : DocRow F). leb a.position b.position) rows

abbrev pub by_request : List ToolRequestRow → List ToolRequestRow
by_request rows = sort_with (λ (a b : ToolRequestRow). leb a.position b.position) rows

-- ORDER BY span_index
abbrev pub by_index : List (Keyed SpanRow) → List (Keyed SpanRow)
by_index rows =
    sort_with (λ (a b : Keyed SpanRow). leb a.columns.span_index b.columns.span_index) rows

-- the SELECTs by the key of a span, of which each kind needs its own
abbrev pub select_span : {J F : Type 0} → String → String → Tables J F → SpanRows J F
select_span trace_id span_id db = record {
  llm_calls = where_span trace_id span_id db.llm_calls;
  llm_tool_requests = where_span trace_id span_id db.llm_tool_requests;
  tool_calls = where_span trace_id span_id db.tool_calls;
  retrieval_spans = where_span trace_id span_id db.retrieval_spans;
  retrieved_docs = where_span trace_id span_id db.retrieved_docs;
  memory_read_spans = where_span trace_id span_id db.memory_read_spans;
  memory_write_spans = where_span trace_id span_id db.memory_write_spans;
  decision_spans = where_span trace_id span_id db.decision_spans;
  handoff_spans = where_span trace_id span_id db.handoff_spans;
  human_intervention_spans = where_span trace_id span_id db.human_intervention_spans;
  guardrail_check_spans = where_span trace_id span_id db.guardrail_check_spans;
  stt_spans = where_span trace_id span_id db.stt_spans;
  tts_spans = where_span trace_id span_id db.tts_spans;
  error_spans = where_span trace_id span_id db.error_spans;
  custom_spans = where_span trace_id span_id db.custom_spans;
}

abbrev pub request_of : ToolRequestRow → ToolUseRequest
request_of r = record { tool = r.tool; tool_use_id = r.tool_use_id }

abbrev pub doc_of : {F : Type 0} → DocRow F → RetrievedDoc F
doc_of r = record {
  doc_id = r.doc_id;
  doc_version = r.doc_version;
  chunk_id = r.chunk_id;
  raw_score = r.raw_score;
  rerank_score = r.rerank_score;
}

module _ {J F : Type 0} where
  unfoldable pub build_llm_span : SpanRows J F → Option (Detail J F)
  unfolding parse_stop_text
  build_llm_span rows = do
    r ← fetchone rows.llm_calls
    reason ← parse_stop_text r.output_stop_reason
    some (
        Detail.llm_call (record {
          provider = r.provider;
          model = r.model;
          model_version_pinned = r.model_version_pinned;
          system_prompt_pointer = r.system_prompt_pointer;
          system_prompt_hash = r.system_prompt_hash;
          system_prompt_inline = r.system_prompt_inline;
          messages_pointer = r.messages_pointer;
          messages_hash = r.messages_hash;
          messages_inline = r.messages_inline;
          tools_offered = r.tools_offered;
          tools_offered_hash = r.tools_offered_hash;
          params = r.params;
          reasoning = record {
            available = r.reasoning_available;
            redacted = r.reasoning_redacted;
            summary_pointer = r.reasoning_summary_pointer;
            full_pointer = r.reasoning_full_pointer;
            thinking_tokens = r.reasoning_thinking_tokens;
            signature = r.reasoning_signature;
          };
          output = record {
            content_pointer = r.output_content_pointer;
            content_hash = r.output_content_hash;
            content_inline = r.output_content_inline;
            stop_reason = reason;
            tool_use_requested = map request_of (by_request rows.llm_tool_requests);
          };
          tokens = record {
            input = r.tokens_input;
            input_cache_read = r.tokens_input_cache_read;
            input_cache_creation = r.tokens_input_cache_creation;
            output = r.tokens_output;
            reasoning = r.tokens_reasoning;
            total = r.tokens_total;
          };
          cost_usd = record {
            input = r.cost_input;
            cache_read = r.cost_cache_read;
            cache_creation = r.cost_cache_creation;
            output = r.cost_output;
            total = r.cost_total;
          };
          time_to_first_token_ms = r.time_to_first_token_ms;
          tokens_per_second = r.tokens_per_second;
          retries = r.retries;
          cache_hit = r.cache_hit;
          provider_metadata = r.provider_metadata;
        }))

  unfoldable pub build_tool_span : SpanRows J F → Option (Detail J F)
  unfolding parse_status
  build_tool_span rows = do
    r ← fetchone rows.tool_calls
    status ← parse_status r.status
    some (
        Detail.tool_call (record {
          tool_name = r.tool_name;
          tool_version = r.tool_version;
          tool_use_id = r.tool_use_id;
          args_pointer = r.args_pointer;
          args_hash = r.args_hash;
          args_inline = r.args_inline;
          result_pointer = r.result_pointer;
          result_hash = r.result_hash;
          result_inline = r.result_inline;
          status = status;
          error = r.error;
          retry_chain = r.retry_chain;
          sandboxed = r.sandboxed;
          side_effects = r.side_effects;
        }))

  unfoldable pub build_retrieval_span : SpanRows J F → Option (Detail J F)
  build_retrieval_span rows = do
    r ← fetchone rows.retrieval_spans
    some (
        Detail.retrieval (record {
          retriever = r.retriever;
          query_pointer = r.query_pointer;
          query_hash = r.query_hash;
          query_embedding_model = r.query_embedding_model;
          top_k_requested = r.top_k_requested;
          top_k_returned = r.top_k_returned;
          retrieved = map doc_of (by_position rows.retrieved_docs);
          reranker = r.reranker;
          grounding_used = r.grounding_used;
        }))

  unfoldable pub build_span : String → SpanRows J F → Option (Detail J F)
  unfolding build_llm_span build_tool_span build_retrieval_span
  build_span kind rows =
      if str_eq kind "agent_turn"
      then some Detail.agent_turn
      else if str_eq kind "llm_call"
      then build_llm_span rows
      else if str_eq kind "tool_call"
      then build_tool_span rows
      else if str_eq kind "retrieval"
      then build_retrieval_span rows
      else if str_eq kind "memory_read"
      then (do r ← fetchone rows.memory_read_spans; some (Detail.memory_read r))
      else if str_eq kind "memory_write"
      then (do r ← fetchone rows.memory_write_spans; some (Detail.memory_write r))
      else if str_eq kind "decision"
      then (do r ← fetchone rows.decision_spans; some (Detail.decision r))
      else if str_eq kind "handoff"
      then (do r ← fetchone rows.handoff_spans; some (Detail.handoff r))
      else if str_eq kind "human_intervention"
      then (do r ← fetchone rows.human_intervention_spans; some (Detail.human_intervention r))
      else if str_eq kind "guardrail_check"
      then (do r ← fetchone rows.guardrail_check_spans; some (Detail.guardrail_check r))
      else if str_eq kind "stt"
      then (do r ← fetchone rows.stt_spans; some (Detail.stt r))
      else if str_eq kind "tts"
      then (do r ← fetchone rows.tts_spans; some (Detail.tts r))
      else if str_eq kind "error"
      then (do r ← fetchone rows.error_spans; some (Detail.error_span r))
      else if str_eq kind "custom"
      then (do r ← fetchone rows.custom_spans; some (Detail.custom r))
      else none

  -- a span from its base row and its detail rows
  unfoldable pub span_from : Keyed SpanRow → SpanRows J F → Option (Span J F)
  unfolding build_span
  span_from r rows = do
    detail ← build_span r.columns.kind rows
    some (record {
      base = record {
        id = r.span_id;
        parent_id = r.columns.parent_id;
        name = r.columns.name;
        started_at = r.columns.started_at;
        duration_ms = r.columns.duration_ms;
      };
      detail = detail;
    })

  unfoldable pub load_span : String → Tables J F → Keyed SpanRow → Option (Span J F)
  unfolding span_from
  load_span trace_id db r = span_from r (select_span trace_id r.span_id db)

  unfoldable pub load_all : String → Tables J F → List (Keyed SpanRow) → Option (List (Span J F))
  unfolding load_span
  load_all trace_id db [] = some []
  load_all trace_id db (r ∷ rows) = do
    s ← load_span trace_id db r
    spans ← load_all trace_id db rows
    some (s ∷ spans)

  unfoldable pub load_spans : String → Tables J F → Option (List (Span J F))
  unfolding load_all
  load_spans trace_id db = load_all trace_id db (by_index (where_trace trace_id db.spans))
