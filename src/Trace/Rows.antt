-- ===== src/Trace/Rows.antt =====
-- storage/postgres/migrations/m0004_traces.py and m0011_audio_spans.py: the tables of spans. A row
-- of a detail table has the key of its span and the columns of its kind; where these are the fields
-- of the span's record, the record stands for them. An array and a JSON column keep their value.
pub mod Write
pub mod Read
pub mod Keys
pub mod Inserted
pub mod Own
pub mod Spans
pub mod Lossless
use selfevals.Prelude.{ℕ, String, str_eq, Bool, Option, List, [], ◌∷◌, ◌&&◌, map, select, not}
use selfevals.Trace.{
  MemoryRead, MemoryWrite, Decision, Handoff, HumanIntervention, GuardrailCheck, Stt, Tts,
  ErrorInfo,
}

pub record Keyed (R : Type 0) : Type 0 where
  pub trace_id : String
  pub span_id : String
  pub columns : R

pub record SpanRow : Type 0 where
  pub workspace_id : String
  pub span_index : ℕ
  pub kind : String
  pub parent_id : Option String
  pub name : String
  pub started_at : ℕ
  pub duration_ms : ℕ

pub record LlmRow (J F : Type 0) : Type 0 where
  pub workspace_id : String
  pub provider : String
  pub model : String
  pub model_version_pinned : Option String
  pub system_prompt_pointer : Option String
  pub system_prompt_hash : Option String
  pub system_prompt_inline : Option String
  pub messages_pointer : Option String
  pub messages_hash : Option String
  pub messages_inline : Option String
  pub tools_offered : List String
  pub tools_offered_hash : Option String
  pub params : J
  pub reasoning_available : Bool
  pub reasoning_redacted : Bool
  pub reasoning_summary_pointer : Option String
  pub reasoning_full_pointer : Option String
  pub reasoning_thinking_tokens : ℕ
  pub reasoning_signature : Option String
  pub output_content_pointer : Option String
  pub output_content_hash : Option String
  pub output_content_inline : Option String
  pub output_stop_reason : Option String
  pub tokens_input : ℕ
  pub tokens_input_cache_read : ℕ
  pub tokens_input_cache_creation : ℕ
  pub tokens_output : ℕ
  pub tokens_reasoning : ℕ
  pub tokens_total : ℕ
  pub cost_input : F
  pub cost_cache_read : F
  pub cost_cache_creation : F
  pub cost_output : F
  pub cost_total : F
  pub time_to_first_token_ms : Option ℕ
  pub tokens_per_second : Option F
  pub retries : ℕ
  pub cache_hit : Bool
  pub provider_metadata : J

pub record ToolRequestRow : Type 0 where
  pub position : ℕ
  pub tool : String
  pub tool_use_id : String

pub record ToolRow (J : Type 0) : Type 0 where
  pub workspace_id : String
  pub tool_name : String
  pub tool_version : Option String
  pub tool_use_id : Option String
  pub args_pointer : Option String
  pub args_hash : Option String
  pub args_inline : Option String
  pub result_pointer : Option String
  pub result_hash : Option String
  pub result_inline : Option String
  pub status : String
  pub error : Option String
  pub retry_chain : List String
  pub sandboxed : Bool
  pub side_effects : J

pub record RetrievalRow : Type 0 where
  pub retriever : String
  pub query_pointer : Option String
  pub query_hash : Option String
  pub query_embedding_model : Option String
  pub top_k_requested : ℕ
  pub top_k_returned : ℕ
  pub reranker : Option String
  pub grounding_used : List String

pub record DocRow (F : Type 0) : Type 0 where
  pub position : ℕ
  pub doc_id : String
  pub doc_version : Option String
  pub chunk_id : Option String
  pub raw_score : Option F
  pub rerank_score : Option F

pub record Tables (J F : Type 0) : Type 0 where
  pub spans : List (Keyed SpanRow)
  pub llm_calls : List (Keyed (LlmRow J F))
  pub llm_tool_requests : List (Keyed ToolRequestRow)
  pub tool_calls : List (Keyed (ToolRow J))
  pub retrieval_spans : List (Keyed RetrievalRow)
  pub retrieved_docs : List (Keyed (DocRow F))
  pub memory_read_spans : List (Keyed MemoryRead)
  pub memory_write_spans : List (Keyed MemoryWrite)
  pub decision_spans : List (Keyed (Decision F))
  pub handoff_spans : List (Keyed Handoff)
  pub human_intervention_spans : List (Keyed HumanIntervention)
  pub guardrail_check_spans : List (Keyed GuardrailCheck)
  pub stt_spans : List (Keyed (Stt J F))
  pub tts_spans : List (Keyed (Tts J))
  pub error_spans : List (Keyed ErrorInfo)
  pub custom_spans : List (Keyed J)

-- what the tables have for one span
pub record SpanRows (J F : Type 0) : Type 0 where
  pub llm_calls : List (LlmRow J F)
  pub llm_tool_requests : List ToolRequestRow
  pub tool_calls : List (ToolRow J)
  pub retrieval_spans : List RetrievalRow
  pub retrieved_docs : List (DocRow F)
  pub memory_read_spans : List MemoryRead
  pub memory_write_spans : List MemoryWrite
  pub decision_spans : List (Decision F)
  pub handoff_spans : List Handoff
  pub human_intervention_spans : List HumanIntervention
  pub guardrail_check_spans : List GuardrailCheck
  pub stt_spans : List (Stt J F)
  pub tts_spans : List (Tts J)
  pub error_spans : List ErrorInfo
  pub custom_spans : List J

module _ {R : Type 0} where
  -- WHERE trace_id = … AND span_id = …
  abbrev pub of_span : String → String → Keyed R → Bool
  of_span trace_id span_id row = str_eq row.trace_id trace_id && str_eq row.span_id span_id

  abbrev pub where_span : String → String → List (Keyed R) → List R
  where_span trace_id span_id table =
      map (λ (row : Keyed R). row.columns) (select (of_span trace_id span_id) table)

  -- WHERE trace_id = …
  abbrev pub where_trace : String → List (Keyed R) → List (Keyed R)
  where_trace trace_id table = select (λ (row : Keyed R). str_eq row.trace_id trace_id) table

  -- DELETE … WHERE trace_id = …
  abbrev pub without_trace : String → List (Keyed R) → List (Keyed R)
  without_trace trace_id table =
      select (λ (row : Keyed R). not (str_eq row.trace_id trace_id)) table
