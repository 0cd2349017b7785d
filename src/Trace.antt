-- ===== src/Trace.antt =====
-- schemas/trace.py: the spans of a trace. JSON values are a type `J`, floats a type `F`, and times
-- natural numbers. The tests of single fields (a name that is not empty, a number that is not
-- negative) are left out.
pub mod Whole
pub mod Valid
pub mod Builders
pub mod Recorder
pub mod Rows
pub mod Mapper
use selfevals.Prelude.{ℕ, String, Bool, Option, List}

pub data StopReason : Type 0 where
  end_turn tool_use max_tokens stop_sequence pause_turn refusal stop_error : StopReason

pub data ToolCallStatus : Type 0 where
  ok error timed_out : ToolCallStatus

pub record ReasoningBlock : Type 0 where
  pub available : Bool
  pub redacted : Bool
  pub summary_pointer : Option String
  pub full_pointer : Option String
  pub thinking_tokens : ℕ
  pub signature : Option String

pub record TokenBreakdown : Type 0 where
  pub input : ℕ
  pub input_cache_read : ℕ
  pub input_cache_creation : ℕ
  pub output : ℕ
  pub reasoning : ℕ
  pub total : ℕ

pub record CostBreakdown (F : Type 0) : Type 0 where
  pub input : F
  pub cache_read : F
  pub cache_creation : F
  pub output : F
  pub total : F

pub record ToolUseRequest : Type 0 where
  pub tool : String
  pub tool_use_id : String

pub record LlmOutput : Type 0 where
  pub content_pointer : Option String
  pub content_hash : Option String
  pub content_inline : Option String
  pub stop_reason : Option StopReason
  pub tool_use_requested : List ToolUseRequest

pub record RetrievedDoc (F : Type 0) : Type 0 where
  pub doc_id : String
  pub doc_version : Option String
  pub chunk_id : Option String
  pub raw_score : Option F
  pub rerank_score : Option F

pub record LlmCall (J F : Type 0) : Type 0 where
  pub provider : String
  pub model : String
  pub model_version_pinned : Option String
  pub system_prompt_pointer : Option String
  pub system_prompt_hash : Option String
  pub system_prompt_inline : Option String
  pub messages_pointer : Option String
  pub messages_hash : Option String
  pub messages_inline : Option String
  pub tools_offered : List String
  pub tools_offered_hash : Option String
  pub params : J
  pub reasoning : ReasoningBlock
  pub output : LlmOutput
  pub tokens : TokenBreakdown
  pub cost_usd : CostBreakdown F
  pub time_to_first_token_ms : Option ℕ
  pub tokens_per_second : Option F
  pub retries : ℕ
  pub cache_hit : Bool
  pub provider_metadata : J

pub record ToolCall (J : Type 0) : Type 0 where
  pub tool_name : String
  pub tool_version : Option String
  pub tool_use_id : Option String
  pub args_pointer : Option String
  pub args_hash : Option String
  pub args_inline : Option String
  pub result_pointer : Option String
  pub result_hash : Option String
  pub result_inline : Option String
  pub status : ToolCallStatus
  pub error : Option String
  pub retry_chain : List String
  pub sandboxed : Bool
  pub side_effects : J

pub record Retrieval (F : Type 0) : Type 0 where
  pub retriever : String
  pub query_pointer : Option String
  pub query_hash : Option String
  pub query_embedding_model : Option String
  pub top_k_requested : ℕ
  pub top_k_returned : ℕ
  pub retrieved : List (RetrievedDoc F)
  pub reranker : Option String
  pub grounding_used : List String

pub record MemoryRead : Type 0 where
  pub memory_store : String
  pub keys_requested : List String
  pub keys_hit : List String
  pub keys_missed : List String
  pub values_pointer : Option String

pub record MemoryWrite : Type 0 where
  pub memory_store : String
  pub keys_written : List String
  pub values_pointer : Option String

pub record Decision (F : Type 0) : Type 0 where
  pub decision_type : String
  pub chosen : String
  pub alternatives_considered : List String
  pub rationale_pointer : Option String
  pub confidence : Option F

pub record Handoff : Type 0 where
  pub target : String
  pub payload_pointer : Option String

pub record HumanIntervention : Type 0 where
  pub actor : String
  pub action : String
  pub rationale_pointer : Option String

pub record GuardrailCheck : Type 0 where
  pub guardrail : String
  pub passed : Bool
  pub detail_pointer : Option String

pub record Stt (J F : Type 0) : Type 0 where
  pub provider : String
  pub model : Option String
  pub audio_pointer : Option String
  pub audio_hash : Option String
  pub audio_duration_ms : Option ℕ
  pub audio_mime_type : Option String
  pub transcript_pointer : Option String
  pub transcript_hash : Option String
  pub transcript_inline : Option String
  pub language : Option String
  pub confidence : Option F
  pub streaming : Bool
  pub time_to_first_transcript_ms : Option ℕ
  pub provider_metadata : J

pub record Tts (J : Type 0) : Type 0 where
  pub provider : String
  pub model : Option String
  pub voice_id : Option String
  pub text_pointer : Option String
  pub text_hash : Option String
  pub text_inline : Option String
  pub audio_pointer : Option String
  pub audio_hash : Option String
  pub audio_duration_ms : Option ℕ
  pub audio_mime_type : Option String
  pub time_to_first_byte_ms : Option ℕ
  pub provider_metadata : J

pub record ErrorInfo : Type 0 where
  pub error_type : String
  pub message : String
  pub recoverable : Bool

-- what a span has beside the shared fields, by its kind
pub data Detail (J F : Type 0) : Type 0 where
  agent_turn : Detail J F
  llm_call : LlmCall J F → Detail J F
  tool_call : ToolCall J → Detail J F
  retrieval : Retrieval F → Detail J F
  memory_read : MemoryRead → Detail J F
  memory_write : MemoryWrite → Detail J F
  decision : Decision F → Detail J F
  handoff : Handoff → Detail J F
  human_intervention : HumanIntervention → Detail J F
  guardrail_check : GuardrailCheck → Detail J F
  stt : Stt J F → Detail J F
  tts : Tts J → Detail J F
  error_span : ErrorInfo → Detail J F
  custom : (payload : J) → Detail J F

-- `_SpanBase`
pub record SpanBase : Type 0 where
  pub id : String
  pub parent_id : Option String
  pub name : String
  pub started_at : ℕ
  pub duration_ms : ℕ

pub record Span (J F : Type 0) : Type 0 where
  pub base : SpanBase
  pub detail : Detail J F
