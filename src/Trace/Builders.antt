-- ===== src/Trace/Builders.antt =====
-- trace/recorder.py: the builders of the spans that a block records, and what its body calls on them.
-- A builder has the fields of the span it becomes, which the body may also assign.
use selfevals.Prelude.{
  ℕ, ◌+◌, String, Bool, true, false, ◌&&◌, Option, none, some, [], ltb, if◌then◌else◌,
}
use selfevals.Graders.{Floats}
use selfevals.Trace.{
  LlmCall, ToolCall, ToolCallStatus, Stt, Tts, LlmOutput, TokenBreakdown, CostBreakdown,
}
use selfevals.Trace.Valid.{total_covers_components}

-- `_LLMSpanBuilder`; its fields are those of the span
abbrev pub new_llm_builder :
    {J F : Type 0} → Floats F → J → String → String → Option String → LlmCall J F
new_llm_builder fl empty_dict provider model pinned = record {
  provider = provider;
  model = model;
  model_version_pinned = pinned;
  system_prompt_pointer = none;
  system_prompt_hash = none;
  system_prompt_inline = none;
  messages_pointer = none;
  messages_hash = none;
  messages_inline = none;
  tools_offered = [];
  tools_offered_hash = none;
  params = empty_dict;
  reasoning = record {
    available = false;
    redacted = false;
    summary_pointer = none;
    full_pointer = none;
    thinking_tokens = 0;
    signature = none;
  };
  output = record {
    content_pointer = none;
    content_hash = none;
    content_inline = none;
    stop_reason = none;
    tool_use_requested = [];
  };
  tokens = record {
    input = 0;
    input_cache_read = 0;
    input_cache_creation = 0;
    output = 0;
    reasoning = 0;
    total = 0;
  };
  cost_usd = record {
    input = fl.zero;
    cache_read = fl.zero;
    cache_creation = fl.zero;
    output = fl.zero;
    total = fl.zero;
  };
  time_to_first_token_ms = none;
  tokens_per_second = none;
  retries = 0;
  cache_hit = false;
  provider_metadata = empty_dict;
}

abbrev pub value_or : {A : Type 0} → A → Option A → A
value_or default none = default
value_or default (some value) = value

abbrev pub or_else : {A : Type 0} → Option A → Option A → Option A
or_else none older = older
or_else (some value) older = some value

abbrev pub new_tool_builder : {J : Type 0} → J → String → Option String → Option String → ToolCall J
new_tool_builder empty_dict tool_name tool_use_id tool_version = record {
  tool_name = tool_name;
  tool_version = tool_version;
  tool_use_id = tool_use_id;
  args_pointer = none;
  args_hash = none;
  args_inline = none;
  result_pointer = none;
  result_hash = none;
  result_inline = none;
  status = ToolCallStatus.ok;
  error = none;
  retry_chain = [];
  sandboxed = false;
  side_effects = empty_dict;
}

abbrev pub new_stt_builder : {J F : Type 0} → J → String → Stt J F
new_stt_builder empty_dict provider = record {
  provider = provider;
  model = none;
  audio_pointer = none;
  audio_hash = none;
  audio_duration_ms = none;
  audio_mime_type = none;
  transcript_pointer = none;
  transcript_hash = none;
  transcript_inline = none;
  language = none;
  confidence = none;
  streaming = false;
  time_to_first_transcript_ms = none;
  provider_metadata = empty_dict;
}

abbrev pub new_tts_builder : {J : Type 0} → J → String → Tts J
new_tts_builder empty_dict provider = record {
  provider = provider;
  model = none;
  voice_id = none;
  text_pointer = none;
  text_hash = none;
  text_inline = none;
  audio_pointer = none;
  audio_hash = none;
  audio_duration_ms = none;
  audio_mime_type = none;
  time_to_first_byte_ms = none;
  provider_metadata = empty_dict;
}

-- a measured throughput, else one from the clock when there is output and time
unfoldable pub throughput : {F : Type 0} → Floats F → ℕ → ℕ → Option F → Option F
throughput fl output duration_ms (some measured) = some measured
throughput fl output duration_ms none =
    if ltb 0 output && ltb 0 duration_ms
    then some (fl.div (fl.of_nat output) (fl.div (fl.of_nat duration_ms) (fl.of_nat 1000)))
    else none

-- `except Exception` of `tool_call`: the exception goes on, and marks the builder
unfoldable pub mark_raised : {J : Type 0} → Option String → ToolCall J → ToolCall J
mark_raised none b = b
mark_raised (some raised) b = record b { status = ToolCallStatus.error; error = some raised }

module _ {J F : Type 0} where
  unfoldable pub set_output : LlmOutput → LlmCall J F → LlmCall J F
  set_output output b = record b { output = output }

  -- raises when the total is below the sum of its parts (`TokenBreakdown`)
  unfoldable pub add_tokens :
      (input cache_read cache_creation output reasoning : ℕ)
      → Option ℕ
      → LlmCall J F
      → Option (LlmCall J F)
  unfolding total_covers_components
  add_tokens input cache_read cache_creation output reasoning total b =
      let sum_of = input + cache_read + cache_creation + output + reasoning in
      let tokens : TokenBreakdown = record {
        input = input;
        input_cache_read = cache_read;
        input_cache_creation = cache_creation;
        output = output;
        reasoning = reasoning;
        total = value_or sum_of total;
      } in
      if total_covers_components tokens then some (record b { tokens = tokens }) else none

  unfoldable pub set_timing : Option ℕ → Option F → LlmCall J F → LlmCall J F
  set_timing first_token per_second b = record b {
    time_to_first_token_ms = or_else first_token b.time_to_first_token_ms;
    tokens_per_second = or_else per_second b.tokens_per_second;
  }

  unfoldable pub set_cost : Option (CostBreakdown F) → LlmCall J F → LlmCall J F
  set_cost cost b = record b { cost_usd = value_or b.cost_usd cost }

  unfoldable pub set_reasoning :
      (summary full : Option String) (thinking_tokens : ℕ) (signature : Option String)
      (redacted : Bool)
      → LlmCall J F
      → LlmCall J F
  set_reasoning summary full thinking_tokens signature redacted b = record b {
    reasoning = record {
      available = true;
      redacted = redacted;
      summary_pointer = summary;
      full_pointer = full;
      thinking_tokens = thinking_tokens;
      signature = signature;
    };
  }

  unfoldable pub build_llm_call : Floats F → ℕ → LlmCall J F → LlmCall J F
  unfolding throughput
  build_llm_call fl duration_ms b = record b {
    tokens_per_second = throughput fl b.tokens.output duration_ms b.tokens_per_second;
  }
