-- ===== src/Trace/Recorder.antt =====
-- trace/recorder.py, `TraceRecorder`: the state of a recorder and its calls. A context manager is its
-- entry, which opens a parent, and its exit, which records the span. Ids and the clock are arguments.
-- The calls of the sink are kept in their order; a sink that raises changes nothing, since its
-- errors are suppressed.
pub mod Blocks
pub mod Programs
pub mod Spans
pub mod Builds
pub mod Counts
pub mod Counted
use selfevals.Prelude.{
  ℕ, ◌+◌, ◌-◌, String, str_eq, Bool, true, false, Option, none, some, List, [], ◌∷◌, ◌++◌, length,
  ltb, ◌&&◌, if◌then◌else◌,
}
use selfevals.Graders.{Floats}
use selfevals.Trace.{
  Detail, LlmCall, ToolCall, ToolCallStatus, Stt, Tts, Retrieval, RetrievedDoc, MemoryRead,
  MemoryWrite, Decision, Handoff, HumanIntervention, GuardrailCheck, ErrorInfo, Span, LlmOutput,
  TokenBreakdown, CostBreakdown, ReasoningBlock, StopReason, ToolUseRequest,
}
use selfevals.Trace.Whole.{
  RunInfo, AgentSnapshotRef, SandboxMode, FinalState, TraceState, GraderResult, TraceOutputs,
  TraceLink, TraceMetrics, EnvironmentInfo, Trace,
}
use selfevals.Trace.Valid.{make_trace}

-- trace/span_sink.py: the calls of the live sink
pub data SinkCall (J F : Type 0) : Type 0 where
  trace_started : (workspace_id run_id : String) → SinkCall J F
  span_finished : (workspace_id run_id : String) → Span J F → SinkCall J F
  trace_finished : (workspace_id run_id : String) → TraceState → SinkCall J F

pub record TraceRecorder (J F : Type 0) : Type 0 where
  pub workspace_id : String
  pub run : RunInfo
  pub agent : AgentSnapshotRef
  pub framework_version : String
  pub runtime : String
  pub sandbox : SandboxMode
  pub env_started_at : ℕ
  pub env_ended_at : Option ℕ
  pub sink_calls : List (SinkCall J F)
  pub spans : List (Span J F)
  pub open_parents : List String
  pub grader_results : List (GraderResult J F)
  pub outputs : TraceOutputs J
  pub links : List TraceLink
  pub final_state : Option FinalState
  pub tokens_in : ℕ
  pub tokens_out : ℕ
  pub cost_usd : F
  pub tool_call_count : ℕ
  pub llm_call_count : ℕ
  pub retries : ℕ

abbrev pub state_of : TraceState → Option String → FinalState
state_of status message = record { status = status; error = message }

abbrev pub outcome_of : Option String → FinalState
outcome_of none = state_of TraceState.completed none
outcome_of (some raised) = state_of TraceState.errored (some raised)

abbrev pub or_state : Option FinalState → FinalState → FinalState
or_state none default = default
or_state (some state) default = state

abbrev pub or_now : Option ℕ → ℕ → ℕ
or_now none now = now
or_now (some time) now = time

-- the parents that are open, the innermost first
unfoldable pub current_parent : List String → Option String
current_parent [] = none
current_parent (parent ∷ outer) = some parent

-- the constructor, which raises when the workspace is empty
unfoldable pub new_recorder :
    {J F : Type 0}
    → Floats F
    → String
    → RunInfo
    → AgentSnapshotRef
    → String
    → String
    → SandboxMode
    → Option ℕ
    → ℕ
    → Option (TraceRecorder J F)
new_recorder fl workspace_id run agent framework_version runtime sandbox started now =
    if str_eq workspace_id ""
    then none
    else some (record {
      workspace_id = workspace_id;
      run = run;
      agent = agent;
      framework_version = framework_version;
      runtime = runtime;
      sandbox = sandbox;
      env_started_at = or_now started now;
      env_ended_at = none;
      sink_calls = [];
      spans = [];
      open_parents = [];
      grader_results = [];
      outputs = record { final_response_pointer = none; structured_output = none };
      links = [];
      final_state = none;
      tokens_in = 0;
      tokens_out = 0;
      cost_usd = fl.zero;
      tool_call_count = 0;
      llm_call_count = 0;
      retries = 0;
    })

module _ {J F : Type 0} where
  unfoldable pub enter : TraceRecorder J F → TraceRecorder J F
  enter r = record r {
    sink_calls = r.sink_calls ++ SinkCall.trace_started r.workspace_id r.run.run_id ∷ [];
  }

  -- `__exit__`, with the exception that left the block, if any
  unfoldable pub exit : ℕ → Option String → TraceRecorder J F → TraceRecorder J F
  exit now raised r =
      let final = or_state r.final_state (outcome_of raised) in
      record r {
        final_state = some final;
        env_ended_at = some now;
        sink_calls =
            r.sink_calls ++ SinkCall.trace_finished r.workspace_id r.run.run_id final.status ∷ [];
      }

  -- `_record`
  unfoldable pub record_span : Span J F → TraceRecorder J F → TraceRecorder J F
  record_span span r = record r {
    spans = r.spans ++ span ∷ [];
    sink_calls = r.sink_calls ++ SinkCall.span_finished r.workspace_id r.run.run_id span ∷ [];
  }

  unfoldable pub complete : TraceRecorder J F → TraceRecorder J F
  complete r = record r { final_state = some (state_of TraceState.completed none) }

  unfoldable pub abort : Option String → TraceRecorder J F → TraceRecorder J F
  abort reason r = record r { final_state = some (state_of TraceState.aborted reason) }

  unfoldable pub fail : String → TraceRecorder J F → TraceRecorder J F
  fail message r = record r { final_state = some (state_of TraceState.errored (some message)) }

  unfoldable pub timeout : TraceRecorder J F → TraceRecorder J F
  timeout r = record r { final_state = some (state_of TraceState.timeout none) }

  unfoldable pub add_grader_result : GraderResult J F → TraceRecorder J F → TraceRecorder J F
  add_grader_result result r = record r { grader_results = r.grader_results ++ result ∷ [] }

  unfoldable pub set_outputs : TraceOutputs J → TraceRecorder J F → TraceRecorder J F
  set_outputs outputs r = record r { outputs = outputs }

  unfoldable pub add_link : TraceLink → TraceRecorder J F → TraceRecorder J F
  add_link link r = record r { links = r.links ++ link ∷ [] }

  -- what `build` gives the constructor of the trace; `ended` is the clock
  unfoldable pub assembled : String → String → ℕ → TraceRecorder J F → Trace J F
  assembled trace_id schema_version now r =
      let ended = or_now r.env_ended_at now in
      record {
        id = trace_id;
        workspace_id = r.workspace_id;
        version = 1;
        created_at = now;
        updated_at = now;
        deleted_at = none;
        schema_version = schema_version;
        run = r.run;
        agent = r.agent;
        environment = record {
          framework_version = r.framework_version;
          runtime = r.runtime;
          sandbox = r.sandbox;
          tool_mocks = [];
          started_at = r.env_started_at;
          ended_at = some ended;
        };
        final_state = or_state r.final_state (state_of TraceState.completed none);
        spans = r.spans;
        outputs = r.outputs;
        grader_results = r.grader_results;
        metrics = record {
          total_tokens_in = r.tokens_in;
          total_tokens_out = r.tokens_out;
          total_cost_usd = r.cost_usd;
          total_duration_ms = ended - r.env_started_at;
          tool_call_count = r.tool_call_count;
          llm_call_count = r.llm_call_count;
          retries = r.retries;
          recovery_events = 0;
          loop_detected = false;
        };
        links = r.links;
        snapshot_id = none;
      }

  -- `build` completes a recorder that has no final state
  unfoldable pub build :
      String → String → ℕ → TraceRecorder J F → Option (Trace J F) × TraceRecorder J F
  unfolding assembled make_trace
  build trace_id schema_version now r = (
    make_trace (assembled trace_id schema_version now r),
    record r { final_state = some (or_state r.final_state (state_of TraceState.completed none)) },
  )
