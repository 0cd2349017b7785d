-- ===== src/Trace/Whole.antt =====
-- schemas/trace.py: the trace of one execution, its spans and what holds of all of them.
use selfevals.Prelude.{ℕ, String, Bool, Option, List}
use selfevals.Prelude.Int.{ℤ}
use selfevals.Trace.{Span}

pub data SandboxMode : Type 0 where
  mock dry_run live_sandboxed live_canary : SandboxMode

pub data TraceState : Type 0 where
  completed errored timeout aborted : TraceState

pub record RunInfo : Type 0 where
  pub run_id : String
  pub experiment_id : Option String
  pub iteration : Option ℕ
  pub variant_id : Option String
  pub eval_case_id : Option String
  pub repetition : ℕ
  pub seed : Option ℤ
  pub thread_id : Option String
  pub thread_position : Option ℕ

pub record AgentSnapshotRef : Type 0 where
  pub fleet_version : Option ℕ
  pub agent_id : String
  pub agent_version : ℕ
  pub parameters_snapshot_id : Option String

pub record EnvironmentInfo : Type 0 where
  pub framework_version : String
  pub runtime : String
  pub sandbox : SandboxMode
  pub tool_mocks : List String
  pub started_at : ℕ
  pub ended_at : Option ℕ

pub record FinalState : Type 0 where
  pub status : TraceState
  pub error : Option String

pub record GraderResult (J F : Type 0) : Type 0 where
  pub grader : String
  pub label : String
  pub score : Option F
  pub reason : Option String
  pub reason_pointer : Option String
  pub confidence : Option F
  pub failure_modes : List String
  pub breakdown : Option J

pub record TraceOutputs (J : Type 0) : Type 0 where
  pub final_response_pointer : Option String
  pub structured_output : Option J

pub data LinkKind : Type 0 where
  paraphrase_variant replay_of spawned_by : LinkKind

pub record TraceLink : Type 0 where
  pub kind : LinkKind
  pub trace_id : String

pub record TraceMetrics (F : Type 0) : Type 0 where
  pub total_tokens_in : ℕ
  pub total_tokens_out : ℕ
  pub total_cost_usd : F
  pub total_duration_ms : ℕ
  pub tool_call_count : ℕ
  pub llm_call_count : ℕ
  pub retries : ℕ
  pub recovery_events : ℕ
  pub loop_detected : Bool

pub record Trace (J F : Type 0) : Type 0 where
  pub id : String
  pub workspace_id : String
  pub version : ℕ
  pub created_at : ℕ
  pub updated_at : ℕ
  pub deleted_at : Option ℕ
  pub schema_version : String
  pub run : RunInfo
  pub agent : AgentSnapshotRef
  pub environment : EnvironmentInfo
  pub final_state : FinalState
  pub spans : List (Span J F)
  pub outputs : TraceOutputs J
  pub grader_results : List (GraderResult J F)
  pub metrics : TraceMetrics F
  pub links : List TraceLink
  pub snapshot_id : Option String
