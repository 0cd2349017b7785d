-- ===== src/Trace/Mapper.antt =====
-- storage/postgres/mappers/trace.py, trace_write.py and trace_build.py: a whole trace in the tables.
-- A fact is a row of a child table of the trace, with its place in the list. What raises is `none`; a
-- trace that is not there is `some none`.
pub mod Write
pub mod Read
pub mod Facts
pub mod Loaded
use selfevals.Prelude.{
  ℕ, suc, String, str_eq, Bool, ◌&&◌, Option, none, some, List, [], ◌∷◌, ◌++◌, map, select, not,
  sort_with, leb, if◌then◌else◌,
}
use selfevals.Prelude.Int.{ℤ}
use selfevals.Aggregation.Iteration.{◌>>=◌}
use selfevals.Trace.{Span}
use selfevals.Trace.Whole.{
  SandboxMode, TraceState, RunInfo, AgentSnapshotRef, EnvironmentInfo, FinalState, GraderResult,
  TraceOutputs, LinkKind, TraceLink, TraceMetrics, Trace,
}
use selfevals.Trace.Valid.{make_trace}
use selfevals.Trace.Rows.{Tables}
use selfevals.Trace.Rows.Write.{insert_spans, delete_spans}
use selfevals.Trace.Rows.Read.{load_spans}

pub record TraceRow (J F : Type 0) : Type 0 where
  pub id : String
  pub workspace_id : String
  pub version : ℕ
  pub created_at : ℕ
  pub updated_at : ℕ
  pub deleted_at : Option ℕ
  pub schema_version : String
  pub snapshot_id : Option String
  pub run_id : String
  pub run_experiment_id : Option String
  pub run_iteration : Option ℕ
  pub run_variant_id : Option String
  pub run_eval_case_id : Option String
  pub run_repetition : ℕ
  pub run_seed : Option ℤ
  pub run_thread_id : Option String
  pub run_thread_position : Option ℕ
  pub agent_fleet_version : Option ℕ
  pub agent_agent_id : String
  pub agent_agent_version : ℕ
  pub agent_parameters_snapshot_id : Option String
  pub env_framework_version : String
  pub env_runtime : String
  pub env_sandbox : String
  pub env_tool_mocks : List String
  pub env_started_at : ℕ
  pub env_ended_at : Option ℕ
  pub final_state_status : String
  pub final_state_error : Option String
  pub outputs_final_response_pointer : Option String
  pub outputs_structured_output : Option J
  pub metrics_total_tokens_in : ℕ
  pub metrics_total_tokens_out : ℕ
  pub metrics_total_cost_usd : F
  pub metrics_total_duration_ms : ℕ
  pub metrics_tool_call_count : ℕ
  pub metrics_llm_call_count : ℕ
  pub metrics_retries : ℕ
  pub metrics_recovery_events : ℕ
  pub metrics_loop_detected : Bool

pub record Fact (R : Type 0) : Type 0 where
  pub trace_id : String
  pub index : ℕ
  pub columns : R

pub record GraderRow (J F : Type 0) : Type 0 where
  pub workspace_id : String
  pub result : GraderResult J F

pub record LinkRow : Type 0 where
  pub kind : String
  pub target_trace_id : String

pub record Database (J F : Type 0) : Type 0 where
  pub traces : List (TraceRow J F)
  pub spans : Tables J F
  pub grader_results : List (Fact (GraderRow J F))
  pub links : List (Fact LinkRow)

-- the enums and their values
abbrev pub sandbox_value : SandboxMode → String
sandbox_value SandboxMode.mock = "mock"
sandbox_value SandboxMode.dry_run = "dry_run"
sandbox_value SandboxMode.live_sandboxed = "live_sandboxed"
sandbox_value SandboxMode.live_canary = "live_canary"

unfoldable pub parse_sandbox : String → Option SandboxMode
parse_sandbox value =
    if str_eq value "mock"
    then some SandboxMode.mock
    else if str_eq value "dry_run"
    then some SandboxMode.dry_run
    else if str_eq value "live_sandboxed"
    then some SandboxMode.live_sandboxed
    else if str_eq value "live_canary"
    then some SandboxMode.live_canary
    else none

abbrev pub state_value : TraceState → String
state_value TraceState.completed = "completed"
state_value TraceState.errored = "errored"
state_value TraceState.timeout = "timeout"
state_value TraceState.aborted = "aborted"

unfoldable pub parse_state : String → Option TraceState
parse_state value =
    if str_eq value "completed"
    then some TraceState.completed
    else if str_eq value "errored"
    then some TraceState.errored
    else if str_eq value "timeout"
    then some TraceState.timeout
    else if str_eq value "aborted"
    then some TraceState.aborted
    else none

abbrev pub link_value : LinkKind → String
link_value LinkKind.paraphrase_variant = "paraphrase_variant"
link_value LinkKind.replay_of = "replay_of"
link_value LinkKind.spawned_by = "spawned_by"

unfoldable pub parse_link : String → Option LinkKind
parse_link value =
    if str_eq value "paraphrase_variant"
    then some LinkKind.paraphrase_variant
    else if str_eq value "replay_of"
    then some LinkKind.replay_of
    else if str_eq value "spawned_by"
    then some LinkKind.spawned_by
    else none

module _ {R : Type 0} where
  -- `for index, … in enumerate(…)`, from an index on
  abbrev pub fact_rows : String → ℕ → List R → List (Fact R)
  fact_rows trace_id index [] = []
  fact_rows trace_id index (c ∷ cs) =
      record { trace_id = trace_id; index = index; columns = c } ∷ fact_rows trace_id (suc index) cs

  -- DELETE … WHERE trace_id = …
  abbrev pub without_facts : String → List (Fact R) → List (Fact R)
  without_facts trace_id table = select (λ (r : Fact R). not (str_eq r.trace_id trace_id)) table

  -- SELECT … WHERE trace_id = … ORDER BY …
  abbrev pub facts_of : String → List (Fact R) → List R
  facts_of trace_id table =
      map (λ (r : Fact R). r.columns)
        (sort_with (λ (a b : Fact R). leb a.index b.index)
          (select (λ (r : Fact R). str_eq r.trace_id trace_id) table))
