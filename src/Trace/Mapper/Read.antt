-- ===== src/Trace/Mapper/Read.antt =====
-- storage/postgres/mappers/trace_build.py and `TraceMapper.load` (trace.py): a trace from its rows.
use selfevals.Prelude.{String, str_eq, ◌&&◌, Option, none, some, List, [], ◌∷◌, map, if◌then◌else◌}
use selfevals.Aggregation.Iteration.{◌>>=◌}
use selfevals.Trace.{Span}
use selfevals.Trace.Whole.{TraceLink, Trace}
use selfevals.Trace.Valid.{make_trace}
use selfevals.Trace.Rows.Read.{load_spans}
use selfevals.Trace.Mapper.{
  TraceRow, GraderRow, LinkRow, Database, parse_sandbox, parse_state, parse_link, facts_of,
}

unfoldable pub links_from : List LinkRow → Option (List TraceLink)
unfolding parse_link
links_from [] = some []
links_from (r ∷ rows) = do
  kind ← parse_link r.kind
  links ← links_from rows
  some (record { kind = kind; trace_id = r.target_trace_id } ∷ links)

module _ {J F : Type 0} where
  -- SELECT … WHERE id = … AND workspace_id = …
  unfoldable pub find_trace : String → String → List (TraceRow J F) → Option (TraceRow J F)
  find_trace workspace_id id [] = none
  find_trace workspace_id id (r ∷ rows) =
      if str_eq r.id id && str_eq r.workspace_id workspace_id
      then some r
      else find_trace workspace_id id rows

  -- the trace of a row, from what the child tables have for it
  unfoldable pub trace_from :
      TraceRow J F
      → Option (List (Span J F))
      → List (GraderRow J F)
      → List LinkRow
      → Option (Trace J F)
  unfolding links_from parse_sandbox parse_state make_trace
  trace_from r loaded results link_rows = do
    spans ← loaded
    links ← links_from link_rows
    sandbox ← parse_sandbox r.env_sandbox
    status ← parse_state r.final_state_status
    make_trace (record {
      id = r.id;
      workspace_id = r.workspace_id;
      version = r.version;
      created_at = r.created_at;
      updated_at = r.updated_at;
      deleted_at = r.deleted_at;
      schema_version = r.schema_version;
      run = record {
        run_id = r.run_id;
        experiment_id = r.run_experiment_id;
        iteration = r.run_iteration;
        variant_id = r.run_variant_id;
        eval_case_id = r.run_eval_case_id;
        repetition = r.run_repetition;
        seed = r.run_seed;
        thread_id = r.run_thread_id;
        thread_position = r.run_thread_position;
      };
      agent = record {
        fleet_version = r.agent_fleet_version;
        agent_id = r.agent_agent_id;
        agent_version = r.agent_agent_version;
        parameters_snapshot_id = r.agent_parameters_snapshot_id;
      };
      environment = record {
        framework_version = r.env_framework_version;
        runtime = r.env_runtime;
        sandbox = sandbox;
        tool_mocks = r.env_tool_mocks;
        started_at = r.env_started_at;
        ended_at = r.env_ended_at;
      };
      final_state = record { status = status; error = r.final_state_error };
      spans = spans;
      outputs = record {
        final_response_pointer = r.outputs_final_response_pointer;
        structured_output = r.outputs_structured_output;
      };
      grader_results = map (λ (g : GraderRow J F). g.result) results;
      metrics = record {
        total_tokens_in = r.metrics_total_tokens_in;
        total_tokens_out = r.metrics_total_tokens_out;
        total_cost_usd = r.metrics_total_cost_usd;
        total_duration_ms = r.metrics_total_duration_ms;
        tool_call_count = r.metrics_tool_call_count;
        llm_call_count = r.metrics_llm_call_count;
        retries = r.metrics_retries;
        recovery_events = r.metrics_recovery_events;
        loop_detected = r.metrics_loop_detected;
      };
      links = links;
      snapshot_id = r.snapshot_id;
    })

  unfoldable pub build_trace : Database J F → Option (TraceRow J F) → Option (Option (Trace J F))
  unfolding trace_from
  build_trace db none = some none
  build_trace db (some r) = do
    t ←
        trace_from r (load_spans r.id db.spans) (facts_of r.id db.grader_results)
          (facts_of r.id db.links)
    some (some t)

  unfoldable pub load : String → String → Database J F → Option (Option (Trace J F))
  unfolding find_trace build_trace
  load workspace_id id db = build_trace db (find_trace workspace_id id db.traces)
