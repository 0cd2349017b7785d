-- ===== src/Trace/Mapper/Write.antt =====
-- storage/postgres/mappers/trace_write.py and `TraceMapper.upsert` (trace.py): a trace into its rows.
use selfevals.Prelude.{String, str_eq, List, [], ◌∷◌, ◌++◌, map, if◌then◌else◌}
use selfevals.Trace.Whole.{GraderResult, TraceLink, Trace}
use selfevals.Trace.Rows.Write.{insert_spans, delete_spans}
use selfevals.Trace.Mapper.{
  TraceRow, GraderRow, LinkRow, Database, sandbox_value, state_value, link_value, fact_rows,
  without_facts,
}

abbrev pub link_row : TraceLink → LinkRow
link_row link = record { kind = link_value link.kind; target_trace_id = link.trace_id }

module _ {J F : Type 0} where
  abbrev pub trace_row_values : Trace J F → TraceRow J F
  trace_row_values t = record {
    id = t.id;
    workspace_id = t.workspace_id;
    version = t.version;
    created_at = t.created_at;
    updated_at = t.updated_at;
    deleted_at = t.deleted_at;
    schema_version = t.schema_version;
    snapshot_id = t.snapshot_id;
    run_id = t.run.run_id;
    run_experiment_id = t.run.experiment_id;
    run_iteration = t.run.iteration;
    run_variant_id = t.run.variant_id;
    run_eval_case_id = t.run.eval_case_id;
    run_repetition = t.run.repetition;
    run_seed = t.run.seed;
    run_thread_id = t.run.thread_id;
    run_thread_position = t.run.thread_position;
    agent_fleet_version = t.agent.fleet_version;
    agent_agent_id = t.agent.agent_id;
    agent_agent_version = t.agent.agent_version;
    agent_parameters_snapshot_id = t.agent.parameters_snapshot_id;
    env_framework_version = t.environment.framework_version;
    env_runtime = t.environment.runtime;
    env_sandbox = sandbox_value t.environment.sandbox;
    env_tool_mocks = t.environment.tool_mocks;
    env_started_at = t.environment.started_at;
    env_ended_at = t.environment.ended_at;
    final_state_status = state_value t.final_state.status;
    final_state_error = t.final_state.error;
    outputs_final_response_pointer = t.outputs.final_response_pointer;
    outputs_structured_output = t.outputs.structured_output;
    metrics_total_tokens_in = t.metrics.total_tokens_in;
    metrics_total_tokens_out = t.metrics.total_tokens_out;
    metrics_total_cost_usd = t.metrics.total_cost_usd;
    metrics_total_duration_ms = t.metrics.total_duration_ms;
    metrics_tool_call_count = t.metrics.tool_call_count;
    metrics_llm_call_count = t.metrics.llm_call_count;
    metrics_retries = t.metrics.retries;
    metrics_recovery_events = t.metrics.recovery_events;
    metrics_loop_detected = t.metrics.loop_detected;
  }

  -- INSERT … ON CONFLICT (id) DO UPDATE, where an update keeps `created_at`
  unfoldable pub upsert_row : TraceRow J F → List (TraceRow J F) → List (TraceRow J F)
  upsert_row new [] = new ∷ []
  upsert_row new (r ∷ rows) =
      if str_eq r.id new.id
      then record new { created_at = r.created_at } ∷ rows
      else r ∷ upsert_row new rows

  abbrev pub grader_row : String → GraderResult J F → GraderRow J F
  grader_row workspace_id result = record { workspace_id = workspace_id; result = result }

  unfoldable pub write_trace_facts : Trace J F → Database J F → Database J F
  write_trace_facts t db = record db {
    grader_results =
        without_facts t.id db.grader_results
        ++ fact_rows t.id 0 (map (grader_row t.workspace_id) t.grader_results);
    links = without_facts t.id db.links ++ fact_rows t.id 0 (map link_row t.links);
  }

  unfoldable pub upsert : Trace J F → Database J F → Database J F
  unfolding upsert_row write_trace_facts
  upsert t db = write_trace_facts t (record db {
    traces = upsert_row (trace_row_values t) db.traces;
    spans = insert_spans t.id t.workspace_id 0 t.spans (delete_spans t.id db.spans);
  })
