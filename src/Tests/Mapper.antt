-- ===== src/Tests/Mapper.antt =====
-- A trace in tables that have an older version of it, and another trace.
use selfevals.Prelude.{ℕ, ◌≡◌, refl, String, str_eq, false, none, some, [], ◌∷◌}
use selfevals.Trace.Whole.{Trace}
use selfevals.Trace.Valid.{make_trace}
use selfevals.Trace.Recorder.{enter, exit, assembled, current_parent}
use selfevals.Trace.Recorder.Programs.{Acts, run_acts}
use selfevals.Trace.Recorder.Spans.{spans_of_all}
use selfevals.Trace.Rows.{Tables}
use selfevals.Trace.Rows.Write.{insert_spans, delete_spans}
use selfevals.Trace.Rows.Read.{load_spans}
use selfevals.Trace.Mapper.{Database}
use selfevals.Trace.Mapper.Write.{trace_row_values, upsert}
use selfevals.Trace.Mapper.Read.{load}
use selfevals.Trace.Mapper.Loaded.{created_at_of, load-upsert}
use selfevals.Tests.Aggregation.{floats}
use selfevals.Tests.Trace.{fresh, acts, only, spans}

abbrev pub no_tables : Tables String ℕ
no_tables = record {
  spans = [];
  llm_calls = [];
  llm_tool_requests = [];
  tool_calls = [];
  retrieval_spans = [];
  retrieved_docs = [];
  memory_read_spans = [];
  memory_write_spans = [];
  decision_spans = [];
  handoff_spans = [];
  human_intervention_spans = [];
  guardrail_check_spans = [];
  stt_spans = [];
  tts_spans = [];
  error_spans = [];
  custom_spans = [];
}

-- the tables with an older version of the trace, and another trace with a span of the same id
abbrev pub tables : Tables String ℕ
tables =
    insert_spans "tr_2" "ws_1" 0 (spans_of_all floats none (Acts.next only Acts.done))
      (insert_spans "tr_1" "ws_1" 0 (spans_of_all floats none (Acts.next only Acts.done)) no_tables)

reloaded :
    load_spans "tr_1" (insert_spans "tr_1" "ws_1" 0 spans (delete_spans "tr_1" tables)) ≡ some spans
unfolding load_spans insert_spans delete_spans spans_of_all
reloaded = refl

abbrev built : Trace String ℕ
built = assembled "tr_1" "1.5.0" 20 (exit 19 none (run_acts floats acts (enter fresh)))

built-make_trace : make_trace built ≡ some built
unfolding make_trace assembled exit run_acts enter current_parent
built-make_trace = refl

-- the tables with an older version, made at 3, and another trace
abbrev database : Database String ℕ
database = record {
  traces =
      record (trace_row_values built) { created_at = 3; version = 1 }
      ∷ record (trace_row_values built) { id = "tr_2" }
      ∷ [];
  spans = tables;
  grader_results = [];
  links = [];
}

load-upsert_example :
    (load "ws_1" "tr_1" (upsert built database)
      ≡ some (some (record built { created_at = created_at_of "tr_1" 20 database.traces })))
    × ((ws id : String)
        → str_eq "tr_1" id ≡ false
        → load ws id (upsert built database) ≡ load ws id database)
unfolding assembled exit run_acts enter
load-upsert_example = load-upsert built database built-make_trace

kept_creation : created_at_of "tr_1" 20 database.traces ≡ 3
unfolding assembled
kept_creation = refl
