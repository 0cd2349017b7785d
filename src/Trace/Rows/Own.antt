-- ===== src/Trace/Rows/Own.antt =====
-- A span that was just written is read back from its rows (trace_spans_write.py,
-- trace_spans_read.py).
use selfevals.Prelude.{
  String, str_eq, eq_iff, ◌≡◌, refl, ◌∙◌, ap, true, ◌&&◌, some, List, [], ◌∷◌, ◌++◌, map,
}
use selfevals.Trace.{Detail, LlmCall, Retrieval}
use selfevals.Trace.Rows.{Keyed, ToolRequestRow, DocRow, Tables, SpanRows, where_span}
use selfevals.Trace.Rows.Write.{
  row, kind_value, llm_row, tool_row, retrieval_row, request_rows, doc_rows, insert_detail,
}
use selfevals.Trace.Rows.Read.{
  select_span, by_request, by_position, request_of, doc_of, build_llm_span, build_tool_span,
  build_retrieval_span, build_span,
}
use selfevals.Trace.Rows.Keys.{where_span-own, sort_with-in_order}
use selfevals.Trace.Rows.Inserted.{
  request_rows-keys, doc_rows-keys, parse_stop-value, parse_status-value, request_rows-in_order,
  requests_of-rows, doc_rows-in_order, docs_of-rows,
}

abbrev pub no_rows : {J F : Type 0} → SpanRows J F
no_rows = record {
  llm_calls = [];
  llm_tool_requests = [];
  tool_calls = [];
  retrieval_spans = [];
  retrieved_docs = [];
  memory_read_spans = [];
  memory_write_spans = [];
  decision_spans = [];
  handoff_spans = [];
  human_intervention_spans = [];
  guardrail_check_spans = [];
  stt_spans = [];
  tts_spans = [];
  error_spans = [];
  custom_spans = [];
}

own_key : (t s : String) → (str_eq t t && str_eq s s) ≡ true
own_key t s = rw ((eq_iff t t).1 refl) ((eq_iff s s).1 refl)

module _ {J F : Type 0} (trace_id workspace_id id : String) (db : Tables J F)
    (absent : select_span trace_id id db ≡ no_rows) where
  -- one row that was appended is the one found
  appended :
      {R : Type 0} (table : List (Keyed R)) (c : R)
      → where_span trace_id id table ≡ []
      → where_span trace_id id (table ++ row trace_id id c ∷ []) ≡ c ∷ []
  appended table c e =
      where_span-own trace_id id table (row trace_id id c ∷ []) e (own_key trace_id id, tt)

  requests_read :
      (c : LlmCall J F)
      → map request_of (
          by_request (
            where_span trace_id id
              (db.llm_tool_requests ++ request_rows trace_id id 0 c.output.tool_use_requested)))
        ≡ c.output.tool_use_requested
  requests_read c =
      let reqs = c.output.tool_use_requested in
      ap (λ rows. map request_of (by_request rows))
        (where_span-own trace_id id db.llm_tool_requests (request_rows trace_id id 0 reqs)
          (ap (λ (v : SpanRows J F). v.llm_tool_requests) absent)
          (request_rows-keys trace_id id trace_id id true (own_key trace_id id) 0 reqs))
      ∙ ap (map request_of) (
          sort_with-in_order (λ (r : ToolRequestRow). r.position) 0
            (map (λ (r : Keyed ToolRequestRow). r.columns) (request_rows trace_id id 0 reqs))
            (request_rows-in_order trace_id id 0 reqs))
      ∙ requests_of-rows trace_id id 0 reqs

  docs_read :
      (c : Retrieval F)
      → map doc_of (
          by_position
            (where_span trace_id id (db.retrieved_docs ++ doc_rows trace_id id 0 c.retrieved)))
        ≡ c.retrieved
  docs_read c =
      ap (λ rows. map doc_of (by_position rows))
        (where_span-own trace_id id db.retrieved_docs (doc_rows trace_id id 0 c.retrieved)
          (ap (λ (v : SpanRows J F). v.retrieved_docs) absent)
          (doc_rows-keys trace_id id trace_id id true (own_key trace_id id) 0 c.retrieved))
      ∙ ap (map doc_of) (
          sort_with-in_order (λ (r : DocRow F). r.position) 0
            (map (λ (r : Keyed (DocRow F)). r.columns) (doc_rows trace_id id 0 c.retrieved))
            (doc_rows-in_order trace_id id 0 c.retrieved))
      ∙ docs_of-rows trace_id id 0 c.retrieved

  pub build-insert_detail :
      (d : Detail J F)
      → build_span
          (kind_value d)
          (select_span trace_id id (insert_detail trace_id workspace_id id d db))
        ≡ some d
  unfolding build_span insert_detail build_llm_span build_tool_span build_retrieval_span
  build-insert_detail Detail.agent_turn = refl
  build-insert_detail (Detail.llm_call c) =
      rw
        (appended db.llm_calls (llm_row workspace_id c)
          (ap (λ (v : SpanRows J F). v.llm_calls) absent))
        (rw (parse_stop-value c.output.stop_reason) (rw (requests_read c) refl))
  build-insert_detail (Detail.tool_call c) =
      rw
        (appended db.tool_calls (tool_row workspace_id c)
          (ap (λ (v : SpanRows J F). v.tool_calls) absent))
        (rw (parse_status-value c.status) refl)
  build-insert_detail (Detail.retrieval c) =
      rw
        (appended db.retrieval_spans (retrieval_row c)
          (ap (λ (v : SpanRows J F). v.retrieval_spans) absent))
        (rw (docs_read c) refl)
  build-insert_detail (Detail.memory_read c) =
      rw (appended db.memory_read_spans c (ap (λ (v : SpanRows J F). v.memory_read_spans) absent))
        refl
  build-insert_detail (Detail.memory_write c) =
      rw (appended db.memory_write_spans c (ap (λ (v : SpanRows J F). v.memory_write_spans) absent))
        refl
  build-insert_detail (Detail.decision c) =
      rw (appended db.decision_spans c (ap (λ (v : SpanRows J F). v.decision_spans) absent)) refl
  build-insert_detail (Detail.handoff c) =
      rw (appended db.handoff_spans c (ap (λ (v : SpanRows J F). v.handoff_spans) absent)) refl
  build-insert_detail (Detail.human_intervention c) =
      rw
        (appended db.human_intervention_spans c
          (ap (λ (v : SpanRows J F). v.human_intervention_spans) absent))
        refl
  build-insert_detail (Detail.guardrail_check c) =
      rw
        (appended db.guardrail_check_spans c
          (ap (λ (v : SpanRows J F). v.guardrail_check_spans) absent))
        refl
  build-insert_detail (Detail.stt c) =
      rw (appended db.stt_spans c (ap (λ (v : SpanRows J F). v.stt_spans) absent)) refl
  build-insert_detail (Detail.tts c) =
      rw (appended db.tts_spans c (ap (λ (v : SpanRows J F). v.tts_spans) absent)) refl
  build-insert_detail (Detail.error_span c) =
      rw (appended db.error_spans c (ap (λ (v : SpanRows J F). v.error_spans) absent)) refl
  build-insert_detail (Detail.custom c) =
      rw (appended db.custom_spans c (ap (λ (v : SpanRows J F). v.custom_spans) absent)) refl
