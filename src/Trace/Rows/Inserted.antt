-- ===== src/Trace/Rows/Inserted.antt =====
-- What a SELECT by the key of a span finds after one span was written (trace_spans_write.py,
-- trace_spans_read.py).
use selfevals.Prelude.{
  ℕ, suc, String, str_eq, ◌≡◌, refl, ◌∙◌, ap, Bool, false, ◌&&◌, Option, none, some, List, [], ◌∷◌,
  ◌++◌, map, All,
}
use selfevals.Trace.{Detail, StopReason, ToolCallStatus, ToolUseRequest, RetrievedDoc}
use selfevals.Trace.Rows.{Keyed, ToolRequestRow, DocRow, Tables, of_span, where_span}
use selfevals.Trace.Rows.Write.{
  row, stop_text, status_value, llm_row, tool_row, retrieval_row, request_rows, doc_rows,
  insert_detail,
}
use selfevals.Trace.Rows.Read.{select_span, parse_stop_text, parse_status, request_of, doc_of}
use selfevals.Trace.Rows.Keys.{where_span-other, InOrderBy}

module _ (t s trace_id id : String) (b : Bool) (key : (str_eq trace_id t && str_eq id s) ≡ b) where
  pub request_rows-keys :
      (pos : ℕ) (reqs : List ToolUseRequest)
      → All (λ r. of_span t s r ≡ b) (request_rows trace_id id pos reqs)
  request_rows-keys pos [] = tt
  request_rows-keys pos (req ∷ reqs) = (key, request_rows-keys (suc pos) reqs)

  pub doc_rows-keys :
      {F : Type 0} (pos : ℕ) (docs : List (RetrievedDoc F))
      → All (λ r. of_span t s r ≡ b) (doc_rows trace_id id pos docs)
  doc_rows-keys pos [] = tt
  doc_rows-keys pos (doc ∷ docs) = (key, doc_rows-keys (suc pos) docs)

module _ {J F : Type 0} (trace_id workspace_id : String) where
  module _ (t s id : String) (db : Tables J F)
      (ne : (str_eq trace_id t && str_eq id s) ≡ false) where
    -- the rows of another span stay as they are
    pub insert_detail-other :
        (d : Detail J F)
        → select_span t s (insert_detail trace_id workspace_id id d db) ≡ select_span t s db
    unfolding insert_detail
    insert_detail-other Detail.agent_turn = refl
    insert_detail-other (Detail.llm_call c) =
        ap
          (λ rows. record (select_span t s db) {
            llm_calls = rows;
            llm_tool_requests =
                where_span t s
                  (db.llm_tool_requests ++ request_rows trace_id id 0 c.output.tool_use_requested);
          })
          (where_span-other t s db.llm_calls (row trace_id id (llm_row workspace_id c) ∷ [])
            (ne, tt))
        ∙ ap (λ rows. record (select_span t s db) { llm_tool_requests = rows })
            (where_span-other t s db.llm_tool_requests
              (request_rows trace_id id 0 c.output.tool_use_requested)
              (request_rows-keys t s trace_id id false ne 0 c.output.tool_use_requested))
    insert_detail-other (Detail.tool_call c) =
        ap (λ rows. record (select_span t s db) { tool_calls = rows })
          (where_span-other t s db.tool_calls (row trace_id id (tool_row workspace_id c) ∷ [])
            (ne, tt))
    insert_detail-other (Detail.retrieval c) =
        ap
          (λ rows. record (select_span t s db) {
            retrieval_spans = rows;
            retrieved_docs =
                where_span t s (db.retrieved_docs ++ doc_rows trace_id id 0 c.retrieved);
          })
          (where_span-other t s db.retrieval_spans (row trace_id id (retrieval_row c) ∷ [])
            (ne, tt))
        ∙ ap (λ rows. record (select_span t s db) { retrieved_docs = rows })
            (where_span-other t s db.retrieved_docs (doc_rows trace_id id 0 c.retrieved)
              (doc_rows-keys t s trace_id id false ne 0 c.retrieved))
    insert_detail-other (Detail.memory_read c) =
        ap (λ rows. record (select_span t s db) { memory_read_spans = rows })
          (where_span-other t s db.memory_read_spans (row trace_id id c ∷ []) (ne, tt))
    insert_detail-other (Detail.memory_write c) =
        ap (λ rows. record (select_span t s db) { memory_write_spans = rows })
          (where_span-other t s db.memory_write_spans (row trace_id id c ∷ []) (ne, tt))
    insert_detail-other (Detail.decision c) =
        ap (λ rows. record (select_span t s db) { decision_spans = rows })
          (where_span-other t s db.decision_spans (row trace_id id c ∷ []) (ne, tt))
    insert_detail-other (Detail.handoff c) =
        ap (λ rows. record (select_span t s db) { handoff_spans = rows })
          (where_span-other t s db.handoff_spans (row trace_id id c ∷ []) (ne, tt))
    insert_detail-other (Detail.human_intervention c) =
        ap (λ rows. record (select_span t s db) { human_intervention_spans = rows })
          (where_span-other t s db.human_intervention_spans (row trace_id id c ∷ []) (ne, tt))
    insert_detail-other (Detail.guardrail_check c) =
        ap (λ rows. record (select_span t s db) { guardrail_check_spans = rows })
          (where_span-other t s db.guardrail_check_spans (row trace_id id c ∷ []) (ne, tt))
    insert_detail-other (Detail.stt c) =
        ap (λ rows. record (select_span t s db) { stt_spans = rows })
          (where_span-other t s db.stt_spans (row trace_id id c ∷ []) (ne, tt))
    insert_detail-other (Detail.tts c) =
        ap (λ rows. record (select_span t s db) { tts_spans = rows })
          (where_span-other t s db.tts_spans (row trace_id id c ∷ []) (ne, tt))
    insert_detail-other (Detail.error_span c) =
        ap (λ rows. record (select_span t s db) { error_spans = rows })
          (where_span-other t s db.error_spans (row trace_id id c ∷ []) (ne, tt))
    insert_detail-other (Detail.custom c) =
        ap (λ rows. record (select_span t s db) { custom_spans = rows })
          (where_span-other t s db.custom_spans (row trace_id id c ∷ []) (ne, tt))

pub parse_stop-value : (r : Option StopReason) → parse_stop_text (stop_text r) ≡ some r
unfolding parse_stop_text
parse_stop-value none = refl
parse_stop-value (some StopReason.end_turn) = refl
parse_stop-value (some StopReason.tool_use) = refl
parse_stop-value (some StopReason.max_tokens) = refl
parse_stop-value (some StopReason.stop_sequence) = refl
parse_stop-value (some StopReason.pause_turn) = refl
parse_stop-value (some StopReason.refusal) = refl
parse_stop-value (some StopReason.stop_error) = refl

pub parse_status-value :
    (status : ToolCallStatus) → parse_status (status_value status) ≡ some status
unfolding parse_status
parse_status-value ToolCallStatus.ok = refl
parse_status-value ToolCallStatus.error = refl
parse_status-value ToolCallStatus.timed_out = refl

module _ (trace_id id : String) where
  pub request_rows-in_order :
      (pos : ℕ) (reqs : List ToolUseRequest)
      → InOrderBy
          (λ (r : ToolRequestRow). r.position)
          pos
          (map (λ (r : Keyed ToolRequestRow). r.columns) (request_rows trace_id id pos reqs))
  request_rows-in_order pos [] = tt
  request_rows-in_order pos (req ∷ reqs) = (refl, request_rows-in_order (suc pos) reqs)

  pub requests_of-rows :
      (pos : ℕ) (reqs : List ToolUseRequest)
      → map request_of
          (map (λ (r : Keyed ToolRequestRow). r.columns) (request_rows trace_id id pos reqs))
        ≡ reqs
  requests_of-rows pos [] = refl
  requests_of-rows pos (req ∷ reqs) = ap (λ rs. req ∷ rs) (requests_of-rows (suc pos) reqs)

  module _ {F : Type 0} where
    pub doc_rows-in_order :
        (pos : ℕ) (docs : List (RetrievedDoc F))
        → InOrderBy
            (λ (r : DocRow F). r.position)
            pos
            (map (λ (r : Keyed (DocRow F)). r.columns) (doc_rows trace_id id pos docs))
    doc_rows-in_order pos [] = tt
    doc_rows-in_order pos (doc ∷ docs) = (refl, doc_rows-in_order (suc pos) docs)

    pub docs_of-rows :
        (pos : ℕ) (docs : List (RetrievedDoc F))
        → map doc_of (map (λ (r : Keyed (DocRow F)). r.columns) (doc_rows trace_id id pos docs))
          ≡ docs
    docs_of-rows pos [] = refl
    docs_of-rows pos (doc ∷ docs) = ap (λ ds. doc ∷ ds) (docs_of-rows (suc pos) docs)
