-- ===== src/Trace/Rows/Spans.antt =====
-- The rows of a trace's spans, one span after the other (`TraceMapper.upsert` and `load` of
-- storage/postgres/mappers/trace.py, for the spans).
use selfevals.Prelude.{
  ℕ, suc, String, str_eq, eq_iff, ◌≡◌, refl, ◌∙◌, sym, ap, true, false, ◌&&◌, some, List, [], ◌∷◌,
  ◌++◌, All, arith, Bool-cases, inl, inr,
}
use mathlib.Core.List.{append-nil, append_assoc}
use selfevals.Trace.{Detail, Span}
use selfevals.Trace.Valid.{contains, ids_of, are_unique}
use selfevals.Trace.Rows.{Keyed, SpanRow, Tables}
use selfevals.Trace.Rows.Write.{
  row, span_row, kind_value, insert_detail, insert_span, insert_spans, delete_spans,
}
use selfevals.Trace.Rows.Read.{select_span, build_span, load_span, load_all}
use selfevals.Trace.Rows.Keys.{where_span-without_self, where_span-without_other}
use selfevals.Trace.Rows.Inserted.{insert_detail-other}
use selfevals.Trace.Rows.Own.{no_rows, build-insert_detail}

module _ {J F : Type 0} (t : String) (db : Tables J F) where
  pub delete-own : (s : String) → select_span t s (delete_spans t db) ≡ no_rows
  unfolding delete_spans
  delete-own s = λ i. record {
    llm_calls = where_span-without_self t s db.llm_calls i;
    llm_tool_requests = where_span-without_self t s db.llm_tool_requests i;
    tool_calls = where_span-without_self t s db.tool_calls i;
    retrieval_spans = where_span-without_self t s db.retrieval_spans i;
    retrieved_docs = where_span-without_self t s db.retrieved_docs i;
    memory_read_spans = where_span-without_self t s db.memory_read_spans i;
    memory_write_spans = where_span-without_self t s db.memory_write_spans i;
    decision_spans = where_span-without_self t s db.decision_spans i;
    handoff_spans = where_span-without_self t s db.handoff_spans i;
    human_intervention_spans = where_span-without_self t s db.human_intervention_spans i;
    guardrail_check_spans = where_span-without_self t s db.guardrail_check_spans i;
    stt_spans = where_span-without_self t s db.stt_spans i;
    tts_spans = where_span-without_self t s db.tts_spans i;
    error_spans = where_span-without_self t s db.error_spans i;
    custom_spans = where_span-without_self t s db.custom_spans i;
  }

  pub delete-other :
      (other s : String)
      → str_eq t other ≡ false
      → select_span other s (delete_spans t db) ≡ select_span other s db
  unfolding delete_spans
  delete-other other s ne = λ i. record {
    llm_calls = where_span-without_other t other s db.llm_calls ne i;
    llm_tool_requests = where_span-without_other t other s db.llm_tool_requests ne i;
    tool_calls = where_span-without_other t other s db.tool_calls ne i;
    retrieval_spans = where_span-without_other t other s db.retrieval_spans ne i;
    retrieved_docs = where_span-without_other t other s db.retrieved_docs ne i;
    memory_read_spans = where_span-without_other t other s db.memory_read_spans ne i;
    memory_write_spans = where_span-without_other t other s db.memory_write_spans ne i;
    decision_spans = where_span-without_other t other s db.decision_spans ne i;
    handoff_spans = where_span-without_other t other s db.handoff_spans ne i;
    human_intervention_spans = where_span-without_other t other s db.human_intervention_spans ne i;
    guardrail_check_spans = where_span-without_other t other s db.guardrail_check_spans ne i;
    stt_spans = where_span-without_other t other s db.stt_spans ne i;
    tts_spans = where_span-without_other t other s db.tts_spans ne i;
    error_spans = where_span-without_other t other s db.error_spans ne i;
    custom_spans = where_span-without_other t other s db.custom_spans ne i;
  }

module _ {J F : Type 0} (t ws : String) where
  insert_detail-spans :
      (id : String) (d : Detail J F) (db : Tables J F)
      → (insert_detail t ws id d db).spans ≡ db.spans
  unfolding insert_detail
  insert_detail-spans id Detail.agent_turn db = refl
  insert_detail-spans id (Detail.llm_call c) db = refl
  insert_detail-spans id (Detail.tool_call c) db = refl
  insert_detail-spans id _ db = refl

  abbrev pub base_rows : ℕ → List (Span J F) → List (Keyed SpanRow)
  base_rows index [] = []
  base_rows index (s ∷ spans) = row t s.base.id (span_row ws index s) ∷ base_rows (suc index) spans

  pub insert_spans-spans :
      (index : ℕ) (spans : List (Span J F)) (db : Tables J F)
      → (insert_spans t ws index spans db).spans ≡ db.spans ++ base_rows index spans
  unfolding insert_spans insert_span
  insert_spans-spans index [] db = sym (append-nil db.spans)
  insert_spans-spans index (s ∷ spans) db =
      insert_spans-spans (suc index) spans (insert_span t ws index s db)
      ∙ ap (λ rows. rows ++ base_rows (suc index) spans)
          (insert_detail-spans s.base.id s.detail
            (record db { spans = db.spans ++ row t s.base.id (span_row ws index s) ∷ [] }))
      ∙ append_assoc db.spans (row t s.base.id (span_row ws index s) ∷ [])
          (base_rows (suc index) spans)

  -- the rows of a key that is none of the written spans' stay as they are
  pub insert_spans-other :
      (key_trace key : String) (index : ℕ) (spans : List (Span J F)) (db : Tables J F)
      → All (λ (s : Span J F). (str_eq t key_trace && str_eq s.base.id key) ≡ false) spans
      → select_span key_trace key (insert_spans t ws index spans db) ≡ select_span key_trace key db
  unfolding insert_spans insert_span
  insert_spans-other key_trace key index [] db h = refl
  insert_spans-other key_trace key index (s ∷ spans) db (ne, h) =
      insert_spans-other key_trace key (suc index) spans (insert_span t ws index s db) h
      ∙ insert_detail-other t ws key_trace key s.base.id
          (record db { spans = db.spans ++ row t s.base.id (span_row ws index s) ∷ [] }) ne s.detail

  absent_key :
      (key : String) (spans : List (Span J F))
      → contains key (ids_of spans) ≡ false
      → All (λ (s : Span J F). (str_eq t t && str_eq s.base.id key) ≡ false) spans
  absent_key key [] h = tt
  absent_key key (s ∷ spans) h = (
    ground (arith, eq_iff s.base.id key, eq_iff key s.base.id, h),
    absent_key key spans (ground (arith, h)),
  )

  abbrev pub Absent : Tables J F → List (Span J F) → Type 0
  Absent db spans =
      (key : String) → contains key (ids_of spans) ≡ true → select_span t key db ≡ no_rows

  Absent-rest :
      (index : ℕ) (s : Span J F) (spans : List (Span J F)) (db : Tables J F)
      → contains s.base.id (ids_of spans) ≡ false
      → Absent db (s ∷ spans)
      → Absent (insert_span t ws index s db) spans
  unfolding insert_span
  Absent-rest index s spans db fresh h key here = elim (Bool-cases (str_eq s.base.id key)) [
    | inl e ↦
        let same : contains key (ids_of spans) ≡ false = rw (← (eq_iff s.base.id key).0 e) fresh in
        absurd (ground (arith, same, here))
    | inr e ↦
        insert_detail-other t ws t key s.base.id
          (record db { spans = db.spans ++ row t s.base.id (span_row ws index s) ∷ [] })
          (ground (arith, e)) s.detail
        ∙ h key (ground (arith, here))
  ]

  -- every written span is read back from the tables at the end
  pub insert_spans-own :
      (index : ℕ) (spans : List (Span J F)) (db : Tables J F)
      → are_unique (ids_of spans) ≡ true
      → Absent db spans
      → All
          (λ (s : Span J F).
            build_span
              (kind_value s.detail)
              (select_span t s.base.id (insert_spans t ws index spans db))
            ≡ some s.detail)
          spans
  unfolding insert_spans insert_span are_unique
  insert_spans-own index [] db u h = tt
  insert_spans-own index (s ∷ spans) db u h =
      let fresh : contains s.base.id (ids_of spans) ≡ false = ground (arith, u) in
      let written = record db { spans = db.spans ++ row t s.base.id (span_row ws index s) ∷ [] } in
      (
        ap (build_span (kind_value s.detail)) (
              insert_spans-other t s.base.id (suc index) spans (insert_span t ws index s db)
                (absent_key s.base.id spans fresh))
            ∙ build-insert_detail t ws s.base.id written
                (h s.base.id (ground (arith, (eq_iff s.base.id s.base.id).1 refl))) s.detail,
        insert_spans-own (suc index) spans (insert_span t ws index s db) (ground (arith, u))
            (Absent-rest index s spans db fresh h),
      )

  pub load_all-base_rows :
      (index : ℕ) (spans : List (Span J F)) (db : Tables J F)
      → All
          (λ (s : Span J F).
            build_span (kind_value s.detail) (select_span t s.base.id db) ≡ some s.detail)
          spans
      → load_all t db (base_rows index spans) ≡ some spans
  unfolding load_all load_span
  load_all-base_rows index [] db h = refl
  load_all-base_rows index (s ∷ spans) db (e, h) =
      rw e (rw (load_all-base_rows (suc index) spans db h) refl)
