-- ===== src/Trace/Rows/Lossless.antt =====
-- The spans of a trace, written and read back (`TraceMapper.upsert` and `load` of
-- storage/postgres/mappers/trace.py, for the spans).
use selfevals.Prelude.{
  ℕ, suc, String, str_eq, eq_iff, ◌≡◌, refl, ◌∙◌, ap, Bool, true, false, some, List, [], ◌∷◌, ◌++◌,
  ◌&&◌, All,
}
use mathlib.Core.List.{append-nil}
use selfevals.Trace.{Span}
use selfevals.Trace.Valid.{ids_of, are_unique}
use selfevals.Trace.Rows.{Keyed, SpanRow, Tables, where_trace}
use selfevals.Trace.Rows.Write.{insert_spans, delete_spans}
use selfevals.Trace.Rows.Read.{select_span, span_from, load_span, load_all, load_spans, by_index}
use selfevals.Trace.Rows.Keys.{
  where_trace-without_self, where_trace-without_other, select-append, select-none, select-all,
  InOrderBy, sort_with-in_order,
}
use selfevals.Trace.Rows.Spans.{
  base_rows, delete-own, delete-other, insert_spans-spans, insert_spans-other, insert_spans-own,
  load_all-base_rows,
}

module _ {J F : Type 0} (t ws : String) where
  base_rows-of_trace :
      (other : String) (b : Bool) (index : ℕ) (spans : List (Span J F))
      → str_eq t other ≡ b
      → All (λ (r : Keyed SpanRow). str_eq r.trace_id other ≡ b) (base_rows t ws index spans)
  base_rows-of_trace other b index [] e = tt
  base_rows-of_trace other b index (s ∷ spans) e =
      (e, base_rows-of_trace other b (suc index) spans e)

  base_rows-in_order :
      (index : ℕ) (spans : List (Span J F))
      → InOrderBy (λ (r : Keyed SpanRow). r.columns.span_index) index (base_rows t ws index spans)
  base_rows-in_order index [] = tt
  base_rows-in_order index (s ∷ spans) = (refl, base_rows-in_order (suc index) spans)

  written : Tables J F → List (Span J F) → Tables J F
  written db spans = insert_spans t ws 0 spans (delete_spans t db)

  rows_of_trace :
      (spans : List (Span J F)) (db : Tables J F)
      → where_trace t (written db spans).spans ≡ base_rows t ws 0 spans
  unfolding written delete_spans
  rows_of_trace spans db =
      ap (where_trace t) (insert_spans-spans t ws 0 spans (delete_spans t db))
      ∙ select-append (λ (r : Keyed SpanRow). str_eq r.trace_id t) (delete_spans t db).spans
          (base_rows t ws 0 spans)
      ∙ rw (where_trace-without_self t db.spans) (
          select-all (λ (r : Keyed SpanRow). str_eq r.trace_id t) (base_rows t ws 0 spans)
            (base_rows-of_trace t true 0 spans ((eq_iff t t).1 refl)))

  rows_of_other :
      (other : String) (spans : List (Span J F)) (db : Tables J F)
      → str_eq t other ≡ false
      → where_trace other (written db spans).spans ≡ where_trace other db.spans
  unfolding written delete_spans
  rows_of_other other spans db ne =
      ap (where_trace other) (insert_spans-spans t ws 0 spans (delete_spans t db))
      ∙ select-append (λ (r : Keyed SpanRow). str_eq r.trace_id other) (delete_spans t db).spans
          (base_rows t ws 0 spans)
      ∙ rw (where_trace-without_other t other db.spans ne) (
          ap (λ rows. where_trace other db.spans ++ rows)
            (select-none (λ (r : Keyed SpanRow). str_eq r.trace_id other) (base_rows t ws 0 spans)
              (base_rows-of_trace other false 0 spans ne))
          ∙ append-nil (where_trace other db.spans))

  other_keys :
      (other key : String) (spans : List (Span J F))
      → str_eq t other ≡ false
      → All (λ (s : Span J F). (str_eq t other && str_eq s.base.id key) ≡ false) spans
  other_keys other key [] ne = tt
  other_keys other key (s ∷ spans) ne = (rw ne refl, other_keys other key spans ne)

  load_all-same :
      (other : String) (db db' : Tables J F) (rows : List (Keyed SpanRow))
      → ((key : String) → select_span other key db' ≡ select_span other key db)
      → load_all other db' rows ≡ load_all other db rows
  unfolding load_all load_span
  load_all-same other db db' [] h = refl
  load_all-same other db db' (r ∷ rows) h =
      rw (← ap (span_from r) (h r.span_id)) (rw (load_all-same other db db' rows h) refl)

  -- The spans of a trace whose ids are distinct, written after the trace's old rows were deleted, are
  -- read back as they were, in their order and with every field of every kind, the requests and the
  -- documents of a span in their order too; and whatever another trace in the tables had is read as
  -- before.
  pub load-insert_spans :
      (spans : List (Span J F)) (db : Tables J F)
      → are_unique (ids_of spans) ≡ true
      → (load_spans t (insert_spans t ws 0 spans (delete_spans t db)) ≡ some spans)
        × ((other : String)
            → str_eq t other ≡ false
            → load_spans other (insert_spans t ws 0 spans (delete_spans t db))
              ≡ load_spans other db)
  unfolding load_spans written
  load-insert_spans spans db u = (
    ap (λ rows. load_all t (written db spans) (by_index rows)) (rows_of_trace spans db)
        ∙ ap (load_all t (written db spans)) (
            sort_with-in_order (λ (r : Keyed SpanRow). r.columns.span_index) 0
              (base_rows t ws 0 spans) (base_rows-in_order 0 spans))
        ∙ load_all-base_rows t ws 0 spans (written db spans)
            (insert_spans-own t ws 0 spans (delete_spans t db) u (λ key here. delete-own t db key)),
    λ other ne.
        ap (λ rows. load_all other (written db spans) (by_index rows))
          (rows_of_other other spans db ne)
        ∙ load_all-same other db (written db spans) (by_index (where_trace other db.spans)) (λ key.
          insert_spans-other t ws other key 0 spans (delete_spans t db)
            (other_keys other key spans ne)
          ∙ delete-other t db other key ne),
  )
