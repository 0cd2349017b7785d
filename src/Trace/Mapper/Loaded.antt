-- ===== src/Trace/Mapper/Loaded.antt =====
-- A trace that was written is the one that is loaded (`TraceMapper` of
-- storage/postgres/mappers/trace.py).
use selfevals.Prelude.{
  ℕ, String, str_eq, eq_iff, ◌≡◌, refl, ap, true, false, ◌&&◌, Option, none, some, List, [], ◌∷◌,
  map, arith, Bool-cases, inl, inr, if◌then◌else◌,
}
use selfevals.Trace.Whole.{SandboxMode, TraceState, LinkKind, TraceLink, GraderResult, Trace}
use selfevals.Trace.Valid.{ids_of, are_unique, ended_after_started, spans_valid, make_trace}
use selfevals.Trace.Rows.Lossless.{load-insert_spans}
use selfevals.Trace.Mapper.{
  TraceRow, GraderRow, Database, sandbox_value, parse_sandbox, state_value, parse_state, link_value,
  parse_link,
}
use selfevals.Trace.Mapper.Write.{
  trace_row_values, upsert_row, grader_row, link_row, write_trace_facts, upsert,
}
use selfevals.Trace.Mapper.Read.{find_trace, links_from, trace_from, build_trace, load}
use selfevals.Trace.Mapper.Facts.{facts_of-written, facts_of-other}

parse_sandbox-value : (m : SandboxMode) → parse_sandbox (sandbox_value m) ≡ some m
unfolding parse_sandbox
parse_sandbox-value SandboxMode.mock = refl
parse_sandbox-value SandboxMode.dry_run = refl
parse_sandbox-value SandboxMode.live_sandboxed = refl
parse_sandbox-value SandboxMode.live_canary = refl

parse_state-value : (s : TraceState) → parse_state (state_value s) ≡ some s
unfolding parse_state
parse_state-value TraceState.completed = refl
parse_state-value TraceState.errored = refl
parse_state-value TraceState.timeout = refl
parse_state-value TraceState.aborted = refl

parse_link-value : (k : LinkKind) → parse_link (link_value k) ≡ some k
unfolding parse_link
parse_link-value LinkKind.paraphrase_variant = refl
parse_link-value LinkKind.replay_of = refl
parse_link-value LinkKind.spawned_by = refl

links_from-map : (links : List TraceLink) → links_from (map link_row links) ≡ some links
unfolding links_from
links_from-map [] = refl
links_from-map (link ∷ links) = rw (parse_link-value link.kind) (rw (links_from-map links) refl)

module _ {J F : Type 0} where
  -- the row keeps the time at which an older version of it was made
  abbrev pub created_at_of : String → ℕ → List (TraceRow J F) → ℕ
  created_at_of id new [] = new
  created_at_of id new (r ∷ rows) =
      if str_eq r.id id then r.created_at else created_at_of id new rows

  find-upsert_row :
      (new : TraceRow J F) (rows : List (TraceRow J F))
      → find_trace new.workspace_id new.id (upsert_row new rows)
        ≡ some (record new { created_at = created_at_of new.id new.created_at rows })
  unfolding find_trace upsert_row
  find-upsert_row new [] =
      rw ((eq_iff new.id new.id).1 refl)
        (rw ((eq_iff new.workspace_id new.workspace_id).1 refl) refl)
  find-upsert_row new (r ∷ rows) = elim (Bool-cases (str_eq r.id new.id)) [
    | inl e ↦ rw e (
        rw ((eq_iff new.id new.id).1 refl)
          (rw ((eq_iff new.workspace_id new.workspace_id).1 refl) refl))
    | inr e ↦ rw e (rw e (find-upsert_row new rows))
  ]

  find-upsert_row_ne :
      (ws id : String) (new : TraceRow J F) (rows : List (TraceRow J F))
      → str_eq new.id id ≡ false
      → find_trace ws id (upsert_row new rows) ≡ find_trace ws id rows
  unfolding find_trace upsert_row
  find-upsert_row_ne ws id new [] ne = rw ne refl
  find-upsert_row_ne ws id new (r ∷ rows) ne = elim (Bool-cases (str_eq r.id new.id)) [
    | inl e ↦
        let same : str_eq r.id id ≡ false = rw ((eq_iff r.id new.id).0 e) ne in
        rw e (rw ne (rw same refl))
    | inr e ↦ rw e (elim (Bool-cases (str_eq r.id id && str_eq r.workspace_id ws)) [
      | inl h ↦ rw h refl
      | inr h ↦ rw h (find-upsert_row_ne ws id new rows ne)
    ])
  ]

  results-map :
      (ws : String) (results : List (GraderResult J F))
      → map (λ (g : GraderRow J F). g.result) (map (grader_row ws) results) ≡ results
  results-map ws [] = refl
  results-map ws (g ∷ results) = ap (λ zs. g ∷ zs) (results-map ws results)

  -- a row and its children give the trace that they were made of
  trace_from-values :
      (t : Trace J F) (created : ℕ)
      → ended_after_started t.environment ≡ true
      → spans_valid t.spans ≡ true
      → trace_from
          (record (trace_row_values t) { created_at = created })
          (some t.spans)
          (map (grader_row t.workspace_id) t.grader_results)
          (map link_row t.links)
        ≡ some (record t { created_at = created })
  unfolding trace_from make_trace
  trace_from-values t created clock valid = rw (links_from-map t.links) (
      rw (parse_sandbox-value t.environment.sandbox) (
        rw (parse_state-value t.final_state.status)
          (rw (results-map t.workspace_id t.grader_results) (rw (clock, valid) refl))))

  make_trace-tests :
      (t : Trace J F)
      → make_trace t ≡ some t
      → (ended_after_started t.environment ≡ true)
        × (spans_valid t.spans ≡ true)
        × (are_unique (ids_of t.spans) ≡ true)
  unfolding make_trace spans_valid
  make_trace-tests t h = (ground (arith, h), ground (arith, h), ground (arith, h))

  find-id :
      (ws id : String) (rows : List (TraceRow J F)) (r : TraceRow J F)
      → find_trace ws id rows ≡ some r
      → str_eq r.id id ≡ true
  unfolding find_trace
  find-id ws id [] r h = absurd (ground (arith, h))
  find-id ws id (x ∷ rows) r h = elim (Bool-cases (str_eq x.id id && str_eq x.workspace_id ws)) [
    | inl e ↦ let same : x ≡ r = ground (arith, h, e) in rw (← same) (ground (arith, e))
    | inr e ↦ find-id ws id rows r (rw e at h)
  ]

  build_trace-other :
      (t : Trace J F) (db : Database J F) (id : String) (found : Option (TraceRow J F))
      → are_unique (ids_of t.spans) ≡ true
      → ((r : TraceRow J F) → found ≡ some r → str_eq t.id r.id ≡ false)
      → build_trace (upsert t db) found ≡ build_trace db found
  unfolding build_trace upsert write_trace_facts
  build_trace-other t db id none u h = refl
  build_trace-other t db id (some r) u h =
      let ne = h r refl in
      rw ((load-insert_spans t.id t.workspace_id t.spans db.spans u).1 r.id ne) (
        rw
          (facts_of-other t.id r.id db.grader_results
            (map (grader_row t.workspace_id) t.grader_results) ne)
          (rw (facts_of-other t.id r.id db.links (map link_row t.links) ne) refl))

  -- A trace that passes its tests, written to the tables and loaded again, is the same in every
  -- field, its spans, grades and links in their order; only where the tables had an older version of
  -- it does it keep that version's time of creation. What is loaded of any other trace, and whether
  -- there is one, does not change.
  pub load-upsert :
      (t : Trace J F) (db : Database J F)
      → make_trace t ≡ some t
      → (load t.workspace_id t.id (upsert t db)
          ≡ some (some (record t { created_at = created_at_of t.id t.created_at db.traces })))
        × ((ws id : String) → str_eq t.id id ≡ false → load ws id (upsert t db) ≡ load ws id db)
  unfolding load upsert write_trace_facts build_trace
  load-upsert t db h =
      let tests = make_trace-tests t h in
      let created = created_at_of t.id t.created_at db.traces in
      (
        rw (find-upsert_row (trace_row_values t) db.traces) (
            rw ((load-insert_spans t.id t.workspace_id t.spans db.spans tests.2).0) (
              rw
                (facts_of-written t.id db.grader_results
                  (map (grader_row t.workspace_id) t.grader_results))
                (rw (facts_of-written t.id db.links (map link_row t.links))
                  (rw (trace_from-values t created tests.0 tests.1) refl)))),
        λ ws id ne. rw (find-upsert_row_ne ws id (trace_row_values t) db.traces ne) (
            build_trace-other t db id (find_trace ws id db.traces) tests.2
              (λ r found. rw ((eq_iff r.id id).0 (find-id ws id db.traces r found)) ne)),
      )
