-- ===== src/Trace/Recorder/Builds.antt =====
-- What `build` makes of a recorder (trace/recorder.py), by the tests of schemas/trace.py.
use selfevals.Prelude.{
  ℕ, ◌≤◌, String, eq_iff, ◌≡◌, refl, ◌∙◌, sym, ap, Bool, true, false, ◌&&◌, Option, none, some,
  List, [], ◌∷◌, ◌++◌, all, leb, arith,
}
use selfevals.Graders.{Floats}
use selfevals.Trace.{Span}
use selfevals.Trace.Whole.{Trace, FinalState, TraceState}
use selfevals.Trace.Valid.{
  contains, ids_of, are_unique, parent_exists, parents_exist, tool_use_ids_linked, spans_valid,
  ended_after_started, make_trace,
}
use selfevals.Trace.Recorder.{
  TraceRecorder, or_state, outcome_of, current_parent, enter, exit, assembled, build,
}
use selfevals.Trace.Recorder.Blocks.{span_of, open_block}
use selfevals.Trace.Recorder.Programs.{Act, Acts, base_of, run_acts}
use selfevals.Trace.Recorder.Spans.{block_detail, spans_of, spans_of_all, run_acts-Appended}

both : {a b : Bool} → a ≡ true → b ≡ true → (a && b) ≡ true
both h k = rw h k

each : (a b : Bool) → (a && b) ≡ true → (a ≡ true) × (b ≡ true)
each true b h = (refl, h)
each false b h = cc

module _ {ℓ} {A : Type ℓ} where
  all-append :
      (test : A → Bool) (xs ys : List A) → all test (xs ++ ys) ≡ (all test xs && all test ys)
  all-append test [] ys = refl
  all-append test (x ∷ xs) ys =
      rw (all-append test xs ys) (assoc (test x) (all test xs) (all test ys))
    where
      assoc : (a b c : Bool) → (a && (b && c)) ≡ ((a && b) && c)
      assoc true b c = refl
      assoc false b c = refl

module _ {J F : Type 0} where
  abbrev all_within : List String → List (Span J F) → Bool
  all_within ids spans = all (λ (s : Span J F). contains s.base.id ids) spans

  all_within-cons :
      (key : String) (ids : List String) (spans : List (Span J F))
      → all_within ids spans ≡ true
      → all_within (key ∷ ids) spans ≡ true
  all_within-cons key ids [] h = refl
  all_within-cons key ids (s ∷ spans) h = ground (arith, all_within-cons key ids spans)

  all_within_self : (spans : List (Span J F)) → all_within (ids_of spans) spans ≡ true
  all_within_self [] = refl
  all_within_self (s ∷ spans) = ground (
    arith,
    (eq_iff s.base.id s.base.id).1 refl,
    all_within-cons s.base.id (ids_of spans) spans (all_within_self spans),
  )

  module _ (fl : Floats F) (ids : List String) where
    mutual
      unfolding spans_of parents_exist parent_exists

      spans_of-parents :
          (parent : Option String) (act : Act J F)
          → parent_exists ids parent ≡ true
          → all_within ids (spans_of fl parent act) ≡ true
          → parents_exist ids (spans_of fl parent act) ≡ true
      spans_of-parents parent (Act.block m kind body) p h =
          let s : Span J F = span_of (base_of m parent) (block_detail fl m.duration_ms kind) in
          let within =
            each (all_within ids (spans_of_all fl (some m.id) body)) (all_within ids (s ∷ [])) (
              sym (
                all-append (λ (s : Span J F). contains s.base.id ids)
                  (spans_of_all fl (some m.id) body) (s ∷ []))
              ∙ h) in
          all-append (λ (s : Span J F). parent_exists ids s.base.parent_id)
            (spans_of_all fl (some m.id) body) (s ∷ [])
          ∙ both
              (spans_of_all-parents (some m.id) body (each (contains m.id ids) true within.1).0
                within.0)
              (both p refl)
      spans_of-parents parent (Act.single id name now note) p h = both p refl

      spans_of_all-parents :
          (parent : Option String) (acts : Acts J F)
          → parent_exists ids parent ≡ true
          → all_within ids (spans_of_all fl parent acts) ≡ true
          → parents_exist ids (spans_of_all fl parent acts) ≡ true
      spans_of_all-parents parent Acts.done p h = refl
      spans_of_all-parents parent (Acts.next act acts) p h =
          let within =
            each (all_within ids (spans_of fl parent act))
              (all_within ids (spans_of_all fl parent acts))
              (sym (
                  all-append (λ (s : Span J F). contains s.base.id ids) (spans_of fl parent act)
                    (spans_of_all fl parent acts))
                ∙ h) in
          all-append (λ (s : Span J F). parent_exists ids s.base.parent_id) (spans_of fl parent act)
            (spans_of_all fl parent acts)
          ∙ both (spans_of-parents parent act p within.0)
              (spans_of_all-parents parent acts p within.1)

    -- the spans are the only ones, under no parent
    valid_spans :
        (acts : Acts J F)
        → ids ≡ ids_of (spans_of_all fl none acts)
        → are_unique ids ≡ true
        → tool_use_ids_linked (spans_of_all fl none acts) ≡ true
        → spans_valid (spans_of_all fl none acts) ≡ true
    unfolding spans_valid parent_exists
    valid_spans acts e u t = rw (← e) (
        both
          (both u (
            spans_of_all-parents none acts refl
              (rw e (all_within_self (spans_of_all fl none acts)))))
          t)

-- the final state that a trace is to have
abbrev pub final_of : Option FinalState → Option String → FinalState
final_of (some set) raised = set
final_of none none = record { status = TraceState.completed; error = none }
final_of none (some text) = record { status = TraceState.errored; error = some text }

final_lem :
    (set : Option FinalState) (raised : Option String)
    → or_state set (outcome_of raised) ≡ final_of set raised
final_lem (some state) raised = refl
final_lem none none = refl
final_lem none (some text) = refl

module _ {J F : Type 0} (fl : Floats F) where
  -- A fresh recorder, under which an agent does whatever it does and that is then left, with an
  -- exception or without, builds a trace that passes the tests of the schema: no span refers to a
  -- parent that is not there. It takes that the ids it drew are distinct, that every tool call refers
  -- to a request that some LLM call made, and that the clock has not gone back. The trace has the
  -- spans of the execution, and the final state that was set before; if none was set, it is
  -- completed without an error, or errored with the text of the exception that left the recorder.
  pub build-valid :
      (acts : Acts J F) (r : TraceRecorder J F) (ended now : ℕ) (raised : Option String)
      (trace_id version : String)
      → r.spans ≡ []
      → r.open_parents ≡ []
      → are_unique (ids_of (spans_of_all fl none acts)) ≡ true
      → tool_use_ids_linked (spans_of_all fl none acts) ≡ true
      → r.env_started_at ≤ ended
      → (trace : Trace J F) × ((build trace_id version now
            (exit ended raised (run_acts fl acts (enter r)))).0
          ≡ some trace)
        × (trace.spans ≡ spans_of_all fl none acts)
        × (trace.environment.ended_at ≡ some ended)
        × (trace.final_state ≡ final_of r.final_state raised)
  unfolding build make_trace assembled exit enter current_parent ended_after_started
  build-valid acts r ended now raised trace_id version empty closed u t later =
      let h = run_acts-Appended fl acts (enter r) in
      let spans = spans_of_all fl none acts in
      let last = run_acts fl acts (enter r) in
      let recorded : last.spans ≡ spans =
        h.recorded
        ∙ ap (λ parents. r.spans ++ spans_of_all fl (current_parent parents) acts) closed
        ∙ ap (λ older. older ++ spans) empty in
      let clock : leb last.env_started_at ended ≡ true = rw h.same_start (ground arith) in
      let valid = valid_spans fl (ids_of spans) acts refl u t in
      let passes : spans_valid last.spans ≡ true = rw recorded valid in
      (
        assembled trace_id version now (exit ended raised last),
        rw (both clock passes) refl,
        recorded,
        refl,
        ap (λ set. or_state (some (or_state set (outcome_of raised))) (outcome_of none))
              h.same_final
            ∙ final_lem r.final_state raised,
      )

  open-parents :
      (ids : List String) (parent : String) (act : Act J F) (acts : Acts J F)
      → contains parent ids ≡ false
      → parents_exist ids (spans_of_all fl (some parent) (Acts.next act acts)) ≡ false
  unfolding spans_of parents_exist parent_exists
  open-parents ids parent (Act.single id name now note) acts h =
      all-append (λ (s : Span J F). parent_exists ids s.base.parent_id)
        (spans_of fl (some parent) (Act.single id name now note))
        (spans_of_all fl (some parent) acts)
      ∙ rw h refl
  open-parents ids parent (Act.block m kind body) acts h =
      let s : Span J F = span_of (base_of m (some parent)) (block_detail fl m.duration_ms kind) in
      let test = λ (s : Span J F). parent_exists ids s.base.parent_id in
      all-append test (spans_of_all fl (some m.id) body ++ s ∷ [])
        (spans_of_all fl (some parent) acts)
      ∙ rw (all-append test (spans_of_all fl (some m.id) body) (s ∷ [])) (rw h (ground arith))

  -- A trace that is built while a block is open, in which anything has been recorded, is refused: its
  -- spans refer to the block, whose own span is recorded only at its exit.
  pub build-open_block :
      (act : Act J F) (acts : Acts J F) (r : TraceRecorder J F) (id : String) (now : ℕ)
      (trace_id version : String)
      → r.spans ≡ []
      → contains id (ids_of (spans_of_all fl (some id) (Acts.next act acts))) ≡ false
      → (build trace_id version now (run_acts fl (Acts.next act acts) (open_block id r))).0 ≡ none
  unfolding build make_trace assembled current_parent open_block spans_valid
  build-open_block act acts r id now trace_id version empty fresh =
      let h = run_acts-Appended fl (Acts.next act acts) (open_block id r) in
      let spans = spans_of_all fl (some id) (Acts.next act acts) in
      let last = run_acts fl (Acts.next act acts) (open_block id r) in
      let recorded : last.spans ≡ spans = h.recorded ∙ ap (λ older. older ++ spans) empty in
      let missing : parents_exist (ids_of last.spans) last.spans ≡ false =
        rw recorded (open-parents (ids_of spans) id act acts fresh) in
      ground (arith, missing)
