-- ===== src/Trace/Recorder/Spans.antt =====
-- The spans that an execution leaves in a recorder (trace/recorder.py), in the order of their ends.
use selfevals.Prelude.{
  ℕ, String, ◌≡◌, refl, ◌∙◌, sym, ap, Option, some, List, [], ◌∷◌, ◌++◌, map, drop,
}
use mathlib.Core.List.{append-nil, append_assoc, map-append}
use selfevals.Graders.{Floats}
use selfevals.Trace.{Detail, SpanBase, Span}
use selfevals.Trace.Builders.{build_llm_call, mark_raised}
use selfevals.Trace.Recorder.{TraceRecorder, SinkCall, current_parent, record_span}
use selfevals.Trace.Recorder.Blocks.{span_of, open_block, pop_parent, add_span}
use selfevals.Trace.Recorder.Programs.{
  Act, Acts, Block, base_of, detail_of, close_block, run_act, run_acts,
}

module _ {J F : Type 0} (fl : Floats F) where
  -- the span of a block, by its builder
  abbrev pub block_detail : ℕ → Block J F → Detail J F
  block_detail duration_ms Block.agent_turn = Detail.agent_turn
  block_detail duration_ms (Block.llm_call builder) =
      Detail.llm_call (build_llm_call fl duration_ms builder)
  block_detail duration_ms (Block.tool_call raised builder) =
      Detail.tool_call (mark_raised raised builder)
  block_detail duration_ms (Block.stt builder) = Detail.stt builder
  block_detail duration_ms (Block.tts builder) = Detail.tts builder

  -- the spans of an execution under a parent: what a block holds, then the block itself
  unfoldable mutual
    unfolding build_llm_call mark_raised detail_of

    pub spans_of : Option String → Act J F → List (Span J F)
    spans_of parent (Act.block m kind body) =
        spans_of_all (some m.id) body
        ++ span_of (base_of m parent) (block_detail m.duration_ms kind) ∷ []
    spans_of parent (Act.single id name now note) =
        span_of
          (base_of (record { id = id; name = name; started_at = now; duration_ms = 0 }) parent)
          (detail_of note)
        ∷ []

    pub spans_of_all : Option String → Acts J F → List (Span J F)
    spans_of_all parent Acts.done = []
    spans_of_all parent (Acts.next act acts) = spans_of parent act ++ spans_of_all parent acts

module _ {J F : Type 0} where
  -- From one state to the other the recorder has appended the spans, has given each of them to the
  -- sink in the same order, and has the same parents open.
  pub record Appended (r r' : TraceRecorder J F) (spans : List (Span J F)) : Type 0 where
    pub recorded : r'.spans ≡ r.spans ++ spans
    pub streamed :
        r'.sink_calls
        ≡ r.sink_calls ++ map (SinkCall.span_finished r.workspace_id r.run.run_id) spans
    pub parents : r'.open_parents ≡ r.open_parents
    pub same_workspace : r'.workspace_id ≡ r.workspace_id
    pub same_run : r'.run ≡ r.run
    pub same_start : r'.env_started_at ≡ r.env_started_at
    pub same_final : r'.final_state ≡ r.final_state

  Appended-trans :
      (a b c : TraceRecorder J F) (xs ys : List (Span J F))
      → Appended a b xs
      → Appended b c ys
      → Appended a c (xs ++ ys)
  Appended-trans a b c xs ys h k = record {
    recorded = k.recorded ∙ ap (λ zs. zs ++ ys) h.recorded ∙ append_assoc a.spans xs ys;
    streamed =
        k.streamed
        ∙ rw (h.same_workspace, h.same_run, h.streamed)
            (append_assoc a.sink_calls (map (SinkCall.span_finished a.workspace_id a.run.run_id) xs)
                (map (SinkCall.span_finished a.workspace_id a.run.run_id) ys)
              ∙ ap (λ zs. a.sink_calls ++ zs)
                  (sym (map-append (SinkCall.span_finished a.workspace_id a.run.run_id) xs ys)));
    parents = k.parents ∙ h.parents;
    same_workspace = k.same_workspace ∙ h.same_workspace;
    same_run = k.same_run ∙ h.same_run;
    same_start = k.same_start ∙ h.same_start;
    same_final = k.same_final ∙ h.same_final;
  }

  -- the exit of a block, whatever else it counts
  closed :
      (r inner last : TraceRecorder J F) (id : String) (xs : List (Span J F)) (s : Span J F)
      → Appended (open_block id r) inner xs
      → Appended (pop_parent inner) last (s ∷ [])
      → Appended r last (xs ++ s ∷ [])
  unfolding open_block pop_parent
  closed r inner last id xs s h k = Appended-trans r (pop_parent inner) last xs (s ∷ []) popped k
    where
      popped : Appended r (pop_parent inner) xs
      popped = record {
        recorded = h.recorded;
        streamed = h.streamed;
        parents = ap (drop 1) h.parents;
        same_workspace = h.same_workspace;
        same_run = h.same_run;
        same_start = h.same_start;
        same_final = h.same_final;
      }

  module _ (fl : Floats F) where
    close_block-Appended :
        (kind : Block J F) (base : SpanBase) (inner : TraceRecorder J F)
        → Appended
            (pop_parent inner)
            (close_block fl kind base inner)
            (span_of base (block_detail fl base.duration_ms kind) ∷ [])
    unfolding close_block pop_parent
    close_block-Appended Block.agent_turn base inner = record {
      recorded = refl;
      streamed = refl;
      parents = refl;
      same_workspace = refl;
      same_run = refl;
      same_start = refl;
      same_final = refl;
    }
    close_block-Appended (Block.llm_call builder) base inner = record {
      recorded = refl;
      streamed = refl;
      parents = refl;
      same_workspace = refl;
      same_run = refl;
      same_start = refl;
      same_final = refl;
    }
    close_block-Appended (Block.tool_call raised builder) base inner = record {
      recorded = refl;
      streamed = refl;
      parents = refl;
      same_workspace = refl;
      same_run = refl;
      same_start = refl;
      same_final = refl;
    }
    close_block-Appended (Block.stt builder) base inner = record {
      recorded = refl;
      streamed = refl;
      parents = refl;
      same_workspace = refl;
      same_run = refl;
      same_start = refl;
      same_final = refl;
    }
    close_block-Appended (Block.tts builder) base inner = record {
      recorded = refl;
      streamed = refl;
      parents = refl;
      same_workspace = refl;
      same_run = refl;
      same_start = refl;
      same_final = refl;
    }

    mutual
      unfolding run_act spans_of add_span current_parent open_block record_span

      run_act-Appended :
          (act : Act J F) (r : TraceRecorder J F)
          → Appended r (run_act fl act r) (spans_of fl (current_parent r.open_parents) act)
      run_act-Appended (Act.block m kind body) r =
          closed r (run_acts fl body (open_block m.id r))
            (close_block fl kind (base_of m (current_parent r.open_parents))
              (run_acts fl body (open_block m.id r)))
            m.id (spans_of_all fl (some m.id) body)
            (span_of (base_of m (current_parent r.open_parents))
              (block_detail fl m.duration_ms kind))
            (run_acts-all-Appended body (open_block m.id r))
            (close_block-Appended kind (base_of m (current_parent r.open_parents))
              (run_acts fl body (open_block m.id r)))
      run_act-Appended (Act.single id name now note) r = record {
        recorded = refl;
        streamed = refl;
        parents = refl;
        same_workspace = refl;
        same_run = refl;
        same_start = refl;
        same_final = refl;
      }

      run_acts-all-Appended :
          (acts : Acts J F) (r : TraceRecorder J F)
          → Appended r (run_acts fl acts r) (spans_of_all fl (current_parent r.open_parents) acts)
      run_acts-all-Appended Acts.done r = record {
        recorded = sym (append-nil r.spans);
        streamed = sym (append-nil r.sink_calls);
        parents = refl;
        same_workspace = refl;
        same_run = refl;
        same_start = refl;
        same_final = refl;
      }
      run_acts-all-Appended (Acts.next act acts) r =
          let first = run_act-Appended act r in
          Appended-trans r (run_act fl act r) (run_acts fl acts (run_act fl act r))
            (spans_of fl (current_parent r.open_parents) act)
            (spans_of_all fl (current_parent r.open_parents) acts) first
            (rw first.parents at (run_acts-all-Appended acts (run_act fl act r)))

    -- Whatever an agent does under a recorder, the recorder ends with the parents that were open
    -- before, and has appended one span for each block and each single call, in the order in which
    -- they end, each under the block that held it, with the fields that its builder had at the end;
    -- the live sink was given the same spans in the same order.
    pub run_acts-Appended :
        (acts : Acts J F) (r : TraceRecorder J F)
        → Appended r (run_acts fl acts r) (spans_of_all fl (current_parent r.open_parents) acts)
    run_acts-Appended acts r = run_acts-all-Appended acts r
