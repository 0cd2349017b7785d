-- ===== src/Trace/Recorder/Counted.antt =====
-- Whatever is recorded, the counters of a recorder stay the totals of its spans (trace/recorder.py).
use selfevals.Prelude.{refl, drop, List, ◌∷◌, arith, String}
use selfevals.Graders.{Floats}
use selfevals.Trace.{Detail, SpanBase}
use selfevals.Trace.Builders.{build_llm_call, mark_raised}
use selfevals.Trace.Recorder.{TraceRecorder, current_parent, record_span}
use selfevals.Trace.Recorder.Blocks.{span_of, open_block, pop_parent, add_span}
use selfevals.Trace.Recorder.Programs.{
  Act, Acts, Block, Note, base_of, detail_of, close_block, run_act, run_acts,
}
use selfevals.Trace.Recorder.Counts.{IsCounted, Counts-IsCounted, Plain, Plain-Counts}

module _ (J : Type 0) {F : Type 0} where
  detail_of-Plain : (note : Note F) → Plain (detail_of {J = J} note)
  unfolding detail_of
  detail_of-Plain (Note.add_retrieval a b c d e f) = tt
  detail_of-Plain (Note.add_memory_read a b c) = tt
  detail_of-Plain (Note.add_memory_write a b) = tt
  detail_of-Plain (Note.add_decision a b c d) = tt
  detail_of-Plain (Note.add_handoff a) = tt
  detail_of-Plain (Note.add_human_intervention a b) = tt
  detail_of-Plain (Note.add_guardrail_check a b) = tt
  detail_of-Plain (Note.add_error a b c) = tt

module _ {J F : Type 0} (fl : Floats F) where
  -- the parents that are open count for nothing
  parents-IsCounted :
      (r : TraceRecorder J F) (parents : List String)
      → IsCounted fl r
      → IsCounted fl (record r { open_parents = parents })
  parents-IsCounted r parents h = record {
    tokens_in = h.tokens_in;
    tokens_out = h.tokens_out;
    cost = h.cost;
    llm_calls = h.llm_calls;
    tool_calls = h.tool_calls;
    retries = h.retries;
  }

  close_block-IsCounted :
      (kind : Block J F) (base : SpanBase) (r : TraceRecorder J F)
      → IsCounted fl (pop_parent r)
      → IsCounted fl (close_block fl kind base r)
  unfolding close_block record_span
  close_block-IsCounted Block.agent_turn base r h =
      Counts-IsCounted fl (pop_parent r) (close_block fl Block.agent_turn base r)
        (span_of base Detail.agent_turn)
        (Plain-Counts fl (pop_parent r) (span_of base Detail.agent_turn) tt) h
  close_block-IsCounted (Block.llm_call builder) base r h =
      let call = build_llm_call fl base.duration_ms builder in
      Counts-IsCounted fl (pop_parent r) (close_block fl (Block.llm_call builder) base r)
        (span_of base (Detail.llm_call call))
        (record {
          appended = refl;
          more_in = refl;
          more_out = refl;
          more_cost = refl;
          more_llm = refl;
          more_tools = omega arith;
          more_retries = refl;
        })
        h
  close_block-IsCounted (Block.tool_call raised builder) base r h =
      Counts-IsCounted fl (pop_parent r) (close_block fl (Block.tool_call raised builder) base r)
        (span_of base (Detail.tool_call (mark_raised raised builder)))
        (record {
          appended = refl;
          more_in = omega arith;
          more_out = omega arith;
          more_cost = refl;
          more_llm = omega arith;
          more_tools = refl;
          more_retries = omega arith;
        })
        h
  close_block-IsCounted (Block.stt builder) base r h =
      Counts-IsCounted fl (pop_parent r) (close_block fl (Block.stt builder) base r)
        (span_of base (Detail.stt builder))
        (Plain-Counts fl (pop_parent r) (span_of base (Detail.stt builder)) tt) h
  close_block-IsCounted (Block.tts builder) base r h =
      Counts-IsCounted fl (pop_parent r) (close_block fl (Block.tts builder) base r)
        (span_of base (Detail.tts builder))
        (Plain-Counts fl (pop_parent r) (span_of base (Detail.tts builder)) tt) h

  mutual
    unfolding run_act add_span open_block pop_parent

    run_act-IsCounted :
        (act : Act J F) (r : TraceRecorder J F) → IsCounted fl r → IsCounted fl (run_act fl act r)
    run_act-IsCounted (Act.block m kind body) r h =
        let inner = run_acts fl body (open_block m.id r) in
        close_block-IsCounted kind (base_of m (current_parent r.open_parents)) inner (
          parents-IsCounted inner (drop 1 inner.open_parents) (
            run_acts_all-IsCounted body (open_block m.id r)
              (parents-IsCounted r (m.id ∷ r.open_parents) h)))
    run_act-IsCounted (Act.single id name now note) r h =
        let s =
          span_of
            (base_of (record { id = id; name = name; started_at = now; duration_ms = 0 })
              (current_parent r.open_parents))
            (detail_of note) in
        Counts-IsCounted fl r (record_span s r) s (Plain-Counts fl r s (detail_of-Plain J note)) h

    run_acts_all-IsCounted :
        (acts : Acts J F) (r : TraceRecorder J F)
        → IsCounted fl r
        → IsCounted fl (run_acts fl acts r)
    run_acts_all-IsCounted Acts.done r h = h
    run_acts_all-IsCounted (Acts.next act acts) r h =
        run_acts_all-IsCounted acts (run_act fl act r) (run_act-IsCounted act r h)

  -- Whatever an agent does under a recorder whose counters are right, its counters stay right: the
  -- tokens in (with those read from the cache), the tokens out, the retries and the cost are those of
  -- the recorded LLM calls, added up in their order, and the numbers of LLM and of tool calls are
  -- those of the recorded spans, whether calls failed or not.
  pub run_acts-IsCounted :
      (acts : Acts J F) (r : TraceRecorder J F) → IsCounted fl r → IsCounted fl (run_acts fl acts r)
  run_acts-IsCounted acts r h = run_acts_all-IsCounted acts r h
