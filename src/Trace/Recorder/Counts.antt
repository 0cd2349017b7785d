-- ===== src/Trace/Recorder/Counts.antt =====
-- The counters of a recorder (trace/recorder.py) against the spans that it has recorded.
use selfevals.Prelude.{ℕ, ◌+◌, ◌≡◌, refl, ◌∙◌, sym, ap, List, [], ◌∷◌, ◌++◌, arith}
use selfevals.Graders.{Floats}
use selfevals.Trace.{Detail, Span}
use selfevals.Trace.Recorder.{TraceRecorder, record_span}

module _ {J F : Type 0} where
  abbrev pub tokens_in_of : Detail J F → ℕ
  tokens_in_of (Detail.llm_call c) = c.tokens.input + c.tokens.input_cache_read
  tokens_in_of _ = 0

  abbrev pub tokens_out_of : Detail J F → ℕ
  tokens_out_of (Detail.llm_call c) = c.tokens.output
  tokens_out_of _ = 0

  abbrev pub retries_of : Detail J F → ℕ
  retries_of (Detail.llm_call c) = c.retries
  retries_of _ = 0

  abbrev pub one_llm_call : Detail J F → ℕ
  one_llm_call (Detail.llm_call c) = 1
  one_llm_call _ = 0

  abbrev pub one_tool_call : Detail J F → ℕ
  one_tool_call (Detail.tool_call c) = 1
  one_tool_call _ = 0

  abbrev pub total_of : (Detail J F → ℕ) → List (Span J F) → ℕ
  total_of f [] = 0
  total_of f (s ∷ spans) = f s.detail + total_of f spans

  total_of-append :
      (f : Detail J F → ℕ) (xs ys : List (Span J F))
      → total_of f (xs ++ ys) ≡ total_of f xs + total_of f ys
  total_of-append f [] ys = omega arith
  total_of-append f (x ∷ xs) ys = omega (arith, total_of-append f xs ys)

  -- a span that is neither an LLM call nor a tool call
  abbrev pub Plain : Detail J F → Type 0
  Plain (Detail.llm_call c) = ⊥
  Plain (Detail.tool_call c) = ⊥
  Plain _ = Unit

  module _ (fl : Floats F) where
    abbrev pub plus_cost : F → Detail J F → F
    plus_cost cost (Detail.llm_call c) = fl.add cost c.cost_usd.total
    plus_cost cost _ = cost

    -- the costs of the LLM calls, added up in their order
    abbrev pub cost_from : F → List (Span J F) → F
    cost_from cost [] = cost
    cost_from cost (s ∷ spans) = cost_from (plus_cost cost s.detail) spans

    cost_from-append :
        (cost : F) (xs : List (Span J F)) (s : Span J F)
        → cost_from cost (xs ++ s ∷ []) ≡ plus_cost (cost_from cost xs) s.detail
    cost_from-append cost [] s = refl
    cost_from-append cost (x ∷ xs) s = cost_from-append (plus_cost cost x.detail) xs s

    -- the counters of a recorder are the totals of its spans
    pub record IsCounted (r : TraceRecorder J F) : Type 0 where
      pub tokens_in : r.tokens_in ≡ total_of tokens_in_of r.spans
      pub tokens_out : r.tokens_out ≡ total_of tokens_out_of r.spans
      pub cost : r.cost_usd ≡ cost_from fl.zero r.spans
      pub llm_calls : r.llm_call_count ≡ total_of one_llm_call r.spans
      pub tool_calls : r.tool_call_count ≡ total_of one_tool_call r.spans
      pub retries : r.retries ≡ total_of retries_of r.spans

    -- a step that appends one span and adds what the span has to the counters
    pub record Counts (r r' : TraceRecorder J F) (s : Span J F) : Type 0 where
      pub appended : r'.spans ≡ r.spans ++ s ∷ []
      pub more_in : r'.tokens_in ≡ r.tokens_in + tokens_in_of s.detail
      pub more_out : r'.tokens_out ≡ r.tokens_out + tokens_out_of s.detail
      pub more_cost : r'.cost_usd ≡ plus_cost r.cost_usd s.detail
      pub more_llm : r'.llm_call_count ≡ r.llm_call_count + one_llm_call s.detail
      pub more_tools : r'.tool_call_count ≡ r.tool_call_count + one_tool_call s.detail
      pub more_retries : r'.retries ≡ r.retries + retries_of s.detail

    counted :
        (f : Detail J F → ℕ) (n n' : ℕ) (xs ys : List (Span J F)) (s : Span J F)
        → n ≡ total_of f xs
        → n' ≡ n + f s.detail
        → ys ≡ xs ++ s ∷ []
        → n' ≡ total_of f ys
    counted f n n' xs ys s h k e = rw e (omega (arith, total_of-append f xs (s ∷ [])))

    pub Counts-IsCounted :
        (r r' : TraceRecorder J F) (s : Span J F) → Counts r r' s → IsCounted r → IsCounted r'
    Counts-IsCounted r r' s c h = record {
      tokens_in =
          counted tokens_in_of r.tokens_in r'.tokens_in r.spans r'.spans s h.tokens_in c.more_in
            c.appended;
      tokens_out =
          counted tokens_out_of r.tokens_out r'.tokens_out r.spans r'.spans s h.tokens_out
            c.more_out c.appended;
      cost =
          c.more_cost
          ∙ ap (λ z. plus_cost z s.detail) h.cost
          ∙ rw c.appended (sym (cost_from-append fl.zero r.spans s));
      llm_calls =
          counted one_llm_call r.llm_call_count r'.llm_call_count r.spans r'.spans s h.llm_calls
            c.more_llm c.appended;
      tool_calls =
          counted one_tool_call r.tool_call_count r'.tool_call_count r.spans r'.spans s h.tool_calls
            c.more_tools c.appended;
      retries =
          counted retries_of r.retries r'.retries r.spans r'.spans s h.retries c.more_retries
            c.appended;
    }

    -- such a span counts for nothing
    record IsPlain (d : Detail J F) : Type 0 where
      no_in : tokens_in_of d ≡ 0
      no_out : tokens_out_of d ≡ 0
      no_cost : (c : F) → plus_cost c d ≡ c
      no_llm : one_llm_call d ≡ 0
      no_tools : one_tool_call d ≡ 0
      no_retries : retries_of d ≡ 0

    Plain-IsPlain : (d : Detail J F) → Plain d → IsPlain d
    Plain-IsPlain (Detail.llm_call c) h = absurd h
    Plain-IsPlain (Detail.tool_call c) h = absurd h
    Plain-IsPlain _ h = record {
      no_in = refl;
      no_out = refl;
      no_cost = λ c. refl;
      no_llm = refl;
      no_tools = refl;
      no_retries = refl;
    }

    pub Plain-Counts :
        (r : TraceRecorder J F) (s : Span J F) → Plain s.detail → Counts r (record_span s r) s
    unfolding record_span
    Plain-Counts r s plain =
        let p = Plain-IsPlain s.detail plain in
        record {
          appended = refl;
          more_in = omega (arith, p.no_in);
          more_out = omega (arith, p.no_out);
          more_cost = sym (p.no_cost r.cost_usd);
          more_llm = omega (arith, p.no_llm);
          more_tools = omega (arith, p.no_tools);
          more_retries = omega (arith, p.no_retries);
        }
