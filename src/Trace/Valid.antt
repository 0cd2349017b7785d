-- ===== src/Trace/Valid.antt =====
-- schemas/trace.py, the model validators: the tests that a trace, its tokens and its environment
-- pass when they are made. What raises is `none`.
use selfevals.Prelude.{
  ℕ, ◌+◌, String, str_eq, Bool, true, ◌&&◌, not, Option, none, some, List, [], ◌∷◌, ◌++◌, any, all,
  map, leb, if◌then◌else◌,
}
use selfevals.Trace.{TokenBreakdown, Detail, ToolUseRequest, Span}
use selfevals.Trace.Whole.{EnvironmentInfo, Trace}

-- `TokenBreakdown._total_covers_components`
unfoldable pub total_covers_components : TokenBreakdown → Bool
total_covers_components t =
    leb (t.input + t.input_cache_read + t.input_cache_creation + t.output + t.reasoning) t.total

-- `EnvironmentInfo._ended_after_started`
abbrev pub not_before : ℕ → Option ℕ → Bool
not_before started none = true
not_before started (some ended) = leb started ended

unfoldable pub ended_after_started : EnvironmentInfo → Bool
ended_after_started env = not_before env.started_at env.ended_at

abbrev pub contains : String → List String → Bool
contains key keys = any (str_eq key) keys

-- `len(set(ids)) == len(ids)`
unfoldable pub are_unique : List String → Bool
are_unique [] = true
are_unique (key ∷ keys) = not (contains key keys) && are_unique keys

unfoldable pub parent_exists : List String → Option String → Bool
parent_exists ids none = true
parent_exists ids (some parent) = contains parent ids

abbrev use_linked : List String → Option String → Bool
use_linked requested none = true
use_linked requested (some key) = contains key requested

module _ {J F : Type 0} where
  abbrev pub ids_of : List (Span J F) → List String
  ids_of spans = map (λ (s : Span J F). s.base.id) spans

  unfoldable pub parents_exist : List String → List (Span J F) → Bool
  unfolding parent_exists
  parents_exist ids spans = all (λ (s : Span J F). parent_exists ids s.base.parent_id) spans

  -- the requests of the spans that are LLM calls
  unfoldable pub requested_by : Detail J F → List String
  requested_by (Detail.llm_call c) =
      map (λ (r : ToolUseRequest). r.tool_use_id) c.output.tool_use_requested
  requested_by _ = []

  unfoldable pub requested_ids : List (Span J F) → List String
  unfolding requested_by
  requested_ids [] = []
  requested_ids (s ∷ spans) = requested_by s.detail ++ requested_ids spans

  unfoldable pub tool_use_linked : List String → Detail J F → Bool
  tool_use_linked requested (Detail.tool_call c) = use_linked requested c.tool_use_id
  tool_use_linked requested _ = true

  unfoldable pub tool_use_ids_linked : List (Span J F) → Bool
  unfolding requested_ids tool_use_linked
  tool_use_ids_linked spans =
      all (λ (s : Span J F). tool_use_linked (requested_ids spans) s.detail) spans

  unfoldable pub spans_valid : List (Span J F) → Bool
  unfolding are_unique parents_exist tool_use_ids_linked
  spans_valid spans =
      are_unique (ids_of spans) && parents_exist (ids_of spans) spans && tool_use_ids_linked spans

  -- the constructor of a trace, which raises when a test fails
  unfoldable pub make_trace : Trace J F → Option (Trace J F)
  unfolding spans_valid ended_after_started
  make_trace t = if ended_after_started t.environment && spans_valid t.spans then some t else none
