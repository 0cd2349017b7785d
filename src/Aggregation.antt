-- ===== src/Aggregation.antt =====
-- optimization/aggregator.py: the outcome of a case, from the grades of its repetitions.
pub mod Metrics
pub mod Passes
pub mod Labels
pub mod Monotone
pub mod Cells
pub mod Iteration
pub mod Counters
pub mod Failures
pub mod Funnel
pub mod Funnels
pub mod Confusion
pub mod Confusions
use selfevals.Prelude.{
  ℕ, zero, suc, ◌+◌, ◌==◌, String, str_eq, Bool, true, false, Option, none, some, is_some, List, [],
  ◌∷◌, ◌++◌, leb, if◌then◌else◌, length, map, sum, count,
}
use selfevals.Graders.{GradeLabel, BreakdownNode, GradeResult, Floats, is_pass, is_error}

-- A dict is a list of its items, in the order of their insertion.
abbrev pub Dict : Type 0 → Type 0
Dict V = List (String × V)

abbrev pub lookup : {V : Type 0} → String → Dict V → Option V
lookup key [] = none
lookup key ((k, v) ∷ items) = if str_eq k key then some v else lookup key items

-- what is at a key is changed, an absent key is appended (`d[key] = change(d.get(key))`)
abbrev pub update : {V : Type 0} → String → (Option V → V) → Dict V → Dict V
update key change [] = (key, change none) ∷ []
update key change ((k, v) ∷ items) =
    if str_eq k key then (k, change (some v)) ∷ items else (k, v) ∷ update key change items

-- schemas/trace.py: what the aggregation reads of a span and of a trace
pub data Span : Type 0 where
  llm_call : (cache_hit : Bool) → Span
  other_span : Span

pub record Trace (F : Type 0) : Type 0 where
  pub total_cost_usd : F
  pub total_duration_ms : ℕ
  pub spans : List Span

-- runner/executor.py
pub record RepetitionResult (F : Type 0) : Type 0 where
  pub trace : Trace F
  pub error : Option String

-- what the aggregation reads of a case (schemas/eval_case.py)
pub record EvalCase : Type 0 where
  pub id : String
  pub failure_weights : Dict ℕ
  pub critical_failure_modes : List String

pub record CaseOutcome (F : Type 0) : Type 0 where
  pub case_id : String
  pub per_repetition_label : List GradeLabel
  pub per_repetition_score : List F
  pub failure_modes : List String
  pub cost_usd : F
  pub duration_ms : ℕ
  pub cache_hit_count : ℕ
  pub llm_call_count : ℕ
  pub breakdowns : List (BreakdownNode F)
  pub per_grader_label : Dict (List GradeLabel)
  pub failure_weights : Dict ℕ
  pub critical_failure_modes : List String

abbrev pub severity : GradeLabel → ℕ
severity GradeLabel.error = 4
severity GradeLabel.fail = 3
severity GradeLabel.partial = 2
severity GradeLabel.skipped = 1
severity GradeLabel.pass = 0

-- a test of the first element, false when there is none
abbrev pub first_is : (GradeLabel → Bool) → List GradeLabel → Bool
first_is test [] = false
first_is test (label ∷ labels) = test label

-- `per_grader.setdefault(r.grader, []).append(r.label)`
abbrev pub append_label : GradeLabel → Option (List GradeLabel) → List GradeLabel
append_label label none = label ∷ []
append_label label (some labels) = labels ++ (label ∷ [])

abbrev pub concat : {A : Type 0} → List (List A) → List A
concat [] = []
concat (xs ∷ xss) = xs ++ concat xss

unfoldable pub llm_calls : List Span → ℕ
llm_calls = count (λ s. elim s [ Span.llm_call hit ↦ true | Span.other_span ↦ false ])

unfoldable pub cache_hits : List Span → ℕ
cache_hits = count (λ s. elim s [ Span.llm_call hit ↦ hit | Span.other_span ↦ false ])

module _ {F : Type 0} where
  unfoldable pub errored : CaseOutcome F → Bool
  errored o = first_is is_error o.per_repetition_label

  -- whether `pass_at_1` is 1.0
  unfoldable pub passed : CaseOutcome F → Bool
  passed o = first_is is_pass o.per_repetition_label

  -- `max(results, key=…)`: the first of the most severe
  unfoldable pub worse : GradeResult F → GradeResult F → GradeResult F
  worse best r = if leb (severity r.label) (severity best.label) then best else r

  unfoldable pub most_severe : GradeResult F → List (GradeResult F) → GradeResult F
  unfolding worse
  most_severe best [] = best
  most_severe best (r ∷ rs) = most_severe (worse best r) rs

  unfoldable pub pick_label : List (GradeResult F) → GradeLabel
  unfolding most_severe
  pick_label [] = GradeLabel.skipped
  pick_label (r ∷ rs) = (most_severe r rs).label

  unfoldable pub explicit_scores : List (GradeResult F) → List F
  explicit_scores [] = []
  explicit_scores (r ∷ rs) =
      let rest = explicit_scores rs in elim r.score [ none ↦ rest | some s ↦ s ∷ rest ]

  unfoldable pub breakdowns_of : List (GradeResult F) → List (BreakdownNode F)
  breakdowns_of [] = []
  breakdowns_of (r ∷ rs) =
      let rest = breakdowns_of rs in elim r.breakdown [ none ↦ rest | some b ↦ b ∷ rest ]

  unfoldable pub failure_modes_of : List (GradeResult F) → List String
  failure_modes_of [] = []
  failure_modes_of (r ∷ rs) = r.failure_modes ++ failure_modes_of rs

  unfoldable pub add_labels : List (GradeResult F) → Dict (List GradeLabel) → Dict (List GradeLabel)
  add_labels [] per_grader = per_grader
  add_labels (r ∷ rs) per_grader = add_labels rs (update r.grader (append_label r.label) per_grader)

  unfoldable pub add_all_labels :
      List (List (GradeResult F)) → Dict (List GradeLabel) → Dict (List GradeLabel)
  unfolding add_labels
  add_all_labels [] per_grader = per_grader
  add_all_labels (results ∷ reps) per_grader = add_all_labels reps (add_labels results per_grader)

  -- the effective label of each repetition; `reps[idx]` may not exist
  unfoldable pub rep_labels :
      List (RepetitionResult F) → List (List (GradeResult F)) → List GradeLabel
  unfolding pick_label
  rep_labels reps [] = []
  rep_labels [] (results ∷ rest) = pick_label results ∷ rep_labels [] rest
  rep_labels (rep ∷ reps) (results ∷ rest) =
      (if is_some rep.error then GradeLabel.error else pick_label results) ∷ rep_labels reps rest

module _ {F : Type 0} (fl : Floats F) where
  -- `sum`, from the left
  abbrev pub add_floats : F → List F → F
  add_floats acc [] = acc
  add_floats acc (x ∷ xs) = add_floats (fl.add acc x) xs

  abbrev pub sum_floats : List F → F
  sum_floats = add_floats fl.zero

  -- `statistics.mean` of a list that is not empty
  abbrev pub mean : List F → F
  mean xs = fl.div (sum_floats xs) (fl.of_nat (length xs))

  abbrev pub score_of_label : GradeLabel → F
  score_of_label GradeLabel.pass = fl.one
  score_of_label GradeLabel.partial = fl.half
  score_of_label _ = fl.zero

  unfoldable pub pick_score : List (GradeResult F) → F
  unfolding explicit_scores
  pick_score results =
      if 0 == length (explicit_scores results)
      then (if 0 == length results
          then fl.zero
          else mean (map (λ r. score_of_label r.label) results))
      else mean (explicit_scores results)

  unfoldable pub outcome_for :
      EvalCase → List (RepetitionResult F) → List (List (GradeResult F)) → CaseOutcome F
  unfolding pick_score failure_modes_of breakdowns_of rep_labels add_all_labels llm_calls cache_hits
  outcome_for case reps grades = record {
    case_id = case.id;
    per_repetition_label = rep_labels reps grades;
    per_repetition_score = map pick_score grades;
    failure_modes = concat (map failure_modes_of grades);
    cost_usd = sum_floats (map (λ rep. rep.trace.total_cost_usd) reps);
    duration_ms = sum (map (λ rep. rep.trace.total_duration_ms) reps);
    cache_hit_count = sum (map (λ rep. cache_hits rep.trace.spans) reps);
    llm_call_count = sum (map (λ rep. llm_calls rep.trace.spans) reps);
    breakdowns = concat (map breakdowns_of grades);
    per_grader_label = add_all_labels grades [];
    failure_weights = case.failure_weights;
    critical_failure_modes = case.critical_failure_modes;
  }
