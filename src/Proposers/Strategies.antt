-- ===== src/Proposers/Strategies.antt =====
-- optimization/proposers.py: the manual list, the grid, the random samples and the hypotheses of the
-- error analysis, each with the state it keeps between proposals.
use selfevals.Prelude.{
  ℕ, ◌==◌, String, not, Option, none, some, List, [], ◌∷◌, map, length, select, leb, is_some,
  get_elem?, if◌then◌else◌, str_eq,
}
use selfevals.Aggregation.{Dict, lookup}
use selfevals.Proposers.{Value, Proposal, Experiment, HypothesisRecord, Answer, validated}
use selfevals.Proposers.Combos.{
  map_some, Reading, params_only, agent_only, agent_with, ensure_combos,
}

-- `random.Random` on a list that is not empty, and on a range
pub record Generator (V S : Type 0) : Type 0 where
  pub choice : S → V → List V → V × S
  pub uniform : S → V → V → V × S

pub record Context (V : Type 0) : Type 0 where
  pub iteration_index : ℕ
  pub pending_hypotheses : List (HypothesisRecord V)

-- an entry of the manual list
pub data Entry (V F : Type 0) : Type 0 where
  whole : Proposal V F → Entry V F
  fields : Dict V → Entry V F

-- what a proposer keeps: the proposals; the combinations, once they are made; the bound and the
-- generator; the confidence
pub data Proposer (V F S : Type 0) : Type 0 where
  manual : List (Proposal V F) → Proposer V F S
  grid : Option (List (Dict (Value V))) → Proposer V F S
  random : ℕ → S → Proposer V F S
  llm : F → Proposer V F S

-- a proposal with the defaults of the schema
abbrev pub plain : {V F : Type 0} → F → Dict (Value V) → String → Proposal V F
plain half params hypothesis = record {
  parameters = params;
  hypothesis = hypothesis;
  confidence = half;
  code_changes = [];
  inputs_referenced = [];
  search_space_expansion_request = none;
}

unfoldable pub new_random : {V F S : Type 0} → ℕ → S → Option (Proposer V F S)
new_random max_proposals rng =
    if max_proposals == 0 then none else some (Proposer.random max_proposals rng)

module _ {V : Type 0} (rd : Reading V) where
  -- `_sample_value`; none is an empty list
  unfoldable pub pick : {S : Type 0} → Generator V S → S → List V → Option V × S
  pick gen s [] = (none, s)
  pick gen s (v ∷ vs) = let drawn = gen.choice s v vs in (some drawn.0, drawn.1)

  unfoldable pub sample_value : {S : Type 0} → Generator V S → S → V → Option V × S
  unfolding pick
  sample_value gen s spec = elim (rd.as_list spec) [
    | some vs ↦ pick gen s vs
    | none ↦ elim (rd.choices spec) [
      | some vs ↦ pick gen s vs
      | none ↦ elim (rd.range spec) [
        | some (lo, hi) ↦ let drawn = gen.uniform s lo hi in (some drawn.0, drawn.1)
        | none ↦ (some spec, s)
      ]
    ]
  ]

  -- the values of all entries, in their order
  unfoldable pub sample_all : {S : Type 0} → Generator V S → S → Dict V → Option (Dict V) × S
  unfolding sample_value
  sample_all gen s [] = (some [], s)
  sample_all gen s ((key, spec) ∷ space) =
      let drawn = sample_value gen s spec in
      let rest = sample_all gen drawn.1 space in
      elim drawn.0 [
        | none ↦ (none, drawn.1)
        | some v ↦ elim rest.0 [
          | none ↦ (none, rest.1)
          | some params ↦ (some ((key, v) ∷ params), rest.1)
        ]
      ]

  -- the agent is drawn after the parameters
  unfoldable pub sampled_parameters :
      {S : Type 0} → Generator V S → S → Experiment V → Option (Dict (Value V)) × S
  unfolding sample_all pick
  sampled_parameters gen s exp =
      let drawn = sample_all gen s exp.model_params in
      let agent = pick gen drawn.1 exp.agents in
      elim drawn.0 [
        | none ↦ (none, drawn.1)
        | some params ↦ elim agent.0 [
          | none ↦ (some (params_only params), drawn.1)
          | some a ↦
              (some (if leb (length params) 0 then agent_only a else agent_with a params), agent.1)
        ]
      ]

  module _ {F : Type 0} (half : F) where
    -- the entries of the manual list as proposals; an empty list is a ValueError
    unfoldable pub coerced : Entry V F → Proposal V F
    coerced (Entry.whole p) = p
    coerced (Entry.fields items) = record {
      parameters =
          map (λ (key, v). (key, Value.json v))
            (select (λ (key, v). not (str_eq key "hypothesis")) items);
      hypothesis = elim (lookup "hypothesis" items) [
        | none ↦ "manual proposal"
        | some v ↦ if rd.truthy v then rd.text v else "manual proposal"
      ];
      confidence = half;
      code_changes = [];
      inputs_referenced = [];
      search_space_expansion_request = none;
    }

    unfoldable pub new_manual : {S : Type 0} → List (Entry V F) → Option (Proposer V F S)
    unfolding coerced
    new_manual [] = none
    new_manual (e ∷ entries) = some (Proposer.manual (map coerced (e ∷ entries)))

-- the first hypothesis that no iteration has used
unfoldable pub next_pending_hypothesis :
    {V : Type 0} → List (HypothesisRecord V) → Option (HypothesisRecord V)
next_pending_hypothesis [] = none
next_pending_hypothesis (h ∷ hs) =
    if is_some h.consumed_by_iteration then next_pending_hypothesis hs else some h

-- `_mark_consumed` of that hypothesis
unfoldable pub mark_consumed :
    {V : Type 0} → ℕ → List (HypothesisRecord V) → List (HypothesisRecord V)
mark_consumed i [] = []
mark_consumed i (h ∷ hs) =
    if is_some h.consumed_by_iteration
    then h ∷ mark_consumed i hs
    else record h { consumed_by_iteration = some i } ∷ hs

unfoldable pub proposal_from_hypothesis : {V F : Type 0} → HypothesisRecord V → F → Proposal V F
proposal_from_hypothesis h confidence = record {
  parameters = map (λ (key, v). (key, Value.json v)) h.suggested_parameters;
  hypothesis = h.statement;
  confidence = confidence;
  code_changes = [];
  inputs_referenced = h.targets_mode_slug ∷ [];
  search_space_expansion_request = none;
}

-- the answer, the proposer after it, and the hypotheses after it
abbrev pub Step : Type 0 → Type 0 → Type 0 → Type 0
Step V F S = Answer V F × Proposer V F S × List (HypothesisRecord V)

module _ {V F : Type 0} where
  abbrev pub validated_or : Answer V F → Experiment V → Option (Proposal V F) → Answer V F
  validated_or missing exp none = missing
  validated_or missing exp (some p) = validated exp p

  unfoldable pub propose_manual : List (Proposal V F) → Experiment V → ℕ → Answer V F
  propose_manual proposals exp i = validated_or Answer.exhausted exp (get_elem? proposals i)

  abbrev pub consumed_if_proposed :
      ℕ → List (HypothesisRecord V) → Answer V F → Answer V F × List (HypothesisRecord V)
  consumed_if_proposed i hyps (Answer.proposed p) = (Answer.proposed p, mark_consumed i hyps)
  consumed_if_proposed i hyps answer = (answer, hyps)

  unfoldable pub propose_offline :
      F → Experiment V → Context V → Answer V F × List (HypothesisRecord V)
  unfolding next_pending_hypothesis proposal_from_hypothesis
  propose_offline confidence exp ctx =
      consumed_if_proposed ctx.iteration_index ctx.pending_hypotheses (
        validated_or Answer.exhausted exp (
          map_some (λ h. proposal_from_hypothesis h confidence)
            (next_pending_hypothesis ctx.pending_hypotheses)))

module _ {V F : Type 0} (half : F) (label : String → ℕ → Dict (Value V) → String) where
  abbrev pub propose_combo : List (Dict (Value V)) → Experiment V → ℕ → Answer V F
  propose_combo combos exp i =
      validated_or Answer.exhausted exp
        (map_some (λ params. plain half params (label "grid" i params)) (get_elem? combos i))

  abbrev pub answer_from :
      Option (List (Dict (Value V)))
      → Experiment V
      → ℕ
      → Answer V F × Option (List (Dict (Value V)))
  answer_from none exp i = (Answer.unusable, none)
  answer_from (some combos) exp i = (propose_combo combos exp i, some combos)

  unfoldable pub propose_grid :
      Reading V
      → Option (List (Dict (Value V)))
      → Experiment V
      → ℕ
      → Answer V F × Option (List (Dict (Value V)))
  unfolding ensure_combos
  propose_grid rd kept exp i = answer_from (ensure_combos rd exp kept) exp i

  unfoldable pub propose_random :
      {S : Type 0} → Reading V → Generator V S → ℕ → S → Experiment V → ℕ → Answer V F × S
  unfolding sampled_parameters
  propose_random rd gen max_proposals rng exp i =
      let drawn = sampled_parameters rd gen rng exp in
      if leb max_proposals i then (Answer.exhausted, rng) else (
        validated_or Answer.unusable exp
            (map_some (λ params. plain half params (label "random" i params)) drawn.0),
        drawn.1,
      )

  unfoldable pub propose :
      {S : Type 0}
      → Reading V
      → Generator V S
      → Proposer V F S
      → Experiment V
      → Context V
      → Step V F S
  unfolding propose_manual propose_grid propose_random propose_offline
  propose rd gen (Proposer.manual proposals) exp ctx = (
    propose_manual proposals exp ctx.iteration_index,
    Proposer.manual proposals,
    ctx.pending_hypotheses,
  )
  propose rd gen (Proposer.grid combos) exp ctx =
      let answer = propose_grid rd combos exp ctx.iteration_index in
      (answer.0, Proposer.grid answer.1, ctx.pending_hypotheses)
  propose rd gen (Proposer.random max_proposals rng) exp ctx =
      let answer = propose_random rd gen max_proposals rng exp ctx.iteration_index in
      (answer.0, Proposer.random max_proposals answer.1, ctx.pending_hypotheses)
  propose rd gen (Proposer.llm confidence) exp ctx =
      let answer = propose_offline confidence exp ctx in
      (answer.0, Proposer.llm confidence, answer.1)
