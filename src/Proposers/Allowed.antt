-- ===== src/Proposers/Allowed.antt =====
-- Which proposals the contract lets through (optimization/proposers.py, schemas/iteration.py).
use selfevals.Prelude.{
  ℕ, ◌≤◌, ◌≡◌, refl, ◌⊎◌, inl, inr, String, Bool, true, false, not, ◌&&◌, ◌||◌, Option, none, some,
  List, [], ◌∷◌, ◌++◌, length, leb, is_some, All, arith, Bool-cases, if◌then◌else◌,
}
use selfevals.Aggregation.{Dict}
use selfevals.Proposers.{
  EditableContract, Value, Proposal, Experiment, HypothesisRecord, bad_keys, allows,
  violations_against, violations, Answer, or_rejected, validated,
}
use selfevals.Proposers.Combos.{Reading, ensure_combos}
use selfevals.Proposers.Strategies.{
  Generator, Context, Proposer, propose_manual, propose_grid, propose_random, propose_offline,
  propose, consumed_if_proposed, validated_or, answer_from,
}

abbrev pub IsAllowed : {V F : Type 0} → Experiment V → Proposal V F → Type 0
IsAllowed exp p =
    All (λ (key, v). allows exp.editable key ≡ true) p.parameters
    × ((length p.code_changes ≤ 0)
        ⊎ ((exp.editable.tool_code || exp.editable.workflow_graph || exp.editable.skills) ≡ true))
    × ((is_some p.search_space_expansion_request ≡ false)
        ⊎ (exp.allow_search_space_expansion ≡ true))

-- A proposal is allowed; a rejection names at least one key.
abbrev pub Fits : {V F : Type 0} → Experiment V → Answer V F → Type 0
Fits exp (Answer.proposed p) = IsAllowed exp p
Fits exp Answer.exhausted = Unit
Fits exp (Answer.rejected keys) = 1 ≤ length keys
Fits exp Answer.unusable = Unit

no_bad_keys :
    {V : Type 0} (editable : EditableContract) (parameters : Dict (Value V))
    → bad_keys editable parameters ≡ []
    → All (λ (key, v). allows editable key ≡ true) parameters
unfolding bad_keys
no_bad_keys editable [] h = tt
no_bad_keys editable ((key, v) ∷ parameters) h = elim (Bool-cases (allows editable key)) [
  | inl e ↦ (e, no_bad_keys editable parameters (ground (arith, h, e)))
  | inr e ↦ absurd (ground (arith, h, e))
]

never_nil : (xs : List String) (x : String) → xs ++ x ∷ [] ≡ [] → ⊥
never_nil [] x h = absurd (ground (arith, h))
never_nil (y ∷ xs) x h = absurd (ground (arith, h))

-- nothing was appended when nothing is there
nothing_appended :
    (b : Bool) (xs : List String) (x : String)
    → (if b then xs ++ x ∷ [] else xs) ≡ []
    → (b ≡ false) × (xs ≡ [])
nothing_appended true xs x h = absurd (never_nil xs x h)
nothing_appended false xs x h = (refl, h)

module _ {V F : Type 0} (exp : Experiment V) where
  no_violations : (p : Proposal V F) → violations exp p ≡ [] → IsAllowed exp p
  unfolding violations violations_against
  no_violations p h =
      let outer =
        nothing_appended
          (is_some p.search_space_expansion_request && not exp.allow_search_space_expansion) _
          "search_space_expansion_request" h in
      let inner =
        nothing_appended
          (not (leb (length p.code_changes) 0)
            && not (exp.editable.tool_code || exp.editable.workflow_graph || exp.editable.skills))
          _ "code_changes" outer.1 in
      (
        no_bad_keys exp.editable p.parameters inner.1,
        ground (arith, inner.0),
        ground (arith, outer.0),
      )

  or_rejected-Fits :
      (p : Proposal V F) (bad : List String) → violations exp p ≡ bad → Fits exp (or_rejected p bad)
  or_rejected-Fits p [] h = no_violations p h
  or_rejected-Fits p (key ∷ bad) h = omega arith

  validated-Fits : (p : Proposal V F) → Fits exp (validated exp p)
  unfolding validated
  validated-Fits p = or_rejected-Fits p (violations exp p) refl

  validated_or-Fits :
      (missing : Answer V F) (p : Option (Proposal V F))
      → Fits exp missing
      → Fits exp (validated_or missing exp p)
  validated_or-Fits missing none h = h
  validated_or-Fits missing (some p) h = validated-Fits p

  consumed-Fits :
      (i : ℕ) (hyps : List (HypothesisRecord V)) (answer : Answer V F)
      → Fits exp answer
      → Fits exp (consumed_if_proposed i hyps answer).0
  consumed-Fits i hyps (Answer.proposed p) h = h
  consumed-Fits i hyps Answer.exhausted h = h
  consumed-Fits i hyps (Answer.rejected keys) h = h
  consumed-Fits i hyps Answer.unusable h = h

  answer_from-Fits :
      (half : F) (label : String → ℕ → Dict (Value V) → String)
      (combos : Option (List (Dict (Value V)))) (i : ℕ)
      → Fits exp (answer_from half label combos exp i).0
  answer_from-Fits half label none i = tt
  answer_from-Fits half label (some combos) i = validated_or-Fits Answer.exhausted _ tt

-- Whatever the proposer, its state, the search space, the generator and the pending hypotheses, a
-- proposal that it answers sets no key that the contract forbids, changes code only if the contract
-- lets it change some code, and asks for a larger search space only if the experiment allows that;
-- and a rejection names at least one key.
pub propose-Fits :
    {V F S : Type 0} (half : F) (label : String → ℕ → Dict (Value V) → String) (rd : Reading V)
    (gen : Generator V S) (proposer : Proposer V F S) (exp : Experiment V) (ctx : Context V)
    → Fits exp (propose half label rd gen proposer exp ctx).0
unfolding propose propose_manual propose_grid propose_random propose_offline
propose-Fits half label rd gen (Proposer.manual proposals) exp ctx =
    validated_or-Fits exp Answer.exhausted _ tt
propose-Fits half label rd gen (Proposer.grid combos) exp ctx =
    answer_from-Fits exp half label (ensure_combos rd exp combos) ctx.iteration_index
propose-Fits half label rd gen (Proposer.random max_proposals rng) exp ctx =
    elim (Bool-cases (leb max_proposals ctx.iteration_index)) [
      | inl e ↦ rw e tt
      | inr e ↦ rw e (validated_or-Fits exp Answer.unusable _ tt)
    ]
propose-Fits half label rd gen (Proposer.llm confidence) exp ctx =
    consumed-Fits exp ctx.iteration_index ctx.pending_hypotheses _
      (validated_or-Fits exp Answer.exhausted _ tt)
