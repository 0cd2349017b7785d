-- ===== src/Proposers.antt =====
-- optimization/proposers.py, and Proposal of schemas/iteration.py: the proposals of an experiment and
-- the contract on what they may edit. The values of the search space, the random generator and the
-- text of a hypothesis are arguments; the proposer that asks a model is left out.
pub mod Combos
pub mod Strategies
pub mod Allowed
pub mod Positions
pub mod Grid
pub mod Coverage
use selfevals.Prelude.{
  ℕ, zero, suc, String, str_eq, Bool, true, false, not, ◌&&◌, ◌||◌, Option, none, some, List, [],
  ◌∷◌, ◌++◌, map, length, select, leb, is_some, get_elem?, if◌then◌else◌,
}
use selfevals.Aggregation.{Dict, lookup, update}

pub record EditableContract : Type 0 where
  pub prompt : Bool
  pub model_params : Bool
  pub model_choice : Bool
  pub tool_descriptions : Bool
  pub tool_code : Bool
  pub workflow_graph : Bool
  pub skills : Bool
  pub dataset : Bool
  pub graders : Bool

-- a value of a proposal's parameters: a JSON value, or a dict of them
pub data Value (V : Type 0) : Type 0 where
  json : V → Value V
  object : Dict V → Value V

pub record CodeDiff : Type 0 where
  pub path : String
  pub operation : String
  pub diff_pointer : Option String
  pub diff_hash : Option String

pub record Proposal (V F : Type 0) : Type 0 where
  pub parameters : Dict (Value V)
  pub hypothesis : String
  pub confidence : F
  pub code_changes : List CodeDiff
  pub inputs_referenced : List String
  pub search_space_expansion_request : Option (Dict V)

-- what the proposers read of an experiment
pub record Experiment (V : Type 0) : Type 0 where
  pub editable : EditableContract
  pub allow_search_space_expansion : Bool
  pub model_params : Dict V
  pub agents : List V

pub record HypothesisRecord (V : Type 0) : Type 0 where
  pub targets_mode_slug : String
  pub statement : String
  pub suggested_parameters : Dict V
  pub consumed_by_iteration : Option ℕ

-- `_PROPOSAL_KEY_TO_EDITABLE`
unfoldable pub proposal_key_to_editable : Dict (EditableContract → Bool)
proposal_key_to_editable =
    ("prompt", λ e. e.prompt)
    ∷ ("system_prompt", λ e. e.prompt)
    ∷ ("model", λ e. e.model_choice)
    ∷ ("agent", λ e. e.model_choice)
    ∷ ("model_params", λ e. e.model_params)
    ∷ ("tool_descriptions", λ e. e.tool_descriptions)
    ∷ ("tool_code", λ e. e.tool_code)
    ∷ ("workflow_graph", λ e. e.workflow_graph)
    ∷ ("graph", λ e. e.workflow_graph)
    ∷ ("skills", λ e. e.skills)
    ∷ ("dataset", λ e. e.dataset)
    ∷ ("graders", λ e. e.graders)
    ∷ []

-- whether the contract lets a proposal set a key; a key that the table does not name is free
abbrev pub flag_set : EditableContract → Option (EditableContract → Bool) → Bool
flag_set editable none = true
flag_set editable (some flag) = flag editable

unfoldable pub allows : EditableContract → String → Bool
unfolding proposal_key_to_editable
allows editable key = flag_set editable (lookup key proposal_key_to_editable)

-- the keys that the contract does not let a proposal set
unfoldable pub bad_keys : {V : Type 0} → EditableContract → Dict (Value V) → List String
bad_keys editable [] = []
bad_keys editable ((key, value) ∷ parameters) =
    if allows editable key then bad_keys editable parameters else key ∷ bad_keys editable parameters

-- a proposal, SearchSpaceExhaustedError, ProposalRejectedError, ValueError or IndexError
pub data Answer (V F : Type 0) : Type 0 where
  proposed : Proposal V F → Answer V F
  exhausted : Answer V F
  rejected : List String → Answer V F
  unusable : Answer V F

module _ {V F : Type 0} where
  unfoldable pub violations_against : EditableContract → Proposal V F → List String
  unfolding bad_keys
  violations_against editable p =
      let bad = bad_keys editable p.parameters in
      if not (leb (length p.code_changes) 0)
        && not (editable.tool_code || editable.workflow_graph || editable.skills)
      then bad ++ "code_changes" ∷ []
      else bad

  -- what `validate_against` collects; it raises when this is not empty
  unfoldable pub violations : Experiment V → Proposal V F → List String
  unfolding violations_against
  violations exp p =
      let bad = violations_against exp.editable p in
      if is_some p.search_space_expansion_request && not exp.allow_search_space_expansion
      then bad ++ "search_space_expansion_request" ∷ []
      else bad

  abbrev pub or_rejected : Proposal V F → List String → Answer V F
  or_rejected p [] = Answer.proposed p
  or_rejected p (key ∷ bad) = Answer.rejected (key ∷ bad)

  unfoldable pub validated : Experiment V → Proposal V F → Answer V F
  unfolding violations
  validated exp p = or_rejected p (violations exp p)
