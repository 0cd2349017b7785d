-- ===== src/Tests/Proposers.antt =====
-- Runs of the proposers (optimization/proposers.py).
use selfevals.Prelude.{
  ℕ, suc, ◌≡◌, refl, String, str_eq, true, false, Option, none, some, List, [], ◌∷◌, map, arith,
  if◌then◌else◌,
}
use selfevals.Aggregation.{Dict}
use selfevals.Proposers.{allows, validated, EditableContract, Value, Experiment, Answer}
use selfevals.Proposers.Combos.{map_some, Reading, agent_with, grid_size}
use selfevals.Proposers.Strategies.{
  Generator, Context, Proposer, Entry, new_manual, plain, propose_grid, propose,
}
use selfevals.Proposers.Allowed.{Fits, propose-Fits}
use selfevals.Proposers.Coverage.{TriesAt, propose_grid-covers}

pub data Json : Type 0 where
  num : ℕ → Json
  nums : List ℕ → Json

abbrev list_of : Json → Option (List Json)
list_of (num n) = none
list_of (nums ns) = some (map num ns)

abbrev pub reading : Reading Json
reading = record {
  as_list = list_of;
  choices = λ v. none;
  range = λ v. none;
  truthy = λ v. true;
  text = λ v. "text";
}

abbrev first_choice : Generator Json ℕ
first_choice = record { choice = λ s v vs. (v, suc s); uniform = λ s lo hi. (lo, suc s) }

abbrev contract : EditableContract
contract = record {
  prompt = true;
  model_params = true;
  model_choice = true;
  tool_descriptions = false;
  tool_code = false;
  workflow_graph = false;
  skills = false;
  dataset = false;
  graders = false;
}

abbrev pub sweep : Experiment Json
sweep = record {
  editable = contract;
  allow_search_space_expansion = false;
  model_params =
      ("temperature", nums (0 ∷ 1 ∷ []))
      ∷ ("seed", num 7)
      ∷ ("top_k", nums (10 ∷ 20 ∷ 40 ∷ []))
      ∷ [];
  agents = num 100 ∷ num 200 ∷ [];
}

abbrev pub half : ℕ
half = 5

abbrev at_start : Context Json
at_start = record { iteration_index = 0; pending_hypotheses = [] }

abbrev pub untitled : String → ℕ → Dict (Value Json) → String
untitled kind i params = kind

-- the second agent, the second temperature and the last top_k
abbrev pub picked : String → Json
picked key = if str_eq key "temperature" then num 1 else if str_eq key "seed" then num 7 else num 40

last_combination :
    (propose_grid half untitled reading none sweep 11).0
    ≡ Answer.proposed (
        plain half
          (agent_with (num 200) (("seed", num 7) ∷ ("temperature", num 1) ∷ ("top_k", num 40) ∷ []))
          "grid")
unfolding propose_grid validated allows
last_combination = refl

propose_grid-covers_example :
    ((i : ℕ) × (params : Dict Json) × TriesAt half untitled reading sweep (num 200) picked i params)
    × ((propose_grid half untitled reading none sweep 12).0 ≡ Answer.exhausted)
    × (grid_size reading sweep none ≡ some 12)
propose_grid-covers_example =
    propose_grid-covers half untitled reading sweep (num 200) picked 12 refl refl (omega arith)
      (1, refl) ((1, refl), (refl, ((2, refl), tt))) (omega arith)

-- a manual proposal that changes the dataset is rejected
dataset_change :
    map_some
      (λ (p : Proposer Json ℕ ℕ). (propose half untitled reading first_choice p sweep at_start).0)
      (new_manual reading half (Entry.fields (("dataset", num 1) ∷ []) ∷ []))
    ≡ some (Answer.rejected ("dataset" ∷ []))
unfolding new_manual propose validated allows
dataset_change = refl

propose-Fits_example :
    Fits sweep (propose half untitled reading first_choice (Proposer.random 3 0) sweep at_start).0
propose-Fits_example =
    propose-Fits half untitled reading first_choice (Proposer.random 3 0) sweep at_start
