-- ===== src/Aggregation/Confusion.antt =====
-- graders/_confusion.py: the confusion matrix of pairs of an expected and a predicted class, and the
-- precision, recall and F1 of each class. Quotients are exact; the order of strings by which the
-- labels are sorted is the language's, an argument.
use selfevals.Prelude.{
  ℕ, ◌+◌, ◌*◌, ◌==◌, String, str_eq, Bool, ◌&&◌, Option, none, some, List, [], ◌∷◌, map, length,
  sort_with, insert_new, if◌then◌else◌,
}
use selfevals.Aggregation.{Dict}
use selfevals.Aggregation.Metrics.{Ratio, nothing}

abbrev pub Pair : Type 0
Pair = String × String

abbrev pub same_pair : Pair → Pair → Bool
same_pair p q = str_eq p.0 q.0 && str_eq p.1 q.1

-- `Counter[tuple[str, str]]`
abbrev pub Matrix : Type 0
Matrix = List (Pair × ℕ)

-- confusion[pair] += 1
unfoldable pub bump : Pair → Matrix → Matrix
bump p [] = (p, 1) ∷ []
bump p ((q, n) ∷ cells) = if same_pair q p then (q, n + 1) ∷ cells else (q, n) ∷ bump p cells

unfoldable pub bump_all : List Pair → Matrix → Matrix
unfolding bump
bump_all [] m = m
bump_all (p ∷ ps) m = bump_all ps (bump p m)

-- confusion[pair], 0 where it is absent
unfoldable pub cell : Pair → Matrix → ℕ
cell p [] = 0
cell p ((q, n) ∷ cells) = if same_pair q p then n else cell p cells

-- the sum of the cells whose pair passes a test
unfoldable pub sum_cells : (Pair → Bool) → Matrix → ℕ
sum_cells test [] = 0
sum_cells test ((q, n) ∷ cells) =
    let rest = sum_cells test cells in if test q then n + rest else rest

unfoldable pub safe_div : ℕ → ℕ → Option Ratio
safe_div num den = if den == 0 then none else some (record { num = num; den = den })

-- 2pr / (p + r), the fractions multiplied out
unfoldable pub f1_score : Option Ratio → Option Ratio → Option Ratio
f1_score none recall = none
f1_score (some p) none = none
f1_score (some p) (some r) =
    if p.num * r.den + r.num * p.den == 0
    then none
    else some (record { num = 2 * (p.num * r.num); den = p.num * r.den + r.num * p.den })

unfoldable pub precision_of : Matrix → String → Option Ratio
unfolding safe_div
precision_of m label = safe_div (cell (label, label) m) (sum_cells (λ p. str_eq p.1 label) m)

unfoldable pub recall_of : Matrix → String → Option Ratio
unfolding safe_div
recall_of m label = safe_div (cell (label, label) m) (sum_cells (λ p. str_eq p.0 label) m)

unfoldable pub f1_of : Matrix → String → Option Ratio
unfolding f1_score precision_of recall_of
f1_of m label = f1_score (precision_of m label) (recall_of m label)

-- the set of both sides of the cells
unfoldable pub classes : Matrix → List String
classes [] = []
classes ((q, n) ∷ cells) = insert_new q.0 (insert_new q.1 (classes cells))

abbrev pub add_ratio : Ratio → Ratio → Ratio
add_ratio a b = record { num = a.num * b.den + b.num * a.den; den = a.den * b.den }

unfoldable pub defined : List (Option Ratio) → List Ratio
defined [] = []
defined (none ∷ fs) = defined fs
defined (some f ∷ fs) = f ∷ defined fs

unfoldable pub sum_ratios : List Ratio → Ratio
sum_ratios [] = nothing
sum_ratios (f ∷ fs) = add_ratio f (sum_ratios fs)

unfoldable pub mean_ratio : List Ratio → Option Ratio
unfolding sum_ratios
mean_ratio [] = none
mean_ratio (f ∷ fs) =
    let total = sum_ratios (f ∷ fs) in
    some (record { num = total.num; den = total.den * length (f ∷ fs) })

pub record ConfusionReport : Type 0 where
  pub n_pairs : ℕ
  pub accuracy : Ratio
  pub macro_f1 : Option Ratio
  pub labels : List String
  pub confusion : Matrix
  pub per_label_precision : Dict (Option Ratio)
  pub per_label_recall : Dict (Option Ratio)
  pub per_label_f1 : Dict (Option Ratio)

unfoldable pub correct : List Pair → ℕ
correct [] = 0
correct (p ∷ ps) = let rest = correct ps in if str_eq p.0 p.1 then rest + 1 else rest

module _ (str_le : String → String → Bool) where
  unfoldable pub report_of : List Pair → Matrix → List String → ConfusionReport
  unfolding precision_of recall_of f1_of mean_ratio defined correct
  report_of pairs m labels = record {
    n_pairs = length pairs;
    accuracy = record { num = correct pairs; den = length pairs };
    macro_f1 = mean_ratio (defined (map (f1_of m) labels));
    labels = labels;
    confusion = m;
    per_label_precision = map (λ l. (l, precision_of m l)) labels;
    per_label_recall = map (λ l. (l, recall_of m l)) labels;
    per_label_f1 = map (λ l. (l, f1_of m l)) labels;
  }

  unfoldable pub confusion_from_pairs : List Pair → ConfusionReport
  unfolding report_of bump_all classes
  confusion_from_pairs [] = record {
    n_pairs = 0;
    accuracy = nothing;
    macro_f1 = none;
    labels = [];
    confusion = [];
    per_label_precision = [];
    per_label_recall = [];
    per_label_f1 = [];
  }
  confusion_from_pairs (p ∷ ps) =
      let m = bump_all (p ∷ ps) [] in report_of (p ∷ ps) m (sort_with str_le (classes m))
