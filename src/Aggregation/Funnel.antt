-- ===== src/Aggregation/Funnel.antt =====
-- optimization/aggregator.py, `_FunnelAccumulator`, `FunnelNode` and `_rollup_funnel`: the breakdown
-- trees of all cases are merged by key.
use selfevals.Prelude.{ℕ, ◌+◌, String, str_eq, Option, none, some, List, [], ◌∷◌, if◌then◌else◌}
use selfevals.Graders.{GradeLabel, BreakdownNode, BreakdownNodes, Floats}
use selfevals.Aggregation.{CaseOutcome, Dict, update}

-- the value of a member of the enum (graders/base.py, `GradeLabel`)
abbrev pub label_value : GradeLabel → String
label_value GradeLabel.pass = "pass"
label_value GradeLabel.fail = "fail"
label_value GradeLabel.partial = "partial"
label_value GradeLabel.error = "error"
label_value GradeLabel.skipped = "skipped"

-- `Counter`
abbrev pub one_more : Option ℕ → ℕ
one_more none = 1
one_more (some n) = n + 1

unfoldable pub count_in : List String → Dict ℕ → Dict ℕ
count_in [] counts = counts
count_in (mode ∷ modes) counts = count_in modes (update mode one_more counts)

-- the fields of an accumulator, its children apart
pub record Tally (F : Type 0) : Type 0 where
  pub key : String
  pub count : ℕ
  pub weighted_score_sum : F
  pub scored_weight : F
  pub total_weight : F
  pub label_counts : Dict ℕ
  pub failure_mode_counts : Dict ℕ

mutual
  pub data Accumulator (F : Type 0) : Type 0 where
    acc : Tally F → Accumulators F → Accumulator F

  pub data Accumulators (F : Type 0) : Type 0 where
    no_acc : Accumulators F
    item : String → Accumulator F → Accumulators F → Accumulators F

-- a frozen node: its mean score is absent where nothing scored
pub record Rolled (F : Type 0) : Type 0 where
  pub key : String
  pub count : ℕ
  pub mean_score : Option F
  pub total_weight : F
  pub label_counts : Dict ℕ
  pub failure_mode_counts : Dict ℕ

mutual
  pub data FunnelNode (F : Type 0) : Type 0 where
    funnel : Rolled F → FunnelNodes F → FunnelNode F

  pub data FunnelNodes (F : Type 0) : Type 0 where
    no_funnel : FunnelNodes F
    entry : String → FunnelNode F → FunnelNodes F → FunnelNodes F

abbrev pub node_key : {F : Type 0} → BreakdownNode F → String
node_key (BreakdownNode.node key label score weight reason modes children) = key

module _ {F : Type 0} (fl : Floats F) where
  abbrev pub fresh : String → Accumulator F
  fresh key =
      acc
        (record {
          key = key;
          count = 0;
          weighted_score_sum = fl.zero;
          scored_weight = fl.zero;
          total_weight = fl.zero;
          label_counts = [];
          failure_mode_counts = [];
        })
        no_acc

  -- `children.get(key)`, or a fresh accumulator put there, and then its change
  unfoldable pub add_at : String → (Accumulator F → Accumulator F) → Accumulators F → Accumulators F
  add_at key change no_acc = item key (change (fresh key)) no_acc
  add_at key change (item k a rest) =
      if str_eq k key then item k (change a) rest else item k a (add_at key change rest)

  abbrev pub add_score : Option F → F → F → F
  add_score none weight total = total
  add_score (some score) weight total = fl.add total (fl.mul score weight)

  abbrev pub add_scored : Option F → F → F → F
  add_scored none weight total = total
  add_scored (some score) weight total = fl.add total weight

  abbrev pub add_label : Option GradeLabel → Dict ℕ → Dict ℕ
  add_label none counts = counts
  add_label (some label) counts = update (label_value label) one_more counts

  -- the part of `add` before the children
  unfoldable pub add_tally : Option GradeLabel → Option F → F → List String → Tally F → Tally F
  unfolding count_in
  add_tally label score weight modes t = record t {
    count = t.count + 1;
    total_weight = fl.add t.total_weight weight;
    weighted_score_sum = add_score score weight t.weighted_score_sum;
    scored_weight = add_scored score weight t.scored_weight;
    label_counts = add_label label t.label_counts;
    failure_mode_counts = count_in modes t.failure_mode_counts;
  }

  unfoldable mutual
    unfolding add_tally add_at

    pub add : BreakdownNode F → Accumulator F → Accumulator F
    add (BreakdownNode.node key label score weight reason modes children) (acc t accs) =
        acc (add_tally label score weight modes t) (add_children children accs)

    pub add_children : BreakdownNodes F → Accumulators F → Accumulators F
    add_children BreakdownNodes.leaf accs = accs
    add_children (BreakdownNodes.more child children) accs =
        add_children children (add_at (node_key child) (λ a. add child a) accs)

  unfoldable pub rolled : Tally F → Rolled F
  rolled t = record {
    key = t.key;
    count = t.count;
    mean_score =
        if fl.is_zero t.scored_weight
        then none
        else some (fl.div t.weighted_score_sum t.scored_weight);
    total_weight = t.total_weight;
    label_counts = t.label_counts;
    failure_mode_counts = t.failure_mode_counts;
  }

  unfoldable mutual
    unfolding rolled

    pub freeze : Accumulator F → FunnelNode F
    freeze (acc t accs) = funnel (rolled t) (freeze_children accs)

    pub freeze_children : Accumulators F → FunnelNodes F
    freeze_children no_acc = no_funnel
    freeze_children (item key a rest) = entry key (freeze a) (freeze_children rest)

  unfoldable pub add_breakdowns : List (BreakdownNode F) → Accumulators F → Accumulators F
  unfolding add add_at
  add_breakdowns [] roots = roots
  add_breakdowns (b ∷ bs) roots = add_breakdowns bs (add_at (node_key b) (add b) roots)

  unfoldable pub add_outcomes : List (CaseOutcome F) → Accumulators F → Accumulators F
  unfolding add_breakdowns
  add_outcomes [] roots = roots
  add_outcomes (o ∷ os) roots = add_outcomes os (add_breakdowns o.breakdowns roots)

  unfoldable pub rollup_funnel : List (CaseOutcome F) → FunnelNodes F
  unfolding add_outcomes freeze_children
  rollup_funnel outcomes = freeze_children (add_outcomes outcomes no_acc)
