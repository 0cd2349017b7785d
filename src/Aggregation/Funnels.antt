-- ===== src/Aggregation/Funnels.antt =====
-- The funnel of an iteration loses no breakdown node (optimization/aggregator.py, `_rollup_funnel`).
use selfevals.Prelude.{
  ℕ, ◌+◌, String, str_eq, ◌≡◌, refl, List, [], ◌∷◌, arith, Bool-cases, inl, inr,
}
use selfevals.Graders.{BreakdownNode, BreakdownNodes, Floats}
use selfevals.Aggregation.{CaseOutcome}
use selfevals.Aggregation.Funnel.{
  Accumulator, Accumulators, FunnelNode, FunnelNodes, fresh, node_key, add_at, add_tally, add,
  add_children, rolled, freeze, freeze_children, add_breakdowns, add_outcomes, rollup_funnel,
}

-- the nodes of a breakdown tree
unfoldable mutual
  pub size : {F : Type 0} → BreakdownNode F → ℕ
  size (BreakdownNode.node key label score weight reason modes children) = sizes children + 1

  pub sizes : {F : Type 0} → BreakdownNodes F → ℕ
  sizes BreakdownNodes.leaf = 0
  sizes (BreakdownNodes.more child children) = size child + sizes children

abbrev pub size_all : {F : Type 0} → List (BreakdownNode F) → ℕ
size_all [] = 0
size_all (b ∷ bs) = size b + size_all bs

abbrev pub size_outcomes : {F : Type 0} → List (CaseOutcome F) → ℕ
size_outcomes [] = 0
size_outcomes (o ∷ os) = size_all o.breakdowns + size_outcomes os

-- the counts of a forest, all levels together
unfoldable mutual
  total : {F : Type 0} → Accumulator F → ℕ
  total (Accumulator.acc t accs) = t.count + totals accs

  totals : {F : Type 0} → Accumulators F → ℕ
  totals Accumulators.no_acc = 0
  totals (Accumulators.item key a rest) = total a + totals rest

unfoldable mutual
  pub counted : {F : Type 0} → FunnelNode F → ℕ
  counted (FunnelNode.funnel r nodes) = r.count + counted_all nodes

  pub counted_all : {F : Type 0} → FunnelNodes F → ℕ
  counted_all FunnelNodes.no_funnel = 0
  counted_all (FunnelNodes.entry key f rest) = counted f + counted_all rest

module _ {F : Type 0} (fl : Floats F) where
  totals-add_at :
      (key : String) (change : Accumulator F → Accumulator F) (n : ℕ) (accs : Accumulators F)
      → ((a : Accumulator F) → total (change a) ≡ total a + n)
      → totals (add_at fl key change accs) ≡ totals accs + n
  unfolding add_at totals total
  totals-add_at key change n Accumulators.no_acc h = omega (arith, h (fresh fl key))
  totals-add_at key change n (Accumulators.item k a rest) h = elim (Bool-cases (str_eq k key)) [
    | inl e ↦ rw e (omega (arith, h a))
    | inr e ↦ rw e (omega (arith, totals-add_at key change n rest h))
  ]

  mutual
    unfolding add total totals size sizes add_tally

    total-add : (b : BreakdownNode F) (a : Accumulator F) → total (add fl b a) ≡ total a + size b
    total-add (BreakdownNode.node key label score weight reason modes children)
          (Accumulator.acc t accs) =
        omega (arith, totals-add_children children accs)

    totals-add_children :
        (bs : BreakdownNodes F) (accs : Accumulators F)
        → totals (add_children fl bs accs) ≡ totals accs + sizes bs
    totals-add_children BreakdownNodes.leaf accs = omega arith
    totals-add_children (BreakdownNodes.more b bs) accs = omega (
      arith,
      totals-add_at (node_key b) (λ a. add fl b a) (size b) accs (λ a. total-add b a),
      totals-add_children bs (add_at fl (node_key b) (λ a. add fl b a) accs),
    )

  mutual
    unfolding freeze counted counted_all total totals rolled

    counted-freeze : (a : Accumulator F) → counted (freeze fl a) ≡ total a
    counted-freeze (Accumulator.acc t accs) = omega (arith, counted-freeze_children accs)

    counted-freeze_children :
        (accs : Accumulators F) → counted_all (freeze_children fl accs) ≡ totals accs
    counted-freeze_children Accumulators.no_acc = refl
    counted-freeze_children (Accumulators.item key a rest) =
        omega (arith, counted-freeze a, counted-freeze_children rest)

  totals-add_breakdowns :
      (bs : List (BreakdownNode F)) (roots : Accumulators F)
      → totals (add_breakdowns fl bs roots) ≡ totals roots + size_all bs
  unfolding add_breakdowns
  totals-add_breakdowns [] roots = omega arith
  totals-add_breakdowns (b ∷ bs) roots = omega (
    arith,
    totals-add_at (node_key b) (add fl b) (size b) roots (total-add b),
    totals-add_breakdowns bs (add_at fl (node_key b) (add fl b) roots),
  )

  totals-add_outcomes :
      (os : List (CaseOutcome F)) (roots : Accumulators F)
      → totals (add_outcomes fl os roots) ≡ totals roots + size_outcomes os
  unfolding add_outcomes
  totals-add_outcomes [] roots = omega arith
  totals-add_outcomes (o ∷ os) roots = omega (
    arith,
    totals-add_breakdowns o.breakdowns roots,
    totals-add_outcomes os (add_breakdowns fl o.breakdowns roots),
  )

  -- The counts of the rolled-up funnel, over all its nodes at all depths, sum to the number of
  -- breakdown nodes of all cases: merging by key neither drops a node nor counts one twice.
  pub counted-rollup_funnel :
      (os : List (CaseOutcome F)) → counted_all (rollup_funnel fl os) ≡ size_outcomes os
  unfolding rollup_funnel totals
  counted-rollup_funnel os = omega (
    arith,
    counted-freeze_children (add_outcomes fl os Accumulators.no_acc),
    totals-add_outcomes os Accumulators.no_acc,
  )
