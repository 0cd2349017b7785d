-- ===== src/Trajectory/Runs.antt =====
-- The cap on calls of one tool in a row (graders/trajectory_checks.py).
use selfevals.Prelude.{
  ℕ, suc, ◌+◌, ◌≤◌, String, str_eq, eq_iff, ◌≡◌, refl, sym, ap, Bool, false, ◌||◌, inl, inr, none,
  some, List, [], ◌∷◌, arith, Bool-cases, ltb, if◌then◌else◌,
}
use selfevals.Trajectory.{consecutive_overrun}

-- how many members of the list, from its start, are the tool
abbrev pub lead : String → List String → ℕ
lead tool [] = 0
lead tool (t ∷ invoked) = if str_eq t tool then suc (lead tool invoked) else 0

-- some tool is invoked more than `cap` times in a row, from some place on
abbrev pub too_long : ℕ → List String → Bool
too_long cap [] = false
too_long cap (t ∷ invoked) = ltb cap (suc (lead t invoked)) || too_long cap invoked

overrun-too_long :
    (cap : ℕ) (tool : String) (run_len : ℕ) (invoked : List String)
    → run_len ≤ cap
    → consecutive_overrun cap (some tool) run_len invoked
      ≡ (ltb cap (run_len + lead tool invoked) || too_long cap invoked)
unfolding consecutive_overrun
overrun-too_long cap tool run_len [] h = ground arith
overrun-too_long cap tool run_len (t ∷ invoked) h = elim (Bool-cases (str_eq t tool)) [
  | inl e ↦
      let same : lead tool invoked ≡ lead t invoked =
        ap (λ k. lead k invoked) (sym ((eq_iff t tool).0 e)) in
      rw e (
        rw same (elim (Bool-cases (ltb cap (suc run_len))) [
          | inl k ↦ rw k (ground arith)
          | inr k ↦ rw (overrun-too_long cap t (suc run_len) invoked (ground arith)) (ground arith)
        ]))
  | inr e ↦ rw e (elim (Bool-cases (ltb cap 1)) [
    | inl k ↦ rw k (ground arith)
    | inr k ↦ rw (overrun-too_long cap t 1 invoked (ground arith)) (ground arith)
  ])
]

-- the loop over the calls finds the runs
pub consecutive_overrun-too_long :
    (cap : ℕ) (invoked : List String)
    → consecutive_overrun cap none 0 invoked ≡ too_long cap invoked
unfolding consecutive_overrun
consecutive_overrun-too_long cap [] = refl
consecutive_overrun-too_long cap (t ∷ invoked) = elim (Bool-cases (ltb cap 1)) [
  | inl k ↦ rw k (ground arith)
  | inr k ↦ rw (overrun-too_long cap t 1 invoked (ground arith)) (ground arith)
]
