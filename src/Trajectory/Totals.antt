-- ===== src/Trajectory/Totals.antt =====
-- The cap on the calls of one tool (graders/trajectory_checks.py).
use selfevals.Prelude.{
  ℕ, suc, ◌+◌, ◌≤◌, String, str_eq, eq_iff, ◌≡◌, refl, ◌∙◌, sym, ap, Bool, true, false, inl, inr,
  ◌↔◌, some, List, [], ◌∷◌, arith, Bool-cases, any, ltb, if◌then◌else◌, count, All,
}
use selfevals.Aggregation.{Dict}
use selfevals.Trajectory.{count_tool, count_tools, total_overrun}

-- the total count of a tool in a dict, 0 when it has none
abbrev total : String → Dict ℕ → ℕ
total tool [] = 0
total tool ((t, n) ∷ counts) = if str_eq t tool then n else total tool counts

abbrev one_if : Bool → ℕ
one_if true = 1
one_if false = 0

abbrev pub calls_of : String → List String → ℕ
calls_of tool invoked = count (λ t. str_eq t tool) invoked

AtMost : (String → ℕ) → Dict ℕ → Type 0
AtMost f counts = All (λ (tool, n). n ≤ f tool) counts

distinct_from :
    (tool t other : String)
    → str_eq t tool ≡ false
    → str_eq t other ≡ true
    → str_eq tool other ≡ false
distinct_from tool t other e h = elim (Bool-cases (str_eq tool other)) [
  | inl k ↦
      let same : t ≡ tool = (eq_iff t other).0 h ∙ sym ((eq_iff tool other).0 k) in
      absurd (ground (arith, e, (eq_iff t tool).1 same))
  | inr k ↦ k
]

total-count_tool :
    (tool other : String) (counts : Dict ℕ)
    → total other (count_tool tool counts) ≡ total other counts + one_if (str_eq tool other)
unfolding count_tool
total-count_tool tool other [] = elim (Bool-cases (str_eq tool other)) [
  | inl e ↦ rw e refl
  | inr e ↦ rw e refl
]
total-count_tool tool other ((t, n) ∷ counts) = elim (Bool-cases (str_eq t tool)) [
  | inl e ↦
      let same : str_eq tool other ≡ str_eq t other =
        ap (λ k. str_eq k other) (sym ((eq_iff t tool).0 e)) in
      rw e (
        rw same (elim (Bool-cases (str_eq t other)) [
          | inl h ↦ rw h (omega arith)
          | inr h ↦ rw h (omega arith)
        ]))
  | inr e ↦ elim (Bool-cases (str_eq t other)) [
    | inl h ↦ rw e (rw h (rw (distinct_from tool t other e h) (omega arith)))
    | inr h ↦ rw e (rw h (total-count_tool tool other counts))
  ]
]

total-count_tools :
    (tool : String) (invoked : List String) (counts : Dict ℕ)
    → total tool (count_tools counts invoked) ≡ total tool counts + calls_of tool invoked
unfolding count_tools
total-count_tools tool [] counts = omega arith
total-count_tools tool (t ∷ invoked) counts =
    total-count_tools tool invoked (count_tool t counts)
    ∙ ap (λ n. n + calls_of tool invoked) (total-count_tool t tool counts)
    ∙ elim (Bool-cases (str_eq t tool)) [ inl e ↦ rw e (omega arith) | inr e ↦ rw e (omega arith) ]

AtMost-weaken :
    (f g : String → ℕ) (counts : Dict ℕ)
    → ((tool : String) → f tool ≤ g tool)
    → AtMost f counts
    → AtMost g counts
unfolding AtMost
AtMost-weaken f g [] h at = tt
AtMost-weaken f g ((t, n) ∷ counts) h (at, later) =
    let here = h t in (omega arith, AtMost-weaken f g counts h later)

count_tool-AtMost :
    (f : String → ℕ) (tool : String) (counts : Dict ℕ)
    → AtMost f counts
    → AtMost (λ t. f t + one_if (str_eq tool t)) (count_tool tool counts)
unfolding count_tool AtMost
count_tool-AtMost f tool [] at = rw ((eq_iff tool tool).1 refl) (omega arith, tt)
count_tool-AtMost f tool ((t, n) ∷ counts) (at, later) = elim (Bool-cases (str_eq t tool)) [
  | inl e ↦
      let back : str_eq tool t ≡ true = (eq_iff tool t).1 (sym ((eq_iff t tool).0 e)) in
      let here : suc n ≤ f t + one_if (str_eq tool t) = rw back (omega arith) in
      rw e
        (here, AtMost-weaken f (λ k. f k + one_if (str_eq tool k)) counts (λ k. omega arith) later)
  | inr e ↦ rw e (omega arith, count_tool-AtMost f tool counts later)
]

count_tools-AtMost :
    (f : String → ℕ) (invoked : List String) (counts : Dict ℕ)
    → AtMost f counts
    → AtMost (λ tool. f tool + calls_of tool invoked) (count_tools counts invoked)
unfolding count_tools
count_tools-AtMost f [] counts at =
    AtMost-weaken f (λ tool. f tool + 0) counts (λ tool. omega arith) at
count_tools-AtMost f (t ∷ invoked) counts at =
    AtMost-weaken (λ tool. f tool + one_if (str_eq t tool) + calls_of tool invoked)
      (λ tool. f tool + calls_of tool (t ∷ invoked)) (count_tools (count_tool t counts) invoked)
      (λ tool. elim (Bool-cases (str_eq t tool)) [
        | inl e ↦ rw e (omega arith)
        | inr e ↦ rw e (omega arith)
      ])
      (count_tools-AtMost (λ tool. f tool + one_if (str_eq t tool)) invoked (count_tool t counts)
        (count_tool-AtMost f t counts at))

total-capped :
    (cap : ℕ) (tool : String) (counts : Dict ℕ)
    → any (λ (t, n). ltb cap n) counts ≡ false
    → total tool counts ≤ cap
total-capped cap tool [] h = omega arith
total-capped cap tool ((t, n) ∷ counts) h = elim (Bool-cases (str_eq t tool)) [
  | inl e ↦ rw e (ground arith)
  | inr e ↦ rw e (total-capped cap tool counts (ground arith))
]

AtMost-capped :
    (cap : ℕ) (f : String → ℕ) (counts : Dict ℕ)
    → AtMost f counts
    → ((tool : String) → f tool ≤ cap)
    → any (λ (t, n). ltb cap n) counts ≡ false
unfolding AtMost
AtMost-capped cap f [] at h = refl
AtMost-capped cap f ((t, n) ∷ counts) (at, later) h =
    let here = h t in let rest = AtMost-capped cap f counts later h in ground arith

-- the counts of the dict are the numbers of calls
pub total_overrun-calls_of :
    (cap : ℕ) (invoked : List String)
    → (total_overrun (some cap) invoked ≡ false) ↔ ((tool : String) → calls_of tool invoked ≤ cap)
unfolding total_overrun AtMost
total_overrun-calls_of cap invoked = (
  λ h tool.
      let capped = total-capped cap tool (count_tools [] invoked) h in
      let counted = total-count_tools tool invoked [] in omega arith,
  λ h.
      AtMost-capped cap (λ tool. 0 + calls_of tool invoked) (count_tools [] invoked)
        (count_tools-AtMost (λ tool. 0) invoked [] tt) (λ tool. let k = h tool in omega arith),
)
