-- ===== src/Trajectory/Order.antt =====
-- The order of tools that the grader accepts (graders/trajectory_checks.py).
use selfevals.Prelude.{
  ℕ, String, str_eq, eq_iff, ◌≡◌, refl, ◌∙◌, ap, Bool, true, false, not, ◌||◌, ◌⊎◌, ◌↔◌, inl, inr,
  Option, none, some, List, [], ◌∷◌, arith, Bool-cases, any, is_some,
}
use selfevals.Trajectory.{
  Span, Diagnostic, fm_wrong_tool_order, tools_invoked, token_in, all_in, is_ordered_subsequence,
  check_tool_order, check_tool_loop, check_missing_routing, check_redundant_retrieval, append_found,
  consecutive_overrun, total_overrun, issued_twice, is_decision, is_handoff, diagnose,
}

-- `needle` is what some members of `haystack` spell, in their order
unfoldable pub InOrder : List String → List String → Type 0
InOrder [] haystack = Unit
InOrder (token ∷ needle) [] = ⊥
InOrder (token ∷ needle) (x ∷ haystack) =
    ((x ≡ token) × InOrder needle haystack) ⊎ InOrder (token ∷ needle) haystack

abbrev pub has_mode : String → List Diagnostic → Bool
has_mode mode found = any (λ (d : Diagnostic). str_eq mode d.failure_mode) found

abbrev mode_of : String → Option Diagnostic → Bool
mode_of mode none = false
mode_of mode (some d) = str_eq mode d.failure_mode

InOrder-skip :
    (needle haystack : List String) (x : String)
    → InOrder needle haystack
    → InOrder needle (x ∷ haystack)
unfolding InOrder
InOrder-skip [] haystack x h = tt
InOrder-skip (token ∷ needle) haystack x h = inr h

InOrder-tail :
    (token : String) (needle haystack : List String)
    → InOrder (token ∷ needle) haystack
    → InOrder needle haystack
unfolding InOrder
InOrder-tail token needle [] h = absurd h
InOrder-tail token needle (x ∷ haystack) (inl (e, h)) = InOrder-skip needle haystack x h
InOrder-tail token needle (x ∷ haystack) (inr h) =
    InOrder-skip needle haystack x (InOrder-tail token needle haystack h)

-- the first hit of a token leaves the most behind it
token_in-InOrder :
    (token : String) (needle haystack : List String)
    → InOrder (token ∷ needle) haystack
    → (left : List String) × (token_in token haystack ≡ some left) × InOrder needle left
unfolding token_in InOrder
token_in-InOrder token needle [] h = absurd h
token_in-InOrder token needle (x ∷ haystack) h = elim (Bool-cases (str_eq x token)) [
  | inl e ↦ (haystack, rw e refl, rest h)
  | inr e ↦ rw e (token_in-InOrder token needle haystack (later e h))
]
  where
    rest :
        ((x ≡ token) × InOrder needle haystack) ⊎ InOrder (token ∷ needle) haystack
        → InOrder needle haystack
    rest (inl (e, h)) = h
    rest (inr h) = InOrder-tail token needle haystack h

    later :
        str_eq x token ≡ false
        → ((x ≡ token) × InOrder needle haystack) ⊎ InOrder (token ∷ needle) haystack
        → InOrder (token ∷ needle) haystack
    later ne (inl (e, h)) = absurd (ground (arith, (eq_iff x token).1 e))
    later ne (inr h) = h

InOrder-token_in :
    (token : String) (needle haystack left : List String)
    → token_in token haystack ≡ some left
    → InOrder needle left
    → InOrder (token ∷ needle) haystack
unfolding token_in InOrder
InOrder-token_in token needle [] left e h = absurd (ground arith)
InOrder-token_in token needle (x ∷ haystack) left e h = elim (Bool-cases (str_eq x token)) [
  | inl same ↦ let here : haystack ≡ left = ground arith in inl ((eq_iff x token).0 same, rw here h)
  | inr ne ↦ inr (InOrder-token_in token needle haystack left (ground arith) h)
]

all_in-InOrder :
    (needle haystack : List String)
    → InOrder needle haystack
    → is_some (all_in needle haystack) ≡ true
unfolding all_in InOrder
all_in-InOrder [] haystack h = refl
all_in-InOrder (token ∷ needle) haystack h =
    let (left, e, rest) = token_in-InOrder token needle haystack h in
    rw e (all_in-InOrder needle left rest)

InOrder-all_in :
    (needle haystack : List String)
    → is_some (all_in needle haystack) ≡ true
    → InOrder needle haystack
unfolding all_in InOrder
InOrder-all_in [] haystack h = tt
InOrder-all_in (token ∷ needle) haystack h =
    by_hit (λ left k. InOrder-all_in needle left k) (token_in token haystack) refl h
  where
    by_hit :
        ((left : List String) → is_some (all_in needle left) ≡ true → InOrder needle left)
        → (hit : Option (List String)) → token_in token haystack ≡ hit
        → is_some (all_in (token ∷ needle) haystack) ≡ true
        → InOrder (token ∷ needle) haystack
    by_hit later none e k = absurd (ground (arith, e, k))
    by_hit later (some left) e k =
        InOrder-token_in token needle haystack left e (later left (ground (arith, e, k)))

has_mode-append_found :
    (mode : String) (checks : List (Option Diagnostic))
    → has_mode mode (append_found checks) ≡ any (mode_of mode) checks
unfolding append_found
has_mode-append_found mode [] = refl
has_mode-append_found mode (none ∷ checks) = has_mode-append_found mode checks
has_mode-append_found mode (some d ∷ checks) = rw (has_mode-append_found mode checks) refl

order-check :
    (invoked expected : List String)
    → mode_of fm_wrong_tool_order (check_tool_order invoked expected)
      ≡ not (is_ordered_subsequence expected invoked)
unfolding check_tool_order is_ordered_subsequence all_in
order-check invoked [] = refl
order-check invoked (tool ∷ expected) =
    elim (Bool-cases (is_ordered_subsequence (tool ∷ expected) invoked)) [
      | inl e ↦ rw e refl
      | inr e ↦ rw e refl
    ]

loop-check :
    (invoked : List String) (max_consecutive : ℕ) (max_total : Option ℕ)
    → mode_of fm_wrong_tool_order (check_tool_loop invoked max_consecutive max_total) ≡ false
unfolding check_tool_loop
loop-check invoked max_consecutive max_total =
    elim (Bool-cases
      (consecutive_overrun max_consecutive none 0 invoked || total_overrun max_total invoked)) [
        | inl e ↦ rw e refl
        | inr e ↦ rw e refl
      ]

routing-check :
    (spans : List Span) (expected : Bool)
    → mode_of fm_wrong_tool_order (check_missing_routing spans expected) ≡ false
unfolding check_missing_routing
routing-check spans expected = elim (Bool-cases (any is_decision spans)) [
  | inl d ↦ rw d refl
  | inr d ↦ elim (Bool-cases (any is_handoff spans || expected)) [
    | inl h ↦ rw d (rw h refl)
    | inr h ↦ rw d (rw h refl)
  ]
]

retrieval-check :
    (spans : List Span) → mode_of fm_wrong_tool_order (check_redundant_retrieval spans) ≡ false
unfolding check_redundant_retrieval
retrieval-check spans = elim (Bool-cases (issued_twice [] spans)) [
  | inl e ↦ rw e refl
  | inr e ↦ rw e refl
]

module _ (spans : List Span) (expected : List String) (max_consecutive : ℕ) (max_total : Option ℕ)
    (routing : Bool) where
  diagnose-is_ordered_subsequence :
      has_mode fm_wrong_tool_order (diagnose spans expected max_consecutive max_total routing)
      ≡ not (is_ordered_subsequence expected (tools_invoked spans))
  unfolding diagnose
  diagnose-is_ordered_subsequence =
      has_mode-append_found fm_wrong_tool_order (
        check_tool_order (tools_invoked spans) expected
        ∷ check_tool_loop (tools_invoked spans) max_consecutive max_total
        ∷ check_missing_routing spans routing
        ∷ check_redundant_retrieval spans
        ∷ [])
      ∙ rw (order-check (tools_invoked spans) expected) (
          rw (loop-check (tools_invoked spans) max_consecutive max_total)
            (rw (routing-check spans routing) (rw (retrieval-check spans) (ground arith))))

  -- For every trace and every setting of the grader: the diagnostics do not report a wrong order of
  -- tools exactly when the expected tools occur among the invoked ones in their order, other calls
  -- between them allowed. No other check ever reports this failure mode.
  pub diagnose-InOrder :
      (has_mode fm_wrong_tool_order (diagnose spans expected max_consecutive max_total routing)
        ≡ false)
      ↔ InOrder expected (tools_invoked spans)
  unfolding is_ordered_subsequence
  diagnose-InOrder = (
    λ h.
        InOrder-all_in expected (tools_invoked spans)
          (ground (arith, h, diagnose-is_ordered_subsequence)),
    λ h. diagnose-is_ordered_subsequence ∙ ap not (all_in-InOrder expected (tools_invoked spans) h),
  )
