-- ===== src/SetMatch/Gating.antt =====
-- What the default gate of a set match asks for (graders/set_match.py).
use selfevals.Prelude.{
  ◌==◌, String, str_eq, eq_iff, ◌≡◌, refl, ◌∙◌, sym, ap, Bool, true, false, not, List, [], ◌∷◌,
  ◌++◌, arith, Bool-cases, inl, inr, any, all, count, length, leb, set_of, count-le-length,
  if◌then◌else◌,
}
use selfevals.Graders.{is_pass}
use selfevals.Aggregation.Metrics.{Ratio}
use selfevals.SetMatch.{
  GatingDimension, SetMatchGrader, get_score, member, fraction, compute_scores,
  collect_failure_modes, at_least, grade_sets,
}

-- a set has the members of its list
member-set_of : (x : String) (xs : List String) → member (set_of xs) x ≡ member xs x
member-set_of x [] = refl
member-set_of x (y ∷ ys) = elim (Bool-cases (any (str_eq y) (set_of ys))) [
  | inl e ↦ elim (Bool-cases (str_eq x y)) [
    | inl same ↦
        let there : member (set_of ys) x ≡ true = rw ((eq_iff x y).0 same) e in
        rw e (ground (arith, there, same))
    | inr ne ↦ rw e (ground (arith, member-set_of x ys, ne))
  ]
  | inr e ↦ rw e (ground (arith, member-set_of x ys))
]

all-member :
    (P : String → Bool) (x : String) (xs : List String)
    → all P xs ≡ true
    → member xs x ≡ true
    → P x ≡ true
all-member P x [] h m = absurd (ground arith)
all-member P x (y ∷ ys) h m = elim (Bool-cases (str_eq x y)) [
  | inl same ↦ let here : P y ≡ true = ground arith in rw ((eq_iff x y).0 same) here
  | inr ne ↦ all-member P x ys (ground arith) (ground arith)
]

all-set_of : (P : String → Bool) (xs : List String) → all P (set_of xs) ≡ all P xs
all-set_of P [] = refl
all-set_of P (y ∷ ys) = elim (Bool-cases (any (str_eq y) (set_of ys))) [
  | inl e ↦ elim (Bool-cases (all P (set_of ys))) [
    | inl h ↦ rw e (ground (arith, h, all-set_of P ys, all-member P y (set_of ys) h e))
    | inr h ↦ rw e (ground (arith, h, all-set_of P ys))
  ]
  | inr e ↦ rw e (ground (arith, all-set_of P ys))
]

all-same :
    (P Q : String → Bool) (xs : List String) → ((x : String) → P x ≡ Q x) → all P xs ≡ all Q xs
all-same P Q [] h = refl
all-same P Q (x ∷ xs) h = rw (h x) (rw (all-same P Q xs h) refl)

count-all : (P : String → Bool) (xs : List String) → leb (length xs) (count P xs) ≡ all P xs
count-all P [] = ground arith
count-all P (x ∷ xs) = elim (Bool-cases (P x)) [
  | inl e ↦ rw e (ground (arith, count-all P xs))
  | inr e ↦ rw e (ground (arith, count-le-length P xs))
]

any-not-all : (P : String → Bool) (xs : List String) → any (λ x. not (P x)) xs ≡ not (all P xs)
any-not-all P [] = refl
any-not-all P (x ∷ xs) = ground (arith, any-not-all P xs)

abbrev pub whole : Ratio
whole = record { num = 1; den = 1 }

fraction-whole :
    (P : String → Bool) (xs : List String)
    → at_least (fraction (count P xs) (length xs)) whole ≡ all P xs
unfolding fraction
fraction-whole P [] = ground arith
fraction-whole P (x ∷ xs) =
    let e : (length (x ∷ xs) == 0) ≡ false = ground arith in
    rw e (ground (arith, count-all P (x ∷ xs)))

-- every expected label is a detected one
abbrev pub all_detected : List String → List String → Bool
all_detected detected expected = all (member detected) expected

all_detected-sets :
    (detected expected : List String)
    → all (member (set_of detected)) (set_of expected) ≡ all_detected detected expected
all_detected-sets detected expected =
    all-set_of (member (set_of detected)) expected
    ∙ all-same (member (set_of detected)) (member detected) expected (λ x. member-set_of x detected)

completeness-all :
    (detected expected : List String)
    → at_least (get_score (compute_scores detected expected) GatingDimension.completeness) whole
      ≡ all_detected detected expected
unfolding get_score compute_scores
completeness-all detected expected =
    fraction-whole (member (set_of detected)) (set_of expected)
    ∙ all_detected-sets detected expected

tagged :
    (missing extraneous : Bool)
    → member
        ((if missing then "set_match_missing" ∷ [] else [])
          ++ (if extraneous then "set_match_extraneous" ∷ [] else []))
        "set_match_missing"
      ≡ missing
tagged true extraneous = refl
tagged false true = refl
tagged false false = refl

missing-all :
    (detected expected : List String)
    → member (collect_failure_modes detected expected) "set_match_missing"
      ≡ not (all_detected detected expected)
unfolding collect_failure_modes
missing-all detected expected =
    let m = any-not-all (member (set_of detected)) (set_of expected) in
    let s = all_detected-sets detected expected in
    rw m (
      rw s (
        tagged (not (all_detected detected expected))
          (any (λ d. not (member (set_of expected) d)) (set_of detected))))

-- `SetMatchGrader()`
abbrev pub default_gate : Bool → SetMatchGrader
default_gate case_sensitive = record {
  gating = GatingDimension.completeness;
  threshold = whole;
  case_sensitive = case_sensitive;
}

-- A grade by the default gate, completeness of at least 1, passes exactly if every expected label is
-- detected, whatever is repeated on either side, and its failure modes have the tag
-- `set_match_missing` exactly if one is not.
pub grade_sets-all_detected :
    (case_sensitive : Bool) (detected expected : List String)
    → (is_pass (grade_sets (default_gate case_sensitive) detected expected).label
        ≡ all_detected detected expected)
      × (member
            (grade_sets (default_gate case_sensitive) detected expected).failure_modes
            "set_match_missing"
          ≡ not (all_detected detected expected))
unfolding grade_sets
grade_sets-all_detected case_sensitive detected expected =
    let c = completeness-all detected expected in
    elim (Bool-cases (
      at_least (get_score (compute_scores detected expected) GatingDimension.completeness) whole)) [
        | inl e ↦
            let a : all_detected detected expected ≡ true = sym c ∙ e in
            rw e (sym a, ap not (sym a))
        | inr e ↦
            let a : all_detected detected expected ≡ false = sym c ∙ e in
            rw e (sym a, missing-all detected expected)
      ]
