-- ===== src/Trajectory/Retrievals.antt =====
-- When a trace repeats a retrieval (graders/trajectory_checks.py).
use selfevals.Prelude.{
  String, str_eq, eq_iff, ◌≡◌, refl, ◌∙◌, sym, ap, Bool, true, false, ◌||◌, inl, inr, Option, none,
  some, List, [], ◌∷◌, arith, Bool-cases, any, is_some,
}
use selfevals.Trajectory.{Span, span_key, retrieval_once, issued_twice, check_redundant_retrieval}

abbrev and_then : Option String → List String → List String
and_then none keys = keys
and_then (some key) keys = key ∷ keys

-- the keys of the retrievals that have one, in their order
unfoldable pub queries : List Span → List String
queries [] = []
queries (s ∷ spans) = and_then (span_key s) (queries spans)

unfoldable pub has_repeat : List String → Bool
has_repeat [] = false
has_repeat (key ∷ keys) = any (str_eq key) keys || has_repeat keys

str_eq-sym : (a b : String) → str_eq a b ≡ str_eq b a
str_eq-sym a b = elim (Bool-cases (str_eq a b)) [
  | inl e ↦ ground (arith, e, (eq_iff b a).1 (sym ((eq_iff a b).0 e)))
  | inr e ↦ elim (Bool-cases (str_eq b a)) [
    | inl h ↦ ground (arith, h, (eq_iff a b).1 (sym ((eq_iff b a).0 h)))
    | inr h ↦ ground (arith, e, h)
  ]
]

any_split :
    (P : String → Bool) (key : String) (keys : List String)
    → any (λ k. str_eq k key || P k) keys ≡ (any (str_eq key) keys || any P keys)
any_split P key [] = refl
any_split P key (k ∷ keys) =
    rw (str_eq-sym k key)
      (rw (any_split P key keys) (swap (str_eq key k) (P k) (any (str_eq key) keys) (any P keys)))
  where
    swap : (a b c d : Bool) → ((a || b) || (c || d)) ≡ ((a || c) || (b || d))
    swap true b c d = refl
    swap false true true d = refl
    swap false true false d = refl
    swap false false c d = refl

once-repeat :
    (key : Option String) (seen keys : List String) (rest : List String → Bool)
    → ((now : List String) → rest now ≡ (any (λ k. any (str_eq k) now) keys || has_repeat keys))
    → retrieval_once key seen rest
      ≡ (any (λ k. any (str_eq k) seen) (and_then key keys) || has_repeat (and_then key keys))
unfolding retrieval_once has_repeat
once-repeat none seen keys rest h = h seen
once-repeat (some key) seen keys rest h = rw (h (key ∷ seen)) (
    rw (any_split (λ k. any (str_eq k) seen) key keys) (
      shuffle (any (str_eq key) seen) (any (str_eq key) keys) (any (λ k. any (str_eq k) seen) keys)
        (has_repeat keys)))
  where
    shuffle : (a b c d : Bool) → (a || ((b || c) || d)) ≡ ((a || c) || (b || d))
    shuffle true b c d = refl
    shuffle false true true d = refl
    shuffle false true false d = refl
    shuffle false false c d = refl

issued_twice-has_repeat :
    (spans : List Span) (seen : List String)
    → issued_twice seen spans
      ≡ (any (λ k. any (str_eq k) seen) (queries spans) || has_repeat (queries spans))
unfolding issued_twice queries has_repeat
issued_twice-has_repeat [] seen = refl
issued_twice-has_repeat (s ∷ spans) seen =
    once-repeat (span_key s) seen (queries spans) (λ now. issued_twice now spans)
      (λ now. issued_twice-has_repeat spans now)

none_seen : (keys : List String) → any (λ k. false) keys ≡ false
none_seen [] = refl
none_seen (k ∷ keys) = none_seen keys

-- The grader reports a redundant retrieval exactly when two retrievals of the trace have the same
-- key, next to each other or not, where the key of a retrieval is its hash, or its pointer if the
-- hash is missing or empty, and retrievals with neither are passed over.
pub check_redundant_retrieval-has_repeat :
    (spans : List Span) → is_some (check_redundant_retrieval spans) ≡ has_repeat (queries spans)
unfolding check_redundant_retrieval
check_redundant_retrieval-has_repeat spans = elim (Bool-cases (issued_twice [] spans)) [
  | inl e ↦ rw e (sym e ∙ same)
  | inr e ↦ rw e (sym e ∙ same)
]
  where
    same : issued_twice [] spans ≡ has_repeat (queries spans)
    same =
        issued_twice-has_repeat spans []
        ∙ ap (λ b. b || has_repeat (queries spans)) (none_seen (queries spans))
