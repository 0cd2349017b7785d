-- ===== src/Trace/Rows/Keys.antt =====
-- Rows by their keys: what is appended, deleted and ordered (the tables of trace spans).
use selfevals.Prelude.{
  ℕ, suc, String, str_eq, eq_iff, ◌≡◌, refl, ◌∙◌, ap, Bool, true, false, List, [], ◌∷◌, ◌++◌, map,
  select, sort_with, insert_with, leb, arith, Bool-cases, inl, inr, All,
}
use mathlib.Core.List.{append-nil, map-append}
use selfevals.Trace.Rows.{Keyed, of_span, where_span, where_trace, without_trace}

module _ {ℓ} {A : Type ℓ} where
  pub select-append :
      (test : A → Bool) (xs ys : List A) → select test (xs ++ ys) ≡ select test xs ++ select test ys
  select-append test [] ys = refl
  select-append test (x ∷ xs) ys = elim (Bool-cases (test x)) [
    | inl e ↦ rw e (ap (λ zs. x ∷ zs) (select-append test xs ys))
    | inr e ↦ rw e (select-append test xs ys)
  ]

  pub select-all :
      (test : A → Bool) (xs : List A) → All (λ x. test x ≡ true) xs → select test xs ≡ xs
  select-all test [] h = refl
  select-all test (x ∷ xs) (h, hs) = rw h (ap (λ zs. x ∷ zs) (select-all test xs hs))

  pub select-none :
      (test : A → Bool) (xs : List A) → All (λ x. test x ≡ false) xs → select test xs ≡ []
  select-none test [] h = refl
  select-none test (x ∷ xs) (h, hs) = rw h (select-none test xs hs)

  -- a list in order stays as it is
  abbrev pub InOrderBy : (A → ℕ) → ℕ → List A → Type 0
  InOrderBy key n [] = Unit
  InOrderBy key n (x ∷ xs) = (key x ≡ n) × InOrderBy key (suc n) xs

  insert_with-front :
      (key : A → ℕ) (n : ℕ) (x : A) (xs : List A)
      → key x ≡ n
      → InOrderBy key (suc n) xs
      → insert_with (λ a b. leb (key a) (key b)) x xs ≡ x ∷ xs
  insert_with-front key n x [] e h = refl
  insert_with-front key n x (y ∷ ys) e (h, hs) =
      let first : leb (key x) (key y) ≡ true = ground arith in rw first refl

  pub sort_with-in_order :
      (key : A → ℕ) (n : ℕ) (xs : List A)
      → InOrderBy key n xs
      → sort_with (λ a b. leb (key a) (key b)) xs ≡ xs
  sort_with-in_order key n [] h = refl
  sort_with-in_order key n (x ∷ xs) (e, hs) =
      rw (sort_with-in_order key (suc n) xs hs) (insert_with-front key n x xs e hs)

-- rows of one trace are not those of another
pub other_trace : (a b c : String) → str_eq a b ≡ false → str_eq c a ≡ true → str_eq c b ≡ false
other_trace a b c ne e = rw ((eq_iff c a).0 e) ne

module _ {R : Type 0} where
  pub where_span-append :
      (trace_id span_id : String) (xs ys : List (Keyed R))
      → where_span trace_id span_id (xs ++ ys)
        ≡ where_span trace_id span_id xs ++ where_span trace_id span_id ys
  where_span-append trace_id span_id xs ys =
      ap (map (λ (r : Keyed R). r.columns)) (select-append (of_span trace_id span_id) xs ys)
      ∙ map-append (λ (r : Keyed R). r.columns) (select (of_span trace_id span_id) xs)
          (select (of_span trace_id span_id) ys)

  pub where_span-without_self :
      (trace_id span_id : String) (xs : List (Keyed R))
      → where_span trace_id span_id (without_trace trace_id xs) ≡ []
  where_span-without_self trace_id span_id [] = refl
  where_span-without_self trace_id span_id (x ∷ xs) =
      elim (Bool-cases (str_eq x.trace_id trace_id)) [
        | inl e ↦ rw e (where_span-without_self trace_id span_id xs)
        | inr e ↦ rw e (rw e (where_span-without_self trace_id span_id xs))
      ]

  pub where_span-without_other :
      (trace_id other span_id : String) (xs : List (Keyed R))
      → str_eq trace_id other ≡ false
      → where_span other span_id (without_trace trace_id xs) ≡ where_span other span_id xs
  where_span-without_other trace_id other span_id [] ne = refl
  where_span-without_other trace_id other span_id (x ∷ xs) ne =
      elim (Bool-cases (str_eq x.trace_id trace_id)) [
        | inl e ↦ rw e (
            rw (other_trace trace_id other x.trace_id ne e)
              (where_span-without_other trace_id other span_id xs ne))
        | inr e ↦ rw e (elim (Bool-cases (of_span other span_id x)) [
          | inl h ↦
              rw h
                (ap (λ zs. x.columns ∷ zs) (where_span-without_other trace_id other span_id xs ne))
          | inr h ↦ rw h (where_span-without_other trace_id other span_id xs ne)
        ])
      ]

  pub where_trace-without_self :
      (trace_id : String) (xs : List (Keyed R))
      → where_trace trace_id (without_trace trace_id xs) ≡ []
  where_trace-without_self trace_id [] = refl
  where_trace-without_self trace_id (x ∷ xs) = elim (Bool-cases (str_eq x.trace_id trace_id)) [
    | inl e ↦ rw e (where_trace-without_self trace_id xs)
    | inr e ↦ rw e (rw e (where_trace-without_self trace_id xs))
  ]

  pub where_trace-without_other :
      (trace_id other : String) (xs : List (Keyed R))
      → str_eq trace_id other ≡ false
      → where_trace other (without_trace trace_id xs) ≡ where_trace other xs
  where_trace-without_other trace_id other [] ne = refl
  where_trace-without_other trace_id other (x ∷ xs) ne =
      elim (Bool-cases (str_eq x.trace_id trace_id)) [
        | inl e ↦ rw e (
            rw (other_trace trace_id other x.trace_id ne e)
              (where_trace-without_other trace_id other xs ne))
        | inr e ↦ rw e (elim (Bool-cases (str_eq x.trace_id other)) [
          | inl h ↦ rw h (ap (λ zs. x ∷ zs) (where_trace-without_other trace_id other xs ne))
          | inr h ↦ rw h (where_trace-without_other trace_id other xs ne)
        ])
      ]

  pub where_span-other :
      (trace_id span_id : String) (xs ys : List (Keyed R))
      → All (λ r. of_span trace_id span_id r ≡ false) ys
      → where_span trace_id span_id (xs ++ ys) ≡ where_span trace_id span_id xs
  where_span-other trace_id span_id xs ys h =
      where_span-append trace_id span_id xs ys
      ∙ ap (λ zs. where_span trace_id span_id xs ++ map (λ (r : Keyed R). r.columns) zs)
          (select-none (of_span trace_id span_id) ys h)
      ∙ append-nil (where_span trace_id span_id xs)

  pub where_span-own :
      (trace_id span_id : String) (xs ys : List (Keyed R))
      → where_span trace_id span_id xs ≡ []
      → All (λ r. of_span trace_id span_id r ≡ true) ys
      → where_span trace_id span_id (xs ++ ys) ≡ map (λ (r : Keyed R). r.columns) ys
  where_span-own trace_id span_id xs ys e h =
      where_span-append trace_id span_id xs ys
      ∙ ap (λ zs. zs ++ where_span trace_id span_id ys) e
      ∙ ap (map (λ (r : Keyed R). r.columns)) (select-all (of_span trace_id span_id) ys h)
