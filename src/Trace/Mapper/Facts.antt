-- ===== src/Trace/Mapper/Facts.antt =====
-- The child rows of a trace beside its spans (trace_write.py, trace_build.py), in their order.
use selfevals.Prelude.{
  ℕ, suc, String, str_eq, eq_iff, ◌≡◌, refl, ◌∙◌, ap, Bool, true, false, List, [], ◌∷◌, ◌++◌, map,
  select, sort_with, leb, All, Bool-cases, inl, inr,
}
use mathlib.Core.List.{append-nil}
use selfevals.Trace.Rows.Keys.{
  select-append, select-all, select-none, InOrderBy, sort_with-in_order, other_trace,
}
use selfevals.Trace.Mapper.{Fact, fact_rows, without_facts, facts_of}

module _ {R : Type 0} (t : String) where
  abbrev of_trace : String → List (Fact R) → List (Fact R)
  of_trace id table = select (λ (r : Fact R). str_eq r.trace_id id) table

  without_self : (table : List (Fact R)) → of_trace t (without_facts t table) ≡ []
  without_self [] = refl
  without_self (r ∷ rows) = elim (Bool-cases (str_eq r.trace_id t)) [
    | inl e ↦ rw e (without_self rows)
    | inr e ↦ rw e (rw e (without_self rows))
  ]

  without_other :
      (other : String) (table : List (Fact R))
      → str_eq t other ≡ false
      → of_trace other (without_facts t table) ≡ of_trace other table
  without_other other [] ne = refl
  without_other other (r ∷ rows) ne = elim (Bool-cases (str_eq r.trace_id t)) [
    | inl e ↦ rw e (rw (other_trace t other r.trace_id ne e) (without_other other rows ne))
    | inr e ↦ rw e (elim (Bool-cases (str_eq r.trace_id other)) [
      | inl h ↦ rw h (ap (λ zs. r ∷ zs) (without_other other rows ne))
      | inr h ↦ rw h (without_other other rows ne)
    ])
  ]

  fact_rows-of_trace :
      (other : String) (b : Bool) (index : ℕ) (cs : List R)
      → str_eq t other ≡ b
      → All (λ (r : Fact R). str_eq r.trace_id other ≡ b) (fact_rows t index cs)
  fact_rows-of_trace other b index [] e = tt
  fact_rows-of_trace other b index (c ∷ cs) e = (e, fact_rows-of_trace other b (suc index) cs e)

  fact_rows-in_order :
      (index : ℕ) (cs : List R) → InOrderBy (λ (r : Fact R). r.index) index (fact_rows t index cs)
  fact_rows-in_order index [] = tt
  fact_rows-in_order index (c ∷ cs) = (refl, fact_rows-in_order (suc index) cs)

  columns-fact_rows :
      (index : ℕ) (cs : List R) → map (λ (r : Fact R). r.columns) (fact_rows t index cs) ≡ cs
  columns-fact_rows index [] = refl
  columns-fact_rows index (c ∷ cs) = ap (λ zs. c ∷ zs) (columns-fact_rows (suc index) cs)

  abbrev ordered : List (Fact R) → List R
  ordered rows =
      map (λ (r : Fact R). r.columns) (sort_with (λ (a b : Fact R). leb a.index b.index) rows)

  pub facts_of-written :
      (table : List (Fact R)) (cs : List R)
      → facts_of t (without_facts t table ++ fact_rows t 0 cs) ≡ cs
  facts_of-written table cs =
      ap ordered (
        select-append (λ (r : Fact R). str_eq r.trace_id t) (without_facts t table)
          (fact_rows t 0 cs)
        ∙ ap (λ zs. zs ++ of_trace t (fact_rows t 0 cs)) (without_self table)
        ∙ select-all (λ (r : Fact R). str_eq r.trace_id t) (fact_rows t 0 cs)
            (fact_rows-of_trace t true 0 cs ((eq_iff t t).1 refl)))
      ∙ ap (map (λ (r : Fact R). r.columns)) (
          sort_with-in_order (λ (r : Fact R). r.index) 0 (fact_rows t 0 cs)
            (fact_rows-in_order 0 cs))
      ∙ columns-fact_rows 0 cs

  pub facts_of-other :
      (other : String) (table : List (Fact R)) (cs : List R)
      → str_eq t other ≡ false
      → facts_of other (without_facts t table ++ fact_rows t 0 cs) ≡ facts_of other table
  facts_of-other other table cs ne = ap ordered (
      select-append (λ (r : Fact R). str_eq r.trace_id other) (without_facts t table)
        (fact_rows t 0 cs)
      ∙ ap (λ zs. zs ++ of_trace other (fact_rows t 0 cs)) (without_other other table ne)
      ∙ ap (λ zs. of_trace other table ++ zs)
          (select-none (λ (r : Fact R). str_eq r.trace_id other) (fact_rows t 0 cs)
            (fact_rows-of_trace other false 0 cs ne))
      ∙ append-nil (of_trace other table))
