-- ===== src/Graders.antt =====
-- graders/base.py: the result of a grade, and the breakdown tree that it may carry. Floats are a type
-- `F`, with the operations that the code uses of them where it computes with them.
use selfevals.Prelude.{ℕ, String, Bool, true, false, Option, List}

pub data GradeLabel : Type 0 where
  pass fail partial error skipped : GradeLabel

abbrev pub is_pass : GradeLabel → Bool
is_pass GradeLabel.pass = true
is_pass _ = false

abbrev pub is_error : GradeLabel → Bool
is_error GradeLabel.error = true
is_error _ = false

-- The arithmetic of floats.
pub record Floats (F : Type 0) : Type 0 where
  pub zero : F
  pub half : F
  pub one : F
  pub add : F → F → F
  pub mul : F → F → F
  pub div : F → F → F
  pub is_zero : F → Bool
  pub of_nat : ℕ → F

mutual
  pub data BreakdownNode (F : Type 0) : Type 0 where
    node :
        String
        → Option GradeLabel
        → Option F
        → F
        → String
        → List String
        → BreakdownNodes F
        → BreakdownNode F

  pub data BreakdownNodes (F : Type 0) : Type 0 where
    leaf : BreakdownNodes F
    more : BreakdownNode F → BreakdownNodes F → BreakdownNodes F

pub record GradeResult (F : Type 0) : Type 0 where
  pub grader : String
  pub label : GradeLabel
  pub reason : String
  pub score : Option F
  pub confidence : Option F
  pub failure_modes : List String
  pub breakdown : Option (BreakdownNode F)
