-- ===== src/Mutate/Syntax.antt =====
-- What the strategies see of the `sqlparser` crate's nodes.
use Prim.Native.String.{String}
use ast_sqlite_test.Common.{ℕ, ◌≡◌, Bool, true, List, Option}
use ast_sqlite_test.Mutate.Strategy.{Host}
use ast_sqlite_test.Mutate.Visit.{Visitor}

-- `BinaryOperator`, the operators that `OperatorFlip` knows and the others by a number
pub data BinaryOperator : Type 0 where
  eq not_eq lt lt_eq gt gt_eq and or plus minus : BinaryOperator
  other : ℕ → BinaryOperator

-- The parts of an `ObjectName`; a function part has its name and whether each argument is named.
pub data ObjectNamePart : Type 0 where
  identifier : String → ObjectNamePart
  function : String → List (Option String) → ObjectNamePart

-- What the strategies see of the `sqlparser` crate's nodes.
pub record Syntax (H : Host) : Type 1 where
  pub Expr : Type 0
  pub exprs : Visitor (List H.Statement) Expr
  pub is_number : Expr → Bool
  pub set_number : String → Expr → Expr
  pub is_value : Expr → Bool
  pub is_identifier : Expr → Bool
  pub null : Expr
  pub is_cast : Expr → Bool
  -- `CAST(expr AS ty)`, the type a custom one
  pub cast : String → Expr → Expr
  pub binary_op : Expr → Option BinaryOperator
  pub set_op : BinaryOperator → Expr → Expr
  pub relations : Visitor (List H.Statement) (List ObjectNamePart)
  -- `==` of expressions, and the kind of one, its `Discriminant`
  pub same_expr : Expr → Expr → Bool
  pub expr_kind : Expr → ℕ
  -- The right operand of a binary operation
  pub right : Expr → Option Expr
  pub set_right : Expr → Expr → Expr
  pub is_subquery : Expr → Bool
  pub same_name : List ObjectNamePart → List ObjectNamePart → Bool
  -- Every statement, also one that stands in another one
  pub statements : Visitor (List H.Statement) H.Statement
  pub relations_in : Visitor H.Statement (List ObjectNamePart)
  -- `CREATE TABLE` or `CREATE VIRTUAL TABLE`: the first part of the name where it is a name, and
  -- `IF NOT EXISTS`
  pub is_create : H.Statement → Bool
  pub created_name : H.Statement → Option String
  pub if_not_exists : H.Statement → Bool
  pub set_if_not_exists : H.Statement → H.Statement
  pub set_if_not_exists_again :
      (stmt : H.Statement) → if_not_exists stmt ≡ true → set_if_not_exists stmt ≡ stmt
