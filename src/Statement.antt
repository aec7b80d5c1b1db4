-- ===== src/Statement.antt =====
-- The statements of leafdb/sqlparse.py.
use leafdb.Prelude.{ℕ, List, Bool, Option, String}
use leafdb.Expr.{Expr}
use leafdb.Catalog.{Column}

pub data JoinType : Type 0 where
  inner left right full : JoinType

pub record JoinClause (F : Type 0) : Type 0 where
  pub jtype : JoinType
  pub table : String
  pub alias : Option String
  pub on : Expr F

pub record SelectStmt (F : Type 0) : Type 0 where
  pub distinct : Bool
  -- an expression with its label
  pub items : List (Expr F × String)
  pub table : String
  pub alias : Option String
  pub joins : List (JoinClause F)
  pub condition : Option (Expr F)
  pub group_by : List (Expr F)
  pub having : Option (Expr F)
  -- an expression, and whether the order descends
  pub order_by : List (Expr F × Bool)
  pub limit : Option ℕ
  pub offset : Option ℕ

pub data Statement (F : Type 0) : Type 0 where
  select : SelectStmt F → Statement F
  -- table, columns, rows
  insert : String → Option (List String) → List (List (Expr F)) → Statement F
  create_table : String → List Column → Statement F
  -- name, table, column
  create_index : String → String → String → Statement F
  delete : String → Option (Expr F) → Statement F
  update : String → List (String × Expr F) → Option (Expr F) → Statement F
  begin commit rollback : Statement F
  explain : Statement F → Statement F
  drop_table drop_index : String → Statement F
