-- ===== src/Tests/Queries.antt =====
-- A query on a table `t` with the columns `id` and `name`.
use leafdb.Prelude.{ℕ, ◌≡◌, refl, [], ◌∷◌, true, false, none, some, String, ◌↔◌}
use leafdb.Prelude.Int.{pos}
use leafdb.Prelude.Errors.{Result, ok}
use leafdb.Value.{Value}
use leafdb.Expr.{Expr, BinaryOp}
use leafdb.Rows.{ColumnType}
use leafdb.Catalog.{TableMeta, column_index}
use leafdb.Executor.Scope.{Scope, resolve}
use leafdb.Executor.Eval.{eval_expr, eval_binary, eval_column, Parts}
use leafdb.Executor.Values.{kleene_and, eq_values}
use leafdb.Executor.Compile.{Fn, compile_expr, compile_resolved}
use leafdb.Executor.Compile.Agrees.{compile_expr-eval_expr}
use leafdb.Planner.{flatten_and}
use leafdb.Planner.Conjuncts.{IsTrue, AllTrue, flatten_and-AllTrue}
use leafdb.Tests.Runtime.{py}

abbrev meta : TableMeta
meta = record {
  name = "t";
  columns =
      record { name = "id"; type = ColumnType.int; pk = true }
      ∷ record { name = "name"; type = ColumnType.text; pk = false }
      ∷ [];
  root_page = 1;
  row_count = 1;
  next_rowid = pos 2;
  indexes = [];
}

abbrev scope : Scope
scope = record { sources = ("t", meta) ∷ []; by_alias = ("t", 0) ∷ []; agg_aliases = [] }

-- id = 5 AND name IS NOT NULL
abbrev condition : Expr ℕ
condition =
    Expr.bin_op BinaryOp.and
      (Expr.bin_op BinaryOp.eq (Expr.column none "id") (Expr.literal (Value.int (pos 5))))
      (Expr.is_null (Expr.column (some "t") "name") true)

abbrev parts : Parts ℕ
parts = some (Value.int (pos 5) ∷ Value.text (120 ∷ []) ∷ []) ∷ []

abbrev lower : String → String
lower s = s

abbrev compiled : Result (Fn ℕ) → Fn ℕ
compiled (ok fn) = fn
compiled r = λ parts env. ok Value.null

abbrev closure : Fn ℕ
closure = compiled (compile_expr py lower scope none false condition)

compiles : compile_expr py lower scope none false condition ≡ ok closure
unfolding compile_expr resolve compile_resolved column_index
compiles = refl

evaluates : eval_expr py lower (some scope) (some parts) none condition ≡ ok (Value.bool true)
unfolding eval_expr eval_binary resolve eval_column column_index kleene_and eq_values
evaluates = refl

compile_expr-eval_expr_example : closure parts none ≡ ok (Value.bool true)
compile_expr-eval_expr_example =
    compile_expr-eval_expr py lower scope parts none false condition closure (Value.bool true)
      compiles evaluates

flatten_and-AllTrue_example :
    IsTrue py lower (some scope) (some parts) none condition
    ↔ AllTrue py lower (some scope) (some parts) none (flatten_and condition)
flatten_and-AllTrue_example = flatten_and-AllTrue py lower (some scope) (some parts) none condition
