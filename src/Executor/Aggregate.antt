-- ===== src/Executor/Aggregate.antt =====
-- Aggregates, group keys and sort keys of leafdb/executor.py, on values.
use Prim.Native.Nat.{Ordering}
use text.Mathlib.Text.{◌==◌ as str_eq}
use leafdb.Prelude.{ℕ, List, [], ◌∷◌, Bool, false, String, if◌then◌else◌, length}
use leafdb.Prelude.Int.{pos, ◌+ℤ◌}
use leafdb.Prelude.Errors.{Result, ok, err, ◌>>=◌, ◌>>◌, type_error}
use leafdb.Value.{Value, Runtime, Text}
use leafdb.Prelude.{none}
use leafdb.Prelude.Errors.{execution_error, attribute_error}
use leafdb.Expr.{Expr}
use leafdb.Executor.Scope.{Scope}
use leafdb.Executor.Eval.{Parts}
use leafdb.Executor.Compile.{Fn, compile_expr}
use leafdb.Executor.Values.{order_cmp, require_number, arith2, int_of_bool}

pub data GroupKey (F : Type 0) : Type 0 where
  text_key : Text → GroupKey F
  null_key : GroupKey F
  other_key : Value F → GroupKey F

unfoldable pub group_key_value : {F : Type 0} → Value F → GroupKey F
group_key_value (Value.text t) = text_key t
group_key_value Value.null = null_key
group_key_value v = other_key v

-- The triple that Python compares.
unfoldable pub sort_wrap : {F : Type 0} → Value F → ℕ × ℕ × Value F
sort_wrap Value.null = (0, 0, Value.int (pos 0))
sort_wrap (Value.bool b) = (2, 0, Value.int (int_of_bool b))
sort_wrap (Value.text t) = (1, 0, Value.text t)
sort_wrap v = (1, 1, v)

module _ {F : Type 0} (py : Runtime F) where
  -- SUM: a single value is returned as it is, a number or not.
  unfoldable pub sum_loop : Value F → List (Value F) → Result (Value F)
  unfolding require_number
  sum_loop total [] = ok total
  sum_loop total (v ∷ vs) = do
    require_number total
    require_number v
    total' ← arith2 py ◌+ℤ◌ py.add_f total v
    sum_loop total' vs

  unfoldable pub avg_total : Value F → List (Value F) → Result (Value F)
  unfolding require_number
  avg_total total [] = ok total
  avg_total total (v ∷ vs) = do
    require_number v
    total' ← arith2 py ◌+ℤ◌ py.add_f total v
    avg_total total' vs

  -- total / len(values)
  unfoldable pub avg_of : Value F → ℕ → Result (Value F)
  avg_of (Value.int z) n = do q ← py.true_div z (pos n); ok (Value.float q)
  avg_of (Value.float x) n = do y ← py.float_of (pos n); q ← py.div_f x y; ok (Value.float q)
  avg_of v n = err type_error

  -- Whether a value takes the place of the best one, which compares with it so.
  unfoldable pub improves : String → Ordering → Bool
  improves name Ordering.gt = str_eq name "MIN"
  improves name Ordering.lt = str_eq name "MAX"
  improves name Ordering.eq = false

  unfoldable pub best_loop : String → Value F → List (Value F) → Result (Value F)
  unfolding order_cmp improves
  best_loop name best [] = ok best
  best_loop name best (v ∷ vs) = do
    c ← order_cmp py best v
    best_loop name (if improves name c then v else best) vs

  unfoldable pub accumulate : String → List (Value F) → Result (Value F)
  unfolding sum_loop avg_total avg_of best_loop
  accumulate name [] = ok (if str_eq name "COUNT" then Value.int (pos 0) else Value.null)
  accumulate name (v ∷ vs) =
      if str_eq name "COUNT"
      then ok (Value.int (pos (length (v ∷ vs))))
      else (if str_eq name "SUM"
          then sum_loop v vs
          else (if str_eq name "AVG"
              then (do
                total ← avg_total (Value.int (pos 0)) (v ∷ vs)
                avg_of total (length (v ∷ vs)))
              else best_loop name v vs))

  abbrev pub keep_known : Value F → List (Value F) → List (Value F)
  keep_known Value.null vs = vs
  keep_known v vs = v ∷ vs

  -- The values of the argument's closure on the rows, without the nulls.
  unfoldable pub argument_values : Fn F → List (Parts F) → Result (List (Value F))
  argument_values fn [] = ok []
  argument_values fn (parts ∷ r) = do
    v ← fn parts none
    vs ← argument_values fn r
    ok (keep_known v vs)

  unfoldable pub compute_star : String → List (Parts F) → Result (Value F)
  compute_star name rows_ctx =
      if str_eq name "COUNT" then ok (Value.int (pos (length rows_ctx))) else err execution_error

  unfoldable pub compute_argument :
      (String → String) → String → Expr F → List (Parts F) → Scope → Result (Value F)
  unfolding compile_expr argument_values accumulate
  compute_argument lower name arg rows_ctx scope = do
    fn ← compile_expr py lower scope none false arg
    values ← argument_values fn rows_ctx
    accumulate name values

  unfoldable pub compute_aggregate :
      (String → String) → Expr F → List (Parts F) → Scope → Result (Value F)
  unfolding compute_star compute_argument
  compute_aggregate lower (Expr.func_star name i) rows_ctx scope = compute_star name rows_ctx
  compute_aggregate lower (Expr.func name i distinct arg) rows_ctx scope =
      compute_argument lower name arg rows_ctx scope
  compute_aggregate lower e rows_ctx scope = err attribute_error
