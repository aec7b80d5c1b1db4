-- ===== src/Executor/Eval.antt =====
-- `eval_expr` of leafdb/executor.py: the interpreter of expressions. `ctx` holds a row for each
-- source of the scope, none where an outer join found no partner; `agg_env` holds the value of
-- each aggregate node by its identity.
use Prim.Native.Nat.{Ordering}
use leafdb.Prelude.{
  ℕ, List, Bool, true, false, not, ◌&&◌, Option, none, some, String, if◌then◌else◌, get_elem?,
}
use leafdb.Prelude.Int.{◌+ℤ◌, ◌-ℤ◌, ◌*ℤ◌}
use leafdb.Prelude.Errors.{Result, ok, err, ◌>>=◌, ◌>>◌, execution_error, index_error, key_error}
use leafdb.Value.{Value, Runtime}
use leafdb.Expr.{Expr, Exprs, BinaryOp, UnaryOp}
use leafdb.Catalog.Assoc.{get}
use leafdb.Executor.Scope.{Scope, resolve}
use leafdb.Executor.Values.{
  eq_values, order_cmp, less_eq, require_number, truthy, kleene_and, kleene_or, like_regex,
  like_subject, negate_if, arith2, divide, negate,
}

abbrev pub Row : Type 0 → Type 0
Row F = List (Value F)

abbrev pub Parts : Type 0 → Type 0
Parts F = List (Option (Row F))

abbrev pub Env : Type 0 → Type 0
Env F = ℕ → Option (Value F)

-- What a comparison operator reads off -1, 0 or 1.
unfoldable pub order_test : BinaryOp → Ordering → Bool
order_test BinaryOp.lt Ordering.lt = true
order_test BinaryOp.le Ordering.lt = true
order_test BinaryOp.le Ordering.eq = true
order_test BinaryOp.gt Ordering.gt = true
order_test BinaryOp.ge Ordering.gt = true
order_test BinaryOp.ge Ordering.eq = true
order_test op c = false

module _ {F : Type 0} where
  unfoldable pub cell : Option (Value F) → Result (Value F)
  cell none = err index_error
  cell (some v) = ok v

  unfoldable pub cell_of : Option (Option (Row F)) → ℕ → Result (Value F)
  unfolding cell
  cell_of none j = err index_error
  cell_of (some none) j = ok Value.null
  cell_of (some (some row)) j = cell (get_elem? row j)

  -- row = parts[i]; None if row is None else row[j]
  unfoldable pub read_cell : Parts F → ℕ → ℕ → Result (Value F)
  unfolding cell_of
  read_cell parts i j = cell_of (get_elem? parts i) j

module _ {F : Type 0} (py : Runtime F) where
  -- The tests on values that are not None.
  unfoldable pub between_test : Bool → Value F → Value F → Value F → Result (Value F)
  between_test negated v lo hi = do
    _ ← order_cmp py v lo
    _ ← order_cmp py v hi
    below ← less_eq py lo v
    above ← less_eq py v hi
    ok (Value.bool (negate_if negated (below && above)))

  unfoldable pub eval_between : Bool → Value F → Value F → Value F → Result (Value F)
  unfolding between_test
  eval_between negated Value.null lo hi = ok Value.null
  eval_between negated v Value.null hi = ok Value.null
  eval_between negated v lo Value.null = ok Value.null
  eval_between negated v lo hi = between_test negated v lo hi

  -- One candidate of IN: what follows a NULL, and what follows a value that differs.
  unfoldable pub in_step :
      Value F → Value F → Result (Option Bool) → Result (Option Bool) → Result (Option Bool)
  in_step v Value.null after_null after_other = after_null
  in_step v cand after_null after_other =
      if eq_values py v cand then ok (some true) else after_other

  unfoldable pub in_result : Bool → Option Bool → Value F
  in_result negated none = Value.null
  in_result negated (some b) = Value.bool (negate_if negated b)

  like_match : Bool → Value F → Value F → Result (Value F)
  like_match negated v (Value.text p) =
      ok (Value.bool (negate_if negated (py.re_match (like_regex p) (like_subject py v))))
  like_match negated v p = err execution_error

  unfoldable pub eval_like : Bool → Value F → Value F → Result (Value F)
  unfolding like_match
  eval_like negated Value.null p = ok Value.null
  eval_like negated v Value.null = ok Value.null
  eval_like negated v p = like_match negated v p

  unfoldable pub eval_not : Value F → Value F
  eval_not Value.null = Value.null
  eval_not v = Value.bool (not (truthy py v))

  unfoldable pub eval_neg : Value F → Result (Value F)
  unfolding negate
  eval_neg Value.null = ok Value.null
  eval_neg v = negate py v

  -- The ladder of operators on two values, the connectives first.
  unfoldable pub binary_values : BinaryOp → Value F → Value F → Result (Value F)
  unfolding order_test require_number
  binary_values BinaryOp.eq l r = ok (Value.bool (eq_values py l r))
  binary_values BinaryOp.ne l r = ok (Value.bool (not (eq_values py l r)))
  binary_values BinaryOp.add l r = do
    require_number l
    require_number r
    arith2 py ◌+ℤ◌ py.add_f l r
  binary_values BinaryOp.sub l r = do
    require_number l
    require_number r
    arith2 py ◌-ℤ◌ py.sub_f l r
  binary_values BinaryOp.mul l r = do
    require_number l
    require_number r
    arith2 py ◌*ℤ◌ py.mul_f l r
  binary_values BinaryOp.div l r = do require_number l; require_number r; divide py l r
  binary_values op l r = do c ← order_cmp py l r; ok (Value.bool (order_test op c))

  unfoldable pub strict_binary : BinaryOp → Value F → Value F → Result (Value F)
  unfolding binary_values
  strict_binary op Value.null r = ok Value.null
  strict_binary op l Value.null = ok Value.null
  strict_binary op l r = binary_values op l r

  unfoldable pub eval_binary : BinaryOp → Value F → Value F → Result (Value F)
  unfolding strict_binary
  eval_binary BinaryOp.and l r = ok (kleene_and py l r)
  eval_binary BinaryOp.or l r = ok (kleene_or py l r)
  eval_binary op l r = strict_binary op l r

module _ {F : Type 0} where
  unfoldable pub or_key_error : Option (Value F) → Result (Value F)
  or_key_error none = err key_error
  or_key_error (some v) = ok v

  -- The handler of a column that does not resolve: an aggregate's label, with an environment.
  unfoldable pub eval_alias :
      (String → String) → Scope → Option (Env F) → Option String → String → Result (Value F)
  unfolding get or_key_error
  eval_alias lower scope (some env) none k = elim (get (lower k) scope.agg_aliases) [
    | none ↦ err execution_error
    | some i ↦ or_key_error (env i)
  ]
  eval_alias lower scope env t k = err execution_error

  unfoldable pub eval_resolved :
      (String → String)
      → Scope
      → Parts F
      → Option (Env F)
      → Option String
      → String
      → Result (ℕ × ℕ)
      → Result (Value F)
  unfolding eval_alias read_cell
  eval_resolved lower scope parts env t k (ok (i, j)) = read_cell parts i j
  eval_resolved lower scope parts env t k (err execution_error) = eval_alias lower scope env t k
  eval_resolved lower scope parts env t k (err e) = err e

  unfoldable pub eval_column :
      (String → String)
      → Option Scope
      → Option (Parts F)
      → Option (Env F)
      → Option String
      → String
      → Result (Value F)
  unfolding eval_resolved
  eval_column lower (some scope) (some parts) env t k =
      eval_resolved lower scope parts env t k (resolve scope t k)
  eval_column lower scope parts env t k = err execution_error

  -- An aggregate: its value in the environment, or an error.
  unfoldable pub read_agg : Option (Env F) → ℕ → Result (Value F)
  read_agg none i = err execution_error
  read_agg (some env) i = elim (env i) [ none ↦ err execution_error | some v ↦ ok v ]

module _ {F : Type 0} (py : Runtime F) (lower : String → String) (scope : Option Scope)
    (ctx : Option (Parts F)) (agg_env : Option (Env F)) where
  unfoldable mutual
    pub eval_expr : Expr F → Result (Value F)
    eval_expr (Expr.literal v) = ok v
    eval_expr (Expr.column t k) = eval_column lower scope ctx agg_env t k
    eval_expr (Expr.func name i d a) = read_agg agg_env i
    eval_expr (Expr.func_star name i) = read_agg agg_env i
    eval_expr (Expr.is_null e negated) = do
      v ← eval_expr e
      ok (Value.bool (elim v [ Value.null ↦ not negated | _ ↦ negated ]))
    eval_expr (Expr.between e lo hi negated) = do
      v ← eval_expr e
      l ← eval_expr lo
      h ← eval_expr hi
      eval_between py negated v l h
    eval_expr (Expr.in_list e items negated) = do
      v ← eval_expr e
      let found = eval_items v items false
      elim v [ Value.null ↦ ok Value.null | _ ↦ (do r ← found; ok (in_result py negated r)) ]
    eval_expr (Expr.like e pattern_ negated) = do
      v ← eval_expr e
      p ← eval_expr pattern_
      eval_like py negated v p
    eval_expr (Expr.unary_op UnaryOp.not e) = do v ← eval_expr e; ok (eval_not py v)
    eval_expr (Expr.unary_op UnaryOp.neg e) = do v ← eval_expr e; eval_neg py v
    eval_expr (Expr.bin_op op l r) = do a ← eval_expr l; b ← eval_expr r; eval_binary py op a b
    eval_expr (Expr.star t) = err execution_error

    -- The loop of IN over its items, with `saw_null`; none is an unknown result.
    pub eval_items : Value F → Exprs F → Bool → Result (Option Bool)
    eval_items v Exprs.nil saw_null = ok (if saw_null then none else some false)
    eval_items v (Exprs.cons item items) saw_null = do
      cand ← eval_expr item
      in_step py v cand (eval_items v items true) (eval_items v items saw_null)
