-- ===== src/Executor/Compile.antt =====
-- `compile_expr` of leafdb/executor.py: an expression becomes a closure over a row's parts and the
-- aggregates' values. Columns are resolved once, at compile time; AND, OR, BETWEEN and IN stop
-- early.
pub mod Operators
pub mod Agrees
use Prim.Native.Nat.{Ordering}
use leafdb.Prelude.{
  ℕ, List, [], ◌∷◌, Bool, true, false, not, ◌&&◌, Option, none, some, String, if◌then◌else◌,
}
use leafdb.Prelude.Int.{ℤ, pos, eq_ℤ, ◌+ℤ◌, ◌-ℤ◌, ◌*ℤ◌}
use leafdb.Prelude.Errors.{Result, ok, err, ◌>>=◌, ◌>>◌, execution_error, compile_error}
use leafdb.Value.{Value, Runtime}
use leafdb.Expr.{Expr, Exprs, BinaryOp, UnaryOp}
use leafdb.Catalog.Assoc.{Dict, get}
use leafdb.Executor.Scope.{Scope, resolve}
use leafdb.Executor.Values.{
  eq_values, order_cmp, less_eq, truthy, like_regex, like_subject, negate_if, arith2, divide,
  negate, require_number,
}
use leafdb.Executor.Eval.{Parts, Env, read_cell}

-- A compiled expression, `f(parts, agg_env)`.
abbrev pub Fn : Type 0 → Type 0
Fn F = Parts F → Option (Env F) → Result (Value F)

module _ {F : Type 0} where
  -- read_agg, read_alias
  unfoldable pub read_env : ℕ → Fn F
  read_env i parts none = err execution_error
  read_env i parts (some env) = elim (env i) [ none ↦ err execution_error | some v ↦ ok v ]

  unfoldable pub read_col : ℕ → ℕ → Fn F
  read_col i j parts env = read_cell parts i j

  -- The handler of a column that does not resolve.
  unfoldable pub compile_alias :
      (String → String) → Option (Dict ℕ) → Bool → Option String → String → Result (Fn F)
  unfolding get
  compile_alias lower (some aliases) true none k = elim (get (lower k) aliases) [
    | none ↦ err execution_error
    | some i ↦ ok (read_env i)
  ]
  compile_alias lower aliases allow_agg t k = err execution_error

  unfoldable pub compile_resolved :
      (String → String)
      → Option (Dict ℕ)
      → Bool
      → Option String
      → String
      → Result (ℕ × ℕ)
      → Result (Fn F)
  unfolding compile_alias read_col
  compile_resolved lower aliases allow_agg t k (ok (i, j)) = ok (read_col i j)
  compile_resolved lower aliases allow_agg t k (err execution_error) =
      compile_alias lower aliases allow_agg t k
  compile_resolved lower aliases allow_agg t k (err e) = err e

  unfoldable pub is_null_fn : Bool → Fn F → Fn F
  is_null_fn negated inner parts env = do
    v ← inner parts env
    ok (Value.bool (elim v [ Value.null ↦ not negated | _ ↦ negated ]))

module _ {F : Type 0} (py : Runtime F) where
  between_rest : Bool → Value F → Value F → Value F → Result (Value F)
  between_rest negated v Value.null hi = ok Value.null
  between_rest negated v lo Value.null = ok Value.null
  between_rest negated v lo hi = do
    _ ← order_cmp py v lo
    _ ← order_cmp py v hi
    below ← less_eq py lo v
    above ← less_eq py v hi
    ok (Value.bool (negate_if negated (below && above)))

  unfoldable pub between_value :
      Bool → Value F → Result (Value F) → Result (Value F) → Result (Value F)
  unfolding between_rest
  between_value negated Value.null lo hi = ok Value.null
  between_value negated v lo hi = do l ← lo; h ← hi; between_rest negated v l h

  unfoldable pub between_fn : Bool → Fn F → Fn F → Fn F → Fn F
  unfolding between_value
  between_fn negated inner lo_fn hi_fn parts env = do
    v ← inner parts env
    between_value negated v (lo_fn parts env) (hi_fn parts env)

  -- One candidate of IN: the loop goes on past a NULL and past a value that differs.
  unfoldable pub in_candidate :
      Bool → Value F → Value F → Result (Value F) → Result (Value F) → Result (Value F)
  in_candidate negated v Value.null after_null after_other = after_null
  in_candidate negated v cand after_null after_other =
      if eq_values py v cand then ok (Value.bool (negate_if negated true)) else after_other

  unfoldable pub in_loop :
      Bool → Value F → List (Fn F) → Bool → Parts F → Option (Env F) → Result (Value F)
  unfolding in_candidate
  in_loop negated v [] saw_null parts env =
      if saw_null then ok Value.null else ok (Value.bool (negate_if negated false))
  in_loop negated v (fn ∷ fns) saw_null parts env = do
    cand ← fn parts env
    in_candidate negated v cand (in_loop negated v fns true parts env)
        (in_loop negated v fns saw_null parts env)

  unfoldable pub in_value : Bool → Value F → List (Fn F) → Fn F
  in_value negated Value.null fns parts env = ok Value.null
  in_value negated v fns parts env = in_loop negated v fns false parts env

  unfoldable pub in_fn : Bool → Fn F → List (Fn F) → Fn F
  unfolding in_value
  in_fn negated inner fns parts env = do v ← inner parts env; in_value negated v fns parts env

  unfoldable pub like_value : Bool → Value F → Value F → Result (Value F)
  like_value negated Value.null p = ok Value.null
  like_value negated v Value.null = ok Value.null
  like_value negated v (Value.text p) =
      ok (Value.bool (negate_if negated (py.re_match (like_regex p) (like_subject py v))))
  like_value negated v p = err execution_error

  -- The pattern of a literal is compiled in advance, to the same `like_regex`.
  unfoldable pub like_fn : Bool → Fn F → Fn F → Fn F
  unfolding like_value
  like_fn negated inner pat_fn parts env = do
    v ← inner parts env
    p ← pat_fn parts env
    like_value negated v p

  unfoldable pub not_value : Value F → Value F
  not_value Value.null = Value.null
  not_value v = Value.bool (not (truthy py v))

  unfoldable pub not_fn : Fn F → Fn F
  unfolding not_value
  not_fn inner parts env = do v ← inner parts env; ok (not_value v)

  unfoldable pub neg_value : Value F → Result (Value F)
  neg_value Value.null = ok Value.null
  neg_value v = negate py v

  unfoldable pub neg_fn : Fn F → Fn F
  unfolding neg_value
  neg_fn inner parts env = do v ← inner parts env; neg_value v

  -- `l is not None and not l`, `l is not None and bool(l)`
  unfoldable pub is_false : Value F → Bool
  is_false Value.null = false
  is_false v = not (truthy py v)

  unfoldable pub is_true : Value F → Bool
  is_true Value.null = false
  is_true v = truthy py v

  unfoldable pub both_known : Value F → Value F → Value F → Value F
  both_known Value.null r v = Value.null
  both_known l Value.null v = Value.null
  both_known l r v = v

  unfoldable pub and_fn : Fn F → Fn F → Fn F
  unfolding is_false both_known
  and_fn lfn rfn parts env = do
    l ← lfn parts env
    if is_false l then ok (Value.bool false) else (do
      r ← rfn parts env
      ok (if is_false r then Value.bool false else both_known l r (Value.bool true)))

  unfoldable pub or_fn : Fn F → Fn F → Fn F
  unfolding is_true both_known
  or_fn lfn rfn parts env = do
    l ← lfn parts env
    if is_true l then ok (Value.bool true) else (do
      r ← rfn parts env
      ok (if is_true r then Value.bool true else both_known l r (Value.bool false)))

  is_number : Value F → Bool
  is_number (Value.int z) = true
  is_number (Value.float x) = true
  is_number v = false

  -- The tests of `arith_fn` and its table of `+`, `-` and `*`.
  arith_value : BinaryOp → Value F → Value F → Result (Value F)
  unfolding is_number
  arith_value op l r =
      if is_number l
      then (if is_number r
          then elim op [
            | BinaryOp.add ↦ arith2 py ◌+ℤ◌ py.add_f l r
            | BinaryOp.sub ↦ arith2 py ◌-ℤ◌ py.sub_f l r
            | BinaryOp.mul ↦ arith2 py ◌*ℤ◌ py.mul_f l r
            | _ ↦ divide py l r
          ]
          else err execution_error)
      else err execution_error

  cmp_value : BinaryOp → Ordering → Bool
  cmp_value BinaryOp.lt Ordering.lt = true
  cmp_value BinaryOp.lt c = false
  cmp_value BinaryOp.le Ordering.gt = false
  cmp_value BinaryOp.le c = true
  cmp_value BinaryOp.gt Ordering.gt = true
  cmp_value BinaryOp.gt c = false
  cmp_value op Ordering.lt = false
  cmp_value op c = true

  -- The body of eq_fn, neq_fn, cmp_fn and arith_fn behind their None test.
  unfoldable pub operator_value : BinaryOp → Value F → Value F → Result (Value F)
  unfolding arith_value cmp_value
  operator_value BinaryOp.eq l r = ok (Value.bool (eq_values py l r))
  operator_value BinaryOp.ne l r = ok (Value.bool (not (eq_values py l r)))
  operator_value BinaryOp.lt l r = do
    c ← order_cmp py l r
    ok (Value.bool (cmp_value BinaryOp.lt c))
  operator_value BinaryOp.le l r = do
    c ← order_cmp py l r
    ok (Value.bool (cmp_value BinaryOp.le c))
  operator_value BinaryOp.gt l r = do
    c ← order_cmp py l r
    ok (Value.bool (cmp_value BinaryOp.gt c))
  operator_value BinaryOp.ge l r = do
    c ← order_cmp py l r
    ok (Value.bool (cmp_value BinaryOp.ge c))
  operator_value op l r = arith_value op l r

  unfoldable pub known_value : BinaryOp → Value F → Value F → Result (Value F)
  unfolding operator_value
  known_value op Value.null r = ok Value.null
  known_value op l Value.null = ok Value.null
  known_value op l r = operator_value op l r

  unfoldable pub operator_fn : BinaryOp → Fn F → Fn F → Fn F
  unfolding known_value
  operator_fn op lfn rfn parts env = do l ← lfn parts env; r ← rfn parts env; known_value op l r

  unfoldable pub binary_fn : BinaryOp → Fn F → Fn F → Fn F
  unfolding and_fn or_fn operator_fn
  binary_fn BinaryOp.and = and_fn
  binary_fn BinaryOp.or = or_fn
  binary_fn op = operator_fn op

module _ {F : Type 0} (py : Runtime F) (lower : String → String) (scope : Scope)
    (agg_aliases : Option (Dict ℕ)) (allow_agg : Bool) where
  unfoldable mutual
    pub compile_expr : Expr F → Result (Fn F)
    compile_expr (Expr.literal v) = ok (λ parts env. ok v)
    compile_expr (Expr.column t k) =
        compile_resolved lower agg_aliases allow_agg t k (resolve scope t k)
    compile_expr (Expr.func name i d a) = ok (read_env i)
    compile_expr (Expr.func_star name i) = ok (read_env i)
    compile_expr (Expr.is_null e negated) = do inner ← compile_expr e; ok (is_null_fn negated inner)
    compile_expr (Expr.between e lo hi negated) = do
      inner ← compile_expr e
      lo_fn ← compile_expr lo
      hi_fn ← compile_expr hi
      ok (between_fn py negated inner lo_fn hi_fn)
    compile_expr (Expr.in_list e items negated) = do
      inner ← compile_expr e
      fns ← compile_items items
      ok (in_fn py negated inner fns)
    compile_expr (Expr.like e pattern_ negated) = do
      inner ← compile_expr e
      pat_fn ← compile_expr pattern_
      ok (like_fn py negated inner pat_fn)
    compile_expr (Expr.unary_op UnaryOp.not e) = do inner ← compile_expr e; ok (not_fn py inner)
    compile_expr (Expr.unary_op UnaryOp.neg e) = do inner ← compile_expr e; ok (neg_fn py inner)
    compile_expr (Expr.bin_op op l r) = do
      lfn ← compile_expr l
      rfn ← compile_expr r
      ok (binary_fn py op lfn rfn)
    compile_expr (Expr.star t) = err compile_error

    pub compile_items : Exprs F → Result (List (Fn F))
    compile_items Exprs.nil = ok []
    compile_items (Exprs.cons item items) = do
      fn ← compile_expr item
      fns ← compile_items items
      ok (fn ∷ fns)
