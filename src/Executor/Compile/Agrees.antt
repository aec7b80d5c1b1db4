-- ===== src/Executor/Compile/Agrees.antt =====
-- The compiled closure returns what the interpreter returns.
use leafdb.Prelude.{
  ℕ, ◌≡◌, ap, ◌∙◌, List, [], ◌∷◌, Bool, true, false, Option, none, some, String, if◌then◌else◌,
}
use leafdb.Prelude.Errors.{Result, ok, err, >>=-eq-ok, execution_error}
use leafdb.Value.{Value, Runtime}
use leafdb.Expr.{Expr, Exprs, UnaryOp}
use leafdb.Catalog.Assoc.{Dict}
use leafdb.Executor.Scope.{Scope, resolve}
use leafdb.Executor.Eval.{Parts, Env, eval_expr, eval_items, eval_column, eval_resolved, in_result}
use leafdb.Executor.Compile.{
  Fn, compile_expr, compile_items, compile_resolved, is_null_fn, between_fn, in_fn, in_loop,
  like_fn, not_fn, neg_fn,
}
use leafdb.Executor.Compile.Operators.{
  between_values, like_values, not_values, neg_values, ok_at, alias_values, agg_values,
  binary_fn_values, in_values, candidate_values, nil_values, round_values,
}

module _ {F : Type 0} (py : Runtime F) (lower : String → String) (scope : Scope) (parts : Parts F)
    (env : Option (Env F)) (grouped : Bool) where
  abbrev aliases : Option (Dict ℕ)
  aliases = if grouped then some scope.agg_aliases else none

  abbrev evaluated : Expr F → Result (Value F)
  evaluated e = eval_expr py lower (some scope) (some parts) env e

  abbrev compiled : Expr F → Result (Fn F)
  compiled e = compile_expr py lower scope aliases grouped e

  abbrev compiled_items : Exprs F → Result (List (Fn F))
  compiled_items items = compile_items py lower scope aliases grouped items

  abbrev evaluated_items : Value F → Exprs F → Bool → Result (Option Bool)
  evaluated_items v items saw = eval_items py lower (some scope) (some parts) env v items saw

  column_values :
      (t : Option String) (k : String) (r : Result (ℕ × ℕ)) (fn : Fn F) (v : Value F)
      → compile_resolved lower aliases grouped t k r ≡ ok fn
      → eval_resolved lower scope parts env t k r ≡ ok v
      → fn parts env ≡ ok v
  unfolding compile_resolved eval_resolved
  column_values t k (ok (i, j)) fn v p q = ok_at parts env p q
  column_values t k (err execution_error) fn v p q =
      alias_values parts lower scope grouped t k env fn v p q
  column_values t k (err e) fn v p q = absurd (cc p)

  mutual
    unfolding compile_expr eval_expr eval_column is_null_fn between_fn in_fn like_fn not_fn neg_fn

    agrees :
        (e : Expr F) (fn : Fn F) (v : Value F)
        → compiled e ≡ ok fn
        → evaluated e ≡ ok v
        → fn parts env ≡ ok v
    agrees (Expr.literal w) fn v p q = ok_at parts env p q
    agrees (Expr.column t k) fn v p q = column_values t k (resolve scope t k) fn v p q
    agrees (Expr.star t) fn v p q = absurd (cc p)
    agrees (Expr.func name i d a) fn v p q = ok_at parts env p (agg_values parts env i v q)
    agrees (Expr.func_star name i) fn v p q = ok_at parts env p (agg_values parts env i v q)
    agrees (Expr.is_null e n) fn v p q =
        let (inner, p₁, p') = >>=-eq-ok (compiled e) _ p in
        let (w, q₁, q') = >>=-eq-ok (evaluated e) _ q in
        ok_at parts env p' (rw (agrees e inner w p₁ q₁) q')
    agrees (Expr.between e lo hi n) fn v p q =
        let (inner, p₁, p') = >>=-eq-ok (compiled e) _ p in
        let (lo_fn, p₂, p'') = >>=-eq-ok (compiled lo) _ p' in
        let (hi_fn, p₃, p₄) = >>=-eq-ok (compiled hi) _ p'' in
        let (w, q₁, q') = >>=-eq-ok (evaluated e) _ q in
        let (l, q₂, q'') = >>=-eq-ok (evaluated lo) _ q' in
        let (h, q₃, q₄) = >>=-eq-ok (evaluated hi) _ q'' in
        ok_at parts env p₄ (
          rw (agrees e inner w p₁ q₁, agrees lo lo_fn l p₂ q₂, agrees hi hi_fn h p₃ q₃)
            (between_values py n w l h ∙ q₄))
    agrees (Expr.in_list e items n) fn v p q =
        let (inner, p₁, p') = >>=-eq-ok (compiled e) _ p in
        let (fns, p₂, p'') = >>=-eq-ok (compiled_items items) _ p' in
        let (w, q₁, q') = >>=-eq-ok (evaluated e) _ q in
        ok_at parts env p'' (
          rw (agrees e inner w p₁ q₁) (
            in_values py parts env n w fns (evaluated_items w items false) v q'
              (λ r. agrees_items n items fns w false r p₂)))
    agrees (Expr.like e pat n) fn v p q =
        let (inner, p₁, p') = >>=-eq-ok (compiled e) _ p in
        let (pat_fn, p₂, p'') = >>=-eq-ok (compiled pat) _ p' in
        let (w, q₁, q') = >>=-eq-ok (evaluated e) _ q in
        let (u, q₂, q'') = >>=-eq-ok (evaluated pat) _ q' in
        ok_at parts env p''
          (rw (agrees e inner w p₁ q₁, agrees pat pat_fn u p₂ q₂) (like_values py n w u ∙ q''))
    agrees (Expr.unary_op UnaryOp.not e) fn v p q =
        let (inner, p₁, p') = >>=-eq-ok (compiled e) _ p in
        let (w, q₁, q') = >>=-eq-ok (evaluated e) _ q in
        ok_at parts env p' (rw (agrees e inner w p₁ q₁) (ap ok (not_values py w) ∙ q'))
    agrees (Expr.unary_op UnaryOp.neg e) fn v p q =
        let (inner, p₁, p') = >>=-eq-ok (compiled e) _ p in
        let (w, q₁, q') = >>=-eq-ok (evaluated e) _ q in
        ok_at parts env p' (rw (agrees e inner w p₁ q₁) (neg_values py w ∙ q'))
    agrees (Expr.bin_op op l r) fn v p q =
        let (lfn, p₁, p') = >>=-eq-ok (compiled l) _ p in
        let (rfn, p₂, p'') = >>=-eq-ok (compiled r) _ p' in
        let (a, q₁, q') = >>=-eq-ok (evaluated l) _ q in
        let (b, q₂, q'') = >>=-eq-ok (evaluated r) _ q' in
        ok_at parts env p'' (
          binary_fn_values py parts env op lfn rfn a b (agrees l lfn a p₁ q₁) (agrees r rfn b p₂ q₂)
          ∙ q'')

    agrees_items :
        (negated : Bool) (items : Exprs F) (fns : List (Fn F)) (v : Value F) (saw : Bool)
        (r : Option Bool)
        → compiled_items items ≡ ok fns
        → evaluated_items v items saw ≡ ok r
        → in_loop py negated v fns saw parts env ≡ ok (in_result py negated r)
    agrees_items negated Exprs.nil fns v saw r p q =
        let e : fns ≡ [] = cc in
        let e' : r ≡ (if saw then none else some false) = cc in
        rw (e, e') (nil_values py parts env negated v saw)
    agrees_items negated (Exprs.cons item items) fns v saw r p q =
        let (fn, p₁, p') = >>=-eq-ok (compiled item) _ p in
        let (fns', p₂, p'') = >>=-eq-ok (compiled_items items) _ p' in
        let (cand, q₁, q') = >>=-eq-ok (evaluated item) _ q in
        let e : fns ≡ fn ∷ fns' = cc in
        rw e (
          round_values py parts env negated v cand fn fns' saw (agrees item fn cand p₁ q₁) (
            candidate_values py parts env negated v cand _ _ _ _ r
              (λ r' q₂. agrees_items negated items fns' v true r' p₂ q₂)
              (λ r' q₂. agrees_items negated items fns' v saw r' p₂ q₂) q'))

  -- Where an expression compiles and the interpreter returns a value on a row, the compiled
  -- closure returns the same value on that row: with the aggregates' labels in a grouped query,
  -- and without them. (The closure may return where the interpreter raises, since it stops
  -- early.)
  pub compile_expr-eval_expr :
      (e : Expr F) (fn : Fn F) (v : Value F)
      → compile_expr py lower scope (if grouped then some scope.agg_aliases else none) grouped e
        ≡ ok fn
      → eval_expr py lower (some scope) (some parts) env e ≡ ok v
      → fn parts env ≡ ok v
  compile_expr-eval_expr = agrees
