-- ===== src/Executor/Compile/Operators.antt =====
-- The closures of leafdb/executor.py on values against the interpreter's operators on the same values.
use leafdb.Prelude.{
  ℕ, ◌≡◌, refl, sym, ap, ◌∙◌, List, [], ◌∷◌, Bool, true, false, Option, none, some, String,
  if◌then◌else◌, inl, inr, Option-cases, Bool-cases, arith,
}
use leafdb.Prelude.Errors.{Result, ok, err, ◌>>=◌, >>=-eq-ok, execution_error}
use leafdb.Value.{Value, Runtime}
use leafdb.Expr.{BinaryOp}
use leafdb.Catalog.Assoc.{get}
use leafdb.Executor.Scope.{Scope}
use leafdb.Executor.Values.{kleene_and, kleene_or, eq_values}
use leafdb.Executor.Eval.{
  Parts, Env, eval_alias, eval_binary, strict_binary, eval_between, eval_like, eval_not,
  or_key_error, eval_neg, in_step, in_result, read_agg,
}
use leafdb.Executor.Compile.{
  Fn, compile_alias, read_env, in_loop, in_value, in_candidate, between_value, like_value,
  not_value, neg_value, binary_fn, and_fn, or_fn, operator_fn, known_value,
}

abbrev is_connective : BinaryOp → Bool
is_connective BinaryOp.and = true
is_connective BinaryOp.or = true
is_connective op = false

module _ {F : Type 0} (py : Runtime F) where
  and_values :
      (l r : Value F) (lfn rfn : Fn F) (parts : Parts F) (env : Option (Env F))
      → lfn parts env ≡ ok l
      → rfn parts env ≡ ok r
      → and_fn py lfn rfn parts env ≡ ok (kleene_and py l r)
  unfolding and_fn kleene_and
  and_values l r lfn rfn parts env p q = rw (p, q) (ground arith)

  or_values :
      (l r : Value F) (lfn rfn : Fn F) (parts : Parts F) (env : Option (Env F))
      → lfn parts env ≡ ok l
      → rfn parts env ≡ ok r
      → or_fn py lfn rfn parts env ≡ ok (kleene_or py l r)
  unfolding or_fn kleene_or
  or_values l r lfn rfn parts env p q = rw (p, q) (ground arith)

  -- The compiled operators and the interpreted ones, on any two values.
  operator_values :
      (op : BinaryOp) (l r : Value F)
      → is_connective op ≡ false
      → known_value py op l r ≡ strict_binary py op l r
  unfolding known_value strict_binary
  operator_values BinaryOp.and l r h = cc
  operator_values BinaryOp.or l r h = cc
  operator_values op l r h = ground arith

  pub between_values :
      (negated : Bool) (v lo hi : Value F)
      → between_value py negated v (ok lo) (ok hi) ≡ eval_between py negated v lo hi
  unfolding between_value eval_between
  between_values negated v lo hi = ground arith

  pub like_values :
      (negated : Bool) (v p : Value F) → like_value py negated v p ≡ eval_like py negated v p
  unfolding like_value eval_like
  like_values negated v p = ground arith

  pub not_values : (v : Value F) → not_value py v ≡ eval_not py v
  unfolding not_value eval_not
  not_values v = ground arith

  pub neg_values : (v : Value F) → neg_value py v ≡ eval_neg py v
  unfolding neg_value eval_neg
  neg_values v = ground arith

module _ {F : Type 0} (parts : Parts F) where
  pub ok_at :
      (env : Option (Env F)) {f g : Fn F} {v : Value F}
      → ok f ≡ ok g
      → f parts env ≡ ok v
      → g parts env ≡ ok v
  ok_at env {f} {g} p q = let e : f ≡ g = cc in ap (λ (h : Fn F). h parts env) (sym e) ∙ q

  found_value :
      (o : Option (Value F)) (v : Value F)
      → or_key_error o ≡ ok v
      → elim o as (λ _. Result (Value F)) [ none ↦ err execution_error | some w ↦ ok w ] ≡ ok v
  unfolding or_key_error
  found_value none v q = absurd (cc q)
  found_value (some w) v q = q

  -- The value of an aggregate's label, read by the closure and by the handler of the interpreter.
  pub alias_values :
      (lower : String → String) (scope : Scope) (grouped : Bool) (t : Option String) (k : String)
      (env : Option (Env F)) (fn : Fn F) (v : Value F)
      → compile_alias lower (if grouped then some scope.agg_aliases else none) grouped t k ≡ ok fn
      → eval_alias lower scope env t k ≡ ok v
      → fn parts env ≡ ok v
  unfolding compile_alias eval_alias read_env
  alias_values lower scope true none k (some env) fn v p q =
      elim (Option-cases (get (lower k) scope.agg_aliases)) [
        | inl missing ↦ absurd (cc (rw (missing, compile_alias) at p))
        | inr (i, found) ↦
            ok_at (some env) (rw (found, compile_alias) at p)
              (found_value (env i) v (rw (found, eval_alias) at q))
      ]
  alias_values lower scope false t k env fn v p q = absurd (cc p)
  alias_values lower scope true (some t) k env fn v p q = absurd (cc p)
  alias_values lower scope true none k none fn v p q = absurd (cc q)

module _ {F : Type 0} (parts : Parts F) where
  pub agg_values :
      (env : Option (Env F)) (i : ℕ) (v : Value F)
      → read_agg env i ≡ ok v
      → read_env i parts env ≡ ok v
  unfolding read_agg read_env
  agg_values none i v q = absurd (cc q)
  agg_values (some env) i v q = q

module _ {F : Type 0} (py : Runtime F) (parts : Parts F) (env : Option (Env F)) where
  pub binary_fn_values :
      (op : BinaryOp) (lfn rfn : Fn F) (l r : Value F)
      → lfn parts env ≡ ok l
      → rfn parts env ≡ ok r
      → binary_fn py op lfn rfn parts env ≡ eval_binary py op l r
  unfolding binary_fn eval_binary
  binary_fn_values BinaryOp.and lfn rfn l r p q = and_values py l r lfn rfn parts env p q
  binary_fn_values BinaryOp.or lfn rfn l r p q = or_values py l r lfn rfn parts env p q
  binary_fn_values op lfn rfn l r p q =
      unfold operator_fn in rw (p, q) (operator_values py op l r refl)

  pub in_values :
      (negated : Bool) (w : Value F) (fns : List (Fn F)) (found : Result (Option Bool))
      (v : Value F)
      → elim w as (λ _. Result (Value F)) [
        | Value.null ↦ ok Value.null
        | _ ↦ (found >>= λ r. ok (in_result py negated r))
      ]
        ≡ ok v
      → ((r : Option Bool)
          → found ≡ ok r
          → in_loop py negated w fns false parts env ≡ ok (in_result py negated r))
      → in_value py negated w fns parts env ≡ ok v
  unfolding in_value
  in_values negated Value.null fns found v q loop = q
  in_values negated w fns found v q loop = let (r, e, q') = >>=-eq-ok found _ q in loop r e ∙ q'

  -- One round of the loop of IN, in the closure and in the interpreter.
  pub candidate_values :
      (negated : Bool) (v cand : Value F) (a b : Result (Option Bool)) (a' b' : Result (Value F))
      (r : Option Bool)
      → ((r : Option Bool) → a ≡ ok r → a' ≡ ok (in_result py negated r))
      → ((r : Option Bool) → b ≡ ok r → b' ≡ ok (in_result py negated r))
      → in_step py v cand a b ≡ ok r
      → in_candidate py negated v cand a' b' ≡ ok (in_result py negated r)
  unfolding in_step in_candidate in_result
  candidate_values negated v Value.null a b a' b' r ha hb q = ha r q
  candidate_values negated v cand a b a' b' r ha hb q = elim (Bool-cases (eq_values py v cand)) [
    | inl same ↦ rw same (ap (λ x. ok (in_result py negated x)) (some_result (rw same at q)))
    | inr other ↦ rw other (hb r (rw other at q))
  ]
    where
      some_result : {x y : Option Bool} → ok x ≡ ok y → x ≡ y
      some_result p = cc

module _ {F : Type 0} (py : Runtime F) (parts : Parts F) (env : Option (Env F)) where
  pub nil_values :
      (negated : Bool) (v : Value F) (saw : Bool)
      → in_loop py negated v [] saw parts env
        ≡ ok (in_result py negated (if saw then none else some false))
  unfolding in_loop in_result
  nil_values negated v saw = ground arith

  pub round_values :
      (negated : Bool) (v cand : Value F) (fn : Fn F) (fns : List (Fn F)) (saw : Bool) {w : Value F}
      → fn parts env ≡ ok cand
      → in_candidate py negated v cand
          (in_loop py negated v fns true parts env)
          (in_loop py negated v fns saw parts env)
        ≡ ok w
      → in_loop py negated v (fn ∷ fns) saw parts env ≡ ok w
  unfolding in_loop
  round_values negated v cand fn fns saw p q = rw p q
