-- ===== src/Planner/Conjuncts.antt =====
-- The conjuncts that the planner separates against the interpreter of the whole condition.
use leafdb.Prelude.{
  ◌≡◌, refl, sym, ◌∙◌, List, [], ◌∷◌, ◌++◌, Bool, true, false, Option, none, some, String, ◌↔◌,
  ◌&&◌,
}
use leafdb.Prelude.Errors.{Result, ok, ◌>>=◌, >>=-eq-ok}
use leafdb.Value.{Value, Runtime}
use leafdb.Expr.{Expr, BinaryOp}
use leafdb.Executor.Scope.{Scope}
use leafdb.Executor.Values.{truthy, kleene_and, truth3, and3, of_bool3}
use leafdb.Executor.Eval.{Env, Parts, eval_expr, eval_binary}
use leafdb.Planner.{flatten_and}

is_true : Option Bool → Bool
is_true (some true) = true
is_true o = false

is_true-some : (b : Bool) → is_true (some b) ≡ b
unfolding is_true
is_true-some false = refl
is_true-some true = refl

is_true-and3 : (a b : Option Bool) → is_true (and3 a b) ≡ (is_true a && is_true b)
unfolding and3 is_true
is_true-and3 none none = refl
is_true-and3 none (some false) = refl
is_true-and3 none (some true) = refl
is_true-and3 (some false) b = refl
is_true-and3 (some true) none = refl
is_true-and3 (some true) (some false) = refl
is_true-and3 (some true) (some true) = refl

both : (a b : Bool) → (a && b) ≡ true → (a ≡ true) × (b ≡ true)
both false b h = (h, cc)
both true b h = (refl, h)

module _ {F : Type 0} (py : Runtime F) where
  is_true-truth3 : (v : Value F) → is_true (truth3 py v) ≡ truthy py v
  unfolding truth3 is_true truthy
  is_true-truth3 Value.null = refl
  is_true-truth3 (Value.bool false) = refl
  is_true-truth3 (Value.bool true) = refl
  is_true-truth3 (Value.int z) = is_true-some (truthy py (Value.int z))
  is_true-truth3 (Value.float x) = is_true-some (truthy py (Value.float x))
  is_true-truth3 (Value.text []) = refl
  is_true-truth3 (Value.text (c ∷ s)) = refl

  truthy-of_bool3 : (o : Option Bool) → truthy py (of_bool3 o) ≡ is_true o
  unfolding truthy is_true
  truthy-of_bool3 none = refl
  truthy-of_bool3 (some false) = refl
  truthy-of_bool3 (some true) = refl

  -- AND is true of the values that are both true.
  truthy-kleene_and : (l r : Value F) → truthy py (kleene_and py l r) ≡ (truthy py l && truthy py r)
  unfolding kleene_and
  truthy-kleene_and l r =
      truthy-of_bool3 (and3 (truth3 py l) (truth3 py r))
      ∙ is_true-and3 (truth3 py l) (truth3 py r)
      ∙ rw (is_true-truth3 l, is_true-truth3 r)

module _ {F : Type 0} (py : Runtime F) (lower : String → String) (scope : Option Scope)
    (parts : Option (Parts F)) (env : Option (Env F)) where
  abbrev value_of : Expr F → Result (Value F)
  value_of e = eval_expr py lower scope parts env e

  -- The expression has a value, which counts as true.
  abbrev pub IsTrue : Expr F → Type 0
  IsTrue e = (v : Value F) × (value_of e ≡ ok v) × (truthy py v ≡ true)

  abbrev pub AllTrue : List (Expr F) → Type 0
  AllTrue [] = Unit {0}
  AllTrue (e ∷ es) = IsTrue e × AllTrue es

  AllTrue-append : (es ds : List (Expr F)) → AllTrue es → AllTrue ds → AllTrue (es ++ ds)
  AllTrue-append [] ds h k = k
  AllTrue-append (e ∷ es) ds (h, hs) k = (h, AllTrue-append es ds hs k)

  append-AllTrue : (es ds : List (Expr F)) → AllTrue (es ++ ds) → AllTrue es × AllTrue ds
  append-AllTrue [] ds h = (tt, h)
  append-AllTrue (e ∷ es) ds (h, hs) = let (a, b) = append-AllTrue es ds hs in ((h, a), b)

  eval_expr-and :
      (l r : Expr F)
      → value_of (Expr.bin_op BinaryOp.and l r)
        ≡ (value_of l >>= λ a. value_of r >>= λ b. ok (kleene_and py a b))
  unfolding eval_expr eval_binary
  eval_expr-and l r = refl

  IsTrue-and : (l r : Expr F) → IsTrue l → IsTrue r → IsTrue (Expr.bin_op BinaryOp.and l r)
  IsTrue-and l r (a, p, s) (b, q, t) =
      (kleene_and py a b, eval_expr-and l r ∙ rw (p, q), truthy-kleene_and py a b ∙ rw (s, t))

  and-IsTrue : (l r : Expr F) → IsTrue (Expr.bin_op BinaryOp.and l r) → IsTrue l × IsTrue r
  and-IsTrue l r (v, p, t) =
      let (a, p₁, p') =
        >>=-eq-ok (value_of l) (λ a. value_of r >>= λ b. ok (kleene_and py a b))
          (sym (eval_expr-and l r) ∙ p) in
      let (b, p₂, p'') = >>=-eq-ok (value_of r) (λ b. ok (kleene_and py a b)) p' in
      let e : v ≡ kleene_and py a b = cc in
      let (s, t') =
        both (truthy py a) (truthy py b) (sym (truthy-kleene_and py a b) ∙ rw (← e) t) in
      ((a, p₁, s), (b, p₂, t'))

  -- The interpreter finds a condition true exactly where it finds each conjunct that
  -- `flatten_and` separates true (of a value that counts as true in Python).
  pub flatten_and-AllTrue : (e : Expr F) → IsTrue e ↔ AllTrue (flatten_and e)
  unfolding flatten_and
  flatten_and-AllTrue (Expr.bin_op BinaryOp.and l r) =
      let (f, g) = flatten_and-AllTrue l in
      let (f', g') = flatten_and-AllTrue r in
      (
        λ h.
            (let (a, b) = and-IsTrue l r h in
              AllTrue-append (flatten_and l) (flatten_and r) (f a) (f' b)),
        λ h.
            (let (a, b) = append-AllTrue (flatten_and l) (flatten_and r) h in
              IsTrue-and l r (g a) (g' b)),
      )
  flatten_and-AllTrue e = (λ h. (h, tt), λ h. h.0)
