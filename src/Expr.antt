-- ===== src/Expr.antt =====
-- The expressions of leafdb/sqlparse.py. Aggregates are told apart by the identity of their node
-- (`id(expr)`), which is a field here.
use leafdb.Prelude.{ℕ, List, [], ◌∷◌, ◌++◌, Bool, Option, String}
use leafdb.Value.{Value}

pub data BinaryOp : Type 0 where
  and or eq ne lt le gt ge add sub mul div : BinaryOp

pub data UnaryOp : Type 0 where
  not neg : UnaryOp

mutual
  pub data Expr (F : Type 0) : Type 0 where
    literal : Value F → Expr F
    column : Option String → String → Expr F
    star : Option String → Expr F
    bin_op : BinaryOp → Expr F → Expr F → Expr F
    unary_op : UnaryOp → Expr F → Expr F
    is_null : Expr F → Bool → Expr F
    between : Expr F → Expr F → Expr F → Bool → Expr F
    in_list : Expr F → Exprs F → Bool → Expr F
    like : Expr F → Expr F → Bool → Expr F
    -- name, identity, distinct, argument; the other is `COUNT(*)`, with no argument
    func : String → ℕ → Bool → Expr F → Expr F
    func_star : String → ℕ → Expr F

  pub data Exprs (F : Type 0) : Type 0 where
    nil : Exprs F
    cons : Expr F → Exprs F → Exprs F

-- walk_func_nodes: it does not enter BETWEEN, IN and LIKE, nor an aggregate's argument.
unfoldable pub walk_func_nodes : {F : Type 0} → Expr F → List (Expr F)
walk_func_nodes (Expr.bin_op op l r) = walk_func_nodes l ++ walk_func_nodes r
walk_func_nodes (Expr.unary_op op e) = walk_func_nodes e
walk_func_nodes (Expr.is_null e n) = walk_func_nodes e
walk_func_nodes (Expr.func name i d a) = Expr.func name i d a ∷ []
walk_func_nodes (Expr.func_star name i) = Expr.func_star name i ∷ []
walk_func_nodes e = []
