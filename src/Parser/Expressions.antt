-- ===== src/Parser/Expressions.antt =====
-- The expressions of `Parser` in leafdb/sqlparse.py, by recursive descent. `sub` parses a nested
-- expression; fuel counts the rounds of a loop, and of NOT and of a sign.
pub mod Ends
use text.Mathlib.Text.{◌==◌ as str_eq}
use leafdb.Prelude.{
  ℕ, zero, suc, ◌+◌, List, [], ◌∷◌, Bool, true, false, ◌&&◌, ◌||◌, Option, none, some, String,
  if◌then◌else◌,
}
use leafdb.Prelude.Int.{pos}
use leafdb.Prelude.Errors.{Result, ok, err, ◌>>=◌, parse_error, out_of_fuel}
use leafdb.Value.{Value}
use leafdb.Expr.{Expr, Exprs, BinaryOp, UnaryOp}
use leafdb.Parser.{
  Token, State, Parsed, next, first_op, at_kw, at_op, accept_kw, expect_kw, expect_op, is_aggregate,
  is_ident_ok, comma_list,
}

module _ {F : Type 0} where
  abbrev pub exprs : List (Expr F) → Exprs F
  exprs [] = Exprs.nil
  exprs (e ∷ es) = Exprs.cons e (exprs es)

  -- The operators that the loops look for.
  unfoldable pub additive_op : List (Token F) → Option BinaryOp
  additive_op (Token.op o ∷ r) =
      if str_eq o "+" then some BinaryOp.add else if str_eq o "-" then some BinaryOp.sub else none
  additive_op r = none

  unfoldable pub multiplicative_op : List (Token F) → Option BinaryOp
  multiplicative_op (Token.op o ∷ r) =
      if str_eq o "*" then some BinaryOp.mul else if str_eq o "/" then some BinaryOp.div else none
  multiplicative_op r = none

  unfoldable pub comparison_op : List (Token F) → Option BinaryOp
  comparison_op (Token.op o ∷ r) =
      if str_eq o "="
      then some BinaryOp.eq
      else if str_eq o "<>"
      then some BinaryOp.ne
      else if str_eq o "!="
      then some BinaryOp.ne
      else if str_eq o "<="
      then some BinaryOp.le
      else if str_eq o ">="
      then some BinaryOp.ge
      else if str_eq o "<"
      then some BinaryOp.lt
      else if str_eq o ">"
      then some BinaryOp.gt
      else none
  comparison_op r = none

  -- A column reference behind its first name: a dot and an identifier make it qualified.
  column_tail : String → List (Token F) → State F → Expr F × State F
  unfolding next
  column_tail k (Token.op o ∷ Token.ident c ∷ r) s =
      if str_eq o "." then (Expr.column (some k) c, next (next s)) else (Expr.column none k, s)
  column_tail k r s = (Expr.column none k, s)

  unfoldable pub parse_column : String → State F → Parsed F (Expr F)
  unfolding column_tail
  parse_column k s = ok (column_tail k s.rest s)

  -- self.peek(1) is the operator
  second_op : String → List (Token F) → Bool
  second_op o [] = false
  second_op o (t ∷ r) = first_op o r

  abbrev bump : State F → State F
  bump s = record s { next_id = s.next_id + 1 }

  -- An aggregate behind its parenthesis.
  unfoldable pub parse_func : (State F → Parsed F (Expr F)) → String → State F → Parsed F (Expr F)
  unfolding at_op next expect_op accept_kw
  parse_func sub name s =
      if str_eq name "COUNT" && at_op "*" s
      then (do s' ← expect_op ")" (next s); ok (Expr.func_star "COUNT" s'.next_id, bump s'))
      else (do
        let (distinct, s1) = accept_kw "DISTINCT" s
        (arg, s2) ← sub s1
        s3 ← expect_op ")" s2
        ok (Expr.func name s3.next_id distinct arg, bump s3))

module _ {F : Type 0} (lower : String → String) (sub : State F → Parsed F (Expr F)) where
  parse_kw : String → State F → Parsed F (Expr F)
  unfolding parse_func parse_column is_aggregate is_ident_ok next second_op
  parse_kw k s =
      if str_eq k "NULL"
      then ok (Expr.literal Value.null, next s)
      else if is_aggregate k && second_op "(" s.rest
      then parse_func sub k (next (next s))
      else if is_ident_ok k
      then parse_column (lower k) (next s)
      else err parse_error

  parse_parens : String → State F → Parsed F (Expr F)
  unfolding next expect_op
  parse_parens o s =
      if str_eq o "("
      then (do (e, s') ← sub (next s); s'' ← expect_op ")" s'; ok (e, s''))
      else err parse_error

  primary_of : List (Token F) → State F → Parsed F (Expr F)
  unfolding next parse_kw parse_column parse_parens
  primary_of [] s = err parse_error
  primary_of (Token.whole n ∷ r) s = ok (Expr.literal (Value.int (pos n)), next s)
  primary_of (Token.real x ∷ r) s = ok (Expr.literal (Value.float x), next s)
  primary_of (Token.str t ∷ r) s = ok (Expr.literal (Value.text t), next s)
  primary_of (Token.kw k ∷ r) s = parse_kw k s
  primary_of (Token.ident k ∷ r) s = parse_column (lower k) (next s)
  primary_of (Token.op o ∷ r) s = parse_parens o s

  unfoldable pub parse_primary : State F → Parsed F (Expr F)
  unfolding primary_of
  parse_primary s = primary_of s.rest s

  unfoldable pub parse_unary : ℕ → State F → Parsed F (Expr F)
  unfolding parse_primary at_op next
  parse_unary zero s = err out_of_fuel
  parse_unary (suc n) s = elim (at_op "-" s) [
    | true ↦ do (e, s') ← parse_unary n (next s); ok (Expr.unary_op UnaryOp.neg e, s')
    | false ↦ elim (at_op "+" s) [ true ↦ parse_unary n (next s) | false ↦ parse_primary s ]
  ]

  -- The loops on binary operators, behind the left operand.
  unfoldable pub binary_loop :
      (List (Token F) → Option BinaryOp)
      → (State F → Parsed F (Expr F))
      → ℕ
      → Expr F
      → State F
      → Parsed F (Expr F)
  unfolding next
  binary_loop op_of operand zero left s = err out_of_fuel
  binary_loop op_of operand (suc n) left s = elim (op_of s.rest) [
    | none ↦ ok (left, s)
    | some op ↦ do
      (right, s') ← operand (next s)
      binary_loop op_of operand n (Expr.bin_op op left right) s'
  ]

  unfoldable pub parse_multiplicative : ℕ → State F → Parsed F (Expr F)
  unfolding parse_unary binary_loop multiplicative_op
  parse_multiplicative n s = do
    (left, s') ← parse_unary n s
    binary_loop multiplicative_op (parse_unary n) n left s'

  unfoldable pub parse_additive : ℕ → State F → Parsed F (Expr F)
  unfolding parse_multiplicative binary_loop additive_op
  parse_additive n s = do
    (left, s') ← parse_multiplicative n s
    binary_loop additive_op (parse_multiplicative n) n left s'

  parse_is_null : Expr F → State F → Parsed F (Expr F)
  unfolding accept_kw expect_kw
  parse_is_null left s = do
    let (negated, s1) = accept_kw "NOT" s
    s2 ← expect_kw "NULL" s1
    ok (Expr.is_null left negated, s2)

  parse_between : ℕ → Expr F → Bool → State F → Parsed F (Expr F)
  unfolding parse_additive expect_kw
  parse_between n left negated s = do
    (lo, s1) ← parse_additive n s
    s2 ← expect_kw "AND" s1
    (hi, s3) ← parse_additive n s2
    ok (Expr.between left lo hi negated, s3)

  parse_in : ℕ → Expr F → Bool → State F → Parsed F (Expr F)
  unfolding parse_additive expect_op comma_list
  parse_in n left negated s = do
    s1 ← expect_op "(" s
    (items, s2) ← comma_list (parse_additive n) n s1
    s3 ← expect_op ")" s2
    ok (Expr.in_list left (exprs items) negated, s3)

  parse_like : ℕ → Expr F → Bool → State F → Parsed F (Expr F)
  unfolding parse_additive
  parse_like n left negated s = do
    (pattern_, s') ← parse_additive n s
    ok (Expr.like left pattern_ negated, s')

  parse_comparison : ℕ → Expr F → State F → Parsed F (Expr F)
  unfolding parse_additive comparison_op next
  parse_comparison n left s = elim (comparison_op s.rest) [
    | none ↦ ok (left, s)
    | some op ↦ do (right, s') ← parse_additive n (next s); ok (Expr.bin_op op left right, s')
  ]

  -- What follows an operand and a NOT, if there is one.
  negatable : ℕ → Expr F → Bool → State F → Parsed F (Expr F)
  unfolding parse_between parse_in parse_like parse_comparison at_kw next
  negatable n left negated s = elim (at_kw "BETWEEN" s) [
    | true ↦ parse_between n left negated (next s)
    | false ↦ elim (at_kw "IN" s) [
      | true ↦ parse_in n left negated (next s)
      | false ↦ elim (at_kw "LIKE" s) [
        | true ↦ parse_like n left negated (next s)
        | false ↦ if negated then err parse_error else parse_comparison n left s
      ]
    ]
  ]

  predicate_tail : ℕ → Expr F → State F → Parsed F (Expr F)
  unfolding parse_is_null negatable at_kw accept_kw next
  predicate_tail n left s = elim (at_kw "IS" s) [
    | true ↦ parse_is_null left (next s)
    | false ↦ let (negated, s') = accept_kw "NOT" s in negatable n left negated s'
  ]

  unfoldable pub parse_predicate : ℕ → State F → Parsed F (Expr F)
  unfolding parse_additive predicate_tail
  parse_predicate n s = do (left, s') ← parse_additive n s; predicate_tail n left s'

  -- `fuel` counts the rounds of NOT.
  unfoldable pub parse_not : ℕ → ℕ → State F → Parsed F (Expr F)
  unfolding parse_predicate at_kw next
  parse_not n zero s = err out_of_fuel
  parse_not n (suc fuel) s = elim (at_kw "NOT" s) [
    | true ↦ do (e, s') ← parse_not n fuel (next s); ok (Expr.unary_op UnaryOp.not e, s')
    | false ↦ parse_predicate n s
  ]

  abbrev pub kw_op : String → BinaryOp → List (Token F) → Option BinaryOp
  kw_op k op (Token.kw w ∷ r) = if str_eq w k then some op else none
  kw_op k op r = none

  unfoldable pub parse_and : ℕ → State F → Parsed F (Expr F)
  unfolding parse_not binary_loop
  parse_and n s = do
    (left, s') ← parse_not n n s
    binary_loop (kw_op "AND" BinaryOp.and) (parse_not n n) n left s'

  unfoldable pub parse_or : ℕ → State F → Parsed F (Expr F)
  unfolding parse_and binary_loop
  parse_or n s = do
    (left, s') ← parse_and n s
    binary_loop (kw_op "OR" BinaryOp.or) (parse_and n) n left s'

module _ {F : Type 0} (lower : String → String) where
  -- `fuel` counts the nested expressions.
  unfoldable pub parse_expression : ℕ → ℕ → State F → Parsed F (Expr F)
  unfolding parse_or
  parse_expression n zero s = err out_of_fuel
  parse_expression n (suc fuel) s = parse_or lower (parse_expression n fuel) n s
