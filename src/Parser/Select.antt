-- ===== src/Parser/Select.antt =====
-- SELECT of `Parser` in leafdb/sqlparse.py. Fuel `n` bounds every loop and nesting.
pub mod Ends
use Prim.Native.String.{◌++◌ as str_append}
use text.Mathlib.Text.{◌==◌ as str_eq}
use leafdb.Prelude.{
  ℕ, zero, suc, ◌+◌, ◌-◌, List, [], ◌∷◌, ◌++◌, Bool, true, false, ◌&&◌, ◌||◌, Option, none, some,
  String, if◌then◌else◌,
}
use leafdb.Prelude.Errors.{Result, ok, err, ◌>>=◌, parse_error, out_of_fuel}
use leafdb.Rows.{ColumnType}
use leafdb.Catalog.{Column}
use leafdb.Expr.{Expr}
use leafdb.Statement.{Statement, SelectStmt, JoinClause, JoinType}
use leafdb.Parser.{
  Token, State, Parsed, next, at_kw, at_op, accept_kw, accept_op, expect_kw, expect_op,
  expect_ident, is_aggregate, comma_list,
}
use leafdb.Parser.Expressions.{parse_expression}

abbrev label_or : Option String → String → String
label_or none k = k
label_or (some a) k = a

module _ {F : Type 0} where
  column_text : Expr F → String
  column_text (Expr.column none k) = k
  column_text e = "?"

  unfoldable pub default_label : Expr F → String
  unfolding column_text
  default_label (Expr.func_star name i) = str_append name "(*)"
  default_label (Expr.func name i d arg) =
      str_append name (str_append "(" (str_append (column_text arg) ")"))
  default_label e = "expr"

  int_of : List (Token F) → Option ℕ
  int_of (Token.whole n ∷ r) = some n
  int_of r = none

  unfoldable pub expect_int : State F → Parsed F ℕ
  unfolding next int_of
  expect_int s = elim (int_of s.rest) [ none ↦ err parse_error | some n ↦ ok (n, next s) ]

  -- A part that only follows its keyword.
  unfoldable pub optional :
      {A : Type 0} → String → (State F → Parsed F A) → State F → Parsed F (Option A)
  unfolding at_kw next
  optional k p s = elim (at_kw k s) [
    | false ↦ ok (none, s)
    | true ↦ do (a, s') ← p (next s); ok (some a, s')
  ]

  -- KEYWORD BY and a list behind it; an empty list where the keyword is not there.
  unfoldable pub by_list :
      {A : Type 0} → String → (State F → Parsed F A) → ℕ → State F → Parsed F (List A)
  unfolding at_kw next expect_kw comma_list
  by_list k item n s = elim (at_kw k s) [
    | false ↦ ok ([], s)
    | true ↦ do s' ← expect_kw "BY" (next s); comma_list item n s'
  ]

  second_paren : List (Token F) → Bool
  second_paren (t ∷ Token.op o ∷ r) = str_eq o "("
  second_paren r = false

  -- An aggregate's name with a parenthesis behind it.
  unfoldable pub at_aggregate : State F → Bool
  unfolding is_aggregate second_paren
  at_aggregate s = is_agg s.rest && second_paren s.rest
    where
      is_agg : List (Token F) → Bool
      is_agg (Token.kw k ∷ r) = is_aggregate k
      is_agg r = false

  join_word : List (Token F) → Option JoinType
  join_word (Token.kw k ∷ r) =
      if str_eq k "INNER"
      then some JoinType.inner
      else if str_eq k "LEFT"
      then some JoinType.left
      else if str_eq k "RIGHT"
      then some JoinType.right
      else if str_eq k "FULL"
      then some JoinType.full
      else none
  join_word r = none

  -- The head of a join, none where there is none.
  unfoldable pub join_head : State F → Parsed F (Option JoinType)
  unfolding join_word accept_kw expect_kw at_kw next
  join_head s = elim (join_word s.rest) [
    | some t ↦ do s' ← expect_kw "JOIN" (accept_kw "OUTER" (next s)).1; ok (some t, s')
    | none ↦ if at_kw "JOIN" s then ok (some JoinType.inner, next s) else ok (none, s)
  ]

module _ {F : Type 0} (lower : String → String) (text_slice : ℕ → ℕ → String) (n : ℕ) where
  abbrev pub expression : State F → Parsed F (Expr F)
  expression s = parse_expression lower n n s

  alias_of : List (Token F) → Option String
  alias_of (Token.ident k ∷ r) = some k
  alias_of r = none

  -- `_parse_alias`, also behind an item of SELECT
  unfoldable pub parse_alias : State F → Parsed F (Option String)
  unfolding at_kw next expect_ident alias_of
  parse_alias s = elim (at_kw "AS" s) [
    | true ↦ do (k, s') ← expect_ident lower (next s); ok (some k, s')
    | false ↦ elim (alias_of s.rest) [ none ↦ ok (none, s) | some k ↦ ok (some k, next s) ]
  ]

  unfoldable pub select_item : State F → Parsed F (Expr F × String)
  unfolding at_op next at_aggregate parse_expression default_label parse_alias
  select_item s = elim (at_op "*" s) [
    | true ↦ ok ((Expr.star none, "*"), next s)
    | false ↦ do
      (e, s') ← expression s
      (alias, s'') ← parse_alias s'
      let label = if at_aggregate s then default_label e else text_slice s.index (s'.index - 1)
      ok ((e, label_or alias label), s'')
  ]

  join_body : Option JoinType → State F → Parsed F (Option (JoinClause F))
  unfolding expect_ident parse_alias expect_kw parse_expression
  join_body none s = ok (none, s)
  join_body (some jtype) s = do
    (table, s2) ← expect_ident lower s
    (alias, s3) ← parse_alias s2
    s4 ← expect_kw "ON" s3
    (on, s5) ← expression s4
    ok (some (record { jtype = jtype; table = table; alias = alias; on = on }), s5)

  unfoldable pub parse_join_opt : State F → Parsed F (Option (JoinClause F))
  unfolding join_head join_body
  parse_join_opt s = do (head, s') ← join_head s; join_body head s'

  unfoldable pub parse_joins : ℕ → State F → Parsed F (List (JoinClause F))
  unfolding parse_join_opt
  parse_joins zero s = err out_of_fuel
  parse_joins (suc fuel) s = do
    (join, s') ← parse_join_opt s
    elim join [
      | none ↦ ok ([], s')
      | some j ↦ do (rest, s'') ← parse_joins fuel s'; ok (j ∷ rest, s'')
    ]

  unfoldable pub order_item : State F → Parsed F (Expr F × Bool)
  unfolding parse_expression accept_kw
  order_item s = do
    (e, s') ← expression s
    let (desc, s'') = accept_kw "DESC" s'
    ok ((e, desc), (if desc then s'' else (accept_kw "ASC" s'').1))

  -- LIMIT, with an OFFSET behind it, or an OFFSET alone.
  unfoldable pub parse_limits : State F → Parsed F (Option ℕ × Option ℕ)
  unfolding optional expect_int
  parse_limits s = do
    (limit, s') ← optional "LIMIT" expect_int s
    (offset, s'') ← optional "OFFSET" expect_int s'
    ok ((limit, offset), s'')

  unfoldable pub parse_select : State F → Parsed F (SelectStmt F)
  unfolding expect_kw accept_kw comma_list select_item expect_ident parse_alias parse_joins optional
      by_list order_item parse_limits
  parse_select s = do
    s1 ← expect_kw "SELECT" s
    let (distinct, s2) = accept_kw "DISTINCT" s1
    (items, s3) ← comma_list select_item n s2
    s4 ← expect_kw "FROM" s3
    (table, s5) ← expect_ident lower s4
    (alias, s6) ← parse_alias s5
    (joins, s7) ← parse_joins n s6
    (condition, s8) ← optional "WHERE" expression s7
    (group_by, s9) ← by_list "GROUP" expression n s8
    (having, s10) ← optional "HAVING" expression s9
    (order_by, s11) ← by_list "ORDER" order_item n s10
    ((limit, offset), s12) ← parse_limits s11
    ok (
      record {
        distinct = distinct;
        items = items;
        table = table;
        alias = alias;
        joins = joins;
        condition = condition;
        group_by = group_by;
        having = having;
        order_by = order_by;
        limit = limit;
        offset = offset;
      },
      s12,
    )
