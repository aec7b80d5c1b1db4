-- ===== src/Parser/Statements.antt =====
-- The other statements of `Parser` in leafdb/sqlparse.py, and scripts.
pub mod Ends
use Prim.Native.String.{◌++◌ as str_append}
use text.Mathlib.Text.{◌==◌ as str_eq}
use leafdb.Prelude.{
  ℕ, zero, suc, ◌+◌, ◌-◌, List, [], ◌∷◌, ◌++◌, Bool, true, false, ◌&&◌, ◌||◌, Option, none, some,
  String, if◌then◌else◌,
}
use leafdb.Prelude.Errors.{Result, ok, err, ◌>>=◌, parse_error, out_of_fuel}
use leafdb.Rows.{ColumnType}
use leafdb.Catalog.{Column}
use leafdb.Expr.{Expr}
use leafdb.Statement.{Statement, SelectStmt, JoinClause, JoinType}
use leafdb.Parser.{
  Token, State, Parsed, next, at_kw, at_op, accept_kw, accept_op, expect_kw, expect_op,
  expect_ident, is_aggregate, comma_list,
}
use leafdb.Parser.Expressions.{parse_expression}
use leafdb.Parser.Select.{optional, expression, parse_select}

module _ {F : Type 0} where
  is_explain : Statement F → Bool
  is_explain (Statement.explain inner) = true
  is_explain stmt = false

  abbrev pub keyword : List (Token F) → String
  keyword (Token.kw k ∷ r) = k
  keyword r = ""

  abbrev pub at_eof : State F → Bool
  at_eof s = elim s.rest [ [] ↦ true | t ∷ r ↦ false ]

  -- while p.accept_op(";")
  unfoldable pub skip_semicolons : ℕ → State F → Result (State F)
  unfolding at_op next
  skip_semicolons zero s = err out_of_fuel
  skip_semicolons (suc fuel) s = elim (at_op ";" s) [
    | false ↦ ok s
    | true ↦ skip_semicolons fuel (next s)
  ]

module _ {F : Type 0} (lower : String → String) (text_slice : ℕ → ℕ → String) (n : ℕ) where
  -- A list in parentheses.
  unfoldable pub parens : {A : Type 0} → (State F → Parsed F A) → State F → Parsed F (List A)
  unfolding expect_op comma_list
  parens item s = do
    s1 ← expect_op "(" s
    (as_, s2) ← comma_list item n s1
    s3 ← expect_op ")" s2
    ok (as_, s3)

  unfoldable pub parse_columns : State F → Parsed F (Option (List String))
  unfolding at_op parens expect_ident
  parse_columns s = elim (at_op "(" s) [
    | false ↦ ok (none, s)
    | true ↦ do (columns, s') ← parens (expect_ident lower) s; ok (some columns, s')
  ]

  unfoldable pub parse_insert : State F → Parsed F (Statement F)
  unfolding expect_kw expect_ident parse_columns comma_list parens
  parse_insert s = do
    s1 ← expect_kw "INSERT" s
    s2 ← expect_kw "INTO" s1
    (table, s3) ← expect_ident lower s2
    (columns, s4) ← parse_columns s3
    s5 ← expect_kw "VALUES" s4
    (rows, s6) ← comma_list (parens (expression lower text_slice n)) n s5
    ok (Statement.insert table columns rows, s6)

  type_of : List (Token F) → Option ColumnType
  type_of (Token.kw k ∷ r) =
      if str_eq k "INT"
      then some ColumnType.int
      else if str_eq k "FLOAT"
      then some ColumnType.float
      else if str_eq k "TEXT"
      then some ColumnType.text
      else none
  type_of r = none

  unfoldable pub expect_ident_or_type : State F → Parsed F ColumnType
  unfolding type_of next
  expect_ident_or_type s = elim (type_of s.rest) [
    | none ↦ err parse_error
    | some t ↦ ok (t, next s)
  ]

  unfoldable pub column_def : State F → Parsed F Column
  unfolding expect_ident expect_ident_or_type optional expect_kw
  column_def s = do
    (name, s1) ← expect_ident lower s
    (type, s2) ← expect_ident_or_type s1
    (key, s3) ← optional "PRIMARY" (λ t. do t' ← expect_kw "KEY" t; ok (true, t')) s2
    ok (record { name = name; type = type; pk = is_key key }, s3)
    where
      is_key : Option Bool → Bool
      is_key none = false
      is_key (some b) = b

  unfoldable pub parse_create : State F → Parsed F (Statement F)
  unfolding expect_kw at_kw next expect_ident parens column_def expect_op
  parse_create s = do
    s1 ← expect_kw "CREATE" s
    elim (at_kw "TABLE" s1) [
      | true ↦ do
        (name, s2) ← expect_ident lower (next s1)
        (cols, s3) ← parens column_def s2
        ok (Statement.create_table name cols, s3)
      | false ↦ elim (at_kw "INDEX" s1) [
        | false ↦ err parse_error
        | true ↦ do
          (iname, s2) ← expect_ident lower (next s1)
          s3 ← expect_kw "ON" s2
          (table, s4) ← expect_ident lower s3
          s5 ← expect_op "(" s4
          (column, s6) ← expect_ident lower s5
          s7 ← expect_op ")" s6
          ok (Statement.create_index iname table column, s7)
      ]
    ]

  unfoldable pub parse_delete : State F → Parsed F (Statement F)
  unfolding expect_kw expect_ident optional parse_expression
  parse_delete s = do
    s1 ← expect_kw "DELETE" s
    s2 ← expect_kw "FROM" s1
    (table, s3) ← expect_ident lower s2
    (condition, s4) ← optional "WHERE" (expression lower text_slice n) s3
    ok (Statement.delete table condition, s4)

  unfoldable pub assignment : State F → Parsed F (String × Expr F)
  unfolding expect_ident expect_op parse_expression
  assignment s = do
    (col, s1) ← expect_ident lower s
    s2 ← expect_op "=" s1
    (e, s3) ← expression lower text_slice n s2
    ok ((col, e), s3)

  unfoldable pub parse_update : State F → Parsed F (Statement F)
  unfolding expect_kw expect_ident comma_list assignment optional parse_expression
  parse_update s = do
    s1 ← expect_kw "UPDATE" s
    (table, s2) ← expect_ident lower s1
    s3 ← expect_kw "SET" s2
    (assignments, s4) ← comma_list assignment n s3
    (condition, s5) ← optional "WHERE" (expression lower text_slice n) s4
    ok (Statement.update table assignments condition, s5)

  unfoldable pub parse_drop : State F → Parsed F (Statement F)
  unfolding at_kw next expect_ident
  parse_drop s = elim (at_kw "TABLE" s) [
    | true ↦ do (name, s') ← expect_ident lower (next s); ok (Statement.drop_table name, s')
    | false ↦ elim (at_kw "INDEX" s) [
      | true ↦ do (name, s') ← expect_ident lower (next s); ok (Statement.drop_index name, s')
      | false ↦ err parse_error
    ]
  ]

  -- The statements that do not nest, by their first keyword.
  unfoldable pub parse_plain : String → State F → Parsed F (Statement F)
  unfolding parse_select parse_insert parse_create parse_delete parse_update parse_drop next
  parse_plain k s =
      if str_eq k "SELECT"
      then (do (sel, s') ← parse_select lower text_slice n s; ok (Statement.select sel, s'))
      else if str_eq k "INSERT"
      then parse_insert s
      else if str_eq k "CREATE"
      then parse_create s
      else if str_eq k "DELETE"
      then parse_delete s
      else if str_eq k "UPDATE"
      then parse_update s
      else if str_eq k "DROP"
      then parse_drop (next s)
      else if str_eq k "BEGIN"
      then ok (Statement.begin, next s)
      else if str_eq k "COMMIT"
      then ok (Statement.commit, next s)
      else if str_eq k "ROLLBACK"
      then ok (Statement.rollback, next s)
      else err parse_error

  -- `fuel` counts the rounds of EXPLAIN.
  unfoldable pub parse_stmt : ℕ → State F → Parsed F (Statement F)
  unfolding at_kw next is_explain parse_plain
  parse_stmt zero s = err out_of_fuel
  parse_stmt (suc fuel) s = elim (at_kw "EXPLAIN" s) [
    | false ↦ parse_plain (keyword s.rest) s
    | true ↦ do
      (inner, s') ← parse_stmt fuel (next s)
      if is_explain inner then err parse_error else ok (Statement.explain inner, s')
  ]

  unfoldable pub script_loop : ℕ → State F → Result (List (Statement F))
  unfolding skip_semicolons parse_stmt accept_op
  script_loop zero s = err out_of_fuel
  script_loop (suc fuel) s = do
    s1 ← skip_semicolons n s
    elim (at_eof s1) [
      | true ↦ ok []
      | false ↦ do
        (stmt, s2) ← parse_stmt n s1
        let (ended, s3) = accept_op ";" s2
        elim (ended || at_eof s3) [
          | false ↦ err parse_error
          | true ↦ do rest ← script_loop fuel s3; ok (stmt ∷ rest)
        ]
    ]

module _ {F : Type 0} (lower : String → String) (text_slice : ℕ → ℕ → String) where
  abbrev start : List (Token F) → State F
  start tokens = record { rest = tokens; index = 0; next_id = 0 }

  abbrev enough : List (Token F) → ℕ
  enough [] = 2
  enough (t ∷ r) = suc (enough r)

  -- parse_statement and parse_script, on the tokens
  unfoldable pub parse_statement : List (Token F) → Result (Statement F)
  unfolding parse_stmt accept_op
  parse_statement tokens = do
    (stmt, s) ← parse_stmt lower text_slice (enough tokens) (enough tokens) (start tokens)
    if at_eof (accept_op ";" s).1 then ok stmt else err parse_error

  unfoldable pub parse_script : List (Token F) → Result (List (Statement F))
  unfolding script_loop
  parse_script tokens = script_loop lower text_slice (enough tokens) (enough tokens) (start tokens)
