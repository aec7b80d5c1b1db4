-- ===== src/Tests/Syntax.antt =====
-- SELECT * FROM t WHERE id = 5 AND NOT name IS NULL; COMMIT
use leafdb.Prelude.{ℕ, ◌≡◌, ◌≢◌, refl, List, [], ◌∷◌, ◌++◌, false, none, some, String}
use leafdb.Prelude.Int.{pos}
use leafdb.Prelude.Errors.{ok, err, out_of_fuel}
use leafdb.Value.{Value}
use leafdb.Expr.{Expr, BinaryOp, UnaryOp}
use leafdb.Statement.{Statement}
use leafdb.Parser.{Token}
use leafdb.Parser.Statements.{parse_statement, parse_script}
use leafdb.Parser.Statements.Ends.{parse_statement-ends, parse_script-ends}

abbrev lower : String → String
lower s = s

abbrev text_slice : ℕ → ℕ → String
text_slice i j = ""

abbrev tokens : List (Token ℕ)
tokens =
    Token.kw "SELECT"
    ∷ Token.op "*"
    ∷ Token.kw "FROM"
    ∷ Token.ident "t"
    ∷ Token.kw "WHERE"
    ∷ Token.ident "id"
    ∷ Token.op "="
    ∷ Token.whole 5
    ∷ Token.kw "AND"
    ∷ Token.kw "NOT"
    ∷ Token.ident "name"
    ∷ Token.kw "IS"
    ∷ Token.kw "NULL"
    ∷ Token.op ";"
    ∷ []

abbrev statement : Statement ℕ
statement = Statement.select (record {
  distinct = false;
  items = (Expr.star none, "*") ∷ [];
  table = "t";
  alias = none;
  joins = [];
  condition = some (
      Expr.bin_op BinaryOp.and
        (Expr.bin_op BinaryOp.eq (Expr.column none "id") (Expr.literal (Value.int (pos 5))))
        (Expr.unary_op UnaryOp.not (Expr.is_null (Expr.column none "name") false)));
  group_by = [];
  having = none;
  order_by = [];
  limit = none;
  offset = none;
})

parses : parse_statement lower text_slice tokens ≡ ok statement
unfolding parse_statement
parses = refl

parse_statement-ends_example : parse_statement lower text_slice tokens ≢ err out_of_fuel
parse_statement-ends_example = parse_statement-ends lower text_slice tokens

parse_script-ends_example :
    parse_script lower text_slice (tokens ++ Token.kw "COMMIT" ∷ []) ≢ err out_of_fuel
parse_script-ends_example = parse_script-ends lower text_slice (tokens ++ Token.kw "COMMIT" ∷ [])
