-- ===== src/Parser.antt =====
-- `Parser` of leafdb/sqlparse.py on its tokens: the helpers, and in the modules below it the
-- expressions and the statements. The state is the tokens from `self.i` on, without the last one
-- (`eof` is an empty rest), the index, and the identity of the next aggregate's node. `lower`
-- (str.lower) and `text_slice` (the text between two tokens) are parameters.
pub mod Expressions
pub mod Select
pub mod Statements
pub mod Fuel
use text.Mathlib.Text.{◌==◌ as str_eq}
use leafdb.Prelude.{
  ℕ, zero, suc, ◌+◌, List, [], ◌∷◌, Bool, true, false, ◌&&◌, ◌||◌, Option, none, some, String,
  if◌then◌else◌,
}
use leafdb.Prelude.Errors.{Result, ok, err, ◌>>=◌, parse_error, out_of_fuel}
use leafdb.Value.{Text}

-- A token's kind with its value.
pub data Token (F : Type 0) : Type 0 where
  kw op ident : String → Token F
  whole : ℕ → Token F
  real : F → Token F
  str : Text → Token F

pub record State (F : Type 0) : Type 0 where
  pub rest : List (Token F)
  pub index : ℕ
  pub next_id : ℕ

-- What a method of the parser returns, with the state behind it.
abbrev pub Parsed : Type 0 → Type 0 → Type 0
Parsed F A = Result (A × State F)

module _ {F : Type 0} where
  advance : List (Token F) → ℕ → ℕ → State F
  advance [] i n = record { rest = []; index = i; next_id = n }
  advance (t ∷ r) i n = record { rest = r; index = i + 1; next_id = n }

  unfoldable pub next : State F → State F
  unfolding advance
  next s = advance s.rest s.index s.next_id

  abbrev pub first_kw : String → List (Token F) → Bool
  first_kw k (Token.kw w ∷ r) = str_eq w k
  first_kw k r = false

  abbrev pub first_op : String → List (Token F) → Bool
  first_op o (Token.op w ∷ r) = str_eq w o
  first_op o r = false

  unfoldable pub at_kw : String → State F → Bool
  at_kw k s = first_kw k s.rest

  unfoldable pub at_op : String → State F → Bool
  at_op o s = first_op o s.rest

  -- accept_kw and accept_op, as a truth value
  unfoldable pub accept_kw : String → State F → Bool × State F
  unfolding at_kw next
  accept_kw k s = if at_kw k s then (true, next s) else (false, s)

  unfoldable pub accept_op : String → State F → Bool × State F
  unfolding at_op next
  accept_op o s = if at_op o s then (true, next s) else (false, s)

  unfoldable pub expect_kw : String → State F → Result (State F)
  unfolding at_kw next
  expect_kw k s = if at_kw k s then ok (next s) else err parse_error

  unfoldable pub expect_op : String → State F → Result (State F)
  unfolding at_op next
  expect_op o s = if at_op o s then ok (next s) else err parse_error

-- t.value in AGGREGATES, IDENT_OK_KEYWORDS
unfoldable pub is_aggregate : String → Bool
is_aggregate k =
    str_eq k "COUNT" || (str_eq k "SUM" || (str_eq k "AVG" || (str_eq k "MIN" || str_eq k "MAX")))

unfoldable pub is_ident_ok : String → Bool
unfolding is_aggregate
is_ident_ok k = str_eq k "INT" || (str_eq k "TEXT" || is_aggregate k)

module _ {F : Type 0} (lower : String → String) where
  ident_of : List (Token F) → Option String
  unfolding is_ident_ok
  ident_of (Token.ident k ∷ r) = some (lower k)
  ident_of (Token.kw k ∷ r) = if is_ident_ok k then some (lower k) else none
  ident_of r = none

  unfoldable pub expect_ident : State F → Parsed F String
  unfolding ident_of next
  expect_ident s = elim (ident_of s.rest) [ none ↦ err parse_error | some k ↦ ok (k, next s) ]

module _ {F : Type 0} {A : Type 0} where
  -- The items behind the first: `while self.accept_op(",")`, on fuel.
  unfoldable pub more : (State F → Parsed F A) → ℕ → State F → Parsed F (List A)
  unfolding at_op next
  more item zero s = err out_of_fuel
  more item (suc n) s = elim (at_op "," s) [
    | false ↦ ok ([], s)
    | true ↦ do (a, s') ← item (next s); (as_, s'') ← more item n s'; ok (a ∷ as_, s'')
  ]

  unfoldable pub comma_list : (State F → Parsed F A) → ℕ → State F → Parsed F (List A)
  unfolding more
  comma_list item n s = do (a, s') ← item s; (as_, s'') ← more item n s'; ok (a ∷ as_, s'')
