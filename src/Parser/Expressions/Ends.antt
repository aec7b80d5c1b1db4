-- ===== src/Parser/Expressions/Ends.antt =====
-- Enough fuel for an expression: every parser of leafdb/sqlparse.py below `parse_expression` takes
-- a token or raises an exception of its own.
use text.Mathlib.Text.{◌==◌ as str_eq}
use leafdb.Prelude.{
  ℕ, zero, suc, ◌<◌, ◌≤◌, ◌≡◌, refl, ap, List, [], ◌∷◌, Bool, true, ◌&&◌, Option, none, String, inl,
  inr, Bool-cases, Option-cases, length, arith,
}
use leafdb.Prelude.Errors.{◌>>=◌}
use leafdb.Expr.{Expr, BinaryOp}
use leafdb.Parser.{
  Token, State, Parsed, next, at_kw, at_op, accept_kw, expect_kw, expect_op, is_aggregate,
  is_ident_ok, comma_list,
}
use leafdb.Parser.Fuel.{
  Ends, Ends-bind, Ends-weaken, size, left_of, Takes, next-less, next-le, next-at_kw, next-at_op,
  accept_kw-le, expect_kw-Ends, expect_op-Ends, found-less, comma_list-Takes,
}
use leafdb.Parser.Expressions.{
  additive_op, multiplicative_op, comparison_op, column_tail, parse_column, second_op, parse_func,
  parse_kw, parse_parens, primary_of, parse_primary, parse_unary, binary_loop, parse_multiplicative,
  parse_additive, parse_is_null, parse_between, parse_in, parse_like, parse_comparison, negatable,
  predicate_tail, parse_predicate, parse_not, kw_op, parse_and, parse_or, parse_expression,
}

module _ {F : Type 0} where
  column_tail-le :
      (k : String) (r : List (Token F)) (s : State F) → size (column_tail k r s).1 ≤ size s
  unfolding column_tail
  column_tail-le k [] s = omega arith
  column_tail-le k (Token.op o ∷ Token.ident c ∷ r) s = elim (Bool-cases (str_eq o ".")) [
    | inl e ↦ rw e (omega (arith, next-le (next s), next-le s))
    | inr e ↦ rw e (omega arith)
  ]
  column_tail-le k r s = omega arith

module _ {F : Type 0} (lower : String → String) (sub : State F → Parsed F (Expr F)) (bound : ℕ)
    (nested : (s : State F) → size s < bound → Takes sub s) where
  parse_column-Ends : (k : String) (s : State F) → Ends left_of (suc (size s)) (parse_column k s)
  unfolding parse_column
  parse_column-Ends k s = omega (arith, column_tail-le k s.rest s)

  parse_func-Ends :
      (name : String) (s : State F)
      → size s < bound
      → Ends left_of (suc (size s)) (parse_func sub name s)
  unfolding parse_func
  parse_func-Ends name s b = elim (Bool-cases (str_eq name "COUNT" && at_op "*" s)) [
    | inl e ↦ rw e (
        Ends-bind size left_of (size (next s)) (suc (size s)) (expect_op ")" (next s)) _
          (expect_op-Ends ")" (next s)) (λ s' h. omega (arith, next-le s)))
    | inr e ↦ rw e (
        let s1 = (accept_kw "DISTINCT" s).1 in
        let l = accept_kw-le "DISTINCT" s in
        Ends-bind left_of left_of (size s1) (suc (size s)) (sub s1) _ (nested s1 (omega arith))
          (λ r h.
            Ends-bind size left_of (size r.1) (suc (size s)) (expect_op ")" r.1) _
              (expect_op-Ends ")" r.1) (λ s3 g. omega arith)))
  ]

  parse_kw-Takes :
      (k : String) (s : State F) → 0 < size s → size s ≤ bound → Takes (parse_kw lower sub k) s
  unfolding parse_kw
  parse_kw-Takes k s p b = elim (Bool-cases (str_eq k "NULL")) [
    | inl e ↦ rw e (next-less s p)
    | inr e ↦ elim (Bool-cases (is_aggregate k && second_op "(" s.rest)) [
      | inl e' ↦
          let l = next-less s p in
          let l' = next-le (next s) in
          rw (e, e')
            (Ends-weaken left_of (suc (size (next (next s)))) (size s)
              (parse_func sub k (next (next s))) (omega arith)
              (parse_func-Ends k (next (next s)) (omega arith)))
      | inr e' ↦ elim (Bool-cases (is_ident_ok k)) [
        | inl e'' ↦
            rw (e, e', e'')
              (Ends-weaken left_of (suc (size (next s))) (size s) (parse_column (lower k) (next s))
                (next-less s p) (parse_column-Ends (lower k) (next s)))
        | inr e'' ↦ rw (e, e', e'') refl
      ]
    ]
  ]

  parse_parens-Takes :
      (o : String) (s : State F) → 0 < size s → size s ≤ bound → Takes (parse_parens lower sub o) s
  unfolding parse_parens
  parse_parens-Takes o s p b = elim (Bool-cases (str_eq o "(")) [
    | inl e ↦
        let l = next-less s p in
        rw e (
          Ends-bind left_of left_of (size (next s)) (size s) (sub (next s)) _
            (nested (next s) (omega arith))
            (λ r h.
              Ends-bind size left_of (size r.1) (size s) (expect_op ")" r.1) _
                (expect_op-Ends ")" r.1) (λ s' g. omega arith)))
    | inr e ↦ rw e refl
  ]

  primary_of-Takes :
      (r : List (Token F)) (s : State F)
      → s.rest ≡ r
      → size s ≤ bound
      → Ends left_of (size s) (primary_of lower sub r s)
  unfolding primary_of
  primary_of-Takes [] s e b = refl
  primary_of-Takes (Token.whole n ∷ r) s e b = next-less s (omega (arith, ap length e))
  primary_of-Takes (Token.real x ∷ r) s e b = next-less s (omega (arith, ap length e))
  primary_of-Takes (Token.str t ∷ r) s e b = next-less s (omega (arith, ap length e))
  primary_of-Takes (Token.kw k ∷ r) s e b = parse_kw-Takes k s (omega (arith, ap length e)) b
  primary_of-Takes (Token.ident k ∷ r) s e b =
      Ends-weaken left_of (suc (size (next s))) (size s) (parse_column (lower k) (next s))
        (next-less s (omega (arith, ap length e))) (parse_column-Ends (lower k) (next s))
  primary_of-Takes (Token.op o ∷ r) s e b = parse_parens-Takes o s (omega (arith, ap length e)) b

  parse_unary-Takes :
      (n : ℕ) (s : State F) → size s ≤ bound → size s < n → Takes (parse_unary lower sub n) s
  unfolding parse_unary parse_primary
  parse_unary-Takes zero s b f = absurd (omega arith)
  parse_unary-Takes (suc n) s b f = elim (Bool-cases (at_op "-" s)) [
    | inl e ↦
        let l = next-at_op "-" s e in
        rw (e, parse_unary)
          (Ends-bind left_of left_of (size (next s)) (size s) (parse_unary lower sub n (next s)) _
            (parse_unary-Takes n (next s) (omega arith) (omega arith)) (λ r h. omega arith))
    | inr e ↦ elim (Bool-cases (at_op "+" s)) [
      | inl e' ↦
          let l = next-at_op "+" s e' in
          rw (e, e', parse_unary)
            (Ends-weaken left_of (size (next s)) (size s) (parse_unary lower sub n (next s))
              (omega arith) (parse_unary-Takes n (next s) (omega arith) (omega arith)))
      | inr e' ↦ rw (e, e', parse_unary) (primary_of-Takes s.rest s refl b)
    ]
  ]

  binary_loop-Ends :
      (op_of : List (Token F) → Option BinaryOp) (operand : State F → Parsed F (Expr F))
      → op_of [] ≡ none
      → ((s : State F) → size s ≤ bound → Takes operand s)
      → (n : ℕ) (left : Expr F) (s : State F) → size s ≤ bound
      → size s < n
      → Ends left_of (suc (size s)) (binary_loop lower sub op_of operand n left s)
  unfolding binary_loop
  binary_loop-Ends op_of operand e takes zero left s b f = absurd (omega arith)
  binary_loop-Ends op_of operand e takes (suc n) left s b f = elim (Option-cases (op_of s.rest)) [
    | inl h ↦ rw (h, binary_loop) (omega arith)
    | inr (op, h) ↦
        let l = found-less op_of s op e h in
        rw (h, binary_loop)
          (Ends-bind left_of left_of (size (next s)) (suc (size s)) (operand (next s)) _
            (takes (next s) (omega arith))
            (λ r g.
              Ends-weaken left_of (suc (size r.1)) (suc (size s))
                (binary_loop lower sub op_of operand n (Expr.bin_op op left r.0) r.1) (omega arith)
                (binary_loop-Ends op_of operand e takes n (Expr.bin_op op left r.0) r.1
                  (omega arith) (omega arith))))
  ]

  -- An operand and the loop behind it.
  chain-Takes :
      (op_of : List (Token F) → Option BinaryOp) (operand : State F → Parsed F (Expr F)) (n : ℕ)
      → op_of [] ≡ none
      → bound < n
      → ((s : State F) → size s ≤ bound → Takes operand s)
      → (s : State F) → size s ≤ bound
      → Takes (λ s. operand s >>= λ r. binary_loop lower sub op_of operand n r.0 r.1) s
  chain-Takes op_of operand n e f takes s b =
      Ends-bind left_of left_of (size s) (size s) (operand s) _ (takes s b) (λ r h.
        Ends-weaken left_of (suc (size r.1)) (size s)
          (binary_loop lower sub op_of operand n r.0 r.1) h
          (binary_loop-Ends op_of operand e takes n r.0 r.1 (omega arith) (omega arith)))

  module _ (n : ℕ) (fuel : bound < n) where
    parse_multiplicative-Takes :
        (s : State F) → size s ≤ bound → Takes (parse_multiplicative lower sub n) s
    unfolding parse_multiplicative multiplicative_op
    parse_multiplicative-Takes s b =
        chain-Takes multiplicative_op (parse_unary lower sub n) n refl fuel
          (λ t c. parse_unary-Takes n t c (omega arith)) s b

    parse_additive-Takes : (s : State F) → size s ≤ bound → Takes (parse_additive lower sub n) s
    unfolding parse_additive additive_op
    parse_additive-Takes s b =
        chain-Takes additive_op (parse_multiplicative lower sub n) n refl fuel
          parse_multiplicative-Takes s b

    -- What follows an operand may take nothing.
    abbrev Follows : State F → Parsed F (Expr F) → Type 0
    Follows s r = Ends left_of (suc (size s)) r

    -- An operand and what returns it in an expression.
    operand-Follows :
        (s t : State F) (f : Expr F × State F → Parsed F (Expr F))
        → size s ≤ bound
        → size s ≤ size t
        → ((r : Expr F × State F) → size r.1 < size s → Ends left_of (suc (size t)) (f r))
        → Follows t (parse_additive lower sub n s >>= f)
    operand-Follows s t f b l h =
        Ends-bind left_of left_of (size s) (suc (size t)) (parse_additive lower sub n s) f
          (parse_additive-Takes s b) h

    parse_is_null-Follows :
        (left : Expr F) (s : State F) → Follows s (parse_is_null lower sub left s)
    unfolding parse_is_null
    parse_is_null-Follows left s =
        let s1 = (accept_kw "NOT" s).1 in
        let l = accept_kw-le "NOT" s in
        Ends-bind size left_of (size s1) (suc (size s)) (expect_kw "NULL" s1) _
          (expect_kw-Ends "NULL" s1) (λ s2 h. omega arith)

    parse_between-Follows :
        (left : Expr F) (negated : Bool) (s : State F)
        → size s ≤ bound
        → Follows s (parse_between lower sub n left negated s)
    unfolding parse_between
    parse_between-Follows left negated s b = operand-Follows s s _ b (omega arith) (λ r h.
        Ends-bind size left_of (size r.1) (suc (size s)) (expect_kw "AND" r.1) _
          (expect_kw-Ends "AND" r.1)
          (λ s2 g. operand-Follows s2 s _ (omega arith) (omega arith) (λ q j. omega arith)))

    parse_in-Follows :
        (left : Expr F) (negated : Bool) (s : State F)
        → size s ≤ bound
        → Follows s (parse_in lower sub n left negated s)
    unfolding parse_in
    parse_in-Follows left negated s b =
        Ends-bind size left_of (size s) (suc (size s)) (expect_op "(" s) _ (expect_op-Ends "(" s)
          (λ s1 h.
            Ends-bind left_of left_of (size s1) (suc (size s))
              (comma_list (parse_additive lower sub n) n s1) _
              (comma_list-Takes (parse_additive lower sub n) bound parse_additive-Takes n s1
                (omega arith) (omega arith))
              (λ r g.
                Ends-bind size left_of (size r.1) (suc (size s)) (expect_op ")" r.1) _
                  (expect_op-Ends ")" r.1) (λ s3 j. omega arith)))

    parse_comparison-Follows :
        (left : Expr F) (s : State F)
        → size s ≤ bound
        → Follows s (parse_comparison lower sub n left s)
    unfolding parse_comparison comparison_op
    parse_comparison-Follows left s b = elim (Option-cases (comparison_op s.rest)) [
      | inl h ↦ rw (h, parse_comparison) (omega arith)
      | inr (op, h) ↦
          let l = found-less comparison_op s op refl h in
          rw (h, parse_comparison)
            (operand-Follows (next s) s _ (omega arith) (omega arith) (λ r g. omega arith))
    ]

    shorter :
        (k : String) (s : State F) (p : State F → Parsed F (Expr F))
        → at_kw k s ≡ true
        → size s ≤ bound
        → ((t : State F) → size t ≤ bound → Follows t (p t))
        → Follows s (p (next s))
    shorter k s p e b h =
        let l = next-at_kw k s e in
        Ends-weaken left_of (suc (size (next s))) (suc (size s)) (p (next s)) (omega arith)
          (h (next s) (omega arith))

    negatable-Follows :
        (left : Expr F) (negated : Bool) (s : State F)
        → size s ≤ bound
        → Follows s (negatable lower sub n left negated s)
    unfolding negatable parse_like
    negatable-Follows left negated s b = elim (Bool-cases (at_kw "BETWEEN" s)) [
      | inl e ↦
          rw (e, negatable)
            (shorter "BETWEEN" s (parse_between lower sub n left negated) e b
              (parse_between-Follows left negated))
      | inr e ↦ elim (Bool-cases (at_kw "IN" s)) [
        | inl e' ↦
            rw (e, e', negatable)
              (shorter "IN" s (parse_in lower sub n left negated) e' b
                (parse_in-Follows left negated))
        | inr e' ↦ elim (Bool-cases (at_kw "LIKE" s)) [
          | inl e'' ↦
              rw (e, e', e'', negatable)
                (shorter "LIKE" s (parse_like lower sub n left negated) e'' b
                  (λ t c. operand-Follows t t _ c (omega arith) (λ r g. omega arith)))
          | inr e'' ↦
              rw (e, e', e'', negatable)
                (elim (Bool-cases negated) [
                  | inl y ↦ rw y refl
                  | inr y ↦ rw y (parse_comparison-Follows left s b)
                ])
        ]
      ]
    ]

    predicate_tail-Follows :
        (left : Expr F) (s : State F)
        → size s ≤ bound
        → Follows s (predicate_tail lower sub n left s)
    unfolding predicate_tail
    predicate_tail-Follows left s b = elim (Bool-cases (at_kw "IS" s)) [
      | inl e ↦
          rw (e, predicate_tail)
            (shorter "IS" s (parse_is_null lower sub left) e b
              (λ t c. parse_is_null-Follows left t))
      | inr e ↦
          let s1 = (accept_kw "NOT" s).1 in
          let l = accept_kw-le "NOT" s in
          rw (e, predicate_tail)
            (Ends-weaken left_of (suc (size s1)) (suc (size s))
              (negatable lower sub n left (accept_kw "NOT" s).0 s1) (omega arith)
              (negatable-Follows left (accept_kw "NOT" s).0 s1 (omega arith)))
    ]

    parse_predicate-Takes : (s : State F) → size s ≤ bound → Takes (parse_predicate lower sub n) s
    unfolding parse_predicate
    parse_predicate-Takes s b =
        Ends-bind left_of left_of (size s) (size s) (parse_additive lower sub n s) _
          (parse_additive-Takes s b)
          (λ r h.
            Ends-weaken left_of (suc (size r.1)) (size s) (predicate_tail lower sub n r.0 r.1) h
              (predicate_tail-Follows r.0 r.1 (omega arith)))

    parse_not-Takes :
        (m : ℕ) (s : State F) → size s ≤ bound → size s < m → Takes (parse_not lower sub n m) s
    unfolding parse_not
    parse_not-Takes zero s b f = absurd (omega arith)
    parse_not-Takes (suc m) s b f = elim (Bool-cases (at_kw "NOT" s)) [
      | inl e ↦
          let l = next-at_kw "NOT" s e in
          rw (e, parse_not)
            (Ends-bind left_of left_of (size (next s)) (size s) (parse_not lower sub n m (next s)) _
              (parse_not-Takes m (next s) (omega arith) (omega arith)) (λ r h. omega arith))
      | inr e ↦ rw (e, parse_not) (parse_predicate-Takes s b)
    ]

    parse_and-Takes : (s : State F) → size s ≤ bound → Takes (parse_and lower sub n) s
    unfolding parse_and
    parse_and-Takes s b =
        chain-Takes (kw_op lower sub "AND" BinaryOp.and) (parse_not lower sub n n) n refl fuel
          (λ t c. parse_not-Takes n t c (omega arith)) s b

    parse_or-Takes : (s : State F) → size s ≤ bound → Takes (parse_or lower sub n) s
    unfolding parse_or
    parse_or-Takes s b =
        chain-Takes (kw_op lower sub "OR" BinaryOp.or) (parse_and lower sub n) n refl fuel
          parse_and-Takes s b

module _ {F : Type 0} (lower : String → String) where
  pub parse_expression-Takes :
      (n fuel : ℕ) (s : State F)
      → size s < n
      → size s < fuel
      → Takes (parse_expression lower n fuel) s
  unfolding parse_expression
  parse_expression-Takes n zero s l f = absurd (omega arith)
  parse_expression-Takes n (suc fuel) s l f =
      parse_or-Takes lower (parse_expression lower n fuel) (size s)
        (λ t c. parse_expression-Takes n fuel t (omega arith) (omega arith)) n l s (omega arith)
