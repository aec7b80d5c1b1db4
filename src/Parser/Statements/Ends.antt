-- ===== src/Parser/Statements/Ends.antt =====
-- Enough fuel for the statements of leafdb/sqlparse.py.
use text.Mathlib.Text.{◌==◌ as str_eq}
use leafdb.Prelude.{
  ◌≢◌, ℕ, zero, suc, ◌+◌, ◌<◌, ◌≤◌, ◌≡◌, refl, ap, List, [], ◌∷◌, Bool, true, false, ◌||◌, String,
  inl, inr, Bool-cases, Option-cases, if◌then◌else◌, length, arith,
}
use leafdb.Prelude.Errors.{Result, ok, err, ◌>>=◌, out_of_fuel, parse_error}
use leafdb.Statement.{Statement}
use leafdb.Parser.{Token, State, Parsed, next, at_kw, at_op, accept_op, expect_kw, expect_ident}
use leafdb.Parser.Fuel.{
  is_fuel, Ends, Ends-bind, Ends-weaken, size, left_of, Takes, next-less, next-at_kw, next-at_op,
  found-less,
}
use leafdb.Parser.Select.{expression, parse_select}
use leafdb.Parser.Statements.{
  parens, parse_columns, parse_insert, type_of, expect_ident_or_type, column_def, parse_create,
  parse_delete, assignment, parse_update, parse_drop, parse_plain, parse_stmt, is_explain, keyword,
  at_eof, skip_semicolons, script_loop, enough, start, parse_statement, parse_script,
}
use leafdb.Parser.Select.Ends.{
  Keeps, takes-then, keeps-then, kw-then, op-then, expect_ident-Takes, accept_op-le,
  expression-Takes, ident-then, expression-then, optional-then, list-then, parse_select-Takes,
}

module _ {F : Type 0} (lower : String → String) (text_slice : ℕ → ℕ → String) (n bound : ℕ)
    (fuel : bound < n) where
  parens-Takes :
      {A : Type 0} (p : State F → Parsed F A)
      → ((t : State F) → size t ≤ bound → Takes p t)
      → (s : State F) → size s ≤ bound
      → Takes (parens lower text_slice n p) s
  unfolding parens
  parens-Takes p takes s b = op-then (size s) "(" s _ (λ s1 h1.
      list-then lower text_slice n bound fuel (size s) p s1 _ (omega arith) takes
        (λ r h. op-then (size s) ")" r.1 _ (λ s3 h3. omega arith)))

  parse_columns-Keeps :
      (s : State F) → size s ≤ bound → Keeps s (parse_columns lower text_slice n s)
  unfolding parse_columns
  parse_columns-Keeps s b = elim (Bool-cases (at_op "(" s)) [
    | inr e ↦ rw (e, parse_columns) (omega arith)
    | inl e ↦
        rw (e, parse_columns)
          (takes-then (suc (size s)) (parens lower text_slice n (expect_ident lower)) s _
            (parens-Takes (expect_ident lower) (λ t c. expect_ident-Takes lower t) s b)
            (λ r h. omega arith))
  ]

  parse_insert-Takes : (s : State F) → size s ≤ bound → Takes (parse_insert lower text_slice n) s
  unfolding parse_insert
  parse_insert-Takes s b = kw-then (size s) "INSERT" s _ (λ s1 h1.
      kw-then (size s) "INTO" s1 _ (λ s2 h2.
        ident-then lower text_slice n bound fuel (size s) s2 _ (λ r3 h3.
          keeps-then (size s) (parse_columns lower text_slice n) r3.1 _
            (parse_columns-Keeps r3.1 (omega arith))
            (λ r4 h4. kw-then (size s) "VALUES" r4.1 _ (λ s5 h5.
              list-then lower text_slice n bound fuel (size s)
                (parens lower text_slice n (expression lower text_slice n)) s5 _ (omega arith)
                (parens-Takes (expression lower text_slice n)
                  (expression-Takes lower text_slice n bound fuel))
                (λ r6 h6. omega arith))))))

  expect_ident_or_type-Takes : (s : State F) → Takes (expect_ident_or_type lower text_slice n) s
  unfolding expect_ident_or_type type_of
  expect_ident_or_type-Takes s = elim (Option-cases (type_of lower text_slice n s.rest)) [
    | inl h ↦ rw (h, expect_ident_or_type) refl
    | inr (k, h) ↦ rw (h, expect_ident_or_type) (found-less (type_of lower text_slice n) s k refl h)
  ]

  column_def-Takes : (s : State F) → size s ≤ bound → Takes (column_def lower text_slice n) s
  unfolding column_def
  column_def-Takes s b = ident-then lower text_slice n bound fuel (size s) s _ (λ r1 h1.
      takes-then (size s) (expect_ident_or_type lower text_slice n) r1.1 _
        (expect_ident_or_type-Takes r1.1)
        (λ r2 h2.
          optional-then lower text_slice n bound fuel (size s) "PRIMARY"
            (λ t. do t' ← expect_kw "KEY" t; ok (true, t')) r2.1 _ (omega arith)
            (λ t c. kw-then (size t) "KEY" t _ (λ u h. h)) (λ r3 h3. omega arith)))

  parse_create-Takes : (s : State F) → size s ≤ bound → Takes (parse_create lower text_slice n) s
  unfolding parse_create
  parse_create-Takes s b = kw-then (size s) "CREATE" s _ (λ s1 h1.
      elim (Bool-cases (at_kw "TABLE" s1)) [
        | inl e ↦
            let l = next-at_kw "TABLE" s1 e in
            rw e (
              ident-then lower text_slice n bound fuel (size s) (next s1) _ (λ r2 h2.
                takes-then (size s) (parens lower text_slice n (column_def lower text_slice n)) r2.1
                  _
                  (parens-Takes (column_def lower text_slice n) column_def-Takes r2.1 (omega arith))
                  (λ r3 h3. omega arith)))
        | inr e ↦ elim (Bool-cases (at_kw "INDEX" s1)) [
          | inr e' ↦ rw (e, e') refl
          | inl e' ↦
              let l = next-at_kw "INDEX" s1 e' in
              rw (e, e')
                (ident-then lower text_slice n bound fuel (size s) (next s1) _ (λ r2 h2.
                  kw-then (size s) "ON" r2.1 _ (λ s3 h3.
                    ident-then lower text_slice n bound fuel (size s) s3 _ (λ r4 h4.
                      op-then (size s) "(" r4.1 _ (λ s5 h5.
                        ident-then lower text_slice n bound fuel (size s) s5 _
                          (λ r6 h6. op-then (size s) ")" r6.1 _ (λ s7 h7. omega arith)))))))
        ]
      ])

  parse_delete-Takes : (s : State F) → size s ≤ bound → Takes (parse_delete lower text_slice n) s
  unfolding parse_delete
  parse_delete-Takes s b = kw-then (size s) "DELETE" s _ (λ s1 h1.
      kw-then (size s) "FROM" s1 _ (λ s2 h2.
        ident-then lower text_slice n bound fuel (size s) s2 _ (λ r3 h3.
          optional-then lower text_slice n bound fuel (size s) "WHERE"
            (expression lower text_slice n) r3.1 _ (omega arith)
            (expression-Takes lower text_slice n bound fuel) (λ r4 h4. omega arith))))

  assignment-Takes : (s : State F) → size s ≤ bound → Takes (assignment lower text_slice n) s
  unfolding assignment
  assignment-Takes s b = ident-then lower text_slice n bound fuel (size s) s _ (λ r1 h1.
      op-then (size s) "=" r1.1 _ (λ s2 h2.
        expression-then lower text_slice n bound fuel (size s) s2 _ (omega arith)
          (λ r3 h3. omega arith)))

  parse_update-Takes : (s : State F) → size s ≤ bound → Takes (parse_update lower text_slice n) s
  unfolding parse_update
  parse_update-Takes s b = kw-then (size s) "UPDATE" s _ (λ s1 h1.
      ident-then lower text_slice n bound fuel (size s) s1 _ (λ r2 h2.
        kw-then (size s) "SET" r2.1 _ (λ s3 h3.
          list-then lower text_slice n bound fuel (size s) (assignment lower text_slice n) s3 _
            (omega arith) assignment-Takes
            (λ r4 h4.
              optional-then lower text_slice n bound fuel (size s) "WHERE"
                (expression lower text_slice n) r4.1 _ (omega arith)
                (expression-Takes lower text_slice n bound fuel) (λ r5 h5. omega arith)))))

  parse_drop-Keeps : (s : State F) → Keeps s (parse_drop lower text_slice n s)
  unfolding parse_drop
  parse_drop-Keeps s = elim (Bool-cases (at_kw "TABLE" s)) [
    | inl e ↦
        let l = next-at_kw "TABLE" s e in
        rw (e, parse_drop)
          (ident-then lower text_slice n bound fuel (suc (size s)) (next s) _ (λ r h. omega arith))
    | inr e ↦ elim (Bool-cases (at_kw "INDEX" s)) [
      | inl e' ↦
          let l = next-at_kw "INDEX" s e' in
          rw (e, e', parse_drop)
            (ident-then lower text_slice n bound fuel (suc (size s)) (next s) _
              (λ r h. omega arith))
      | inr e' ↦ rw (e, e', parse_drop) refl
    ]
  ]

  parse_plain-Takes :
      (k : String) (s : State F)
      → 0 < size s
      → size s ≤ bound
      → Takes (parse_plain lower text_slice n k) s
  unfolding parse_plain
  parse_plain-Takes k s p b =
      choose k "SELECT" _ _
        (takes-then (size s) (parse_select lower text_slice n) s _
          (parse_select-Takes lower text_slice n bound fuel s b) (λ r h. h))
        (choose k "INSERT" _ _ (parse_insert-Takes s b) (
          choose k "CREATE" _ _ (parse_create-Takes s b) (
            choose k "DELETE" _ _ (parse_delete-Takes s b) (
              choose k "UPDATE" _ _ (parse_update-Takes s b) (
                choose k "DROP" _ _
                  (Ends-weaken left_of (suc (size (next s))) (size s)
                    (parse_drop lower text_slice n (next s)) (next-less s p)
                    (parse_drop-Keeps (next s)))
                  (choose k "BEGIN" _ _ (next-less s p) (
                    choose k "COMMIT" _ _ (next-less s p)
                      (choose k "ROLLBACK" _ _ (next-less s p) refl))))))))
    where
      choose :
          (k w : String) (r r' : Parsed F (Statement F))
          → Ends left_of (size s) r
          → Ends left_of (size s) r'
          → Ends left_of (size s) (if str_eq k w then r else r')
      choose k w r r' h h' = elim (Bool-cases (str_eq k w)) [ inl e ↦ rw e h | inr e ↦ rw e h' ]

  keyword-Takes :
      (r : List (Token F)) (s : State F)
      → s.rest ≡ r
      → size s ≤ bound
      → Takes (parse_plain lower text_slice n (keyword r)) s
  unfolding parse_plain
  keyword-Takes [] s e b = refl
  keyword-Takes (t ∷ r) s e b = parse_plain-Takes (keyword (t ∷ r)) s (omega (arith, ap length e)) b

  parse_stmt-Takes :
      (m : ℕ) (s : State F)
      → size s ≤ bound
      → size s < m
      → Takes (parse_stmt lower text_slice n m) s
  unfolding parse_stmt
  parse_stmt-Takes zero s b f = absurd (omega arith)
  parse_stmt-Takes (suc m) s b f = elim (Bool-cases (at_kw "EXPLAIN" s)) [
    | inr e ↦ rw (e, parse_stmt) (keyword-Takes s.rest s refl b)
    | inl e ↦
        let l = next-at_kw "EXPLAIN" s e in
        rw (e, parse_stmt)
          (takes-then (size s) (parse_stmt lower text_slice n m) (next s) _
            (parse_stmt-Takes m (next s) (omega arith) (omega arith))
            (λ r h. elim (Bool-cases (is_explain r.0)) [
              | inl x ↦ rw x refl
              | inr x ↦ rw x (omega arith)
            ]))
  ]

  skip_semicolons-Ends :
      (m : ℕ) (s : State F) → size s < m → Ends size (suc (size s)) (skip_semicolons m s)
  unfolding skip_semicolons
  skip_semicolons-Ends zero s f = absurd (omega arith)
  skip_semicolons-Ends (suc m) s f = elim (Bool-cases (at_op ";" s)) [
    | inr e ↦ rw (e, skip_semicolons) (omega arith)
    | inl e ↦
        let l = next-at_op ";" s e in
        rw (e, skip_semicolons)
          (Ends-weaken size (suc (size (next s))) (suc (size s)) (skip_semicolons m (next s))
            (omega arith) (skip_semicolons-Ends m (next s) (omega arith)))
  ]

  -- The script is read to its end.
  abbrev nothing : List (Statement F) → ℕ
  nothing stmts = 0

  finish :
      (b : Bool) (stmt : Statement F) (r : Result (List (Statement F)))
      → Ends nothing 1 r
      → Ends nothing 1 (elim b as (λ x. Result (List (Statement F))) [
        | false ↦ err parse_error
        | true ↦ r >>= λ rest. ok (stmt ∷ rest)
      ])
  finish false stmt r h = refl
  finish true stmt (ok stmts) h = omega arith
  finish true stmt (err e) h = h

  script_loop-Ends :
      (m : ℕ) (s : State F)
      → size s ≤ bound
      → size s < m
      → Ends nothing 1 (script_loop lower text_slice n m s)
  unfolding script_loop
  script_loop-Ends zero s b f = absurd (omega arith)
  script_loop-Ends (suc m) s b f =
      Ends-bind size nothing (suc (size s)) 1 (skip_semicolons n s) _
        (skip_semicolons-Ends n s (omega arith))
        (λ s1 h1. elim (Bool-cases (at_eof s1)) [
          | inl e ↦ rw e (omega arith)
          | inr e ↦ rw e (
              Ends-bind left_of nothing (size s1) 1 (parse_stmt lower text_slice n n s1) _
                (parse_stmt-Takes n s1 (omega arith) (omega arith))
                (λ r h.
                  let s3 = (accept_op ";" r.1).1 in
                  let l = accept_op-le ";" r.1 in
                  finish ((accept_op ";" r.1).0 || at_eof s3) r.0
                    (script_loop lower text_slice n m s3)
                    (script_loop-Ends m s3 (omega arith) (omega arith))))
        ])

is_fuel_result : {B : Type 0} → Result B → Bool
is_fuel_result (ok b) = false
is_fuel_result (err e) = is_fuel e

never : {B : Type 0} (m : B → ℕ) (k : ℕ) (r : Result B) → Ends m k r → r ≢ err out_of_fuel
unfolding is_fuel_result
never m k (ok b) h e = cc e
never m k (err x) h e = absurd (cc (h, ap is_fuel_result e))

module _ {F : Type 0} (lower : String → String) (text_slice : ℕ → ℕ → String) where
  length-enough : (tokens : List (Token F)) → enough lower text_slice tokens ≡ length tokens + 2
  length-enough [] = refl
  length-enough (t ∷ r) = omega (arith, length-enough r)

  -- The fuel that the parser of one statement is given is enough, whatever the tokens: the
  -- statement is parsed or the parser raises an exception of its own.
  pub parse_statement-ends :
      (tokens : List (Token F)) → parse_statement lower text_slice tokens ≢ err out_of_fuel
  unfolding parse_statement
  parse_statement-ends tokens =
      let n = enough lower text_slice tokens in
      let s = start lower text_slice tokens in
      let l = length-enough tokens in
      never (λ x. 0) 1 (parse_statement lower text_slice tokens)
        (Ends-bind left_of (λ x. 0) (size s) 1 (parse_stmt lower text_slice n n s) _
          (parse_stmt-Takes lower text_slice n (size s) (omega arith) n s (omega arith)
            (omega arith))
          (λ r h. elim (Bool-cases (at_eof (accept_op ";" r.1).1)) [
            | inl e ↦ rw e (omega arith)
            | inr e ↦ rw e refl
          ]))

  -- The fuel that the parser of a script is given is enough, whatever the tokens.
  pub parse_script-ends :
      (tokens : List (Token F)) → parse_script lower text_slice tokens ≢ err out_of_fuel
  unfolding parse_script
  parse_script-ends tokens =
      let n = enough lower text_slice tokens in
      let s = start lower text_slice tokens in
      let l = length-enough tokens in
      never (λ x. 0) 1 (parse_script lower text_slice tokens)
        (script_loop-Ends lower text_slice n (size s) (omega arith) n s (omega arith) (omega arith))
