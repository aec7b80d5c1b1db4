-- ===== src/Parser/Select/Ends.antt =====
-- Enough fuel for a SELECT.
use leafdb.Prelude.{
  ℕ, zero, suc, ◌<◌, ◌≤◌, refl, List, [], ◌∷◌, Option, none, some, String, inl, inr, Bool-cases,
  Option-cases, arith,
}
use leafdb.Prelude.Errors.{ok, ◌>>=◌}
use leafdb.Expr.{Expr}
use leafdb.Statement.{JoinClause, JoinType}
use leafdb.Parser.{
  State, Parsed, next, ident_of, at_kw, at_op, accept_kw, accept_op, expect_kw, expect_op,
  expect_ident, comma_list,
}
use leafdb.Parser.Fuel.{
  Ends, Ends-bind, Ends-weaken, size, left_of, Takes, next-le, next-at_kw, next-at_op, accept_kw-le,
  expect_kw-Ends, expect_op-Ends, found-less, comma_list-Takes,
}
use leafdb.Parser.Expressions.Ends.{parse_expression-Takes}
use leafdb.Parser.Select.{
  join_body, parse_join_opt, int_of, expect_int, optional, by_list, join_word, join_head,
  expression, alias_of, parse_alias, select_item, parse_joins, order_item, parse_limits,
  parse_select,
}

module _ {F : Type 0} where
  -- What a method leaves that may take nothing.
  abbrev pub Keeps : {A : Type 0} → State F → Parsed F A → Type 0
  Keeps s r = Ends left_of (suc (size s)) r

  -- A method, and what follows on what it leaves.
  pub takes-then :
      {A C : Type 0} (k : ℕ) (p : State F → Parsed F A) (s : State F) (f : A × State F → Parsed F C)
      → Takes p s
      → ((r : A × State F) → size r.1 < size s → Ends left_of k (f r))
      → Ends left_of k (p s >>= f)
  takes-then k p s f h g = Ends-bind left_of left_of (size s) k (p s) f h g

  pub keeps-then :
      {A C : Type 0} (k : ℕ) (p : State F → Parsed F A) (s : State F) (f : A × State F → Parsed F C)
      → Keeps s (p s)
      → ((r : A × State F) → size r.1 ≤ size s → Ends left_of k (f r))
      → Ends left_of k (p s >>= f)
  keeps-then k p s f h g =
      Ends-bind left_of left_of (suc (size s)) k (p s) f h (λ r l. g r (omega arith))

  pub kw-then :
      {C : Type 0} (k : ℕ) (w : String) (s : State F) (f : State F → Parsed F C)
      → ((t : State F) → size t < size s → Ends left_of k (f t))
      → Ends left_of k (expect_kw w s >>= f)
  kw-then k w s f g = Ends-bind size left_of (size s) k (expect_kw w s) f (expect_kw-Ends w s) g

  pub op-then :
      {C : Type 0} (k : ℕ) (o : String) (s : State F) (f : State F → Parsed F C)
      → ((t : State F) → size t < size s → Ends left_of k (f t))
      → Ends left_of k (expect_op o s >>= f)
  op-then k o s f g = Ends-bind size left_of (size s) k (expect_op o s) f (expect_op-Ends o s) g

  pub expect_ident-Takes : (lower : String → String) (s : State F) → Takes (expect_ident lower) s
  unfolding expect_ident ident_of
  expect_ident-Takes lower s = elim (Option-cases (ident_of lower s.rest)) [
    | inl h ↦ rw (h, expect_ident) refl
    | inr (k, h) ↦ rw (h, expect_ident) (found-less (ident_of lower) s k refl h)
  ]

  expect_int-Takes : (s : State F) → Takes expect_int s
  unfolding expect_int int_of
  expect_int-Takes s = elim (Option-cases (int_of s.rest)) [
    | inl h ↦ rw (h, expect_int) refl
    | inr (k, h) ↦ rw (h, expect_int) (found-less int_of s k refl h)
  ]

  pub accept_op-le : (o : String) (s : State F) → size (accept_op o s).1 ≤ size s
  unfolding accept_op
  accept_op-le o s = elim (Bool-cases (at_op o s)) [
    | inl e ↦ rw e (next-le s)
    | inr e ↦ rw e (omega arith)
  ]

  optional-Keeps :
      {A : Type 0} (bound : ℕ) (k : String) (p : State F → Parsed F A)
      → ((t : State F) → size t ≤ bound → Takes p t)
      → (s : State F) → size s ≤ bound
      → Keeps s (optional k p s)
  unfolding optional
  optional-Keeps bound k p takes s b = elim (Bool-cases (at_kw k s)) [
    | inr e ↦ rw (e, optional) (omega arith)
    | inl e ↦
        let l = next-at_kw k s e in
        rw (e, optional)
          (takes-then (suc (size s)) p (next s) _ (takes (next s) (omega arith))
            (λ r h. omega arith))
  ]

  by_list-Keeps :
      {A : Type 0} (bound n : ℕ) (k : String) (p : State F → Parsed F A)
      → bound < n
      → ((t : State F) → size t ≤ bound → Takes p t)
      → (s : State F) → size s ≤ bound
      → Keeps s (by_list k p n s)
  unfolding by_list
  by_list-Keeps bound n k p f takes s b = elim (Bool-cases (at_kw k s)) [
    | inr e ↦ rw (e, by_list) (omega arith)
    | inl e ↦
        let l = next-at_kw k s e in
        rw (e, by_list)
          (kw-then (suc (size s)) "BY" (next s) _ (λ t h.
            Ends-weaken left_of (size t) (suc (size s)) (comma_list p n t) (omega arith)
              (comma_list-Takes p bound takes n t (omega arith) (omega arith))))
  ]

module _ {F : Type 0} (lower : String → String) (text_slice : ℕ → ℕ → String) (n bound : ℕ)
    (fuel : bound < n) where
  pub expression-Takes : (s : State F) → size s ≤ bound → Takes (expression lower text_slice n) s
  expression-Takes s b = parse_expression-Takes lower n n s (omega arith) (omega arith)

  pub ident-then :
      {C : Type 0} (k : ℕ) (s : State F) (f : String × State F → Parsed F C)
      → ((r : String × State F) → size r.1 < size s → Ends left_of k (f r))
      → Ends left_of k (expect_ident lower s >>= f)
  ident-then k s f g = takes-then k (expect_ident lower) s f (expect_ident-Takes lower s) g

  pub expression-then :
      {C : Type 0} (k : ℕ) (s : State F) (f : Expr F × State F → Parsed F C)
      → size s ≤ bound
      → ((r : Expr F × State F) → size r.1 < size s → Ends left_of k (f r))
      → Ends left_of k (expression lower text_slice n s >>= f)
  expression-then k s f b g =
      takes-then k (expression lower text_slice n) s f (expression-Takes s b) g

  parse_alias-Keeps : (s : State F) → Keeps s (parse_alias lower text_slice n s)
  unfolding parse_alias alias_of
  parse_alias-Keeps s = elim (Bool-cases (at_kw "AS" s)) [
    | inl e ↦
        let l = next-at_kw "AS" s e in
        rw (e, parse_alias) (ident-then (suc (size s)) (next s) _ (λ r h. omega arith))
    | inr e ↦ elim (Option-cases (alias_of lower text_slice n s.rest)) [
      | inl h ↦ rw (e, h, parse_alias) (omega arith)
      | inr (k, h) ↦ rw (e, h, parse_alias) (omega (arith, next-le s))
    ]
  ]

  select_item-Takes : (s : State F) → size s ≤ bound → Takes (select_item lower text_slice n) s
  unfolding select_item
  select_item-Takes s b = elim (Bool-cases (at_op "*" s)) [
    | inl e ↦ rw (e, select_item) (next-at_op "*" s e)
    | inr e ↦
        rw (e, select_item)
          (expression-then (size s) s _ b (λ r h.
            keeps-then (size s) (parse_alias lower text_slice n) r.1 _ (parse_alias-Keeps r.1)
              (λ q g. omega arith)))
  ]

  order_item-Takes : (s : State F) → size s ≤ bound → Takes (order_item lower text_slice n) s
  unfolding order_item
  order_item-Takes s b = expression-then (size s) s _ b (λ r h.
      elim (Bool-cases (accept_kw "DESC" r.1).0) [
        | inl e ↦ rw e (omega (arith, accept_kw-le "DESC" r.1))
        | inr e ↦
            rw e
              (omega (arith, accept_kw-le "DESC" r.1, accept_kw-le "ASC" (accept_kw "DESC" r.1).1))
      ])

  join_head-Keeps : (s : State F) → Keeps s (join_head s)
  unfolding join_head join_word
  join_head-Keeps s = elim (Option-cases (join_word s.rest)) [
    | inr (t, h) ↦
        let l = found-less join_word s t refl h in
        let l' = accept_kw-le "OUTER" (next s) in
        rw (h, join_head)
          (kw-then (suc (size s)) "JOIN" (accept_kw "OUTER" (next s)).1 _ (λ t g. omega arith))
    | inl h ↦ elim (Bool-cases (at_kw "JOIN" s)) [
      | inl e ↦ rw (h, e, join_head) (omega (arith, next-at_kw "JOIN" s e))
      | inr e ↦ rw (h, e, join_head) (omega arith)
    ]
  ]

  -- A join that is parsed took a token.
  abbrev join_left : Option (JoinClause F) × State F → ℕ
  join_left (none, s) = size s
  join_left (some j, s) = suc (size s)

  join_body-Ends :
      (head : Option JoinType) (s : State F)
      → size s ≤ bound
      → Ends join_left (suc (size s)) (join_body lower text_slice n head s)
  unfolding join_body
  join_body-Ends none s b = omega arith
  join_body-Ends (some t) s b =
      Ends-bind left_of join_left (size s) (suc (size s)) (expect_ident lower s) _
        (expect_ident-Takes lower s)
        (λ r h.
          Ends-bind left_of join_left (suc (size r.1)) (suc (size s))
            (parse_alias lower text_slice n r.1) _ (parse_alias-Keeps r.1)
            (λ q g.
              Ends-bind size join_left (size q.1) (suc (size s)) (expect_kw "ON" q.1) _
                (expect_kw-Ends "ON" q.1)
                (λ t j.
                  Ends-bind left_of join_left (size t) (suc (size s))
                    (expression lower text_slice n t) _ (expression-Takes t (omega arith))
                    (λ u k. omega arith))))

  parse_join_opt-Ends :
      (s : State F)
      → size s ≤ bound
      → Ends join_left (suc (size s)) (parse_join_opt lower text_slice n s)
  unfolding parse_join_opt
  parse_join_opt-Ends s b =
      Ends-bind left_of join_left (suc (size s)) (suc (size s)) (join_head s) _ (join_head-Keeps s)
        (λ r h.
          Ends-weaken join_left (suc (size r.1)) (suc (size s))
            (join_body lower text_slice n r.0 r.1) h (join_body-Ends r.0 r.1 (omega arith)))

  parse_joins-Keeps :
      (m : ℕ) (s : State F)
      → size s ≤ bound
      → size s < m
      → Keeps s (parse_joins lower text_slice n m s)
  unfolding parse_joins
  parse_joins-Keeps zero s b f = absurd (omega arith)
  parse_joins-Keeps (suc m) s b f =
      Ends-bind join_left left_of (suc (size s)) (suc (size s))
        (parse_join_opt lower text_slice n s) _ (parse_join_opt-Ends s b)
        (joined (λ t c d. parse_joins-Keeps m t c d))
    where
      joined :
          ((t : State F)
            → size t ≤ bound
            → size t < m
            → Keeps t (parse_joins lower text_slice n m t))
          → (r : Option (JoinClause F) × State F) → join_left r < suc (size s)
          → Ends left_of (suc (size s)) (elim r.0 [
            | none ↦ ok ([], r.1)
            | some j ↦ (do (rest, s'') ← parse_joins lower text_slice n m r.1; ok (j ∷ rest, s''))
          ])
      joined keeps (none, t) h = h
      joined keeps (some j, t) h =
          keeps-then (suc (size s)) (parse_joins lower text_slice n m) t _
            (keeps t (omega arith) (omega arith)) (λ q g. omega arith)

  parse_limits-Keeps : (s : State F) → Keeps s (parse_limits lower text_slice n s)
  unfolding parse_limits
  parse_limits-Keeps s =
      keeps-then (suc (size s)) (optional "LIMIT" expect_int) s _
        (optional-Keeps (size s) "LIMIT" expect_int (λ t c. expect_int-Takes t) s (omega arith))
        (λ r h.
          keeps-then (suc (size s)) (optional "OFFSET" expect_int) r.1 _
            (optional-Keeps (size r.1) "OFFSET" expect_int (λ t c. expect_int-Takes t) r.1
              (omega arith))
            (λ q g. omega arith))

  pub optional-then :
      {A C : Type 0} (k : ℕ) (w : String) (p : State F → Parsed F A) (s : State F)
      (f : Option A × State F → Parsed F C)
      → size s ≤ bound
      → ((t : State F) → size t ≤ bound → Takes p t)
      → ((r : Option A × State F) → size r.1 ≤ size s → Ends left_of k (f r))
      → Ends left_of k (optional w p s >>= f)
  optional-then k w p s f b takes g =
      keeps-then k (optional w p) s f (optional-Keeps bound w p takes s b) g

  by_list-then :
      {A C : Type 0} (k : ℕ) (w : String) (p : State F → Parsed F A) (s : State F)
      (f : List A × State F → Parsed F C)
      → size s ≤ bound
      → ((t : State F) → size t ≤ bound → Takes p t)
      → ((r : List A × State F) → size r.1 ≤ size s → Ends left_of k (f r))
      → Ends left_of k (by_list w p n s >>= f)
  by_list-then k w p s f b takes g =
      keeps-then k (by_list w p n) s f (by_list-Keeps bound n w p fuel takes s b) g

  pub list-then :
      {A C : Type 0} (k : ℕ) (p : State F → Parsed F A) (s : State F)
      (f : List A × State F → Parsed F C)
      → size s ≤ bound
      → ((t : State F) → size t ≤ bound → Takes p t)
      → ((r : List A × State F) → size r.1 < size s → Ends left_of k (f r))
      → Ends left_of k (comma_list p n s >>= f)
  list-then k p s f b takes g =
      takes-then k (comma_list p n) s f (comma_list-Takes p bound takes n s b (omega arith)) g

  -- The clauses of a SELECT from WHERE on.
  pub parse_select-Takes :
      (s : State F) → size s ≤ bound → Takes (parse_select lower text_slice n) s
  unfolding parse_select
  parse_select-Takes s b = kw-then (size s) "SELECT" s _ (λ s1 h1.
      let s2 = (accept_kw "DISTINCT" s1).1 in
      let l = accept_kw-le "DISTINCT" s1 in
      list-then (size s) (select_item lower text_slice n) s2 _ (omega arith) select_item-Takes
        (λ r3 h3. kw-then (size s) "FROM" r3.1 _ (λ s4 h4. ident-then (size s) s4 _ (λ r5 h5.
          keeps-then (size s) (parse_alias lower text_slice n) r5.1 _ (parse_alias-Keeps r5.1)
            (λ r6 h6.
              keeps-then (size s) (parse_joins lower text_slice n n) r6.1 _
                (parse_joins-Keeps n r6.1 (omega arith) (omega arith))
                (λ r7 h7.
                  optional-then (size s) "WHERE" (expression lower text_slice n) r7.1 _
                    (omega arith) expression-Takes
                    (λ r8 h8.
                      by_list-then (size s) "GROUP" (expression lower text_slice n) r8.1 _
                        (omega arith) expression-Takes
                        (λ r9 h9.
                          optional-then (size s) "HAVING" (expression lower text_slice n) r9.1 _
                            (omega arith) expression-Takes
                            (λ r10 h10.
                              by_list-then (size s) "ORDER" (order_item lower text_slice n) r10.1 _
                                (omega arith) order_item-Takes
                                (λ r11 h11.
                                  keeps-then (size s) (parse_limits lower text_slice n) r11.1 _
                                    (parse_limits-Keeps r11.1) (λ r12 h12. omega arith)))))))))))
