-- ===== src/Parser/Fuel.antt =====
-- Enough fuel for the parser of leafdb/sqlparse.py: what it returns leaves fewer tokens than it
-- found, and it never runs out of fuel.
use leafdb.Prelude.{
  ℕ, zero, suc, ◌<◌, ◌≤◌, ◌≡◌, refl, List, [], ◌∷◌, Bool, true, false, Option, none, some, String,
  inl, inr, Bool-cases, length, arith,
}
use leafdb.Prelude.Errors.{Result, Error, ok, err, ◌>>=◌, out_of_fuel}
use leafdb.Parser.{
  Token, State, Parsed, advance, next, first_kw, first_op, at_kw, at_op, accept_kw, expect_kw,
  expect_op, more, comma_list,
}

abbrev pub is_fuel : Error → Bool
is_fuel out_of_fuel = true
is_fuel e = false

-- A result measured below `k`, or an exception other than the end of the fuel.
abbrev pub Ends : {B : Type 0} → (B → ℕ) → ℕ → Result B → Type 0
Ends m k (ok b) = m b < k
Ends m k (err e) = is_fuel e ≡ false

pub Ends-weaken :
    {B : Type 0} (m : B → ℕ) (j k : ℕ) (r : Result B) → j ≤ k → Ends m j r → Ends m k r
Ends-weaken m j k (ok b) l h = omega arith
Ends-weaken m j k (err e) l h = h

pub Ends-bind :
    {B C : Type 0} (m : B → ℕ) (m' : C → ℕ) (j k : ℕ) (r : Result B) (f : B → Result C)
    → Ends m j r
    → ((b : B) → m b < j → Ends m' k (f b))
    → Ends m' k (r >>= f)
Ends-bind m m' j k (ok b) f h g = g b h
Ends-bind m m' j k (err e) f h g = h

module _ {F : Type 0} where
  abbrev pub size : State F → ℕ
  size s = length s.rest

  abbrev pub left_of : {A : Type 0} → A × State F → ℕ
  left_of r = size r.1

  advance-less : (r : List (Token F)) (i n : ℕ) → 0 < length r → size (advance r i n) < length r
  unfolding advance
  advance-less [] i n h = absurd (omega arith)
  advance-less (t ∷ r) i n h = omega arith

  pub next-less : (s : State F) → 0 < size s → size (next s) < size s
  unfolding next
  next-less s h = advance-less s.rest s.index s.next_id h

  pub next-le : (s : State F) → size (next s) ≤ size s
  unfolding next advance
  next-le s = advance_le s.rest s.index s.next_id
    where
      advance_le : (r : List (Token F)) (i n : ℕ) → size (advance r i n) ≤ length r
      advance_le [] i n = omega arith
      advance_le (t ∷ r) i n = omega arith

  pub next-at_kw : (k : String) (s : State F) → at_kw k s ≡ true → size (next s) < size s
  unfolding at_kw
  next-at_kw k s h = next-less s (present s.rest h)
    where
      present : (r : List (Token F)) → first_kw k r ≡ true → 0 < length r
      present [] h = absurd (cc h)
      present (t ∷ r) h = omega arith

  pub next-at_op : (o : String) (s : State F) → at_op o s ≡ true → size (next s) < size s
  unfolding at_op
  next-at_op o s h = next-less s (present s.rest h)
    where
      present : (r : List (Token F)) → first_op o r ≡ true → 0 < length r
      present [] h = absurd (cc h)
      present (t ∷ r) h = omega arith

  pub accept_kw-le : (k : String) (s : State F) → size (accept_kw k s).1 ≤ size s
  unfolding accept_kw
  accept_kw-le k s = elim (Bool-cases (at_kw k s)) [
    | inl e ↦ rw e (next-le s)
    | inr e ↦ rw e (omega arith)
  ]

  pub expect_kw-Ends : (k : String) (s : State F) → Ends size (size s) (expect_kw k s)
  unfolding expect_kw
  expect_kw-Ends k s = elim (Bool-cases (at_kw k s)) [
    | inl e ↦ rw e (next-at_kw k s e)
    | inr e ↦ rw e refl
  ]

  pub expect_op-Ends : (o : String) (s : State F) → Ends size (size s) (expect_op o s)
  unfolding expect_op
  expect_op-Ends o s = elim (Bool-cases (at_op o s)) [
    | inl e ↦ rw e (next-at_op o s e)
    | inr e ↦ rw e refl
  ]

  -- What finds something in the tokens, and nothing where there are none, leaves a token to take.
  pub found-less :
      {A : Type 0} (f : List (Token F) → Option A) (s : State F) (a : A)
      → f [] ≡ none
      → f s.rest ≡ some a
      → size (next s) < size s
  found-less f s a e h = next-less s (present s.rest h)
    where
      present : (r : List (Token F)) → f r ≡ some a → 0 < length r
      present [] h = absurd (cc (e, h))
      present (t ∷ r) h = omega arith

  -- What a method leaves if it takes a token.
  abbrev pub Takes : {A : Type 0} → (State F → Parsed F A) → State F → Type 0
  Takes p s = Ends left_of (size s) (p s)

  module _ {A : Type 0} (item : State F → Parsed F A) (bound : ℕ)
      (takes : (s : State F) → size s ≤ bound → Takes item s) where
    more-Ends :
        (n : ℕ) (s : State F)
        → size s ≤ bound
        → size s < n
        → Ends left_of (suc (size s)) (more item n s)
    unfolding more
    more-Ends zero s b f = absurd (omega arith)
    more-Ends (suc n) s b f = elim (Bool-cases (at_op "," s)) [
      | inr e ↦ rw (e, more) (omega arith)
      | inl e ↦
          let l = next-at_op "," s e in
          rw (e, more)
            (Ends-bind left_of left_of (size (next s)) (suc (size s)) (item (next s)) _
              (takes (next s) (omega arith))
              (λ r h.
                Ends-bind left_of left_of (suc (size r.1)) (suc (size s)) (more item n r.1) _
                  (more-Ends n r.1 (omega arith) (omega arith)) (λ q g. omega arith)))
    ]

    pub comma_list-Takes :
        (n : ℕ) (s : State F) → size s ≤ bound → size s < n → Takes (comma_list item n) s
    unfolding comma_list
    comma_list-Takes n s b f =
        Ends-bind left_of left_of (size s) (size s) (item s) _ (takes s b) (λ r h.
          Ends-bind left_of left_of (suc (size r.1)) (size s) (more item n r.1) _
            (more-Ends n r.1 (omega arith) (omega arith)) (λ q g. omega arith))
