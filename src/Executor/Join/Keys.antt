-- ===== src/Executor/Join/Keys.antt =====
-- The ON conditions that the planner joins by hashing: an equality of two columns, alone or under
-- AND, implies that the keys are known and equal.
use leafdb.Prelude.{
  ℕ, zero, suc, ◌<◌, ◌≡◌, refl, sym, ap, ◌∙◌, List, [], ◌∷◌, ◌++◌, Bool, true, false, not, Option,
  none, some, inl, inr, Bool-cases, if◌then◌else◌, get_elem?, length, arith,
}
use leafdb.Prelude.Errors.{index_error, Result, ok, err, ◌>>=◌, >>=-eq-ok}
use leafdb.Value.{Value, Runtime}
use leafdb.Expr.{BinaryOp}
use leafdb.Executor.Values.{equal, eq_values, truthy}
use leafdb.Executor.Eval.{Row, Parts, read_cell, cell, cell_of}
use leafdb.Executor.Compile.{
  Fn, read_col, operator_fn, known_value, operator_value, is_false, both_known, and_fn,
}
use leafdb.Executor.Buckets.{EqualityLaws}
use leafdb.Executor.Join.{is_known, row_cell}
use leafdb.Executor.Join.Hash.{ImpliesKeys}

get_elem?-before :
    {A : Type 0} (xs ys : List A) (i : ℕ) → i < length xs → get_elem? (xs ++ ys) i ≡ get_elem? xs i
get_elem?-before [] ys i h = absurd (omega arith)
get_elem?-before (x ∷ xs) ys zero h = refl
get_elem?-before (x ∷ xs) ys (suc i) h = get_elem?-before xs ys i (omega arith)

get_elem?-last : {A : Type 0} (xs : List A) (y : A) → get_elem? (xs ++ y ∷ []) (length xs) ≡ some y
get_elem?-last [] y = refl
get_elem?-last (x ∷ xs) y = get_elem?-last xs y

if_true : (b c : Bool) → (if b then c else false) ≡ true → c ≡ true
if_true true c h = h
if_true false c h = absurd (cc h)

unknown-eq : {F : Type 0} (v : Value F) → is_known v ≡ false → v ≡ Value.null
unknown-eq Value.null h = refl
unknown-eq (Value.bool b) h = absurd (cc h)
unknown-eq (Value.int z) h = absurd (cc h)
unknown-eq (Value.float x) h = absurd (cc h)
unknown-eq (Value.text t) h = absurd (cc h)

module _ {F : Type 0} (py : Runtime F) (laws : EqualityLaws (equal py)) where
  known_eq :
      (v w : Value F)
      → is_known v ≡ true
      → is_known w ≡ true
      → known_value py BinaryOp.eq v w ≡ ok (Value.bool (eq_values py v w))
  unfolding known_value operator_value
  known_eq Value.null w h k = absurd (cc h)
  known_eq v Value.null h k = absurd (cc k)
  known_eq v w h k = refl

  null_right : (v : Value F) → known_value py BinaryOp.eq v Value.null ≡ ok Value.null
  unfolding known_value
  null_right Value.null = refl
  null_right v = refl

  null_false :
      (u : Value F)
      → ◌≡◌ {A = Result (Value F)} (ok Value.null) (ok u)
      → truthy py u ≡ true
      → false ≡ true
  unfolding truthy
  null_false u e t = let same : Value.null ≡ u = cc in ap (truthy py) same ∙ t

  equal_keys :
      (v w u : Value F)
      → known_value py BinaryOp.eq v w ≡ ok u
      → truthy py u ≡ true
      → (is_known v ≡ true) × (is_known w ≡ true) × (equal py w v ≡ true)
  unfolding truthy eq_values known_value
  equal_keys v w u h t = elim (Bool-cases (is_known v)) [
    | inr n ↦
        absurd (
          cc (null_false u (ap (λ x. known_value py BinaryOp.eq x w) (sym (unknown-eq v n)) ∙ h) t))
    | inl k ↦ elim (Bool-cases (is_known w)) [
      | inr n ↦ absurd (
          cc (
            null_false u
              (sym (null_right v) ∙ ap (known_value py BinaryOp.eq v) (sym (unknown-eq w n)) ∙ h)
              t))
      | inl m ↦
          let e : Value.bool (eq_values py v w) ≡ u = ok_injective (sym (known_eq v w k m) ∙ h) in
          (k, m, laws.symmetric v w (if_true _ (equal py v w) (ap (truthy py) e ∙ t)))
    ]
  ]
    where
      ok_injective : {a b : Value F} → ok a ≡ ok b → a ≡ b
      ok_injective e = cc

  read_last :
      (parts : Parts F) (row : Row F) (nidx : ℕ)
      → read_cell (parts ++ some row ∷ []) (length parts) nidx ≡ row_cell row nidx
  unfolding read_cell cell_of cell row_cell
  read_last parts row nidx = rw (get_elem?-last parts (some row)) (cell_eq (get_elem? row nidx))
    where
      cell_eq : (o : Option (Value F)) → cell o ≡ elim o [ none ↦ err index_error | some v ↦ ok v ]
      cell_eq none = refl
      cell_eq (some v) = refl

  read_before :
      (parts : Parts F) (row : Row F) (i j : ℕ)
      → i < length parts
      → read_cell (parts ++ some row ∷ []) i j ≡ read_cell parts i j
  unfolding read_cell
  read_before parts row i j l = rw (get_elem?-before parts (some row ∷ []) i l) refl

  -- An equality of a column on the left and a column of the joined table.
  pub eq-ImpliesKeys :
      (width i j nidx : ℕ)
      → i < width
      → ImpliesKeys py width
          (operator_fn py BinaryOp.eq (read_col i j) (read_col width nidx))
          (read_col i j)
          nidx
  unfolding operator_fn read_col
  eq-ImpliesKeys width i j nidx l parts row v u wide e o t =
      let (v', a, o') = >>=-eq-ok (read_cell (parts ++ some row ∷ []) i j) _ o in
      let (w, b, h) = >>=-eq-ok (read_cell (parts ++ some row ∷ []) width nidx) _ o' in
      let there : read_cell parts i j ≡ ok v' = sym (read_before parts row i j (omega arith)) ∙ a in
      let same : v' ≡ v = cc (there, e) in
      let found : row_cell row nidx ≡ ok w =
        sym (read_last parts row nidx)
        ∙ ap (λ n. read_cell (parts ++ some row ∷ []) n nidx) wide
        ∙ b in
      let (k, m, q) =
        equal_keys v w u (ap (λ x. known_value py BinaryOp.eq x w) (sym same) ∙ h) t in
      (w, found, k, m, q)

  false_test :
      (b : Bool) (m : Result (Value F)) (u : Value F)
      → (if not b then ok (Value.bool false) else m) ≡ ok u
      → truthy py u ≡ true
      → b ≡ true
  unfolding truthy
  false_test true m u h t = refl
  false_test false m u h t = let e : Value.bool false ≡ u = cc in absurd (cc (ap (truthy py) e ∙ t))

  null_and :
      (b : Bool) (u : Value F)
      → ok (if b then Value.bool false else Value.null) ≡ ok u
      → truthy py u ≡ true
      → false ≡ true
  unfolding truthy
  null_and true u h t = let e : Value.bool false ≡ u = cc in ap (truthy py) e ∙ t
  null_and false u h t = let e : Value.null ≡ u = cc in ap (truthy py) e ∙ t

  left_true :
      (x : Value F) (right : Result (Value F)) (u : Value F)
      → (if is_false py x then ok (Value.bool false) else (do
        r ← right
        ok (if is_false py r then Value.bool false else both_known py x r (Value.bool true))))
        ≡ ok u
      → truthy py u ≡ true
      → truthy py x ≡ true
  unfolding is_false both_known truthy
  left_true Value.null right u h t =
      let (r, _, h') = >>=-eq-ok right _ h in absurd (cc (null_and (is_false py r) u h' t))
  left_true (Value.bool b) right u h t = false_test (truthy py (Value.bool b)) _ u h t
  left_true (Value.int z) right u h t = false_test (truthy py (Value.int z)) _ u h t
  left_true (Value.float x) right u h t = false_test (truthy py (Value.float x)) _ u h t
  left_true (Value.text s) right u h t = false_test (truthy py (Value.text s)) _ u h t

  -- A conjunction of which one side does.
  pub and-ImpliesKeys :
      (width : ℕ) (lfn rfn acc_fn : Fn F) (nidx : ℕ)
      → ImpliesKeys py width lfn acc_fn nidx
      → ImpliesKeys py width (and_fn py lfn rfn) acc_fn nidx
  unfolding and_fn is_false truthy
  and-ImpliesKeys width lfn rfn acc_fn nidx h parts row v u wide e o t =
      let (x, a, o') = >>=-eq-ok (lfn (parts ++ some row ∷ []) none) _ o in
      h parts row v x wide e a (left_true x (rfn (parts ++ some row ∷ []) none) u o' t)
