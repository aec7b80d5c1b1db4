-- ===== src/BTree/Seq.antt =====
-- What leafdb/btree.py uses of Python's lists: an index out of range is an IndexError.
use leafdb.Prelude.{ℕ, zero, suc, List, [], ◌∷◌}
use leafdb.Prelude.Errors.{Result, ok, err, index_error, ◌>>=◌}

module _ {ℓ} {A : Type ℓ} where
  -- xs[i]
  unfoldable pub at : ℕ → List A → Result A
  at i [] = err index_error
  at zero (x ∷ xs) = ok x
  at (suc i) (x ∷ xs) = at i xs

  -- xs[i] = a
  unfoldable pub set_at : ℕ → A → List A → Result (List A)
  set_at i a [] = err index_error
  set_at zero a (x ∷ xs) = ok (a ∷ xs)
  set_at (suc i) a (x ∷ xs) = do ys ← set_at i a xs; ok (x ∷ ys)

  -- xs.insert(i, a), which appends behind the end
  unfoldable pub insert_at : ℕ → A → List A → List A
  insert_at i a [] = a ∷ []
  insert_at zero a (x ∷ xs) = a ∷ x ∷ xs
  insert_at (suc i) a (x ∷ xs) = x ∷ insert_at i a xs

  -- del xs[i]
  unfoldable pub delete_at : ℕ → List A → Result (List A)
  delete_at i [] = err index_error
  delete_at zero (x ∷ xs) = ok xs
  delete_at (suc i) (x ∷ xs) = do ys ← delete_at i xs; ok (x ∷ ys)

  -- xs.pop(0) and xs.pop()
  unfoldable pub pop_first : List A → Result (A × List A)
  pop_first [] = err index_error
  pop_first (x ∷ xs) = ok (x, xs)

  unfoldable pub pop_last : List A → Result (A × List A)
  pop_last [] = err index_error
  pop_last (x ∷ []) = ok (x, [])
  pop_last (x ∷ y ∷ r) = do (z, ys) ← pop_last (y ∷ r); ok (z, x ∷ ys)
