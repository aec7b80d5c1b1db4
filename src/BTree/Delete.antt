-- ===== src/BTree/Delete.antt =====
-- Deletion in leafdb/btree.py, with borrowing and merging.
use leafdb.Prelude.{
  ℕ, zero, suc, ◌+◌, ◌-◌, List, [], ◌∷◌, ◌++◌, Bool, true, false, ◌||◌, Option, none, some, ltb,
  ◌==◌, if◌then◌else◌, length,
}
use leafdb.Prelude.Int.{ℤ}
use leafdb.Prelude.Errors.{Result, ok, err, ◌>>=◌, attribute_error, out_of_fuel}
use leafdb.Pager.{Pager}
use leafdb.BTree.{
  load, store, min_bytes, child_of, leaf_index, find_cell, bisect_left, bisect_right,
}
use leafdb.BTree.Seq.{at, set_at, insert_at, delete_at, pop_first, pop_last}
use leafdb.BTree.Codec.{Node, leaf, internal, Cell, serialized_size}

-- What a node holds, as `_underflow` counts it: cells or children.
unfoldable pub underflow : Node → Result Bool
underflow (leaf cells nxt) = do
  size ← serialized_size (leaf cells nxt)
  ok (length cells == 0 || ltb size min_bytes)
underflow (internal keys children) = do
  size ← serialized_size (internal keys children)
  ok (ltb (length children) 2 || ltb size min_bytes)

unfoldable pub can_spare : Node → Result Bool
can_spare node = do size ← serialized_size node; ok (ltb (min_bytes + 64) size)

-- The separators of the parent, the left node and the child, after a cell or a child has moved.
unfoldable pub borrow_from_left : List ℤ → ℕ → Node → Node → Result (List ℤ × Node × Node)
unfolding pop_last set_at at insert_at
borrow_from_left keys i (leaf ls l_next) (leaf cs c_next) = do
  (c, ls') ← pop_last ls
  let (k, v) = c
  keys' ← set_at (i - 1) k keys
  ok (keys', leaf ls' l_next, leaf (c ∷ cs) c_next)
borrow_from_left keys i (internal lk lc) (internal ck child_pages) = do
  sep ← at (i - 1) keys
  (k, lk') ← pop_last lk
  keys' ← set_at (i - 1) k keys
  (page, lc') ← pop_last lc
  ok (keys', internal lk' lc', internal (sep ∷ ck) (page ∷ child_pages))
borrow_from_left keys i l c = err attribute_error

-- The separators, the child and the right node.
unfoldable pub borrow_from_right : List ℤ → ℕ → Node → Node → Result (List ℤ × Node × Node)
unfolding pop_first set_at at
borrow_from_right keys i (leaf cs c_next) (leaf rs r_next) = do
  (c, rs') ← pop_first rs
  first ← at 0 rs'
  let (k, v) = first
  keys' ← set_at i k keys
  ok (keys', leaf (cs ++ c ∷ []) c_next, leaf rs' r_next)
borrow_from_right keys i (internal ck child_pages) (internal rk rc) = do
  sep ← at i keys
  (k, rk') ← pop_first rk
  keys' ← set_at i k keys
  (page, rc') ← pop_first rc
  ok (keys', internal (ck ++ sep ∷ []) (child_pages ++ page ∷ []), internal rk' rc')
borrow_from_right keys i c r = err attribute_error

unfoldable pub merge : Node → Node → ℤ → Result Node
merge (leaf low l_next) (leaf high h_next) sep = ok (leaf (low ++ high) h_next)
merge (internal lk lc) (internal hk hc) sep = ok (internal (lk ++ sep ∷ hk) (lc ++ hc))
merge low high sep = err attribute_error

-- What `_rebalance` leaves of the parent: its separators and children, and the pager.
abbrev pub Parent : Type 0
Parent = List ℤ × List ℕ × Pager

-- The left neighbour, where it can spare.
unfoldable pub try_left :
    ℕ → List ℤ → List ℕ → ℕ → ℕ → Node → Pager → Result (Option Parent × Pager)
unfolding at load store can_spare borrow_from_left
try_left pn keys children i child_page child p =
    if ltb 0 i
    then (do
      left_page ← at (i - 1) children
      (left, q) ← load left_page p
      spare ← can_spare left
      if spare
          then (do
            (keys', left', child') ← borrow_from_left keys i left child
            q₁ ← store left_page left' q
            q₂ ← store child_page child' q₁
            q₃ ← store pn (internal keys' children) q₂
            ok (some (keys', children, q₃), q₃))
          else ok (none, q))
    else ok (none, p)

-- The right neighbour, where it can spare.
unfoldable pub try_right :
    ℕ → List ℤ → List ℕ → ℕ → ℕ → Node → Pager → Result (Option Parent × Pager)
unfolding at load store can_spare borrow_from_right
try_right pn keys children i child_page child p =
    if ltb (i + 1) (length children)
    then (do
      right_page ← at (i + 1) children
      (right, q) ← load right_page p
      spare ← can_spare right
      if spare
          then (do
            (keys', child', right') ← borrow_from_right keys i child right
            q₁ ← store right_page right' q
            q₂ ← store child_page child' q₁
            q₃ ← store pn (internal keys' children) q₂
            ok (some (keys', children, q₃), q₃))
          else ok (none, q))
    else ok (none, p)

unfoldable pub merge_child : List ℤ → List ℕ → ℕ → ℕ → Node → Pager → Result Parent
unfolding at load store merge delete_at
merge_child keys children i child_page child p =
    if ltb 0 i
    then (do
      left_page ← at (i - 1) children
      (left, q) ← load left_page p
      sep ← at (i - 1) keys
      merged ← merge left child sep
      r ← store left_page merged q
      children' ← delete_at i children
      keys' ← delete_at (i - 1) keys
      ok (keys', children', r))
    else (do
      right_page ← at (i + 1) children
      (right, q) ← load right_page p
      sep ← at i keys
      merged ← merge child right sep
      r ← store child_page merged q
      children' ← delete_at (i + 1) children
      keys' ← delete_at i keys
      ok (keys', children', r))

unfoldable pub rebalance : ℕ → List ℤ → List ℕ → ℕ → Pager → Result Parent
unfolding at load try_left try_right merge_child
rebalance pn keys children i p = do
  child_page ← at i children
  (child, p₁) ← load child_page p
  (done, p₂) ← try_left pn keys children i child_page child p₁
  elim done [
    | some parent ↦ ok parent
    | none ↦ (do
      (done', p₃) ← try_right pn keys children i child_page child p₂
      elim done' [
        | some parent ↦ ok parent
        | none ↦ merge_child keys children i child_page child p₃
      ])
  ]

unfoldable pub delete_leaf : ℕ → ℤ → List Cell → Option ℕ → Pager → Result (Bool × Pager)
unfolding find_cell delete_at bisect_left store
delete_leaf n k cells nxt p = elim (find_cell k cells) [
  | none ↦ ok (false, p)
  | some v ↦ (do
    cells' ← delete_at (leaf_index k cells) cells
    q ← store n (leaf cells' nxt) p
    ok (true, q))
]

-- The child of a node, after a deletion below it.
unfoldable pub delete_up : ℕ → List ℤ → List ℕ → ℕ → Bool → Pager → Result (Bool × Pager)
unfolding at load underflow rebalance store
delete_up n keys children i false p = ok (false, p)
delete_up n keys children i true p = do
  c ← at i children
  (child, q) ← load c p
  under ← underflow child
  if under
      then (do
        (keys', children', r) ← rebalance n keys children i q
        s ← store n (internal keys' children') r
        ok (true, s))
      else ok (true, q)

-- _delete
unfoldable pub delete_below : ℕ → ℕ → ℤ → Pager → Result (Bool × Pager)
unfolding load delete_leaf delete_up child_of bisect_right
delete_below zero n k p = err out_of_fuel
delete_below (suc fuel) n k p = do
  (node, q) ← load n p
  elim node [
    | leaf cells nxt ↦ delete_leaf n k cells nxt q
    | internal keys children ↦ (do
      c ← child_of k keys children
      (found, r) ← delete_below fuel c k q
      delete_up n keys children (bisect_right k keys) found r)
  ]

-- A root without separators gives way to its only child.
unfoldable pub shrink_root : ℕ → ℕ → Pager → Result (ℕ × Pager)
unfolding load at
shrink_root zero root p = err out_of_fuel
shrink_root (suc fuel) root p = do
  (node, q) ← load root p
  elim node [
    | leaf cells nxt ↦ ok (root, q)
    | internal keys children ↦ elim keys [
      | k ∷ ks ↦ ok (root, q)
      | [] ↦ (do c ← at 0 children; shrink_root fuel c q)
    ]
  ]

unfoldable pub delete : ℕ → ℕ → ℤ → Pager → Result (ℕ × Bool × Pager)
unfolding delete_below shrink_root
delete fuel root k p = do
  (found, q) ← delete_below fuel root k p
  if found
      then (do (root', r) ← shrink_root fuel root q; ok (root', true, r))
      else ok (root, false, q)
