-- ===== src/BTree.antt =====
-- leafdb/btree.py: the B+ tree over the pages of a pager. Walks down the tree are on fuel: a chain
-- of pages longer than the fuel is an `out_of_fuel`. `load` is _load without the cache of parsed
-- nodes: a node is what its page's bytes say. BTree/Cache is _load with the cache.
-- `bisect` on a sorted list is the number of leading keys that pass its test.
pub mod Cache
pub mod Seq
pub mod Codec
pub mod Delete
pub mod Scan
pub mod Bulk
pub mod Leaves
use leafdb.Prelude.{
  ℕ, zero, suc, ◌+◌, ◌-◌, ◌*◌, ◌/◌, List, [], ◌∷◌, ◌++◌, Bool, true, false, not, ◌&&◌, ◌||◌, Option,
  none, some, ltb, leb, ◌==◌, if◌then◌else◌, length, take, drop, map,
}
use leafdb.Prelude.Int.{ℤ, ltb_ℤ, eq_ℤ}
use leafdb.Prelude.Errors.{
  Result, ok, err, ◌>>=◌, ◌>>◌, guard, index_error, value_error, attribute_error, duplicate_key,
  out_of_fuel,
}
use leafdb.Bytes.{Bytes}
use leafdb.Pager.{Pager, write, allocate, get as get_page}
use Seq.{at, set_at, insert_at, delete_at, pop_first, pop_last}
use Codec.{Node, leaf, internal, Cell, node_from_bytes, to_bytes, serialized_size}

-- MAX_VALUE_SIZE and _min_bytes()
abbrev pub max_value_size : ℕ
max_value_size = 2048

abbrev pub min_bytes : ℕ
min_bytes = 1365

abbrev pub page_bytes : ℕ
page_bytes = 4096

-- _load
unfoldable pub load : ℕ → Pager → Result (Node × Pager)
load n p = do (buf, q) ← get_page n p; node ← node_from_bytes buf; ok (node, q)

unfoldable pub store : ℕ → Node → Pager → Result Pager
store n node p = do b ← to_bytes node; write n b p

unfoldable pub bisect_left : ℤ → List ℤ → ℕ
bisect_left k [] = 0
bisect_left k (j ∷ r) = let rest = bisect_left k r in if ltb_ℤ j k then suc rest else 0

unfoldable pub bisect_right : ℤ → List ℤ → ℕ
bisect_right k [] = 0
bisect_right k (j ∷ r) = let rest = bisect_right k r in if ltb_ℤ k j then 0 else suc rest

abbrev pub cell_keys : List Cell → List ℤ
cell_keys cells = map (λ c. c.0) cells

abbrev pub leaf_index : ℤ → List Cell → ℕ
unfolding bisect_left
leaf_index k cells = bisect_left k (cell_keys cells)

-- The cell at the place of the key, if it is the key's.
unfoldable pub cell_from : ℕ → ℤ → List Cell → Option Bytes
cell_from i k [] = none
cell_from zero k ((j, v) ∷ r) = if eq_ℤ j k then some v else none
cell_from (suc i) k (c ∷ r) = cell_from i k r

unfoldable pub find_cell : ℤ → List Cell → Option Bytes
unfolding cell_from bisect_left
find_cell k cells = cell_from (leaf_index k cells) k cells

unfoldable pub child_of : ℤ → List ℤ → List ℕ → Result ℕ
unfolding bisect_right at
child_of k keys children = at (bisect_right k keys) children

-- The walk down to the leaf of a key.
unfoldable pub find_leaf : ℕ → ℕ → ℤ → Pager → Result (ℕ × List Cell × Option ℕ × Pager)
unfolding load child_of
find_leaf zero n k p = err out_of_fuel
find_leaf (suc fuel) n k p = do
  (node, q) ← load n p
  elim node [
    | leaf cells nxt ↦ ok (n, cells, nxt, q)
    | internal keys children ↦ (do c ← child_of k keys children; find_leaf fuel c k q)
  ]

unfoldable pub search : ℕ → ℕ → ℤ → Pager → Result (Option Bytes × Pager)
unfolding find_leaf find_cell
search fuel root k p = do (n, cells, nxt, q) ← find_leaf fuel root k p; ok (find_cell k cells, q)

-- A separator and the page to its right, where a node was split.
abbrev pub Split : Type 0
Split = Option (ℤ × ℕ)

unfoldable pub split_leaf : ℕ → List Cell → Option ℕ → Pager → Result (Split × Pager)
unfolding at store
split_leaf n cells nxt p = do
  let mid = length cells / 2
  guard (ltb 0 mid) value_error
  (right_page, p₁) ← allocate p
  p₂ ← store right_page (leaf (drop mid cells) nxt) p₁
  p₃ ← store n (leaf (take mid cells) (some right_page)) p₂
  (sep, v) ← at 0 (drop mid cells)
  ok (some (sep, right_page), p₃)

unfoldable pub split_internal : ℕ → List ℤ → List ℕ → Pager → Result (Split × Pager)
unfolding at store
split_internal n keys children p = do
  let mid = length keys / 2
  guard (ltb 0 mid) value_error
  sep ← at mid keys
  (right_page, p₁) ← allocate p
  p₂ ← store right_page (internal (drop (mid + 1) keys) (drop (mid + 1) children)) p₁
  p₃ ← store n (internal (take mid keys) (take (mid + 1) children)) p₂
  ok (some (sep, right_page), p₃)

abbrev is_some : {A : Type 0} → Option A → Bool
is_some none = false
is_some (some a) = true

-- The cells with a new cell at the key's place; a key that is there is a DuplicateKey.
unfoldable pub insert_cell : ℤ → Bytes → List Cell → Result (List Cell)
unfolding find_cell insert_at bisect_left
insert_cell k v cells =
    if is_some (find_cell k cells)
    then err duplicate_key
    else ok (insert_at (leaf_index k cells) (k, v) cells)

unfoldable pub insert_leaf : ℕ → ℤ → Bytes → List Cell → Option ℕ → Pager → Result (Split × Pager)
unfolding insert_cell store split_leaf
insert_leaf n k v cells nxt p = do
  cells' ← insert_cell k v cells
  size ← serialized_size (leaf cells' nxt)
  if leb size page_bytes
      then (do q ← store n (leaf cells' nxt) p; ok (none, q))
      else split_leaf n cells' nxt p

-- A node whose child `i` was split.
unfoldable pub insert_split : ℕ → ℕ → List ℤ → List ℕ → Split → Pager → Result (Split × Pager)
unfolding insert_at store split_internal
insert_split n i keys children none p = ok (none, p)
insert_split n i keys children (some (sep, right)) p = do
  let keys' = insert_at i sep keys
  let children' = insert_at (i + 1) right children
  size ← serialized_size (internal keys' children')
  if leb size page_bytes
      then (do q ← store n (internal keys' children') p; ok (none, q))
      else split_internal n keys' children' p

-- _insert
unfoldable pub insert_below : ℕ → ℕ → ℤ → Bytes → Pager → Result (Split × Pager)
unfolding load insert_leaf insert_split child_of bisect_right
insert_below zero n k v p = err out_of_fuel
insert_below (suc fuel) n k v p = do
  (node, q) ← load n p
  elim node [
    | leaf cells nxt ↦ insert_leaf n k v cells nxt q
    | internal keys children ↦ (do
      c ← child_of k keys children
      (split, r) ← insert_below fuel c k v q
      insert_split n (bisect_right k keys) keys children split r)
  ]

-- A root that was split gets a node above it.
unfoldable pub grow_root : ℕ → Split → Pager → Result (ℕ × Pager)
unfolding store
grow_root root none p = ok (root, p)
grow_root root (some (sep, right)) p = do
  (n, q) ← allocate p
  r ← store n (internal (sep ∷ []) (root ∷ right ∷ [])) q
  ok (n, r)

unfoldable pub insert : ℕ → ℕ → ℤ → Bytes → Pager → Result (ℕ × Pager)
unfolding insert_below grow_root
insert fuel root k v p = do
  guard (leb (length v) max_value_size) value_error
  (split, q) ← insert_below fuel root k v p
  grow_root root split q

unfoldable pub replace_value : ℕ → ℕ → ℤ → Bytes → Pager → Result (ℕ × Pager)
unfolding find_leaf set_at store bisect_left
replace_value fuel root k v p = do
  (n, cells, nxt, q) ← find_leaf fuel root k p
  cells' ← set_at (leaf_index k cells) (k, v) cells
  r ← store n (leaf cells' nxt) q
  ok (root, r)

-- The handler of DuplicateKey.
unfoldable pub or_replace : Result (ℕ × Pager) → Result (ℕ × Pager) → Result (ℕ × Pager)
or_replace (err duplicate_key) m = m
or_replace r m = r

unfoldable pub upsert : ℕ → ℕ → ℤ → Bytes → Pager → Result (ℕ × Pager)
unfolding insert find_leaf replace_value or_replace
upsert fuel root k v p =
    if leb (length v) max_value_size
    then
        -- the insertion that fails has read the pages on the way to the leaf
        or_replace (insert fuel root k v p)
        (do (n, cells, nxt, q) ← find_leaf fuel root k p; replace_value fuel root k v q)
    else err value_error
