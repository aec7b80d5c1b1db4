-- ===== src/BTree/Bulk.antt =====
-- `bulk_load`, `vacuum` and `stats` of leafdb/btree.py. `sorted` orders the pairs by key, and by
-- value where keys are equal.
use leafdb.Prelude.{
  ℕ, zero, suc, ◌+◌, ◌-◌, List, [], ◌∷◌, ◌++◌, Bool, true, false, ◌||◌, ◌&&◌, Option, none, some,
  ltb, ◌==◌, if◌then◌else◌, length, take, drop, map,
}
use leafdb.Prelude.Int.{ℤ, ltb_ℤ, eq_ℤ}
use leafdb.Prelude.Errors.{
  Result, ok, err, ◌>>=◌, ◌>>◌, guard, index_error, value_error, attribute_error, out_of_fuel,
}
use leafdb.Bytes.{Bytes}
use leafdb.Pager.{Pager, allocate}
use leafdb.BTree.{load, store, page_bytes}
use leafdb.BTree.Codec.{Node, leaf, internal, Cell, serialized_size}
use leafdb.BTree.Scan.{range_scan}

-- u <= v, on byte strings
unfoldable pub le_bytes : Bytes → Bytes → Bool
le_bytes [] v = true
le_bytes (a ∷ u) [] = false
le_bytes (a ∷ u) (b ∷ v) = ltb a b || (a == b && le_bytes u v)

unfoldable pub le_cell : Cell → Cell → Bool
unfolding le_bytes
le_cell (j, u) (k, v) = ltb_ℤ j k || (eq_ℤ j k && le_bytes u v)

unfoldable pub insert_cell_sorted : Cell → List Cell → List Cell
unfolding le_cell
insert_cell_sorted c [] = c ∷ []
insert_cell_sorted c (d ∷ r) = if le_cell c d then c ∷ d ∷ r else d ∷ insert_cell_sorted c r

unfoldable pub sort_cells : List Cell → List Cell
unfolding insert_cell_sorted
sort_cells [] = []
sort_cells (c ∷ r) = insert_cell_sorted c (sort_cells r)

-- The loop that fills the leaves: `cur` holds the cells of the leaf at work. The cell that brings
-- a leaf over the limit is its last.
unfoldable pub fill_leaves : List Cell → List Cell → Result (List (List Cell))
unfolding serialized_size
fill_leaves cur [] = ok (if length cur == 0 then [] else cur ∷ [])
fill_leaves cur (c ∷ r) = do
  let cur' = cur ++ c ∷ []
  probe ← serialized_size (leaf cur' none)
  if ltb (page_bytes - 16) probe
      then (do guard (ltb 1 (length cur')) value_error; rest ← fill_leaves [] r; ok (cur' ∷ rest))
      else fill_leaves cur' r

abbrev pub first_key : List Cell → Result ℤ
first_key [] = err index_error
first_key ((k, v) ∷ r) = ok k

-- A page for each leaf, with the leaf's first key.
unfoldable pub write_leaves : List (List Cell) → Pager → Result (List (ℕ × ℤ) × Pager)
unfolding store
write_leaves [] p = ok ([], p)
write_leaves (cells ∷ r) p = do
  (n, p₁) ← allocate p
  p₂ ← store n (leaf cells none) p₁
  k ← first_key cells
  (rest, p₃) ← write_leaves r p₂
  ok ((n, k) ∷ rest, p₃)

abbrev pub next_page : List (ℕ × ℤ) → Option ℕ
next_page [] = none
next_page ((n, k) ∷ r) = some n

-- The loop that links each leaf to the next.
unfoldable pub link_leaves : List (ℕ × ℤ) → Pager → Result Pager
unfolding load store
link_leaves [] p = ok p
link_leaves ((n, k) ∷ r) p = do
  (node, p₁) ← load n p
  elim node [
    | internal keys children ↦ err attribute_error
    | leaf cells nxt ↦ (do p₂ ← store n (leaf cells (next_page r)) p₁; link_leaves r p₂)
  ]

abbrev pub fanout : ℕ
fanout = 32

-- The parents of one level, a node for each group of `fanout` pages.
unfoldable pub write_parents : ℕ → List (ℕ × ℤ) → Pager → Result (List (ℕ × ℤ) × Pager)
unfolding store
write_parents fuel [] p = ok ([], p)
write_parents zero (g ∷ gs) p = err out_of_fuel
write_parents (suc fuel) ((n, k) ∷ gs) p = do
  let group = take fanout ((n, k) ∷ gs)
  (m, p₁) ← allocate p
  p₂ ← store m (internal (map (λ g. g.1) (drop 1 group)) (map (λ g. g.0) group)) p₁
  (rest, p₃) ← write_parents fuel (drop fanout ((n, k) ∷ gs)) p₂
  ok ((m, k) ∷ rest, p₃)

-- The levels up to the root; a level has fewer pages than the one below it.
unfoldable pub build_levels : ℕ → List (ℕ × ℤ) → Pager → Result (ℕ × Pager)
unfolding write_parents
build_levels fuel [] p = err index_error
build_levels fuel ((n, k) ∷ []) p = ok (n, p)
build_levels zero (a ∷ b ∷ r) p = err out_of_fuel
build_levels (suc fuel) (a ∷ b ∷ r) p = do
  (parents, q) ← write_parents (length (a ∷ b ∷ r)) (a ∷ b ∷ r) p
  build_levels fuel parents q

unfoldable pub load_sorted : List Cell → Pager → Result (ℕ × Pager)
unfolding store fill_leaves write_leaves link_leaves build_levels
load_sorted [] p = do (n, q) ← allocate p; r ← store n (leaf [] none) q; ok (n, r)
load_sorted (c ∷ cs) p = do
  leaves ← fill_leaves [] (c ∷ cs)
  (pages, p₁) ← write_leaves leaves p
  p₂ ← link_leaves pages p₁
  build_levels (length pages) pages p₂

unfoldable pub bulk_load : List Cell → Pager → Result (ℕ × Pager)
unfolding sort_cells load_sorted
bulk_load pairs p = load_sorted (sort_cells pairs) p

unfoldable pub vacuum : ℕ → ℕ → Pager → Result (ℕ × ℕ × Pager)
unfolding bulk_load range_scan
vacuum fuel root p = do
  (data_, q) ← range_scan fuel root none none p
  (new_root, r) ← bulk_load data_ q
  ok (new_root, length data_, r)

-- The counts of `stats`, without the rate of filling, which is a float.
pub record Stats : Type 0 where
  pub depth : ℕ
  pub leaves : ℕ
  pub internal_nodes : ℕ
  pub keys : ℕ

-- The children of a level's nodes are loaded when the level is read.
unfoldable pub load_all : List ℕ → Pager → Result (List Node × Pager)
unfolding load
load_all [] p = ok ([], p)
load_all (n ∷ r) p = do (node, q) ← load n p; (nodes, s) ← load_all r q; ok (node ∷ nodes, s)

-- One level: the counts with its nodes, and the nodes of the level below.
unfoldable pub stats_level : List Node → Stats → Pager → Result (List Node × Stats × Pager)
unfolding load_all
stats_level [] s p = ok ([], s, p)
stats_level (leaf cells nxt ∷ r) s p =
    stats_level r (record s { leaves = s.leaves + 1; keys = s.keys + length cells }) p
stats_level (internal keys children ∷ r) s p = do
  (below, q) ← load_all children p
  (rest, s', q') ← stats_level r (record s { internal_nodes = s.internal_nodes + 1 }) q
  ok (below ++ rest, s', q')

unfoldable pub stats_loop : ℕ → List Node → Stats → Pager → Result (Stats × Pager)
unfolding stats_level
stats_loop fuel [] s p = ok (s, p)
stats_loop zero (n ∷ level) s p = err out_of_fuel
stats_loop (suc fuel) (n ∷ level) s p = do
  (below, s', q) ← stats_level (n ∷ level) s p
  stats_loop fuel below (if length below == 0 then s' else record s' { depth = s'.depth + 1 }) q

unfoldable pub stats : ℕ → ℕ → Pager → Result (Stats × Pager)
unfolding stats_loop load
stats fuel root p = do
  (node, q) ← load root p
  stats_loop fuel (node ∷ []) (record { depth = 1; leaves = 0; internal_nodes = 0; keys = 0 }) q
