-- ===== src/BTree/Scan.antt =====
-- `range_scan` of leafdb/btree.py: the cells along the chain of leaves, as the list that it yields.
use leafdb.Prelude.{
  ℕ, zero, suc, List, [], ◌∷◌, ◌++◌, Bool, true, false, Option, none, some, if◌then◌else◌,
}
use leafdb.Prelude.Int.{ℤ, ltb_ℤ}
use leafdb.Prelude.Errors.{Result, ok, err, ◌>>=◌, attribute_error, out_of_fuel}
use leafdb.Pager.{Pager}
use leafdb.BTree.{load, child_of}
use leafdb.BTree.Seq.{at}
use leafdb.BTree.Codec.{leaf, internal, Cell}

-- The leaf where a scan starts.
unfoldable pub scan_start : ℕ → ℕ → Option ℤ → Pager → Result (ℕ × Pager)
unfolding load child_of at
scan_start zero n lo p = err out_of_fuel
scan_start (suc fuel) n lo p = do
  (node, q) ← load n p
  elim node [
    | leaf cells nxt ↦ ok (n, q)
    | internal keys children ↦ (do
      c ← elim lo [ none ↦ at 0 children | some k ↦ child_of k keys children ]
      scan_start fuel c lo q)
  ]

abbrev below : Option ℤ → ℤ → Bool
below none k = false
below (some lo) k = ltb_ℤ k lo

abbrev above : Option ℤ → ℤ → Bool
above none k = false
above (some hi) k = ltb_ℤ hi k

-- The cells of one leaf that the scan yields, and whether it stops there.
unfoldable pub scan_cells : Option ℤ → Option ℤ → List Cell → List Cell × Bool
scan_cells lo hi [] = ([], false)
scan_cells lo hi ((k, v) ∷ r) =
    let (rest, stop) = scan_cells lo hi r in
    if below lo k then (rest, stop) else (if above hi k then ([], true) else ((k, v) ∷ rest, stop))

unfoldable pub scan_leaves : ℕ → ℕ → Option ℤ → Option ℤ → Pager → Result (List Cell × Pager)
unfolding load scan_cells
scan_leaves zero n lo hi p = err out_of_fuel
scan_leaves (suc fuel) n lo hi p = do
  (node, q) ← load n p
  elim node [
    | internal keys children ↦ err attribute_error
    | leaf cells nxt ↦
        (let (found, stop) = scan_cells lo hi cells in
          if stop then ok (found, q) else elim nxt [
            | none ↦ ok (found, q)
            | some m ↦ (do (rest, r) ← scan_leaves fuel m lo hi q; ok (found ++ rest, r))
          ])
  ]

unfoldable pub range_scan : ℕ → ℕ → Option ℤ → Option ℤ → Pager → Result (List Cell × Pager)
unfolding scan_start scan_leaves
range_scan fuel root lo hi p = do (n, q) ← scan_start fuel root lo p; scan_leaves fuel n lo hi q
