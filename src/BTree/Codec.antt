-- ===== src/BTree/Codec.antt =====
-- The nodes of leafdb/btree.py and their bytes.
pub mod RoundTrip
use leafdb.Prelude.{
  ℕ, zero, suc, ◌+◌, ◌*◌, List, [], ◌∷◌, ◌++◌, Bool, true, false, Option, none, some, ◌==◌,
  if◌then◌else◌, length, take, drop,
}
use leafdb.Prelude.Int.{ℤ}
use leafdb.Prelude.Errors.{Result, ok, err, ◌>>=◌, index_error, value_error}
use leafdb.Bytes.{Bytes, pack, unpack_from, pack_q, unpack_q}

abbrev pub Cell : Type 0
Cell = ℤ × Bytes

pub data Node : Type 0 where
  -- the cells and the next leaf; the separators and the children
  leaf : List Cell → Option ℕ → Node
  internal : List ℤ → List ℕ → Node

-- _NO_PAGE
abbrev pub no_page : ℕ
no_page = 0xffffffff

abbrev pub page_or_none : Option ℕ → ℕ
page_or_none none = no_page
page_or_none (some n) = n

unfoldable pub pack_cells : List Cell → Result Bytes
pack_cells [] = ok []
pack_cells ((k, v) ∷ r) = do
  a ← pack_q k
  b ← pack 4 (length v)
  rest ← pack_cells r
  ok (a ++ b ++ v ++ rest)

unfoldable pub pack_keys : List ℤ → Result Bytes
pack_keys [] = ok []
pack_keys (k ∷ r) = do a ← pack_q k; rest ← pack_keys r; ok (a ++ rest)

unfoldable pub pack_children : List ℕ → Result Bytes
pack_children [] = ok []
pack_children (c ∷ r) = do a ← pack 4 c; rest ← pack_children r; ok (a ++ rest)

unfoldable pub to_bytes : Node → Result Bytes
unfolding pack_cells pack_keys pack_children
to_bytes (leaf cells next_leaf) = do
  a ← pack 4 (page_or_none next_leaf)
  b ← pack 4 (length cells)
  body ← pack_cells cells
  ok (0 ∷ a ++ b ++ body)
to_bytes (internal keys children) = do
  a ← pack 4 (length keys)
  b ← pack 4 (length children)
  body ← pack_keys keys
  rest ← pack_children children
  ok (1 ∷ a ++ b ++ body ++ rest)

-- The loop over the `n` cells from an offset.
unfoldable pub unpack_cells : ℕ → Bytes → ℕ → Result (List Cell)
unpack_cells zero buf off = ok []
unpack_cells (suc n) buf off = do
  k ← unpack_q buf off
  vlen ← unpack_from 4 buf (off + 8)
  rest ← unpack_cells n buf (off + 8 + 4 + vlen)
  ok ((k, take vlen (drop (off + 8 + 4) buf)) ∷ rest)

-- ">" + "q" * nk
unfoldable pub unpack_keys : ℕ → Bytes → ℕ → Result (List ℤ)
unpack_keys zero buf off = ok []
unpack_keys (suc n) buf off = do
  k ← unpack_q buf off
  rest ← unpack_keys n buf (off + 8)
  ok (k ∷ rest)

-- ">" + "I" * nc
unfoldable pub unpack_children : ℕ → Bytes → ℕ → Result (List ℕ)
unpack_children zero buf off = ok []
unpack_children (suc n) buf off = do
  c ← unpack_from 4 buf off
  rest ← unpack_children n buf (off + 4)
  ok (c ∷ rest)

unfoldable pub leaf_from : Bytes → Result Node
unfolding unpack_cells
leaf_from buf = do
  nxt ← unpack_from 4 buf 1
  n ← unpack_from 4 buf 5
  cells ← unpack_cells n buf 9
  ok (leaf cells (if nxt == no_page then none else some nxt))

unfoldable pub internal_from : Bytes → Result Node
unfolding unpack_keys unpack_children
internal_from buf = do
  nk ← unpack_from 4 buf 1
  nc ← unpack_from 4 buf 5
  keys ← unpack_keys nk buf 9
  children ← unpack_children nc buf (9 + 8 * nk)
  ok (internal keys children)

unfoldable pub node_from_bytes : Bytes → Result Node
unfolding leaf_from internal_from
node_from_bytes [] = err index_error
node_from_bytes (zero ∷ r) = leaf_from (0 ∷ r)
node_from_bytes (suc zero ∷ r) = internal_from (1 ∷ r)
node_from_bytes (suc (suc kind) ∷ r) = err value_error

unfoldable pub serialized_size : Node → Result ℕ
unfolding to_bytes
serialized_size node = do b ← to_bytes node; ok (length b)
