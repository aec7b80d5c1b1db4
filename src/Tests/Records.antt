-- ===== src/Tests/Records.antt =====
-- Rows, nodes and free lists, with a runtime whose floats are natural numbers.
use leafdb.Prelude.{ℕ, ◌≡◌, refl, List, [], ◌∷◌, ◌++◌, false, none, some, arith}
use leafdb.Prelude.Int.{ℤ, pos}
use leafdb.Prelude.Errors.{ok}
use leafdb.Bytes.{Bytes, pack, be, pack_q}
use leafdb.Value.{Value}
use leafdb.Rows.{ColumnType, coerce_value, coerce_values, encode_row, decode_row}
use leafdb.Rows.RoundTrip.{HasType, decode_row-encode_row}
use leafdb.Rows.Coerce.{coerce_value-HasType, decode_row-coerce_values}
use leafdb.Rows.Total.{StorableRow, encode_row_total}
use leafdb.BTree.Codec.{Node, leaf, to_bytes, node_from_bytes}
use leafdb.BTree.Codec.RoundTrip.{node_from_bytes-to_bytes}
use leafdb.BTree.{find_cell, cell_from, bisect_left, insert_cell}
use leafdb.BTree.Codec.{Cell}
use leafdb.BTree.Leaves.{IsSorted, insert_cell-find_cell}
use leafdb.Prelude.{if◌then◌else◌}
use leafdb.Prelude.Int.{eq_ℤ}
use leafdb.Prelude.Errors.{err, duplicate_key}
use leafdb.Tests.Runtime.{py, py_laws}
use leafdb.FreeList.{push, pop, push_page, IsFree, push-IsFree, pop-push_page}
use leafdb.Pager.Pool.{member}

abbrev columns : List ColumnType
columns = ColumnType.int ∷ ColumnType.text ∷ ColumnType.float ∷ []

abbrev given : List (Value ℕ)
given = Value.float 5 ∷ Value.null ∷ Value.int (pos 2) ∷ []

abbrev coerced : List (Value ℕ)
coerced = Value.int (pos 5) ∷ Value.null ∷ Value.float 2 ∷ []

abbrev encoded : Bytes
encoded = 0 ∷ 0 ∷ 0 ∷ 2 ∷ 0 ∷ 0 ∷ 0 ∷ 0 ∷ 0 ∷ 0 ∷ 0 ∷ 5 ∷ 0 ∷ 0 ∷ 0 ∷ 0 ∷ 0 ∷ 0 ∷ 0 ∷ 2 ∷ []

coerces : coerce_values py columns given ≡ ok coerced
unfolding coerce_values
coerces = refl

encodes : encode_row py columns coerced ≡ ok encoded
unfolding encode_row pack pack_q be
encodes = refl

decode_row-coerce_values_example : decode_row py columns encoded ≡ ok coerced
decode_row-coerce_values_example =
    decode_row-coerce_values py py_laws columns given coerced encoded refl coerces encodes

decode_row-encode_row_example : decode_row py columns encoded ≡ ok coerced
decode_row-encode_row_example =
    decode_row-encode_row py py_laws columns coerced encoded (tt, (tt, (tt, tt))) encodes

one_value : coerce_value py ColumnType.int (Value.float 5) ≡ ok (Value.int (pos 5))
unfolding coerce_value
one_value = refl

coerce_value-HasType_example :
    HasType {F = ℕ} ColumnType.int (Value.int (pos 5))
    × (coerce_value py ColumnType.int (Value.int (pos 5)) ≡ ok (Value.int (pos 5)))
coerce_value-HasType_example =
    coerce_value-HasType py ColumnType.int (Value.float 5) (Value.int (pos 5)) one_value

storable : StorableRow py columns coerced
unfolding pack be
storable = (refl, (tt, ((_, refl), tt)))

encode_row_total_example : (buf : Bytes) × (encode_row py columns coerced ≡ ok buf)
encode_row_total_example = encode_row_total py columns coerced storable (omega arith)

abbrev node : Node
node = leaf ((pos 3, 1 ∷ 2 ∷ []) ∷ (pos 7, []) ∷ []) (some 5)

abbrev node_bytes : Bytes
node_bytes =
    0 ∷ 0 ∷ 0 ∷ 0 ∷ 5 ∷ 0 ∷ 0 ∷ 0 ∷ 2 ∷ 0 ∷ 0 ∷ 0 ∷ 0 ∷ 0 ∷ 0 ∷ 0 ∷ 3 ∷ 0 ∷ 0 ∷ 0 ∷ 2 ∷ 1 ∷ 2 ∷ 0
    ∷ 0 ∷ 0 ∷ 0 ∷ 0 ∷ 0 ∷ 0 ∷ 7 ∷ 0 ∷ 0 ∷ 0 ∷ 0 ∷ []

packs : to_bytes node ≡ ok node_bytes
unfolding to_bytes pack pack_q be
packs = refl

node_from_bytes-to_bytes_example : node_from_bytes (node_bytes ++ 0 ∷ 0 ∷ []) ≡ ok node
node_from_bytes-to_bytes_example =
    node_from_bytes-to_bytes node node_bytes (0 ∷ 0 ∷ []) (λ e. absurd (cc)) packs

start-IsFree : IsFree (7 ∷ [])
unfolding IsFree member
start-IsFree = (omega arith, refl, tt)

push-IsFree_example : IsFree (push (3 ∷ 0 ∷ 4 ∷ 3 ∷ []) (7 ∷ []))
push-IsFree_example = push-IsFree (3 ∷ 0 ∷ 4 ∷ 3 ∷ []) (7 ∷ []) start-IsFree

not_there : member 4 (7 ∷ []) ≡ false
unfolding member
not_there = refl

pop-push_page_example : pop (push_page 4 (7 ∷ [])) ≡ (some 4, 7 ∷ [])
pop-push_page_example = pop-push_page 4 (7 ∷ []) (omega arith) not_there

abbrev two_cells : List Cell
two_cells = (pos 3, 1 ∷ 2 ∷ []) ∷ (pos 7, []) ∷ []

is_missing : find_cell (pos 5) two_cells ≡ none
unfolding find_cell cell_from bisect_left
is_missing = refl

insert_cell-find_cell_example :
    (cells' : List Cell) × (insert_cell (pos 5) (9 ∷ []) two_cells ≡ ok cells')
    × IsSorted cells'
    × ((i : ℤ)
        → find_cell i cells' ≡ (if eq_ℤ (pos 5) i then some (9 ∷ []) else find_cell i two_cells))
    × ((u : Bytes) → insert_cell (pos 5) u cells' ≡ err duplicate_key)
insert_cell-find_cell_example =
    insert_cell-find_cell (pos 5) (9 ∷ []) two_cells (refl, tt) is_missing
