-- ===== src/Tests/Tables.antt =====
-- CREATE TABLE on an empty catalog with a free page, and DROP TABLE of a table with three pages,
-- whose nodes are also loaded through a cache.
use text.Mathlib.Text.{◌==◌ as str_eq}
use leafdb.Prelude.{
  ◌≤◌, ◌≡◌, refl, [], ◌∷◌, List, true, false, some, String, ℕ, none, if◌then◌else◌, ◌||◌,
}
use leafdb.Prelude.Errors.{Result, ok, err}
use leafdb.Rows.{ColumnType}
use leafdb.Catalog.{
  Column, TableMeta, Catalog, contains, colnames, add_table, validate_column_def, is_supported,
  get_table,
}
use leafdb.Catalog.Assoc.{get, has}
use leafdb.Prelude.Int.{pos}
use leafdb.FreeList.{pop, collect_tree_pages}
use leafdb.BTree.Codec.{to_bytes, node_from_bytes}
use leafdb.Bytes.{pack, be, unpack_from, un_be_from}
use leafdb.Pager.{evict_if_full, remember, Pager, write}
use leafdb.Engine.Tables.{
  create_table, check_columns, column_loop, count_pks, create_table-get, AreDistinct,
}
use leafdb.Pager.Pool.{member}
use leafdb.Engine.Drop.{drop_table, drop_table-get}
use leafdb.Bytes.{Bytes, unpack_q}
use leafdb.Prelude.{arith}
use leafdb.Prelude.Errors.{◌>>=◌}
use leafdb.BTree.Codec.{Node, leaf, internal}
use leafdb.BTree.Cache.{Cache, IsFresh, load_cached, find_node, load_cached-node_from_bytes}
use leafdb.Prelude.{length}
use leafdb.Prelude.{◌==◌, if◌then◌else◌}
use leafdb.Pager.View.{view}
use leafdb.Pager.Pool.{find_page}
use leafdb.Pager.Reads.{Reads}
use leafdb.Catalog.{or_catalog_error}
use leafdb.FreeList.Tree.{Tree, root, no_trees, and_tree, occurrences, collect_tree_pages-Tree}

abbrev pager : Pager
pager = record {
  file = record { size = 0; byte = λ i. 0 };
  num_pages = 3;
  pool = record { capacity = 8; pages = []; dirty = [] };
  touched = some [];
  shadow = [];
  hits = 0;
  misses = 0;
}

abbrev catalog : Catalog
catalog = record { tables = []; free_pages = 2 ∷ [] }

abbrev columns : List Column
columns =
    record { name = "id"; type = ColumnType.int; pk = true }
    ∷ record { name = "t"; type = ColumnType.text; pk = false }
    ∷ []

abbrev save : Catalog → Pager → Result Pager
save cat p = ok p

abbrev ok_or : Catalog × Pager → Result (Catalog × Pager) → Catalog × Pager
ok_or x (ok y) = y
ok_or x (err e) = x

abbrev made : Catalog × Pager
made = ok_or (catalog, pager) (create_table (λ s. s) save "a" columns catalog pager)

creates : create_table (λ s. s) save "a" columns catalog pager ≡ ok (made.0, made.1)
unfolding create_table check_columns column_loop count_pks pop write to_bytes add_table has contains
    validate_column_def is_supported pack be evict_if_full remember
creates = refl

create_table-get_example :
    (meta : TableMeta) × (get "a" made.0.tables ≡ some meta)
    × (has "a" catalog.tables ≡ false)
    × (meta.row_count ≡ 0)
    × AreDistinct (colnames meta)
    × (count_pks meta.columns ≤ 1)
    × ((k : String) → str_eq "a" k ≡ false → get k made.0.tables ≡ get k catalog.tables)
create_table-get_example =
    create_table-get (λ s. s) save "a" columns catalog made.0 pager made.1 creates

abbrev leaf_bytes : Bytes
leaf_bytes = 0 ∷ 255 ∷ 255 ∷ 255 ∷ 255 ∷ 0 ∷ 0 ∷ 0 ∷ 0 ∷ []

abbrev internal_bytes : Bytes
internal_bytes =
    1 ∷ 0 ∷ 0 ∷ 0 ∷ 1 ∷ 0 ∷ 0 ∷ 0 ∷ 2 ∷ 0 ∷ 0 ∷ 0 ∷ 0 ∷ 0 ∷ 0 ∷ 0 ∷ 5 ∷ 0 ∷ 0 ∷ 0 ∷ 1 ∷ 0 ∷ 0 ∷ 0
    ∷ 3 ∷ []

-- A pager in a transaction with a tree of three pages.
abbrev planted : Pager
planted = record pager {
  num_pages = 4;
  pool = record {
    capacity = 8;
    pages = (1, leaf_bytes) ∷ (2, internal_bytes) ∷ (3, leaf_bytes) ∷ [];
    dirty = [];
  };
}

abbrev leaf_node : Node
leaf_node = leaf [] none

abbrev root_node : Node
root_node = internal (pos 5 ∷ []) (1 ∷ 3 ∷ [])

decodes :
    (node_from_bytes (view planted 1) ≡ ok leaf_node)
    × (node_from_bytes (view planted 2) ≡ ok root_node)
    × (node_from_bytes (view planted 3) ≡ ok leaf_node)
unfolding node_from_bytes view unpack_from un_be_from unpack_q find_page
decodes = (refl, refl, refl)

tree : Tree (view planted) planted.num_pages 2 (2 ∷ 1 ∷ 3 ∷ [])
tree = root 2 root_node (1 ∷ 3 ∷ []) refl (decodes.1) (
    and_tree 1 (3 ∷ []) (1 ∷ []) (3 ∷ []) (root 1 leaf_node [] refl (decodes.0) no_trees)
      (and_tree 3 [] (3 ∷ []) [] (root 3 leaf_node [] refl (decodes.2) no_trees) no_trees))

once : (k : ℕ) → occurrences k (2 ∷ 1 ∷ 3 ∷ []) ≤ 1
unfolding occurrences
once k = ground arith

collect_tree_pages-Tree_example :
    (vs : List ℕ) × (q : Pager) × (collect_tree_pages 3 2 planted ≡ ok (vs, q))
    × ((k : ℕ) → member k vs ≡ member k (2 ∷ 1 ∷ 3 ∷ []))
    × Reads planted q
collect_tree_pages-Tree_example =
    collect_tree_pages-Tree 3 2 (2 ∷ 1 ∷ 3 ∷ []) planted [] refl tree once (omega arith)

abbrev table : TableMeta
table = record {
  name = "a";
  columns = [];
  root_page = 2;
  row_count = 0;
  next_rowid = pos 1;
  indexes = [];
}

abbrev stocked : Catalog
stocked = record { tables = ("a", table) ∷ []; free_pages = [] }

finds : (get_table (λ s. s) stocked "a" ≡ ok table) × (has "a" stocked.tables ≡ true)
unfolding get_table get has or_catalog_error
finds = (refl, refl)

drop_table-get_example :
    (cat' : Catalog) × (q : Pager) × (drop_table (λ s. s) save 3 "a" stocked planted
      ≡ (save cat' q >>= λ r. ok (cat', r)))
    × ((k : String) → get k cat'.tables ≡ (if str_eq "a" k then none else get k stocked.tables))
    × ((n : ℕ)
        → member n cat'.free_pages ≡ (member n stocked.free_pages || member n (2 ∷ 1 ∷ 3 ∷ [])))
    × ((n : ℕ) → view q n ≡ view planted n)
drop_table-get_example =
    drop_table-get (λ s. s) save 3 "a" stocked table (2 ∷ 1 ∷ 3 ∷ []) planted [] (finds.0) (finds.1)
      refl tree once (omega arith)

abbrev heap : ℕ → Bytes
heap o = if o == 0 then leaf_bytes else internal_bytes

abbrev cached : Cache
cached = (1, (0, leaf_node)) ∷ []

fresh : IsFresh heap cached
unfolding IsFresh view find_page
fresh = (decodes.0, tt)

load_cached-node_from_bytes_example :
    ((load_cached heap 1 1 cached >>= λ r. ok (r.0)) ≡ node_from_bytes internal_bytes)
    × ((node : Node) (c' : Cache)
        → load_cached heap 1 1 cached ≡ ok (node, c')
        → IsFresh heap c' × (length c' ≤ 513))
load_cached-node_from_bytes_example =
    load_cached-node_from_bytes heap 1 1 cached fresh (omega arith)

-- A cached node that was changed in place is returned where the page is the same object again.
changed : load_cached heap 1 0 ((1, (0, root_node)) ∷ []) ≡ ok (root_node, (1, (0, root_node)) ∷ [])
unfolding load_cached find_node
changed = refl
