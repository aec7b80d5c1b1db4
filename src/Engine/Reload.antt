-- ===== src/Engine/Reload.antt =====
-- What a session reads again from the pages: Catalog.load of leafdb/catalog.py, and scan_table and
-- _rebuild_indexes of leafdb/engine.py. The reading of the catalog's JSON is a parameter, from the
-- bytes to the tables. An index is a dict by Python's == on values; the set of an entry is a list,
-- since the scan of a table has each rowid once. `reload` is an instance of the parameter of Engine.
pub mod Rowids
use text.Mathlib.Text.{◌==◌ as str_eq}
use leafdb.Prelude.{
  ℕ, ◌≡◌, refl, sym, ap, ◌∙◌, List, [], ◌∷◌, ◌++◌, map, Bool, true, false, ◌&&◌, none, some, String,
  if◌then◌else◌, ◌==◌, append-nil, append_assoc, inl, inr, Bool-cases,
}
use leafdb.Prelude.Int.{ℤ}
use leafdb.Prelude.Errors.{Result, ok, err, ◌>>=◌, >>=-eq-ok}
use leafdb.Bytes.{Bytes}
use leafdb.Value.{Value, Runtime}
use leafdb.Rows.{decode_row}
use leafdb.Catalog.{TableMeta, Catalog, empty_catalog, types, column_index}
use leafdb.Catalog.Assoc.{Dict}
use leafdb.BTree.Seq.{at}
use leafdb.BTree.Codec.{Cell}
use leafdb.BTree.Scan.{range_scan}
use leafdb.Executor.Values.{equal}
use leafdb.Executor.Buckets.{Buckets, EqualityLaws, bucket, bucket_add, bucket-bucket_add}
use leafdb.Pager.{Pager, get as get_page}

-- raw.rstrip(b"\x00")
unfoldable pub rstrip_zeros : Bytes → Bytes
rstrip_zeros [] = []
rstrip_zeros (b ∷ r) = elim (rstrip_zeros r) [
  | [] ↦ if b == 0 then [] else b ∷ []
  | c ∷ s ↦ b ∷ c ∷ s
]

parsed : (Bytes → Result (Dict TableMeta)) → Bytes → Result Catalog
parsed tables_of [] = ok empty_catalog
parsed tables_of (b ∷ r) = do
  tables ← tables_of (b ∷ r)
  ok (record { tables = tables; free_pages = [] })

unfoldable pub load_catalog : (Bytes → Result (Dict TableMeta)) → Pager → Result (Catalog × Pager)
unfolding rstrip_zeros parsed
load_catalog tables_of p = do
  (raw, q) ← get_page 0 p
  cat ← parsed tables_of (rstrip_zeros raw)
  ok (cat, q)

abbrev pub Rows : Type 0 → Type 0
Rows F = List (ℤ × List (Value F))

module _ {F : Type 0} (py : Runtime F) where
  decode_rows : TableMeta → List Cell → Result (Rows F)
  decode_rows meta [] = ok []
  decode_rows meta ((rid, blob) ∷ cells) = do
    row ← decode_row py (types meta) blob
    rows ← decode_rows meta cells
    ok ((rid, row) ∷ rows)

  unfoldable pub scan_table : ℕ → TableMeta → Pager → Result (Rows F × Pager)
  unfolding decode_rows
  scan_table fuel meta p = do
    (cells, q) ← range_scan fuel meta.root_page none none p
    rows ← decode_rows meta cells
    ok (rows, q)

-- The indexes by table and column: from a value to the rowids.
abbrev pub Indexes : Type 0 → Type 0
Indexes F = List ((String × String) × Buckets (Value F) ℤ)

module _ {F : Type 0} (eq : Value F → Value F → Bool) where
  abbrev index_value : ℤ → Value F → Buckets (Value F) ℤ → Buckets (Value F) ℤ
  index_value rid Value.null idx = idx
  index_value rid v idx = bucket_add eq v rid idx

  unfoldable pub index_rows : ℕ → Rows F → Buckets (Value F) ℤ → Result (Buckets (Value F) ℤ)
  index_rows ci [] idx = ok idx
  index_rows ci ((rid, row) ∷ rows) idx = do
    v ← at ci row
    index_rows ci rows (index_value rid v idx)

-- self.indexes[(name, column)] = idx
unfoldable pub put_index :
    {F : Type 0} → String × String → Buckets (Value F) ℤ → Indexes F → Indexes F
put_index k idx [] = (k, idx) ∷ []
put_index k idx ((j, old) ∷ r) =
    if str_eq (j.0) (k.0) && str_eq (j.1) (k.1) then (j, idx) ∷ r else (j, old) ∷ put_index k idx r

module _ {F : Type 0} (py : Runtime F) where
  unfoldable pub index_columns :
      ℕ → TableMeta → List (String × String) → Indexes F → Pager → Result (Indexes F × Pager)
  unfolding scan_table index_rows put_index
  index_columns fuel meta [] all p = ok (all, p)
  index_columns fuel meta ((column, name) ∷ columns) all p = do
    ci ← column_index meta column
    (rows, q) ← scan_table py fuel meta p
    idx ← index_rows (equal py) ci rows []
    index_columns fuel meta columns (put_index (meta.name, column) idx all) q

  unfoldable pub rebuild_indexes :
      ℕ → Dict TableMeta → Indexes F → Pager → Result (Indexes F × Pager)
  unfolding index_columns
  rebuild_indexes fuel [] all p = ok (all, p)
  rebuild_indexes fuel ((name, meta) ∷ tables) all p = do
    (all', q) ← index_columns fuel meta meta.indexes all p
    rebuild_indexes fuel tables all' q

  unfoldable pub reload :
      ℕ
      → (Bytes → Result (Dict TableMeta))
      → Pager
      → Unit {0}
      → Result ((Dict TableMeta × Indexes F) × Unit {0} × Pager)
  unfolding load_catalog rebuild_indexes
  reload fuel tables_of p h = do
    (cat, q) ← load_catalog tables_of p
    (all, r) ← rebuild_indexes fuel cat.tables [] q
    ok ((cat.tables, all), h, r)
