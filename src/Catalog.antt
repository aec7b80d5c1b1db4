-- ===== src/Catalog.antt =====
-- leafdb/catalog.py: the schema catalog. A dict is an association list in insertion order.
pub mod Assoc
use text.Mathlib.Text.{◌==◌ as str_eq}
use leafdb.Prelude.{
  ℕ, zero, suc, List, [], ◌∷◌, Bool, true, false, Option, none, some, String, map, if◌then◌else◌,
}
use leafdb.Prelude.Int.{ℤ}
use leafdb.Prelude.Errors.{Result, ok, err, ◌>>=◌, catalog_error}
use leafdb.Rows.{ColumnType}
use Assoc.{Dict, get, put, has}

pub record Column : Type 0 where
  pub name : String
  pub type : ColumnType
  pub pk : Bool

pub record TableMeta : Type 0 where
  pub name : String
  pub columns : List Column
  pub root_page : ℕ
  pub row_count : ℕ
  pub next_rowid : ℤ
  -- column name to index name
  pub indexes : Dict String

unfoldable pub colnames : TableMeta → List String
colnames m = map (λ c. c.name) m.columns

unfoldable pub types : TableMeta → List ColumnType
types m = map (λ c. c.type) m.columns

unfoldable pub first_pk : List Column → Option String
first_pk [] = none
first_pk (c ∷ cs) = if c.pk then some c.name else first_pk cs

unfoldable pub pk_column : TableMeta → Option String
unfolding first_pk
pk_column m = first_pk m.columns

unfoldable pub first_pk_index : ℕ → List Column → Option ℕ
first_pk_index i [] = none
first_pk_index i (c ∷ cs) = if c.pk then some i else first_pk_index (suc i) cs

unfoldable pub pk_index : TableMeta → Option ℕ
unfolding first_pk_index
pk_index m = first_pk_index 0 m.columns

-- name in names
unfoldable pub contains : String → List String → Bool
contains k [] = false
contains k (n ∷ ns) = if str_eq n k then true else contains k ns

-- names.index(name), counted from `i`
unfoldable pub index_from : ℕ → String → List String → Option ℕ
index_from i k [] = none
index_from i k (n ∷ ns) = if str_eq n k then some i else index_from (suc i) k ns

unfoldable pub or_catalog_error {ℓ} : {A : Type ℓ} → Option A → Result A
or_catalog_error none = err catalog_error
or_catalog_error (some a) = ok a

unfoldable pub column_index : TableMeta → String → Result ℕ
unfolding index_from or_catalog_error colnames
column_index m k = or_catalog_error (index_from 0 k (colnames m))

pub record Catalog : Type 0 where
  pub tables : Dict TableMeta
  pub free_pages : List ℕ

unfoldable pub empty_catalog : Catalog
empty_catalog = record { tables = []; free_pages = [] }

-- str.lower is Python's, and is the first argument.
unfoldable pub get_table : (String → String) → Catalog → String → Result TableMeta
unfolding or_catalog_error get
get_table lower cat k = or_catalog_error (get (lower k) cat.tables)

unfoldable pub add_table : Catalog → TableMeta → Result Catalog
unfolding get put has
add_table cat meta =
    if has meta.name cat.tables
    then err catalog_error
    else ok (record cat { tables = put meta.name meta cat.tables })

unfoldable pub is_supported : ColumnType → Bool
is_supported (ColumnType.unknown name) = false
is_supported t = true

unfoldable pub validate_column_def : (String → String) → Column → Result Column
unfolding is_supported
validate_column_def lower c =
    if is_supported c.type then ok (record c { name = lower c.name }) else err catalog_error
