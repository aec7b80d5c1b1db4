-- ===== src/Engine/Tables.antt =====
-- CREATE TABLE of leafdb/engine.py: `_create_table`, on the catalog and the pager. Saving the
-- catalog writes JSON and is a parameter, and so is str.lower. The snapshot that it takes first is
-- Engine's ensure_snapshot; the message that it returns is left out.
use text.Mathlib.Text.{◌==◌ as str_eq}
use text.Mathlib.TextEquality.{eq_iff}
use leafdb.Prelude.{
  ℕ, suc, ◌≤◌, ◌≡◌, refl, sym, ap, ◌∙◌, List, [], ◌∷◌, map, Bool, true, false, not, ◌&&◌, Option,
  none, some, String, if◌then◌else◌, leb, inl, inr, Bool-cases, arith,
}
use leafdb.Prelude.Int.{pos}
use leafdb.Prelude.Errors.{Result, ok, guard, guard-eq-ok, ◌>>=◌, ◌>>◌, >>=-eq-ok, catalog_error}
use leafdb.Rows.{ColumnType}
use leafdb.Catalog.{Column, TableMeta, Catalog, contains, colnames, add_table, validate_column_def}
use leafdb.Catalog.Assoc.{get, put, has, get-put}
use leafdb.FreeList.{pop}
use leafdb.BTree.Codec.{leaf, to_bytes}
use leafdb.Pager.{Pager, allocate, write}

abbrev is_int : ColumnType → Bool
is_int ColumnType.int = true
is_int t = false

-- The loop over the columns; `seen` holds the names so far.
unfoldable pub column_loop : (String → String) → List String → List Column → Result (List Column)
unfolding contains validate_column_def
column_loop lower seen [] = ok []
column_loop lower seen (c ∷ cs) = do
  norm ← validate_column_def lower c
  guard (not (contains norm.name seen)) catalog_error
  guard (not (norm.pk && not (is_int norm.type))) catalog_error
  cols ← column_loop lower (norm.name ∷ seen) cs
  ok (norm ∷ cols)

-- len(pks)
unfoldable pub count_pks : List Column → ℕ
count_pks [] = 0
count_pks (c ∷ cs) = if c.pk then suc (count_pks cs) else count_pks cs

unfoldable pub check_columns : (String → String) → List Column → Result (List Column)
unfolding column_loop count_pks
check_columns lower columns = do
  cols ← column_loop lower [] columns
  guard (leb (count_pks cols) 1) catalog_error
  ok cols

-- A free page, or a new one.
root_page : Option ℕ → Pager → Result (ℕ × Pager)
unfolding allocate
root_page none p = allocate p
root_page (some page) p = ok (page, p)

abbrev new_table : String → List Column → ℕ → TableMeta
new_table name cols root = record {
  name = name;
  columns = cols;
  root_page = root;
  row_count = 0;
  next_rowid = pos 1;
  indexes = [];
}

unfoldable pub create_table :
    (String → String)
    → (Catalog → Pager → Result Pager)
    → String
    → List Column
    → Catalog
    → Pager
    → Result (Catalog × Pager)
unfolding check_columns pop root_page write to_bytes add_table
create_table lower save name columns cat p = do
  cols ← check_columns lower columns
  let (free, rest) = pop cat.free_pages
  (root, p) ← root_page free p
  empty ← to_bytes (leaf [] none)
  p ← write root empty p
  cat ← add_table (record cat { free_pages = rest }) (new_table name cols root)
  p ← save cat p
  ok (cat, p)

-- No name is there twice.
unfoldable pub AreDistinct : List String → Type 0
unfolding contains
AreDistinct [] = Unit {0}
AreDistinct (n ∷ ns) = (contains n ns ≡ false) × AreDistinct ns

NewNames : List String → List String → Type 0
NewNames seen [] = Unit {0}
NewNames seen (n ∷ ns) = (contains n seen ≡ false) × NewNames (n ∷ seen) ns

str_refl : (n : String) → str_eq n n ≡ true
str_refl n = (eq_iff n n).1 refl

NewNames-apart :
    (seen ns : List String) (k : String)
    → NewNames seen ns
    → contains k seen ≡ true
    → contains k ns ≡ false
unfolding NewNames contains
NewNames-apart seen [] k new there = refl
NewNames-apart seen (n ∷ ns) k new there =
    let rest : contains k (n ∷ seen) ≡ true → contains k ns ≡ false =
      NewNames-apart (n ∷ seen) ns k new.1 in
    ground (arith, eq_iff n k, rest)

NewNames-AreDistinct : (seen ns : List String) → NewNames seen ns → AreDistinct ns
unfolding NewNames AreDistinct contains
NewNames-AreDistinct seen [] new = tt
NewNames-AreDistinct seen (n ∷ ns) new = (
  NewNames-apart (n ∷ seen) ns n new.1 (rw (str_refl n) refl),
  NewNames-AreDistinct (n ∷ seen) ns new.1,
)

column_loop-NewNames :
    (lower : String → String) (seen : List String) (cs cols : List Column)
    → column_loop lower seen cs ≡ ok cols
    → NewNames seen (map (λ c. c.name) cols)
unfolding NewNames column_loop
column_loop-NewNames lower seen [] cols h = let e : [] ≡ cols = cc h in rw (sym e) tt
column_loop-NewNames lower seen (c ∷ cs) cols h =
    let (norm, valid, h1) = >>=-eq-ok (validate_column_def lower c) _ h in
    let (u, new, h2) = >>=-eq-ok (guard (not (contains norm.name seen)) catalog_error) _ h1 in
    let (v, int_key, h3) =
      >>=-eq-ok (guard (not (norm.pk && not (is_int norm.type))) catalog_error) _ h2 in
    let (rest, loops, h4) = >>=-eq-ok (column_loop lower (norm.name ∷ seen) cs) _ h3 in
    let e : norm ∷ rest ≡ cols = cc h4 in
    let fresh = guard-eq-ok (not (contains norm.name seen)) catalog_error u new in
    rw (sym e) (ground (arith, fresh), column_loop-NewNames lower (norm.name ∷ seen) cs rest loops)

check_columns-AreDistinct :
    (lower : String → String) (cs cols : List Column)
    → check_columns lower cs ≡ ok cols
    → AreDistinct (map (λ c. c.name) cols) × (count_pks cols ≤ 1)
unfolding check_columns
check_columns-AreDistinct lower cs cols h =
    let (found, loops, h1) = >>=-eq-ok (column_loop lower [] cs) _ h in
    let (u, few, h2) = >>=-eq-ok (guard (leb (count_pks found) 1) catalog_error) _ h1 in
    let e : found ≡ cols = cc h2 in
    let one = guard-eq-ok (leb (count_pks found) 1) catalog_error u few in
    rw (sym e) (
      NewNames-AreDistinct [] _ (column_loop-NewNames lower [] cs found loops),
      ground (arith, one),
    )

add_table-eq-ok :
    (cat made : Catalog) (meta : TableMeta)
    → add_table cat meta ≡ ok made
    → (has meta.name cat.tables ≡ false) × (put meta.name meta cat.tables ≡ made.tables)
unfolding add_table
add_table-eq-ok cat made meta h = elim (Bool-cases (has meta.name cat.tables)) [
  | inl there ↦ absurd (cc (rw there at h))
  | inr new ↦
      let e : record cat { tables = put meta.name meta cat.tables } ≡ made = cc (rw new at h) in
      (new, ap (λ c. c.tables) e)
]

-- A table that is created was not there, is there afterwards with no row, its column names are
-- distinct and at most one column is a primary key; every other table is as before.
pub create_table-get :
    (lower : String → String) (save : Catalog → Pager → Result Pager) (name : String)
    (columns : List Column) (cat cat' : Catalog) (p p' : Pager)
    → create_table lower save name columns cat p ≡ ok (cat', p')
    → (meta : TableMeta) × (get name cat'.tables ≡ some meta)
      × (has name cat.tables ≡ false)
      × (meta.row_count ≡ 0)
      × AreDistinct (colnames meta)
      × (count_pks meta.columns ≤ 1)
      × ((k : String) → str_eq name k ≡ false → get k cat'.tables ≡ get k cat.tables)
unfolding create_table colnames
create_table-get lower save name columns cat cat' p p' h =
    let (cols, checks, h1) = >>=-eq-ok (check_columns lower columns) _ h in
    let ((root, q), _, h2) = >>=-eq-ok (root_page (pop cat.free_pages).0 p) _ h1 in
    let (empty, _, h3) = >>=-eq-ok (to_bytes (leaf [] none)) _ h2 in
    let (r, _, h4) = >>=-eq-ok (write root empty q) _ h3 in
    let (made, adds, h5) =
      >>=-eq-ok
        (add_table (record cat { free_pages = (pop cat.free_pages).1 }) (new_table name cols root))
        _ h4 in
    let (t, _, h6) = >>=-eq-ok (save made r) _ h5 in
    let e : made ≡ cat' = cc h6 in
    let (distinct, one) = check_columns-AreDistinct lower columns cols checks in
    let (new, puts) = add_table-eq-ok _ made (new_table name cols root) adds in
    let tables : put name (new_table name cols root) cat.tables ≡ cat'.tables =
      puts ∙ ap (λ c. c.tables) e in
    (
      new_table name cols root,
      ap (get name) (sym tables)
          ∙ get-put name name (new_table name cols root) cat.tables
          ∙ rw (str_refl name) refl,
      new,
      refl,
      distinct,
      one,
      λ k other.
          ap (get k) (sym tables)
          ∙ get-put name k (new_table name cols root) cat.tables
          ∙ rw other refl,
    )
