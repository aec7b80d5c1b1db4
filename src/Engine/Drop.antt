-- ===== src/Engine/Drop.antt =====
-- DROP TABLE of leafdb/engine.py: `_drop_table`, on the catalog and the pager. What becomes of the
-- indexes in memory, and the message, are left out; saving the catalog and str.lower are
-- parameters. The snapshot that it takes first is Engine's ensure_snapshot.
use text.Mathlib.Text.{◌==◌ as str_eq}
use leafdb.Prelude.{
  ℕ, ◌≡◌, refl, ap, ◌∙◌, List, [], ◌∷◌, ◌++◌, true, none, String, if◌then◌else◌, arith, ◌==◌, ◌||◌,
}
use leafdb.Prelude.Errors.{Result, ok, guard, ◌>>=◌, ◌>>◌, key_error}
use leafdb.Catalog.{TableMeta, Catalog, get_table}
use leafdb.Catalog.Assoc.{get, has, remove, get-remove}
use leafdb.FreeList.{collect_tree_pages}
use leafdb.Prelude.{some, List, ◌≤◌, length}
use leafdb.FreeList.Tree.{Tree, Tree-root, occurrences, collect_tree_pages-Tree}
use leafdb.Pager.View.{view}
use leafdb.Pager.{Pager, sort_numbers}
use leafdb.Pager.Pool.{member, add_member, member-add_member}
use leafdb.Pager.Rollback.{member-sort_numbers}

-- sorted(…, reverse=True), from the sorted list
unfoldable pub reversed : List ℕ → List ℕ
reversed [] = []
reversed (n ∷ r) = reversed r ++ n ∷ []

unfoldable pub reclaim : ℕ → List ℕ → List ℕ → List ℕ
unfolding reversed sort_numbers add_member
reclaim root pages free = free ++ reversed (sort_numbers (add_member root pages))

unfoldable pub drop_table :
    (String → String)
    → (Catalog → Pager → Result Pager)
    → ℕ
    → String
    → Catalog
    → Pager
    → Result (Catalog × Pager)
unfolding get_table collect_tree_pages reclaim has remove
drop_table lower save fuel name cat p = do
  meta ← get_table lower cat name
  (pages, p) ← collect_tree_pages fuel meta.root_page p
  guard (has meta.name cat.tables) key_error
  let dropped : Catalog = record {
    tables = remove meta.name cat.tables;
    free_pages = reclaim meta.root_page pages cat.free_pages;
  }
  p ← save dropped p
  ok (dropped, p)

member-append :
    (k : ℕ) (a b : List ℕ) → member k (a ++ b) ≡ (if member k a then true else member k b)
unfolding member
member-append k [] b = refl
member-append k (n ∷ a) b = ground (arith, member-append k a b)

member-reversed : (k : ℕ) (l : List ℕ) → member k (reversed l) ≡ member k l
unfolding member reversed
member-reversed k [] = refl
member-reversed k (n ∷ l) =
    ground (arith, member-append k (reversed l) (n ∷ []), member-reversed k l)

member-reclaim :
    (k root : ℕ) (pages free : List ℕ)
    → member k (reclaim root pages free) ≡ (member k free || (root == k || member k pages))
unfolding reclaim
member-reclaim k root pages free =
    member-append k free _
    ∙ rw
        (
          member-reversed k (sort_numbers (add_member root pages)),
          member-sort_numbers k (add_member root pages),
        )
        (ground (arith, member-add_member root k pages))

-- In a transaction, a table that the catalog finds and has under its own name, and whose tree has given pages, none of them twice, is
-- dropped with fuel for each of them: no exception is raised before the catalog is saved, and
-- what is returned when it was saved is the catalog in which the table's name is not there, every
-- other table is as before, and a page is free exactly where it was free or is a page of the tree. What the
-- session sees of the pages before the catalog is saved is as it was.
pub drop_table-get :
    (lower : String → String) (save : Catalog → Pager → Result Pager) (fuel : ℕ) (name : String)
    (cat : Catalog) (meta : TableMeta) (ps : List ℕ) (p : Pager) (t : List ℕ)
    → get_table lower cat name ≡ ok meta
    → has meta.name cat.tables ≡ true
    → p.touched ≡ some t
    → Tree (view p) p.num_pages meta.root_page ps
    → ((k : ℕ) → occurrences k ps ≤ 1)
    → length ps ≤ fuel
    → (cat' : Catalog) × (q : Pager) × (drop_table lower save fuel name cat p
        ≡ (save cat' q >>= λ r. ok (cat', r)))
      × ((k : String) → get k cat'.tables ≡ (if str_eq meta.name k then none else get k cat.tables))
      × ((n : ℕ) → member n cat'.free_pages ≡ (member n cat.free_pages || member n ps))
      × ((n : ℕ) → view q n ≡ view p n)
unfolding drop_table
drop_table-get lower save fuel name cat meta ps p t finds there active tree once enough =
    let (pages, q, collects, same, r) =
      collect_tree_pages-Tree fuel meta.root_page ps p t active tree once enough in
    let dropped : Catalog = record {
      tables = remove meta.name cat.tables;
      free_pages = reclaim meta.root_page pages cat.free_pages;
    } in
    (
      dropped,
      q,
      rw (finds, collects, there) refl,
      λ k. get-remove meta.name k cat.tables,
      λ n.
          member-reclaim n meta.root_page pages cat.free_pages
          ∙ ap (λ b. member n cat.free_pages || (meta.root_page == n || b)) (same n)
          ∙ ap (λ b. member n cat.free_pages || b)
              (Tree-root (view p) p.num_pages meta.root_page n ps tree),
      r.view_same,
    )
