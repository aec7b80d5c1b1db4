-- ===== src/FreeList/Tree.antt =====
-- The walk of `collect_tree_pages` (leafdb/freelist.py) over the pages of a tree, in a transaction.
use leafdb.Prelude.{
  ℕ, zero, suc, ◌+◌, ◌≤◌, ◌≡◌, refl, sym, ap, ◌∙◌, List, [], ◌∷◌, ◌++◌, false, some, ltb, leb, not,
  ◌&&◌, ◌||◌, ◌==◌, ==_refl, if◌then◌else◌, arith, length, length-append,
}
use mathlib.Core.Path.{subst}
use leafdb.Prelude.Errors.{ok}
use leafdb.Bytes.{Bytes}
use leafdb.Pager.Pool.{member}
use leafdb.Pager.View.{view}
use leafdb.Pager.Reads.{Reads, get_active}
use leafdb.Pager.{Pager}
use leafdb.BTree.{load}
use leafdb.BTree.Codec.{Node, node_from_bytes}
use leafdb.FreeList.{push_children, children_of, collect_loop, collect_tree_pages}

-- The page `n` of `count` pages with the contents `g` is a node whose subtrees are on the other
-- pages of `ps`, each as often as it is a child; `Trees` is so of a list of pages.
mutual
  pub data Tree (g : ℕ → Bytes) (count : ℕ) : ℕ → List ℕ → Type 0 where
    root :
        (n : ℕ) (node : Node) (ps : List ℕ)
        → (leb count n && not (n == 0)) ≡ false
        → node_from_bytes (g n) ≡ ok node
        → Trees g count (children_of node) ps
        → Tree g count n (n ∷ ps)

  pub data Trees (g : ℕ → Bytes) (count : ℕ) : List ℕ → List ℕ → Type 0 where
    no_trees : Trees g count [] []
    and_tree :
        (n : ℕ) (ns ps qs : List ℕ)
        → Tree g count n ps
        → Trees g count ns qs
        → Trees g count (n ∷ ns) (ps ++ qs)

-- How often a page stands in a list.
unfoldable pub occurrences : ℕ → List ℕ → ℕ
occurrences k [] = 0
occurrences k (n ∷ ns) = if n == k then suc (occurrences k ns) else occurrences k ns

occurrences-append :
    (k : ℕ) (ps qs : List ℕ) → occurrences k (ps ++ qs) ≡ occurrences k ps + occurrences k qs
unfolding occurrences
occurrences-append k [] qs = omega arith
occurrences-append k (p ∷ ps) qs = ground (arith, occurrences-append k ps qs)

member-occurrences : (k : ℕ) (ps : List ℕ) → member k ps ≡ ltb 0 (occurrences k ps)
unfolding member occurrences
member-occurrences k [] = refl
member-occurrences k (p ∷ ps) = ground (arith, member-occurrences k ps)

pub Tree-root :
    (g : ℕ → Bytes) (count n k : ℕ) (ps : List ℕ)
    → Tree g count n ps
    → (n == k || member k ps) ≡ member k ps
unfolding member
Tree-root g count n k _ (root _ node ps inside decodes kids) = ground arith

-- A list of trees that is pushed on a stack of trees leaves a stack of both.
Trees-push_children :
    (g : ℕ → Bytes) (count : ℕ) (cs ns ps qs : List ℕ)
    → Trees g count cs ps
    → Trees g count ns qs
    → (rs : List ℕ) × Trees g count (push_children cs ns) rs
      × ((k : ℕ) → occurrences k rs ≡ occurrences k ps + occurrences k qs)
      × (length rs ≡ length ps + length qs)
unfolding push_children occurrences
Trees-push_children g count [] ns ps qs no_trees below = (qs, below, λ k. omega arith, omega arith)
Trees-push_children g count (c ∷ cs) ns _ qs (and_tree _ _ ds bs t ts) below =
    let (rs, all, often, long) =
      Trees-push_children g count cs (c ∷ ns) bs (ds ++ qs) ts (and_tree c ns ds qs t below) in
    (
      rs,
      all,
      λ k. omega (arith, often k, occurrences-append k ds qs, occurrences-append k ds bs),
      omega (arith, long, length-append ds qs, length-append ds bs),
    )

load_active :
    (n : ℕ) (node : Node) (p : Pager) (t : List ℕ)
    → p.touched ≡ some t
    → (leb p.num_pages n && not (n == 0)) ≡ false
    → node_from_bytes (view p n) ≡ ok node
    → (q : Pager) × (load n p ≡ ok (node, q)) × Reads p q
unfolding load
load_active n node p t active inside decodes =
    let (q, gets, r) = get_active n p t active inside in (q, rw (gets, decodes) refl, r)

collect_loop-nil :
    (fuel : ℕ) (visited : List ℕ) (p : Pager) → collect_loop fuel [] visited p ≡ ok (visited, p)
unfolding collect_loop
collect_loop-nil zero visited p = refl
collect_loop-nil (suc fuel) visited p = refl

unvisited :
    (n : ℕ) (ps qs visited : List ℕ)
    → occurrences n ((n ∷ ps) ++ qs) + occurrences n visited ≤ 1
    → member n visited ≡ false
unfolding occurrences
unvisited n ps qs visited once =
    ground (arith, member-occurrences n visited, ==_refl n, occurrences-append n (n ∷ ps) qs)

-- The loop on a stack of trees: with fuel for each of their pages it ends, and has visited each of
-- them beside what was visited before.
collect_loop-Trees :
    (g : ℕ → Bytes) (fuel : ℕ) (ns ps visited : List ℕ) (p : Pager) (t : List ℕ)
    → Trees g p.num_pages ns ps
    → p.touched ≡ some t
    → ((k : ℕ) → view p k ≡ g k)
    → ((k : ℕ) → occurrences k ps + occurrences k visited ≤ 1)
    → length ps ≤ fuel
    → (vs : List ℕ) × (q : Pager) × (collect_loop fuel ns visited p ≡ ok (vs, q))
      × ((k : ℕ) → occurrences k vs ≡ occurrences k ps + occurrences k visited)
      × Reads p q
unfolding collect_loop occurrences
collect_loop-Trees g fuel [] _ visited p t no_trees active views once enough = (
  visited,
  p,
  collect_loop-nil fuel visited p,
  λ k. omega arith,
  record { touched_same = refl; count_same = refl; view_same = λ k. refl },
)
collect_loop-Trees g zero (n ∷ ns) _ visited p t
      (and_tree _ _ _ qs (root _ node kp inside decodes kids) below) active views once enough =
    absurd (omega (arith, enough))
collect_loop-Trees g (suc fuel) (n ∷ ns) _ visited p t
      (and_tree _ _ _ qs (root _ node kp inside decodes kids) below) active views once enough =
    let fresh : member n visited ≡ false = unvisited n kp qs visited (once n) in
    let (q, loads, r) =
      load_active n node p t active inside (ap node_from_bytes (views n) ∙ decodes) in
    let (rs, all, often, long) =
      Trees-push_children g p.num_pages (children_of node) ns kp qs kids below in
    let (vs, u, collects, counts, r') =
      collect_loop-Trees g fuel (push_children (children_of node) ns) rs (n ∷ visited) q t
        (subst (λ c. Trees g c (push_children (children_of node) ns) rs) (sym (r.count_same)) all)
        (r.touched_same ∙ active) (λ k. r.view_same k ∙ views k)
        (λ k. ground (arith, often k, once k, occurrences-append k kp qs))
        (omega (arith, long, enough, length-append kp qs)) in
    (
      vs,
      u,
      rw (fresh, loads) collects,
      (λ k. ground (arith, counts k, often k, occurrences-append k kp qs)),
      record {
        touched_same = r'.touched_same ∙ r.touched_same;
        count_same = r'.count_same ∙ r.count_same;
        view_same = λ k. r'.view_same k ∙ r.view_same k;
      },
    )

-- In a transaction, where the pages of a tree are given and none stands in it twice, the walk with
-- fuel for each of them returns without an exception exactly these pages, and changes neither
-- what the session sees nor its transaction.
pub collect_tree_pages-Tree :
    (fuel r : ℕ) (ps : List ℕ) (p : Pager) (t : List ℕ)
    → p.touched ≡ some t
    → Tree (view p) p.num_pages r ps
    → ((k : ℕ) → occurrences k ps ≤ 1)
    → length ps ≤ fuel
    → (vs : List ℕ) × (q : Pager) × (collect_tree_pages fuel r p ≡ ok (vs, q))
      × ((k : ℕ) → member k vs ≡ member k ps)
      × Reads p q
unfolding collect_tree_pages occurrences
collect_tree_pages-Tree fuel r ps p t active tree once enough =
    let (vs, q, collects, counts, reads) =
      collect_loop-Trees (view p) fuel (r ∷ []) (ps ++ []) [] p t
        (and_tree r [] ps [] tree no_trees) active (λ k. refl)
        (λ k. omega (arith, once k, occurrences-append k ps []))
        (omega (arith, enough, length-append ps [])) in
    (
      vs,
      q,
      collects,
      λ k.
          let total : occurrences k vs ≡ occurrences k ps =
            omega (arith, counts k, occurrences-append k ps []) in
          member-occurrences k vs ∙ ap (ltb 0) total ∙ sym (member-occurrences k ps),
      reads,
    )
