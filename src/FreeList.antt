-- ===== src/FreeList.antt =====
-- leafdb/freelist.py: the pages that can be used again, and the pages of a tree. A set is a list.
pub mod Tree
use leafdb.Prelude.{
  ℕ, zero, suc, ◌<◌, ◌≡◌, refl, List, [], ◌∷◌, ◌++◌, false, not, ◌&&◌, Option, none, some, ltb,
  ◌==◌, if◌then◌else◌, Bool-cases, inl, inr, arith, lt→ltb,
}
use leafdb.Prelude.Errors.{Result, ok, err, ◌>>=◌, out_of_fuel}
use leafdb.Pager.{Pager}
use leafdb.Pager.Pool.{member}
use leafdb.BTree.{load}
use leafdb.BTree.Codec.{Node, leaf, internal}

-- One page of `push`: a page that is not 0 and is not there is added behind.
unfoldable pub push_page : ℕ → List ℕ → List ℕ
unfolding member
push_page p pages = if ltb 0 p && not (member p pages) then pages ++ p ∷ [] else pages

unfoldable pub push : List ℕ → List ℕ → List ℕ
unfolding push_page
push [] pages = pages
push (p ∷ ps) pages = push ps (push_page p pages)

-- pages.pop(): the last page, and the rest.
unfoldable pub pop : List ℕ → Option ℕ × List ℕ
pop [] = (none, [])
pop (p ∷ []) = (some p, [])
pop (p ∷ q ∷ r) = let (last, rest) = pop (q ∷ r) in (last, p ∷ rest)

-- The loop of `collect_tree_pages`; the top of the stack stands first, so the children of a node
-- are pushed in reverse.
unfoldable pub push_children : List ℕ → List ℕ → List ℕ
push_children [] stack = stack
push_children (c ∷ cs) stack = push_children cs (c ∷ stack)

abbrev children_of : Node → List ℕ
children_of (leaf cells nxt) = []
children_of (internal keys children) = children

unfoldable pub collect_loop : ℕ → List ℕ → List ℕ → Pager → Result (List ℕ × Pager)
unfolding member push_children load
collect_loop fuel [] visited p = ok (visited, p)
collect_loop zero (pg ∷ stack) visited p = err out_of_fuel
collect_loop (suc fuel) (pg ∷ stack) visited p =
    if member pg visited then collect_loop fuel stack visited p else (do
      (node, q) ← load pg p
      collect_loop fuel (push_children (children_of node) stack) (pg ∷ visited) q)

unfoldable pub collect_tree_pages : ℕ → ℕ → Pager → Result (List ℕ × Pager)
unfolding collect_loop
collect_tree_pages fuel root p = collect_loop fuel (root ∷ []) [] p

-- A free list as the code keeps it: no page twice, and not page 0.
unfoldable pub IsFree : List ℕ → Type 0
unfolding member
IsFree [] = Unit {0}
IsFree (p ∷ r) = (0 < p) × (member p r ≡ false) × IsFree r

member_cons :
    (k q : ℕ) (ps : List ℕ) → member k (q ∷ ps) ≡ false → ((q == k) ≡ false) × (member k ps ≡ false)
unfolding member
member_cons k q ps h = elim (Bool-cases (q == k)) [
  | inl e ↦ absurd (cc (rw e at h))
  | inr e ↦ (e, cc (rw e at h))
]

member-append :
    (k p : ℕ) (ps : List ℕ)
    → member k ps ≡ false
    → (p == k) ≡ false
    → member k (ps ++ p ∷ []) ≡ false
unfolding IsFree member
member-append k p [] h n = rw n refl
member-append k p (q ∷ ps) h n =
    let (e, h') = member_cons k q ps h in rw e (member-append k p ps h' n)

==_sym_false : (a b : ℕ) → (a == b) ≡ false → (b == a) ≡ false
==_sym_false a b h = ground arith

IsFree-append :
    (p : ℕ) (ps : List ℕ) → IsFree ps → 0 < p → member p ps ≡ false → IsFree (ps ++ p ∷ [])
unfolding IsFree member
IsFree-append p [] h q n = (q, refl, tt)
IsFree-append p (r ∷ ps) (lt, free, h) q n =
    let (e, n') = member_cons p r ps n in
    (lt, member-append r p ps free (==_sym_false r p e), IsFree-append p ps h q n')

push_page-IsFree : (p : ℕ) (pages : List ℕ) → IsFree pages → IsFree (push_page p pages)
unfolding push_page
push_page-IsFree p pages h = elim (Bool-cases (ltb 0 p)) [
  | inr e ↦ rw e h
  | inl e ↦ elim (Bool-cases (member p pages)) [
    | inl m ↦ rw (e, m) h
    | inr m ↦ rw (e, m) (IsFree-append p pages h (ground arith) m)
  ]
]

-- Pushing any pages on a free list without page 0 and without a page twice leaves one.
pub push-IsFree : (ps pages : List ℕ) → IsFree pages → IsFree (push ps pages)
unfolding push
push-IsFree [] pages h = h
push-IsFree (p ∷ ps) pages h = push-IsFree ps (push_page p pages) (push_page-IsFree p pages h)

pop-append : (p : ℕ) (pages : List ℕ) → pop (pages ++ p ∷ []) ≡ (some p, pages)
unfolding pop
pop-append p [] = refl
pop-append p (q ∷ []) = refl
pop-append p (q ∷ r ∷ pages) = rw (pop-append p (r ∷ pages)) refl

-- A page that is not 0 and not in the list is the next that `pop` returns once it was pushed, and
-- the list is then as it was.
pub pop-push_page :
    (p : ℕ) (pages : List ℕ)
    → 0 < p
    → member p pages ≡ false
    → pop (push_page p pages) ≡ (some p, pages)
unfolding push_page
pop-push_page p pages h n = rw (lt→ltb 0 p h, n) (pop-append p pages)
