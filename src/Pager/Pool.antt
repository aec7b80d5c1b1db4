-- ===== src/Pager/Pool.antt =====
-- `BufferPool` of leafdb/pager.py: an OrderedDict of pages and the set of dirty page numbers.
use leafdb.Prelude.{
  ℕ, ◌≡◌, refl, List, [], ◌∷◌, ◌++◌, Bool, true, false, Option, none, some, ◌==◌, if◌then◌else◌,
  arith, ◌∙◌, inl, inr, Option-cases, Bool-cases,
}
use leafdb.Bytes.{Bytes}

abbrev pub page_size : ℕ
page_size = 4096

abbrev pub Pages : Type 0
Pages = List (ℕ × Bytes)

pub record BufferPool : Type 0 where
  pub capacity : ℕ
  pub pages : Pages
  pub dirty : List ℕ

unfoldable pub find_page : ℕ → Pages → Option Bytes
find_page n [] = none
find_page n ((m, d) ∷ r) = if m == n then some d else find_page n r

-- pages.pop(n, None)
unfoldable pub drop_page : ℕ → Pages → Pages
drop_page n [] = []
drop_page n ((m, d) ∷ r) = let rest = drop_page n r in if m == n then rest else (m, d) ∷ rest

unfoldable pub member : ℕ → List ℕ → Bool
member n [] = false
member n (m ∷ r) = if m == n then true else member n r

-- dirty.discard(n)
unfoldable pub discard : ℕ → List ℕ → List ℕ
discard n [] = []
discard n (m ∷ r) = let rest = discard n r in if m == n then rest else m ∷ rest

-- dirty.add(n)
unfoldable pub add_member : ℕ → List ℕ → List ℕ
unfolding member
add_member n s = if member n s then s else n ∷ s

-- A page that is found becomes the most recent.
unfoldable pub pool_get : ℕ → BufferPool → Option Bytes × BufferPool
unfolding find_page drop_page
pool_get n p = elim (find_page n p.pages) [
  | none ↦ (none, p)
  | some d ↦ (some d, record p { pages = drop_page n p.pages ++ (n, d) ∷ [] })
]

unfoldable pub pool_put : ℕ → Bytes → Bool → BufferPool → BufferPool
unfolding drop_page add_member
pool_put n d dirty p = record p {
  pages = drop_page n p.pages ++ (n, d) ∷ [];
  dirty = if dirty then add_member n p.dirty else p.dirty;
}

unfoldable pub discard_clean : ℕ → BufferPool → BufferPool
unfolding member drop_page
discard_clean n p = if member n p.dirty then p else record p { pages = drop_page n p.pages }

pub find_page-drop_page :
    (n k : ℕ) (l : Pages) → find_page k (drop_page n l) ≡ (if n == k then none else find_page k l)
unfolding find_page drop_page
find_page-drop_page n k [] = ground arith
find_page-drop_page n k ((m, d) ∷ r) = ground (arith, find_page-drop_page n k r)

pub find_page-append :
    (k n : ℕ) (d : Bytes) (l : Pages)
    → find_page k l ≡ none
    → find_page k (l ++ (n, d) ∷ []) ≡ (if n == k then some d else none)
unfolding find_page
find_page-append k n d [] h = refl
find_page-append k n d ((m, e) ∷ r) h = ground (arith, find_page-append k n d r)

pub find_page-append_found :
    (k n : ℕ) (d e : Bytes) (l : Pages)
    → find_page k l ≡ some e
    → find_page k (l ++ (n, d) ∷ []) ≡ some e
unfolding find_page
find_page-append_found k n d e [] h = absurd (cc h)
find_page-append_found k n d e ((m, x) ∷ r) h = ground (arith, find_page-append_found k n d e r)

-- What moves to the end is found there, and nothing else changes.
pub find_page-move :
    (n k : ℕ) (d : Bytes) (l : Pages)
    → find_page k (drop_page n l ++ (n, d) ∷ []) ≡ (if n == k then some d else find_page k l)
find_page-move n k d l = elim (Option-cases (find_page k (drop_page n l))) [
  | inl missing ↦
      find_page-append k n d (drop_page n l) missing
      ∙ (let e = find_page-drop_page n k l in ground arith)
  | inr (e, found) ↦
      find_page-append_found k n d e (drop_page n l) found
      ∙ (let e' = find_page-drop_page n k l in ground arith)
]

pub member-discard :
    (n k : ℕ) (s : List ℕ) → member k (discard n s) ≡ (if n == k then false else member k s)
unfolding member discard
member-discard n k [] = ground arith
member-discard n k (m ∷ r) = ground (arith, member-discard n k r)

pub member-add_member :
    (n k : ℕ) (s : List ℕ) → member k (add_member n s) ≡ (if n == k then true else member k s)
unfolding member add_member
member-add_member n k s = elim (Bool-cases (member n s)) [
  | inl old ↦ rw old (ground (arith, member_at n k s old))
  | inr new ↦ rw new
]
  where
    member_at : (n k : ℕ) (s : List ℕ) → member n s ≡ true → (n == k) ≡ true → member k s ≡ true
    member_at n k s old same = let e : n ≡ k = ground arith in rw (← e) old
