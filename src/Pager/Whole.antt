-- ===== src/Pager/Whole.antt =====
-- In a transaction every page in the pool is a whole page, and the pages written are distinct and
-- below the page count.
use leafdb.Prelude.{
  ℕ, ◌+◌, ◌-◌, ◌≤◌, ◌<◌, ◌≡◌, refl, sym, ◌∙◌, List, [], ◌∷◌, true, false, not, ◌&&◌, some, inl, inr,
  Bool-cases, Option-cases, ltb, leb, ◌==◌, if◌then◌else◌, length, replicate, length-append,
  length-replicate, arith,
}
use leafdb.Prelude.Errors.{Result, ok, err, ◌>>=◌}
use leafdb.Bytes.{Bytes}
use leafdb.Pager.Pool.{page_size, find_page, pool_get, member, add_member, member-add_member, Pages}
use leafdb.Pager.View.{find_page-pool_get, find_page-pool_put, pool_get-eq-find_page}
use leafdb.Pager.Disk.{length-read_page}
use leafdb.Pager.Active.{noted, remember_active, stored, write_active, loaded, load_active}
use leafdb.Pager.Txn.{Call, step, run, after_get, after_write, after_allocate}
use leafdb.Pager.{
  Pager, read_page, get, remember, write, allocate, has_shadow, touch, pad, empty_page,
}

abbrev pub WholePages : Pages → Type 0
WholePages pages = (k : ℕ) (b : Bytes) → find_page k pages ≡ some b → length b ≡ page_size

abbrev pub AreDistinct : List ℕ → Type 0
unfolding member
AreDistinct [] = Unit {0}
AreDistinct (n ∷ r) = (member n r ≡ false) × AreDistinct r

pub record IsWhole (p : Pager) : Type 0 where
  pub written : List ℕ
  pub active : p.touched ≡ some written
  pub pages : WholePages p.pool.pages
  pub distinct : AreDistinct written
  pub below : (k : ℕ) → member k written ≡ true → k < p.num_pages

length-pad : (b : Bytes) → ltb page_size (length b) ≡ false → length (pad b) ≡ page_size
length-pad b h =
    length-append b (replicate (page_size - length b) 0)
    ∙ omega
        (arith, length-replicate {A = ℕ} (page_size - length b) 0, ltb_ge page_size (length b) h)
  where
    ltb_ge : (a b : ℕ) → ltb a b ≡ false → b ≤ a
    ltb_ge a b h = ground arith

-- A page put in the pool is whole where it is.
put_whole :
    (n k : ℕ) (d b : Bytes) (pages : Pages)
    → length d ≡ page_size
    → WholePages pages
    → (if n == k then some d else find_page k pages) ≡ some b
    → length b ≡ page_size
put_whole n k d b pages l w h = elim (Bool-cases (n == k)) [
  | inl e ↦ let same : d ≡ b = cc (rw e at h) in rw (← same) l
  | inr e ↦ w k b (rw e at h)
]

add_member-AreDistinct : (n : ℕ) (s : List ℕ) → AreDistinct s → AreDistinct (add_member n s)
unfolding add_member
add_member-AreDistinct n s h = elim (Bool-cases (member n s)) [
  | inl e ↦ rw e h
  | inr e ↦ rw e (e, h)
]

noted-IsWhole : (n : ℕ) (p : Pager) → IsWhole p → IsWhole (noted n p)
unfolding noted
noted-IsWhole n p h = record {
  written = h.written;
  active = h.active;
  pages = λ k b e. h.pages k b (sym (find_page-pool_get n k p.pool) ∙ e);
  distinct = h.distinct;
  below = h.below;
}

remember-IsWhole : (n : ℕ) (p : Pager) → IsWhole p → IsWhole (remember n p)
remember-IsWhole n p h =
    rw (remember_active n p h.written h.active) (elim (Bool-cases (has_shadow n p.shadow)) [
      | inl e ↦ rw e h
      | inr e ↦ rw e (noted-IsWhole n p h)
    ])

stored_below :
    (n k count : ℕ) (s : List ℕ)
    → ((k : ℕ) → member k s ≡ true → k < count)
    → member k (add_member n s) ≡ true
    → k < (if leb count n then n + 1 else count)
stored_below n k count s below m = elim (Bool-cases (n == k)) [
  | inl same ↦ ground arith
  | inr other ↦ let old = below k (sym (rw other at (member-add_member n k s)) ∙ m) in ground arith
]

stored-IsWhole :
    (n : ℕ) (b : Bytes) (p : Pager)
    → IsWhole p
    → ltb page_size (length b) ≡ false
    → IsWhole (stored n b p)
unfolding stored touch
stored-IsWhole n b p h fits = record {
  written = add_member n h.written;
  active = rw (h.active) refl;
  pages = λ k d e.
      put_whole n k (pad b) d p.pool.pages (length-pad b fits) h.pages
        (sym (find_page-pool_put n k (pad b) true p.pool) ∙ e);
  distinct = add_member-AreDistinct n h.written h.distinct;
  below = λ k m. stored_below n k p.num_pages h.written h.below m;
}

write-IsWhole : (n : ℕ) (b : Bytes) (p : Pager) → IsWhole p → IsWhole (after_write p (write n b p))
unfolding after_write
write-IsWhole n b p h =
    let hr = remember-IsWhole n p h in
    let e = write_active n b p hr.written hr.active in
    elim (Bool-cases (ltb page_size (length b))) [
      | inl big ↦ rw (e, big) h
      | inr fits ↦ rw (e, fits) (stored-IsWhole n b (remember n p) hr fits)
    ]

hit-IsWhole :
    (n : ℕ) (p : Pager)
    → IsWhole p
    → IsWhole (record p { pool = (pool_get n p.pool).1; hits = p.hits + 1 })
hit-IsWhole n p h = record {
  written = h.written;
  active = h.active;
  pages = λ k b e. h.pages k b (sym (find_page-pool_get n k p.pool) ∙ e);
  distinct = h.distinct;
  below = h.below;
}

loaded-IsWhole : (n : ℕ) (p : Pager) → IsWhole p → IsWhole (loaded n p)
unfolding loaded
loaded-IsWhole n p h = record {
  written = h.written;
  active = h.active;
  pages = λ k d e.
      put_whole n k (read_page n p.file) d p.pool.pages (length-read_page n p.file) h.pages
        (sym (find_page-pool_put n k (read_page n p.file) false p.pool) ∙ e);
  distinct = h.distinct;
  below = h.below;
}

get-IsWhole : (n : ℕ) (p : Pager) → IsWhole p → IsWhole (after_get p (get n p))
unfolding after_get get
get-IsWhole n p h = elim (Bool-cases (leb p.num_pages n && not (n == 0))) [
  | inl outside ↦ rw (outside) h
  | inr inside ↦ elim (Option-cases (find_page n p.pool.pages)) [
    | inl missing ↦
        rw (inside, pool_get-eq-find_page n p.pool ∙ missing)
          (rw (load_active n p h.written h.active) (loaded-IsWhole n p h))
    | inr (b, found) ↦ rw (inside, pool_get-eq-find_page n p.pool ∙ found) (hit-IsWhole n p h)
  ]
]

grown-IsWhole : (p : Pager) → IsWhole p → IsWhole (record p { num_pages = p.num_pages + 1 })
grown-IsWhole p h = record {
  written = h.written;
  active = h.active;
  pages = h.pages;
  distinct = h.distinct;
  below = λ k m. (let old = h.below k m in omega arith);
}

allocated :
    (r : Result Pager) (p p' : Pager)
    → IsWhole p
    → IsWhole (after_write p' r)
    → IsWhole (after_allocate p (r >>= λ q. ok (p.num_pages, q)))
unfolding after_write after_allocate
allocated (ok q) p p' h h' = h'
allocated (err e) p p' h h' = h

step-IsWhole : (c : Call) (p : Pager) → IsWhole p → IsWhole (step c p)
unfolding step allocate
step-IsWhole (Call.fetch n) p h = get-IsWhole n p h
step-IsWhole (Call.store n b) p h = write-IsWhole n b p h
step-IsWhole Call.grow p h =
    let p' : Pager = record p { num_pages = p.num_pages + 1 } in
    allocated (write p.num_pages empty_page p') p p' h
      (write-IsWhole p.num_pages empty_page p' (grown-IsWhole p h))

pub run-IsWhole : (cs : List Call) (p : Pager) → IsWhole p → IsWhole (run cs p)
unfolding run
run-IsWhole [] p h = h
run-IsWhole (c ∷ cs) p h = run-IsWhole cs (step c p) (step-IsWhole c p h)

-- A transaction that begins has written nothing.
pub begun-IsWhole :
    (p : Pager) → WholePages p.pool.pages → IsWhole (record p { touched = some []; shadow = [] })
unfolding member
begun-IsWhole p h = record {
  written = [];
  active = refl;
  pages = h;
  distinct = tt;
  below = λ k m. absurd (cc m);
}
