-- ===== src/Pager/Rollback.antt =====
-- What ROLLBACK, COMMIT and FLUSH do to the pages of a transaction.
use leafdb.Prelude.{
  ℕ, ◌≡◌, refl, sym, ap, ◌∙◌, List, [], ◌∷◌, map, true, false, Option, none, some, ◌==◌, ==_refl,
  ==_iff, if◌then◌else◌, arith, inl, inr, Option-cases, Bool-cases,
}
use mathlib.Core.Path.{subst}
use leafdb.Prelude.Errors.{ok}
use leafdb.Bytes.{Bytes}
use leafdb.File.{File}
use leafdb.Pager.Pool.{BufferPool, Pages, find_page, member, find_page-drop_page}
use leafdb.Pager.View.{or_file, view, find_page-pool_put}
use leafdb.Pager.Txn.{Call, run, InTxn, AreImages, run-InTxn}
use leafdb.Pager.{
  Pager, begin_txn, rollback_txn, restore_page, restore_all, collect_commit, has_shadow, images_of,
  sort_numbers, insert_number, touched_pages,
}

pub begin_txn-eq-ok :
    (p q : Pager)
    → begin_txn p ≡ ok q
    → (p.touched ≡ none) × (q ≡ record p { touched = some []; shadow = [] })
unfolding begin_txn
begin_txn-eq-ok p q h = elim (Option-cases p.touched) [
  | inl idle ↦ (idle, ok_injective (rw (idle, begin_txn) at h))
  | inr (t, busy) ↦ absurd (cc (rw (busy, begin_txn) at h))
]
  where
    ok_injective : {a b : Pager} → ok a ≡ ok b → b ≡ a
    ok_injective e = cc

begun-InTxn : (p : Pager) → InTxn p.file (view p) (record p { touched = some []; shadow = [] })
unfolding view member
begun-InTxn p = record {
  written = [];
  active = refl;
  same_file = refl;
  images = tt;
  untouched = λ k e. refl;
  cached = λ k m. absurd (cc m);
  kept = λ k m. refl;
}

pub begin_txn-InTxn : (p q : Pager) → begin_txn p ≡ ok q → InTxn p.file (view p) q
begin_txn-InTxn p q h = rw ((begin_txn-eq-ok p q h).1) (begun-InTxn p)

-- A pre-image that is put back is what the page shows.
find_page-restore_page :
    (n k : ℕ) (i : Option Bytes) (pool : BufferPool)
    → find_page k (restore_page n i pool).pages ≡ (if n == k then i else find_page k pool.pages)
unfolding restore_page
find_page-restore_page n k none pool = find_page-drop_page n k pool.pages
find_page-restore_page n k (some b) pool = find_page-pool_put n k b false pool

restore_all-view :
    (f : File) (old : ℕ → Bytes) (s : List (ℕ × Option Bytes)) (pool : BufferPool) (k : ℕ)
    → AreImages f old s
    → (has_shadow k s ≡ false → or_file k f (find_page k pool.pages) ≡ old k)
    → or_file k f (find_page k (restore_all s pool).pages) ≡ old k
unfolding restore_all has_shadow
restore_all-view f old [] pool k h u = u refl
restore_all-view f old ((n, i) ∷ r) pool k h u =
    restore_all-view f old r (restore_page n i pool) k h.1 (λ e. elim (Bool-cases (n == k)) [
      | inl same ↦
          let j : n ≡ k = (==_iff n k).0 same in
          let here : find_page k (restore_page n i pool).pages ≡ i =
            find_page-restore_page n k i pool ∙ rw same in
          ap (or_file k f) here ∙ subst (λ m. or_file m f i ≡ old m) j h.0
      | inr other ↦
          let there : find_page k (restore_page n i pool).pages ≡ find_page k pool.pages =
            find_page-restore_page n k i pool ∙ rw other in
          ap (or_file k f) there ∙ u (rw other e)
    ])

-- After any calls in a transaction, a rollback shows every page as it was before the transaction;
-- the data file has not been written, and no transaction is active.
pub rollback_txn-view :
    (p q : Pager) (cs : List Call)
    → begin_txn p ≡ ok q
    → ((k : ℕ) → view (rollback_txn (run cs q)) k ≡ view p k)
      × ((rollback_txn (run cs q)).file ≡ p.file)
      × ((rollback_txn (run cs q)).touched ≡ none)
unfolding rollback_txn view
rollback_txn-view p q cs h =
    let t = run-InTxn p.file (view p) cs q (begin_txn-InTxn p q h) in
    let r = run cs q in
    (
      λ k.
          ap (λ f. or_file k f (find_page k (restore_all r.shadow r.pool).pages)) t.same_file
          ∙ restore_all-view p.file (view p) r.shadow r.pool k t.images (t.untouched k),
      t.same_file,
      refl,
    )

images_of-view :
    (ns : List ℕ) (pages : Pages) (f : File)
    → ((k : ℕ) → member k ns ≡ true → (b : Bytes) × (find_page k pages ≡ some b))
    → images_of ns pages ≡ ok (map (λ n. (n, or_file n f (find_page n pages))) ns)
unfolding images_of member
images_of-view [] pages f h = refl
images_of-view (n ∷ r) pages f h =
    let (b, e) = h n (rw (==_refl n)) in
    let tail = images_of-view r pages f (λ k m. h k (later n k r m)) in rw (e, tail)
  where
    later :
        (n k : ℕ) (r : List ℕ) → member k r ≡ true → (if n == k then true else member k r) ≡ true
    later n k r m = ground arith

member-insert_number :
    (k n : ℕ) (s : List ℕ) → member k (insert_number n s) ≡ (if n == k then true else member k s)
unfolding member insert_number
member-insert_number k n [] = refl
member-insert_number k n (m ∷ r) = ground (arith, member-insert_number k n r)

pub member-sort_numbers : (k : ℕ) (s : List ℕ) → member k (sort_numbers s) ≡ member k s
unfolding member sort_numbers
member-sort_numbers k [] = refl
member-sort_numbers k (n ∷ r) =
    member-insert_number k n (sort_numbers r) ∙ rw (member-sort_numbers k r)

-- After any calls in a transaction, the commit collects without an exception the pages written,
-- in increasing order, each with the bytes that the session sees, and ends the transaction.
pub collect_commit-view :
    (p q : Pager) (cs : List Call)
    → begin_txn p ≡ ok q
    → collect_commit (run cs q)
      ≡ ok (
        map (λ n. (n, view (run cs q) n)) (sort_numbers (touched_pages (run cs q).touched)),
        (run cs q).num_pages,
        record (run cs q) { touched = none; shadow = [] },
      )
unfolding collect_commit view
collect_commit-view p q cs h =
    let r = run cs q in
    let t = run-InTxn p.file (view p) cs q (begin_txn-InTxn p q h) in
    let e = images_of-view (sort_numbers (touched_pages r.touched)) r.pool.pages r.file (λ k m.
      t.cached k (
        sym (member-sort_numbers k t.written)
        ∙ ap (λ w. member k (sort_numbers (touched_pages w))) (sym t.active)
        ∙ m)) in
    rw e
