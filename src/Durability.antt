-- ===== src/Durability.antt =====
-- Commits of leafdb/pager.py through the log of leafdb/wal.py: a transaction of the pager is
-- collected, appended to the log, and found by the recovery of leafdb/wal.py after a crash.
pub mod Collected
use leafdb.Prelude.{
  ℕ, zero, suc, ◌+◌, ◌≤◌, ◌<◌, ◌≡◌, refl, sym, ap, ◌∙◌, List, [], ◌∷◌, ◌++◌, map, Bool, true, false,
  Option, none, some, ◌⊎◌, inl, inr, Bool-cases, if◌then◌else◌, length, take, arith, append_assoc,
  append-nil, length-append,
}
use leafdb.Prelude.Errors.{Result, ok, ◌>>=◌, >>=-eq-ok}
use leafdb.Bytes.{Bytes}
use leafdb.File.{File}
use leafdb.Pager.Pool.{page_size, find_page, member}
use leafdb.Pager.View.{or_file, view}
use leafdb.Pager.{
  open_pager, Pager, begin_txn, collect_commit, sort_numbers, touched_pages, read_page,
}
use leafdb.Pager.Txn.{Call, run, InTxn, run-InTxn}
use leafdb.Pager.Rollback.{
  begin_txn-eq-ok, begin_txn-InTxn, collect_commit-view, member-sort_numbers,
}
use leafdb.Pager.Disk.{AreWhole, read_page-apply_batch}
use leafdb.Pager.Whole.{WholePages, IsWhole, run-IsWhole, begun-IsWhole}
use leafdb.Wal.{Images, wal_header, commit_page, batch_blob, append_batch}
use leafdb.Wal.Batches.{IsBatch}
use leafdb.Wal.Commits.{Commits, AreBatches, append_all}
use leafdb.Wal.Recover.{recover, apply_batch}
use leafdb.Wal.Durable.{
  apply_commits, Unreadable, Unreadable-nil, Unreadable-take, recover-append_all,
}
use Collected.{pages_of, sort_numbers-IsBatch, pages_of-AreWhole, find_page-pages_of, small_batch}

apply_commits-append :
    (bs : Commits) (imgs : Images) (n : ℕ) (f : File)
    → apply_commits (bs ++ (imgs, n) ∷ []) f ≡ apply_batch imgs n (apply_commits bs f)
unfolding apply_commits
apply_commits-append [] imgs n f = refl
apply_commits-append ((i, m) ∷ r) imgs n f = apply_commits-append r imgs n (apply_batch i m f)

AreBatches-append :
    (bs : Commits) (imgs : Images) (n : ℕ)
    → AreBatches bs
    → IsBatch 0 imgs
    → AreBatches (bs ++ (imgs, n) ∷ [])
AreBatches-append [] imgs n h b = (b, tt)
AreBatches-append ((i, m) ∷ r) imgs n h b = (h.0, AreBatches-append r imgs n h.1 b)

append_all-append :
    (crc32 : Bytes → ℕ) (log log' log'' : Bytes) (off : ℕ) (bs : Commits) (imgs : Images) (n : ℕ)
    → append_all crc32 log bs ≡ ok log'
    → append_batch crc32 log' imgs n ≡ ok (log'', off)
    → append_all crc32 log (bs ++ (imgs, n) ∷ []) ≡ ok log''
unfolding append_all
append_all-append crc32 log log' log'' off [] imgs n a b = let e : log ≡ log' = cc in rw (e, b) refl
append_all-append crc32 log log' log'' off ((i, m) ∷ r) imgs n a b =
    let ((mid, o), x, y) = >>=-eq-ok (append_batch crc32 log i m) _ a in
    rw x (append_all-append crc32 mid log' log'' off r imgs n y b)

-- A pager between transactions and its log: the log is the header and the commits in it, whole,
-- and the data file with the commits applied shows what the pager shows.
pub record IsLogged (crc32 : Bytes → ℕ) (log : Bytes) (p : Pager) : Type 0 where
  pub commits : Commits
  pub batches : AreBatches commits
  pub appended : append_all crc32 wal_header commits ≡ ok log
  pub shown : (k : ℕ) → read_page k (apply_commits commits p.file) ≡ view p k
  pub whole : WholePages p.pool.pages

-- A pager that is opened on any data file, with an empty log.
pub open_pager-IsLogged :
    (crc32 : Bytes → ℕ) (f : File) (cache_size : ℕ)
    → IsLogged crc32 wal_header (open_pager f cache_size)
unfolding open_pager append_all apply_commits view find_page
open_pager-IsLogged crc32 f cache_size = record {
  commits = [];
  batches = tt;
  appended = refl;
  shown = λ k. refl;
  whole = λ k b h. absurd (cc h);
}

abbrev pub Shows : File → Pager → Type 0
Shows f p = (k : ℕ) → read_page k f ≡ view p k

module _ (p q : Pager) (cs : List Call) (begins : begin_txn p ≡ ok q)
    (whole : WholePages p.pool.pages) (few : (run cs q).num_pages ≤ commit_page) where
  abbrev pub after : Pager
  after = run cs q

  abbrev pub collected : Images
  collected = pages_of (view after) (sort_numbers (touched_pages after.touched))

  ran : InTxn p.file (view p) after
  ran = run-InTxn p.file (view p) cs q (begin_txn-InTxn p q begins)

  ran_whole : IsWhole after
  ran_whole = run-IsWhole cs q (rw ((begin_txn-eq-ok p q begins).1) (begun-IsWhole p whole))

  written_is : touched_pages after.touched ≡ ran_whole.written
  written_is = ap touched_pages ran_whole.active

  same_written : ran.written ≡ ran_whole.written
  same_written = some_injective (sym ran.active ∙ ran_whole.active)
    where
      some_injective : {a b : List ℕ} → some a ≡ some b → a ≡ b
      some_injective e = cc

  pub collected-IsBatch : IsBatch 0 collected
  collected-IsBatch = rw written_is (
      sort_numbers-IsBatch (view after) ran_whole.written ran_whole.distinct
        (λ k m. (let b = ran_whole.below k m in omega arith)))

  pub collected-AreWhole : AreWhole collected
  unfolding view
  collected-AreWhole = rw written_is (
      pages_of-AreWhole (view after) (sort_numbers ran_whole.written) (λ k m.
        let (b, e) =
          ran.cached k
            (ap (member k) same_written ∙ sym (member-sort_numbers k ran_whole.written) ∙ m) in
        ap (λ o. length (or_file k after.file o)) e ∙ ran_whole.pages k b e))

  -- A page is collected as the session sees it, or it is as it was.
  pub collected-page :
      (k : ℕ)
      → (find_page k collected ≡ some (view after k))
        ⊎ ((find_page k collected ≡ none) × (view after k ≡ view p k))
  unfolding view
  collected-page k =
      let found =
        find_page-pages_of (view after) k (sort_numbers (touched_pages after.touched))
        ∙ ap (λ b. if b then some (view after k) else none)
            (member-sort_numbers k (touched_pages after.touched)
              ∙ ap (member k) (written_is ∙ sym same_written)) in
      elim (Bool-cases (member k ran.written)) [
        | inl m ↦ inl (found ∙ rw m refl)
        | inr m ↦ inr (
          found ∙ rw m refl,
          ap (λ g. or_file k g (find_page k after.pool.pages)) ran.same_file ∙ ran.kept k m,
        )
      ]

  -- Over a file that shows the pager before, the images show the pager after.
  collected-Shows :
      (f : File) (n : ℕ)
      → ((k : ℕ) → read_page k f ≡ view p k)
      → (k : ℕ) → read_page k (apply_batch collected n f) ≡ view after k
  unfolding view
  collected-Shows f n h k =
      read_page-apply_batch k n collected f collected-IsBatch collected-AreWhole
      ∙ (elim (collected-page k) [
        | inl found ↦ rw found refl
        | inr (missing, same) ↦ rw missing (h k ∙ sym same)
      ])

-- What recovery makes of the log of a pager, with bytes behind it that hold no batch.
recover-IsLogged :
    (crc32 : Bytes → ℕ) (log tail : Bytes) (p : Pager)
    → IsLogged crc32 log p
    → Unreadable crc32 tail
    → (f : File) × (n : ℕ) × (recover crc32 (log ++ tail) p.file ≡ ok (f, n)) × Shows f p
recover-IsLogged crc32 log tail p h stop = (
  apply_commits h.commits p.file,
  length h.commits,
  recover-append_all crc32 log h.commits tail p.file h.batches h.appended stop,
  h.shown,
)

-- The pager `p` is between transactions and its log holds what it shows. A transaction begins,
-- makes any calls, and ends with at most 0xFFFFFFFF pages. Then the commit collects images without
-- an exception, they are appended to the log without one, and the log again holds what the pager
-- shows, which is what the session saw when it committed.
pub commit-IsLogged :
    (crc32 : Bytes → ℕ) (log : Bytes) (p q : Pager) (cs : List Call)
    → IsLogged crc32 log p
    → begin_txn p ≡ ok q
    → (run cs q).num_pages ≤ commit_page
    → (images : Images) × (n : ℕ) × (r : Pager) × (log' : Bytes) × (off : ℕ) × (collect_commit
          (run cs q)
        ≡ ok (images, n, r))
      × (append_batch crc32 log images n ≡ ok (log', off))
      × IsLogged crc32 log' r
      × ((k : ℕ) → view r k ≡ view (run cs q) k)
unfolding append_batch view
commit-IsLogged crc32 log p q cs h begins few =
    let images = collected p q cs begins h.whole few in
    let n = (run cs q).num_pages in
    let b = collected-IsBatch p q cs begins h.whole few in
    let w = collected-AreWhole p q cs begins h.whole few in
    let t = ran p q cs begins h.whole few in
    let (blob, e) = small_batch crc32 images n b w few in
    let added : append_batch crc32 log images n ≡ ok (log ++ blob, length (log ++ blob)) =
      rw e refl in
    (
      images,
      n,
      record (run cs q) { touched = none; shadow = [] },
      log ++ blob,
      length (log ++ blob),
      collect_commit-view p q cs begins,
      added,
      record {
        commits = h.commits ++ (images, n) ∷ [];
        batches = AreBatches-append h.commits images n h.batches b;
        appended =
            append_all-append crc32 wal_header log (log ++ blob) (length (log ++ blob)) h.commits
              images n h.appended added;
        shown = λ k.
            ap (λ f. read_page k (apply_commits (h.commits ++ (images, n) ∷ []) f)) t.same_file
            ∙ ap (read_page k) (apply_commits-append h.commits images n p.file)
            ∙ collected-Shows p q cs begins h.whole few (apply_commits h.commits p.file) n h.shown
                k;
        whole = (ran_whole p q cs begins h.whole few).pages;
      },
      λ k. refl,
    )

-- A crash after the commit's append, before any of its pages reaches the data file: recovery
-- succeeds and every page of the data file is as the session saw it when it committed.
pub recover-commit :
    (crc32 : Bytes → ℕ) (log : Bytes) (p q : Pager) (cs : List Call)
    → IsLogged crc32 log p
    → begin_txn p ≡ ok q
    → (run cs q).num_pages ≤ commit_page
    → (images : Images) × (n : ℕ) × (r : Pager) × (log' : Bytes) × (off : ℕ) × (f : File) × (m : ℕ)
      × (collect_commit (run cs q) ≡ ok (images, n, r))
      × (append_batch crc32 log images n ≡ ok (log', off))
      × (recover crc32 log' r.file ≡ ok (f, m))
      × ((k : ℕ) → read_page k f ≡ view (run cs q) k)
recover-commit crc32 log p q cs h begins few =
    let (images, n, r, log', off, c, a, l, same) = commit-IsLogged crc32 log p q cs h begins few in
    let (f, m, e, s) = recover-IsLogged crc32 log' [] r l (Unreadable-nil crc32) in
    (
      images,
      n,
      r,
      log',
      off,
      f,
      m,
      c,
      a,
      (ap (λ x. recover crc32 x r.file) (sym (append-nil log')) ∙ e),
      λ k. s k ∙ same k,
    )

-- A crash in the middle of the commit's append, which leaves fewer bytes of the batch than it has:
-- recovery succeeds and every page of the data file is as it was before the transaction.
pub recover-torn :
    (crc32 : Bytes → ℕ) (log : Bytes) (p q : Pager) (cs : List Call)
    → IsLogged crc32 log p
    → begin_txn p ≡ ok q
    → (run cs q).num_pages ≤ commit_page
    → (images : Images) × (n : ℕ) × (r : Pager) × (blob : Bytes) × (collect_commit (run cs q)
        ≡ ok (images, n, r))
      × (batch_blob crc32 images n ≡ ok blob)
      × ((k : ℕ)
          → k < length blob
          → (f : File) × (m : ℕ) × (recover crc32 (log ++ take k blob) r.file ≡ ok (f, m))
            × ((j : ℕ) → read_page j f ≡ view p j))
recover-torn crc32 log p q cs h begins few =
    let images = collected p q cs begins h.whole few in
    let n = (run cs q).num_pages in
    let b = collected-IsBatch p q cs begins h.whole few in
    let (blob, e) =
      small_batch crc32 images n b (collected-AreWhole p q cs begins h.whole few) few in
    (
      images,
      n,
      record (run cs q) { touched = none; shadow = [] },
      blob,
      collect_commit-view p q cs begins,
      e,
      λ k cut.
          let (f, m, x, s) =
            recover-IsLogged crc32 log (take k blob) p h
              (Unreadable-take crc32 images n k blob b e cut) in
          (
            f,
            m,
            (ap (λ g. recover crc32 (log ++ take k blob) g)
                  (ran p q cs begins h.whole few).same_file
                ∙ x),
            s,
          ),
    )
