-- ===== src/Engine/Adopt.antt =====
-- What the pager of a session shows once it has adopted a batch, and the batch that a reader of
-- the log finds after a commit.
use leafdb.Prelude.{
  ℕ, suc, ◌<◌, ◌≤◌, ◌≡◌, refl, sym, ap, ◌∙◌, List, [], ◌∷◌, ◌++◌, false, Option, none, some, inl,
  inr, Bool-cases, ◌==◌, ==_iff, length, arith, append-nil, length-append,
}
use leafdb.Prelude.Errors.{ok}
use leafdb.Bytes.{Bytes}
use leafdb.Pager.Pool.{BufferPool, find_page}
use leafdb.Pager.View.{or_file, view, find_page-pool_put}
use leafdb.Pager.{Pager, begin_txn}
use leafdb.Pager.Txn.{Call, run}
use leafdb.Pager.Disk.{find_page-IsBatch}
use leafdb.Pager.Whole.{WholePages}
use leafdb.Wal.{Images, Batch, commit_page, append_batch, read_batches_from}
use leafdb.Wal.Batches.{IsBatch}
use leafdb.Wal.Commits.{
  contents, end_offset, append_all, append_all-blobs, blobs, rounds_count, rounds_count-le,
}
use leafdb.Wal.Crash.{read_batches_from-append_all}
use leafdb.Durability.{collected, collected-page, collected-IsBatch, collected-AreWhole}
use leafdb.Durability.Collected.{small_batch}
use leafdb.Engine.{adopt_images, adopt_batch}

abbrev or_else : Option Bytes → Option Bytes → Option Bytes
or_else none o = o
or_else (some b) o = some b

find_page-adopt_images :
    (k lo : ℕ) (imgs : Images) (pool : BufferPool)
    → IsBatch lo imgs
    → find_page k (adopt_images imgs pool).pages
      ≡ or_else (find_page k imgs) (find_page k pool.pages)
unfolding adopt_images find_page
find_page-adopt_images k lo [] pool h = refl
find_page-adopt_images k lo ((n, img) ∷ r) pool h =
    find_page-adopt_images k (suc n) r _ h.2
    ∙ ap (or_else (find_page k r)) (find_page-pool_put n k img false pool)
    ∙ (elim (Bool-cases (n == k)) [
      | inl same ↦
          let e : n ≡ k = (==_iff n k).0 same in
          rw (same, find_page-IsBatch k (suc n) r h.2 (omega arith)) refl
      | inr other ↦ rw other refl
    ])

single :
    (bs : List Batch) (i : Images) (n off pos : ℕ)
    → contents bs ≡ (i, n) ∷ []
    → end_offset off bs ≡ pos
    → (b : Batch) × (bs ≡ b ∷ []) × (b.images ≡ i) × (b.new_offset ≡ pos)
single [] i n off pos h e = absurd (cc h)
single (b ∷ []) i n off pos h e = (b, refl, (cc h), e)
single (b ∷ c ∷ r) i n off pos h e = absurd (cc h)

module _ (p q : Pager) (cs : List Call) (begins : begin_txn p ≡ ok q)
    (whole : WholePages p.pool.pages) (few : (run cs q).num_pages ≤ commit_page) where
  -- A pager that showed the pages as the transaction found them shows them as it left them.
  pub adopt_batch-view :
      (r : Pager) (b : Batch)
      → ((k : ℕ) → view r k ≡ view p k)
      → b.images ≡ collected p q cs begins whole few
      → (k : ℕ) → view (adopt_batch b r) k ≡ view (run cs q) k
  unfolding adopt_batch view
  adopt_batch-view r b agree e k =
      ap (λ i. or_file k r.file (find_page k (adopt_images i r.pool).pages)) e
      ∙ ap (or_file k r.file) (
          find_page-adopt_images k 0 (collected p q cs begins whole few) r.pool
            (collected-IsBatch p q cs begins whole few))
      ∙ (elim (collected-page p q cs begins whole few k) [
        | inl found ↦ rw found refl
        | inr (missing, same) ↦ rw missing (agree k ∙ sym same)
      ])

  -- The log with the commit behind it, and what a reader that had read the log before finds.
  pub published :
      (crc32 : Bytes → ℕ) (log : Bytes)
      → (log' : Bytes) × (append_batch crc32 log
            (collected p q cs begins whole few)
            (run cs q).num_pages
          ≡ ok (log', length log'))
        × (length log < length log')
        × ((b : Batch) × (read_batches_from crc32 log' (length log) (length log') ≡ ok (b ∷ []))
            × (b.images ≡ collected p q cs begins whole few)
            × (b.new_offset ≡ length log'))
  unfolding append_batch append_all rounds_count blobs
  published crc32 log =
      let images = collected p q cs begins whole few in
      let n = (run cs q).num_pages in
      let batch = collected-IsBatch p q cs begins whole few in
      let (blob, e) =
        small_batch crc32 images n batch (collected-AreWhole p q cs begins whole few) few in
      let (rest, e') = small_batch crc32 [] 0 tt tt (omega arith) in
      let log' : Bytes = log ++ blob in
      let added : append_batch crc32 log images n ≡ ok (log', length log') = rw e refl in
      let all : append_all crc32 log ((images, n) ∷ []) ≡ ok log' = rw e refl in
      let (bytes, hb, same) = append_all-blobs crc32 log log' ((images, n) ∷ []) all in
      let grown = rounds_count-le crc32 ((images, n) ∷ []) bytes (batch, tt) hb in
      let ends = rounds_count-le crc32 (([], 0) ∷ []) (rest ++ []) (tt, tt) (rw e' refl) in
      let (bs, found, contents_are, off) =
        read_batches_from-append_all crc32 log log' ((images, n) ∷ []) [] 0 0 rest (batch, tt) all
          tt e' (omega (arith, ends, ap length (append-nil rest))) in
      let (b, one, i, o) = single bs images n (length log) (length log') contents_are off in
      (
        log',
        added,
        omega (arith, ap length same, length-append log bytes),
        (
          b,
          ap (λ l. read_batches_from crc32 l (length log) (length l)) (sym (append-nil log'))
              ∙ found
              ∙ ap ok one,
          i,
          o,
        ),
      )
