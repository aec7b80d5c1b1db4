-- ===== src/Wal/Durable.antt =====
-- Recovery of a log whose last append may be cut short: the whole batches are applied to the data
-- file in order, and nothing of the last one.
use leafdb.Prelude.{
  ℕ, zero, suc, ◌+◌, ◌-◌, ◌<◌, ◌≤◌, ◌≡◌, refl, sym, ap, ◌∙◌, List, [], ◌∷◌, ◌++◌, true, false, inl,
  inr, Bool-cases, ltb, leb, length, take, drop, arith, lt→ltb, ltb→lt, length-append, length-take,
  length-drop, append_assoc,
}
use leafdb.Prelude.Errors.{Result, ok, ◌>>=◌, >>=-eq-ok}
use leafdb.Bytes.{Bytes}
use leafdb.File.{File}
use leafdb.Wal.{
  Images, Batch, wal_header, commit_frame, frames, batch_blob, next_frame, read_round, read_loop,
  sort_images,
}
use leafdb.Wal.Batches.{IsBatch, sort_images_sorted}
use leafdb.Wal.Commits.{
  Commits, AreBatches, contents, append_all, read_cut, blobs, rounds, read_commits,
  append_all-blobs, rounds_count, rounds-add, rounds_count-le,
}
use leafdb.Wal.Recover.{recover, apply_batch, apply_batches, recover-read_loop}

-- The data file with the commits applied.
unfoldable pub apply_commits : Commits → File → File
apply_commits [] db = db
apply_commits ((pages, n) ∷ r) db = apply_commits r (apply_batch pages n db)

apply_batches-contents :
    (bs : List Batch) (db : File) → apply_batches bs db ≡ apply_commits (contents bs) db
unfolding apply_batches apply_commits
apply_batches-contents [] db = refl
apply_batches-contents (b ∷ r) db = apply_batches-contents r (apply_batch b.images b.num_pages db)

length-contents : (bs : List Batch) → length bs ≡ length (contents bs)
length-contents [] = refl
length-contents (b ∷ r) = ap suc (length-contents r)

read_back :
    (batches : List Batch) (bs : Commits) (db : File)
    → contents batches ≡ bs
    → ◌≡◌ {A = Result (File × ℕ)}
        (ok (apply_batches batches db, length batches))
        (ok (apply_commits bs db, length bs))
read_back batches bs db same =
    rw (apply_batches-contents batches db, length-contents batches)
      (ap (λ b. ok (apply_commits b db, length b)) same)

module _ (crc32 : Bytes → ℕ) where
  -- Bytes at the end of a log in which a reader finds no batch.
  abbrev pub Unreadable : Bytes → Type 0
  Unreadable tail =
      (data_ : Bytes) (fuel base pos : ℕ)
      → drop pos data_ ≡ tail
      → length tail < fuel
      → read_loop crc32 fuel data_ base pos [] ≡ ok []

  pub Unreadable-nil : Unreadable []
  unfolding read_loop next_frame read_round
  Unreadable-nil data_ zero base pos e h = absurd (omega arith)
  Unreadable-nil data_ (suc fuel) base pos e h =
      let short : leb (pos + 16) (length data_) ≡ false =
        ends pos (length data_) (sym (length-drop pos data_) ∙ ap length e) in
      rw short refl
    where
      ends : (pos n : ℕ) → n - pos ≡ 0 → leb (pos + 16) n ≡ false
      ends pos n h = ground arith

  -- A batch whose blob is cut short.
  pub Unreadable-take :
      (pages : Images) (n k : ℕ) (blob : Bytes)
      → IsBatch 0 pages
      → batch_blob crc32 pages n ≡ ok blob
      → k < length blob
      → Unreadable (take k blob)
  unfolding batch_blob
  Unreadable-take pages n k blob hp p cut data_ fuel base pos e f =
      let (fs, hfs, p') = >>=-eq-ok (frames crc32 (sort_images pages)) _ p in
      let (c, hc, p'') = >>=-eq-ok (commit_frame crc32 n) _ p' in
      let split : fs ++ c ≡ blob = cc in
      read_cut crc32 0 pages [] n fs c data_ k fuel base pos hp
        (rw (sort_images_sorted 0 pages hp) at hfs) hc (e ∙ ap (take k) (sym split))
        (omega (arith, ap length split)) (omega (arith, length-take k blob))

  no_commits :
      (bs : Commits) (all tail : Bytes)
      → AreBatches bs
      → blobs crc32 bs ≡ ok all
      → length (all ++ tail) ≡ 0
      → bs ≡ []
  unfolding rounds_count
  no_commits [] all tail h p e = refl
  no_commits (b ∷ r) all tail h p e =
      absurd (omega (arith, rounds_count-le crc32 (b ∷ r) all h p, length-append all tail))

  recover_empty :
      (x : Bytes) (db : File) → length x ≡ 0 → recover crc32 (wal_header ++ x) db ≡ ok (db, 0)
  unfolding recover
  recover_empty x db z =
      let e : leb (length (wal_header ++ x)) 10 ≡ true = ground arith in rw e refl

  recover-blobs :
      (bs : Commits) (all tail : Bytes) (db : File)
      → AreBatches bs
      → blobs crc32 bs ≡ ok all
      → Unreadable tail
      → recover crc32 (wal_header ++ (all ++ tail)) db ≡ ok (apply_commits bs db, length bs)
  unfolding apply_commits
  recover-blobs bs all tail db h p stop = elim (Bool-cases (ltb 0 (length (all ++ tail)))) [
    | inr empty ↦
        let z : length (all ++ tail) ≡ 0 = ground arith in
        recover_empty (all ++ tail) db z
        ∙ ap (λ b. ok (apply_commits b db, length b)) (sym (no_commits bs all tail h p z))
    | inl more ↦
        let log : Bytes = wal_header ++ (all ++ tail) in
        let f = suc (length log) - rounds_count crc32 bs in
        let size : length log ≡ 10 + length all + length tail =
          omega (arith, length-append all tail) in
        let few : rounds_count crc32 bs ≤ length all = rounds_count-le crc32 bs all h p in
        let (batches, found, same, off) =
          read_commits crc32 bs all log tail f 0 10 h p refl
            (λ pos e. stop log f 0 pos e (omega arith)) in
        let total : rounds crc32 bs f ≡ suc (length log) = omega (arith, rounds-add crc32 bs f) in
        let found' : read_loop crc32 (suc (length log)) log 0 10 [] ≡ ok batches =
          ap (λ g. read_loop crc32 g log 0 10 []) (sym total) ∙ found in
        recover-read_loop crc32 log db (
          lt→ltb 10 (length log)
            (omega (arith, ltb→lt 0 (length (all ++ tail)) more, length-append all tail)))
        ∙ ap (λ r. r >>= λ b. ok (apply_batches b db, length b)) found'
        ∙ read_back batches bs db same
  ]

  -- A crash that cuts the last append short: what was appended whole is recovered, and no more.
  pub recover-append_all :
      (log : Bytes) (bs : Commits) (tail : Bytes) (db : File)
      → AreBatches bs
      → append_all crc32 wal_header bs ≡ ok log
      → Unreadable tail
      → recover crc32 (log ++ tail) db ≡ ok (apply_commits bs db, length bs)
  recover-append_all log bs tail db h a stop =
      let (all, hall, e) = append_all-blobs crc32 wal_header log bs a in
      ap (λ l. recover crc32 l db) (ap (λ l. l ++ tail) e ∙ append_assoc wal_header all tail)
      ∙ recover-blobs bs all tail db h hall stop
