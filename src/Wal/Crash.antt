-- ===== src/Wal/Crash.antt =====
-- Crash safety of the log: a reader finds the batches that were appended whole, in order, and
-- nothing of a batch whose bytes are cut short.
use leafdb.Prelude.{
  ℕ, suc, ◌+◌, ◌-◌, ◌<◌, ◌≤◌, ◌≡◌, refl, sym, ap, ◌∙◌, List, [], ◌++◌, true, inl, inr, Bool-cases,
  leb, length, take, drop, arith, length-append, length-take, take_of_length-le, drop-append,
  append_assoc,
}
use leafdb.Prelude.Errors.{ok, >>=-eq-ok}
use leafdb.Bytes.{Bytes}
use leafdb.Wal.{
  Images, Batch, commit_frame, frames, batch_blob, next_frame, read_loop, read_batches_from,
  sort_images,
}
use leafdb.Wal.Batches.{IsBatch, sort_images_sorted}
use leafdb.Wal.Commits.{
  Commits, AreBatches, contents, end_offset, append_all, read_cut, rounds, read_commits,
  append_all-blobs, rounds_count, rounds-add, rounds_count-le,
}

module _ (crc32 : Bytes → ℕ) where
  window :
      (log log' all torn : Bytes)
      → log' ≡ log ++ all
      → take (length (log' ++ torn) - length log) (drop (length log) (log' ++ torn)) ≡ all ++ torn
  window log log' all torn e =
      let g : log' ++ torn ≡ log ++ (all ++ torn) =
        ap (λ t. t ++ torn) e ∙ append_assoc log all torn in
      rw (g, drop-append log (all ++ torn))
        (take_of_length-le _ (all ++ torn) (omega (arith, length-append log (all ++ torn))))

  -- With nothing new the loop stops at once, so the early return changes nothing.
  read_batches_from-read_loop :
      (log data_ : Bytes) (offset end : ℕ)
      → take (end - offset) (drop offset log) ≡ data_
      → read_batches_from crc32 log offset end
        ≡ read_loop crc32 (suc (length data_)) data_ offset 0 []
  unfolding read_batches_from read_loop next_frame
  read_batches_from-read_loop log data_ offset end e = elim (Bool-cases (leb end offset)) [
    | inl none_new ↦
        let z : end - offset ≡ 0 = monus_zero end offset none_new in
        let empty : data_ ≡ [] = sym e ∙ ap (λ j. take j (drop offset log)) z in
        rw (none_new, empty)
    | inr new ↦ rw (new, e)
  ]
    where
      monus_zero : (a b : ℕ) → leb a b ≡ true → a - b ≡ 0
      monus_zero a b h = ground arith

  -- Commits, their pages in increasing order and none with the commit record's number, are
  -- appended to a log, and the last append is cut short after `k` of its bytes. A
  -- reader that had read the log before them finds exactly those commits, in order, with their
  -- images and page counts, nothing of the cut one, and goes on from the end of the last commit.
  pub read_batches_from-append_all :
      (log log' : Bytes) (bs : Commits) (pages : Images) (n k : ℕ) (blob : Bytes)
      → AreBatches bs
      → append_all crc32 log bs ≡ ok log'
      → IsBatch 0 pages
      → batch_blob crc32 pages n ≡ ok blob
      → k < length blob
      → (batches : List Batch) × (read_batches_from crc32
            (log' ++ take k blob)
            (length log)
            (length (log' ++ take k blob))
          ≡ ok batches)
        × (contents batches ≡ bs)
        × (end_offset (length log) batches ≡ length log')
  unfolding batch_blob
  read_batches_from-append_all log log' bs pages n k blob h a hp p cut =
      let (all, hall, e) = append_all-blobs crc32 log log' bs a in
      let (fs, hfs, p') = >>=-eq-ok (frames crc32 (sort_images pages)) _ p in
      let (c, hc, p'') = >>=-eq-ok (commit_frame crc32 n) _ p' in
      let torn = take k blob in
      let whole : Bytes = all ++ torn in
      let f = suc (length whole) - rounds_count crc32 bs in
      let room : rounds_count crc32 bs ≤ length all = rounds_count-le crc32 bs all h hall in
      let l : length whole ≡ length all + k =
        length-append all torn ∙ omega (arith, length-take k blob) in
      let split : fs ++ c ≡ blob = cc in
      let (batches, r, same, off) =
        read_commits crc32 bs all whole torn f (length log) 0 h hall refl (λ pos at_pos.
          read_cut crc32 0 pages [] n fs c whole k f (length log) pos hp
            (rw (sort_images_sorted 0 pages hp) at hfs) hc (at_pos ∙ ap (take k) (sym split))
            (omega (arith, ap length split)) (omega arith)) in
      let total : rounds crc32 bs f ≡ suc (length whole) = omega (arith, rounds-add crc32 bs f) in
      (
        batches,
        read_batches_from-read_loop (log' ++ torn) whole (length log) (length (log' ++ torn))
              (window log log' all torn e)
            ∙ (rw total at r),
        same,
        (let z : length log + 0 ≡ length log = omega arith in rw z at off)
            ∙ omega (arith, ap length e, length-append log all),
      )
