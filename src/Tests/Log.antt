-- ===== src/Tests/Log.antt =====
-- Concrete logs: a commit behind the header, and a second one that is cut short.
use leafdb.Prelude.{ℕ, suc, ◌≡◌, refl, List, [], ◌∷◌, ◌++◌, length, take, none, arith}
use leafdb.Prelude.Errors.{ok, ◌>>=◌}
use leafdb.Bytes.{Bytes, pack, be}
use leafdb.File.{File}
use leafdb.Wal.{
  Batch, wal_header, batch_blob, append_batch, frame, frames, commit_frame, sort_images, next_frame,
  read_loop, read_batches_from,
}
use leafdb.Wal.Commits.{Commits, contents, end_offset, append_all}
use leafdb.Wal.Crash.{read_batches_from-append_all}
use leafdb.Wal.Frames.{next_frame-cut, frame-IsFrame}
use leafdb.Wal.Recover.{recover, apply_batches, recover-read_loop}

-- A checksum.
abbrev crc : Bytes → ℕ
crc bs = length bs

abbrev first_commit : Commits
first_commit = ((2, 7 ∷ []) ∷ (3, 8 ∷ 9 ∷ []) ∷ [], 4) ∷ []

abbrev log_frame : ℕ → Bytes → Bytes
log_frame n img =
    76 ∷ 70 ∷ 68 ∷ 66 ∷ 0 ∷ 0 ∷ 0 ∷ n ∷ 0 ∷ 0 ∷ 0 ∷ length img ∷ 0 ∷ 0 ∷ 0 ∷ length img ∷ img

abbrev log_commit : Bytes
log_commit =
    76 ∷ 70 ∷ 68 ∷ 66 ∷ 255 ∷ 255 ∷ 255 ∷ 255 ∷ 0 ∷ 0 ∷ 0 ∷ 4 ∷ 0 ∷ 0 ∷ 0 ∷ 4 ∷ 0 ∷ 0 ∷ 0 ∷ 4 ∷ []

abbrev logged : Bytes
logged = wal_header ++ (log_frame 2 (7 ∷ []) ++ (log_frame 3 (8 ∷ 9 ∷ []) ++ log_commit))

abbrev cut_blob : Bytes
cut_blob = log_frame 2 (5 ∷ []) ++ log_commit

append_first : append_all crc wal_header first_commit ≡ ok logged
unfolding append_all append_batch batch_blob frames frame commit_frame sort_images pack be
append_first = refl

second_blob : batch_blob crc ((2, 5 ∷ []) ∷ []) 4 ≡ ok cut_blob
unfolding batch_blob frames frame commit_frame sort_images pack be
second_blob = refl

read_batches_from-append_all_example :
    (batches : List Batch) × (read_batches_from crc
        (logged ++ take 20 cut_blob)
        10
        (length (logged ++ take 20 cut_blob))
      ≡ ok batches)
    × (contents batches ≡ first_commit)
    × (end_offset 10 batches ≡ length logged)
read_batches_from-append_all_example =
    read_batches_from-append_all crc wal_header logged first_commit ((2, 5 ∷ []) ∷ []) 4 20 cut_blob
      ((omega arith, omega arith, (omega arith, omega arith, tt)), tt) append_first
      (omega arith, omega arith, tt) second_blob (omega arith)

one_frame : frame crc 2 (7 ∷ []) ≡ ok (log_frame 2 (7 ∷ []))
unfolding frame pack be
one_frame = refl

next_frame-cut_example : next_frame crc (take 16 (log_frame 2 (7 ∷ []))) 0 ≡ ok none
next_frame-cut_example =
    next_frame-cut crc 2 (7 ∷ []) (log_frame 2 (7 ∷ [])) (take 16 (log_frame 2 (7 ∷ []))) 0 16
      (frame-IsFrame crc 2 (7 ∷ []) (log_frame 2 (7 ∷ [])) one_frame) refl (omega arith)

abbrev empty_file : File
empty_file = record { size = 0; byte = λ i. 0 }

recover-read_loop_example : recover crc logged empty_file ≡ (
    read_loop crc (suc (length logged)) logged 0 10 [] >>= λ bs.
    ok (apply_batches bs empty_file, length bs))
recover-read_loop_example = recover-read_loop crc logged empty_file refl
