-- ===== src/Wal.antt =====
-- leafdb/wal.py: the write-ahead log. Its file is a byte string, `crc32` (zlib) is a parameter, and
-- fsync, flush and the cached read handle have no effect on the bytes.
pub mod Frames
pub mod Batches
pub mod Rounds
pub mod Commits
pub mod Crash
pub mod Recover
pub mod Durable
use leafdb.Prelude.{
  ℕ, zero, suc, ◌+◌, ◌-◌, ◌*◌, ◌%◌, ◌^◌, List, [], ◌∷◌, ◌++◌, Bool, true, false, Option, none, some,
  ltb, leb, ◌==◌, if◌then◌else◌, length, take, drop, max,
}
use leafdb.Prelude.Errors.{Result, ok, err, ◌>>=◌, ◌>>◌, guard, struct_error, out_of_fuel}
use leafdb.Bytes.{Bytes, pack, unpack_from, eq_bytes}

-- b"LFDB", b"LEAFWAL01\n"
abbrev pub magic : Bytes
magic = b'L' ∷ b'F' ∷ b'D' ∷ b'B' ∷ []

abbrev pub wal_header : Bytes
wal_header = b'L' ∷ b'E' ∷ b'A' ∷ b'F' ∷ b'W' ∷ b'A' ∷ b'L' ∷ b'0' ∷ b'1' ∷ 10 ∷ []

abbrev pub commit_page : ℕ
commit_page = 0xFFFFFFFF

-- WAL.__init__: a log that is not there or shorter than its header is written anew.
unfoldable pub open_log : Option Bytes → Bytes
open_log none = wal_header
open_log (some log) = if ltb (length log) (length wal_header) then wal_header else log

unfoldable pub reset : Bytes → Bytes
reset log = wal_header

-- A dict from page numbers to page images, in insertion order.
abbrev pub Images : Type 0
Images = List (ℕ × Bytes)

-- batch[page_no] = payload
unfoldable pub put_image : ℕ → Bytes → Images → Images
put_image n img [] = (n, img) ∷ []
put_image n img ((m, old) ∷ r) = if m == n then (m, img) ∷ r else (m, old) ∷ put_image n img r

insert_sorted : ℕ × Bytes → Images → Images
insert_sorted (n, img) [] = (n, img) ∷ []
insert_sorted (n, img) ((m, old) ∷ r) =
    if leb n m then (n, img) ∷ (m, old) ∷ r else (m, old) ∷ insert_sorted (n, img) r

-- The entries in the order of sorted(pages).
unfoldable pub sort_images : Images → Images
unfolding insert_sorted
sort_images [] = []
sort_images (p ∷ r) = insert_sorted p (sort_images r)

-- A batch that was read: the offset behind it, its images, its page count.
pub record Batch : Type 0 where
  pub new_offset : ℕ
  pub images : Images
  pub num_pages : ℕ

-- struct.unpack(">I", payload) wants exactly four bytes.
unfoldable pub unpack_count : Bytes → Result ℕ
unpack_count payload = if length payload == 4 then unpack_from 4 payload 0 else err struct_error

-- One round of `read_batches_from` behind its breaks: a commit record ends the batch, any other
-- frame is an image of it. The rest of the loop is passed in.
unfoldable pub read_round :
    ℕ
    → Images
    → (ℕ → Result (List Batch))
    → (ℕ → Bytes → ℕ → Result (List Batch))
    → Option (ℕ × Bytes × ℕ)
    → Result (List Batch)
unfolding unpack_count
read_round base batch on_commit on_page none = ok []
read_round base batch on_commit on_page (some (page_no, payload, stop)) =
    elim (page_no == commit_page) [
      | true ↦ do
        num_pages ← unpack_count payload
        rest ← on_commit stop
        ok (record { new_offset = base + stop; images = batch; num_pages = num_pages } ∷ rest)
      | false ↦ on_page page_no payload stop
    ]

module _ (crc32 : Bytes → ℕ) where
  unfoldable pub frame : ℕ → Bytes → Result Bytes
  frame page_no payload = do
    p ← pack 4 page_no
    l ← pack 4 (length payload)
    c ← pack 4 (crc32 payload % 2 ^ 32)
    ok (magic ++ (p ++ (l ++ (c ++ payload))))

  unfoldable pub commit_frame : ℕ → Result Bytes
  unfolding frame
  commit_frame num_pages = do n ← pack 4 num_pages; frame commit_page n

  unfoldable pub frames : Images → Result Bytes
  frames [] = ok []
  frames ((n, img) ∷ r) = do b ← frame n img; bs ← frames r; ok (b ++ bs)

  unfoldable pub batch_blob : Images → ℕ → Result Bytes
  unfolding frames commit_frame sort_images
  batch_blob pages num_pages = do
    bs ← frames (sort_images pages)
    c ← commit_frame num_pages
    ok (bs ++ c)

  -- The log's new content and the offset behind the batch.
  unfoldable pub append_batch : Bytes → Images → ℕ → Result (Bytes × ℕ)
  unfolding batch_blob
  append_batch log pages num_pages = do
    blob ← batch_blob pages num_pages
    ok (log ++ blob, length (log ++ blob))

  -- The frame at a position: page number, payload and end; none where the loops of
  -- `read_batches_from` and `recover` break.
  unfoldable pub next_frame : Bytes → ℕ → Result (Option (ℕ × Bytes × ℕ))
  next_frame data_ pos =
      if leb (pos + 16) (length data_)
      then (do
        page_no ← unpack_from 4 data_ (pos + 4)
        len ← unpack_from 4 data_ (pos + 4 + 4)
        crc ← unpack_from 4 data_ (pos + 4 + 4 + 4)
        let payload = take len (drop (pos + 4 + 4 + 4 + 4) data_)
        ok (
            if eq_bytes (take 4 (drop pos data_)) magic
            then (if ltb (length data_) (pos + 4 + 4 + 4 + 4 + len)
                then none
                else if crc32 payload % 2 ^ 32 == crc
                then some (page_no, payload, pos + 4 + 4 + 4 + 4 + len)
                else none)
            else none))
      else ok none

  -- The loop of `read_batches_from`, on fuel.
  unfoldable pub read_loop : ℕ → Bytes → ℕ → ℕ → Images → Result (List Batch)
  unfolding read_round put_image
  read_loop zero data_ base pos batch = err out_of_fuel
  read_loop (suc fuel) data_ base pos batch = do
    found ← next_frame data_ pos
    read_round base batch (λ stop. read_loop fuel data_ base stop [])
        (λ page_no payload stop. read_loop fuel data_ base stop (put_image page_no payload batch))
        found

  -- The log from `offset` up to `end`; each round moves on by sixteen bytes at least.
  unfoldable pub read_batches_from : Bytes → ℕ → ℕ → Result (List Batch)
  unfolding read_loop
  read_batches_from log offset end =
      if leb end offset
      then ok []
      else (let data_ = take (end - offset) (drop offset log) in
          read_loop (suc (length data_)) data_ offset 0 [])

  -- WAL.pending_bytes
  unfoldable pub pending_bytes : Bytes → ℕ
  pending_bytes log = length log - length wal_header
