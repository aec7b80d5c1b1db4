-- ===== src/Pager.antt =====
-- leafdb/pager.py: fixed pages over a file, with a buffer pool in LRU order (the least recent entry
-- first) and pre-images of the pages that a transaction touches. A page number is a natural
-- number, so the test `n < 0` has no case; fsync is not modelled.
pub mod Pool
pub mod View
pub mod Active
pub mod Reads
pub mod Txn
pub mod Calls
pub mod Written
pub mod Rollback
pub mod LostCommit
pub mod Disk
pub mod Whole
use leafdb.Prelude.{
  max, ◌/◌, ℕ, zero, suc, ◌+◌, ◌-◌, ◌*◌, ◌<◌, List, [], ◌∷◌, ◌++◌, Bool, true, false, not, ◌&&◌,
  Option, none, some, ltb, leb, ◌==◌, if◌then◌else◌, length, replicate,
}
use leafdb.Prelude.Errors.{
  Result, ok, err, ◌>>=◌, index_error, value_error, runtime_error, key_error,
}
use leafdb.Bytes.{Bytes}
use leafdb.File.{File, write_at, read_at}
use Pool.{
  BufferPool, Pages, find_page, drop_page, member, discard, add_member, pool_get, pool_put,
  page_size,
}

pub record Pager : Type 0 where
  pub file : File
  pub num_pages : ℕ
  pub pool : BufferPool
  -- the pages that the transaction has written, none outside a transaction
  pub touched : Option (List ℕ)
  -- page number to pre-image; no pre-image for a page that was nowhere
  pub shadow : List (ℕ × Option Bytes)
  pub hits : ℕ
  pub misses : ℕ

-- Pager.__init__, on the file's content
unfoldable pub open_pager : File → ℕ → Pager
open_pager f cache_size = record {
  file = f;
  num_pages = max 1 (f.size / page_size);
  pool = record { capacity = cache_size; pages = []; dirty = [] };
  touched = none;
  shadow = [];
  hits = 0;
  misses = 0;
}

-- data + bytes(PAGE_SIZE - len(data))
abbrev pub pad : Bytes → Bytes
pad data_ = data_ ++ replicate (page_size - length data_) 0

unfoldable pub read_page : ℕ → File → Bytes
read_page n f = pad (read_at (n * page_size) page_size f)

unfoldable pub write_page : ℕ → Bytes → File → File
write_page n data_ f = write_at (n * page_size) data_ f

-- The loop of `_evict_if_full`; at capacity 0 `popitem` fails on an empty pool.
unfoldable pub evict_loop : ℕ → File → List ℕ → Pages → Result (File × List ℕ × Pages)
unfolding write_page
evict_loop capacity f dirty [] = if leb capacity 0 then err key_error else ok (f, dirty, [])
evict_loop capacity f dirty ((n, data_) ∷ r) =
    let rest =
      evict_loop capacity (if member n dirty then write_page n data_ f else f) (discard n dirty)
        r in
    if leb capacity (length ((n, data_) ∷ r)) then rest else ok (f, dirty, (n, data_) ∷ r)

unfoldable pub evict_if_full : Pager → Result Pager
unfolding evict_loop
evict_if_full p = elim p.touched [
  | some t ↦ ok p
  | none ↦ do
    (f, dirty, pages) ← evict_loop p.pool.capacity p.file p.pool.dirty p.pool.pages
    ok (record p { file = f; pool = record p.pool { pages = pages; dirty = dirty } })
]

-- A page that the pool does not hold is read, with room made for it.
unfoldable pub load_page : ℕ → Pager → Result (Bytes × Pager)
load_page n p = do
  let data_ = read_page n p.file
  q ← evict_if_full (record p { misses = p.misses + 1 })
  ok (data_, record q { pool = pool_put n data_ false q.pool })

unfoldable pub get : ℕ → Pager → Result (Bytes × Pager)
get n p =
    if leb p.num_pages n && not (n == 0)
    then err index_error
    else (let (found, pool') = pool_get n p.pool in
        elim found [
          | some data_ ↦ ok (data_, record p { pool = pool'; hits = p.hits + 1 })
          | none ↦ load_page n p
        ])

unfoldable pub has_shadow : ℕ → List (ℕ × Option Bytes) → Bool
has_shadow n [] = false
has_shadow n ((m, i) ∷ r) = if m == n then true else has_shadow n r

-- The image of a page before the transaction: the pool's, the file's, or none.
unfoldable pub pre_image : ℕ → Option Bytes → File → Option Bytes
unfolding read_page
pre_image n (some data_) f = some data_
pre_image n none f = if leb ((n + 1) * page_size) f.size then some (read_page n f) else none

unfoldable pub remember : ℕ → Pager → Pager
unfolding has_shadow pre_image pool_get
remember n p = elim p.touched [
  | none ↦ p
  | some t ↦
      if has_shadow n p.shadow
      then p
      else (let (current, pool') = pool_get n p.pool in
          record p { pool = pool'; shadow = p.shadow ++ (n, pre_image n current p.file) ∷ [] })
]

unfoldable pub touch : ℕ → Option (List ℕ) → Option (List ℕ)
unfolding add_member
touch n none = none
touch n (some t) = some (add_member n t)

unfoldable pub write : ℕ → Bytes → Pager → Result Pager
write n data_ p = if ltb page_size (length data_) then err value_error else (do
  q ← evict_if_full (remember n p)
  ok (record q {
    pool = pool_put n (pad data_) true q.pool;
    num_pages = if leb q.num_pages n then n + 1 else q.num_pages;
    touched = touch n q.touched;
  }))

unfoldable pub empty_page : Bytes
empty_page = replicate page_size 0

unfoldable pub allocate : Pager → Result (ℕ × Pager)
allocate p = do
  q ← write p.num_pages empty_page (record p { num_pages = p.num_pages + 1 })
  ok (p.num_pages, q)

unfoldable pub begin_txn : Pager → Result Pager
begin_txn p = elim p.touched [
  | some t ↦ err runtime_error
  | none ↦ ok (record p { touched = some []; shadow = [] })
]

-- One pre-image: put back as a clean page, or taken out of the pool.
unfoldable pub restore_page : ℕ → Option Bytes → BufferPool → BufferPool
unfolding pool_put drop_page discard
restore_page n none pool = record pool {
  pages = drop_page n pool.pages;
  dirty = discard n pool.dirty;
}
restore_page n (some image) pool =
    let q = pool_put n image false pool in record q { dirty = discard n q.dirty }

unfoldable pub restore_all : List (ℕ × Option Bytes) → BufferPool → BufferPool
unfolding restore_page
restore_all [] pool = pool
restore_all ((n, image) ∷ r) pool = restore_all r (restore_page n image pool)

unfoldable pub rollback_txn : Pager → Pager
unfolding restore_all
rollback_txn p = record p { pool = restore_all p.shadow p.pool; shadow = []; touched = none }

-- sorted(numbers)
unfoldable pub insert_number : ℕ → List ℕ → List ℕ
insert_number n [] = n ∷ []
insert_number n (m ∷ r) = if leb n m then n ∷ m ∷ r else m ∷ insert_number n r

unfoldable pub sort_numbers : List ℕ → List ℕ
unfolding insert_number
sort_numbers [] = []
sort_numbers (n ∷ r) = insert_number n (sort_numbers r)

or_key_error : Option Bytes → Result Bytes
or_key_error none = err key_error
or_key_error (some b) = ok b

unfoldable pub images_of : List ℕ → Pages → Result (List (ℕ × Bytes))
unfolding or_key_error find_page
images_of [] pages = ok []
images_of (n ∷ r) pages = do
  img ← or_key_error (find_page n pages)
  rest ← images_of r pages
  ok ((n, img) ∷ rest)

abbrev pub touched_pages : Option (List ℕ) → List ℕ
touched_pages none = []
touched_pages (some t) = t

-- The images of the pages written, in order, the page count, and the pager outside the transaction.
unfoldable pub collect_commit : Pager → Result (List (ℕ × Bytes) × ℕ × Pager)
unfolding images_of sort_numbers
collect_commit p = do
  images ← images_of (sort_numbers (touched_pages p.touched)) p.pool.pages
  ok (images, p.num_pages, record p { touched = none; shadow = [] })

unfoldable pub flush_pages : List ℕ → Pages → File → Result File
unfolding or_key_error find_page write_page
flush_pages [] pages f = ok f
flush_pages (n ∷ r) pages f = do
  img ← or_key_error (find_page n pages)
  flush_pages r pages (write_page n img f)

unfoldable pub flush : Pager → Result Pager
unfolding flush_pages sort_numbers
flush p = do
  f ← flush_pages (sort_numbers p.pool.dirty) p.pool.pages p.file
  ok (record p { file = f; pool = record p.pool { dirty = [] } })
