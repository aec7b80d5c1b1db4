-- ===== src/Engine.antt =====
-- The sessions of leafdb/engine.py: transactions, checkpoints, and the batches that a session
-- adopts from the log. What is kept in memory beside the pager is the tables and indexes, of a type
-- `M`; the dict of indexed columns of each table (`TableMeta.indexes`), which `M` refers to, in a
-- store of a type `H`; and the catalog's free pages. A snapshot copies the first, refers to the
-- second and leaves out the third. `reload` stands for reading them again from the pages, as
-- Engine/Reload does. The log
-- and the end of it that is published to the other sessions of the process are shared. Locks are
-- not modelled: a call is one step.
pub mod Adopt
pub mod Visible
pub mod Rollback
pub mod Stale
pub mod Tables
pub mod Drop
pub mod Reload
use leafdb.Prelude.{
  ℕ, max, List, [], ◌∷◌, Bool, true, false, not, ◌||◌, Option, none, some, if◌then◌else◌, leb, ltb,
  ◌==◌, length,
}
use leafdb.Prelude.Errors.{Result, ok, err, ◌>>=◌, transaction_error}
use leafdb.Bytes.{Bytes}
use leafdb.Pager.Pool.{BufferPool, pool_put, discard}
use leafdb.Pager.{Pager, begin_txn, collect_commit, rollback_txn, flush}
use leafdb.Wal.{Images, Batch, append_batch, read_batches_from, reset, wal_header}

pub record Session (M H : Type 0) : Type 0 where
  pub pager : Pager
  pub memory : M
  pub objects : H
  pub free_pages : List ℕ
  pub snapshot : Option M
  pub in_txn : Bool
  pub is_open : Bool
  pub wal_pos : ℕ

pub record Shared : Type 0 where
  pub log : Bytes
  -- _shared_wal_end[self.path]
  pub wal_end : Option ℕ

-- self.pager.pool.put(pg, img, dirty=False); self.pager.pool.dirty.discard(pg)
unfoldable pub adopt_images : Images → BufferPool → BufferPool
unfolding pool_put discard
adopt_images [] pool = pool
adopt_images ((n, img) ∷ r) pool =
    let q = pool_put n img false pool in adopt_images r (record q { dirty = discard n q.dirty })

unfoldable pub adopt_batch : Batch → Pager → Pager
unfolding adopt_images
adopt_batch b p = record p {
  pool = adopt_images b.images p.pool;
  num_pages = if ltb p.num_pages b.num_pages then b.num_pages else p.num_pages;
}

-- CATALOG_PAGE in images
unfoldable pub has_page : ℕ → Images → Bool
has_page n [] = false
has_page n ((m, img) ∷ r) = if m == n then true else has_page n r

abbrev end_or : Option ℕ → ℕ → ℕ
end_or none n = n
end_or (some e) n = e

module _ {M H : Type 0} where
  unfoldable pub begin : Session M H → Result (Session M H)
  unfolding begin_txn
  begin s =
      if s.in_txn
      then err transaction_error
      else (do p ← begin_txn s.pager; ok (record s { pager = p; snapshot = none; in_txn = true }))

  unfoldable pub ensure_snapshot : Session M H → Session M H
  ensure_snapshot s = elim s.snapshot [
    | some m ↦ s
    | none ↦ if s.in_txn then record s { snapshot = some s.memory } else s
  ]

  -- The catalog that is built from a snapshot is new: its list of free pages is empty.
  restored : Option M → Session M H → Session M H
  restored none s = s
  restored (some old) s = record s { memory = old; free_pages = [] }

  unfoldable pub rollback : Session M H → Result (Session M H)
  unfolding rollback_txn restored
  rollback s =
      if s.in_txn
      then ok (record (restored s.snapshot (record s { pager = rollback_txn s.pager })) {
        snapshot = none;
        in_txn = false;
      })
      else err transaction_error

  -- `others` is the number of other open sessions.
  unfoldable pub checkpoint : ℕ → Session M H → Shared → Result (Session M H × Shared)
  unfolding flush reset
  checkpoint others s shared = if s.in_txn || not (leb others 0) then err transaction_error else (do
    p ← flush s.pager
    ok (
      record s { pager = p; wal_pos = length wal_header },
      record shared { log = reset shared.log },
    ))

module _ {M H : Type 0} (crc32 : Bytes → ℕ) where
  -- The append of a commit, left out where there is nothing to commit.
  unfoldable pub publish : Images → ℕ → Session M H → Shared → Result (Session M H × Shared)
  unfolding append_batch
  publish [] n s shared = ok (s, shared)
  publish (i ∷ r) n s shared = do
    (log', wal_pos) ← append_batch crc32 shared.log (i ∷ r) n
    ok (
      record s { wal_pos = wal_pos },
      record { log = log'; wal_end = some (max (end_or shared.wal_end 0) wal_pos) },
    )

  unfoldable pub commit : Session M H → Shared → Result (Session M H × Shared)
  unfolding collect_commit publish
  commit s shared =
      if s.in_txn
      then (do
        (images, n, p) ← collect_commit s.pager
        (s', shared') ← publish images n (record s { pager = p }) shared
        ok (record s' { snapshot = none; in_txn = false }, shared'))
      else err transaction_error

module _ {M H : Type 0} (crc32 : Bytes → ℕ) (catalog_page : ℕ)
    (reload : Pager → H → Result (M × H × Pager)) where
  unfoldable pub reloaded : Bool → Session M H → Result (Session M H)
  reloaded false s = ok s
  reloaded true s = do
    (m, h, p) ← reload s.pager s.objects
    ok (record s { memory = m; objects = h; free_pages = []; pager = p })

  unfoldable pub adopt_all : List Batch → Session M H → Result (Session M H)
  unfolding adopt_batch reloaded has_page
  adopt_all [] s = ok s
  adopt_all (b ∷ bs) s = do
    s' ←
        reloaded (has_page catalog_page b.images)
          (record s { pager = adopt_batch b s.pager; wal_pos = b.new_offset })
    adopt_all bs s'

  -- The batches up to `end`, or to the end of the log.
  unfoldable pub read_new : Option ℕ → Session M H → Shared → Result (Session M H)
  unfolding read_batches_from adopt_all
  read_new end s shared = do
    batches ← read_batches_from crc32 shared.log s.wal_pos (end_or end (length shared.log))
    adopt_all batches s

  abbrev read_end : Bool → ℕ → Option ℕ
  read_end true e = none
  read_end false e = some e

  unfoldable pub refresh_from_wal : Bool → Session M H → Shared → Result (Session M H × Shared)
  unfolding read_new
  refresh_from_wal force s shared =
      if not s.is_open || s.in_txn then ok (s, shared) else elim shared.wal_end [
        | none ↦ do
          s' ← read_new (read_end force s.wal_pos) s shared
          ok (s', record shared { wal_end = some s.wal_pos })
        | some e ↦
            if leb e s.wal_pos
            then ok (s, shared)
            else (do s' ← read_new (read_end force e) s shared; ok (s', shared))
      ]
