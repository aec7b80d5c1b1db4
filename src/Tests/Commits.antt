-- ===== src/Tests/Commits.antt =====
-- A transaction that writes page 1 of an empty data file, through the log.
use leafdb.Prelude.{
  none, true, false, ℕ, ◌<◌, ◌≤◌, ◌≡◌, refl, List, [], ◌∷◌, ◌++◌, some, length, take, arith,
}
use leafdb.Prelude.Errors.{Result, ok}
use leafdb.Bytes.{Bytes}
use leafdb.File.{File}
use leafdb.Pager.View.{view}
use leafdb.Pager.{
  load_page, Pager, open_pager, begin_txn, collect_commit, read_page, get, allocate, write,
  remember, evict_if_full, has_shadow, pre_image, touch, empty_page,
}
use leafdb.Pager.Pool.{find_page, pool_get, pool_put}
use leafdb.Pager.Txn.{Call, run, step}
use leafdb.Wal.{Images, wal_header, commit_page, batch_blob, append_batch}
use leafdb.Wal.Recover.{recover}
use leafdb.Engine.{adopt_batch, Session, Shared, begin, ensure_snapshot, rollback}
use leafdb.Engine.Rollback.{rollback-begin}
use leafdb.Engine.Stale.{load_page-adopt_batch}
use leafdb.Durability.{IsLogged, open_pager-IsLogged, commit-IsLogged, recover-commit, recover-torn}

abbrev crc32 : Bytes → ℕ
crc32 b = 0

abbrev file : File
file = record { size = 0; byte = λ i. 0 }

abbrev opened : Pager
unfolding open_pager
opened = open_pager file 8

abbrev begun : Pager
unfolding opened
begun = record opened { touched = some []; shadow = [] }

abbrev calls : List Call
calls = Call.store 1 (7 ∷ []) ∷ Call.fetch 1 ∷ Call.grow ∷ []

begins : begin_txn opened ≡ ok begun
unfolding begin_txn opened begun
begins = refl

logged : IsLogged crc32 wal_header opened
unfolding opened
logged = open_pager-IsLogged crc32 file 8

counted : (run calls begun).num_pages ≡ 3
unfolding run begun opened step write get allocate remember evict_if_full has_shadow pre_image touch
    pool_get pool_put find_page empty_page
counted = refl

few : (run calls begun).num_pages ≤ commit_page
few = omega (arith, counted)

commit-IsLogged_example :
    (images : Images) × (n : ℕ) × (r : Pager) × (log' : Bytes) × (off : ℕ) × (collect_commit
        (run calls begun)
      ≡ ok (images, n, r))
    × (append_batch crc32 wal_header images n ≡ ok (log', off))
    × IsLogged crc32 log' r
    × ((k : ℕ) → view r k ≡ view (run calls begun) k)
commit-IsLogged_example = commit-IsLogged crc32 wal_header opened begun calls logged begins few

recover-commit_example :
    (images : Images) × (n : ℕ) × (r : Pager) × (log' : Bytes) × (off : ℕ) × (f : File) × (m : ℕ)
    × (collect_commit (run calls begun) ≡ ok (images, n, r))
    × (append_batch crc32 wal_header images n ≡ ok (log', off))
    × (recover crc32 log' r.file ≡ ok (f, m))
    × ((k : ℕ) → read_page k f ≡ view (run calls begun) k)
recover-commit_example = recover-commit crc32 wal_header opened begun calls logged begins few

recover-torn_example :
    (images : Images) × (n : ℕ) × (r : Pager) × (blob : Bytes) × (collect_commit (run calls begun)
      ≡ ok (images, n, r))
    × (batch_blob crc32 images n ≡ ok blob)
    × ((k : ℕ)
        → k < length blob
        → (f : File) × (m : ℕ) × (recover crc32 (wal_header ++ take k blob) r.file ≡ ok (f, m))
          × ((j : ℕ) → read_page j f ≡ view opened j))
recover-torn_example = recover-torn crc32 wal_header opened begun calls logged begins few

abbrev reload : Pager → Unit {0} → Result (Unit {0} × Unit {0} × Pager)
reload p h = ok (tt, tt, p)

abbrev writer : Session (Unit {0}) (Unit {0})
unfolding begun
writer = record {
  pager = run calls begun;
  memory = tt;
  objects = tt;
  free_pages = [];
  snapshot = none;
  in_txn = true;
  is_open = true;
  wal_pos = 10;
}

abbrev reader : Session (Unit {0}) (Unit {0})
unfolding opened
reader = record {
  pager = opened;
  memory = tt;
  objects = tt;
  free_pages = [];
  snapshot = none;
  in_txn = false;
  is_open = true;
  wal_pos = length wal_header;
}

abbrev shared : Shared
shared = record { log = wal_header; wal_end = none }

is_open : reader.is_open ≡ true
unfolding reader
is_open = refl

abbrev session : Session ℕ (List ℕ)
unfolding opened
session = record {
  pager = opened;
  memory = 5;
  objects = 1 ∷ [];
  free_pages = 4 ∷ [];
  snapshot = none;
  in_txn = false;
  is_open = true;
  wal_pos = 10;
}

abbrev started : Session ℕ (List ℕ)
unfolding session begun
started = record session { pager = begun; snapshot = none; in_txn = true }

starts : begin session ≡ ok started
unfolding begin session started begun opened begin_txn
starts = refl

rollback-begin_example :
    (u : Session ℕ (List ℕ)) × (rollback (record (ensure_snapshot started) {
      pager = run calls started.pager;
      memory = 8;
      objects = 2 ∷ 1 ∷ [];
      free_pages = [];
    })
      ≡ ok u)
    × ((k : ℕ) → view u.pager k ≡ view session.pager k)
    × (u.memory ≡ session.memory)
    × (u.objects ≡ 2 ∷ 1 ∷ [])
    × (u.free_pages ≡ [])
    × (u.pager.file ≡ session.pager.file)
    × (u.in_txn ≡ false)
rollback-begin_example = rollback-begin session started calls 8 (2 ∷ 1 ∷ []) [] starts

load_page-adopt_batch_example :
    (let q =
        adopt_batch
          (record { new_offset = 40; images = (1, 7 ∷ []) ∷ []; num_pages = 3 })
          (open_pager file 1) in
      (view q 1 ≡ 7 ∷ [])
      × (r : Pager) × (load_page 2 q ≡ ok (read_page 2 file, r))
      × (view r 1 ≡ read_page 1 file))
load_page-adopt_batch_example = load_page-adopt_batch file 1 2 40 3 (7 ∷ []) refl
