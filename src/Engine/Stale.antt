-- ===== src/Engine/Stale.antt =====
-- Adopted pages and eviction: refresh_from_wal of leafdb/engine.py and _evict_if_full of
-- leafdb/pager.py.
use leafdb.Prelude.{ℕ, ◌≡◌, refl, ◌∷◌, [], none, false, ◌==◌, ==_refl}
use leafdb.Prelude.Errors.{ok}
use leafdb.Bytes.{Bytes}
use leafdb.File.{File}
use leafdb.Pager.Pool.{find_page, member, discard, drop_page, pool_put}
use leafdb.Pager.View.{view}
use leafdb.Pager.{Pager, open_pager, read_page, load_page, evict_if_full, evict_loop}
use leafdb.Engine.{adopt_images, adopt_batch}

-- A session with room for one page adopts a commit that wrote page `n`, and sees the committed
-- image; then it reads another page, and what it sees of page `n` is the data file's bytes.
pub load_page-adopt_batch :
    (f : File) (n m offset pages : ℕ) (img : Bytes)
    → (m == n) ≡ false
    → (let q =
          adopt_batch
            (record { new_offset = offset; images = (n, img) ∷ []; num_pages = pages })
            (open_pager f 1) in
        (view q n ≡ img)
        × (r : Pager) × (load_page m q ≡ ok (read_page m f, r))
        × (view r n ≡ read_page n f))
unfolding adopt_batch adopt_images open_pager load_page evict_if_full evict_loop view find_page
    drop_page pool_put discard member
load_page-adopt_batch f n m offset pages img other = (
  rw (==_refl n) refl,
  record {
    file = f;
    num_pages =
        (adopt_batch (record { new_offset = offset; images = (n, img) ∷ []; num_pages = pages })
          (open_pager f 1)).num_pages;
    pool = record { capacity = 1; pages = (m, read_page m f) ∷ []; dirty = [] };
    touched = none;
    shadow = [];
    hits = 0;
    misses = 1;
  },
  refl,
  rw other refl,
)
