-- ===== src/Pager/View.antt =====
-- What a session sees of a page: the pool's copy, or else the file's bytes. Reading keeps it.
use leafdb.Prelude.{
  ℕ, ◌≡◌, sym, ap, ◌∙◌, Bool, Option, none, some, ◌==◌, ==_iff, if◌then◌else◌, arith, inl, inr,
  Option-cases, Bool-cases,
}
use leafdb.Bytes.{Bytes}
use leafdb.File.{File}
use leafdb.Pager.Pool.{BufferPool, find_page, pool_get, pool_put, find_page-move}
use leafdb.Pager.{Pager, read_page}

abbrev pub or_file : ℕ → File → Option Bytes → Bytes
or_file n f none = read_page n f
or_file n f (some b) = b

unfoldable pub view : Pager → ℕ → Bytes
view p n = or_file n p.file (find_page n p.pool.pages)

-- Looking a page up in the pool changes nothing that can be looked up.
pub find_page-pool_get :
    (n k : ℕ) (pool : BufferPool) → find_page k (pool_get n pool).1.pages ≡ find_page k pool.pages
unfolding pool_get
find_page-pool_get n k pool = elim (Option-cases (find_page n pool.pages)) [
  | inl missing ↦ rw (missing, pool_get)
  | inr (d, found) ↦ rw (found, pool_get) (find_page-move n k d pool.pages ∙ same d found)
]
  where
    same :
        (d : Bytes)
        → find_page n pool.pages ≡ some d
        → (if n == k then some d else find_page k pool.pages) ≡ find_page k pool.pages
    same d found = elim (Bool-cases (n == k)) [
      | inl e ↦
          let e' : n ≡ k = (==_iff n k).0 e in
          rw e (sym found ∙ ap (λ j. find_page j pool.pages) e')
      | inr e ↦ rw e
    ]

pub dirty-pool_get : (n : ℕ) (pool : BufferPool) → (pool_get n pool).1.dirty ≡ pool.dirty
unfolding pool_get
dirty-pool_get n pool = ground arith

pub pool_get-eq-find_page :
    (n : ℕ) (pool : BufferPool) → (pool_get n pool).0 ≡ find_page n pool.pages
unfolding pool_get
pool_get-eq-find_page n pool = ground arith

-- A page put in the pool is seen; the others are seen as before.
pub find_page-pool_put :
    (n k : ℕ) (d : Bytes) (dirty : Bool) (pool : BufferPool)
    → find_page k (pool_put n d dirty pool).pages
      ≡ (if n == k then some d else find_page k pool.pages)
unfolding pool_put
find_page-pool_put n k d dirty pool = find_page-move n k d pool.pages
