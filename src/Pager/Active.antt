-- ===== src/Pager/Active.antt =====
-- What the calls of leafdb/pager.py do to a pager that is in a transaction.
use leafdb.Prelude.{
  ℕ, ◌+◌, ◌≡◌, sym, ap, ◌∙◌, List, [], ◌∷◌, ◌++◌, Bool, true, false, Option, some, ltb, leb, ◌==◌,
  ==_iff, if◌then◌else◌, arith, inl, inr, Bool-cases, length,
}
use leafdb.Prelude.Errors.{ok, err, value_error}
use leafdb.Bytes.{Bytes}
use leafdb.Pager.Pool.{
  page_size, find_page, pool_get, pool_put, member, add_member, member-add_member,
}
use leafdb.Pager.View.{find_page-pool_put}
use leafdb.Pager.{
  Pager, read_page, load_page, evict_if_full, remember, write, has_shadow, pre_image, touch, pad,
}

-- The pager with one more pre-image.
unfoldable pub noted : ℕ → Pager → Pager
noted n p = record p {
  pool = (pool_get n p.pool).1;
  shadow = p.shadow ++ (n, pre_image n (pool_get n p.pool).0 p.file) ∷ [];
}

pub remember_active :
    (n : ℕ) (p : Pager) (t : List ℕ)
    → p.touched ≡ some t
    → remember n p ≡ (if has_shadow n p.shadow then p else noted n p)
unfolding remember noted
remember_active n p t e = ground arith

pub or_test : (a b : Bool) → (if a then true else b) ≡ false → (a ≡ false) × (b ≡ false)
or_test a b h = ground arith

-- The pager with a page written, its pre-image noted.
unfoldable pub stored : ℕ → Bytes → Pager → Pager
stored n b p = record p {
  pool = pool_put n (pad b) true p.pool;
  num_pages = if leb p.num_pages n then n + 1 else p.num_pages;
  touched = touch n p.touched;
}

evict_active : (p : Pager) (t : List ℕ) → p.touched ≡ some t → evict_if_full p ≡ ok p
unfolding evict_if_full
evict_active p t e = ground arith

pub write_active :
    (n : ℕ) (b : Bytes) (p : Pager) (t : List ℕ)
    → (remember n p).touched ≡ some t
    → write n b p
      ≡ (if ltb page_size (length b) then err value_error else ok (stored n b (remember n p)))
unfolding write stored
write_active n b p t e = rw (evict_active (remember n p) t e)

pub apart :
    (n k : ℕ) (s : List (ℕ × Option Bytes))
    → has_shadow n s ≡ true
    → has_shadow k s ≡ false
    → (n == k) ≡ false
apart n k s h e = elim (Bool-cases (n == k)) [
  | inl same ↦ absurd (cc (h, e, ap (λ j. has_shadow j s) ((==_iff n k).0 same)))
  | inr other ↦ other
]

pub stored_page :
    (n k : ℕ) (b : Bytes) (p : Pager) (written : List ℕ)
    → ((k : ℕ) → member k written ≡ true → (c : Bytes) × (find_page k p.pool.pages ≡ some c))
    → member k (add_member n written) ≡ true
    → (c : Bytes) × (find_page k (pool_put n (pad b) true p.pool).pages ≡ some c)
stored_page n k b p written cached m = elim (Bool-cases (n == k)) [
  | inl same ↦ (pad b, find_page-pool_put n k (pad b) true p.pool ∙ rw same)
  | inr other ↦
      let m' : member k written ≡ true = sym (rw other at (member-add_member n k written)) ∙ m in
      let (c, e) = cached k m' in (c, find_page-pool_put n k (pad b) true p.pool ∙ rw other e)
]

-- The pager with a page read from the file into the pool.
unfoldable pub loaded : ℕ → Pager → Pager
loaded n p = record p { misses = p.misses + 1; pool = pool_put n (read_page n p.file) false p.pool }

pub load_active :
    (n : ℕ) (p : Pager) (t : List ℕ)
    → p.touched ≡ some t
    → load_page n p ≡ ok (read_page n p.file, loaded n p)
unfolding load_page loaded
load_active n p t e = rw (evict_active (record p { misses = p.misses + 1 }) t e)
