-- ===== src/Pager/Txn.antt =====
-- A transaction on the pager as a sequence of calls. A call that raises leaves the pager as it was:
-- in a transaction `get` and `write` raise before they change anything.
use leafdb.Prelude.{
  ℕ, ◌+◌, ◌≡◌, refl, sym, ap, ◌∙◌, List, [], ◌∷◌, ◌++◌, true, false, Option, none, some, ltb, leb,
  ◌==◌, ==_refl, ==_iff, if◌then◌else◌, arith, inl, inr, Option-cases, Bool-cases, not, ◌&&◌,
  length,
}
use mathlib.Core.Path.{ap₂}
use leafdb.Prelude.Errors.{Result, ok, err, ◌>>=◌}
use leafdb.Bytes.{Bytes}
use leafdb.File.{File}
use leafdb.Pager.Pool.{page_size, find_page, pool_get, member, add_member, member-add_member}
use leafdb.Pager.View.{or_file, find_page-pool_get, find_page-pool_put, pool_get-eq-find_page}
use leafdb.Pager.{
  Pager, read_page, get, remember, write, allocate, has_shadow, pre_image, touch, pad, empty_page,
}
use leafdb.Pager.Active.{
  noted, remember_active, or_test, stored, write_active, apart, stored_page, loaded, load_active,
}

pub data Call : Type 0 where
  fetch : ℕ → Call
  store : ℕ → Bytes → Call
  grow : Call

-- The pager after a call.
unfoldable pub after_get : Pager → Result (Bytes × Pager) → Pager
after_get p (ok (b, q)) = q
after_get p (err e) = p

unfoldable pub after_write : Pager → Result Pager → Pager
after_write p (ok q) = q
after_write p (err e) = p

unfoldable pub after_allocate : Pager → Result (ℕ × Pager) → Pager
after_allocate p (ok (n, q)) = q
after_allocate p (err e) = p

unfoldable pub step : Call → Pager → Pager
unfolding after_get after_write after_allocate
step (Call.fetch n) p = after_get p (get n p)
step (Call.store n data_) p = after_write p (write n data_ p)
step Call.grow p = after_allocate p (allocate p)

unfoldable pub run : List Call → Pager → Pager
run [] p = p
run (c ∷ cs) p = run cs (step c p)

-- The pre-images of a transaction stand for the pages as `old` saw them in the file `f`.
abbrev pub AreImages : File → (ℕ → Bytes) → List (ℕ × Option Bytes) → Type 0
AreImages f old [] = Unit {0}
AreImages f old ((n, i) ∷ r) = (or_file n f i ≡ old n) × AreImages f old r

pub record InTxn (f : File) (old : ℕ → Bytes) (p : Pager) : Type 0 where
  pub written : List ℕ
  pub active : p.touched ≡ some written
  pub same_file : p.file ≡ f
  pub images : AreImages f old p.shadow
  pub untouched :
      (k : ℕ) → has_shadow k p.shadow ≡ false → or_file k f (find_page k p.pool.pages) ≡ old k
  pub cached : (k : ℕ) → member k written ≡ true → (b : Bytes) × (find_page k p.pool.pages ≡ some b)
  pub kept : (k : ℕ) → member k written ≡ false → or_file k f (find_page k p.pool.pages) ≡ old k

AreImages-append :
    (f : File) (old : ℕ → Bytes) (s : List (ℕ × Option Bytes)) (n : ℕ) (i : Option Bytes)
    → AreImages f old s
    → or_file n f i ≡ old n
    → AreImages f old (s ++ (n, i) ∷ [])
AreImages-append f old [] n i h e = (e, tt)
AreImages-append f old ((m, j) ∷ r) n i h e = (h.0, AreImages-append f old r n i h.1 e)

has_shadow-append :
    (k n : ℕ) (i : Option Bytes) (s : List (ℕ × Option Bytes))
    → has_shadow k (s ++ (n, i) ∷ []) ≡ (if has_shadow k s then true else n == k)
unfolding has_shadow
has_shadow-append k n i [] = ground arith
has_shadow-append k n i ((m, j) ∷ r) = ground (arith, has_shadow-append k n i r)

or_file-pre_image :
    (n : ℕ) (o : Option Bytes) (f : File) → or_file n f (pre_image n o f) ≡ or_file n f o
unfolding pre_image
or_file-pre_image n (some b) f = refl
or_file-pre_image n none f = ground arith

module _ (f : File) (old : ℕ → Bytes) where
  noted-InTxn :
      (n : ℕ) (p : Pager) → InTxn f old p → has_shadow n p.shadow ≡ false → InTxn f old (noted n p)
  unfolding noted
  noted-InTxn n p h new_entry = record {
    written = h.written;
    active = h.active;
    same_file = h.same_file;
    images = AreImages-append f old p.shadow n _ h.images (
        rw (h.same_file) (
          or_file-pre_image n (pool_get n p.pool).0 f
          ∙ ap (or_file n f) (pool_get-eq-find_page n p.pool)
          ∙ h.untouched n new_entry));
    untouched = λ k e.
        ap (or_file k f) (find_page-pool_get n k p.pool)
        ∙ h.untouched k
            (or_test (has_shadow k p.shadow) (n == k)
              (sym (has_shadow-append k n _ p.shadow) ∙ e)).0;
    cached = λ k m. let (b, e) = h.cached k m in (b, find_page-pool_get n k p.pool ∙ e);
    kept = λ k m. ap (or_file k f) (find_page-pool_get n k p.pool) ∙ h.kept k m;
  }

  -- The pre-image of the page is noted before the page changes.
  remember-InTxn :
      (n : ℕ) (p : Pager)
      → InTxn f old p
      → InTxn f old (remember n p) × (has_shadow n (remember n p).shadow ≡ true)
  unfolding noted
  remember-InTxn n p h = elim (Bool-cases (has_shadow n p.shadow)) [
    | inl old_entry ↦
        let e : remember n p ≡ p = remember_active n p h.written h.active ∙ rw old_entry in
        rw e (h, old_entry)
    | inr new_entry ↦
        let e : remember n p ≡ noted n p = remember_active n p h.written h.active ∙ rw new_entry in
        rw e (
          noted-InTxn n p h new_entry,
          has_shadow-append n n (pre_image n (pool_get n p.pool).0 p.file) p.shadow
              ∙ rw (new_entry, ==_refl n),
        )
  ]

  stored-InTxn :
      (n : ℕ) (b : Bytes) (p : Pager)
      → InTxn f old p
      → has_shadow n p.shadow ≡ true
      → InTxn f old (stored n b p)
  unfolding stored touch
  stored-InTxn n b p h noted_before = record {
    written = add_member n h.written;
    active = rw (h.active);
    same_file = h.same_file;
    images = h.images;
    untouched = λ k e.
        ap (or_file k f) (find_page-pool_put n k (pad b) true p.pool)
        ∙ (let other : (n == k) ≡ false = apart n k p.shadow noted_before e in
            rw other (h.untouched k e));
    cached = λ k m. stored_page n k b p h.written h.cached m;
    kept = λ k m.
        let (other, old_one) =
          or_test (n == k) (member k h.written) (sym (member-add_member n k h.written) ∙ m) in
        ap (or_file k f) (find_page-pool_put n k (pad b) true p.pool) ∙ rw other (h.kept k old_one);
  }

  hit-InTxn :
      (n : ℕ) (p : Pager)
      → InTxn f old p
      → InTxn f old (record p { pool = (pool_get n p.pool).1; hits = p.hits + 1 })
  hit-InTxn n p h = record {
    written = h.written;
    active = h.active;
    same_file = h.same_file;
    images = h.images;
    untouched = λ k e. ap (or_file k f) (find_page-pool_get n k p.pool) ∙ h.untouched k e;
    cached = λ k m. let (b, e) = h.cached k m in (b, find_page-pool_get n k p.pool ∙ e);
    kept = λ k m. ap (or_file k f) (find_page-pool_get n k p.pool) ∙ h.kept k m;
  }

  loaded-InTxn :
      (n : ℕ) (p : Pager)
      → InTxn f old p
      → find_page n p.pool.pages ≡ none
      → InTxn f old (loaded n p)
  unfolding loaded
  loaded-InTxn n p h missing = record {
    written = h.written;
    active = h.active;
    same_file = h.same_file;
    images = h.images;
    untouched = λ k e. loaded_view k (h.untouched k e);
    cached = λ k m. loaded_page k (h.cached k m);
    kept = λ k m. loaded_view k (h.kept k m);
  }
    where
      put :
          (k : ℕ)
          → find_page k (loaded n p).pool.pages
            ≡ (if n == k then some (read_page n p.file) else find_page k p.pool.pages)
      put k = find_page-pool_put n k (read_page n p.file) false p.pool

      loaded_view :
          (k : ℕ)
          → or_file k f (find_page k p.pool.pages) ≡ old k
          → or_file k f (find_page k (loaded n p).pool.pages) ≡ old k
      loaded_view k e = elim (Bool-cases (n == k)) [
        | inl same ↦
            let i : n ≡ k = (==_iff n k).0 same in
            let gone : find_page k p.pool.pages ≡ none =
              sym (ap (λ j. find_page j p.pool.pages) i) ∙ missing in
            let here : find_page k (loaded n p).pool.pages ≡ some (read_page n p.file) =
              put k ∙ rw same in
            ap (or_file k f) here ∙ ap₂ read_page i (h.same_file) ∙ sym (ap (or_file k f) gone) ∙ e
        | inr other ↦
            let there : find_page k (loaded n p).pool.pages ≡ find_page k p.pool.pages =
              put k ∙ rw other in
            ap (or_file k f) there ∙ e
      ]

      loaded_page :
          (k : ℕ)
          → (b : Bytes) × (find_page k p.pool.pages ≡ some b)
          → (b : Bytes) × (find_page k (loaded n p).pool.pages ≡ some b)
      loaded_page k (b, e) = elim (Bool-cases (n == k)) [
        | inl same ↦ (read_page n p.file, put k ∙ rw same)
        | inr other ↦ (b, put k ∙ rw other e)
      ]

  -- The page count plays no part.
  counted-InTxn : (c : ℕ) (p : Pager) → InTxn f old p → InTxn f old (record p { num_pages = c })
  counted-InTxn c p h = record {
    written = h.written;
    active = h.active;
    same_file = h.same_file;
    images = h.images;
    untouched = h.untouched;
    cached = h.cached;
    kept = h.kept;
  }

  write-InTxn :
      (n : ℕ) (b : Bytes) (p : Pager) → InTxn f old p → InTxn f old (after_write p (write n b p))
  unfolding after_write
  write-InTxn n b p h =
      let (hr, noted_now) = remember-InTxn n p h in
      let e = write_active n b p hr.written hr.active in
      elim (Bool-cases (ltb page_size (length b))) [
        | inl big ↦ rw (e, big) h
        | inr fits ↦ rw (e, fits) (stored-InTxn n b (remember n p) hr noted_now)
      ]

  get-InTxn : (n : ℕ) (p : Pager) → InTxn f old p → InTxn f old (after_get p (get n p))
  unfolding after_get get
  get-InTxn n p h = elim (Bool-cases (leb p.num_pages n && not (n == 0))) [
    | inl outside ↦ rw (outside) h
    | inr inside ↦ elim (Option-cases (find_page n p.pool.pages)) [
      | inl missing ↦
          let e = load_active n p h.written h.active in
          rw (inside, pool_get-eq-find_page n p.pool ∙ missing) (rw e (loaded-InTxn n p h missing))
      | inr (b, found) ↦ rw (inside, pool_get-eq-find_page n p.pool ∙ found) (hit-InTxn n p h)
    ]
  ]

  allocate-InTxn : (p : Pager) → InTxn f old p → InTxn f old (after_allocate p (allocate p))
  unfolding after_allocate allocate
  allocate-InTxn p h =
      let p' : Pager = record p { num_pages = p.num_pages + 1 } in
      settle (write p.num_pages empty_page p') p' h
        (write-InTxn p.num_pages empty_page p' (counted-InTxn (p.num_pages + 1) p h))
    where
      settle :
          (r : Result Pager) (p' : Pager)
          → InTxn f old p
          → InTxn f old (after_write p' r)
          → InTxn f old (after_allocate p (r >>= λ q. ok (p.num_pages, q)))
      settle (ok q) p' h h' = unfold after_write in h'
      settle (err e) p' h h' = h

  step-InTxn : (c : Call) (p : Pager) → InTxn f old p → InTxn f old (step c p)
  unfolding step
  step-InTxn (Call.fetch n) p h = get-InTxn n p h
  step-InTxn (Call.store n b) p h = write-InTxn n b p h
  step-InTxn Call.grow p h = allocate-InTxn p h

  pub run-InTxn : (cs : List Call) (p : Pager) → InTxn f old p → InTxn f old (run cs p)
  unfolding run
  run-InTxn [] p h = h
  run-InTxn (c ∷ cs) p h = run-InTxn cs (step c p) (step-InTxn c p h)
