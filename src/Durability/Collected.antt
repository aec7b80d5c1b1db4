-- ===== src/Durability/Collected.antt =====
-- The images that a commit collects: in order, whole, and in the log's format.
use leafdb.Prelude.{
  ℕ, suc, ◌≤◌, ◌<◌, ◌≡◌, refl, ap, ◌∙◌, List, [], ◌∷◌, ◌++◌, map, Bool, true, false, none, some,
  inl, inr, Bool-cases, ltb, leb, ◌==◌, ==_iff, ==_refl, if◌then◌else◌, length, ◌^◌, ◌%◌, arith,
  lt→ltb,
}
use leafdb.Prelude.Errors.{ok}
use leafdb.Bytes.{Bytes, pack, be}
use leafdb.Bytes.RoundTrip.{length-be}
use leafdb.Pager.Pool.{page_size, find_page, member}
use leafdb.Pager.{insert_number, sort_numbers}
use leafdb.Pager.Rollback.{member-sort_numbers}
use leafdb.Pager.Disk.{AreWhole}
use leafdb.Pager.Whole.{AreDistinct}
use leafdb.Wal.{Images, magic, commit_page, frame, commit_frame, frames, batch_blob}
use leafdb.Wal.Batches.{IsBatch, sort_images_sorted}

apart_test : (a b : Bool) → (if a then true else b) ≡ false → (a ≡ false) × (b ≡ false)
apart_test a b h = ground arith

-- The pages of a list of numbers.
abbrev pub pages_of : (ℕ → Bytes) → List ℕ → Images
pages_of g ns = map (λ n. (n, g n)) ns

insert_number-IsBatch :
    (g : ℕ → Bytes) (n lo : ℕ) (s : List ℕ)
    → lo ≤ n
    → n < commit_page
    → member n s ≡ false
    → IsBatch lo (pages_of g s)
    → IsBatch lo (pages_of g (insert_number n s))
unfolding insert_number member
insert_number-IsBatch g n lo [] l c m h = (l, c, tt)
insert_number-IsBatch g n lo (k ∷ r) l c m h =
    let (other, rest) = apart_test (k == n) (member n r) m in
    elim (Bool-cases (leb n k)) [
      | inl e ↦ rw e (l, c, ((let up : suc n ≤ k = ground arith in up), h.1, h.2))
      | inr e ↦ rw e (
        h.0,
        h.1,
        insert_number-IsBatch g n (suc k) r (let up : suc k ≤ n = ground arith in up) c rest h.2,
      )
    ]

pub sort_numbers-IsBatch :
    (g : ℕ → Bytes) (s : List ℕ)
    → AreDistinct s
    → ((k : ℕ) → member k s ≡ true → k < commit_page)
    → IsBatch 0 (pages_of g (sort_numbers s))
unfolding sort_numbers member
sort_numbers-IsBatch g [] d below = tt
sort_numbers-IsBatch g (n ∷ r) d below =
    insert_number-IsBatch g n 0 (sort_numbers r) (omega arith) (below n (rw (==_refl n) refl))
      (member-sort_numbers n r ∙ d.0)
      (sort_numbers-IsBatch g r d.1 (λ k m. below k (later n k (member k r) m)))
  where
    later : (n k : ℕ) (b : Bool) → b ≡ true → (if n == k then true else b) ≡ true
    later n k b m = ground arith

pub pages_of-AreWhole :
    (g : ℕ → Bytes) (s : List ℕ)
    → ((k : ℕ) → member k s ≡ true → length (g k) ≡ page_size)
    → AreWhole (pages_of g s)
unfolding member
pages_of-AreWhole g [] h = tt
pages_of-AreWhole g (n ∷ r) h =
    (h n (rw (==_refl n) refl), pages_of-AreWhole g r (λ k m. h k (later n k (member k r) m)))
  where
    later : (n k : ℕ) (b : Bool) → b ≡ true → (if n == k then true else b) ≡ true
    later n k b m = ground arith

pub find_page-pages_of :
    (g : ℕ → Bytes) (k : ℕ) (s : List ℕ)
    → find_page k (pages_of g s) ≡ (if member k s then some (g k) else none)
unfolding find_page member
find_page-pages_of g k [] = refl
find_page-pages_of g k (n ∷ r) = elim (Bool-cases (n == k)) [
  | inl same ↦ rw same (ap (λ j. some (g j)) ((==_iff n k).0 same))
  | inr other ↦ rw other (find_page-pages_of g k r)
]

module _ (crc32 : Bytes → ℕ) where
  small_frame :
      (n : ℕ) (img : Bytes)
      → n ≤ commit_page
      → length img ≤ page_size
      → (b : Bytes) × (frame crc32 n img ≡ ok b)
  unfolding frame pack
  small_frame n img hn hi =
      let a : ltb n (256 ^ 4) ≡ true = lt→ltb n (256 ^ 4) (omega arith) in
      let b : ltb (length img) (256 ^ 4) ≡ true = lt→ltb (length img) (256 ^ 4) (omega arith) in
      let c : ltb (crc32 img % 2 ^ 32) (256 ^ 4) ≡ true = ground arith in
      (
        magic ++ (be 4 n ++ (be 4 (length img) ++ (be 4 (crc32 img % 2 ^ 32) ++ img))),
        rw (a, b, c) refl,
      )

  small_frames :
      (lo : ℕ) (imgs : Images)
      → IsBatch lo imgs
      → AreWhole imgs
      → (b : Bytes) × (frames crc32 imgs ≡ ok b)
  unfolding frames
  small_frames lo [] h w = ([], refl)
  small_frames lo ((n, img) ∷ r) h w =
      let (b, e) = small_frame n img (omega (arith, h.1)) (omega (arith, w.0)) in
      let (bs, es) = small_frames (suc n) r h.2 w.1 in (b ++ bs, rw (e, es) refl)

  -- A commit of whole pages fits the log's format.
  pub small_batch :
      (imgs : Images) (n : ℕ)
      → IsBatch 0 imgs
      → AreWhole imgs
      → n ≤ commit_page
      → (b : Bytes) × (batch_blob crc32 imgs n ≡ ok b)
  unfolding batch_blob commit_frame pack
  small_batch imgs n h w le =
      let a : ltb n (256 ^ 4) ≡ true = lt→ltb n (256 ^ 4) (omega arith) in
      let (bs, es) = small_frames 0 imgs h w in
      let (c, e) = small_frame commit_page (be 4 n) (omega arith) (omega (arith, length-be 4 n)) in
      (bs ++ c, rw (sort_images_sorted 0 imgs h, es, a) (rw e refl))
