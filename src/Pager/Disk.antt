-- ===== src/Pager/Disk.antt =====
-- The pages of a data file, and what recovery does to them.
use leafdb.Prelude.{
  ℕ, suc, ◌+◌, ◌-◌, ◌*◌, ◌≤◌, ◌<◌, ◌≡◌, refl, sym, ap, ◌∙◌, [], ◌∷◌, true, false, Option, none,
  some, inl, inr, Bool-cases, ltb, leb, ◌==◌, ==_iff, ◌&&◌, if◌then◌else◌, length, arith, le→leb,
  lt→ltb,
}
use leafdb.Bytes.{Bytes}
use leafdb.File.{File, byte_at, get_or, tabulate, write_at, byte_at-write_at}
use leafdb.File.Windows.{length-tabulate, read_at-padded, tabulate-written, tabulate-byte_at-ext}
use leafdb.Pager.{read_page}
use leafdb.Pager.Pool.{page_size, find_page}
use leafdb.Pager.View.{or_file}
use leafdb.Wal.{Images, sort_images}
use leafdb.Wal.Batches.{IsBatch, sort_images_sorted}
use leafdb.Wal.Recover.{write_images, grow_to, apply_batch}

-- The bytes of a page of the file.
pub read_page-tabulate :
    (n : ℕ) (f : File) → read_page n f ≡ tabulate page_size (n * page_size) (byte_at f)
unfolding read_page
read_page-tabulate n f = read_at-padded page_size (n * page_size) f

pub length-read_page : (n : ℕ) (f : File) → length (read_page n f) ≡ page_size
length-read_page n f =
    ap length (read_page-tabulate n f) ∙ length-tabulate page_size (n * page_size) (byte_at f)

pub read_page-ext :
    (n : ℕ) (f g : File) → ((i : ℕ) → byte_at f i ≡ byte_at g i) → read_page n f ≡ read_page n g
read_page-ext n f g h =
    read_page-tabulate n f
    ∙ tabulate-byte_at-ext page_size (n * page_size) f g (λ i a b. h i)
    ∙ sym (read_page-tabulate n g)

outside :
    (n k i len : ℕ)
    → len ≡ page_size
    → (n == k) ≡ false
    → k * page_size ≤ i
    → i < k * page_size + page_size
    → (leb (n * page_size) i && ltb i (n * page_size + len)) ≡ false
outside n k i len l e a b = ground arith

-- A page that is written whole is read back, and the other pages as before.
read_page-write_same :
    (n : ℕ) (img : Bytes) (f : File)
    → length img ≡ page_size
    → read_page n (write_at (n * page_size) img f) ≡ img
read_page-write_same n img f l =
    read_page-tabulate n (write_at (n * page_size) img f)
    ∙ ap (λ k. tabulate k (n * page_size) (byte_at (write_at (n * page_size) img f))) (sym l)
    ∙ tabulate-written (n * page_size) img (byte_at (write_at (n * page_size) img f)) (λ i a b.
      byte_at-write_at (n * page_size) i img f
      ∙ rw (le→leb (n * page_size) i a, lt→ltb i (n * page_size + length img) b) refl)

read_page-write_other :
    (n k : ℕ) (img : Bytes) (f : File)
    → length img ≡ page_size
    → (n == k) ≡ false
    → read_page k (write_at (n * page_size) img f) ≡ read_page k f
read_page-write_other n k img f l e =
    read_page-tabulate k (write_at (n * page_size) img f)
    ∙ tabulate-byte_at-ext page_size (k * page_size) (write_at (n * page_size) img f) f (λ i a b.
      byte_at-write_at (n * page_size) i img f ∙ rw (outside n k i (length img) l e a b) refl)
    ∙ sym (read_page-tabulate k f)

-- Images that are whole pages.
abbrev pub AreWhole : Images → Type 0
AreWhole [] = Unit {0}
AreWhole ((n, img) ∷ r) = (length img ≡ page_size) × AreWhole r

pub find_page-IsBatch :
    (k lo : ℕ) (imgs : Images) → IsBatch lo imgs → k < lo → find_page k imgs ≡ none
unfolding find_page
find_page-IsBatch k lo [] h l = refl
find_page-IsBatch k lo ((n, img) ∷ r) h l =
    let other : (n == k) ≡ false = ground arith in
    rw other (find_page-IsBatch k (suc n) r h.2 (omega arith))

read_page-write_images :
    (k lo : ℕ) (imgs : Images) (f : File)
    → IsBatch lo imgs
    → AreWhole imgs
    → read_page k (write_images imgs f) ≡ or_file k f (find_page k imgs)
unfolding write_images find_page
read_page-write_images k lo [] f h w = refl
read_page-write_images k lo ((n, img) ∷ r) f h w = elim (Bool-cases (n == k)) [
  | inl same ↦
      let e : n ≡ k = (==_iff n k).0 same in
      read_page-write_images k (suc n) r (write_at (n * page_size) img f) h.2 w.1
      ∙ ap (or_file k (write_at (n * page_size) img f))
          (find_page-IsBatch k (suc n) r h.2 (omega arith))
      ∙ ap (λ j. read_page j (write_at (n * page_size) img f)) (sym e)
      ∙ read_page-write_same n img f w.0
      ∙ rw same refl
  | inr other ↦
      read_page-write_images k (suc n) r (write_at (n * page_size) img f) h.2 w.1
      ∙ or_file-ext k (write_at (n * page_size) img f) f (find_page k r)
          (read_page-write_other n k img f w.0 other)
      ∙ rw other refl
]
  where
    or_file-ext :
        (k : ℕ) (f g : File) (o : Option Bytes)
        → read_page k f ≡ read_page k g
        → or_file k f o ≡ or_file k g o
    or_file-ext k f g none e = e
    or_file-ext k f g (some b) e = refl

at_last : (need i : ℕ) → (leb (need - 1) i && ltb i (need - 1 + 1)) ≡ true → i ≡ need - 1
at_last need i h = ground arith

past_end : (i : ℕ) (f : File) → f.size ≤ i → byte_at f i ≡ 0
past_end i f h = ground arith

last_zero :
    (need i : ℕ) (f : File)
    → ltb f.size need ≡ true
    → (if leb (need - 1) i && ltb i (need - 1 + 1)
        then get_or (0 ∷ []) (i - (need - 1)) 0
        else byte_at f i)
      ≡ byte_at f i
last_zero need i f e = elim (Bool-cases (leb (need - 1) i && ltb i (need - 1 + 1))) [
  | inl h ↦
      let j = at_last need i h in
      rw h (
        ap (λ k. get_or (0 ∷ []) k 0) {x = i - (need - 1)} {y = 0} (omega arith)
        ∙ sym (past_end i f (ground arith)))
  | inr h ↦ rw h refl
]

-- Growing the file fills it with zeros, which is what was read there before.
byte_at-grow_to : (need i : ℕ) (f : File) → byte_at (grow_to need f) i ≡ byte_at f i
unfolding grow_to
byte_at-grow_to need i f = elim (Bool-cases (ltb f.size need)) [
  | inr e ↦ rw e refl
  | inl e ↦ rw e (byte_at-write_at (need - 1) i (0 ∷ []) f ∙ last_zero need i f e)
]

-- A batch of whole pages is seen in the file page by page.
pub read_page-apply_batch :
    (k n : ℕ) (imgs : Images) (f : File)
    → IsBatch 0 imgs
    → AreWhole imgs
    → read_page k (apply_batch imgs n f) ≡ or_file k f (find_page k imgs)
unfolding apply_batch
read_page-apply_batch k n imgs f h w =
    read_page-ext k (grow_to (n * page_size) (write_images (sort_images imgs) f))
      (write_images (sort_images imgs) f)
      (λ i. byte_at-grow_to (n * page_size) i (write_images (sort_images imgs) f))
    ∙ rw (sort_images_sorted 0 imgs h) (read_page-write_images k 0 imgs f h w)
