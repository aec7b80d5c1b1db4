-- ===== src/Wal/Batches.antt =====
-- The images of a committed batch: pages in increasing order, as `Pager.collect_commit` hands them
-- over. The log keeps their order, and a reader's dict holds the same entries.
use leafdb.Prelude.{ℕ, suc, ◌<◌, ◌≤◌, ◌≡◌, refl, ap, [], ◌∷◌, ◌++◌, false, ◌==◌, le→leb, arith}
use leafdb.Bytes.{Bytes}
use leafdb.Wal.{Images, commit_page, put_image, insert_sorted, sort_images}

abbrev pub IsBatch : ℕ → Images → Type 0
IsBatch lo [] = Unit {0}
IsBatch lo ((n, img) ∷ r) = (lo ≤ n) × (n < commit_page) × IsBatch (suc n) r

IsBatch-weaken : (lo hi : ℕ) (imgs : Images) → lo ≤ hi → IsBatch hi imgs → IsBatch lo imgs
IsBatch-weaken lo hi [] h b = tt
IsBatch-weaken lo hi ((n, img) ∷ r) h b = (omega arith, b.1, b.2)

insert_sorted_first :
    (n : ℕ) (img : Bytes) (imgs : Images)
    → IsBatch n imgs
    → insert_sorted (n, img) imgs ≡ (n, img) ∷ imgs
unfolding insert_sorted
insert_sorted_first n img [] h = refl
insert_sorted_first n img ((m, old) ∷ r) h = rw (le→leb n m h.0)

pub sort_images_sorted : (lo : ℕ) (imgs : Images) → IsBatch lo imgs → sort_images imgs ≡ imgs
unfolding sort_images
sort_images_sorted lo [] h = refl
sort_images_sorted lo ((n, img) ∷ r) h =
    rw (sort_images_sorted (suc n) r h.2)
      (insert_sorted_first n img r (IsBatch-weaken n (suc n) r (omega arith) h.2))

abbrev pub IsBelow : ℕ → Images → Type 0
IsBelow hi [] = Unit {0}
IsBelow hi ((n, img) ∷ r) = (n < hi) × IsBelow hi r

pub put_image_new :
    (n : ℕ) (img : Bytes) (acc : Images)
    → IsBelow n acc
    → put_image n img acc ≡ acc ++ (n, img) ∷ []
unfolding put_image
put_image_new n img [] h = refl
put_image_new n img ((m, old) ∷ r) h =
    let e : (m == n) ≡ false = ne_test m n h.0 in
    rw e (ap (λ t. (m, old) ∷ t) (put_image_new n img r h.1))
  where
    ne_test : (m n : ℕ) → m < n → (m == n) ≡ false
    ne_test m n h = ground arith

pub IsBelow-append :
    (lo n : ℕ) (img : Bytes) (acc : Images)
    → lo ≤ n
    → IsBelow lo acc
    → IsBelow n acc × IsBelow (suc n) (acc ++ (n, img) ∷ [])
IsBelow-append lo n img [] l h = (tt, omega arith)
IsBelow-append lo n img ((m, old) ∷ r) l h =
    let (a, b) = IsBelow-append lo n img r l h.1 in ((omega arith, a), (omega arith, b))
