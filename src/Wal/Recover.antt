-- ===== src/Wal/Recover.antt =====
-- `recover` of leafdb/wal.py: the committed batches of the log are written over the data file. What
-- an exception in the middle leaves in the file is not modelled.
use leafdb.Prelude.{
  ℕ, zero, suc, ◌+◌, ◌-◌, ◌*◌, ◌≡◌, refl, ap, ◌∙◌, List, [], ◌∷◌, true, false, Option, none, some,
  inl, inr, Bool-cases, ltb, leb, ◌==◌, if◌then◌else◌, length, arith,
}
use leafdb.Prelude.Errors.{Result, ok, err, ◌>>=◌, out_of_fuel}
use leafdb.Bytes.{Bytes}
use leafdb.File.{File, write_at}
use leafdb.Pager.Pool.{page_size}
use leafdb.Wal.{
  Images, Batch, commit_page, wal_header, next_frame, unpack_count, read_round, read_loop,
  put_image, sort_images,
}

-- for pg in sorted(batch): db.seek(pg * PAGE_SIZE); db.write(batch[pg])
unfoldable pub write_images : Images → File → File
write_images [] db = db
write_images ((n, img) ∷ r) db = write_images r (write_at (n * page_size) img db)

-- The file grows to the page count of the commit record.
unfoldable pub grow_to : ℕ → File → File
grow_to need db = if ltb db.size need then write_at (need - 1) (0 ∷ []) db else db

unfoldable pub apply_batch : Images → ℕ → File → File
unfolding write_images grow_to
apply_batch batch num_pages db =
    grow_to (num_pages * page_size) (write_images (sort_images batch) db)

unfoldable pub recover_round :
    Images
    → File
    → ℕ
    → (ℕ → File → Result (File × ℕ))
    → (ℕ → Bytes → ℕ → Result (File × ℕ))
    → Option (ℕ × Bytes × ℕ)
    → Result (File × ℕ)
recover_round batch db applied on_commit on_page none = ok (db, applied)
recover_round batch db applied on_commit on_page (some (page_no, payload, stop)) =
    elim (page_no == commit_page) [
      | true ↦ do num_pages ← unpack_count payload; on_commit stop (apply_batch batch num_pages db)
      | false ↦ on_page page_no payload stop
    ]

module _ (crc32 : Bytes → ℕ) where
  -- The loop of `recover`, on fuel: the data file and the number of batches applied.
  unfoldable pub recover_loop : ℕ → Bytes → ℕ → Images → File → ℕ → Result (File × ℕ)
  unfolding recover_round
  recover_loop zero log pos batch db applied = err out_of_fuel
  recover_loop (suc fuel) log pos batch db applied = do
    found ← next_frame crc32 log pos
    recover_round batch db applied (λ stop db'. recover_loop fuel log stop [] db' (applied + 1))
        (λ page_no payload stop.
          recover_loop fuel log stop (put_image page_no payload batch) db applied)
        found

  -- A log that is not there is empty here.
  unfoldable pub recover : Bytes → File → Result (File × ℕ)
  unfolding recover_loop
  recover log db =
      if leb (length log) (length wal_header)
      then ok (db, 0)
      else recover_loop (suc (length log)) log (length wal_header) [] db 0

-- The batches that a reader finds, applied one after another.
unfoldable pub apply_batches : List Batch → File → File
apply_batches [] db = db
apply_batches (b ∷ r) db = apply_batches r (apply_batch b.images b.num_pages db)

abbrev applied_to : File → ℕ → Result (List Batch) → Result (File × ℕ)
applied_to db applied r = do bs ← r; ok (apply_batches bs db, applied + length bs)

applied_to-cons :
    (db : File) (applied : ℕ) (b : Batch) (r : Result (List Batch))
    → applied_to (apply_batch b.images b.num_pages db) (applied + 1) r
      ≡ applied_to db applied (do bs ← r; ok (b ∷ bs))
unfolding apply_batches
applied_to-cons db applied b (ok bs) =
    ap (λ n. ok (apply_batches bs (apply_batch b.images b.num_pages db), n)) (omega arith)
applied_to-cons db applied b (err e) = refl

round-applied :
    (base applied : ℕ) (batch : Images) (db : File) (o : Option (ℕ × Bytes × ℕ))
    (c : ℕ → File → Result (File × ℕ)) (pg : ℕ → Bytes → ℕ → Result (File × ℕ))
    (c' : ℕ → Result (List Batch)) (pg' : ℕ → Bytes → ℕ → Result (List Batch))
    → ((stop : ℕ) (db' : File) → c stop db' ≡ applied_to db' (applied + 1) (c' stop))
    → ((n : ℕ) (img : Bytes) (stop : ℕ) → pg n img stop ≡ applied_to db applied (pg' n img stop))
    → recover_round batch db applied c pg o ≡ applied_to db applied (read_round base batch c' pg' o)
unfolding recover_round read_round apply_batches
round-applied base applied batch db none c pg c' pg' hc hp = ap (λ n. ok (db, n)) (omega arith)
round-applied base applied batch db (some (n, img, stop)) c pg c' pg' hc hp =
    elim (Bool-cases (n == commit_page)) [
      | inl commit ↦ rw (commit, recover_round, read_round) (committed (unpack_count img))
      | inr page ↦ rw (page, recover_round, read_round) (hp n img stop)
    ]
  where
    committed :
        (r : Result ℕ)
        → (r >>= λ num. c stop (apply_batch batch num db))
          ≡ applied_to db applied (do
            num ← r
            rest ← c' stop
            ok (record { new_offset = base + stop; images = batch; num_pages = num } ∷ rest))
    committed (ok num) =
        hc stop (apply_batch batch num db)
        ∙ applied_to-cons db applied
            (record { new_offset = base + stop; images = batch; num_pages = num }) (c' stop)
    committed (err e) = refl

bind-applied :
    (db : File) (applied : ℕ) (r : Result (Option (ℕ × Bytes × ℕ)))
    (f : Option (ℕ × Bytes × ℕ) → Result (File × ℕ))
    (g : Option (ℕ × Bytes × ℕ) → Result (List Batch))
    → ((o : Option (ℕ × Bytes × ℕ)) → f o ≡ applied_to db applied (g o))
    → (r >>= f) ≡ applied_to db applied (r >>= g)
bind-applied db applied (ok o) f g h = h o
bind-applied db applied (err e) f g h = refl

from_zero :
    (db : File) (r : Result (List Batch))
    → applied_to db 0 r ≡ (do bs ← r; ok (apply_batches bs db, length bs))
from_zero db (ok bs) = ap (λ n. ok (apply_batches bs db, n)) (omega arith)
from_zero db (err e) = refl

module _ (crc32 : Bytes → ℕ) where
  recover_loop-read_loop :
      (fuel : ℕ) (log : Bytes) (base pos : ℕ) (batch : Images) (db : File) (applied : ℕ)
      → recover_loop crc32 fuel log pos batch db applied
        ≡ applied_to db applied (read_loop crc32 fuel log base pos batch)
  unfolding recover_loop read_loop
  recover_loop-read_loop zero log base pos batch db applied = refl
  recover_loop-read_loop (suc fuel) log base pos batch db applied =
      bind-applied db applied (next_frame crc32 log pos) _ _ (λ o.
        round-applied base applied batch db o
          (λ stop db'. recover_loop crc32 fuel log stop [] db' (applied + 1))
          (λ n img stop. recover_loop crc32 fuel log stop (put_image n img batch) db applied)
          (λ stop. read_loop crc32 fuel log base stop [])
          (λ n img stop. read_loop crc32 fuel log base stop (put_image n img batch))
          (λ stop db'. recover_loop-read_loop fuel log base stop [] db' (applied + 1))
          (λ n img stop.
            recover_loop-read_loop fuel log base stop (put_image n img batch) db applied))

  -- Recovery applies to the data file, in order, exactly the batches that a reader of the log
  -- finds behind its header, and returns their number; it fails only where the reader fails.
  pub recover-read_loop :
      (log : Bytes) (db : File)
      → ltb (length wal_header) (length log) ≡ true
      → recover crc32 log db ≡ (do
        bs ← read_loop crc32 (suc (length log)) log 0 (length wal_header) []
        ok (apply_batches bs db, length bs))
  unfolding recover
  recover-read_loop log db h =
      let e : leb (length log) (length wal_header) ≡ false = ground arith in
      rw e (
        recover_loop-read_loop (suc (length log)) log 0 (length wal_header) [] db 0
        ∙ from_zero db (read_loop crc32 (suc (length log)) log 0 (length wal_header) []))
