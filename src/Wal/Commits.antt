-- ===== src/Wal/Commits.antt =====
-- Batches that were appended to a log whole are read back in order, and a batch whose bytes are cut
-- short is not read.
use leafdb.Prelude.{
  ℕ, zero, suc, ◌+◌, ◌-◌, ◌<◌, ◌≤◌, ◌≡◌, refl, sym, ap, ◌∙◌, List, [], ◌∷◌, ◌++◌, true, false, inl,
  inr, Bool-cases, ltb, length, take, drop, arith, length-append, take-append_of_le,
  take-append_past, append_assoc, append-nil,
}
use leafdb.Prelude.Errors.{Result, ok, ◌>>=◌, >>=-eq-ok}
use leafdb.Bytes.{Bytes, pack}
use leafdb.Wal.{
  Images, Batch, commit_page, frame, commit_frame, frames, batch_blob, append_batch, read_loop,
  sort_images,
}
use leafdb.Wal.Frames.{frame-IsFrame, IsFrame-length}
use leafdb.Wal.Batches.{IsBatch, sort_images_sorted}
use leafdb.Wal.Rounds.{more, more-add, step_page, step_commit, step_cut, read_pages}

-- Batches to commit, each with its page count.
abbrev pub Commits : Type 0
Commits = List (Images × ℕ)

abbrev pub AreBatches : Commits → Type 0
AreBatches [] = Unit {0}
AreBatches ((pages, n) ∷ r) = IsBatch 0 pages × AreBatches r

-- What a reader learns from the batches it found.
abbrev pub contents : List Batch → Commits
contents [] = []
contents (b ∷ r) = (b.images, b.num_pages) ∷ contents r

-- The offset from which it reads on.
abbrev pub end_offset : ℕ → List Batch → ℕ
end_offset off [] = off
end_offset off (b ∷ r) = end_offset b.new_offset r

lt_of_test : (a b : ℕ) → ltb a b ≡ true → a < b
lt_of_test a b h = ground arith

before : (a b : ℕ) → ltb a b ≡ true → a ≤ b
before a b h = ground arith

le_of_test : (a b : ℕ) → ltb a b ≡ false → b ≤ a
le_of_test a b h = ground arith

split_cut : (k : ℕ) (b x : Bytes) → length b ≤ k → take k (b ++ x) ≡ b ++ take (k - length b) x
split_cut k b x h =
    ap (λ j. take j (b ++ x)) {x = k} {y = length b + (k - length b)} (omega arith)
    ∙ take-append_past b x (k - length b)

module _ (crc32 : Bytes → ℕ) where
  -- The commits, appended one after another.
  unfoldable pub append_all : Bytes → Commits → Result Bytes
  append_all log [] = ok log
  append_all log ((pages, n) ∷ r) = do (log', _) ← append_batch crc32 log pages n; append_all log' r

  frame_pos : (n : ℕ) (img b : Bytes) → frame crc32 n img ≡ ok b → 0 < length b
  frame_pos n img b h = omega (arith, IsFrame-length crc32 n img b (frame-IsFrame crc32 n img b h))

  commit_pos : (n : ℕ) (b : Bytes) → commit_frame crc32 n ≡ ok b → 0 < length b
  unfolding commit_frame
  commit_pos n b h = let (c, _, h') = >>=-eq-ok (pack 4 n) _ h in frame_pos commit_page c b h'

  -- A batch whose blob is cut short is not found.
  pub read_cut :
      (lo : ℕ) (imgs acc : Images) (num : ℕ) (bs c data_ : Bytes) (k fuel base pos : ℕ)
      → IsBatch lo imgs
      → frames crc32 imgs ≡ ok bs
      → commit_frame crc32 num ≡ ok c
      → drop pos data_ ≡ take k (bs ++ c)
      → k < length (bs ++ c)
      → k < fuel
      → read_loop crc32 fuel data_ base pos acc ≡ ok []
  unfolding frames commit_frame
  read_cut lo imgs acc num bs c data_ k zero base pos h p q at_pos cut f = absurd (omega arith)
  read_cut lo [] acc num bs c data_ k (suc fuel) base pos h p q at_pos cut f =
      let (d, _, q') = >>=-eq-ok (pack 4 num) _ q in
      let e : bs ++ c ≡ c = ap (λ t. t ++ c) {x = bs} {y = []} (cc) in
      step_cut crc32 commit_page d c data_ k fuel base pos acc q' (at_pos ∙ ap (take k) e)
        (omega (arith, ap length e))
  read_cut lo ((n, img) ∷ r) acc num bs c data_ k (suc fuel) base pos h p q at_pos cut f =
      let (b, hb, p') = >>=-eq-ok (frame crc32 n img) _ p in
      let (bs', hbs, p'') = >>=-eq-ok (frames crc32 r) _ p' in
      let e : bs ++ c ≡ b ++ (bs' ++ c) =
        ap (λ t. t ++ c) {x = bs} {y = b ++ bs'} (cc) ∙ append_assoc b bs' c in
      elim (Bool-cases (ltb k (length b))) [
        | inl short ↦
            step_cut crc32 n img b data_ k fuel base pos acc hb
              (at_pos
                ∙ ap (take k) e
                ∙ take-append_of_le k b (bs' ++ c) (before k (length b) short))
              (lt_of_test k (length b) short)
        | inr long ↦
            let m = k - length b in
            let past = le_of_test k (length b) long in
            let (s, at_next) =
              step_page crc32 n img b data_ (take m (bs' ++ c)) fuel base pos acc hb h.1
                (at_pos ∙ ap (take k) e ∙ split_cut k b (bs' ++ c) past) in
            s
            ∙ read_cut (suc n) r _ num bs' c data_ m fuel base (pos + length b) h.2 hbs q at_next
                (omega (arith, length-append b (bs' ++ c), ap length e))
                (omega (arith, frame_pos n img b hb))
      ]

  -- The bytes that the commits append, and the fuel that reading them takes.
  unfoldable pub blobs : Commits → Result Bytes
  blobs [] = ok []
  blobs ((pages, n) ∷ r) = do b ← batch_blob crc32 pages n; bs ← blobs r; ok (b ++ bs)

  unfoldable pub rounds : Commits → ℕ → ℕ
  rounds [] f = f
  rounds ((pages, n) ∷ r) f = more pages (suc (rounds r f))

  -- One committed batch is found whole.
  read_commit :
      (pages : Images) (n : ℕ) (blob data_ rest : Bytes) (fuel base pos : ℕ)
      → IsBatch 0 pages
      → batch_blob crc32 pages n ≡ ok blob
      → drop pos data_ ≡ blob ++ rest
      → (read_loop crc32 (more pages (suc fuel)) data_ base pos [] ≡ (do
        batches ← read_loop crc32 fuel data_ base (pos + length blob) []
        ok (
            record { new_offset = base + (pos + length blob); images = pages; num_pages = n }
            ∷ batches)))
        × (drop (pos + length blob) data_ ≡ rest)
  unfolding batch_blob
  read_commit pages n blob data_ rest fuel base pos h p at_pos =
      let (bs, hbs, p') = >>=-eq-ok (frames crc32 (sort_images pages)) _ p in
      let (c, hc, p'') = >>=-eq-ok (commit_frame crc32 n) _ p' in
      let e : blob ≡ bs ++ c = cc in
      let sorted : frames crc32 pages ≡ ok bs = rw (sort_images_sorted 0 pages h) at hbs in
      let (s, d) =
        read_pages crc32 0 pages [] bs data_ (c ++ rest) (suc fuel) base pos tt h sorted
          (at_pos ∙ rw e (append_assoc bs c rest)) in
      let (t, d') = step_commit crc32 n c data_ rest fuel base (pos + length bs) pages hc d in
      let l : pos + length bs + length c ≡ pos + length blob =
        rw e (omega (arith, length-append bs c)) in
      (s ∙ (rw l at t), rw l at d')

  pub read_commits :
      (bs : Commits) (all data_ tail : Bytes) (fuel base pos : ℕ)
      → AreBatches bs
      → blobs bs ≡ ok all
      → drop pos data_ ≡ all ++ tail
      → ((p : ℕ) → drop p data_ ≡ tail → read_loop crc32 fuel data_ base p [] ≡ ok [])
      → (batches : List Batch) × (read_loop crc32 (rounds bs fuel) data_ base pos [] ≡ ok batches)
        × (contents batches ≡ bs)
        × (end_offset (base + pos) batches ≡ base + (pos + length all))
  unfolding blobs rounds
  read_commits [] all data_ tail fuel base pos h p at_pos stop =
      let e : all ≡ [] = cc in
      let z : pos ≡ pos + length all = rw e (omega arith) in
      ([], stop pos (at_pos ∙ ap (λ t. t ++ tail) e), refl, ap (λ t. base + t) z)
  read_commits ((pages, n) ∷ r) all data_ tail fuel base pos h p at_pos stop =
      let (blob, hb, p') = >>=-eq-ok (batch_blob crc32 pages n) _ p in
      let (rest, hr, p'') = >>=-eq-ok (blobs r) _ p' in
      let e : all ≡ blob ++ rest = cc in
      let (s, d) =
        read_commit pages n blob data_ (rest ++ tail) (rounds r fuel) base pos h.0 hb
          (at_pos ∙ rw e (append_assoc blob rest tail)) in
      let (batches, found, same, off) =
        read_commits r rest data_ tail fuel base (pos + length blob) h.1 hr d stop in
      (
        record { new_offset = base + (pos + length blob); images = pages; num_pages = n } ∷ batches,
        s ∙ rw found,
        ap (λ t. (pages, n) ∷ t) same,
        off ∙ ap (λ t. base + t) (rw e (omega (arith, length-append blob rest))),
      )

  pub append_all-blobs :
      (log log' : Bytes) (bs : Commits)
      → append_all log bs ≡ ok log'
      → (all : Bytes) × (blobs bs ≡ ok all) × (log' ≡ log ++ all)
  unfolding append_all blobs append_batch
  append_all-blobs log log' [] h = ([], refl, (let e : log' ≡ log = cc in e ∙ sym (append-nil log)))
  append_all-blobs log log' ((pages, n) ∷ r) h =
      let ((mid, off), a, h') = >>=-eq-ok (append_batch crc32 log pages n) _ h in
      let (blob, hb, a') = >>=-eq-ok (batch_blob crc32 pages n) _ a in
      let (rest, hr, e) = append_all-blobs mid log' r h' in
      let m : mid ≡ log ++ blob = cc in
      (blob ++ rest, rw (hb, hr), e ∙ ap (λ t. t ++ rest) m ∙ append_assoc log blob rest)

  frames-length : (imgs : Images) (bs : Bytes) → frames crc32 imgs ≡ ok bs → length imgs ≤ length bs
  unfolding frames
  frames-length [] bs h = omega arith
  frames-length ((n, img) ∷ r) bs h =
      let (b, hb, h') = >>=-eq-ok (frame crc32 n img) _ h in
      let (bs', hbs, h'') = >>=-eq-ok (frames crc32 r) _ h' in
      let e : bs ≡ b ++ bs' = cc in
      rw e (omega (arith, length-append b bs', frame_pos n img b hb, frames-length r bs' hbs))

  unfoldable pub rounds_count : Commits → ℕ
  rounds_count [] = 0
  rounds_count ((pages, n) ∷ r) = length pages + 1 + rounds_count r

  pub rounds-add : (bs : Commits) (f : ℕ) → rounds bs f ≡ rounds_count bs + f
  unfolding rounds rounds_count
  rounds-add [] f = omega arith
  rounds-add ((pages, n) ∷ r) f = omega (arith, more-add pages (suc (rounds r f)), rounds-add r f)

  pub rounds_count-le :
      (bs : Commits) (all : Bytes)
      → AreBatches bs
      → blobs bs ≡ ok all
      → rounds_count bs ≤ length all
  unfolding blobs rounds_count batch_blob
  rounds_count-le [] all h p = omega arith
  rounds_count-le ((pages, n) ∷ r) all h p =
      let (blob, hb, p') = >>=-eq-ok (batch_blob crc32 pages n) _ p in
      let (rest, hr, p'') = >>=-eq-ok (blobs r) _ p' in
      let (bs, hbs, q) = >>=-eq-ok (frames crc32 (sort_images pages)) _ hb in
      let (c, hc, q') = >>=-eq-ok (commit_frame crc32 n) _ q in
      let sorted : frames crc32 pages ≡ ok bs = rw (sort_images_sorted 0 pages h.0) at hbs in
      let e : all ≡ blob ++ rest = cc in
      let e' : blob ≡ bs ++ c = cc in
      omega (
        arith,
        ap length e,
        ap length e',
        length-append blob rest,
        length-append bs c,
        frames-length pages bs sorted,
        commit_pos n c hc,
        rounds_count-le r rest h.1 hr,
      )
