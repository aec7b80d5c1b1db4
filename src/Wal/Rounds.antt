-- ===== src/Wal/Rounds.antt =====
-- The rounds of the loop of `read_batches_from`: an image, a commit record, a frame cut short, and
-- the images of a batch.
use leafdb.Prelude.{
  ℕ, suc, ◌+◌, ◌<◌, ◌≡◌, refl, sym, ap, ◌∙◌, List, [], ◌∷◌, ◌++◌, false, some, ◌==◌, length, take,
  drop, arith, length-append, append_assoc, append-nil,
}
use leafdb.Prelude.Errors.{Result, ok, ◌>>=◌, >>=-eq-ok}
use leafdb.Bytes.{Bytes, be, pack}
use leafdb.Bytes.RoundTrip.{length-be, unpack_from-be, pack-eq-ok}
use leafdb.Wal.{
  Images, Batch, commit_page, frame, commit_frame, frames, unpack_count, read_round, read_loop,
  put_image,
}
use leafdb.Wal.Frames.{frame-IsFrame, next_frame-IsFrame, next_frame-cut}
use leafdb.Wal.Batches.{IsBatch, IsBelow, IsBelow-append, put_image_new}

unpack_count-pack : (n : ℕ) (b : Bytes) → pack 4 n ≡ ok b → unpack_count b ≡ ok n
unfolding unpack_count
unpack_count-pack n b h =
    let (small, e) = pack-eq-ok 4 n b h in
    rw e (rw (length-be 4 n) (unpack_from-be 4 n (be 4 n) 0 [] small (sym (append-nil (be 4 n)))).0)

module _ (base : ℕ) (batch : Images) (on_commit : ℕ → Result (List Batch))
    (on_page : ℕ → Bytes → ℕ → Result (List Batch)) where
  round_page :
      (n stop : ℕ) (img : Bytes)
      → n < commit_page
      → read_round base batch on_commit on_page (some (n, img, stop)) ≡ on_page n img stop
  unfolding read_round
  round_page n stop img lt = let e : (n == commit_page) ≡ false = ground arith in rw (e, read_round)

  round_commit :
      (n stop : ℕ) (c : Bytes)
      → pack 4 n ≡ ok c
      → read_round base batch on_commit on_page (some (commit_page, c, stop)) ≡ (do
        rest ← on_commit stop
        ok (record { new_offset = base + stop; images = batch; num_pages = n } ∷ rest))
  unfolding read_round
  round_commit n stop c h = rw (unpack_count-pack n c h)

-- The fuel for some frames and what follows.
abbrev pub more : Images → ℕ → ℕ
more [] f = f
more (p ∷ r) f = suc (more r f)

pub more-add : (imgs : Images) (f : ℕ) → more imgs f ≡ length imgs + f
more-add [] f = omega arith
more-add (p ∷ r) f = omega (arith, more-add r f)

module _ (crc32 : Bytes → ℕ) where
  abbrev goes_on : ℕ → Bytes → ℕ → ℕ → Result (List Batch)
  goes_on fuel data_ base stop = read_loop crc32 fuel data_ base stop []

  abbrev grows : ℕ → Bytes → ℕ → Images → ℕ → Bytes → ℕ → Result (List Batch)
  grows fuel data_ base batch page_no payload stop =
      read_loop crc32 fuel data_ base stop (put_image page_no payload batch)

  -- One round of the loop: an image, a commit record, a frame that is cut short.
  pub step_page :
      (n : ℕ) (img b data_ rest : Bytes) (fuel base pos : ℕ) (batch : Images)
      → frame crc32 n img ≡ ok b
      → n < commit_page
      → drop pos data_ ≡ b ++ rest
      → (read_loop crc32 (suc fuel) data_ base pos batch
          ≡ read_loop crc32 fuel data_ base (pos + length b) (put_image n img batch))
        × (drop (pos + length b) data_ ≡ rest)
  unfolding read_loop
  step_page n img b data_ rest fuel base pos batch h lt at_pos =
      let (r, d) =
        next_frame-IsFrame crc32 n img b data_ rest pos (frame-IsFrame crc32 n img b h) at_pos in
      (
        rw r (
            round_page base batch (goes_on fuel data_ base) (grows fuel data_ base batch) n
              (pos + length b) img lt),
        d,
      )

  pub step_commit :
      (n : ℕ) (b data_ rest : Bytes) (fuel base pos : ℕ) (batch : Images)
      → commit_frame crc32 n ≡ ok b
      → drop pos data_ ≡ b ++ rest
      → (read_loop crc32 (suc fuel) data_ base pos batch ≡ (do
        batches ← read_loop crc32 fuel data_ base (pos + length b) []
        ok (
            record { new_offset = base + (pos + length b); images = batch; num_pages = n }
            ∷ batches)))
        × (drop (pos + length b) data_ ≡ rest)
  unfolding read_loop commit_frame
  step_commit n b data_ rest fuel base pos batch h at_pos =
      let (c, hc, h') = >>=-eq-ok (pack 4 n) _ h in
      let (r, d) =
        next_frame-IsFrame crc32 commit_page c b data_ rest pos
          (frame-IsFrame crc32 commit_page c b h') at_pos in
      (
        rw r (
            round_commit base batch (goes_on fuel data_ base) (grows fuel data_ base batch) n
              (pos + length b) c hc),
        d,
      )

  pub step_cut :
      (n : ℕ) (img b data_ : Bytes) (k fuel base pos : ℕ) (batch : Images)
      → frame crc32 n img ≡ ok b
      → drop pos data_ ≡ take k b
      → k < length b
      → read_loop crc32 (suc fuel) data_ base pos batch ≡ ok []
  unfolding read_loop read_round
  step_cut n img b data_ k fuel base pos batch h at_pos cut =
      rw (next_frame-cut crc32 n img b data_ pos k (frame-IsFrame crc32 n img b h) at_pos cut)

  -- The page frames of a batch, read into the dict.
  pub read_pages :
      (lo : ℕ) (imgs acc : Images) (bs data_ rest : Bytes) (fuel base pos : ℕ)
      → IsBelow lo acc
      → IsBatch lo imgs
      → frames crc32 imgs ≡ ok bs
      → drop pos data_ ≡ bs ++ rest
      → (read_loop crc32 (more imgs fuel) data_ base pos acc
          ≡ read_loop crc32 fuel data_ base (pos + length bs) (acc ++ imgs))
        × (drop (pos + length bs) data_ ≡ rest)
  unfolding frames
  read_pages lo [] acc bs data_ rest fuel base pos below h p at_pos =
      let e : bs ≡ [] = cc in
      let z : pos + 0 ≡ pos = omega arith in
      rw (e, z, append-nil) (refl, at_pos ∙ ap (λ t. t ++ rest) e)
  read_pages lo ((n, img) ∷ r) acc bs data_ rest fuel base pos below h p at_pos =
      let (b, hb, p') = >>=-eq-ok (frame crc32 n img) _ p in
      let (bs', hbs, p'') = >>=-eq-ok (frames crc32 r) _ p' in
      let e : bs ≡ b ++ bs' = cc in
      let (s, d) =
        step_page n img b data_ (bs' ++ rest) (more r fuel) base pos acc hb h.1
          (at_pos ∙ rw e (append_assoc b bs' rest)) in
      let (under, above) = IsBelow-append lo n img acc h.0 below in
      let (t, d') =
        read_pages (suc n) r (acc ++ (n, img) ∷ []) bs' data_ rest fuel base (pos + length b) above
          h.2 hbs d in
      let l : pos + length bs ≡ pos + length b + length bs' =
        rw e (omega (arith, length-append b bs')) in
      rw (l, s, put_image_new n img acc under) (t ∙ rw append_assoc, d')
