-- ===== src/Wal/Frames.antt =====
-- One frame of the log: what `_frame` writes, the loops read, and a frame that is cut short they
-- do not.
use leafdb.Prelude.{
  ℕ, ◌+◌, ◌-◌, ◌%◌, ◌^◌, ◌<◌, ◌≤◌, ◌≡◌, refl, ap, ◌∙◌, [], ◌∷◌, ◌++◌, true, false, none, some, inl,
  inr, Bool-cases, ltb, leb, ◌==◌, ==_refl, le→leb, lt→ltb, take-append_past, if◌then◌else◌, length,
  take, drop, arith, length-append, length-drop, length-take, take-append, append_assoc,
}
use mathlib.Core.Path.{ap₂}
use leafdb.Prelude.Errors.{ok, >>=-eq-ok}
use leafdb.Bytes.{Bytes, be, pack, unpack_from, eq_bytes}
use leafdb.Bytes.RoundTrip.{length-be, unpack_from-be, pack-eq-ok, drop-past}
use leafdb.Wal.{magic, frame, next_frame}

leb→le : (a b : ℕ) → leb a b ≡ true → a ≤ b
leb→le a b h = ground arith

leb→lt : (a b : ℕ) → leb a b ≡ false → b < a
leb→lt a b h = ground arith

not_ltb : (a b : ℕ) → a ≤ b → ltb b a ≡ false
not_ltb a b h = ground arith

not_leb : (a b : ℕ) → b < a → leb a b ≡ false
not_leb a b h = ground arith

eq_bytes_refl : (bs : Bytes) → eq_bytes bs bs ≡ true
unfolding eq_bytes
eq_bytes_refl [] = refl
eq_bytes_refl (b ∷ bs) = rw (==_refl b, eq_bytes_refl bs)

module _ (crc32 : Bytes → ℕ) where
  -- The bytes of a frame, with its fields in range.
  pub record IsFrame (n : ℕ) (img b : Bytes) : Type 0 where
    small_page : n < 256 ^ 4
    small_length : length img < 256 ^ 4
    bytes : b ≡ magic ++ (be 4 n ++ (be 4 (length img) ++ (be 4 (crc32 img % 2 ^ 32) ++ img)))

  pub frame-IsFrame : (n : ℕ) (img b : Bytes) → frame crc32 n img ≡ ok b → IsFrame n img b
  unfolding frame
  frame-IsFrame n img b h =
      let (p, hp, h₁) = >>=-eq-ok (pack 4 n) _ h in
      let (l, hl, h₂) = >>=-eq-ok (pack 4 (length img)) _ h₁ in
      let (c, hc, h₃) = >>=-eq-ok (pack 4 (crc32 img % 2 ^ 32)) _ h₂ in
      let (sp, ep) = pack-eq-ok 4 n p hp in
      let (sl, el) = pack-eq-ok 4 (length img) l hl in
      let (sc, ec) = pack-eq-ok 4 (crc32 img % 2 ^ 32) c hc in
      record { small_page = sp; small_length = sl; bytes = cc }

  pub IsFrame-length : (n : ℕ) (img b : Bytes) → IsFrame n img b → length b ≡ 16 + length img
  IsFrame-length n img b h = rw h.bytes (
      omega (
        arith,
        length-append (be 4 n) (be 4 (length img) ++ (be 4 (crc32 img % 2 ^ 32) ++ img)),
        length-append (be 4 (length img)) (be 4 (crc32 img % 2 ^ 32) ++ img),
        length-append (be 4 (crc32 img % 2 ^ 32)) img,
        length-be 4 n,
        length-be 4 (length img),
        length-be 4 (crc32 img % 2 ^ 32),
      ))

  -- A position of the log at which a frame's sixteen bytes of header stand, with `tail` behind.
  module _ (n l c : ℕ) (data_ tail : Bytes) (pos : ℕ) (small_page : n < 256 ^ 4)
      (small_length : l < 256 ^ 4) (small_crc : c < 256 ^ 4)
      (at_pos : drop pos data_ ≡ magic ++ (be 4 n ++ (be 4 l ++ (be 4 c ++ tail)))) where
    fields :
        (unpack_from 4 data_ (pos + 4) ≡ ok n)
        × (unpack_from 4 data_ (pos + 4 + 4) ≡ ok l)
        × (unpack_from 4 data_ (pos + 4 + 4 + 4) ≡ ok c)
        × (drop (pos + 4 + 4 + 4 + 4) data_ ≡ tail)
    fields =
        let (r₁, d₁) =
          unpack_from-be 4 n data_ (pos + 4) (be 4 l ++ (be 4 c ++ tail)) small_page
            (drop-past data_ pos magic (be 4 n ++ (be 4 l ++ (be 4 c ++ tail))) at_pos) in
        let (r₂, d₂) = unpack_from-be 4 l data_ (pos + 4 + 4) (be 4 c ++ tail) small_length d₁ in
        let (r₃, d₃) = unpack_from-be 4 c data_ (pos + 4 + 4 + 4) tail small_crc d₂ in
        (r₁, r₂, r₃, d₃)

    room : length data_ ≡ pos + 16 + length tail
    room = omega (
      arith,
      length-drop pos data_,
      ap length at_pos,
      length-append (be 4 n) (be 4 l ++ (be 4 c ++ tail)),
      length-append (be 4 l) (be 4 c ++ tail),
      length-append (be 4 c) tail,
      length-be 4 n,
      length-be 4 l,
      length-be 4 c,
    )

    starts : eq_bytes (take 4 (drop pos data_)) magic ≡ true
    unfolding eq_bytes
    starts = rw at_pos refl

    next_frame-header :
        next_frame crc32 data_ pos
        ≡ ok (
            if ltb (length tail) l
            then none
            else if crc32 (take l tail) % 2 ^ 32 == c
            then some (n, take l tail, pos + 4 + 4 + 4 + 4 + l)
            else none)
    unfolding next_frame
    next_frame-header =
        let e : leb (pos + 16) (length data_) ≡ true =
          le→leb (pos + 16) (length data_) (omega (arith, room)) in
        let e' : ltb (length data_) (pos + 4 + 4 + 4 + 4 + l) ≡ ltb (length tail) l =
          rw room (ground arith) in
        rw (e, fields.0, fields.1, fields.2, fields.3, starts, e')

  -- A whole frame is read, and the position behind it.
  pub next_frame-IsFrame :
      (n : ℕ) (img b data_ rest : Bytes) (pos : ℕ)
      → IsFrame n img b
      → drop pos data_ ≡ b ++ rest
      → (next_frame crc32 data_ pos ≡ ok (some (n, img, pos + length b)))
        × (drop (pos + length b) data_ ≡ rest)
  next_frame-IsFrame n img b data_ rest pos h at_pos =
      let c = crc32 img % 2 ^ 32 in
      let at : drop pos data_
          ≡ magic ++ (be 4 n ++ (be 4 (length img) ++ (be 4 c ++ (img ++ rest)))) =
        at_pos ∙ rw (h.bytes) (simp append_assoc) in
      let small : c < 256 ^ 4 = omega arith in
      let e =
        next_frame-header n (length img) c data_ (img ++ rest) pos h.small_page h.small_length small
          at in
      let f : pos + 4 + 4 + 4 + 4 + length img ≡ pos + length b =
        omega (arith, IsFrame-length n img b h) in
      let fits : ltb (length (img ++ rest)) (length img) ≡ false =
        not_ltb (length img) (length (img ++ rest)) (omega (arith, length-append img rest)) in
      (
        e ∙ rw (fits, take-append img rest, ==_refl c, f),
        rw (← f) (
            drop-past data_ (pos + 4 + 4 + 4 + 4) img rest
              (fields n (length img) c data_ (img ++ rest) pos h.small_page h.small_length small
                at).3),
      )

  cut_header :
      (data_ : Bytes) (pos : ℕ) → length data_ - pos < 16 → next_frame crc32 data_ pos ≡ ok none
  unfolding next_frame
  cut_header data_ pos h = rw (not_leb (pos + 16) (length data_) (omega arith))

  abbrev header_bytes : ℕ → Bytes → Bytes
  header_bytes n img = magic ++ (be 4 n ++ (be 4 (length img) ++ be 4 (crc32 img % 2 ^ 32)))

  length-header_bytes : (n : ℕ) (img : Bytes) → length (header_bytes n img) ≡ 16
  length-header_bytes n img = omega (
    arith,
    length-append (be 4 n) (be 4 (length img) ++ be 4 (crc32 img % 2 ^ 32)),
    length-append (be 4 (length img)) (be 4 (crc32 img % 2 ^ 32)),
    length-be 4 n,
    length-be 4 (length img),
    length-be 4 (crc32 img % 2 ^ 32),
  )

  IsFrame-split : (n : ℕ) (img b : Bytes) → IsFrame n img b → b ≡ header_bytes n img ++ img
  IsFrame-split n img b h = h.bytes ∙ simp append_assoc

  cut_payload :
      (n : ℕ) (img b data_ : Bytes) (pos m : ℕ)
      → IsFrame n img b
      → drop pos data_ ≡ header_bytes n img ++ take m img
      → m < length img
      → next_frame crc32 data_ pos ≡ ok none
  cut_payload n img b data_ pos m h at_pos short =
      let c = crc32 img % 2 ^ 32 in
      let fits : ltb (length (take m img)) (length img) ≡ true =
        lt→ltb _ _ (omega (arith, length-take m img)) in
      next_frame-header n (length img) c data_ (take m img) pos h.small_page h.small_length
        (omega arith) (at_pos ∙ simp append_assoc)
      ∙ rw fits

  -- A frame that is cut short is not read.
  pub next_frame-cut :
      (n : ℕ) (img b data_ : Bytes) (pos k : ℕ)
      → IsFrame n img b
      → drop pos data_ ≡ take k b
      → k < length b
      → next_frame crc32 data_ pos ≡ ok none
  next_frame-cut n img b data_ pos k h at_pos cut = elim (Bool-cases (leb 16 k)) [
    | inl long ↦
        let past : 16 ≤ k = leb→le 16 k long in
        cut_payload n img b data_ pos (k - 16) h
          (at_pos
            ∙ ap₂ take {x = k} {y = length (header_bytes n img) + (k - 16)}
                (omega (arith, length-header_bytes n img)) (IsFrame-split n img b h)
            ∙ take-append_past (header_bytes n img) img (k - 16))
          (omega (arith, IsFrame-length n img b h))
    | inr short ↦
        let before : k < 16 = leb→lt 16 k short in
        cut_header data_ pos
          (omega (arith, length-drop pos data_, ap length at_pos, length-take k b))
  ]
