-- ===== src/Rows/RoundTrip.antt =====
-- A row that was encoded is decoded to itself.
use native.Mathlib.Nat.{pow-suc}
use leafdb.Prelude.{
  ℕ, suc, ◌+◌, ◌*◌, ◌/◌, ◌^◌, ◌<◌, ◌≡◌, ◌≢◌, refl, sym, ap, ◌∙◌, inl, inr, List, [], ◌∷◌, ◌++◌,
  arith, ltb, ◌==◌, Bool-cases, length, take, drop, append_assoc, append-nil, take-append,
}
use leafdb.Prelude.Errors.{ok, ◌>>=◌, >>=-eq-ok}
use leafdb.Bytes.{Bytes, be, pack, pack_q}
use leafdb.Bytes.RoundTrip.{unpack_from-be, pack_q-eq-ok, unpack_q-pack_q, drop-past, pack-eq-ok}
use leafdb.Prelude.Int.{ℤ}
use leafdb.Value.{Value, Text, Runtime, CodecLaws}
use leafdb.Rows.{
  ColumnType, pack_text, set_bit, encode_value, encode_cells, encode_row, decode_value,
  decode_cells, decode_row,
}
use leafdb.Rows.Bitmap.{
  set_bit_fresh, div-pow-suc, mask_null, mask_set, set_bit-lt, odd_test, even_test,
}

-- A value that a column of the type holds: its own kind, or a null.
abbrev pub HasType : {F : Type 0} → ColumnType → Value F → Type 0
HasType t Value.null = Unit {0}
HasType ColumnType.int (Value.int z) = Unit {0}
HasType ColumnType.float (Value.float x) = Unit {0}
HasType ColumnType.text (Value.text t) = Unit {0}
HasType t v = ⊥

abbrev pub HaveTypes : {F : Type 0} → List ColumnType → List (Value F) → Type 0
HaveTypes [] [] = Unit {0}
HaveTypes (t ∷ ts) (v ∷ vs) = HasType t v × HaveTypes ts vs
HaveTypes ts vs = ⊥

-- The number that the bitmap stands for.
mask : {F : Type 0} → List (Value F) → ℕ
mask [] = 0
mask (Value.null ∷ vs) = 1 + 2 * mask vs
mask (v ∷ vs) = 2 * mask vs

module _ {F : Type 0} (py : Runtime F) (laws : CodecLaws py) where
  abbrev Reads : ColumnType → Value F → Bytes → Bytes → ℕ → Type 0
  Reads t v buf rest off =
      (off' : ℕ) × (decode_value py t buf off ≡ ok (v, off')) × (drop off' buf ≡ rest)

  read_int :
      (z : ℤ) (buf rest part : Bytes) (off : ℕ)
      → pack_q z ≡ ok part
      → drop off buf ≡ part ++ rest
      → Reads ColumnType.int (Value.int z) buf rest off
  unfolding decode_value
  read_int z buf rest part off p at_off =
      let (fits, e) = pack_q-eq-ok z part p in
      let (r, past) = unpack_q-pack_q z buf off rest fits (at_off ∙ rw e) in (off + 8, rw r, past)

  read_float :
      (x : F) (buf rest part : Bytes) (off : ℕ)
      → py.pack_d (Value.float x) ≡ ok part
      → drop off buf ≡ part ++ rest
      → Reads ColumnType.float (Value.float x) buf rest off
  unfolding decode_value
  read_float x buf rest part off p at_off =
      let l = laws.length_d x part p in
      let w : take 8 (drop off buf) ≡ part = rw at_off (rw (← l) (take-append part rest)) in
      (
        off + 8,
        rw (w, l, laws.unpack_pack_d x part p),
        ap (λ (t : ℕ). drop (off + t) buf) (sym l) ∙ drop-past buf off part rest at_off,
      )

  read_text :
      (t : Text) (raw len buf rest : Bytes) (off : ℕ)
      → py.utf_8 t ≡ ok raw
      → pack 2 (length raw) ≡ ok len
      → drop off buf ≡ (len ++ raw) ++ rest
      → Reads ColumnType.text (Value.text t) buf rest off
  unfolding decode_value
  read_text t raw len buf rest off p q at_off =
      let (small, e) = pack-eq-ok 2 (length raw) len q in
      let (r, past) =
        unpack_from-be 2 (length raw) buf off (raw ++ rest) small
          (at_off ∙ append_assoc len raw rest ∙ ap (λ xs. xs ++ (raw ++ rest)) e) in
      (
        off + 2 + length raw,
        rw (r, past, take-append raw rest, laws.decode_encode t raw p),
        drop-past buf (off + 2) raw rest past,
      )

  pack_text-eq-ok :
      (raw part : Bytes)
      → pack_text py raw ≡ ok part
      → (len : Bytes) × (pack 2 (length raw) ≡ ok len) × (part ≡ len ++ raw)
  unfolding pack_text
  pack_text-eq-ok raw part q = elim (Bool-cases (ltb 0xffff (length raw))) [
    | inl big ↦ absurd (cc (rw big at q))
    | inr small ↦
        let (len, p, e) =
          >>=-eq-ok (pack 2 (length raw)) (λ len. ok (len ++ raw)) (rw small at q) in
        (len, p, cc)
  ]

  decode-encode_value :
      (t : ColumnType) (v : Value F) (buf rest part : Bytes) (off : ℕ)
      → HasType t v
      → v ≢ Value.null
      → encode_value py t v ≡ ok part
      → drop off buf ≡ part ++ rest
      → Reads t v buf rest off
  unfolding encode_value
  decode-encode_value t Value.null buf rest part off h n p at_off = absurd (n refl)
  decode-encode_value ColumnType.int (Value.int z) buf rest part off h n p at_off =
      read_int z buf rest part off p at_off
  decode-encode_value ColumnType.float (Value.float x) buf rest part off h n p at_off =
      read_float x buf rest part off p at_off
  decode-encode_value ColumnType.text (Value.text t) buf rest part off h n p at_off =
      let (raw, p', q) = >>=-eq-ok (py.utf_8 t) (pack_text py) p in
      let (len, q', e) = pack_text-eq-ok raw part q in
      read_text t raw len buf rest off p' q' (at_off ∙ ap (λ xs. xs ++ rest) e)
  decode-encode_value t v buf rest part off h n p at_off = absurd h

  cells_step :
      (i : ℕ) (t : ColumnType) (ts : List ColumnType) (v : Value F) (vs : List (Value F))
      (nulls n : ℕ) (parts : Bytes)
      → v ≢ Value.null
      → encode_cells py i (t ∷ ts) (v ∷ vs) nulls ≡ ok (n, parts)
      → (part tail : Bytes) × (encode_value py t v ≡ ok part)
        × (encode_cells py (suc i) ts vs nulls ≡ ok (n, tail))
        × (parts ≡ part ++ tail)
  unfolding encode_cells
  cells_step i t ts Value.null vs nulls n parts ne p = absurd (ne refl)
  cells_step i t ts v vs nulls n parts ne p =
      let (part, q, p') = >>=-eq-ok (encode_value py t v) _ p in
      let ((n', tail), q', p'') = >>=-eq-ok (encode_cells py (suc i) ts vs nulls) _ p' in
      (part, tail, q, cc, cc)

  bitmap-encode_cells :
      (i : ℕ) (ts : List ColumnType) (vs : List (Value F)) (nulls n : ℕ) (parts : Bytes)
      → HaveTypes ts vs
      → nulls < 2 ^ i
      → encode_cells py i ts vs nulls ≡ ok (n, parts)
      → n ≡ nulls + 2 ^ i * mask vs
  unfolding mask
  bitmap-encode_cells i [] [] nulls n parts h b p = unfold encode_cells in ground arith
  bitmap-encode_cells i [] (v ∷ vs) nulls n parts h b p = elim h [ ]
  bitmap-encode_cells i (t ∷ ts) [] nulls n parts h b p = elim h [ ]
  bitmap-encode_cells i (t ∷ ts) (Value.null ∷ vs) nulls n parts h b p =
      rw (mask_null i (mask vs)) (
        omega (
          arith,
          set_bit_fresh nulls i b,
          bitmap-encode_cells (suc i) ts vs (set_bit nulls i) n parts h.1 (set_bit-lt nulls i b)
              (unfold encode_cells in p),
        ))
  bitmap-encode_cells i (t ∷ ts) (v ∷ vs) nulls n parts h b p =
      let (part, tail, q, q', e) = cells_step i t ts v vs nulls n parts (cc) p in
      rw (mask_set i (mask vs))
        (bitmap-encode_cells (suc i) ts vs nulls n tail h.1 (omega (arith, pow-suc 2 i)) q')

  -- The parts that the loop of `encode_row` leaves are read back by the loop of `decode_row`,
  -- under any bitmap that has the row's bits from `i` on, whatever stands behind them.
  decode-encode_cells :
      (i : ℕ) (ts : List ColumnType) (vs : List (Value F)) (nulls n : ℕ) (parts : Bytes) (bits : ℕ)
      (buf rest : Bytes) (off : ℕ)
      → HaveTypes ts vs
      → encode_cells py i ts vs nulls ≡ ok (n, parts)
      → bits / 2 ^ i ≡ mask vs
      → drop off buf ≡ parts ++ rest
      → decode_cells py bits buf i off ts ≡ ok vs
  unfolding mask decode_cells
  decode-encode_cells i [] [] nulls n parts bits buf rest off h p m at_off = refl
  decode-encode_cells i [] (v ∷ vs) nulls n parts bits buf rest off h p m at_off = elim h [ ]
  decode-encode_cells i (t ∷ ts) [] nulls n parts bits buf rest off h p m at_off = elim h [ ]
  decode-encode_cells i (t ∷ ts) (Value.null ∷ vs) nulls n parts bits buf rest off h p m at_off =
      rw (odd_test (bits / 2 ^ i) (mask vs) m) (
        rw (
          decode-encode_cells (suc i) ts vs (set_bit nulls i) n parts bits buf rest off h.1
            (unfold encode_cells in p) (div-pow-suc bits i ∙ omega arith) at_off))
  decode-encode_cells i (t ∷ ts) (v ∷ vs) nulls n parts bits buf rest off h p m at_off =
      let (part, tail, q, q', e) = cells_step i t ts v vs nulls n parts (cc) p in
      let (off', r, past) =
        decode-encode_value t v buf (tail ++ rest) part off h.0 (cc) q
          (at_off ∙ rw (e, append_assoc)) in
      rw (even_test (bits / 2 ^ i) (mask vs) m, r)
        (rw (
          decode-encode_cells (suc i) ts vs nulls n tail bits buf rest off' h.1 q'
            (div-pow-suc bits i ∙ omega arith) past))

  -- Whatever row of the column types `encode_row` accepts, `decode_row` returns it.
  pub decode_row-encode_row :
      (ts : List ColumnType) (vs : List (Value F)) (buf : Bytes)
      → HaveTypes ts vs
      → encode_row py ts vs ≡ ok buf
      → decode_row py ts buf ≡ ok vs
  unfolding encode_row decode_row
  decode_row-encode_row ts vs buf h p =
      let ((n, parts), q, p') = >>=-eq-ok (encode_cells py 0 ts vs 0) _ (same_length p) in
      let (head, q', p'') = >>=-eq-ok (pack 4 n) _ p' in
      let (small, e) = pack-eq-ok 4 n head q' in
      let b : n ≡ 0 + 2 ^ 0 * mask vs = bitmap-encode_cells 0 ts vs 0 n parts h (omega arith) q in
      let e' : buf ≡ be 4 n ++ parts = cc in
      let (r, past) = unpack_from-be 4 n buf 0 parts small e' in
      rw r (
        decode-encode_cells 0 ts vs 0 n parts n buf [] 4 h q (omega arith)
          (past ∙ sym (append-nil parts)))
    where
      same_length :
          encode_row py ts vs ≡ ok buf
          → (do (nulls, parts) ← encode_cells py 0 ts vs 0; head ← pack 4 nulls; ok (head ++ parts))
            ≡ ok buf
      same_length p = elim (Bool-cases (length vs == length ts)) [
        | inl same ↦ rw same at p
        | inr other ↦ absurd (cc (rw other at p))
      ]
