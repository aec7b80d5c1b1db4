-- ===== src/Rows/Total.antt =====
-- When `encode_row` accepts a row, and how long the bytes are.
use native.Mathlib.Nat.{pow-suc, pow-le-pow_right, le_trans}
use leafdb.Prelude.{
  ℕ, suc, ◌+◌, ◌^◌, ◌<◌, ◌≤◌, ◌≡◌, refl, ap, List, [], ◌∷◌, ◌++◌, arith, true, length, ◌==◌, lt→ltb,
}
use leafdb.Prelude.Errors.{ok}
use leafdb.Bytes.{Bytes, be, pack, pack_q, fits_64, word_64}
use leafdb.Value.{Value, Runtime}
use leafdb.Rows.{ColumnType, encode_value, encode_cells, encode_row, set_bit}
use leafdb.Rows.Bitmap.{set_bit-lt}

shift : (i n : ℕ) → 2 ^ (i + suc n) ≡ 2 ^ (suc i + n)
shift i n = ap (λ (k : ℕ). 2 ^ k) (omega arith)

module _ {F : Type 0} (py : Runtime F) where
  -- A value that the column's field can hold: an int in 64 bits, a float, a text of at most
  -- 65535 bytes, or a null.
  abbrev pub Storable : ColumnType → Value F → Type 0
  Storable t Value.null = Unit {0}
  Storable ColumnType.int (Value.int z) = fits_64 z ≡ true
  Storable ColumnType.float (Value.float x) = (b : Bytes) × (py.pack_d (Value.float x) ≡ ok b)
  Storable ColumnType.text (Value.text t) = (b : Bytes) × (py.utf_8 t ≡ ok b) × (length b ≤ 65535)
  Storable t v = ⊥

  abbrev pub StorableRow : List ColumnType → List (Value F) → Type 0
  StorableRow [] [] = Unit {0}
  StorableRow (t ∷ ts) (v ∷ vs) = Storable t v × StorableRow ts vs
  StorableRow ts vs = ⊥

  StorableRow-length :
      (ts : List ColumnType) (vs : List (Value F))
      → StorableRow ts vs
      → (length vs == length ts) ≡ true
  StorableRow-length [] [] h = refl
  StorableRow-length [] (v ∷ vs) h = absurd h
  StorableRow-length (t ∷ ts) [] h = absurd h
  StorableRow-length (t ∷ ts) (v ∷ vs) h = ground (arith, StorableRow-length ts vs h.1)

  encode_value_total :
      (t : ColumnType) (v : Value F)
      → Storable t v
      → ¬ (v ≡ Value.null)
      → (part : Bytes) × (encode_value py t v ≡ ok part)
  unfolding encode_value pack_q pack
  encode_value_total t Value.null h n = absurd (n refl)
  encode_value_total ColumnType.int (Value.int z) h n = (be 8 (word_64 z), rw h)
  encode_value_total ColumnType.float (Value.float x) h n = h
  encode_value_total ColumnType.text (Value.text t) (raw, p, small) n =
      (be 2 (length raw) ++ raw, rw p (ground arith))
  encode_value_total ColumnType.int v h n = absurd h
  encode_value_total ColumnType.float v h n = absurd h
  encode_value_total ColumnType.text v h n = absurd h
  encode_value_total (ColumnType.unknown name) v h n = absurd h

  encode_cells_total :
      (i : ℕ) (ts : List ColumnType) (vs : List (Value F)) (nulls : ℕ)
      → StorableRow ts vs
      → nulls < 2 ^ i
      → (n : ℕ) × (parts : Bytes) × (encode_cells py i ts vs nulls ≡ ok (n, parts))
        × (n < 2 ^ (i + length ts))
  unfolding encode_cells
  encode_cells_total i [] [] nulls h b =
      (nulls, [], refl, (let e : i + 0 ≡ i = omega arith in rw e b))
  encode_cells_total i [] (v ∷ vs) nulls h b = absurd h
  encode_cells_total i (t ∷ ts) [] nulls h b = absurd h
  encode_cells_total i (t ∷ ts) (Value.null ∷ vs) nulls h b =
      let (n, parts, p, l) =
        encode_cells_total (suc i) ts vs (set_bit nulls i) h.1 (set_bit-lt nulls i b) in
      (n, parts, p, rw (shift i (length ts)) l)
  encode_cells_total i (t ∷ ts) (v ∷ vs) nulls h b =
      let (part, q) = encode_value_total t v h.0 (λ e. cc) in
      let (n, parts, p, l) =
        encode_cells_total (suc i) ts vs nulls h.1 (omega (arith, pow-suc 2 i)) in
      (n, part ++ parts, rw (q, p), rw (shift i (length ts)) l)

  -- A row of storable values with at most 32 columns is encoded: no exception is raised.
  pub encode_row_total :
      (ts : List ColumnType) (vs : List (Value F))
      → StorableRow ts vs
      → length ts ≤ 32
      → (buf : Bytes) × (encode_row py ts vs ≡ ok buf)
  unfolding encode_row pack
  encode_row_total ts vs h l =
      let (n, parts, p, b) = encode_cells_total 0 ts vs 0 h (omega arith) in
      let e : (length vs == length ts) ≡ true = StorableRow-length ts vs h in
      let small : n < 256 ^ 4 =
        le_trans b
          (pow-le-pow_right {n = 2} (omega arith) {i = 0 + length ts} {j = 32} (omega arith)) in
      (be 4 n ++ parts, rw (e, p, lt→ltb n (256 ^ 4) small))
