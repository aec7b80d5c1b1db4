-- ===== src/Rows/Coerce.antt =====
-- What `coerce_value` lets through fits the column, and is stored and read back unchanged.
use leafdb.Prelude.{◌≡◌, refl, List, [], ◌∷◌, arith, inl, inr, Bool-cases, length}
use leafdb.Prelude.Int.{ℤ}
use leafdb.Prelude.Errors.{ok, >>=-eq-ok}
use leafdb.Bytes.{Bytes}
use leafdb.Value.{Value, Runtime, CodecLaws}
use leafdb.Rows.{ColumnType, coerce_value, coerce_values, encode_row, decode_row}
use leafdb.Rows.RoundTrip.{HasType, HaveTypes, decode_row-encode_row}

module _ {F : Type 0} (py : Runtime F) where
  integral-HasType :
      (x : F) (w : Value F)
      → coerce_value py ColumnType.int (Value.float x) ≡ ok w
      → (z : ℤ) × (w ≡ Value.int z)
  unfolding coerce_value
  integral-HasType x w p = elim (Bool-cases (py.is_integer x)) [
    | inl yes_ ↦ let (z, _, e) = >>=-eq-ok (py.int_of x) _ (rw yes_ at p) in (z, cc)
    | inr no_ ↦ absurd (cc (rw no_ at p))
  ]

  ok_injective : (v w : Value F) → ok v ≡ ok w → w ≡ v
  ok_injective v w p = cc

  -- The coerced value is of the column's type, and coercing it again changes nothing.
  pub coerce_value-HasType :
      (t : ColumnType) (v w : Value F)
      → coerce_value py t v ≡ ok w
      → HasType t w × (coerce_value py t w ≡ ok w)
  unfolding coerce_value
  coerce_value-HasType t Value.null w p = rw (ok_injective Value.null w p) (tt, refl)
  coerce_value-HasType ColumnType.int (Value.int z) w p =
      rw (ok_injective (Value.int z) w p) (tt, refl)
  coerce_value-HasType ColumnType.int (Value.float x) w p =
      let (z, e) = integral-HasType x w p in rw e (tt, refl)
  coerce_value-HasType ColumnType.float (Value.int z) w p =
      let (x, _, q) = >>=-eq-ok (py.float_of z) _ p in
      rw (ok_injective (Value.float x) w q) (tt, refl)
  coerce_value-HasType ColumnType.float (Value.float x) w p =
      rw (ok_injective (Value.float x) w p) (tt, refl)
  coerce_value-HasType ColumnType.text (Value.text s) w p =
      rw (ok_injective (Value.text s) w p) (tt, refl)
  coerce_value-HasType ColumnType.int v w p = absurd (cc p)
  coerce_value-HasType ColumnType.float v w p = absurd (cc p)
  coerce_value-HasType ColumnType.text v w p = absurd (cc p)
  coerce_value-HasType (ColumnType.unknown name) v w p = absurd (cc p)

  coerce_values-HaveTypes :
      (ts : List ColumnType) (vs ws : List (Value F))
      → length vs ≡ length ts
      → coerce_values py ts vs ≡ ok ws
      → HaveTypes ts ws
  unfolding coerce_values
  coerce_values-HaveTypes [] [] ws l p = let e : ws ≡ [] = cc in rw e tt
  coerce_values-HaveTypes [] (v ∷ vs) ws l p = absurd (omega arith)
  coerce_values-HaveTypes (t ∷ ts) [] ws l p = absurd (omega arith)
  coerce_values-HaveTypes (t ∷ ts) (v ∷ vs) ws l p =
      let (w, q, p') = >>=-eq-ok (coerce_value py t v) _ p in
      let (ws', q', p'') = >>=-eq-ok (coerce_values py ts vs) _ p' in
      let e : ws ≡ w ∷ ws' = cc in
      rw e ((coerce_value-HasType t v w q).0, coerce_values-HaveTypes ts vs ws' (omega arith) q')

  -- INSERT and UPDATE coerce a row, encode it and store the bytes: decoding them gives the
  -- coerced row.
  pub decode_row-coerce_values :
      CodecLaws py
      → (ts : List ColumnType) (vs ws : List (Value F)) (buf : Bytes) → length vs ≡ length ts
      → coerce_values py ts vs ≡ ok ws
      → encode_row py ts ws ≡ ok buf
      → decode_row py ts buf ≡ ok ws
  decode_row-coerce_values laws ts vs ws buf l p q =
      decode_row-encode_row py laws ts ws buf (coerce_values-HaveTypes ts vs ws l p) q
