-- ===== src/Rows.antt =====
-- leafdb/rows.py: the binary row format and the coercion of values to column types. A row is a
-- bitmap of its nulls in four bytes and then the fields that are not null. `nulls |= 1 << i` and
-- `nulls & (1 << i)` are written by division, on a number of any size.
pub mod Bitmap
pub mod RoundTrip
pub mod Coerce
pub mod Total
use leafdb.Prelude.{
  ℕ, zero, suc, ◌+◌, ◌/◌, ◌%◌, ◌^◌, List, [], ◌∷◌, ◌++◌, Bool, true, false, String, ltb, ◌==◌,
  if◌then◌else◌, length, take, drop,
}
use leafdb.Prelude.Int.{ℤ, pos}
use leafdb.Prelude.Errors.{
  Result, ok, err, ◌>>=◌, value_error, type_error, struct_error, attribute_error,
}
use leafdb.Bytes.{Bytes, pack, unpack_from, pack_q, unpack_q}
use leafdb.Value.{Value, Runtime}

pub data ColumnType : Type 0 where
  int float text : ColumnType
  unknown : String → ColumnType

-- nulls & (1 << i), as a truth value
unfoldable pub test_bit : ℕ → ℕ → Bool
test_bit nulls i = nulls / 2 ^ i % 2 == 1

-- nulls | (1 << i)
unfoldable pub set_bit : ℕ → ℕ → ℕ
unfolding test_bit
set_bit nulls i = if test_bit nulls i then nulls else nulls + 2 ^ i

abbrev pub int_of_bool : Bool → ℤ
int_of_bool true = pos 1
int_of_bool false = pos 0

module _ {F : Type 0} (py : Runtime F) where
  pack_text : Bytes → Result Bytes
  pack_text raw =
      if ltb 0xffff (length raw)
      then err value_error
      else do len ← pack 2 (length raw); ok (len ++ raw)

  -- One field that is not null: the ladder on the column type.
  unfoldable pub encode_value : ColumnType → Value F → Result Bytes
  unfolding pack_text
  encode_value ColumnType.int (Value.int z) = pack_q z
  encode_value ColumnType.int (Value.bool b) = pack_q (int_of_bool b)
  encode_value ColumnType.int v = err struct_error
  encode_value ColumnType.float v = py.pack_d v
  encode_value ColumnType.text (Value.text t) = do raw ← py.utf_8 t; pack_text raw
  encode_value ColumnType.text v = err attribute_error
  encode_value (ColumnType.unknown name) v = err value_error

  -- The loop over the columns: the bitmap, and the parts joined.
  unfoldable pub encode_cells : ℕ → List ColumnType → List (Value F) → ℕ → Result (ℕ × Bytes)
  unfolding encode_value
  encode_cells i [] vs nulls = ok (nulls, [])
  encode_cells i (t ∷ ts) [] nulls = ok (nulls, [])
  encode_cells i (t ∷ ts) (Value.null ∷ vs) nulls = encode_cells (suc i) ts vs (set_bit nulls i)
  encode_cells i (t ∷ ts) (v ∷ vs) nulls = do
    part ← encode_value t v
    (nulls', parts) ← encode_cells (suc i) ts vs nulls
    ok (nulls', part ++ parts)

  unfoldable pub encode_row : List ColumnType → List (Value F) → Result Bytes
  unfolding encode_cells set_bit
  encode_row types values =
      if length values == length types
      then (do
        (nulls, parts) ← encode_cells 0 types values 0
        head ← pack 4 nulls
        ok (head ++ parts))
      else err value_error

  -- A field at an offset, and the offset behind it.
  unfoldable pub decode_value : ColumnType → Bytes → ℕ → Result (Value F × ℕ)
  decode_value ColumnType.int buf off = do z ← unpack_q buf off; ok (Value.int z, off + 8)
  decode_value ColumnType.float buf off =
      let raw = take 8 (drop off buf) in
      if length raw == 8 then ok (Value.float (py.unpack_d raw), off + 8) else err struct_error
  decode_value ColumnType.text buf off = do
    n ← unpack_from 2 buf off
    t ← py.of_utf_8 (take n (drop (off + 2) buf))
    ok (Value.text t, off + 2 + n)
  decode_value (ColumnType.unknown name) buf off = err value_error

  unfoldable pub decode_cells : ℕ → Bytes → ℕ → ℕ → List ColumnType → Result (List (Value F))
  unfolding decode_value test_bit
  decode_cells nulls buf i off [] = ok []
  decode_cells nulls buf i off (t ∷ ts) = do
    (v, off') ← (if test_bit nulls i then ok (Value.null, off) else decode_value t buf off)
    rest ← decode_cells nulls buf (suc i) off' ts
    ok (v ∷ rest)

  unfoldable pub decode_row : List ColumnType → Bytes → Result (List (Value F))
  unfolding decode_cells
  decode_row types buf = do nulls ← unpack_from 4 buf 0; decode_cells nulls buf 0 4 types

  unfoldable pub coerce_value : ColumnType → Value F → Result (Value F)
  coerce_value t Value.null = ok Value.null
  coerce_value ColumnType.int (Value.int z) = ok (Value.int z)
  coerce_value ColumnType.int (Value.float x) =
      if py.is_integer x then (do z ← py.int_of x; ok (Value.int z)) else err type_error
  coerce_value ColumnType.int v = err type_error
  coerce_value ColumnType.float (Value.int z) = do x ← py.float_of z; ok (Value.float x)
  -- float(x) of a float is that float
  coerce_value ColumnType.float (Value.float x) = ok (Value.float x)
  coerce_value ColumnType.float v = err type_error
  coerce_value ColumnType.text (Value.text t) = ok (Value.text t)
  coerce_value ColumnType.text v = err type_error
  coerce_value (ColumnType.unknown name) v = err type_error

  -- The comprehension over a row: zip of the column types with the values.
  unfoldable pub coerce_values : List ColumnType → List (Value F) → Result (List (Value F))
  unfolding coerce_value
  coerce_values [] vs = ok []
  coerce_values (t ∷ ts) [] = ok []
  coerce_values (t ∷ ts) (v ∷ vs) = do w ← coerce_value t v; ws ← coerce_values ts vs; ok (w ∷ ws)
