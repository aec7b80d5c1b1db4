-- ===== src/Bytes.antt =====
-- The formats of Python's `struct` that the program uses (leafdb/rows.py, leafdb/btree.py,
-- leafdb/wal.py): big-endian `>B`, `>H`, `>I` and `>q`. A byte string is a list of numbers;
-- `unpack_from` reads at an offset and raises when the buffer is too short.
pub mod RoundTrip
use leafdb.Prelude.{
  ℕ, zero, suc, ◌+◌, ◌-◌, ◌*◌, ◌/◌, ◌%◌, ◌^◌, ◌<◌, List, [], ◌∷◌, ◌++◌, Bool, true, false, ltb, leb,
  ◌==◌, if◌then◌else◌, length, take, drop,
}
use leafdb.Prelude.Int.{ℤ, pos, negsuc}
use leafdb.Prelude.Errors.{Result, ok, err, struct_error, ◌>>=◌}

abbrev pub Bytes : Type 0
Bytes = List ℕ

-- The `w` lowest bytes of a number, the highest first.
unfoldable pub be : ℕ → ℕ → Bytes
be zero v = []
be (suc w) v = be w (v / 256) ++ (v % 256) ∷ []

-- The number that a big-endian byte string stands for.
unfoldable pub un_be_from : ℕ → Bytes → ℕ
un_be_from acc [] = acc
un_be_from acc (b ∷ bs) = un_be_from (acc * 256 + b) bs

-- struct.pack of an unsigned field of `w` bytes.
unfoldable pub pack : ℕ → ℕ → Result Bytes
pack w v = if ltb v (256 ^ w) then ok (be w v) else err struct_error

-- struct.unpack_from of an unsigned field of `w` bytes at an offset.
unfoldable pub unpack_from : ℕ → Bytes → ℕ → Result ℕ
unpack_from w buf off =
    let s = take w (drop off buf) in if length s == w then ok (un_be_from 0 s) else err struct_error

-- ">q": 8 bytes, two's complement.
abbrev pub fits_64 : ℤ → Bool
fits_64 (pos n) = ltb n (2 ^ 63)
fits_64 (negsuc n) = ltb n (2 ^ 63)

abbrev pub word_64 : ℤ → ℕ
word_64 (pos n) = n
word_64 (negsuc n) = 2 ^ 64 - n - 1

unfoldable pub pack_q : ℤ → Result Bytes
pack_q z = if fits_64 z then ok (be 8 (word_64 z)) else err struct_error

abbrev pub signed_64 : ℕ → ℤ
signed_64 w = if ltb w (2 ^ 63) then pos w else negsuc (2 ^ 64 - w - 1)

unfoldable pub unpack_q : Bytes → ℕ → Result ℤ
unpack_q buf off = do w ← unpack_from 8 buf off; ok (signed_64 w)

unfoldable pub eq_bytes : Bytes → Bytes → Bool
eq_bytes [] [] = true
eq_bytes (b ∷ bs) (c ∷ cs) = if b == c then eq_bytes bs cs else false
eq_bytes bs cs = false
