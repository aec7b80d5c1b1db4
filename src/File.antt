-- ===== src/File.antt =====
-- A file of the operating system, as the program sees it: its size and its bytes. Writing behind
-- the end fills the gap with zeros; reading stops at the end.
pub mod Windows
use leafdb.Prelude.{
  ℕ, zero, suc, ◌+◌, ◌-◌, ◌<◌, ◌≡◌, refl, [], ◌∷◌, ◌&&◌, ltb, leb, if◌then◌else◌, length, max, min,
  arith,
}
use leafdb.Bytes.{Bytes}

pub record File : Type 0 where
  pub size : ℕ
  pub byte : ℕ → ℕ

abbrev pub get_or : Bytes → ℕ → ℕ → ℕ
get_or [] i d = d
get_or (b ∷ bs) zero d = b
get_or (b ∷ bs) (suc i) d = get_or bs i d

-- What stands at a position: zero from the end on.
abbrev pub byte_at : File → ℕ → ℕ
byte_at f i = if ltb i f.size then f.byte i else 0

-- f.seek(off); f.write(data)
unfoldable pub write_at : ℕ → Bytes → File → File
write_at off [] f = f
write_at off (b ∷ bs) f = record {
  size = max f.size (off + length (b ∷ bs));
  byte = λ i.
      if leb off i && ltb i (off + length (b ∷ bs))
      then get_or (b ∷ bs) (i - off) 0
      else byte_at f i;
}

unfoldable pub tabulate : ℕ → ℕ → (ℕ → ℕ) → Bytes
tabulate zero off f = []
tabulate (suc n) off f = f off ∷ tabulate n (off + 1) f

-- f.seek(off); f.read(n)
unfoldable pub read_at : ℕ → ℕ → File → Bytes
unfolding tabulate
read_at off n f = tabulate (min n (f.size - off)) off f.byte

pub byte_at-write_at :
    (off i : ℕ) (bs : Bytes) (f : File)
    → byte_at (write_at off bs f) i
      ≡ (if leb off i && ltb i (off + length bs) then get_or bs (i - off) 0 else byte_at f i)
unfolding write_at
byte_at-write_at off i [] f = ground arith
byte_at-write_at off i (b ∷ bs) f = ground arith

pub size-write_at :
    (off : ℕ) (bs : Bytes) (f : File)
    → 0 < length bs
    → (write_at off bs f).size ≡ max f.size (off + length bs)
unfolding write_at
size-write_at off [] f h = absurd (omega arith)
size-write_at off (b ∷ bs) f h = refl
