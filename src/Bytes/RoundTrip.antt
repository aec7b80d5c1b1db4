-- ===== src/Bytes/RoundTrip.antt =====
-- What `struct` packs it unpacks: lemmas about `Bytes` at an offset with a rest behind.
use native.Mathlib.Nat.{pow-suc}
use leafdb.Prelude.{
  ℕ, zero, suc, ◌+◌, ◌*◌, ◌/◌, ◌%◌, ◌^◌, ◌<◌, ◌≡◌, refl, sym, ap, ◌∙◌, [], ◌∷◌, ◌++◌, true, arith,
  ltb, ==_refl, Bool-cases, inl, inr, length, drop, length-append, take-append, drop-append,
  drop-add,
}
use leafdb.Prelude.Int.{ℤ, pos, negsuc}
use leafdb.Prelude.Errors.{ok}
use leafdb.Bytes.{
  Bytes, be, un_be_from, pack, unpack_from, pack_q, unpack_q, signed_64, fits_64, word_64,
}

pub length-be : (w v : ℕ) → length (be w v) ≡ w
unfolding be
length-be zero v = refl
length-be (suc w) v =
    omega (arith, length-append (be w (v / 256)) ((v % 256) ∷ []), length-be w (v / 256))

un_be-append :
    (acc : ℕ) (xs ys : Bytes) → un_be_from acc (xs ++ ys) ≡ un_be_from (un_be_from acc xs) ys
unfolding un_be_from
un_be-append acc [] ys = refl
un_be-append acc (x ∷ xs) ys = un_be-append (acc * 256 + x) xs ys

pub un_be-be : (w v : ℕ) → v < 256 ^ w → un_be_from 0 (be w v) ≡ v
unfolding be un_be_from
un_be-be zero v h = omega arith
un_be-be (suc w) v h =
    un_be-append 0 (be w (v / 256)) ((v % 256) ∷ [])
    ∙ ap (λ (t : ℕ). t * 256 + v % 256) (un_be-be w (v / 256) (omega (arith, pow-suc 256 w)))
    ∙ omega arith

-- The window of a buffer where a field stands.
module _ (buf : Bytes) (off : ℕ) (xs rest : Bytes) (at_off : drop off buf ≡ xs ++ rest) where
  pub drop-past : drop (off + length xs) buf ≡ rest
  drop-past = drop-add off (length xs) buf ∙ rw at_off (drop-append xs rest)

  pub unpack_from-window :
      (w v : ℕ) → length xs ≡ w → un_be_from 0 xs ≡ v → unpack_from w buf off ≡ ok v
  unfolding unpack_from
  unpack_from-window w v l e =
      rw (← l) (rw at_off (rw (take-append xs rest, ==_refl (length xs), e)))

pub unpack_from-be :
    (w v : ℕ) (buf : Bytes) (off : ℕ) (rest : Bytes)
    → v < 256 ^ w
    → drop off buf ≡ be w v ++ rest
    → (unpack_from w buf off ≡ ok v) × (drop (off + w) buf ≡ rest)
unpack_from-be w v buf off rest h at_off = (
  unpack_from-window buf off (be w v) rest at_off w v (length-be w v) (un_be-be w v h),
  ap (λ (t : ℕ). drop (off + t) buf) (sym (length-be w v)) ∙ drop-past buf off (be w v) rest at_off,
)

word_64-lt : (z : ℤ) → fits_64 z ≡ true → word_64 z < 256 ^ 8
word_64-lt (pos n) h = ground arith
word_64-lt (negsuc n) h = ground arith

signed_64-word_64 : (z : ℤ) → fits_64 z ≡ true → signed_64 (word_64 z) ≡ z
signed_64-word_64 (pos n) h = rw h
signed_64-word_64 (negsuc n) h = ground arith

-- What is packed lies in range, and is the two's complement of the integer.
pub pack_q-eq-ok :
    (z : ℤ) (xs : Bytes) → pack_q z ≡ ok xs → (fits_64 z ≡ true) × (xs ≡ be 8 (word_64 z))
unfolding pack_q
pack_q-eq-ok z xs p = elim (Bool-cases (fits_64 z)) [
  | inl h ↦ (h, cc (rw h at p))
  | inr h ↦ absurd (cc (rw h at p))
]

-- A 64-bit field that was packed is read back, whatever stands behind it.
pub unpack_q-pack_q :
    (z : ℤ) (buf : Bytes) (off : ℕ) (rest : Bytes)
    → fits_64 z ≡ true
    → drop off buf ≡ be 8 (word_64 z) ++ rest
    → (unpack_q buf off ≡ ok z) × (drop (off + 8) buf ≡ rest)
unfolding unpack_q
unpack_q-pack_q z buf off rest h at_off =
    let (r, past) = unpack_from-be 8 (word_64 z) buf off rest (word_64-lt z h) at_off in
    (rw r (ap ok (signed_64-word_64 z h)), past)

pub pack-eq-ok : (w v : ℕ) (xs : Bytes) → pack w v ≡ ok xs → (v < 256 ^ w) × (xs ≡ be w v)
unfolding pack
pack-eq-ok w v xs p = elim (Bool-cases (ltb v (256 ^ w))) [
  | inl h ↦ (ground arith, cc (rw h at p))
  | inr h ↦ absurd (cc (rw h at p))
]
