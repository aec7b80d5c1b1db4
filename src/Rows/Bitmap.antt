-- ===== src/Rows/Bitmap.antt =====
-- The bitmap of nulls: the loop that sets bits, against the number it stands for.
use native.Mathlib.Nat.{pow-suc, div-div-eq-div-mul, add-mul-div_left, div-eq_of_lt, one-le-pow}
use leafdb.Prelude.{
  ℕ, suc, ◌+◌, ◌*◌, ◌/◌, ◌%◌, ◌^◌, ◌<◌, ◌≡◌, sym, ap, ◌∙◌, true, false, arith, ◌==◌,
}
use leafdb.Rows.{set_bit}

pub pow-pos : (i : ℕ) → 0 < 2 ^ i
pow-pos i = one-le-pow i 2 (omega arith)

-- A bitmap whose bits from `i` on are clear gets bit `i`.
pub set_bit_fresh : (nulls i : ℕ) → nulls < 2 ^ i → set_bit nulls i ≡ nulls + 2 ^ i
unfolding set_bit
set_bit_fresh nulls i h = rw (div-eq_of_lt h)

-- The bits above `i`, after division.
pub div-pow : (a i m : ℕ) → a < 2 ^ i → (a + 2 ^ i * m) / 2 ^ i ≡ m
div-pow a i m h = add-mul-div_left a m (pow-pos i) ∙ rw (div-eq_of_lt h) (omega arith)

pub div-pow-suc : (n i : ℕ) → n / 2 ^ suc i ≡ n / 2 ^ i / 2
div-pow-suc n i = rw (pow-suc 2 i) (sym (div-div-eq-div-mul n (2 ^ i) 2))

pub mask_null : (i m : ℕ) → 2 ^ i * (1 + 2 * m) ≡ 2 ^ i + 2 ^ suc i * m
mask_null i m = omega (arith, ap (λ (t : ℕ). t * m) (pow-suc 2 i))

pub mask_set : (i m : ℕ) → 2 ^ i * (2 * m) ≡ 2 ^ suc i * m
mask_set i m = omega (arith, ap (λ (t : ℕ). t * m) (pow-suc 2 i))

pub set_bit-lt : (nulls i : ℕ) → nulls < 2 ^ i → set_bit nulls i < 2 ^ suc i
set_bit-lt nulls i h = omega (arith, pow-suc 2 i, set_bit_fresh nulls i h)

pub odd_test : (q k : ℕ) → q ≡ 1 + 2 * k → (q % 2 == 1) ≡ true
odd_test q k h = ground arith

pub even_test : (q k : ℕ) → q ≡ 2 * k → (q % 2 == 1) ≡ false
even_test q k h = ground arith
