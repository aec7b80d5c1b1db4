-- ===== src/File/Windows.antt =====
-- Windows of a file: what is read depends on `byte_at` alone.
use leafdb.Prelude.{
  ℕ, zero, suc, ◌+◌, ◌-◌, ◌≤◌, ◌<◌, ◌≡◌, refl, sym, ap, ◌∙◌, [], ◌∷◌, ◌++◌, inl, inr, Bool-cases,
  leb, length, replicate, min, arith,
}
use leafdb.Bytes.{Bytes}
use leafdb.File.{File, byte_at, get_or, tabulate, read_at}

tabulate-ext :
    (n off : ℕ) (f g : ℕ → ℕ)
    → ((i : ℕ) → off ≤ i → i < off + n → f i ≡ g i)
    → tabulate n off f ≡ tabulate n off g
unfolding tabulate
tabulate-ext zero off f g h = refl
tabulate-ext (suc n) off f g h =
    let rest = tabulate-ext n (off + 1) f g (λ i a b. h i (omega arith) (omega arith)) in
    let here : f off ≡ g off = h off (omega arith) (omega arith) in rw (here, rest)

pub length-tabulate : (n off : ℕ) (f : ℕ → ℕ) → length (tabulate n off f) ≡ n
unfolding tabulate
length-tabulate zero off f = refl
length-tabulate (suc n) off f = omega (arith, length-tabulate n (off + 1) f)

zeros : (n off : ℕ) (f : File) → f.size ≤ off → tabulate n off (byte_at f) ≡ replicate n 0
unfolding tabulate
zeros zero off f h = refl
zeros (suc n) off f h =
    let here : byte_at f off ≡ 0 = ground arith in
    let rest = zeros n (off + 1) f (omega arith) in rw (here, rest)

padded :
    (n off : ℕ) (f : File)
    → tabulate (min n (f.size - off)) off f.byte ++ replicate (n - min n (f.size - off)) 0
      ≡ tabulate n off (byte_at f)
unfolding tabulate
padded zero off f =
    ap (λ k. tabulate k off f.byte ++ replicate (0 - k) 0) {x = min 0 (f.size - off)} {y = 0}
      (omega arith)
padded (suc n) off f = elim (Bool-cases (leb f.size off)) [
  | inl past ↦
      let none_left : min (suc n) (f.size - off) ≡ 0 = ground arith in
      ap (λ k. tabulate k off f.byte ++ replicate (suc n - k) 0) none_left
      ∙ ap (λ k. replicate k 0) {x = suc n - 0} {y = suc n} (omega arith)
      ∙ sym (zeros (suc n) off f (ground arith))
  | inr before ↦
      let some_left : min (suc n) (f.size - off) ≡ suc (min n (f.size - (off + 1))) =
        ground arith in
      let count : (k : ℕ) → suc n - suc k ≡ n - k = λ k. omega arith in
      let here : f.byte off ≡ byte_at f off = ground arith in
      ap (λ k. tabulate k off f.byte ++ replicate (suc n - k) 0) some_left
      ∙ ap (λ k. tabulate (suc (min n (f.size - (off + 1)))) off f.byte ++ replicate k 0)
          (count (min n (f.size - (off + 1))))
      ∙ ap
          (λ b.
            b
            ∷ (tabulate (min n (f.size - (off + 1))) (off + 1) f.byte
                ++ replicate (n - min n (f.size - (off + 1))) 0))
          here
      ∙ ap (◌∷◌ (byte_at f off)) (padded n (off + 1) f)
]

-- What was read, filled up with zeros, is the window.
pub read_at-padded :
    (n off : ℕ) (f : File)
    → read_at off n f ++ replicate (n - length (read_at off n f)) 0 ≡ tabulate n off (byte_at f)
unfolding read_at
read_at-padded n off f =
    ap (λ k. tabulate (min n (f.size - off)) off f.byte ++ replicate (n - k) 0)
      (length-tabulate (min n (f.size - off)) off f.byte)
    ∙ padded n off f

-- A window that was written is what was written.
pub tabulate-written :
    (off : ℕ) (bs : Bytes) (f : ℕ → ℕ)
    → ((i : ℕ) → off ≤ i → i < off + length bs → f i ≡ get_or bs (i - off) 0)
    → tabulate (length bs) off f ≡ bs
unfolding tabulate
tabulate-written off [] f h = refl
tabulate-written off (b ∷ bs) f h =
    let here : f off ≡ b =
      h off (omega arith) (omega arith)
      ∙ ap (λ k. get_or (b ∷ bs) k 0) {x = off - off} {y = 0} (omega arith) in
    let rest = tabulate-written (off + 1) bs f (λ i p q.
      h i (omega arith) (omega arith)
      ∙ ap (λ k. get_or (b ∷ bs) k 0) {x = i - off} {y = suc (i - (off + 1))} (omega arith)) in
    rw (here, rest)

-- Two files that agree on a window are read alike there.
pub tabulate-byte_at-ext :
    (n off : ℕ) (f g : File)
    → ((i : ℕ) → off ≤ i → i < off + n → byte_at f i ≡ byte_at g i)
    → tabulate n off (byte_at f) ≡ tabulate n off (byte_at g)
tabulate-byte_at-ext n off f g h = tabulate-ext n off (byte_at f) (byte_at g) h
