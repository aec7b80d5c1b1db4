-- ===== src/BTree/Leaves.antt =====
-- A leaf as a map from keys to values.
use leafdb.Prelude.{
  ◌≡◌, refl, sym, ap, ◌∙◌, List, [], ◌∷◌, true, false, Option, none, some, Bool-cases, inl, inr,
  if◌then◌else◌, arith,
}
use leafdb.Prelude.Int.{ℤ, ltb_ℤ, eq_ℤ, eq_ℤ_refl}
use leafdb.Prelude.Errors.{ok, err, duplicate_key}
use leafdb.Bytes.{Bytes}
use leafdb.BTree.{bisect_left, find_cell, cell_from, insert_cell, leaf_index}
use leafdb.BTree.Seq.{insert_at}
use leafdb.BTree.Codec.{Cell}

-- The keys increase, from a bound on.
abbrev pub IsAbove : ℤ → List Cell → Type 0
IsAbove lo [] = Unit {0}
IsAbove lo ((k, v) ∷ r) = (ltb_ℤ lo k ≡ true) × IsAbove k r

abbrev pub IsSorted : List Cell → Type 0
IsSorted [] = Unit {0}
IsSorted ((k, v) ∷ r) = IsAbove k r

find_cell_cons :
    (j k : ℤ) (v : Bytes) (r : List Cell)
    → find_cell j ((k, v) ∷ r)
      ≡ (if ltb_ℤ k j then find_cell j r else (if eq_ℤ k j then some v else none))
unfolding find_cell cell_from bisect_left
find_cell_cons j k v r = elim (Bool-cases (ltb_ℤ k j)) [ inl e ↦ rw e refl | inr e ↦ rw e refl ]

-- The cells with a new one at its place.
abbrev placed : ℤ → Bytes → List Cell → List Cell
unfolding insert_at bisect_left
placed k v cells = insert_at (leaf_index k cells) (k, v) cells

placed-nil : (k : ℤ) (v : Bytes) → placed k v [] ≡ (k, v) ∷ []
unfolding insert_at bisect_left
placed-nil k v = refl

find_cell-nil : (i : ℤ) → find_cell i [] ≡ none
unfolding find_cell cell_from bisect_left
find_cell-nil i = refl

insert_cell-none :
    (k : ℤ) (v : Bytes) (cells : List Cell)
    → find_cell k cells ≡ none
    → insert_cell k v cells ≡ ok (placed k v cells)
unfolding insert_cell
insert_cell-none k v cells n = rw n refl

insert_cell-some :
    (k : ℤ) (u : Bytes) (cells : List Cell) (v : Bytes)
    → find_cell k cells ≡ some v
    → insert_cell k u cells ≡ err duplicate_key
unfolding insert_cell
insert_cell-some k u cells v n = rw n refl

placed_cons :
    (k j : ℤ) (v w : Bytes) (r : List Cell)
    → placed k v ((j, w) ∷ r) ≡ (if ltb_ℤ j k then (j, w) ∷ placed k v r else ((k, v) ∷ (j, w) ∷ r))
unfolding insert_at bisect_left
placed_cons k j v w r = elim (Bool-cases (ltb_ℤ j k)) [ inl e ↦ rw e refl | inr e ↦ rw e refl ]

lt_trans : (a b c : ℤ) → ltb_ℤ a b ≡ true → ltb_ℤ b c ≡ true → ltb_ℤ a c ≡ true
lt_trans a b c h k = ground arith

IsAbove-weaken :
    (lo hi : ℤ) (cells : List Cell) → ltb_ℤ lo hi ≡ true → IsAbove hi cells → IsAbove lo cells
IsAbove-weaken lo hi [] h s = tt
IsAbove-weaken lo hi ((k, v) ∷ r) h s = (lt_trans lo hi k h s.0, s.1)

lt_of_ge_ne : (j k : ℤ) → ltb_ℤ j k ≡ false → eq_ℤ j k ≡ false → ltb_ℤ k j ≡ true
lt_of_ge_ne j k h n = ground arith

-- What the failed test for the key says at the head.
not_there :
    (k j : ℤ) (w : Bytes) (r : List Cell)
    → find_cell k ((j, w) ∷ r) ≡ none
    → (if ltb_ℤ j k then find_cell k r else (if eq_ℤ j k then some w else none)) ≡ none
not_there k j w r h = sym (find_cell_cons k j w r) ∙ h

-- A new key that is above the bound keeps the order.
placed-IsAbove :
    (lo k : ℤ) (v : Bytes) (cells : List Cell)
    → ltb_ℤ lo k ≡ true
    → IsAbove lo cells
    → find_cell k cells ≡ none
    → IsAbove lo (placed k v cells)
unfolding bisect_left insert_at
placed-IsAbove lo k v [] h s n = (h, tt)
placed-IsAbove lo k v ((j, w) ∷ r) h s n = elim (Bool-cases (ltb_ℤ j k)) [
  | inl e ↦
      rw (placed_cons k j v w r)
        (rw e (s.0, placed-IsAbove j k v r e s.1 (rw e at (not_there k j w r n))))
  | inr e ↦ elim (Bool-cases (eq_ℤ j k)) [
    | inl same ↦ absurd (cc (rw (e, same) at (not_there k j w r n)))
    | inr other ↦ rw (placed_cons k j v w r) (rw e (h, (lt_of_ge_ne j k e other, s.1)))
  ]
]

placed-IsSorted :
    (k : ℤ) (v : Bytes) (cells : List Cell)
    → IsSorted cells
    → find_cell k cells ≡ none
    → IsSorted (placed k v cells)
unfolding bisect_left insert_at
placed-IsSorted k v [] s n = tt
placed-IsSorted k v ((j, w) ∷ r) s n = elim (Bool-cases (ltb_ℤ j k)) [
  | inl e ↦
      rw (placed_cons k j v w r) (rw e (placed-IsAbove j k v r e s (rw e at (not_there k j w r n))))
  | inr e ↦ elim (Bool-cases (eq_ℤ j k)) [
    | inl same ↦ absurd (cc (rw (e, same) at (not_there k j w r n)))
    | inr other ↦ rw (placed_cons k j v w r) (rw e (lt_of_ge_ne j k e other, s))
  ]
]

-- No key below the bound is found.
find_cell-IsAbove :
    (lo i : ℤ) (cells : List Cell)
    → IsAbove lo cells
    → ltb_ℤ lo i ≡ false
    → find_cell i cells ≡ none
unfolding find_cell cell_from bisect_left
find_cell-IsAbove lo i [] s h = refl
find_cell-IsAbove lo i ((j, w) ∷ r) s h =
    let (a, b) = below lo i j s.0 h in find_cell_cons i j w r ∙ rw (a, b) refl
  where
    below :
        (lo i j : ℤ)
        → ltb_ℤ lo j ≡ true
        → ltb_ℤ lo i ≡ false
        → (ltb_ℤ j i ≡ false) × (eq_ℤ j i ≡ false)
    below lo i j h g = (ground arith, ground arith)

ne_of_lt : (k i : ℤ) → ltb_ℤ k i ≡ true → eq_ℤ k i ≡ false
ne_of_lt k i h = ground arith

-- A new cell in front of what finds `o`.
head_found :
    (k i : ℤ) (v : Bytes) (o : Option Bytes)
    → (ltb_ℤ i k ≡ true → o ≡ none)
    → (if ltb_ℤ k i then o else (if eq_ℤ k i then some v else none))
      ≡ (if eq_ℤ k i then some v else o)
head_found k i v o h = elim (Bool-cases (ltb_ℤ k i)) [
  | inl e ↦ rw (e, ne_of_lt k i e) refl
  | inr e ↦ elim (Bool-cases (eq_ℤ k i)) [
    | inl same ↦ rw (e, same) refl
    | inr other ↦ rw (e, other) (sym (h (lt_of_ge_ne k i e other)))
  ]
]

between_ne : (i j k : ℤ) → ltb_ℤ j k ≡ true → ltb_ℤ j i ≡ false → eq_ℤ k i ≡ false
between_ne i j k h g = ground arith

below_both :
    (i j k : ℤ) → ltb_ℤ k j ≡ true → ltb_ℤ i k ≡ true → (ltb_ℤ j i ≡ false) × (eq_ℤ j i ≡ false)
below_both i j k h g = (ground arith, ground arith)

find_cell-placed :
    (k i : ℤ) (v : Bytes) (cells : List Cell)
    → find_cell k cells ≡ none
    → find_cell i (placed k v cells) ≡ (if eq_ℤ k i then some v else find_cell i cells)
find_cell-placed k i v [] n =
    ap (find_cell i) (placed-nil k v)
    ∙ find_cell_cons i k v []
    ∙ head_found k i v (find_cell i []) (λ h. find_cell-nil i)
find_cell-placed k i v ((j, w) ∷ r) n = elim (Bool-cases (ltb_ℤ j k)) [
  | inl e ↦
      let front : placed k v ((j, w) ∷ r) ≡ (j, w) ∷ placed k v r =
        placed_cons k j v w r ∙ rw e refl in
      let next = find_cell-placed k i v r (rw e at (not_there k j w r n)) in
      ap (find_cell i) front ∙ find_cell_cons i j w (placed k v r) ∙ elim (Bool-cases (ltb_ℤ j i)) [
        | inl d ↦ rw (find_cell_cons i j w r) (rw d next)
        | inr d ↦ rw (find_cell_cons i j w r) (rw (d, between_ne i j k e d) refl)
      ]
  | inr e ↦ elim (Bool-cases (eq_ℤ j k)) [
    | inl same ↦ absurd (cc (rw (e, same) at (not_there k j w r n)))
    | inr other ↦
        let front : placed k v ((j, w) ∷ r) ≡ (k, v) ∷ (j, w) ∷ r =
          placed_cons k j v w r ∙ rw e refl in
        ap (find_cell i) front
        ∙ find_cell_cons i k v ((j, w) ∷ r)
        ∙ head_found k i v (find_cell i ((j, w) ∷ r)) (λ h.
          let (a, b) = below_both i j k (lt_of_ge_ne j k e other) h in
          find_cell_cons i j w r ∙ rw (a, b) refl)
  ]
]

-- A key that a sorted leaf does not hold is inserted without an exception. The leaf stays sorted,
-- the key has its value, every other key what it had, and a second insertion of the key is a
-- DuplicateKey.
pub insert_cell-find_cell :
    (k : ℤ) (v : Bytes) (cells : List Cell)
    → IsSorted cells
    → find_cell k cells ≡ none
    → (cells' : List Cell) × (insert_cell k v cells ≡ ok cells')
      × IsSorted cells'
      × ((i : ℤ) → find_cell i cells' ≡ (if eq_ℤ k i then some v else find_cell i cells))
      × ((u : Bytes) → insert_cell k u cells' ≡ err duplicate_key)
insert_cell-find_cell k v cells s n = (
  placed k v cells,
  insert_cell-none k v cells n,
  placed-IsSorted k v cells s n,
  λ i. find_cell-placed k i v cells n,
  λ u.
      insert_cell-some k u (placed k v cells) v
        (find_cell-placed k k v cells n ∙ rw (eq_ℤ_refl k) refl),
)
