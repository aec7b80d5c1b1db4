-- ===== src/Executor/Select/Order.antt =====
-- Sorting by the last key first and by the first key last, each sort stable, is sorting once by the
-- keys in lexicographic order.
use leafdb.Prelude.{
  ◌⊎◌, ℕ, suc, ◌≡◌, refl, sym, ap, ◌∙◌, List, [], ◌∷◌, Bool, true, false, not, ◌&&◌, ◌||◌, inl, inr,
  Bool-cases,
}
use leafdb.Value.{Value, Runtime}
use leafdb.Expr.{Expr}
use leafdb.Executor.Eval.{Row}
use leafdb.Executor.Select.Output.{insert_stable, stable_sort, item_less, sort_by}

-- A strict order in which being incomparable is transitive.
pub record IsWeakOrder {A : Type 0} (lt : A → A → Bool) : Type 0 where
  pub asymmetric : (x y : A) → lt x y ≡ true → lt y x ≡ false
  pub not_less : (x y z : A) → lt x y ≡ false → lt y z ≡ false → lt x z ≡ false

-- By the first order, and by the second where the first does not decide.
unfoldable pub lex : {A : Type 0} → (A → A → Bool) → (A → A → Bool) → A → A → Bool
lex lt1 lt2 x y = lt1 x y || (not (lt1 y x) && lt2 x y)

module _ {A : Type 0} (lt : A → A → Bool) where
  -- No item is less than `x`.
  abbrev AreNotLess : A → List A → Type 0
  AreNotLess x [] = Unit {0}
  AreNotLess x (y ∷ ys) = (lt y x ≡ false) × AreNotLess x ys

  abbrev IsSorted : List A → Type 0
  IsSorted [] = Unit {0}
  IsSorted (x ∷ xs) = AreNotLess x xs × IsSorted xs

  module _ (weak : IsWeakOrder lt) where
    AreNotLess-insert_stable :
        (x y : A) (ys : List A)
        → lt y x ≡ false
        → AreNotLess x ys
        → AreNotLess x (insert_stable lt y ys)
    unfolding insert_stable
    AreNotLess-insert_stable x y [] e h = (e, tt)
    AreNotLess-insert_stable x y (z ∷ zs) e h = elim (Bool-cases (lt z y)) [
      | inl l ↦ rw l (h.0, AreNotLess-insert_stable x y zs e h.1)
      | inr l ↦ rw l (e, h)
    ]

    AreNotLess-trans : (x y : A) (ys : List A) → lt y x ≡ false → AreNotLess y ys → AreNotLess x ys
    AreNotLess-trans x y [] e h = tt
    AreNotLess-trans x y (z ∷ zs) e h = (weak.not_less z y x h.0 e, AreNotLess-trans x y zs e h.1)

    insert_stable-IsSorted : (x : A) (xs : List A) → IsSorted xs → IsSorted (insert_stable lt x xs)
    unfolding insert_stable
    insert_stable-IsSorted x [] h = (tt, tt)
    insert_stable-IsSorted x (y ∷ ys) h = elim (Bool-cases (lt y x)) [
      | inl l ↦ rw l (
        AreNotLess-insert_stable y x ys (weak.asymmetric y x l) h.0,
        insert_stable-IsSorted x ys h.1,
      )
      | inr l ↦ rw l ((l, AreNotLess-trans x y ys l h.0), h)
    ]

    stable_sort-IsSorted : (xs : List A) → IsSorted (stable_sort lt xs)
    unfolding stable_sort
    stable_sort-IsSorted [] = tt
    stable_sort-IsSorted (x ∷ xs) =
        insert_stable-IsSorted x (stable_sort lt xs) (stable_sort-IsSorted xs)

or_false : (a b : Bool) → (a || (not b && false)) ≡ a
or_false true b = refl
or_false false true = refl
or_false false false = refl

or_true : (a b : Bool) → (a ≡ true → b ≡ false) → (a || (not b && true)) ≡ not b
or_true true b h = rw (h refl) refl
or_true false true h = refl
or_true false false h = refl

or_undecided :
    (a b c : Bool) → (a || (not b && c)) ≡ false → (a ≡ false) × ((b ≡ true) ⊎ (c ≡ false))
or_undecided true b c h = absurd (cc h)
or_undecided false true c h = (refl, inl refl)
or_undecided false false c h = (refl, inr h)

or_decided : (a b c : Bool) → (a || (not b && c)) ≡ true → (a ≡ true) ⊎ ((b ≡ false) × (c ≡ true))
or_decided true b c h = inl refl
or_decided false true c h = absurd (cc h)
or_decided false false c h = inr (refl, h)

module _ {A : Type 0} (lt1 lt2 : A → A → Bool) (weak1 : IsWeakOrder lt1) where
  lex-false :
      (x y : A)
      → lex lt1 lt2 x y ≡ false
      → (lt1 x y ≡ false) × ((lt1 y x ≡ true) ⊎ (lt2 x y ≡ false))
  unfolding lex
  lex-false x y h = or_undecided (lt1 x y) (lt1 y x) (lt2 x y) h

  lex-true :
      (x y : A) → lex lt1 lt2 x y ≡ true → (lt1 x y ≡ true) ⊎ ((lt1 y x ≡ false) × (lt2 x y ≡ true))
  unfolding lex
  lex-true x y h = or_decided (lt1 x y) (lt1 y x) (lt2 x y) h

  lex-first : (x y : A) → lt2 x y ≡ false → lex lt1 lt2 x y ≡ lt1 x y
  unfolding lex
  lex-first x y h = rw h (or_false (lt1 x y) (lt1 y x))

  -- An item that the second order does not put behind another is inserted as by the first alone.
  insert_first :
      (x : A) (t : List A)
      → AreNotLess lt2 x t
      → insert_stable lt1 x t ≡ insert_stable (lex lt1 lt2) x t
  unfolding insert_stable
  insert_first x [] h = refl
  insert_first x (z ∷ zs) h =
      let same : lex lt1 lt2 z x ≡ lt1 z x = lex-first z x h.0 in
      elim (Bool-cases (lt1 z x)) [
        | inl l ↦ rw (l, same ∙ l) (ap (λ r. z ∷ r) (insert_first x zs h.1))
        | inr l ↦ rw (l, same ∙ l) refl
      ]

  second_decides : (x y : A) → lt2 y x ≡ true → lex lt1 lt2 y x ≡ not (lt1 x y)
  unfolding lex
  second_decides x y h = rw h (or_true (lt1 y x) (lt1 x y) (weak1.asymmetric y x))

  -- Where the second order puts `y` first, the one insertion may come before the other.
  insert_swap :
      (x y : A) (t : List A)
      → lt2 y x ≡ true
      → insert_stable lt1 y (insert_stable (lex lt1 lt2) x t)
        ≡ insert_stable (lex lt1 lt2) x (insert_stable lt1 y t)
  unfolding insert_stable
  insert_swap x y [] h = elim (Bool-cases (lt1 x y)) [
    | inl l ↦ rw (l, second_decides x y h ∙ ap not l) refl
    | inr l ↦ rw (l, second_decides x y h ∙ ap not l) refl
  ]
  insert_swap x y (z ∷ zs) h = elim (Bool-cases (lex lt1 lt2 z x)) [
    | inl a ↦ elim (Bool-cases (lt1 z y)) [
      | inl b ↦ rw (a, b) (rw a (ap (λ r. z ∷ r) (insert_swap x y zs h)))
      | inr b ↦
          let c = not_before (lex-true z x a) in
          let l : lt1 x y ≡ false = weak1.not_less x z y c b in
          rw (a, b) (rw (second_decides x y h ∙ ap not l, a) refl)
    ]
    | inr a ↦ elim (Bool-cases (lt1 z y)) [
      | inl b ↦ let l : lt1 x y ≡ true = after a b in rw (a, b) (rw (a, l) refl)
      | inr b ↦ elim (Bool-cases (lt1 x y)) [
        | inl l ↦ rw (a, b) (rw (l, second_decides x y h ∙ ap not l) refl)
        | inr l ↦ rw (a, b) (rw (l, second_decides x y h ∙ ap not l) (rw a refl))
      ]
    ]
  ]
    where
      not_before : (lt1 z x ≡ true) ⊎ ((lt1 x z ≡ false) × (lt2 z x ≡ true)) → lt1 x z ≡ false
      not_before (inl l) = weak1.asymmetric z x l
      not_before (inr l) = l.0

      after : lex lt1 lt2 z x ≡ false → lt1 z y ≡ true → lt1 x y ≡ true
      after a b = elim (Bool-cases (lt1 x y)) [
        | inl l ↦ l
        | inr l ↦ absurd (cc (b, weak1.not_less z x y (lex-false z x a).0 l))
      ]

  AreNotLess-insert :
      (x y : A) (t : List A)
      → lt2 y x ≡ false
      → AreNotLess lt2 x t
      → AreNotLess lt2 x (insert_stable lt1 y t)
  unfolding insert_stable
  AreNotLess-insert x y [] e h = (e, tt)
  AreNotLess-insert x y (z ∷ zs) e h = elim (Bool-cases (lt1 z y)) [
    | inl l ↦ rw l (h.0, AreNotLess-insert x y zs e h.1)
    | inr l ↦ rw l (e, h)
  ]

  AreNotLess-stable_sort :
      (x : A) (t : List A) → AreNotLess lt2 x t → AreNotLess lt2 x (stable_sort lt1 t)
  unfolding stable_sort
  AreNotLess-stable_sort x [] h = tt
  AreNotLess-stable_sort x (y ∷ ys) h =
      AreNotLess-insert x y (stable_sort lt1 ys) h.0 (AreNotLess-stable_sort x ys h.1)

  module _ (weak2 : IsWeakOrder lt2) where
    stable_sort-insert_stable :
        (x : A) (s : List A)
        → IsSorted lt2 s
        → stable_sort lt1 (insert_stable lt2 x s)
          ≡ insert_stable (lex lt1 lt2) x (stable_sort lt1 s)
    unfolding insert_stable stable_sort
    stable_sort-insert_stable x [] h = refl
    stable_sort-insert_stable x (y ∷ ys) h = elim (Bool-cases (lt2 y x)) [
      | inl l ↦ rw l (
          ap (insert_stable lt1 y) (stable_sort-insert_stable x ys h.1)
          ∙ insert_swap x y (stable_sort lt1 ys) l)
      | inr l ↦ rw l (
          insert_first x (insert_stable lt1 y (stable_sort lt1 ys)) (
            AreNotLess-insert x y (stable_sort lt1 ys) l
              (AreNotLess-stable_sort x ys (AreNotLess-trans lt2 weak2 x y ys l h.0))))
    ]

    -- Two stable sorts, and one by the lexicographic order.
    pub stable_sort-stable_sort :
        (xs : List A) → stable_sort lt1 (stable_sort lt2 xs) ≡ stable_sort (lex lt1 lt2) xs
    unfolding stable_sort
    stable_sort-stable_sort [] = refl
    stable_sort-stable_sort (x ∷ xs) =
        stable_sort-insert_stable x (stable_sort lt2 xs) (stable_sort-IsSorted lt2 weak2 xs)
        ∙ ap (insert_stable (lex lt1 lt2) x) (stable_sort-stable_sort xs)

    lex_asymmetric : (x y : A) → lex lt1 lt2 x y ≡ true → lex lt1 lt2 y x ≡ false
    unfolding lex
    lex_asymmetric x y h = elim (lex-true x y h) [
      | inl l ↦ rw (weak1.asymmetric x y l, l) refl
      | inr (l, m) ↦ rw (l, weak2.asymmetric x y m) (or_false false (lt1 x y))
    ]

    lex_not_less :
        (x y z : A) → lex lt1 lt2 x y ≡ false → lex lt1 lt2 y z ≡ false → lex lt1 lt2 x z ≡ false
    unfolding lex
    lex_not_less x y z h h' =
        let (a, b) = lex-false x y h in
        let (c, d) = lex-false y z h' in
        rw (weak1.not_less x y z a c) (elim (Bool-cases (lt1 z x)) [
          | inl l ↦ rw l refl
          | inr l ↦
              let e : lt2 x y ≡ false = second (lt1 y x) (lt2 x y) b (weak1.not_less y z x c l) in
              let f : lt2 y z ≡ false = second (lt1 z y) (lt2 y z) d (weak1.not_less z x y l a) in
              rw (l, weak2.not_less x y z e f) refl
        ])
      where
        second : (p q : Bool) → (p ≡ true) ⊎ (q ≡ false) → p ≡ false → q ≡ false
        second p q (inl t) f = absurd (cc (t, f))
        second p q (inr t) f = t

    lex-IsWeakOrder : IsWeakOrder (lex lt1 lt2)
    lex-IsWeakOrder = record { asymmetric = lex_asymmetric; not_less = lex_not_less }

module _ {F : Type 0} (py : Runtime F) where
  abbrev pub Entry : Type 0
  Entry = Row F × List (Value F)

  -- By the keys from position `p`, the first that decides.
  unfoldable pub keys_less : ℕ → List (Expr F × Bool) → Entry → Entry → Bool
  unfolding lex item_less
  keys_less p [] x y = false
  keys_less p ((e, desc) ∷ r) x y = lex (item_less py p desc) (keys_less (suc p) r) x y

  none_less : (xs : List Entry) → stable_sort (λ x y. false) xs ≡ xs
  unfolding stable_sort insert_stable
  none_less [] = refl
  none_less (x ∷ xs) = rw (none_less xs) (first xs)
    where
      first : (ys : List Entry) → insert_stable (λ x y. false) x ys ≡ x ∷ ys
      first [] = refl
      first (y ∷ ys) = refl

  keys_less-IsWeakOrder :
      ((p : ℕ) (desc : Bool) → IsWeakOrder (item_less py p desc))
      → (p : ℕ) (specs : List (Expr F × Bool)) → IsWeakOrder (keys_less p specs)
  unfolding keys_less
  keys_less-IsWeakOrder weak p [] = record {
    asymmetric = λ x y h. refl;
    not_less = λ x y z h h'. refl;
  }
  keys_less-IsWeakOrder weak p ((e, desc) ∷ r) =
      lex-IsWeakOrder (item_less py p desc) (keys_less (suc p) r) (weak p desc)
        (keys_less-IsWeakOrder weak (suc p) r)

  sort_by-from :
      ((p : ℕ) (desc : Bool) → IsWeakOrder (item_less py p desc))
      → (p : ℕ) (specs : List (Expr F × Bool)) (items : List Entry)
      → sort_by py p specs items ≡ stable_sort (keys_less p specs) items
  unfolding sort_by keys_less
  sort_by-from weak p [] items = sym (none_less items)
  sort_by-from weak p ((e, desc) ∷ r) items =
      ap (stable_sort (item_less py p desc)) (sort_by-from weak (suc p) r items)
      ∙ stable_sort-stable_sort (item_less py p desc) (keys_less (suc p) r) (weak p desc)
          (keys_less-IsWeakOrder weak (suc p) r) items
