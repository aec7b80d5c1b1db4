-- ===== src/Executor/Join/Hash.antt =====
-- The hash join that builds on the right side finds what the nested loop finds.
use leafdb.Prelude.{
  ℕ, suc, ◌≡◌, refl, sym, ap, ◌∙◌, List, [], ◌∷◌, ◌++◌, Bool, true, false, none, some, inl, inr,
  Bool-cases, if◌then◌else◌, length, append_assoc, append-nil,
}
use leafdb.Prelude.Int.{ℤ}
use leafdb.Prelude.Errors.{Result, ok, err, ◌>>=◌, >>=-eq-ok}
use leafdb.Value.{Value, Runtime}
use leafdb.Executor.Values.{equal, truthy}
use leafdb.Executor.Eval.{Row, Parts}
use leafdb.Executor.Compile.{Fn}
use leafdb.Executor.Join.{
  Rows, Matches, no_matches, is_True, is_known, row_cell, match, match_rows, nested_loop,
  build_right, probe_right, hash_matches,
}
use leafdb.Executor.Buckets.{Buckets, bucket, bucket_add, EqualityLaws, bucket-bucket_add}

abbrev pub pick : {A : Type 0} → (A → Bool) → List A → List A
pick f [] = []
pick f (x ∷ xs) = if f x then x ∷ pick f xs else pick f xs

module _ {F : Type 0} where
  -- Every row has a cell in the key's column.
  abbrev pub AreKeyed : ℕ → Rows F → Type 0
  AreKeyed nidx [] = Unit {0}
  AreKeyed nidx ((rid, row) ∷ rs) = ((w : Value F) × (row_cell row nidx ≡ ok w)) × AreKeyed nidx rs

  -- Left rows of a width, each with a key that is read without an exception.
  abbrev pub AreRead : ℕ → Fn F → List (Parts F) → Type 0
  AreRead width acc_fn [] = Unit {0}
  AreRead width acc_fn (parts ∷ ps) =
      ((length parts ≡ width) × ((v : Value F) × (acc_fn parts none ≡ ok v)))
      × AreRead width acc_fn ps

pub append-if :
    {A : Type 0} (b : Bool) (x : A) (xs zs : List A)
    → xs ++ (if b then x ∷ [] else []) ++ zs ≡ xs ++ (if b then x ∷ zs else zs)
append-if true x xs zs = append_assoc xs (x ∷ []) zs
append-if false x xs zs = ap (λ ys. ys ++ zs) (append-nil xs)

pick_none : {A : Type 0} (xs : List A) → pick (λ x. false) xs ≡ []
pick_none [] = refl
pick_none (x ∷ xs) = pick_none xs

True-eq : {F : Type 0} (v : Value F) → is_True v ≡ true → v ≡ Value.bool true
True-eq (Value.bool true) h = refl
True-eq (Value.bool false) h = absurd (cc h)
True-eq Value.null h = absurd (cc h)
True-eq (Value.int z) h = absurd (cc h)
True-eq (Value.float x) h = absurd (cc h)
True-eq (Value.text t) h = absurd (cc h)

module _ {F : Type 0} (py : Runtime F) where
  -- Where ON is true, both keys are known and equal.
  abbrev pub ImpliesKeys : ℕ → Fn F → Fn F → ℕ → Type 0
  ImpliesKeys width on_fn acc_fn nidx =
      (parts : Parts F) (row : Row F) (v u : Value F)
      → length parts ≡ width
      → acc_fn parts none ≡ ok v
      → on_fn (parts ++ some row ∷ []) none ≡ ok u
      → truthy py u ≡ true
      → (w : Value F) × (row_cell row nidx ≡ ok w)
        × (is_known v ≡ true)
        × (is_known w ≡ true)
        × (equal py w v ≡ true)

  key_fits : Value F → Result (Value F) → Bool
  key_fits l (err e) = false
  key_fits l (ok w) = if is_known w then equal py w l else false

  unfoldable fits : ℕ → Value F → ℤ × Row F → Bool
  unfolding key_fits
  fits nidx l (rid, row) = key_fits l (row_cell row nidx)

  fits-IsTrue :
      (nidx : ℕ) (v : Value F) (r : ℤ × Row F)
      → (w : Value F) × (row_cell r.1 nidx ≡ ok w)
        × (is_known v ≡ true)
        × (is_known w ≡ true)
        × (equal py w v ≡ true)
      → fits nidx v r ≡ true
  unfolding fits key_fits
  fits-IsTrue nidx v (rid, row) (w, e, _, known, same) = rw e (rw known same)

  module _ (laws : EqualityLaws (equal py)) where
    added :
        (l w : Value F) (x : ℤ × Row F) (t : Buckets (Value F) (ℤ × Row F))
        → bucket (equal py) l (if is_known w then bucket_add (equal py) w x t else t)
          ≡ bucket (equal py) l t ++ (if key_fits l (ok w) then x ∷ [] else [])
    unfolding key_fits
    added l w x t = elim (Bool-cases (is_known w)) [
      | inl known ↦ rw known (bucket-bucket_add (equal py) laws w l x t)
      | inr unknown ↦ rw unknown (sym (append-nil (bucket (equal py) l t)))
    ]

    build_right-pick :
        (nidx : ℕ) (rows : Rows F) (t : Buckets (Value F) (ℤ × Row F))
        → AreKeyed nidx rows
        → (t' : Buckets (Value F) (ℤ × Row F)) × (build_right py nidx rows t ≡ ok t')
          × ((l : Value F)
              → bucket (equal py) l t' ≡ bucket (equal py) l t ++ pick (fits nidx l) rows)
    unfolding build_right fits
    build_right-pick nidx [] t h = (t, refl, λ l. sym (append-nil (bucket (equal py) l t)))
    build_right-pick nidx ((rid, row) ∷ rs) t h =
        let (w, e) = h.0 in
        let (t', built, b) =
          build_right-pick nidx rs (if is_known w then bucket_add (equal py) w (rid, row) t else t)
            h.1 in
        (
          t',
          rw e built,
          λ l.
              b l
              ∙ ap (λ xs. xs ++ pick (fits nidx l) rs) (added l w (rid, row) t)
              ∙ append-if (key_fits l (ok w)) (rid, row) (bucket (equal py) l t)
                  (pick (fits nidx l) rs)
              ∙ rw e refl,
        )

  match_other :
      (on_fn : Fn F) (parts : Parts F) (i : ℕ) (r : ℤ × Row F) (m m' : Matches F)
      → (on_fn (parts ++ some r.1 ∷ []) none ≡ ok (Value.bool true) → false ≡ true)
      → match on_fn parts i r m ≡ ok m'
      → m ≡ m'
  unfolding match
  match_other on_fn parts i (rid, row) m m' never h =
      let (v, e, h') = >>=-eq-ok (on_fn (parts ++ some row ∷ []) none) _ h in
      elim (Bool-cases (is_True v)) [
        | inl t ↦ absurd (cc (never (e ∙ ap ok (True-eq v t))))
        | inr t ↦ cc (rw t at h')
      ]

  match_rows-pick :
      (on_fn : Fn F) (parts : Parts F) (i : ℕ) (f : ℤ × Row F → Bool) (rows : Rows F)
      (m m' : Matches F)
      → ((r : ℤ × Row F) → on_fn (parts ++ some r.1 ∷ []) none ≡ ok (Value.bool true) → f r ≡ true)
      → match_rows on_fn parts i rows m ≡ ok m'
      → match_rows on_fn parts i (pick f rows) m ≡ ok m'
  unfolding match_rows
  match_rows-pick on_fn parts i f [] m m' only h = h
  match_rows-pick on_fn parts i f (r ∷ rs) m m' only h =
      let (m1, a, h') = >>=-eq-ok (match on_fn parts i r m) _ h in
      elim (Bool-cases (f r)) [
        | inl e ↦ rw (e, a) (match_rows-pick on_fn parts i f rs m1 m' only h')
        | inr e ↦
            let same : m ≡ m1 = match_other on_fn parts i r m m1 (λ t. sym e ∙ only r t) a in
            rw e (
              match_rows-pick on_fn parts i f rs m m' only
                (ap (match_rows on_fn parts i rs) same ∙ h'))
      ]

  probe_right-nested_loop :
      (width : ℕ) (on_fn acc_fn : Fn F) (nidx i : ℕ) (left_rows : List (Parts F)) (rows : Rows F)
      (t : Buckets (Value F) (ℤ × Row F)) (m m' : Matches F)
      → ImpliesKeys width on_fn acc_fn nidx
      → AreRead width acc_fn left_rows
      → ((l : Value F) → bucket (equal py) l t ≡ pick (fits nidx l) rows)
      → nested_loop on_fn i left_rows rows m ≡ ok m'
      → probe_right py on_fn acc_fn i left_rows t m ≡ ok m'
  unfolding nested_loop probe_right truthy
  probe_right-nested_loop width on_fn acc_fn nidx i [] rows t m m' imp reads b h = h
  probe_right-nested_loop width on_fn acc_fn nidx i (parts ∷ ps) rows t m m' imp reads b h =
      let (wide, (v, e)) = reads.0 in
      let (m1, a, h') = >>=-eq-ok (match_rows on_fn parts i rows m) _ h in
      let rest =
        probe_right-nested_loop width on_fn acc_fn nidx (suc i) ps rows t m1 m' imp reads.1 b h' in
      elim (Bool-cases (is_known v)) [
        | inl known ↦
            let found =
              match_rows-pick on_fn parts i (fits nidx v) rows m m1
                (λ r o. fits-IsTrue nidx v r (imp parts r.1 v (Value.bool true) wide e o refl)) a in
            rw (e, known, b v) (rw found rest)
        | inr unknown ↦
            let found =
              match_rows-pick on_fn parts i (λ r. false) rows m m1
                (λ r o. sym unknown ∙ (imp parts r.1 v (Value.bool true) wide e o refl).2) a in
            let same : ◌≡◌ {A = Result (Matches F)} (ok m) (ok m1) =
              ap (λ rs. match_rows on_fn parts i rs m) (sym (pick_none rows)) ∙ found in
            rw (e, unknown)
              (ap (λ r. r >>= λ m2. probe_right py on_fn acc_fn (suc i) ps t m2) same ∙ rest)
      ]

  -- The nested loop joins the rows without an exception. ON is true only where both keys are known
  -- and equal, the left rows have one width, and the keys are read without an exception. Then the hash join that builds its table
  -- on the right side finds the same rows in the same order, and the same matches.
  pub hash_matches-nested_loop :
      EqualityLaws (equal py)
      → (width : ℕ) (on_fn acc_fn : Fn F) (nidx : ℕ) (left_rows : List (Parts F))
        (right_rows : Rows F) (m : Matches F)
      → ImpliesKeys width on_fn acc_fn nidx
      → AreRead width acc_fn left_rows
      → AreKeyed nidx right_rows
      → nested_loop on_fn 0 left_rows right_rows no_matches ≡ ok m
      → hash_matches py true on_fn acc_fn nidx left_rows right_rows ≡ ok m
  unfolding hash_matches
  hash_matches-nested_loop laws width on_fn acc_fn nidx left_rows right_rows m imp reads keyed h =
      let (t, built, b) = build_right-pick laws nidx right_rows [] keyed in
      rw built (
        probe_right-nested_loop width on_fn acc_fn nidx 0 left_rows right_rows t no_matches m imp
          reads (λ l. b l) h)
