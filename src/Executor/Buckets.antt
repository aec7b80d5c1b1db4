-- ===== src/Executor/Buckets.antt =====
-- The dicts of lists of leafdb/executor.py (`_join`, `_aggregate`): a list of buckets in insertion
-- order, whose keys are compared by `==`.
use leafdb.Prelude.{
  ◌≡◌, refl, sym, ◌∙◌, List, [], ◌∷◌, ◌++◌, Bool, true, false, inl, inr, Bool-cases, if◌then◌else◌,
  append-nil,
}

abbrev pub Buckets : Type 0 → Type 0 → Type 0
Buckets K A = List (K × List A)

module _ {K : Type 0} (eq : K → K → Bool) where
  -- table.setdefault(k, []).append(x)
  unfoldable pub bucket_add : {A : Type 0} → K → A → Buckets K A → Buckets K A
  bucket_add k x [] = (k, x ∷ []) ∷ []
  bucket_add k x ((j, xs) ∷ t) =
      if eq j k then (j, xs ++ x ∷ []) ∷ t else (j, xs) ∷ bucket_add k x t

  -- table.get(k, [])
  unfoldable pub bucket : {A : Type 0} → K → Buckets K A → List A
  bucket k [] = []
  bucket k ((j, xs) ∷ t) = if eq j k then xs else bucket k t

-- An equality test that is symmetric and transitive.
pub record EqualityLaws {K : Type 0} (eq : K → K → Bool) : Type 0 where
  pub symmetric : (v w : K) → eq v w ≡ true → eq w v ≡ true
  pub transitive : (u v w : K) → eq u v ≡ true → eq v w ≡ true → eq u w ≡ true

bool_eq : (a b : Bool) → (a ≡ true → b ≡ true) → (b ≡ true → a ≡ true) → a ≡ b
bool_eq false false f g = refl
bool_eq false true f g = g refl
bool_eq true b f g = sym (f refl)

module _ {K : Type 0} (eq : K → K → Bool) (laws : EqualityLaws eq) where
  -- What equals one of two equal keys equals the other.
  equal_left : (j k l : K) → eq j k ≡ true → eq j l ≡ eq k l
  equal_left j k l e =
      bool_eq (eq j l) (eq k l) (λ h. laws.transitive k j l (laws.symmetric j k e) h)
        (λ h. laws.transitive j k l e h)

  -- An entry that is added is found under the keys that equal its key, behind what was there.
  pub bucket-bucket_add :
      {A : Type 0} (k l : K) (x : A) (t : Buckets K A)
      → bucket eq l (bucket_add eq k x t) ≡ bucket eq l t ++ (if eq k l then x ∷ [] else [])
  unfolding bucket bucket_add
  bucket-bucket_add k l x [] = refl
  bucket-bucket_add k l x ((j, xs) ∷ t) = elim (Bool-cases (eq j k)) [
    | inl same ↦ elim (Bool-cases (eq j l)) [
      | inl e ↦ rw (same) (rw (e, sym (equal_left j k l same) ∙ e) refl)
      | inr e ↦
          rw (same) (rw (e, sym (equal_left j k l same) ∙ e) (sym (append-nil (bucket eq l t))))
    ]
    | inr other ↦ elim (Bool-cases (eq j l)) [
      | inl e ↦ rw (other) (rw (e, apart j k l other e) (sym (append-nil xs)))
      | inr e ↦ rw (other) (rw e (bucket-bucket_add k l x t))
    ]
  ]
    where
      apart : (j k l : K) → eq j k ≡ false → eq j l ≡ true → eq k l ≡ false
      apart j k l other e = elim (Bool-cases (eq k l)) [
        | inr h ↦ h
        | inl h ↦ absurd (cc (other, laws.transitive j l k e (laws.symmetric k l h)))
      ]
