-- ===== src/Executor/Group/Members.antt =====
-- Which rows a group has.
use leafdb.Prelude.{
  ◌≡◌, refl, sym, ap, ◌∙◌, List, [], ◌∷◌, ◌++◌, Bool, true, false, ◌&&◌, append-nil,
}
use leafdb.Prelude.Errors.{Result, ok, err, >>=-eq-ok}
use leafdb.Value.{Value, Runtime}
use leafdb.Executor.Values.{equal, eq_text}
use leafdb.Executor.Eval.{Parts}
use leafdb.Executor.Compile.{Fn}
use leafdb.Executor.Aggregate.{GroupKey, text_key, null_key, other_key}
use leafdb.Executor.Buckets.{Buckets, bucket, bucket_add, EqualityLaws, bucket-bucket_add}
use leafdb.Executor.Join.Hash.{pick, append-if}
use leafdb.Executor.Group.{same_key, same_keys, group_key, group_rows}

both : (a b : Bool) → (a && b) ≡ true → (a ≡ true) × (b ≡ true)
both true b h = (refl, h)
both false b h = absurd (cc h)

module _ {F : Type 0} (py : Runtime F) (laws : EqualityLaws (equal py)) where
  symmetric_key : (j k : GroupKey F) → same_key py j k ≡ true → same_key py k j ≡ true
  unfolding same_key equal eq_text
  symmetric_key (text_key s) (text_key t) h = laws.symmetric (Value.text s) (Value.text t) h
  symmetric_key null_key null_key h = refl
  symmetric_key (other_key v) (other_key w) h = laws.symmetric v w h
  symmetric_key j k h = absurd (cc h)

  transitive_key :
      (i j k : GroupKey F)
      → same_key py i j ≡ true
      → same_key py j k ≡ true
      → same_key py i k ≡ true
  unfolding same_key equal eq_text
  transitive_key (text_key s) (text_key t) (text_key u) h h' =
      laws.transitive (Value.text s) (Value.text t) (Value.text u) h h'
  transitive_key null_key null_key null_key h h' = refl
  transitive_key (other_key u) (other_key v) (other_key w) h h' = laws.transitive u v w h h'
  transitive_key i j k h h' = absurd (cc (h, h'))

  symmetric_keys :
      (js ks : List (GroupKey F)) → same_keys py js ks ≡ true → same_keys py ks js ≡ true
  unfolding same_keys
  symmetric_keys [] [] h = refl
  symmetric_keys (j ∷ js) (k ∷ ks) h =
      let (a, b) = both (same_key py j k) (same_keys py js ks) h in
      rw (symmetric_key j k a, symmetric_keys js ks b) refl
  symmetric_keys [] (k ∷ ks) h = absurd (cc h)
  symmetric_keys (j ∷ js) [] h = absurd (cc h)

  transitive_keys :
      (is js ks : List (GroupKey F))
      → same_keys py is js ≡ true
      → same_keys py js ks ≡ true
      → same_keys py is ks ≡ true
  unfolding same_keys
  transitive_keys [] [] [] h h' = refl
  transitive_keys (i ∷ is) (j ∷ js) (k ∷ ks) h h' =
      let (a, b) = both (same_key py i j) (same_keys py is js) h in
      let (c, d) = both (same_key py j k) (same_keys py js ks) h' in
      rw (transitive_key i j k a c, transitive_keys is js ks b d) refl
  transitive_keys [] [] (k ∷ ks) h h' = absurd (cc h')
  transitive_keys [] (j ∷ js) ks h h' = absurd (cc h)
  transitive_keys (i ∷ is) [] ks h h' = absurd (cc h)
  transitive_keys (i ∷ is) (j ∷ js) [] h h' = absurd (cc h')

  key_laws : EqualityLaws (same_keys py)
  key_laws = record { symmetric = symmetric_keys; transitive = transitive_keys }

module _ {F : Type 0} (py : Runtime F) where
  -- Whether the values that GROUP BY computes for a row equal a key.
  abbrev pub key_is : List (GroupKey F) → Result (List (GroupKey F)) → Bool
  unfolding same_keys
  key_is k (ok j) = same_keys py j k
  key_is k (err e) = false

  group_rows-append :
      EqualityLaws (equal py)
      → (fns : List (Fn F)) (rows : List (Parts F))
        (groups groups' : Buckets (List (GroupKey F)) (Parts F))
      → group_rows py fns rows groups ≡ ok groups'
      → (k : List (GroupKey F))
      → bucket (same_keys py) k groups'
        ≡ bucket (same_keys py) k groups ++ pick (λ parts. key_is k (group_key py fns parts)) rows
  unfolding group_rows
  group_rows-append laws fns [] groups groups' h k =
      let e : groups' ≡ groups = cc in
      ap (bucket (same_keys py) k) e ∙ sym (append-nil (bucket (same_keys py) k groups))
  group_rows-append laws fns (parts ∷ r) groups groups' h k =
      let (key, e, h') = >>=-eq-ok (group_key py fns parts) _ h in
      let found = pick (λ parts. key_is k (group_key py fns parts)) r in
      group_rows-append laws fns r (bucket_add (same_keys py) key parts groups) groups' h' k
      ∙ ap (λ xs. xs ++ found)
          (bucket-bucket_add (same_keys py) (key_laws py laws) key k parts groups)
      ∙ append-if (same_keys py key k) parts (bucket (same_keys py) k groups) found
      ∙ rw e refl

  -- The groups are made without an exception. Then the members of the group of a key are the rows
  -- whose GROUP BY values equal it, all of them, in their order.
  pub group_rows-members :
      EqualityLaws (equal py)
      → (fns : List (Fn F)) (rows : List (Parts F)) (groups : Buckets (List (GroupKey F)) (Parts F))
      → group_rows py fns rows [] ≡ ok groups
      → (k : List (GroupKey F))
      → bucket (same_keys py) k groups ≡ pick (λ parts. key_is k (group_key py fns parts)) rows
  unfolding bucket
  group_rows-members laws fns rows groups h k = group_rows-append laws fns rows [] groups h k
