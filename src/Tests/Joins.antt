-- ===== src/Tests/Joins.antt =====
-- A join of two tables on their first columns, and its rows grouped by one of them.
use leafdb.Prelude.{
  ℕ, ◌≡◌, refl, sym, ◌∙◌, ap, List, [], ◌∷◌, ◌&&◌, Bool, true, false, some, arith, ==_iff, ==_refl,
  ◌==◌,
}
use leafdb.Prelude.Int.{ℤ, pos, eq_ℤ, eq_ℤ-eq, eq_ℤ_refl}
use leafdb.Prelude.Errors.{ok}
use leafdb.Value.{Value, Text}
use leafdb.Expr.{BinaryOp}
use leafdb.Executor.Values.{eq_values, equal, eq_text, int_of_bool}
use leafdb.Executor.Eval.{Parts, read_cell}
use leafdb.Executor.Compile.{Fn, read_col, operator_fn}
use leafdb.Executor.Aggregate.{GroupKey, other_key}
use leafdb.Executor.Buckets.{Buckets, EqualityLaws, bucket}
use leafdb.Executor.Join.{Rows, Matches, no_matches, row_cell, nested_loop, hash_matches}
use leafdb.Executor.Join.Hash.{pick, ImpliesKeys, AreRead, AreKeyed, hash_matches-nested_loop}
use leafdb.Executor.Join.Keys.{eq-ImpliesKeys}
use leafdb.Executor.Group.{same_keys, group_key, group_rows}
use leafdb.Executor.Group.Members.{key_is, group_rows-members}
use leafdb.BTree.Seq.{at}
use leafdb.Engine.Reload.{index_rows}
use leafdb.Engine.Reload.Rowids.{AreWide, rowids_of, index_rows-rowids_of}
use leafdb.Tests.Runtime.{py}

-- Equal values have one key.
data Key : Type 0 where
  nothing : Key
  number : ℤ → Key
  real : ℕ → Key
  letters : Text → Key

abbrev key : Value ℕ → Key
key Value.null = nothing
key (Value.bool b) = number (int_of_bool b)
key (Value.int z) = number z
key (Value.float x) = real x
key (Value.text t) = letters t

abbrev same : Key → Key → Bool
unfolding eq_text
same nothing nothing = true
same (number a) (number b) = eq_ℤ a b
same (real x) (real y) = x == y
same (letters s) (letters t) = eq_text s t
same j k = false

eq_text-eq : (s t : Text) → eq_text s t ≡ true → s ≡ t
unfolding eq_text
eq_text-eq [] [] h = refl
eq_text-eq [] (d ∷ t) h = absurd (cc h)
eq_text-eq (c ∷ s) [] h = absurd (cc h)
eq_text-eq (c ∷ s) (d ∷ t) h =
    let (a, b) = both (c == d) (eq_text s t) h in
    let e : c ≡ d = (==_iff c d).0 a in let r : s ≡ t = eq_text-eq s t b in cc
  where
    both : (a b : Bool) → (a && b) ≡ true → (a ≡ true) × (b ≡ true)
    both true b h = (refl, h)
    both false b h = absurd (cc h)

eq_text_refl : (s : Text) → eq_text s s ≡ true
unfolding eq_text
eq_text_refl [] = refl
eq_text_refl (c ∷ s) = rw (==_refl c) (eq_text_refl s)

same-eq : (j k : Key) → same j k ≡ true → j ≡ k
unfolding same
same-eq nothing nothing h = refl
same-eq (number a) (number b) h = ap number (eq_ℤ-eq a b h)
same-eq (real x) (real y) h = ap real ((==_iff x y).0 h)
same-eq (letters s) (letters t) h = ap letters (eq_text-eq s t h)
same-eq j k h = absurd (cc h)

same_refl : (k : Key) → same k k ≡ true
unfolding same
same_refl nothing = refl
same_refl (number a) = eq_ℤ_refl a
same_refl (real x) = ==_refl x
same_refl (letters s) = eq_text_refl s

equal-same : (v w : Value ℕ) → equal py v w ≡ same (key v) (key w)
unfolding equal same
equal-same Value.null Value.null = refl
equal-same Value.null (Value.bool b) = refl
equal-same Value.null (Value.int b) = refl
equal-same Value.null (Value.float b) = refl
equal-same Value.null (Value.text b) = refl
equal-same (Value.bool a) Value.null = refl
equal-same (Value.bool a) (Value.bool b) = refl
equal-same (Value.bool a) (Value.int b) = refl
equal-same (Value.bool a) (Value.float b) = refl
equal-same (Value.bool a) (Value.text b) = refl
equal-same (Value.int a) Value.null = refl
equal-same (Value.int a) (Value.bool b) = refl
equal-same (Value.int a) (Value.int b) = refl
equal-same (Value.int a) (Value.float b) = refl
equal-same (Value.int a) (Value.text b) = refl
equal-same (Value.float a) Value.null = refl
equal-same (Value.float a) (Value.bool b) = refl
equal-same (Value.float a) (Value.int b) = refl
equal-same (Value.float a) (Value.float b) = refl
equal-same (Value.float a) (Value.text b) = refl
equal-same (Value.text a) Value.null = refl
equal-same (Value.text a) (Value.bool b) = refl
equal-same (Value.text a) (Value.int b) = refl
equal-same (Value.text a) (Value.float b) = refl
equal-same (Value.text a) (Value.text b) = refl

laws : EqualityLaws (equal py)
laws = record {
  symmetric = λ v w h.
      (let e = same-eq (key v) (key w) (sym (equal-same v w) ∙ h) in
        equal-same w v ∙ rw e (same_refl (key w)));
  transitive = λ u v w h h'.
      (let e = same-eq (key u) (key v) (sym (equal-same u v) ∙ h) in
        let e' = same-eq (key v) (key w) (sym (equal-same v w) ∙ h') in
        equal-same u w ∙ rw (e ∙ e') (same_refl (key w)));
}

abbrev left_rows : List (Parts ℕ)
left_rows = (some (Value.int (pos 1) ∷ []) ∷ []) ∷ (some (Value.int (pos 2) ∷ []) ∷ []) ∷ []

abbrev right_rows : Rows ℕ
right_rows =
    (pos 7, Value.int (pos 2) ∷ Value.text (120 ∷ []) ∷ [])
    ∷ (pos 8, Value.null ∷ Value.null ∷ [])
    ∷ (pos 9, Value.int (pos 2) ∷ Value.null ∷ [])
    ∷ []

abbrev acc_fn : Fn ℕ
unfolding read_col
acc_fn = read_col 0 0

abbrev on_fn : Fn ℕ
unfolding operator_fn read_col
on_fn = operator_fn py BinaryOp.eq (read_col 0 0) (read_col 1 0)

abbrev found : Matches ℕ
found = record {
  out =
      (some (Value.int (pos 2) ∷ []) ∷ some (Value.int (pos 2) ∷ Value.text (120 ∷ []) ∷ []) ∷ [])
      ∷ (some (Value.int (pos 2) ∷ []) ∷ some (Value.int (pos 2) ∷ Value.null ∷ []) ∷ [])
      ∷ [];
  matched_left = 1 ∷ 1 ∷ [];
  matched_right = pos 9 ∷ pos 7 ∷ [];
}

nested : nested_loop on_fn 0 left_rows right_rows no_matches ≡ ok found
unfolding nested_loop on_fn read_cell eq_values
nested = refl

reads : AreRead 1 acc_fn left_rows
unfolding acc_fn read_cell
reads = ((refl, (Value.int (pos 1), refl)), ((refl, (Value.int (pos 2), refl)), tt))

keyed : AreKeyed 0 right_rows
unfolding row_cell
keyed = ((Value.int (pos 2), refl), ((Value.null, refl), ((Value.int (pos 2), refl), tt)))

implies : ImpliesKeys py 1 on_fn acc_fn 0
unfolding on_fn acc_fn
implies = eq-ImpliesKeys py laws 1 0 0 0 (omega arith)

hash_matches-nested_loop_example :
    hash_matches py true on_fn acc_fn 0 left_rows right_rows ≡ ok found
hash_matches-nested_loop_example =
    hash_matches-nested_loop py laws 1 on_fn acc_fn 0 left_rows right_rows found implies reads keyed
      nested

abbrev rows : List (Parts ℕ)
rows =
    (some (Value.int (pos 1) ∷ []) ∷ [])
    ∷ (some (Value.int (pos 2) ∷ []) ∷ [])
    ∷ (some (Value.bool true ∷ []) ∷ [])
    ∷ []

abbrev groups : Buckets (List (GroupKey ℕ)) (Parts ℕ)
groups =
    (
      other_key (Value.int (pos 1)) ∷ [],
      (some (Value.int (pos 1) ∷ []) ∷ []) ∷ (some (Value.bool true ∷ []) ∷ []) ∷ [],
    )
    ∷ (other_key (Value.int (pos 2)) ∷ [], (some (Value.int (pos 2) ∷ []) ∷ []) ∷ [])
    ∷ []

grouped : group_rows py (acc_fn ∷ []) rows [] ≡ ok groups
unfolding group_rows acc_fn read_cell equal
grouped = refl

group_rows-members_example :
    bucket (same_keys py) (other_key (Value.int (pos 1)) ∷ []) groups
    ≡ pick
        (λ parts. key_is py (other_key (Value.int (pos 1)) ∷ []) (group_key py (acc_fn ∷ []) parts))
        rows
group_rows-members_example =
    group_rows-members py laws (acc_fn ∷ []) rows groups grouped
      (other_key (Value.int (pos 1)) ∷ [])

abbrev stored_rows : List (ℤ × List (Value ℕ))
stored_rows =
    (pos 1, Value.int (pos 7) ∷ Value.null ∷ [])
    ∷ (pos 2, Value.null ∷ Value.null ∷ [])
    ∷ (pos 3, Value.int (pos 7) ∷ Value.null ∷ [])
    ∷ []

wide : AreWide 0 stored_rows
unfolding AreWide at
wide = ((Value.int (pos 7), refl), ((Value.null, refl), ((Value.int (pos 7), refl), tt)))

index_rows-rowids_of_example :
    (out : Buckets (Value ℕ) ℤ) × (index_rows (equal py) 0 stored_rows [] ≡ ok out)
    × ((v : Value ℕ) → bucket (equal py) v out ≡ rowids_of (equal py) 0 v stored_rows)
index_rows-rowids_of_example = index_rows-rowids_of (equal py) laws 0 stored_rows wide
