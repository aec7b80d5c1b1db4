-- ===== src/Engine/Reload/Rowids.antt =====
-- The index of a column that _rebuild_indexes of leafdb/engine.py makes of a table's rows.
use leafdb.Prelude.{
  ℕ, ◌≡◌, refl, sym, ap, ◌∙◌, List, [], ◌∷◌, ◌++◌, Bool, true, false, if◌then◌else◌, append-nil,
  append_assoc,
}
use leafdb.Prelude.Int.{ℤ}
use leafdb.Prelude.Errors.{Result, ok, err}
use leafdb.Value.{Value}
use leafdb.BTree.Seq.{at}
use leafdb.Executor.Buckets.{Buckets, EqualityLaws, bucket, bucket-bucket_add}
use leafdb.Engine.Reload.{Rows, index_value, index_rows}

-- Every row has a column `ci`.
unfoldable pub AreWide : {F : Type 0} → ℕ → Rows F → Type 0
AreWide {F} ci [] = Unit {0}
AreWide {F} ci ((rid, row) ∷ rows) = ((v : Value F) × (at ci row ≡ ok v)) × AreWide ci rows

module _ {F : Type 0} (eq : Value F → Value F → Bool) where
  -- Whether a value is in the index and equals `v`.
  abbrev pub holds : Result (Value F) → Value F → Bool
  holds (err e) v = false
  holds (ok Value.null) v = false
  holds (ok w) v = eq w v

  -- The rowids of the rows whose value in the column equals `v`, said of the rows alone.
  unfoldable pub rowids_of : ℕ → Value F → Rows F → List ℤ
  rowids_of ci v [] = []
  rowids_of ci v ((rid, row) ∷ rows) =
      let rest = rowids_of ci v rows in if holds (at ci row) v then rid ∷ rest else rest

  module _ (laws : EqualityLaws eq) where
    bucket-index_value :
        (rid : ℤ) (w v : Value F) (idx : Buckets (Value F) ℤ)
        → bucket eq v (index_value eq rid w idx)
          ≡ bucket eq v idx ++ (if holds (ok w) v then rid ∷ [] else [])
    bucket-index_value rid Value.null v idx = sym (append-nil (bucket eq v idx))
    bucket-index_value rid (Value.bool b) v idx = bucket-bucket_add eq laws (Value.bool b) v rid idx
    bucket-index_value rid (Value.int z) v idx = bucket-bucket_add eq laws (Value.int z) v rid idx
    bucket-index_value rid (Value.float x) v idx =
        bucket-bucket_add eq laws (Value.float x) v rid idx
    bucket-index_value rid (Value.text t) v idx = bucket-bucket_add eq laws (Value.text t) v rid idx

    one_more :
        (b : Bool) (rid : ℤ) (old rest : List ℤ)
        → (old ++ (if b then rid ∷ [] else [])) ++ rest ≡ old ++ (if b then rid ∷ rest else rest)
    one_more true rid old rest = append_assoc old (rid ∷ []) rest
    one_more false rid old rest = ap (λ l. l ++ rest) (append-nil old)

    index_rows-bucket :
        (ci : ℕ) (rows : Rows F) (idx : Buckets (Value F) ℤ)
        → AreWide ci rows
        → (out : Buckets (Value F) ℤ) × (index_rows eq ci rows idx ≡ ok out)
          × ((v : Value F) → bucket eq v out ≡ bucket eq v idx ++ rowids_of ci v rows)
    unfolding index_rows rowids_of AreWide
    index_rows-bucket ci [] idx wide = (idx, refl, λ v. sym (append-nil (bucket eq v idx)))
    index_rows-bucket ci ((rid, row) ∷ rows) idx ((w, e), wide) =
        let (out, indexes, found) = index_rows-bucket ci rows (index_value eq rid w idx) wide in
        (
          out,
          rw e indexes,
          λ v.
              found v
              ∙ ap (λ l. l ++ rowids_of ci v rows) (bucket-index_value rid w v idx)
              ∙ one_more (holds (ok w) v) rid (bucket eq v idx) (rowids_of ci v rows)
              ∙ ap
                  (λ r.
                    bucket eq v idx
                    ++ (if holds r v then rid ∷ rowids_of ci v rows else rowids_of ci v rows))
                  (sym e),
        )

    -- Where every row has the column, its index is made without an exception, and what is found in
    -- it under a value are the rowids of the rows whose value in the column is not null and equals
    -- it, in the order of the rows, given that == on values is symmetric and transitive.
    pub index_rows-rowids_of :
        (ci : ℕ) (rows : Rows F)
        → AreWide ci rows
        → (out : Buckets (Value F) ℤ) × (index_rows eq ci rows [] ≡ ok out)
          × ((v : Value F) → bucket eq v out ≡ rowids_of ci v rows)
    unfolding bucket
    index_rows-rowids_of ci rows wide = index_rows-bucket ci rows [] wide
