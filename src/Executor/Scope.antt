-- ===== src/Executor/Scope.antt =====
-- `Scope` of leafdb/executor.py: column references to (source slot, column index) positions.
use text.Mathlib.Text.{◌==◌ as str_eq}
use leafdb.Prelude.{
  ℕ, suc, List, [], ◌∷◌, ◌++◌, Option, none, some, String, if◌then◌else◌, get_elem?, length,
}
use leafdb.Prelude.Errors.{Result, ok, err, ◌>>=◌, execution_error, index_error}
use leafdb.Catalog.{TableMeta, colnames, contains, column_index}
use leafdb.Catalog.Assoc.{Dict, get, put, has}

pub record Scope : Type 0 where
  pub sources : List (String × TableMeta)
  pub by_alias : Dict ℕ
  -- lower-case label to the identity of an aggregate's node
  pub agg_aliases : Dict ℕ

abbrev pub empty_scope : Scope
empty_scope = record { sources = []; by_alias = []; agg_aliases = [] }

unfoldable pub add : String → TableMeta → Scope → Result Scope
unfolding has put
add alias meta s =
    if has alias s.by_alias
    then err execution_error
    else ok (record s {
      sources = s.sources ++ (alias, meta) ∷ [];
      by_alias = put alias (length s.sources) s.by_alias;
    })

-- `label` is already lower case; an empty label adds nothing.
unfoldable pub add_agg_alias : (String → String) → String → ℕ → Scope → Scope
unfolding put
add_agg_alias lower label i s =
    if str_eq label "" then s else record s { agg_aliases = put (lower label) i s.agg_aliases }

-- The sources, counted from `i`, that have a column of the name.
unfoldable pub hits_from : ℕ → String → List (String × TableMeta) → Result (List (ℕ × ℕ))
unfolding contains colnames
hits_from i k [] = ok []
hits_from i k ((alias, meta) ∷ r) = do
  rest ← hits_from (suc i) k r
  if contains k (colnames meta) then (do j ← column_index meta k; ok ((i, j) ∷ rest)) else ok rest

unfoldable pub only_hit : List (ℕ × ℕ) → Result (ℕ × ℕ)
only_hit [] = err execution_error
only_hit (h ∷ []) = ok h
only_hit (h ∷ h' ∷ r) = err execution_error

unfoldable pub resolve_in : Option (String × TableMeta) → ℕ → String → Result (ℕ × ℕ)
resolve_in none i k = err index_error
resolve_in (some (alias, meta)) i k =
    if contains k (colnames meta)
    then (do j ← column_index meta k; ok (i, j))
    else err execution_error

unfoldable pub resolve : Scope → Option String → String → Result (ℕ × ℕ)
unfolding get resolve_in hits_from only_hit contains colnames
resolve s none k = do hits ← hits_from 0 k s.sources; only_hit hits
resolve s (some t) k = elim (get t s.by_alias) [
  | none ↦ err execution_error
  | some i ↦ resolve_in (get_elem? s.sources i) i k
]
