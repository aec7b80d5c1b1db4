-- ===== src/Executor/Select/Output.antt =====
-- The output of `Executor.run_select` in leafdb/executor.py: projection, sort keys, DISTINCT, the
-- sorts, LIMIT and OFFSET.
use leafdb.Prelude.{
  ℕ, suc, List, [], ◌∷◌, ◌++◌, Bool, true, false, not, ◌&&◌, ◌||◌, Option, none, some, String,
  if◌then◌else◌, length, ◌==◌, ltb, get_elem?, take, drop, replicate,
}
use leafdb.Prelude.Errors.{Result, ok, err, ◌>>=◌, execution_error, index_error}
use leafdb.Value.{Value, Runtime}
use leafdb.Expr.{Expr}
use leafdb.Catalog.{TableMeta, colnames}
use leafdb.Executor.Values.{equal, less}
use leafdb.Executor.Eval.{Row, Parts}
use leafdb.Executor.Compile.{Fn}
use leafdb.Executor.Aggregate.{sort_wrap}
use leafdb.Executor.Join.{is_True}
use leafdb.Executor.Group.{Item}

-- An entry of `order_specs`: a position in the output row, or a closure.
pub data OrderSpec (F : Type 0) : Type 0 where
  idx : ℕ → OrderSpec F
  fn : Fn F → OrderSpec F

abbrev pub or_zero : Option ℕ → ℕ
or_zero none = 0
or_zero (some n) = n

-- projected[start:end]
unfoldable pub slice : {A : Type 0} → Option ℕ → Option ℕ → List A → List A
slice offset none xs = drop (or_zero offset) xs
slice offset (some limit) xs = take limit (drop (or_zero offset) xs)

module _ {F : Type 0} where
  unfoldable pub select_columns : List (String × TableMeta) → List (Expr F × String) → List String
  unfolding colnames
  select_columns sources [] = []
  select_columns sources ((Expr.star t, label) ∷ r) =
      all_columns sources ++ select_columns sources r
    where
      all_columns : List (String × TableMeta) → List String
      all_columns [] = []
      all_columns ((alias, meta) ∷ s) = colnames meta ++ all_columns s
  select_columns sources ((e, label) ∷ r) = label ∷ select_columns sources r

  abbrev pub read_position : Option (Value F) → Result (Value F)
  read_position none = err execution_error
  read_position (some v) = ok v

  unfoldable pub sort_keys : List (OrderSpec F) → Item F → Row F → Result (List (Value F))
  sort_keys [] item out_row = ok []
  sort_keys (OrderSpec.fn f ∷ r) item out_row = do
    v ← f item.parts item.agg_env
    vs ← sort_keys r item out_row
    ok (v ∷ vs)
  sort_keys (OrderSpec.idx i ∷ r) item out_row = do
    v ← read_position (get_elem? out_row i)
    vs ← sort_keys r item out_row
    ok (v ∷ vs)

  star_cells : Option (Row F) → ℕ → Row F
  star_cells none width = replicate width Value.null
  star_cells (some prow) width = take width prow

  -- The cells of `*`: of each source its columns, nulls where the source has no row.
  unfoldable pub star_row : Parts F → ℕ → List (String × TableMeta) → Result (Row F)
  unfolding star_cells
  star_row parts si [] = ok []
  star_row parts si ((alias, meta) ∷ s) = elim (get_elem? parts si) [
    | none ↦ err index_error
    | some prow ↦ do
      rest ← star_row parts (suc si) s
      ok (star_cells prow (length meta.columns) ++ rest)
  ]

  -- The closures of the items, none for `*`.
  unfoldable pub output_row :
      List (String × TableMeta) → List (Option (Fn F)) → Item F → Result (Row F)
  unfolding star_row
  output_row sources [] item = ok []
  output_row sources (none ∷ fns) item = do
    cells ← star_row item.parts 0 sources
    rest ← output_row sources fns item
    ok (cells ++ rest)
  output_row sources (some f ∷ fns) item = do
    v ← f item.parts item.agg_env
    rest ← output_row sources fns item
    ok (v ∷ rest)

  unfoldable pub project :
      List (String × TableMeta)
      → List (Option (Fn F))
      → List (OrderSpec F)
      → List (Item F)
      → Result (List (Row F × List (Value F)))
  unfolding output_row sort_keys
  project sources fns specs [] = ok []
  project sources fns specs (item ∷ items) = do
    out_row ← output_row sources fns item
    keys ← sort_keys specs item out_row
    rest ← project sources fns specs items
    ok ((out_row, keys) ∷ rest)

  -- The rows on which the closure is True.
  unfoldable pub filter_parts : Fn F → List (Parts F) → Result (List (Parts F))
  filter_parts f [] = ok []
  filter_parts f (parts ∷ ps) = do
    v ← f parts none
    rest ← filter_parts f ps
    ok (if is_True v then parts ∷ rest else rest)

  -- staged.get(s)
  unfoldable pub stage_conjuncts : ℕ → List (ℕ × List (Expr F)) → List (Expr F)
  stage_conjuncts s [] = []
  stage_conjuncts s ((t, es) ∷ r) = if t == s then es else stage_conjuncts s r

module _ {F : Type 0} (py : Runtime F) where
  same_row : Row F → Row F → Bool
  same_row [] [] = true
  same_row (v ∷ vs) (w ∷ ws) = equal py v w && same_row vs ws
  same_row vs ws = false

  -- row in seen
  unfoldable pub seen_row : Row F → List (Row F) → Bool
  unfolding same_row
  seen_row row [] = false
  seen_row row (r ∷ rs) = if same_row r row then true else seen_row row rs

  unfoldable pub unique_rows : {K : Type 0} → List (Row F × K) → List (Row F) → List (Row F × K)
  unfolding seen_row
  unique_rows [] seen = []
  unique_rows ((row, keys) ∷ r) seen =
      let rest = unique_rows r seen in
      let fresh = unique_rows r (row ∷ seen) in
      if seen_row row seen then rest else (row, keys) ∷ fresh

  less_value : Value F → Value F → Bool
  less_value v w = elim (less py v w) [ ok b ↦ b | err e ↦ false ]

  -- < on the triples of sort_wrap
  unfoldable pub wrapped_less : ℕ × ℕ × Value F → ℕ × ℕ × Value F → Bool
  unfolding less_value
  wrapped_less (a, b, v) (c, d, w) =
      ltb a c || ((a == c) && (ltb b d || ((b == d) && (not (equal py v w) && less_value v w))))

  key_at : ℕ → List (Value F) → Value F
  key_at p keys = elim (get_elem? keys p) [ none ↦ Value.null | some v ↦ v ]

  -- Whether the sort by key `p` puts one item strictly before another.
  unfoldable pub item_less : ℕ → Bool → Row F × List (Value F) → Row F × List (Value F) → Bool
  unfolding wrapped_less sort_wrap key_at
  item_less p false x y = wrapped_less (sort_wrap (key_at p x.1)) (sort_wrap (key_at p y.1))
  item_less p true x y = wrapped_less (sort_wrap (key_at p y.1)) (sort_wrap (key_at p x.1))

-- list.sort: equal items keep their order, in a reversed sort too.
unfoldable pub insert_stable : {A : Type 0} → (A → A → Bool) → A → List A → List A
insert_stable lt x [] = x ∷ []
insert_stable lt x (y ∷ ys) =
    let rest = insert_stable lt x ys in if lt y x then y ∷ rest else x ∷ y ∷ ys

unfoldable pub stable_sort : {A : Type 0} → (A → A → Bool) → List A → List A
unfolding insert_stable
stable_sort lt [] = []
stable_sort lt (x ∷ xs) = insert_stable lt x (stable_sort lt xs)

module _ {F : Type 0} (py : Runtime F) where
  -- The sorts by the keys from position `p`, the last key's first.
  unfoldable pub sort_by :
      ℕ → List (Expr F × Bool) → List (Row F × List (Value F)) → List (Row F × List (Value F))
  unfolding stable_sort item_less
  sort_by p [] items = items
  sort_by p ((e, desc) ∷ r) items = stable_sort (item_less py p desc) (sort_by (suc p) r items)
