-- ===== src/Executor/Select.antt =====
-- `Executor.run_select` and `Executor._scan` of leafdb/executor.py. What the executor calls of
-- leafdb/engine.py is the interface `Database`.
pub mod Output
pub mod Order
use text.Mathlib.Text.{◌==◌ as str_eq}
use leafdb.Prelude.{
  ℕ, zero, suc, ◌+◌, ◌-◌, List, [], ◌∷◌, ◌++◌, Bool, true, false, not, ◌&&◌, ◌||◌, Option, none,
  some, String, if◌then◌else◌, length, ◌==◌, ltb, get_elem?, take, drop, replicate, map,
}
use leafdb.Prelude.Int.{ℤ, pos, negsuc}
use leafdb.Prelude.Errors.{
  Result, Error, ok, err, ◌>>=◌, execution_error, compile_error, sql_error, parse_error,
  transaction_error, index_error,
}
use leafdb.Bytes.{Bytes}
use leafdb.Value.{Value, Runtime}
use leafdb.Rows.{decode_row}
use leafdb.Expr.{Expr, walk_func_nodes}
use leafdb.Statement.{SelectStmt, JoinClause}
use leafdb.Catalog.{TableMeta, colnames, types, contains, index_from}
use leafdb.Catalog.Assoc.{Dict}
use leafdb.Planner.{any_aggregate, aggregate_in, assign_filter_stages}
use leafdb.Planner.Access.{Scan, ScanType, JoinPlan, build_select_plan}
use leafdb.Executor.Scope.{Scope, empty_scope, add, add_agg_alias}
use leafdb.Executor.Values.{equal, less}
use leafdb.Executor.Eval.{Row, Parts, Env}
use leafdb.Executor.Compile.{Fn, compile_expr}
use leafdb.Executor.Aggregate.{sort_wrap}
use leafdb.Executor.Join.{Rows, is_True, join}
use leafdb.Executor.Group.{Item, aggregate, node_id}
use Output.{
  OrderSpec, select_columns, project, filter_parts, stage_conjuncts, slice, unique_rows, sort_by,
}

pub record Database (F : Type 0) : Type 0 where
  pub lookup_meta : String → Result TableMeta
  pub coerce_pk : Value F → Result ℤ
  -- btree.search
  pub search : ℕ → ℤ → Result (Option Bytes)
  pub index_lookup : TableMeta → String → Value F → Result (Rows F)
  pub scan_table : TableMeta → Result (Rows F)

-- Whether an exception is an SQLError.
unfoldable pub is_sql_error : Error → Bool
is_sql_error execution_error = true
is_sql_error compile_error = true
is_sql_error sql_error = true
is_sql_error parse_error = true
is_sql_error transaction_error = true
is_sql_error e = false

module _ {F : Type 0} (py : Runtime F) (lower : String → String) (db : Database F) where
  found_row : TableMeta → ℤ → Option Bytes → Result (Rows F)
  found_row meta key none = ok []
  found_row meta key (some blob) = do row ← decode_row py (types meta) blob; ok ((key, row) ∷ [])

  unfoldable pub scan_pk : TableMeta → Result ℤ → Result (Rows F)
  unfolding found_row is_sql_error
  scan_pk meta (err e) = if is_sql_error e then ok [] else err e
  scan_pk meta (ok key) = do blob ← db.search meta.root_page key; found_row meta key blob

  -- Executor._scan
  unfoldable pub scan : TableMeta → ScanType F → Result (Rows F)
  unfolding scan_pk
  scan meta ScanType.seq = db.scan_table meta
  scan meta (ScanType.index k v) = db.index_lookup meta k v
  scan meta (ScanType.pk k Value.null) = ok []
  scan meta (ScanType.pk k v) = scan_pk meta (db.coerce_pk v)

  -- The conjuncts of one stage, one after another.
  unfoldable pub apply_conjuncts : Scope → List (Expr F) → List (Parts F) → Result (List (Parts F))
  unfolding filter_parts compile_expr
  apply_conjuncts scope [] contexts = ok contexts
  apply_conjuncts scope (conj ∷ r) contexts = do
    f ← compile_expr py lower scope none false conj
    contexts' ← filter_parts f contexts
    apply_conjuncts scope r contexts'

  -- The joins from the one numbered `jidx`, each with its stage behind it.
  unfoldable pub run_joins :
      List (ℕ × List (Expr F))
      → ℕ
      → List (JoinPlan F)
      → Scope
      → List (Parts F)
      → Result (Scope × List (Parts F))
  unfolding apply_conjuncts join add stage_conjuncts
  run_joins staged jidx [] scope contexts = ok (scope, contexts)
  run_joins staged jidx (j ∷ js) scope contexts = do
    scope' ← add j.alias j.meta scope
    joined ← join py lower db.scan_table contexts j scope'
    contexts' ← apply_conjuncts scope' (stage_conjuncts jidx staged) joined
    run_joins staged (suc jidx) js scope' contexts'

  -- The labels of the aggregates among the items.
  unfoldable pub add_labels : List (Expr F × String) → Scope → Scope
  unfolding add_agg_alias
  add_labels [] scope = scope
  add_labels ((Expr.func n i d a, label) ∷ r) scope =
      add_labels r (add_agg_alias lower label i scope)
  add_labels ((Expr.func_star n i, label) ∷ r) scope =
      add_labels r (add_agg_alias lower label i scope)
  add_labels ((e, label) ∷ r) scope = add_labels r scope

  abbrev is_some : {A : Type 0} → Option A → Bool
  is_some none = false
  is_some (some a) = true

  abbrev is_empty : {A : Type 0} → List A → Bool
  is_empty [] = true
  is_empty (x ∷ xs) = false

  -- walk_in_items
  unfoldable pub walk_in_items : SelectStmt F → Bool
  unfolding any_aggregate walk_func_nodes
  walk_in_items sel =
      any_aggregate sel.items || aggregate_in sel.having || any_aggregate sel.order_by

  unfoldable pub is_grouped : SelectStmt F → Bool
  unfolding walk_in_items
  is_grouped sel = not (is_empty sel.group_by) || walk_in_items sel

  -- The scope with the labels of the aggregates, and the groups or rows.
  unfoldable pub make_items : SelectStmt F → List (Parts F) → Scope → Result (Scope × List (Item F))
  unfolding is_grouped add_labels aggregate
  make_items sel contexts scope =
      if is_grouped sel
      then (do
        items ← aggregate py lower sel contexts (add_labels sel.items scope)
        ok (add_labels sel.items scope, items))
      else (if is_some sel.having
          then err execution_error
          else ok (scope, map (λ parts. record { parts = parts; agg_env = none }) contexts))

  unfoldable pub compile_item : Scope → Expr F → Result (Option (Fn F))
  unfolding compile_expr
  compile_item scope (Expr.star t) = ok none
  compile_item scope e = do f ← compile_expr py lower scope none false e; ok (some f)

  unfoldable pub compile_select_items :
      Scope → List (Expr F × String) → Result (List (Option (Fn F)))
  unfolding compile_item
  compile_select_items scope [] = ok []
  compile_select_items scope ((e, label) ∷ r) = do
    f ← compile_item scope e
    fs ← compile_select_items scope r
    ok (f ∷ fs)

  unfoldable pub compile_order : Scope → Bool → Expr F → Result (OrderSpec F)
  unfolding compile_expr
  compile_order scope grouped e = do
    f ← compile_expr py lower scope (if grouped then some scope.agg_aliases else none) grouped e
    ok (OrderSpec.fn f)

  -- A column of the output by its name; an unqualified name that is none is compiled.
  unfoldable pub order_column : Scope → Bool → List String → String → Result (OrderSpec F)
  unfolding compile_order contains index_from
  order_column scope grouped cols k = elim (index_from 0 k cols) [
    | some i ↦ ok (OrderSpec.idx i)
    | none ↦ compile_order scope grouped (Expr.column none k)
  ]

  unfoldable pub order_spec : Scope → Bool → List String → Expr F → Result (OrderSpec F)
  unfolding compile_order order_column
  order_spec scope grouped cols (Expr.literal (Value.int (pos zero))) = err execution_error
  order_spec scope grouped cols (Expr.literal (Value.int (pos (suc n)))) = ok (OrderSpec.idx n)
  order_spec scope grouped cols (Expr.literal (Value.int (negsuc n))) = err execution_error
  order_spec scope grouped cols (Expr.column none k) = order_column scope grouped cols k
  order_spec scope grouped cols e = compile_order scope grouped e

  unfoldable pub order_specs :
      Scope → Bool → List String → List (Expr F × Bool) → Result (List (OrderSpec F))
  unfolding order_spec
  order_specs scope grouped cols [] = ok []
  order_specs scope grouped cols ((e, desc) ∷ r) = do
    s ← order_spec scope grouped cols e
    ss ← order_specs scope grouped cols r
    ok (s ∷ ss)

  -- The output columns and the rows, from the items on.
  unfoldable pub finish : SelectStmt F → Scope → List (Item F) → Result (List String × List (Row F))
  unfolding select_columns compile_select_items order_specs project unique_rows sort_by slice
      is_grouped
  finish sel scope items = do
    let cols = select_columns scope.sources sel.items
    item_fns ← compile_select_items scope sel.items
    specs ← order_specs scope (is_grouped sel) cols sel.order_by
    projected ← project scope.sources item_fns specs items
    let rows = if sel.distinct then unique_rows py projected [] else projected
    ok (cols, map (λ r. r.0) (slice sel.offset sel.limit (sort_by py 0 sel.order_by rows)))

  -- run_select with a plan: its scan, joins and staged filters
  unfoldable pub run_plan :
      SelectStmt F
      → Scan F
      → List (JoinPlan F)
      → List (ℕ × List (Expr F))
      → Result (List String × List (Row F))
  unfolding scan run_joins make_items finish add stage_conjuncts apply_conjuncts
  run_plan sel base joins staged = do
    scope ← add base.alias base.meta empty_scope
    rows ← scan base.meta base.type
    contexts ← apply_conjuncts scope (stage_conjuncts 0 staged) (map (λ r. some r.1 ∷ []) rows)
    (scope', contexts') ← run_joins staged 1 joins scope contexts
    (scope'', items) ← make_items sel contexts' scope'
    finish sel scope'' items

  unfoldable pub run_select : SelectStmt F → Result (List String × List (Row F))
  unfolding build_select_plan assign_filter_stages run_plan
  run_select sel = do
    (base, joins) ← build_select_plan sel db.lookup_meta
    staged ← assign_filter_stages sel db.lookup_meta
    run_plan sel base joins staged
