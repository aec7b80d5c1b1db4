-- ===== src/Executor/Group.antt =====
-- `Executor._aggregate` of leafdb/executor.py: groups in order of their first row, the aggregates
-- of each group, and HAVING.
pub mod Members
use leafdb.Prelude.{
  ℕ, List, [], ◌∷◌, ◌++◌, Bool, true, false, Option, none, some, String, if◌then◌else◌, length,
  ◌==◌, ◌&&◌, replicate, map,
}
use leafdb.Prelude.Int.{pos}
use leafdb.Prelude.Errors.{Result, ok, err, ◌>>=◌, attribute_error}
use leafdb.Value.{Value, Runtime}
use leafdb.Expr.{Expr, walk_func_nodes}
use leafdb.Statement.{SelectStmt}
use leafdb.Executor.Scope.{Scope}
use leafdb.Executor.Values.{equal, eq_text}
use leafdb.Executor.Eval.{Parts, Env}
use leafdb.Executor.Compile.{Fn, compile_expr}
use leafdb.Executor.Aggregate.{
  GroupKey, text_key, null_key, other_key, group_key_value, accumulate, argument_values,
}
use leafdb.Executor.Buckets.{Buckets, bucket_add}
use leafdb.Executor.Join.{is_True, has_index}

-- A group's first row with its aggregates; a row of a query that is not grouped has none.
pub record Item (F : Type 0) : Type 0 where
  pub parts : Parts F
  pub agg_env : Option (Env F)

-- An entry of `compiled_aggs`; COUNT(*) has no closure.
pub record CompiledAgg (F : Type 0) : Type 0 where
  pub fid : ℕ
  pub name : String
  pub argfn : Option (Fn F)
  pub distinct : Bool

module _ {F : Type 0} where
  -- id(f)
  abbrev pub node_id : Expr F → ℕ
  node_id (Expr.func name i d a) = i
  node_id (Expr.func_star name i) = i
  node_id e = 0

  -- The nodes that were not seen, and what has been seen then.
  unfoldable pub collect : List (Expr F) → List ℕ → List (Expr F) × List ℕ
  unfolding has_index
  collect [] seen = ([], seen)
  collect (f ∷ fs) seen =
      let (rest, seen') =
        collect fs (if has_index (node_id f) seen then seen else node_id f ∷ seen) in
      ((if has_index (node_id f) seen then rest else f ∷ rest), seen')

  unfoldable pub func_nodes : SelectStmt F → List (Expr F)
  unfolding collect walk_func_nodes
  func_nodes sel =
      (collect
        (nodes_of (map (λ i. i.0) sel.items)
          ++ having_nodes sel.having
          ++ nodes_of (map (λ o. o.0) sel.order_by))
        []).0
    where
      nodes_of : List (Expr F) → List (Expr F)
      nodes_of [] = []
      nodes_of (e ∷ es) = walk_func_nodes e ++ nodes_of es

      having_nodes : Option (Expr F) → List (Expr F)
      having_nodes none = []
      having_nodes (some e) = walk_func_nodes e

  -- agg_env
  unfoldable pub env_of : List (ℕ × Value F) → Env F
  env_of [] i = none
  env_of ((j, v) ∷ r) i = if j == i then some v else env_of r i

module _ {F : Type 0} (py : Runtime F) where
  -- == on the tuples of _group_key_value
  unfoldable pub same_key : GroupKey F → GroupKey F → Bool
  same_key (text_key s) (text_key t) = eq_text s t
  same_key null_key null_key = true
  same_key (other_key v) (other_key w) = equal py v w
  same_key j k = false

  unfoldable pub same_keys : List (GroupKey F) → List (GroupKey F) → Bool
  unfolding same_key
  same_keys [] [] = true
  same_keys (j ∷ js) (k ∷ ks) = same_key j k && same_keys js ks
  same_keys js ks = false

  unfoldable pub group_key : List (Fn F) → Parts F → Result (List (GroupKey F))
  unfolding group_key_value
  group_key [] parts = ok []
  group_key (fn ∷ fns) parts = do
    v ← fn parts none
    ks ← group_key fns parts
    ok (group_key_value v ∷ ks)

  unfoldable pub group_rows :
      List (Fn F)
      → List (Parts F)
      → Buckets (List (GroupKey F)) (Parts F)
      → Result (Buckets (List (GroupKey F)) (Parts F))
  unfolding group_key same_keys bucket_add
  group_rows fns [] groups = ok groups
  group_rows fns (parts ∷ r) groups = do
    key ← group_key fns parts
    group_rows fns r (bucket_add same_keys key parts groups)

  -- One group of all rows where there is no GROUP BY.
  unfoldable pub make_groups :
      List (Fn F) → List (Parts F) → Result (Buckets (List (GroupKey F)) (Parts F))
  unfolding group_rows
  make_groups [] filtered = ok (([], filtered) ∷ [])
  make_groups (fn ∷ fns) filtered = group_rows (fn ∷ fns) filtered []

  -- v in seen, list(dict.fromkeys(values))
  unfoldable pub has_value : Value F → List (Value F) → Bool
  has_value v [] = false
  has_value v (w ∷ ws) = if equal py w v then true else has_value v ws

  unfoldable pub from_keys : List (Value F) → List (Value F) → List (Value F)
  unfolding has_value
  from_keys [] seen = []
  from_keys (v ∷ vs) seen =
      let rest = from_keys vs seen in
      let fresh = from_keys vs (v ∷ seen) in if has_value v seen then rest else v ∷ fresh

  unfoldable pub agg_value : CompiledAgg F → List (Parts F) → Result (Value F)
  unfolding argument_values from_keys accumulate
  agg_value agg members = elim agg.argfn [
    | none ↦ ok (Value.int (pos (length members)))
    | some argfn ↦ do
      values ← argument_values py argfn members
      accumulate py agg.name (if agg.distinct then from_keys values [] else values)
  ]

  unfoldable pub agg_values : List (CompiledAgg F) → List (Parts F) → Result (List (ℕ × Value F))
  unfolding agg_value
  agg_values [] members = ok []
  agg_values (agg ∷ aggs) members = do
    v ← agg_value agg members
    vs ← agg_values aggs members
    ok ((agg.fid, v) ∷ vs)

  -- members[0] if members else empty_parts
  abbrev pub representative : ℕ → List (Parts F) → Parts F
  representative nslots [] = replicate nslots none
  representative nslots (m ∷ ms) = m

  -- Whether HAVING keeps the group.
  unfoldable pub having_keeps : Option (Fn F) → Parts F → Env F → Result Bool
  having_keeps none rep env = ok true
  having_keeps (some fn) rep env = do v ← fn rep (some env); ok (is_True v)

  unfoldable pub make_units :
      ℕ
      → List (CompiledAgg F)
      → Option (Fn F)
      → Buckets (List (GroupKey F)) (Parts F)
      → Result (List (Item F))
  unfolding agg_values having_keeps env_of
  make_units nslots aggs having_fn [] = ok []
  make_units nslots aggs having_fn ((key, members) ∷ groups) = do
    vs ← agg_values aggs members
    kept ← having_keeps having_fn (representative nslots members) (env_of vs)
    rest ← make_units nslots aggs having_fn groups
    ok (
        if kept
        then record { parts = representative nslots members; agg_env = some (env_of vs) } ∷ rest
        else rest)

module _ {F : Type 0} (py : Runtime F) (lower : String → String) where
  unfoldable pub compile_agg : Scope → Expr F → Result (CompiledAgg F)
  unfolding compile_expr
  compile_agg scope (Expr.func_star name i) =
      ok (record { fid = i; name = name; argfn = none; distinct = false })
  compile_agg scope (Expr.func name i distinct arg) = do
    fn ← compile_expr py lower scope none false arg
    ok (record { fid = i; name = name; argfn = some fn; distinct = distinct })
  compile_agg scope e = err attribute_error

  unfoldable pub compile_aggs : Scope → List (Expr F) → Result (List (CompiledAgg F))
  unfolding compile_agg
  compile_aggs scope [] = ok []
  compile_aggs scope (e ∷ es) = do
    agg ← compile_agg scope e
    aggs ← compile_aggs scope es
    ok (agg ∷ aggs)

  unfoldable pub compile_all : Scope → List (Expr F) → Result (List (Fn F))
  unfolding compile_expr
  compile_all scope [] = ok []
  compile_all scope (e ∷ es) = do
    fn ← compile_expr py lower scope none false e
    fns ← compile_all scope es
    ok (fn ∷ fns)

  unfoldable pub compile_having : Scope → Option (Expr F) → Result (Option (Fn F))
  unfolding compile_expr
  compile_having scope none = ok none
  compile_having scope (some e) = do
    fn ← compile_expr py lower scope (some scope.agg_aliases) true e
    ok (some fn)

  unfoldable pub aggregate : SelectStmt F → List (Parts F) → Scope → Result (List (Item F))
  unfolding func_nodes compile_aggs compile_all compile_having make_groups make_units
  aggregate sel filtered scope = do
    aggs ← compile_aggs scope (func_nodes sel)
    group_key_fns ← compile_all scope sel.group_by
    having_fn ← compile_having scope sel.having
    groups ← make_groups py group_key_fns filtered
    make_units py (length scope.sources) aggs having_fn groups
