-- ===== src/Planner/Access.antt =====
-- `build_select_plan` and `find_join_equi` of leafdb/planner.py: the access path of the base table
-- and the algorithm, keys and estimate of each join.
use text.Mathlib.Text.{◌==◌ as str_eq}
use leafdb.Prelude.{
  ℕ, ◌*◌, ◌/◌, List, [], ◌∷◌, ◌++◌, Bool, ◌&&◌, Option, none, some, String, leb, if◌then◌else◌, max,
}
use leafdb.Prelude.Errors.{Result, ok, ◌>>=◌}
use leafdb.Value.{Value}
use leafdb.Expr.{Expr, BinaryOp}
use leafdb.Catalog.{TableMeta, colnames, contains, pk_column}
use leafdb.Catalog.Assoc.{Dict, get, has, put}
use leafdb.Statement.{SelectStmt, JoinClause, JoinType}
use leafdb.Planner.{
  Reference, flatten_and, column_matches, find_equi_predicates, hits, single, alias_or,
  conjuncts_of,
}

pub data ScanType (F : Type 0) : Type 0 where
  seq : ScanType F
  pk index : String → Value F → ScanType F

pub record Scan (F : Type 0) : Type 0 where
  pub table : String
  pub alias : String
  pub meta : TableMeta
  pub type : ScanType F
  pub est_rows : ℕ

-- owner, in find_join_equi
unfoldable pub owner : Dict TableMeta → String → TableMeta → Reference → Option String
unfolding get hits contains colnames
owner known ralias rmeta (none, k) = single (hits k (known ++ (ralias, rmeta) ∷ []))
owner known ralias rmeta (some t, k) =
    if str_eq t ralias
    then (if contains k (colnames rmeta) then some ralias else none)
    else elim (get t known) [
      | none ↦ none
      | some m ↦ if contains k (colnames m) then some t else none
    ]

abbrev pub join_keys :
    String → Option String → Option String → String → String → Option (Reference × Reference)
join_keys ralias (some lo) (some ro) l r =
    if str_eq lo ro
    then none
    else (if str_eq ro ralias
        then some ((some lo, l), (some ralias, r))
        else (if str_eq lo ralias then some ((some ro, r), (some ralias, l)) else none))
join_keys ralias lo ro l r = none

module _ {F : Type 0} where
  -- The first equality on the primary key.
  unfoldable pub pk_value :
      String → String → List String → List (Reference × Value F) → Option (Value F)
  unfolding column_matches
  pk_value key alias names [] = none
  pk_value key alias names ((c, v) ∷ r) =
      if column_matches c alias names && str_eq c.1 key then some v else pk_value key alias names r

  -- The first equality on an indexed column.
  unfoldable pub index_value :
      Dict String → String → List String → List (Reference × Value F) → Option (String × Value F)
  unfolding column_matches has
  index_value indexes alias names [] = none
  index_value indexes alias names ((c, v) ∷ r) =
      if column_matches c alias names && has c.1 indexes
      then some (c.1, v)
      else index_value indexes alias names r

  abbrev pub pk_access :
      Option String → String → List String → List (Reference × Value F) → Option (String × Value F)
  unfolding pk_value
  pk_access none alias names eqs = none
  pk_access (some key) alias names eqs =
      if str_eq key ""
      then none
      else elim (pk_value key alias names eqs) [ none ↦ none | some v ↦ some (key, v) ]

  unfoldable pub choose_scan : String → TableMeta → List (Reference × Value F) → ScanType F × ℕ
  unfolding index_value colnames pk_column
  choose_scan alias base eqs = elim (pk_access (pk_column base) alias (colnames base) eqs) [
    | some (k, v) ↦ (ScanType.pk k v, 1)
    | none ↦ elim (index_value base.indexes alias (colnames base) eqs) [
      | some (k, v) ↦ (ScanType.index k v, max 1 (base.row_count / 100))
      | none ↦ (ScanType.seq, max base.row_count 1)
    ]
  ]

module _ {F : Type 0} where
  -- The key on the joined side and the key on the new side.
  unfoldable pub join_equi :
      Dict TableMeta → String → TableMeta → Expr F → Option (Reference × Reference)
  unfolding owner
  join_equi known ralias rmeta (Expr.bin_op BinaryOp.eq (Expr.column t k) (Expr.column t' k')) =
      join_keys ralias (owner known ralias rmeta (t, k)) (owner known ralias rmeta (t', k')) k k'
  join_equi known ralias rmeta e = none

  unfoldable pub find_join_equi :
      List (Expr F) → Dict TableMeta → String → TableMeta → Option (Reference × Reference)
  unfolding join_equi
  find_join_equi [] known ralias rmeta = none
  find_join_equi (c ∷ cs) known ralias rmeta = elim (join_equi known ralias rmeta c) [
    | some keys ↦ some keys
    | none ↦ find_join_equi cs known ralias rmeta
  ]

pub data Algorithm : Type 0 where
  -- the keys, and whether the table is built on the right side
  hash_join : Reference × Reference → Bool → Algorithm
  nested_loop_join : Algorithm

pub record JoinPlan (F : Type 0) : Type 0 where
  pub jtype : JoinType
  pub table : String
  pub alias : String
  pub meta : TableMeta
  pub on : Expr F
  pub algo : Algorithm

abbrev choose_join : Option (Reference × Reference) → ℕ → ℕ → Algorithm × ℕ
choose_join none left_est right_est = (nested_loop_join, max 1 (left_est * right_est / 10))
choose_join (some keys) left_est right_est =
    (hash_join keys (leb right_est left_est), max left_est right_est)

module _ {F : Type 0} where
  unfoldable pub plan_joins :
      (String → Result TableMeta)
      → Dict TableMeta
      → ℕ
      → List (JoinClause F)
      → Result (List (JoinPlan F))
  unfolding find_join_equi flatten_and alias_or put
  plan_joins lookup_meta known left_est [] = ok []
  plan_joins lookup_meta known left_est (j ∷ js) = do
    jmeta ← lookup_meta j.table
    let jalias = alias_or j.alias j.table
    let (algo, est_out) =
        choose_join (find_join_equi (flatten_and j.on) known jalias jmeta) left_est
          (max jmeta.row_count 1)
    rest ← plan_joins lookup_meta (put jalias jmeta known) est_out js
    ok (
        record {
          jtype = j.jtype;
          table = j.table;
          alias = jalias;
          meta = jmeta;
          on = j.on;
          algo = algo;
        }
        ∷ rest)

  unfoldable pub build_select_plan :
      SelectStmt F → (String → Result TableMeta) → Result (Scan F × List (JoinPlan F))
  unfolding choose_scan find_equi_predicates plan_joins alias_or
  build_select_plan sel lookup_meta = do
    base ← lookup_meta sel.table
    let alias = alias_or sel.alias sel.table
    let (type, est) = choose_scan alias base (find_equi_predicates (conjuncts_of sel.condition))
    joins ← plan_joins lookup_meta ((alias, base) ∷ []) est sel.joins
    ok (
      record { table = sel.table; alias = alias; meta = base; type = type; est_rows = est },
      joins,
    )
