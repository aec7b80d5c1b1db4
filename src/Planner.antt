-- ===== src/Planner.antt =====
-- leafdb/planner.py: the conjuncts of a WHERE clause, the access path of the base table, the keys
-- of an equi-join and the stage at which a conjunct is applied. A set of aliases is a list; the
-- texts of EXPLAIN are not modelled.
pub mod Conjuncts
pub mod Access
use text.Mathlib.Text.{◌==◌ as str_eq}
use leafdb.Prelude.{
  ℕ, zero, suc, ◌+◌, ◌-◌, ◌*◌, ◌/◌, List, [], ◌∷◌, ◌++◌, Bool, true, false, not, ◌&&◌, ◌||◌, Option,
  none, some, String, ltb, leb, ◌==◌, if◌then◌else◌, length, get_elem?, max, min,
}
use leafdb.Prelude.Errors.{Result, ok, err, ◌>>=◌}
use leafdb.Value.{Value}
use leafdb.Expr.{Expr, Exprs, BinaryOp, walk_func_nodes}
use leafdb.Statement.{JoinClause, SelectStmt}
use leafdb.Catalog.{TableMeta, colnames, contains, pk_column}
use leafdb.Catalog.Assoc.{Dict, get, has, put}

unfoldable pub flatten_and : {F : Type 0} → Expr F → List (Expr F)
flatten_and (Expr.bin_op BinaryOp.and l r) = flatten_and l ++ flatten_and r
flatten_and e = e ∷ []

-- A column reference: its qualifier and its name.
abbrev pub Reference : Type 0
Reference = Option String × String

unfoldable pub column_matches : Reference → String → List String → Bool
column_matches (none, k) alias names = contains k names
column_matches (some t, k) alias names = str_eq t alias && contains k names

unfoldable pub equi_predicate : {F : Type 0} → Expr F → List (Reference × Value F)
equi_predicate (Expr.bin_op BinaryOp.eq (Expr.column t k) (Expr.literal v)) = ((t, k), v) ∷ []
equi_predicate (Expr.bin_op BinaryOp.eq (Expr.literal v) (Expr.column t k)) = ((t, k), v) ∷ []
equi_predicate e = []

unfoldable pub find_equi_predicates : {F : Type 0} → List (Expr F) → List (Reference × Value F)
unfolding equi_predicate
find_equi_predicates [] = []
find_equi_predicates (c ∷ cs) = equi_predicate c ++ find_equi_predicates cs

-- The columns that `gather` collects: it does not enter the pattern of LIKE.
unfoldable mutual
  pub gather : {F : Type 0} → Expr F → List Reference
  gather (Expr.column t k) = (t, k) ∷ []
  gather (Expr.bin_op op l r) = gather l ++ gather r
  gather (Expr.unary_op op e) = gather e
  gather (Expr.is_null e n) = gather e
  gather (Expr.between e lo hi n) = gather e ++ gather lo ++ gather hi
  gather (Expr.in_list e items n) = gather e ++ gather_items items
  gather (Expr.like e pattern_ n) = gather e
  gather e = []

  pub gather_items : {F : Type 0} → Exprs F → List Reference
  gather_items Exprs.nil = []
  gather_items (Exprs.cons e es) = gather e ++ gather_items es

-- The aliases of the sources that have a column of the name.
unfoldable pub hits : String → Dict TableMeta → List String
unfolding contains colnames
hits k [] = []
hits k ((a, m) ∷ r) = if contains k (colnames m) then a ∷ hits k r else hits k r

abbrev pub single : List String → Option String
single (a ∷ []) = some a
single as_ = none

-- The source that a reference belongs to.
unfoldable pub source_of : Dict TableMeta → Reference → Option String
unfolding get hits contains colnames
source_of sources (none, k) = single (hits k sources)
source_of sources (some t, k) = elim (get t sources) [
  | none ↦ none
  | some m ↦ if contains k (colnames m) then some t else none
]

unfoldable pub sources_of : Dict TableMeta → List Reference → Option (List String)
unfolding source_of
sources_of sources [] = some []
sources_of sources (c ∷ cs) = elim (source_of sources c) [
  | none ↦ none
  | some a ↦ elim (sources_of sources cs) [ none ↦ none | some as_ ↦ some (a ∷ as_) ]
]

abbrev pub no_aggregates : {F : Type 0} → List (Expr F) → Bool
no_aggregates [] = true
no_aggregates (e ∷ es) = false

unfoldable pub conjunct_tables : {F : Type 0} → Expr F → Dict TableMeta → Option (List String)
unfolding walk_func_nodes gather sources_of
conjunct_tables e sources =
    if no_aggregates (walk_func_nodes e) then sources_of sources (gather e) else none

unfoldable pub any_aggregate : {F : Type 0} {B : Type 0} → List (Expr F × B) → Bool
unfolding walk_func_nodes
any_aggregate [] = false
any_aggregate ((e, b) ∷ r) = if no_aggregates (walk_func_nodes e) then any_aggregate r else true

abbrev pub aggregate_in : {F : Type 0} → Option (Expr F) → Bool
unfolding walk_func_nodes
aggregate_in none = false
aggregate_in (some e) = if no_aggregates (walk_func_nodes e) then false else true

unfoldable pub has_aggregate : {F : Type 0} → SelectStmt F → Bool
unfolding any_aggregate walk_func_nodes
has_aggregate sel = any_aggregate sel.items || aggregate_in sel.having || any_aggregate sel.order_by

-- alias or table: an empty alias is none.
unfoldable pub alias_or : Option String → String → String
alias_or none table = table
alias_or (some a) table = if str_eq a "" then table else a

-- The sources that are joined at each stage, the base scan's first.
unfoldable pub stages_from :
    {F : Type 0}
    → (String → Result TableMeta)
    → Dict TableMeta
    → List (JoinClause F)
    → Result (List (Dict TableMeta))
unfolding alias_or put
stages_from lookup_meta running [] = ok (running ∷ [])
stages_from lookup_meta running (j ∷ js) = do
  meta ← lookup_meta j.table
  rest ← stages_from lookup_meta (put (alias_or j.alias j.table) meta running) js
  ok (running ∷ rest)

-- The sources of the last stage.
unfoldable pub last_stage : Dict TableMeta → List (Dict TableMeta) → Dict TableMeta
last_stage d [] = d
last_stage d (e ∷ es) = last_stage e es

-- refs <= set(avail)
unfoldable pub subset : List String → Dict TableMeta → Bool
unfolding has
subset [] d = true
subset (a ∷ as_) d = if has a d then subset as_ d else false

-- The loop over the stages from `s`; `total` where none fits.
unfoldable pub first_stage : {F : Type 0} → Expr F → ℕ → ℕ → List (Dict TableMeta) → ℕ
unfolding subset conjunct_tables
first_stage e total s [] = total
first_stage e total s (avail ∷ r) = elim (conjunct_tables e avail) [
  | none ↦ first_stage e total (suc s) r
  | some refs ↦ if subset refs avail then s else first_stage e total (suc s) r
]

unfoldable pub stage_of : {F : Type 0} → ℕ → Dict TableMeta → List (Dict TableMeta) → Expr F → ℕ
unfolding conjunct_tables first_stage
stage_of total joined avail e = elim (conjunct_tables e joined) [
  | none ↦ total
  | some refs ↦ first_stage e total 0 avail
]

-- staged.setdefault(stage, []).append(conj)
unfoldable pub stage_add :
    {F : Type 0} → ℕ → Expr F → List (ℕ × List (Expr F)) → List (ℕ × List (Expr F))
stage_add s e [] = (s, e ∷ []) ∷ []
stage_add s e ((t, es) ∷ r) = if t == s then (t, es ++ e ∷ []) ∷ r else (t, es) ∷ stage_add s e r

unfoldable pub stage_all :
    {F : Type 0}
    → (Expr F → ℕ)
    → List (Expr F)
    → List (ℕ × List (Expr F))
    → List (ℕ × List (Expr F))
unfolding stage_add
stage_all f [] staged = staged
stage_all f (e ∷ es) staged = stage_all f es (stage_add (f e) e staged)

abbrev pub conjuncts_of : {F : Type 0} → Option (Expr F) → List (Expr F)
unfolding flatten_and
conjuncts_of none = []
conjuncts_of (some e) = flatten_and e

unfoldable pub assign_filter_stages :
    {F : Type 0} → SelectStmt F → (String → Result TableMeta) → Result (List (ℕ × List (Expr F)))
unfolding stages_from last_stage stage_all stage_of alias_or
assign_filter_stages sel lookup_meta = do
  base ← lookup_meta sel.table
  let start = (alias_or sel.alias sel.table, base) ∷ []
  avail ← stages_from lookup_meta start sel.joins
  ok (
      stage_all (stage_of (length sel.joins) (last_stage start avail) avail)
        (conjuncts_of sel.condition) [])
