-- ===== src/Executor/Join.antt =====
-- `Executor._join` of leafdb/executor.py. A set is a list of its members. The rows of the joined table
-- (`db.scan_table`) are a parameter.
pub mod Hash
pub mod Keys
use leafdb.Prelude.{
  ℕ, zero, suc, ◌-◌, List, [], ◌∷◌, ◌++◌, Bool, true, false, Option, none, some, String,
  if◌then◌else◌, get_elem?, length, ◌==◌, replicate,
}
use leafdb.Prelude.Int.{ℤ, eq_ℤ}
use leafdb.Prelude.Errors.{Result, ok, err, ◌>>=◌, index_error}
use leafdb.Value.{Value, Runtime}
use leafdb.Expr.{Expr}
use leafdb.Catalog.{TableMeta, column_index}
use leafdb.Executor.Scope.{Scope}
use leafdb.Executor.Values.{equal}
use leafdb.Executor.Buckets.{Buckets, bucket, bucket_add}
use leafdb.Executor.Eval.{Row, Parts}
use leafdb.Executor.Compile.{Fn, compile_expr}
use leafdb.Statement.{JoinType}
use leafdb.Planner.{Reference}
use leafdb.Planner.Access.{JoinPlan, Algorithm, hash_join, nested_loop_join}

-- A table's rows with their row ids.
abbrev pub Rows : Type 0 → Type 0
Rows F = List (ℤ × Row F)

-- What `match` fills: the joined rows, and the left indexes and right row ids that matched.
pub record Matches (F : Type 0) : Type 0 where
  pub out : List (Parts F)
  pub matched_left : List ℕ
  pub matched_right : List ℤ

abbrev pub no_matches : {F : Type 0} → Matches F
no_matches = record { out = []; matched_left = []; matched_right = [] }

-- i in matched_left, rid in matched_right
unfoldable pub has_index : ℕ → List ℕ → Bool
has_index i [] = false
has_index i (j ∷ r) = if j == i then true else has_index i r

unfoldable pub has_rid : ℤ → List ℤ → Bool
has_rid i [] = false
has_rid i (j ∷ r) = if eq_ℤ j i then true else has_rid i r

abbrev pub keeps_left : JoinType → Bool
keeps_left JoinType.left = true
keeps_left JoinType.full = true
keeps_left t = false

abbrev pub keeps_right : JoinType → Bool
keeps_right JoinType.right = true
keeps_right JoinType.full = true
keeps_right t = false

module _ {F : Type 0} where
  -- v is True, v is not None
  abbrev pub is_True : Value F → Bool
  is_True (Value.bool b) = b
  is_True v = false

  abbrev pub is_known : Value F → Bool
  is_known Value.null = false
  is_known v = true

  unfoldable pub row_cell : Row F → ℕ → Result (Value F)
  row_cell row j = elim (get_elem? row j) [ none ↦ err index_error | some v ↦ ok v ]

  unfoldable pub match : Fn F → Parts F → ℕ → ℤ × Row F → Matches F → Result (Matches F)
  match on_fn parts left_i (rid_r, rrow) m = do
    v ← on_fn (parts ++ some rrow ∷ []) none
    ok (
        if is_True v
        then record {
          out = m.out ++ (parts ++ some rrow ∷ []) ∷ [];
          matched_left = left_i ∷ m.matched_left;
          matched_right = rid_r ∷ m.matched_right;
        }
        else m)

  -- One left row against rows of the right.
  unfoldable pub match_rows : Fn F → Parts F → ℕ → Rows F → Matches F → Result (Matches F)
  unfolding match
  match_rows on_fn parts i [] m = ok m
  match_rows on_fn parts i (r ∷ rs) m = do
    m' ← match on_fn parts i r m
    match_rows on_fn parts i rs m'

  -- One right row against left rows.
  unfoldable pub match_parts :
      Fn F → ℤ × Row F → List (ℕ × Parts F) → Matches F → Result (Matches F)
  unfolding match
  match_parts on_fn r [] m = ok m
  match_parts on_fn r ((i, parts) ∷ ps) m = do
    m' ← match on_fn parts i r m
    match_parts on_fn r ps m'

  unfoldable pub nested_loop : Fn F → ℕ → List (Parts F) → Rows F → Matches F → Result (Matches F)
  unfolding match_rows
  nested_loop on_fn i [] rows m = ok m
  nested_loop on_fn i (parts ∷ ps) rows m = do
    m' ← match_rows on_fn parts i rows m
    nested_loop on_fn (suc i) ps rows m'

  -- The left rows, and then the right rows, that nothing matched.
  unfoldable pub left_over : ℕ → List (Parts F) → List ℕ → List (Parts F)
  unfolding has_index
  left_over i [] matched = []
  left_over i (parts ∷ ps) matched =
      let rest = left_over (suc i) ps matched in
      if has_index i matched then rest else (parts ++ none ∷ []) ∷ rest

  unfoldable pub right_over : ℕ → Rows F → List ℤ → List (Parts F)
  unfolding has_rid
  right_over width [] matched = []
  right_over width ((rid, row) ∷ rs) matched =
      let rest = right_over width rs matched in
      if has_rid rid matched then rest else (replicate width none ++ some row ∷ []) ∷ rest

  unfoldable pub outer : JoinType → ℕ → List (Parts F) → Rows F → Matches F → List (Parts F)
  unfolding left_over right_over
  outer jtype width left_rows right_rows m =
      m.out
      ++ (if keeps_left jtype then left_over 0 left_rows m.matched_left else [])
      ++ (if keeps_right jtype then right_over width right_rows m.matched_right else [])

module _ {F : Type 0} (py : Runtime F) where
  unfoldable pub build_right :
      ℕ → Rows F → Buckets (Value F) (ℤ × Row F) → Result (Buckets (Value F) (ℤ × Row F))
  unfolding row_cell bucket_add
  build_right nidx [] table = ok table
  build_right nidx ((rid, row) ∷ rs) table = do
    k ← row_cell row nidx
    build_right nidx rs (if is_known k then bucket_add (equal py) k (rid, row) table else table)

  unfoldable pub probe_right :
      Fn F
      → Fn F
      → ℕ
      → List (Parts F)
      → Buckets (Value F) (ℤ × Row F)
      → Matches F
      → Result (Matches F)
  unfolding match_rows bucket
  probe_right on_fn acc_fn i [] table m = ok m
  probe_right on_fn acc_fn i (parts ∷ ps) table m = do
    lk ← acc_fn parts none
    m' ← if is_known lk then match_rows on_fn parts i (bucket (equal py) lk table) m else ok m
    probe_right on_fn acc_fn (suc i) ps table m'

  unfoldable pub build_left :
      Fn F
      → ℕ
      → List (Parts F)
      → Buckets (Value F) (ℕ × Parts F)
      → Result (Buckets (Value F) (ℕ × Parts F))
  unfolding bucket_add
  build_left acc_fn i [] table = ok table
  build_left acc_fn i (parts ∷ ps) table = do
    lk ← acc_fn parts none
    build_left acc_fn (suc i) ps
        (if is_known lk then bucket_add (equal py) lk (i, parts) table else table)

  unfoldable pub probe_left :
      Fn F → ℕ → Rows F → Buckets (Value F) (ℕ × Parts F) → Matches F → Result (Matches F)
  unfolding row_cell match_parts bucket
  probe_left on_fn nidx [] table m = ok m
  probe_left on_fn nidx ((rid, row) ∷ rs) table m = do
    rk ← row_cell row nidx
    m' ← if is_known rk then match_parts on_fn (rid, row) (bucket (equal py) rk table) m else ok m
    probe_left on_fn nidx rs table m'

  -- The matches by one of the three loops.
  unfoldable pub hash_matches :
      Bool → Fn F → Fn F → ℕ → List (Parts F) → Rows F → Result (Matches F)
  unfolding build_right probe_right build_left probe_left
  hash_matches true on_fn acc_fn nidx left_rows right_rows = do
    table ← build_right nidx right_rows []
    probe_right on_fn acc_fn 0 left_rows table no_matches
  hash_matches false on_fn acc_fn nidx left_rows right_rows = do
    table ← build_left acc_fn 0 left_rows []
    probe_left on_fn nidx right_rows table no_matches

module _ {F : Type 0} (py : Runtime F) (lower : String → String) where
  unfoldable pub find_matches :
      Algorithm → TableMeta → Scope → Fn F → List (Parts F) → Rows F → Result (Matches F)
  unfolding hash_matches nested_loop
  find_matches nested_loop_join meta scope on_fn left_rows right_rows =
      nested_loop on_fn 0 left_rows right_rows no_matches
  find_matches (hash_join (acc, new_key) on_right) meta scope on_fn left_rows right_rows = do
    acc_fn ← compile_expr py lower scope none false (Expr.column acc.0 acc.1)
    nidx ← column_index meta new_key.1
    hash_matches py on_right on_fn acc_fn nidx left_rows right_rows

  unfoldable pub join :
      (TableMeta → Result (Rows F)) → List (Parts F) → JoinPlan F → Scope → Result (List (Parts F))
  unfolding find_matches outer
  join scan_table left_rows j scope = do
    on_fn ← compile_expr py lower scope none false j.on
    right_rows ← scan_table j.meta
    m ← find_matches j.algo j.meta scope on_fn left_rows right_rows
    ok (outer j.jtype (length scope.sources - 1) left_rows right_rows m)
