-- ===== src/Executor/Values.antt =====
-- The operations on values that both evaluators of leafdb/executor.py share: truth, equality,
-- order, three-valued logic and LIKE patterns.
use Prim.Native.Nat.{Ordering}
use leafdb.Prelude.{
  List, [], ◌∷◌, Bool, true, false, not, ◌&&◌, ◌||◌, Option, none, some, if◌then◌else◌, ltb, ◌==◌,
}
use leafdb.Prelude.Int.{ℤ, pos, ltb_ℤ, eq_ℤ, ◌-ℤ◌}
use leafdb.Prelude.Errors.{Result, ok, err, ◌>>=◌, execution_error, type_error}
use leafdb.Value.{Value, Text, Runtime, Part, any_run, any_one, exactly}

-- s < t and s == t on str: by code points.
unfoldable pub lt_text : Text → Text → Bool
lt_text [] [] = false
lt_text [] (d ∷ t) = true
lt_text (c ∷ s) [] = false
lt_text (c ∷ s) (d ∷ t) = let rest = lt_text s t in if c == d then rest else ltb c d

unfoldable pub eq_text : Text → Text → Bool
eq_text [] [] = true
eq_text (c ∷ s) (d ∷ t) = (c == d) && eq_text s t
eq_text s t = false

abbrev pub int_of_bool : Bool → ℤ
int_of_bool true = pos 1
int_of_bool false = pos 0

-- A bool is an int where a number is wanted.
pub data Num (F : Type 0) : Type 0 where
  whole : ℤ → Num F
  real : F → Num F

-- Result of a three-valued test.
abbrev pub of_bool3 : {F : Type 0} → Option Bool → Value F
of_bool3 none = Value.null
of_bool3 (some b) = Value.bool b

same_bool : Bool → Bool → Bool
same_bool true b = b
same_bool false b = not b

-- A TypeError inside `_order_cmp` becomes an ExecutionError.
unfoldable pub catch_type : {A : Type 0} → Result A → Result A
catch_type (ok a) = ok a
catch_type (err e) = err execution_error

unfoldable pub and3 : Option Bool → Option Bool → Option Bool
and3 (some false) r = some false
and3 l (some false) = some false
and3 none r = none
and3 l none = none
and3 (some true) (some true) = some true

or3 : Option Bool → Option Bool → Option Bool
or3 (some true) r = some true
or3 l (some true) = some true
or3 none r = none
or3 l none = none
or3 (some false) (some false) = some false

-- like_regex: the parts of the pattern that is compiled.
unfoldable pub like_regex : Text → List Part
like_regex [] = []
like_regex (c ∷ s) =
    (if c == b'%' then any_run else if c == b'_' then any_one else exactly c) ∷ like_regex s

abbrev pub negate_if : Bool → Bool → Bool
negate_if negated b = if negated then not b else b

module _ {F : Type 0} where
  unfoldable pub is_text : Value F → Bool
  is_text (Value.text s) = true
  is_text v = false

  -- _require_number
  unfoldable pub require_number : Value F → Result (Unit {0})
  require_number (Value.int z) = ok tt
  require_number (Value.float x) = ok tt
  require_number v = err execution_error

module _ {F : Type 0} (py : Runtime F) where
  -- bool(v)
  unfoldable pub truthy : Value F → Bool
  truthy Value.null = false
  truthy (Value.bool b) = b
  truthy (Value.int z) = not (eq_ℤ z (pos 0))
  truthy (Value.float x) = not (py.eq_zf (pos 0) x)
  truthy (Value.text []) = false
  truthy (Value.text (c ∷ s)) = true

  lt_num : Num F → Num F → Bool
  lt_num (whole a) (whole b) = ltb_ℤ a b
  lt_num (whole a) (real y) = py.lt_zf a y
  lt_num (real x) (whole b) = py.lt_fz x b
  lt_num (real x) (real y) = py.lt_f x y

  eq_num : Num F → Num F → Bool
  eq_num (whole a) (whole b) = eq_ℤ a b
  eq_num (whole a) (real y) = py.eq_zf a y
  eq_num (real x) (whole b) = py.eq_zf b x
  eq_num (real x) (real y) = py.eq_f x y

  num_of : Value F → Option (Num F)
  num_of (Value.bool b) = some (whole (int_of_bool b))
  num_of (Value.int z) = some (whole z)
  num_of (Value.float x) = some (real x)
  num_of v = none

  eq_nums : Option (Num F) → Option (Num F) → Bool
  eq_nums (some a) (some b) = eq_num a b
  eq_nums none none = true
  eq_nums a b = false

  -- l == r
  unfoldable pub equal : Value F → Value F → Bool
  unfolding eq_nums eq_num num_of eq_text
  equal (Value.text s) (Value.text t) = eq_text s t
  equal (Value.text s) r = false
  equal l (Value.text t) = false
  equal l r = eq_nums (num_of l) (num_of r)

  lt_nums : Option (Num F) → Option (Num F) → Result Bool
  lt_nums (some a) (some b) = ok (lt_num a b)
  lt_nums a b = err type_error

  -- l < r, which raises TypeError on a None or on a str against a number.
  unfoldable pub less : Value F → Value F → Result Bool
  unfolding lt_nums lt_num num_of lt_text
  less (Value.text s) (Value.text t) = ok (lt_text s t)
  less (Value.text s) r = err type_error
  less l (Value.text t) = err type_error
  less l r = lt_nums (num_of l) (num_of r)

  -- l <= r
  unfoldable pub less_eq : Value F → Value F → Result Bool
  unfolding less equal
  less_eq l r = do b ← less l r; ok (b || equal l r)

  -- _eq
  unfoldable pub eq_values : Value F → Value F → Bool
  unfolding same_bool is_text equal
  eq_values l r = if same_bool (is_text l) (is_text r) then equal l r else false

  -- _order_cmp; -1, 0 and 1 are `lt`, `eq` and `gt`.
  unfoldable pub order_cmp : Value F → Value F → Result Ordering
  unfolding same_bool is_text less catch_type
  order_cmp l r =
      if same_bool (is_text l) (is_text r)
      then catch_type (do
        below ← less l r
        above ← less r l
        ok (if below then Ordering.lt else if above then Ordering.gt else Ordering.eq))
      else err execution_error

  unfoldable pub truth3 : Value F → Option Bool
  unfolding truthy
  truth3 Value.null = none
  truth3 v = some (truthy v)

  -- _kleene
  unfoldable pub kleene_and : Value F → Value F → Value F
  unfolding truth3 and3
  kleene_and l r = of_bool3 (and3 (truth3 l) (truth3 r))

  unfoldable pub kleene_or : Value F → Value F → Value F
  unfolding truth3 or3
  kleene_or l r = of_bool3 (or3 (truth3 l) (truth3 r))

  -- The operand as the text that LIKE matches.
  unfoldable pub like_subject : Value F → Text
  like_subject (Value.text s) = s
  like_subject (Value.bool b) = py.str_of (Value.int (int_of_bool b))
  like_subject v = py.str_of v

  float_pair : ℤ → F → (F → F → F) → Result (Value F)
  float_pair z y f = do x ← py.float_of z; ok (Value.float (f x y))

  -- l + r, l - r, l * r on two numbers: an int beside a float is converted.
  unfoldable pub arith2 : (ℤ → ℤ → ℤ) → (F → F → F) → Value F → Value F → Result (Value F)
  unfolding float_pair
  arith2 f g (Value.int a) (Value.int b) = ok (Value.int (f a b))
  arith2 f g (Value.int a) (Value.float y) = float_pair a y g
  arith2 f g (Value.float x) (Value.int b) = float_pair b x (λ u v. g v u)
  arith2 f g (Value.float x) (Value.float y) = ok (Value.float (g x y))
  arith2 f g l r = err type_error

  -- r == 0, then l / r, truncated by int() if both are ints.
  unfoldable pub divide : Value F → Value F → Result (Value F)
  divide (Value.int a) (Value.int b) =
      if eq_ℤ b (pos 0)
      then ok Value.null
      else (do q ← py.true_div a b; z ← py.int_of q; ok (Value.int z))
  divide (Value.int a) (Value.float y) =
      if py.eq_zf (pos 0) y
      then ok Value.null
      else (do x ← py.float_of a; q ← py.div_f x y; ok (Value.float q))
  divide (Value.float x) (Value.int b) =
      if eq_ℤ b (pos 0)
      then ok Value.null
      else (do y ← py.float_of b; q ← py.div_f x y; ok (Value.float q))
  divide (Value.float x) (Value.float y) =
      if py.eq_zf (pos 0) y then ok Value.null else (do q ← py.div_f x y; ok (Value.float q))
  divide l r = err type_error

  unfoldable pub negate : Value F → Result (Value F)
  unfolding ◌-ℤ◌
  negate (Value.int z) = ok (Value.int (pos 0 -ℤ z))
  negate (Value.float x) = ok (Value.float (py.neg_f x))
  negate v = err execution_error
