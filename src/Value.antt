-- ===== src/Value.antt =====
-- The values of a row or an expression: None, bool, int, float and str (leafdb/rows.py,
-- leafdb/executor.py). Floats are Python's and their type `F` is a parameter; a str is the list
-- of its code points. `Runtime` holds the operations of Python's runtime and standard library
-- that the program calls.
use leafdb.Prelude.{ℕ, ◌≡◌, List, Bool, length}
use leafdb.Prelude.Int.{ℤ}
use leafdb.Prelude.Errors.{Result, ok}
use leafdb.Bytes.{Bytes}

abbrev pub Text : Type 0
Text = List ℕ

pub data Value (F : Type 0) : Type 0 where
  null : Value F
  bool : Bool → Value F
  int : ℤ → Value F
  float : F → Value F
  text : Text → Value F

-- A part of the pattern that `like_regex` hands to `re`: `.*`, `.`, or one escaped character.
pub data Part : Type 0 where
  any_run any_one : Part
  exactly : ℕ → Part

pub record Runtime (F : Type 0) : Type 0 where
  -- struct.pack(">d", v), struct.unpack(">d", b), str.encode("utf-8"), bytes.decode("utf-8")
  pub pack_d : Value F → Result Bytes
  pub unpack_d : Bytes → F
  pub utf_8 : Text → Result Bytes
  pub of_utf_8 : Bytes → Result Text
  -- x.is_integer(), int(x), float(n), str(v)
  pub is_integer : F → Bool
  pub int_of : F → Result ℤ
  pub float_of : ℤ → Result F
  pub str_of : Value F → Text
  -- arithmetic and order on floats, order of an int against a float, true division of ints
  pub add_f : F → F → F
  pub sub_f : F → F → F
  pub mul_f : F → F → F
  pub div_f : F → F → Result F
  pub neg_f : F → F
  pub lt_f : F → F → Bool
  pub eq_f : F → F → Bool
  pub lt_zf : ℤ → F → Bool
  pub lt_fz : F → ℤ → Bool
  pub eq_zf : ℤ → F → Bool
  pub true_div : ℤ → ℤ → Result F
  -- re.compile("^...$", IGNORECASE | DOTALL).match(s), on the parts of the pattern
  pub re_match : List Part → Text → Bool

-- Documented behaviour: a double takes eight bytes and is read back, and what `encode` returns
-- `decode` reads back.
pub record CodecLaws {F : Type 0} (py : Runtime F) : Type 0 where
  pub length_d : (x : F) (b : Bytes) → py.pack_d (Value.float x) ≡ ok b → length b ≡ 8
  pub unpack_pack_d : (x : F) (b : Bytes) → py.pack_d (Value.float x) ≡ ok b → py.unpack_d b ≡ x
  pub decode_encode : (t : Text) (b : Bytes) → py.utf_8 t ≡ ok b → py.of_utf_8 b ≡ ok t
