-- ===== src/Tests/Runtime.antt =====
-- A runtime whose floats are natural numbers, with its laws.
use leafdb.Prelude.{ℕ, ◌+◌, ◌-◌, ◌*◌, ap, ◌∙◌, [], true, false, length, ltb, ◌==◌}
use leafdb.Prelude.Int.{ℤ, pos, negsuc}
use leafdb.Prelude.Errors.{Result, ok, err, overflow_error, type_error}
use leafdb.Bytes.{Bytes, pack, un_be_from}
use leafdb.Bytes.RoundTrip.{pack-eq-ok, length-be, un_be-be}
use leafdb.Value.{Value, Runtime, CodecLaws}

abbrev pack_float : Value ℕ → Result Bytes
pack_float (Value.float x) = pack 8 x
pack_float v = err type_error

abbrev number : ℤ → Result ℕ
number (pos n) = ok n
number (negsuc n) = err overflow_error

abbrev pub py : Runtime ℕ
py = record {
  pack_d = pack_float;
  unpack_d = un_be_from 0;
  utf_8 = λ t. ok t;
  of_utf_8 = λ b. ok b;
  is_integer = λ x. true;
  int_of = λ x. ok (pos x);
  float_of = number;
  str_of = λ v. [];
  add_f = λ x y. x + y;
  sub_f = λ x y. x - y;
  mul_f = λ x y. x * y;
  div_f = λ x y. ok x;
  neg_f = λ x. x;
  lt_f = ltb;
  eq_f = λ x y. x == y;
  lt_zf = λ z x. false;
  lt_fz = λ x z. false;
  eq_zf = λ z x. false;
  true_div = λ a b. err type_error;
  re_match = λ ps t. false;
}

pub py_laws : CodecLaws py
py_laws = record {
  length_d = λ x b p. (let (_, e) = pack-eq-ok 8 x b p in ap length e ∙ length-be 8 x);
  unpack_pack_d =
      λ x b p. (let (h, e) = pack-eq-ok 8 x b p in ap (un_be_from 0) e ∙ un_be-be 8 x h);
  decode_encode = λ t b p. cc;
}
