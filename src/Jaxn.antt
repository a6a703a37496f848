-- ===== src/Jaxn.antt =====
-- jaxn_action.hpp: the calls on `jaxn_to_entry` that the rules of the JAXN grammar make.
pub mod Number
pub mod Rebuilt
pub mod Hexnum
use config.Common.{
  Text, ℕ, pos, Bool, true, false, Option, none, some, List, [], ◌∷◌, Position, Result, ok, err,
  ◌>>=◌, undefined,
}
use config.Data.{Entry}
use config.JaxnToEntry.{Call, Consumer, consume_all}
use config.Jaxn.Hexnum.{hexnum as hexadecimal_call}
use config.Jaxn.Number.{NumberState, read_digits, esign, edigits}

-- The digits of a number, with what follows an `e`: a sign and digits.
pub record NumberText : Type 0 where
  pub integer : Text
  pub fraction : Option Text
  pub exponent : Option (Option ℕ × Text)
  pub exponent_position : Position

-- single_string and string, key, and single_binary and binary, which have their own actions inside.
pub data UnescapedRule : Type 0 where
  string key binary : UnescapedRule

-- A rule that has an action, with what it has matched; the texts of a string, a key and a binary are
-- those that the unescape actions of the json library leave.
pub data Matched : Type 0 where
  kw_null : Position → Matched
  kw_true : Position → Matched
  kw_false : Position → Matched
  identifier : Text → Position → Matched
  hexnum : Bool → Text → Position → Matched
  array_begin : Position → Matched
  array_element : Position → Matched
  array_end : Position → Matched
  object_begin : Position → Matched
  object_element : Position → Matched
  object_end : Position → Matched
  zero : Bool → Position → Matched
  kw_nan : Position → Matched
  kw_infinity : Bool → Position → Matched
  number : Bool → NumberText → Position → Matched
  unescaped : UnescapedRule → Text → Position → Matched

-- What the actions use of the json library: hex_char_to_integer, the end of exponent10_t,
-- max_mantissa_digits, and `number_state::success`, which makes the call for a number from its state.
pub record JsonNumbers : Type 0 where
  pub hex_digit : ℕ → ℕ
  pub exponent10_end : ℕ
  pub max_mantissa_digits : ℕ
  pub success : Bool → NumberState → Position → Result Call

abbrev with_sign : Option ℕ → NumberState → NumberState
unfolding esign
with_sign none st = st
with_sign (some c) st = esign c st

abbrev with_exponent : ℕ → Option (Option ℕ × Text) → Position → NumberState → Result NumberState
unfolding edigits esign
with_exponent limit none p st = ok st
with_exponent limit (some (sign, t)) p st = edigits limit t p (with_sign sign st)

-- The calls on the bits of NAN and of INFINITY.
abbrev nan_bits : ℕ
nan_bits = 0x7FF8000000000000

abbrev infinity_bits : Bool → ℕ
infinity_bits true = 0xFFF0000000000000
infinity_bits false = 0x7FF0000000000000

-- What `success` does with the text, at the position where the rule began.
unfoldable pub unescaped_call : UnescapedRule → Text → Position → Call
unescaped_call UnescapedRule.string t p = Call.string t p
unescaped_call UnescapedRule.key t p = Call.key t
unescaped_call UnescapedRule.binary t p = Call.binary t p

module _ (json : JsonNumbers) where
  unfoldable pub read_number : NumberText → Position → Result NumberState
  unfolding read_digits edigits esign
  read_number n p = do
    st ← read_digits json.exponent10_end json.max_mantissa_digits n.integer n.fraction p
    with_exponent json.exponent10_end n.exponent n.exponent_position st

  unfoldable pub apply : Matched → Result Call
  unfolding hexadecimal_call read_number
  apply (kw_null p) = ok (Call.null p)
  apply (kw_true p) = ok (Call.boolean true p)
  apply (kw_false p) = ok (Call.boolean false p)
  apply (identifier t p) = ok (Call.key t)
  apply (Matched.hexnum neg t p) = hexadecimal_call json.hex_digit neg t p
  apply (array_begin p) = ok (Call.begin_array p)
  apply (array_element p) = ok (Call.element p)
  apply (array_end p) = ok Call.end_array
  apply (object_begin p) = ok (Call.begin_object p)
  apply (object_element p) = ok (Call.member p)
  apply (object_end p) = ok Call.end_object
  apply (Matched.zero true p) = ok (Call.signed (pos 0) p)
  apply (Matched.zero false p) = ok (Call.unsigned 0 p)
  apply (kw_nan p) = ok (Call.double nan_bits p)
  apply (kw_infinity neg p) = ok (Call.double (infinity_bits neg) p)
  apply (number neg n p) = read_number n p >>= λ st. json.success neg st p
  apply (unescaped rule t p) = ok (unescaped_call rule t p)

  unfoldable pub apply_all : List Matched → Result (List Call)
  unfolding apply
  apply_all [] = ok []
  apply_all (m ∷ ms) = do c ← apply m; cs ← apply_all ms; ok (c ∷ cs)

  -- std::move( consumer.value ).value()
  abbrev pub taken : Option Entry → Result Entry
  taken none = err undefined
  taken (some e) = ok e

  -- A parse with these actions on a new `jaxn_to_entry`, from the rules that the grammar matches.
  unfoldable pub parse_entry : List Matched → Result Entry
  unfolding apply_all consume_all
  parse_entry ms = do
    cs ← apply_all ms
    j ← consume_all cs (record { stack = []; keys = []; value = none })
    taken j.value
