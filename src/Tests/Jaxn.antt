-- ===== src/Tests/Jaxn.antt =====
-- Runs of the actions on JAXN values.
use config.Common.{
  undefined, [], negsuc, ◌==◌, refl, Text, bytes, ℕ, ◌+◌, ◌-◌, ◌*◌, ◌^◌, ◌<◌, ◌≤◌, pos, ◌+ℤ◌, sub_ℕ,
  true, false, ltb, some, length, ok, err, parse_error, exponent_too_large, ◌≡◌, arith, ◌↔◌,
  if◌then◌else◌,
}
use config.Data.{
  Mark, Entry, signed, unsigned, array, object, concat, no_entry, entry, no_element, element,
  no_member, member,
}
use config.Data.Views.{fresh_mark}
use config.Jaxn.{JsonNumbers, parse_entry}
use config.Jaxn.Rebuilt.{parse_entry-matched, matched, IsSpelt}
use config.JaxnToEntry.Calls.{IsJaxn}
use config.Jaxn.Hexnum.Exact.{hexadecimal, hexnum-exact, AreHexDigits}
use config.Jaxn.Number.{checked, NumberState, no_digits, read_digits, decimal, edigits}
use config.Jaxn.Hexnum.{hexnum}
use config.Jaxn.Number.Digits.{AreDigits}
use config.Jaxn.Number.Exponent.{edigits-limit}
use config.Jaxn.Number.Value.{read_digits-value}
use config.JaxnToEntry.{Call}
use config.Tests.{here}

-- 120.5, of which the buffer takes two digits
abbrev digits : Text
digits = bytes "1205"

digits-AreDigits : AreDigits digits
unfolding AreDigits
digits-AreDigits = (
  omega arith,
  omega arith,
  (omega arith, omega arith, (omega arith, omega arith, (omega arith, omega arith, tt))),
)

-- The exponents of 32 bits end here.
abbrev int32_end : ℕ
int32_end = 0x80000000

read_digits-value_example :
    (st : NumberState) × (k : ℕ) × (read_digits int32_end 2 (bytes "120") (some (bytes "5")) here
      ≡ ok st)
    × (st.exponent10 +ℤ pos 1 ≡ pos k)
    × (length st.mantissa ≤ 2)
    × (decimal 0 st.mantissa * 10 ^ k ≤ decimal 0 digits)
    × (decimal 0 digits < (decimal 0 st.mantissa + 1) * 10 ^ k)
    × ((st.drop ≡ false) ↔ (decimal 0 digits ≡ decimal 0 st.mantissa * 10 ^ k))
read_digits-value_example =
    read_digits-value int32_end 2 (bytes "120") (some (bytes "5")) here (omega arith) (omega arith)
      digits-AreDigits (omega arith) (omega arith)

edigits-limit_example : edigits int32_end digits here no_digits ≡ (
    if ltb (decimal 0 digits) 1000000000
    then checked int32_end (record no_digits {
      isfp = true;
      exponent10 = pos 0 +ℤ (if false then sub_ℕ 0 (decimal 0 digits) else pos (decimal 0 digits));
    })
    else err (parse_error exponent_too_large here))
edigits-limit_example = edigits-limit int32_end digits here no_digits digits-AreDigits

-- The value of a hexadecimal digit in capitals.
abbrev hex_digit : ℕ → ℕ
hex_digit c = if ltb c 0x40 then c - 0x30 else c - 0x37

capitals-AreHexDigits : AreHexDigits hex_digit (bytes "F0")
unfolding AreHexDigits
capitals-AreHexDigits = (omega arith, (omega arith, tt))

hexnum-exact_example : hexnum hex_digit true (bytes "F0") here ≡ ok (Call.signed (sub_ℕ 0 240) here)
unfolding hexadecimal
hexnum-exact_example = hexnum-exact hex_digit true (bytes "F0") here capitals-AreHexDigits

-- Hexadecimal digits in capitals; decimal numbers are not used here.
abbrev numbers : JsonNumbers
numbers = record {
  hex_digit = hex_digit;
  exponent10_end = int32_end;
  max_mantissa_digits = 772;
  success = λ neg st p. err undefined;
}

abbrev fifteen_or_twelve : ℕ → Text
fifteen_or_twelve n = if n == 15 then bytes "F" else bytes "C"

-- [ 0xF, { k : -0xC } ]
abbrev value_mark : Mark
value_mark = record (fresh_mark here) { remove = true }

abbrev negative : Entry
negative = signed (negsuc 11) here

abbrev value : Entry
value =
    array []
      (element (concat value_mark (entry (unsigned 15 here) no_entry)) (
        element
          (concat value_mark (
            entry
              (object (member (bytes "k") (concat value_mark (entry negative no_entry)) no_member)
                here)
              no_entry))
          no_element))
      here

value-IsJaxn : IsJaxn value
unfolding IsJaxn
value-IsJaxn = (refl, ((refl, tt), ((refl, ((tt, tt), ((refl, tt), tt))), tt)))

value-IsSpelt : IsSpelt numbers fifteen_or_twelve value
unfolding IsSpelt AreHexDigits hexadecimal
value-IsSpelt = (
  (((omega arith, tt), refl), omega arith),
  (((((omega arith, tt), refl), refl, omega arith), tt), tt),
)

parse_entry-matched_example :
    parse_entry numbers (matched numbers fifteen_or_twelve value []) ≡ ok value
parse_entry-matched_example =
    parse_entry-matched numbers fifteen_or_twelve value value-IsJaxn value-IsSpelt
