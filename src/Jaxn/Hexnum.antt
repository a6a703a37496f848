-- ===== src/Jaxn/Hexnum.antt =====
-- jaxn_action.hpp: the action on a hexadecimal number.
pub mod Exact
use config.Common.{
  Text, ℕ, zero, suc, ◌+◌, ◌-◌, ◌*◌, ◌/◌, ℤ, pos, negsuc, sub_ℕ, Bool, true, false, ltb, ◌==◌, [],
  ◌∷◌, wrap_uint64, Position, Result, ok, err, parse_error, hexadecimal_too_large,
  hexadecimal_too_large_to_negate, if◌then◌else◌, ◌>>=◌,
}
use config.JaxnToEntry.{Call}

-- `hex_digit` is json::internal::hex_char_to_integer.
module _ (hex_digit : ℕ → ℕ) where
  -- The loop, with `value` a std::uint64_t: `value & 0xF000000000000000` is what stands in front of
  -- its last 60 bits.
  unfoldable pub hex_value : Position → ℕ → Text → Result ℕ
  hex_value p value [] = ok value
  hex_value p value (c ∷ t) =
      let rest = hex_value p (wrap_uint64 (wrap_uint64 (value * 16) + hex_digit c)) t in
      if value / 0x1000000000000000 == 0 then rest else err (parse_error hexadecimal_too_large p)

  -- The call for a value, with the sign in front.
  unfoldable pub hex_call : Bool → Position → ℕ → Result Call
  hex_call true p value =
      if ltb value 9223372036854775808
      then ok (Call.signed (sub_ℕ 0 value) p)
      else if value == 9223372036854775808
      then ok (Call.signed (negsuc 9223372036854775807) p)
      else err (parse_error hexadecimal_too_large_to_negate p)
  hex_call false p value = ok (Call.unsigned value p)

  unfoldable pub hexnum : Bool → Text → Position → Result Call
  unfolding hex_value hex_call
  hexnum neg t p = hex_value p 0 t >>= hex_call neg p
