-- ===== src/Jaxn/Hexnum/Exact.antt =====
-- jaxn_action.hpp: a hexadecimal number is read exactly, or refused.
use config.Common.{
  Text, ℕ, ◌+◌, ◌*◌, ◌/◌, ◌<◌, ◌≤◌, sub_ℕ, Bool, true, false, ltb, leb, ◌==◌, [], ◌∷◌, wrap_uint64,
  Position, Result, ok, err, parse_error, hexadecimal_too_large, hexadecimal_too_large_to_negate,
  if◌then◌else◌, ◌>>=◌, ◌≡◌, refl, arith, Bool-cases, inl, inr,
}
use config.JaxnToEntry.{Call}
use config.Jaxn.Hexnum.{hex_value, hex_call, hexnum}

module _ (hex_digit : ℕ → ℕ) where
  -- The value of hexadecimal digits, behind one of `n`.
  unfoldable pub hexadecimal : ℕ → Text → ℕ
  hexadecimal n [] = n
  hexadecimal n (c ∷ t) = hexadecimal (n * 16 + hex_digit c) t

  -- What the rule of the grammar matches: every character stands for a number below 16.
  unfoldable pub AreHexDigits : Text → Type 0
  AreHexDigits [] = Unit {0}
  AreHexDigits (c ∷ t) = (hex_digit c < 16) × AreHexDigits t

  hexadecimal-grows : (n : ℕ) (t : Text) → n ≤ hexadecimal n t
  unfolding hexadecimal
  hexadecimal-grows n [] = omega arith
  hexadecimal-grows n (c ∷ t) = omega (arith, hexadecimal-grows (n * 16 + hex_digit c) t)

  hex_value-exact :
      (p : Position) (n : ℕ) (t : Text)
      → n < 0x10000000000000000
      → AreHexDigits t
      → hex_value hex_digit p n t ≡ (
          if ltb (hexadecimal n t) 0x10000000000000000
          then ok (hexadecimal n t)
          else err (parse_error hexadecimal_too_large p))
  unfolding hex_value hexadecimal AreHexDigits
  hex_value-exact p n [] h d =
      let fits : ltb n 0x10000000000000000 ≡ true = ground arith in rw fits refl
  hex_value-exact p n (c ∷ t) h d = elim (Bool-cases (n / 0x1000000000000000 == 0)) [
    | inl k ↦
        let next = n * 16 + hex_digit c in
        let room : next < 0x10000000000000000 = ground (arith, d.0) in
        let same : wrap_uint64 (wrap_uint64 (n * 16) + hex_digit c) ≡ next = ground (arith, d.0) in
        rw (k, same) (hex_value-exact p next t room (d.1))
    | inr k ↦
        let large : ltb (hexadecimal (n * 16 + hex_digit c) t) 0x10000000000000000 ≡ false =
          ground (arith, hexadecimal-grows (n * 16 + hex_digit c) t) in
        rw (k, large) refl
  ]

  -- What the text says of the number `n`.
  abbrev pub hex_result : Bool → ℕ → Position → Result Call
  hex_result false n p =
      if ltb n 0x10000000000000000
      then ok (Call.unsigned n p)
      else err (parse_error hexadecimal_too_large p)
  hex_result true n p =
      if leb n 0x8000000000000000
      then ok (Call.signed (sub_ℕ 0 n) p)
      else if ltb n 0x10000000000000000
      then err (parse_error hexadecimal_too_large_to_negate p)
      else err (parse_error hexadecimal_too_large p)

  signed_result :
      (n : ℕ) (p : Position)
      → n < 0x10000000000000000
      → hex_call hex_digit true p n ≡ (
          if leb n 0x8000000000000000
          then ok (Call.signed (sub_ℕ 0 n) p)
          else err (parse_error hexadecimal_too_large_to_negate p))
  unfolding hex_call
  signed_result n p h = elim (Bool-cases (ltb n 0x8000000000000000)) [
    | inl k ↦ let small : leb n 0x8000000000000000 ≡ true = ground arith in rw (k, small) refl
    | inr k ↦ elim (Bool-cases (n == 0x8000000000000000)) [
      | inl e ↦ let it : n ≡ 0x8000000000000000 = ground arith in rw it refl
      | inr e ↦ let big : leb n 0x8000000000000000 ≡ false = ground arith in rw (k, e, big) refl
    ]
  ]

  call-result :
      (neg : Bool) (n : ℕ) (p : Position)
      → ((if ltb n 0x10000000000000000 then ok n else err (parse_error hexadecimal_too_large p))
          >>= hex_call hex_digit neg p)
        ≡ hex_result neg n p
  unfolding hex_call
  call-result false n p = elim (Bool-cases (ltb n 0x10000000000000000)) [
    | inl h ↦ rw h refl
    | inr h ↦ rw h refl
  ]
  call-result true n p = elim (Bool-cases (ltb n 0x10000000000000000)) [
    | inl h ↦ rw h (signed_result n p (ground arith))
    | inr h ↦ let big : leb n 0x8000000000000000 ≡ false = ground arith in rw (h, big) refl
  ]

  -- Hexadecimal digits of the value n give the call with n, or with -n, where it fits
  -- `std::uint64_t`, or `std::int64_t`; else the message tells which of the two it does not fit.
  pub hexnum-exact :
      (neg : Bool) (t : Text) (p : Position)
      → AreHexDigits t
      → hexnum hex_digit neg t p ≡ hex_result neg (hexadecimal 0 t) p
  unfolding hexnum
  hexnum-exact neg t p d =
      rw (hex_value-exact p 0 t (omega arith) d) (call-result neg (hexadecimal 0 t) p)
