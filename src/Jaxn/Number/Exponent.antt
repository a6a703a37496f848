-- ===== src/Jaxn/Number/Exponent.antt =====
-- jaxn_action.hpp: the exponent of a number is limited by its value.
use config.Jaxn.Number.{checked, NumberState, is_zero, skip_zeros, decimal, edigits}
use native.Mathlib.Nat.{pow-le-pow_right}
use config.Common.{
  Text, ℕ, ◌+◌, ◌-◌, ◌*◌, ◌^◌, ◌<◌, ◌≤◌, pos, ◌+ℤ◌, sub_ℕ, ◌≡◌, refl, sym, ◌∙◌, ap, true, false,
  ltb, [], ◌∷◌, length, Bool-cases, inl, inr, arith, Position, err, parse_error, exponent_too_large,
  if◌then◌else◌,
}
use config.Jaxn.Number.Digits.{AreDigits, decimal-shift, decimal-bound, first_digit}

-- The zeros at the front do not matter, and what follows them starts with another digit.
decimal-skip_zeros : (t : Text) → decimal 0 (skip_zeros t) ≡ decimal 0 t
unfolding skip_zeros
decimal-skip_zeros [] = refl
decimal-skip_zeros (c ∷ t) = elim (Bool-cases (is_zero c)) [
  | inl z ↦
      rw z (decimal-skip_zeros t ∙ ap (λ n. decimal n t) (ground arith) ∙ sym (first_digit c t))
  | inr z ↦ rw z refl
]

skip_zeros-AreDigits : (t : Text) → AreDigits t → AreDigits (skip_zeros t)
unfolding skip_zeros AreDigits
skip_zeros-AreDigits [] d = tt
skip_zeros-AreDigits (c ∷ t) d = elim (Bool-cases (is_zero c)) [
  | inl z ↦ rw z (skip_zeros-AreDigits t (d.2))
  | inr z ↦ rw z d
]

leading_digit : (x p v w : ℕ) → 0 < x → w ≡ x * p + v → p ≤ w
leading_digit x p v w h e = grind arith

-- With a first digit other than zero, there are as many digits as the value needs.
decimal-leading :
    (c : ℕ) (t : Text) → AreDigits (c ∷ t) → is_zero c ≡ false → 10 ^ length t ≤ decimal 0 (c ∷ t)
unfolding AreDigits
decimal-leading c t d z = rw (first_digit c t) (
    leading_digit (c - 0x30) (10 ^ length t) (decimal 0 t) (decimal (c - 0x30) t)
      (ground (arith, d.0)) (decimal-shift (c - 0x30) t))

ten_digits :
    (c : ℕ) (t : Text)
    → AreDigits (c ∷ t)
    → is_zero c ≡ false
    → 9 < length (c ∷ t)
    → 1000000000 ≤ decimal 0 (c ∷ t)
ten_digits c t d z h =
    let room : 10 ^ 9 ≤ 10 ^ length t =
      pow-le-pow_right (omega arith) {i = 9} {j = length t} (omega arith) in
    omega (arith, room, decimal-leading c t d z)

skip_zeros-leading :
    (t : Text) → AreDigits t → 9 < length (skip_zeros t) → 1000000000 ≤ decimal 0 (skip_zeros t)
unfolding skip_zeros AreDigits
skip_zeros-leading [] d h = absurd (omega arith)
skip_zeros-leading (c ∷ t) d h = elim (Bool-cases (is_zero c)) [
  | inl z ↦ rw z (skip_zeros-leading t (d.2) (rw z at h))
  | inr z ↦ rw z (ten_digits c t d z (rw z at h))
]

-- For decimal digits, leading zeros included, the exponent is added to the state, or subtracted
-- where its sign says so, if its value is below 10^9, as far as the type of the exponent holds the sum;
-- it is an error if the value is not below 10^9.
pub edigits-limit :
    (limit : ℕ) (t : Text) (p : Position) (st : NumberState)
    → AreDigits t
    → edigits limit t p st ≡ (
        if ltb (decimal 0 t) 1000000000
        then checked limit (record st {
          isfp = true;
          exponent10 =
              st.exponent10 +ℤ (if st.eneg then sub_ℕ 0 (decimal 0 t) else pos (decimal 0 t));
        })
        else err (parse_error exponent_too_large p))
unfolding edigits
edigits-limit limit t p st d = elim (Bool-cases (ltb 9 (length (skip_zeros t)))) [
  | inl h ↦
      let above = skip_zeros-leading t d (ground arith) in
      let big : ltb (decimal 0 t) 1000000000 ≡ false =
        ground (arith, above, decimal-skip_zeros t) in
      rw (h, big) refl
  | inr h ↦
      let b = skip_zeros t in
      let room : 10 ^ length b ≤ 10 ^ 9 =
        pow-le-pow_right (omega arith) {i = length b} {j = 9} (ground arith) in
      let below = decimal-bound b (skip_zeros-AreDigits t d) in
      let small : ltb (decimal 0 t) 1000000000 ≡ true =
        ground (arith, room, below, decimal-skip_zeros t) in
      rw (h, decimal-skip_zeros t, small) refl
]
