-- ===== src/Jaxn/Number/Digits.antt =====
-- The values of decimal digits, and of those among them that are zeros.
use config.Common.{
  Text, ℕ, zero, suc, ◌+◌, ◌-◌, ◌*◌, ◌^◌, ◌<◌, ◌≤◌, ◌≡◌, refl, ◌∙◌, ap, true, false, [], ◌∷◌, ◌++◌,
  length, Bool-cases, inl, inr, arith,
}
use native.Mathlib.Nat.{pow-suc}
use config.Jaxn.Number.{is_zero, has_nonzero, decimal}

-- What the rules of the grammar match: decimal digits.
unfoldable pub AreDigits : Text → Type 0
AreDigits [] = Unit {0}
AreDigits (c ∷ t) = (0x30 ≤ c) × (c ≤ 0x39) × AreDigits t

pub decimal-append : (n : ℕ) (t u : Text) → decimal n (t ++ u) ≡ decimal (decimal n t) u
unfolding decimal
decimal-append n [] u = refl
decimal-append n (c ∷ t) u = decimal-append (n * 10 + (c - 0x30)) t u

carried : (n x p v w : ℕ) → w ≡ x * p + v → (n * 10 + x) * p + v ≡ n * (p * 10) + w
carried n x p v w h = grind arith

pub positive-pow : (n : ℕ) → 0 < 10 ^ n
positive-pow zero = omega arith
positive-pow (suc n) = rw (pow-suc 10 n) (omega (arith, positive-pow n))

pub first_digit : (c : ℕ) (t : Text) → decimal 0 (c ∷ t) ≡ decimal (c - 0x30) t
unfolding decimal
first_digit c t = ap (λ n. decimal n t) (omega arith)

pub decimal-shift : (n : ℕ) (t : Text) → decimal n t ≡ n * 10 ^ length t + decimal 0 t
unfolding decimal
decimal-shift n [] = omega arith
decimal-shift n (c ∷ t) =
    let x = c - 0x30 in
    rw (pow-suc 10 (length t), first_digit c t)
      (decimal-shift (n * 10 + x) t
        ∙ carried n x (10 ^ length t) (decimal 0 t) (decimal x t) (decimal-shift x t))

digit_bound : (x p v w : ℕ) → x < 10 → v < p → w ≡ x * p + v → w < p * 10
digit_bound x p v w h k e = grind arith

pub decimal-bound : (t : Text) → AreDigits t → decimal 0 t < 10 ^ length t
unfolding decimal AreDigits
decimal-bound [] d = omega arith
decimal-bound (c ∷ t) d =
    let x = c - 0x30 in
    let small : x < 10 = omega (arith, d.1) in
    rw (pow-suc 10 (length t), first_digit c t)
      (digit_bound x (10 ^ length t) (decimal 0 t) (decimal x t) small (decimal-bound t (d.2))
        (decimal-shift x t))

zero_digit : (x p v w : ℕ) → x ≡ 0 → v ≡ 0 → w ≡ x * p + v → w ≡ 0
zero_digit x p v w h k e = grind arith

pub decimal-zeros : (t : Text) → has_nonzero t ≡ false → decimal 0 t ≡ 0
unfolding has_nonzero decimal
decimal-zeros [] h = refl
decimal-zeros (c ∷ t) h =
    let x = c - 0x30 in
    let nought : x ≡ 0 = ground arith in
    first_digit c t
    ∙ zero_digit x (10 ^ length t) (decimal 0 t) (decimal x t) nought
        (decimal-zeros t (ground arith)) (decimal-shift x t)

nonzero_digit : (x p v w : ℕ) → 0 < x → 0 < p → w ≡ x * p + v → 0 < w
nonzero_digit x p v w h k e = grind arith

later_digit : (x p v w : ℕ) → 0 < v → w ≡ x * p + v → 0 < w
later_digit x p v w h e = omega arith

pub decimal-positive : (t : Text) → AreDigits t → has_nonzero t ≡ true → 0 < decimal 0 t
unfolding AreDigits has_nonzero
decimal-positive [] d h = cc
decimal-positive (c ∷ t) d h = elim (Bool-cases (is_zero c)) [
  | inl z ↦
      let x = c - 0x30 in
      rw (first_digit c t) (
        later_digit x (10 ^ length t) (decimal 0 t) (decimal x t)
          (decimal-positive t (d.2) (ground arith)) (decimal-shift x t))
  | inr z ↦
      let x = c - 0x30 in
      let some_digit : 0 < x = ground (arith, d.0) in
      rw (first_digit c t) (
        nonzero_digit x (10 ^ length t) (decimal 0 t) (decimal x t) some_digit
          (positive-pow (length t)) (decimal-shift x t))
]
