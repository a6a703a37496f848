-- ===== src/Key/Spelling/Digits.antt =====
-- key_part.hpp and internal/key_action.hpp: an index, as digits.
use native.Mathlib.Nat.{pow-suc}
use config.Common.{
  ℕ, zero, suc, ◌+◌, ◌*◌, ◌/◌, ◌%◌, ◌^◌, ◌<◌, ◌≤◌, ◌≡◌, ◌∙◌, ap, ltb, Bool-cases, inl, inr, [], ◌∷◌,
  ◌++◌, length, length-append, arith,
}
use config.Jaxn.Number.Digits.{AreDigits, decimal-append}
use config.Jaxn.Number.Value.{AreDigits-append}
use config.Jaxn.Number.{decimal}
use config.Key.Spelling.{digits}

pub digits-AreDigits : (n i : ℕ) → AreDigits (digits n i)
unfolding digits AreDigits
digits-AreDigits zero i = tt
digits-AreDigits (suc n) i = elim (Bool-cases (ltb i 10)) [
  | inl h ↦ rw h (omega arith, ground arith, tt)
  | inr h ↦ rw h (
      AreDigits-append (digits n (i / 10)) ((0x30 + i % 10) ∷ []) (digits-AreDigits n (i / 10))
        (omega arith, omega arith, tt))
]

one_digit : (n i : ℕ) → decimal n ((0x30 + i) ∷ []) ≡ n * 10 + i
unfolding decimal
one_digit n i = omega arith

tenth : (i p : ℕ) → i < p * 10 → i / 10 < p
tenth i p h = omega arith

pub digits-value : (n i : ℕ) → i < 10 ^ n → decimal 0 (digits n i) ≡ i
unfolding digits decimal
digits-value zero i h = omega arith
digits-value (suc n) i h = elim (Bool-cases (ltb i 10)) [
  | inl k ↦ rw k (one_digit 0 i ∙ omega arith)
  | inr k ↦
      let front = digits-value n (i / 10) (tenth i (10 ^ n) (rw (pow-suc 10 n) at h)) in
      rw k (
        decimal-append 0 (digits n (i / 10)) ((0x30 + i % 10) ∷ [])
        ∙ ap (λ m. decimal m ((0x30 + i % 10) ∷ [])) front
        ∙ one_digit (i / 10) (i % 10)
        ∙ omega arith)
]

longer :
    (n k i : ℕ)
    → i < 10 ^ suc k
    → 10 ≤ i
    → ((k' : ℕ) → i / 10 < 10 ^ suc k' → length (digits n (i / 10)) ≤ suc k')
    → length (digits n (i / 10) ++ (0x30 + i % 10) ∷ []) ≤ suc k
longer n zero i h l ih = absurd (omega arith)
longer n (suc k) i h l ih =
    let shorter = ih k (tenth i (10 ^ suc k) (rw (pow-suc 10 (suc k)) at h)) in
    omega (arith, shorter, length-append (digits n (i / 10)) ((0x30 + i % 10) ∷ []))

-- A number below a power of ten has no more digits than the exponent.
pub digits-length : (n k i : ℕ) → i < 10 ^ suc k → length (digits n i) ≤ suc k
unfolding digits
digits-length zero k i h = omega arith
digits-length (suc n) k i h = elim (Bool-cases (ltb i 10)) [
  | inl l ↦ rw l (omega arith)
  | inr l ↦ rw l (longer n k i h (ground arith) (λ k' b. digits-length n k' (i / 10) b))
]

pub digits-nonempty : (n i : ℕ) → 0 < length (digits (suc n) i)
unfolding digits
digits-nonempty n i = elim (Bool-cases (ltb i 10)) [
  | inl l ↦ rw l (omega arith)
  | inr l ↦ rw l (omega (arith, length-append (digits n (i / 10)) ((0x30 + i % 10) ∷ [])))
]
