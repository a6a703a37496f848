-- ===== src/Jaxn/Number/Value.antt =====
-- jaxn_action.hpp: the value that the state of a number stands for is that of its digits, cut off
-- where there are too many of them.
use config.Jaxn.Number.{with_fraction, read_digits, NumberState, has_nonzero, decimal}
use config.Common.{
  Text, ℕ, ◌+◌, ◌*◌, ◌^◌, ◌<◌, ◌≤◌, pos, ◌+ℤ◌, ◌≡◌, refl, sym, ◌∙◌, ap, subst, Bool, true, false,
  [], ◌∷◌, ◌++◌, length, Bool-cases, inl, inr, arith, Position, ok, Option, none, some, append-nil,
  ◌↔◌,
}
use config.Jaxn.Number.Digits.{
  AreDigits, decimal-append, decimal-shift, decimal-bound, decimal-zeros, decimal-positive,
}
use config.Jaxn.Number.Fraction.{fdigits-IsRead}
use config.Jaxn.Number.Read.{IsRead, Filled, idigits-Filled}

AreDigits-split : (t u : Text) → AreDigits (t ++ u) → AreDigits t × AreDigits u
unfolding AreDigits
AreDigits-split [] u d = (tt, d)
AreDigits-split (c ∷ t) u d = let (a, b) = AreDigits-split t u (d.2) in ((d.0, d.1, a), b)

pub AreDigits-append : (t u : Text) → AreDigits t → AreDigits u → AreDigits (t ++ u)
unfolding AreDigits
AreDigits-append [] u d e = e
AreDigits-append (c ∷ t) u d e = (d.0, d.1, AreDigits-append t u (d.2) e)

-- The value of digits that have been split.
decimal-split :
    (z m r : Text)
    → has_nonzero z ≡ false
    → decimal 0 (z ++ (m ++ r)) ≡ decimal 0 m * 10 ^ length r + decimal 0 r
decimal-split z m r h =
    decimal-append 0 z (m ++ r)
    ∙ ap (λ n. decimal n (m ++ r)) (decimal-zeros z h)
    ∙ decimal-append 0 m r
    ∙ decimal-shift (decimal 0 m) r

-- The digits behind the point, if there is one.
abbrev pub fraction_digits : Option Text → Text
fraction_digits none = []
fraction_digits (some f) = f

with_fraction-IsRead :
    (limit max_digits : ℕ) (i : Text) (f : Option Text) (st : NumberState)
    → 0 < max_digits
    → Filled max_digits i st
    → length i ≤ 0x100000
    → length (fraction_digits f) ≤ limit
    → 0x100000 < limit
    → (st' : NumberState) × (with_fraction limit max_digits f st ≡ ok st')
      × IsRead (i ++ fraction_digits f) (length (fraction_digits f)) max_digits st'
unfolding with_fraction
with_fraction-IsRead limit max_digits i none st h (read, full) s l m =
    (st, refl, subst (λ t. IsRead t 0 max_digits st) (sym (append-nil i)) read)
with_fraction-IsRead limit max_digits i (some f) st h read s l m =
    fdigits-IsRead max_digits h limit i f st read s l m

lower : (m p r n : ℕ) → n ≡ m * p + r → m * p ≤ n
lower m p r n h = omega arith

upper : (m p r n : ℕ) → n ≡ m * p + r → r < p → n < (m + 1) * p
upper m p r n h k = grind arith

exact : (m p r n : ℕ) → n ≡ m * p + r → (r ≡ 0) ↔ (n ≡ m * p)
exact m p r n h = (λ k. omega arith, λ k. omega arith)

drop-exact :
    (b : Bool) (r : Text) → AreDigits r → b ≡ has_nonzero r → (b ≡ false) ↔ (decimal 0 r ≡ 0)
drop-exact b r d h = elim (Bool-cases (has_nonzero r)) [
  | inl k ↦
      (λ n. contradiction (sym n ∙ h ∙ k), λ n. absurd (omega (arith, decimal-positive r d k)))
  | inr k ↦ (λ n. decimal-zeros r k, λ n. h ∙ k)
]
  where
    contradiction : false ≡ true → decimal 0 r ≡ 0
    contradiction n = cc

-- What `drop` and the bounds say of a state that has read digits.
module _ (t : Text) (fraction max_digits : ℕ) (st : NumberState) (d : AreDigits t)
    (read : IsRead t fraction max_digits st) where
  rest_digits : AreDigits read.rest
  rest_digits =
      let parts = subst AreDigits read.split d in
      (AreDigits-split st.mantissa read.rest
        ((AreDigits-split read.skipped (st.mantissa ++ read.rest) parts).1)).1

  value : decimal 0 t ≡ decimal 0 st.mantissa * 10 ^ length read.rest + decimal 0 read.rest
  value = ap (decimal 0) read.split ∙ decimal-split read.skipped st.mantissa read.rest read.nought

-- Where the type of the exponent holds the numbers from -limit to limit - 1, and 2^20 among them,
-- reading at most 2^20 digits in front of the point, and at most `limit` digits behind it, returns, and
-- never writes more than `max_digits` digits to the buffer. Scaled by 10^k, where k is the exponent plus
-- the number of digits behind the point, the digits in the buffer are a lower bound for all digits, and
-- the next number is above them; they are exact if and only if `drop` is not set.
pub read_digits-value :
    (limit max_digits : ℕ) (i : Text) (f : Option Text) (p : Position)
    → 0 < max_digits
    → 0x100000 < limit
    → AreDigits (i ++ fraction_digits f)
    → length i ≤ 0x100000
    → length (fraction_digits f) ≤ limit
    → (st : NumberState) × (k : ℕ) × (read_digits limit max_digits i f p ≡ ok st)
      × (st.exponent10 +ℤ pos (length (fraction_digits f)) ≡ pos k)
      × (length st.mantissa ≤ max_digits)
      × (decimal 0 st.mantissa * 10 ^ k ≤ decimal 0 (i ++ fraction_digits f))
      × (decimal 0 (i ++ fraction_digits f) < (decimal 0 st.mantissa + 1) * 10 ^ k)
      × ((st.drop ≡ false) ↔ (decimal 0 (i ++ fraction_digits f) ≡ decimal 0 st.mantissa * 10 ^ k))
unfolding read_digits
read_digits-value limit max_digits i f p h wide d small few =
    let t = i ++ fraction_digits f in
    let (st0, u, full) = idigits-Filled max_digits limit i p small wide in
    let (st, w, read) = with_fraction-IsRead limit max_digits i f st0 h full small few wide in
    let k = length read.rest in
    let m = decimal 0 st.mantissa in
    let v = value t (length (fraction_digits f)) max_digits st d read in
    let digits = rest_digits t (length (fraction_digits f)) max_digits st d read in
    let r = decimal 0 read.rest in
    let (a, b) = drop-exact st.drop read.rest digits read.dropped in
    let (a', b') = exact m (10 ^ k) r (decimal 0 t) v in
    (
      st,
      k,
      rw u w,
      read.exponent,
      read.fits,
      lower m (10 ^ k) r (decimal 0 t) v,
      upper m (10 ^ k) r (decimal 0 t) v (decimal-bound read.rest digits),
      (λ x. a' (a x), λ x. b (b' x)),
    )
