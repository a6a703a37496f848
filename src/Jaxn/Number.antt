-- ===== src/Jaxn/Number.antt =====
-- jaxn_action.hpp: the actions that read a number into a `number_state` of the json library.
pub mod Digits
pub mod Read
pub mod Fraction
pub mod Value
pub mod Exponent
use config.Common.{
  undefined, negsuc, Option, none, some, ◌>>=◌, Text, ℕ, suc, ◌+◌, ◌-◌, ◌*◌, ℤ, pos, ◌+ℤ◌, sub_ℕ,
  Bool, true, false, not, ◌||◌, ◌&&◌, [], ◌∷◌, ◌++◌, length, take, drop, ltb, ◌==◌, min, is_empty,
  Position, Result, ok, err, parse_error, too_many_digits, exponent_too_large, if◌then◌else◌, bytes,
}

-- json::internal::number_state, with the digits in the buffer `mantissa`: `msize` is their number.
pub record NumberState : Type 0 where
  pub exponent10 : ℤ
  pub mantissa : Text
  pub isfp : Bool
  pub eneg : Bool
  pub drop : Bool

-- A number_state as it is made.
abbrev pub no_digits : NumberState
no_digits = record { exponent10 = pos 0; mantissa = []; isfp = false; eneg = false; drop = false }

-- An exponent that `number_state::exponent10_t` holds, from -limit to limit - 1; a signed sum that leaves
-- these bounds is undefined.
abbrev pub in_range : ℕ → ℤ → Bool
in_range limit (pos n) = ltb n limit
in_range limit (negsuc n) = ltb n limit

abbrev pub checked : ℕ → NumberState → Result NumberState
checked limit st = if in_range limit st.exponent10 then ok st else err undefined

abbrev pub is_zero : ℕ → Bool
is_zero c = c == 0x30

-- The loops that look for a digit that is not zero among those that have been left out.
unfoldable pub has_nonzero : Text → Bool
has_nonzero [] = false
has_nonzero (c ∷ t) = not (is_zero c) || has_nonzero t

-- while( ( e > b ) && ( e[ -1 ] == '0' ) )
unfoldable pub trim_zeros : Text → Text
trim_zeros [] = []
trim_zeros (c ∷ t) = let rest = trim_zeros t in if is_zero c && is_empty rest then [] else c ∷ rest

-- while( ( b < e ) && ( b[ 0 ] == '0' ) )
unfoldable pub skip_zeros : Text → Text
skip_zeros [] = []
skip_zeros (c ∷ t) = let rest = skip_zeros t in if is_zero c then rest else c ∷ t

unfoldable pub esign : ℕ → NumberState → NumberState
esign c st = record st { eneg = (c == 0x2D) }

-- `limit` bounds the exponent, and `max_digits` is json::internal::max_mantissa_digits. The first test is that for the one digit 0.
unfoldable pub idigits : ℕ → ℕ → Text → Position → NumberState → Result NumberState
unfolding has_nonzero ◌+ℤ◌
idigits limit max_digits t p st =
    let s = length t in
    let c = min s max_digits in
    if (s == 1) && not (has_nonzero t)
    then ok st
    else if ltb 0x100000 s
    then err (parse_error too_many_digits p)
    else checked limit (record st {
      exponent10 = st.exponent10 +ℤ pos (s - c);
      mantissa = take c t;
      drop = st.drop || has_nonzero (drop c t);
    })

-- The digits between `b` and `e`, with the leading zeros that have been skipped.
abbrev pub significant : Text → Text → Text
unfolding skip_zeros
significant mantissa t = if is_empty mantissa then skip_zeros t else t

-- Each digit that is skipped or kept takes one from the exponent, which is lowest at the end.
unfoldable pub fdigits : ℕ → ℕ → Text → NumberState → Result NumberState
unfolding has_nonzero trim_zeros skip_zeros ◌+ℤ◌
fdigits limit max_digits t st =
    let e = trim_zeros t in
    let b = significant st.mantissa e in
    let c = min (length b) (max_digits - length st.mantissa) in
    checked limit (record st {
      isfp = true;
      exponent10 = st.exponent10 +ℤ sub_ℕ 0 (length e - length b) +ℤ sub_ℕ 0 c;
      mantissa = st.mantissa ++ take c b;
      drop = st.drop || has_nonzero (drop c b);
    })

unfoldable pub with_fraction : ℕ → ℕ → Option Text → NumberState → Result NumberState
unfolding fdigits
with_fraction limit max_digits none st = ok st
with_fraction limit max_digits (some t) st = fdigits limit max_digits t st

-- The actions on the digits of a number, with those behind a point where it has one.
unfoldable pub read_digits : ℕ → ℕ → Text → Option Text → Position → Result NumberState
unfolding idigits with_fraction
read_digits limit max_digits i f p = do
  st ← idigits limit max_digits i p no_digits
  with_fraction limit max_digits f st

-- The value of decimal digits, behind one of `n`.
unfoldable pub decimal : ℕ → Text → ℕ
decimal n [] = n
decimal n (c ∷ t) = decimal (n * 10 + (c - 0x30)) t

unfoldable pub edigits : ℕ → Text → Position → NumberState → Result NumberState
unfolding skip_zeros decimal ◌+ℤ◌
edigits limit t p st =
    let b = skip_zeros t in
    let n = decimal 0 b in
    if ltb 9 (length b)
    then err (parse_error exponent_too_large p)
    else checked limit (record st {
      isfp = true;
      exponent10 = st.exponent10 +ℤ (if st.eneg then sub_ℕ 0 n else pos n);
    })
