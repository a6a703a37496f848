-- ===== src/Common/Bytes.antt =====
-- Byte strings, and the order of `std::string` on them: bytewise, a proper prefix first.
use Prim.Native.Nat.{ℕ, compare, Ordering}
use Prim.Native.Char.{code}
use Prim.Native.String.{String}
use mathlib.Core.Path.{◌≡◌, refl}
use mathlib.Core.Bool.{Bool, true, false}
use mathlib.Core.List.{List, [], ◌∷◌}
use native.Mathlib.Omega.{arith}

abbrev pub Text : Type 0
Text = List ℕ

-- The bytes of an ASCII literal.
abbrev pub bytes : String → Text
bytes String.[] = []
bytes (String.◌∷◌ c s) = code c ∷ bytes s

unfoldable pub text_compare : Text → Text → Ordering
text_compare [] [] = Ordering.eq
text_compare [] (y ∷ ys) = Ordering.lt
text_compare (x ∷ xs) [] = Ordering.gt
text_compare (x ∷ xs) (y ∷ ys) = elim (compare x y) [
  | Ordering.lt ↦ Ordering.lt
  | Ordering.gt ↦ Ordering.gt
  | Ordering.eq ↦ text_compare xs ys
]

abbrev pub text_eq : Text → Text → Bool
text_eq a b = elim (text_compare a b) [ Ordering.eq ↦ true | _ ↦ false ]

abbrev pub is_empty : Text → Bool
is_empty [] = true
is_empty _ = false

pub text_compare_refl : (a : Text) → text_compare a a ≡ Ordering.eq
unfolding text_compare
text_compare_refl [] = refl
text_compare_refl (x ∷ xs) = ground (arith, text_compare_refl xs)

pub eq_of_text_compare : (a b : Text) → text_compare a b ≡ Ordering.eq → a ≡ b
unfolding text_compare
eq_of_text_compare [] [] h = refl
eq_of_text_compare [] (y ∷ ys) h = cc
eq_of_text_compare (x ∷ xs) [] h = cc
eq_of_text_compare (x ∷ xs) (y ∷ ys) h = ground (arith, eq_of_text_compare xs ys)

pub text_compare_gt : (a b : Text) → text_compare a b ≡ Ordering.gt → text_compare b a ≡ Ordering.lt
unfolding text_compare
text_compare_gt [] [] h = cc
text_compare_gt [] (y ∷ ys) h = cc
text_compare_gt (x ∷ xs) [] h = refl
text_compare_gt (x ∷ xs) (y ∷ ys) h = ground (arith, text_compare_gt xs ys)

pub text_compare_lt : (a b : Text) → text_compare a b ≡ Ordering.lt → text_compare b a ≡ Ordering.gt
unfolding text_compare
text_compare_lt [] [] h = cc
text_compare_lt [] (y ∷ ys) h = refl
text_compare_lt (x ∷ xs) [] h = cc
text_compare_lt (x ∷ xs) (y ∷ ys) h = ground (arith, text_compare_lt xs ys)

pub text_compare_trans :
    (a b c : Text)
    → text_compare a b ≡ Ordering.lt
    → text_compare b c ≡ Ordering.lt
    → text_compare a c ≡ Ordering.lt
unfolding text_compare
text_compare_trans [] [] c h k = cc
text_compare_trans [] (y ∷ ys) [] h k = cc
text_compare_trans [] (y ∷ ys) (z ∷ zs) h k = refl
text_compare_trans (x ∷ xs) [] c h k = cc
text_compare_trans (x ∷ xs) (y ∷ ys) [] h k = cc
text_compare_trans (x ∷ xs) (y ∷ ys) (z ∷ zs) h k = ground (arith, text_compare_trans xs ys zs)

pub eq_of_text_eq : (a b : Text) → text_eq a b ≡ true → a ≡ b
eq_of_text_eq a b h = eq_of_text_compare a b (is_eq (text_compare a b) h)
  where
    is_eq : (o : Ordering) → elim o [ Ordering.eq ↦ true | _ ↦ false ] ≡ true → o ≡ Ordering.eq
    is_eq Ordering.lt k = cc
    is_eq Ordering.eq k = refl
    is_eq Ordering.gt k = cc

pub text_eq_refl : (a : Text) → text_eq a a ≡ true
text_eq_refl a = rw (text_eq, text_compare_refl a) refl
