-- ===== src/Key/Spelling.antt =====
-- key.hpp, key_part.hpp, internal/key_grammar.hpp and internal/key_action.hpp: keys as text.
pub mod Digits
pub mod Printed
pub mod Parsed
pub mod Fuel
use config.Common.{
  stoul_out_of_range, Text, ℕ, zero, suc, ◌+◌, ◌-◌, ◌/◌, ◌%◌, Bool, true, false, ◌&&◌, ◌||◌, ltb,
  leb, ◌==◌, Option, none, some, List, [], ◌∷◌, ◌++◌, length, is_empty, Result, ok, err, Error,
  out_of_fuel, undefined, ◌>>=◌, if◌then◌else◌,
}
use config.Jaxn.Number.{decimal}
use config.Key.{Key, KeyPart}

abbrev within : ℕ → ℕ → ℕ → Bool
within a b c = leb a c && leb c b

-- The characters of `ident_first`, `ident_other` and `pegtl::digit`.
unfoldable pub ident_first : ℕ → Bool
ident_first c = within 0x61 0x7A c || within 0x41 0x5A c || c == 0x5F

unfoldable pub is_digit : ℕ → Bool
is_digit c = within 0x30 0x39 c

unfoldable pub ident_other : ℕ → Bool
unfolding ident_first is_digit
ident_other c = ident_first c || is_digit c || c == 0x2D

-- The longest part at the front of a text whose characters pass a test, and what is behind it.
unfoldable pub take_while : (ℕ → Bool) → Text → Text
take_while test [] = []
take_while test (c ∷ t) = let rest = take_while test t in if test c then c ∷ rest else []

unfoldable pub drop_while : (ℕ → Bool) → Text → Text
drop_while test [] = []
drop_while test (c ∷ t) = let rest = drop_while test t in if test c then rest else c ∷ t

-- The same, of at most `n` characters.
unfoldable pub take_up_to : ℕ → (ℕ → Bool) → Text → Text
take_up_to zero test t = []
take_up_to (suc n) test [] = []
take_up_to (suc n) test (c ∷ t) = let rest = take_up_to n test t in if test c then c ∷ rest else []

unfoldable pub drop_up_to : ℕ → (ℕ → Bool) → Text → Text
drop_up_to zero test t = t
drop_up_to (suc n) test [] = []
drop_up_to (suc n) test (c ∷ t) = let rest = drop_up_to n test t in if test c then rest else c ∷ t

-- A rule that matches gives the part that its action adds, and the text behind.
abbrev pub Matching : Type 0
Matching = Option (KeyPart × Text)

unfoldable pub match_ident : Text → Matching
unfolding ident_first ident_other take_while drop_while
match_ident [] = none
match_ident (c ∷ t) =
    if ident_first c
    then some (KeyPart.name (c ∷ take_while ident_other t), drop_while ident_other t)
    else none

abbrev pub index_limit : ℕ
index_limit = 15

-- `std::stoul` of at most 15 digits throws from the end of `unsigned long` on.
unfoldable pub match_index : ℕ → Text → Result Matching
unfolding is_digit take_up_to drop_up_to decimal
match_index ulong_end t =
    let digits = take_up_to index_limit is_digit t in
    let n = decimal 0 digits in
    if is_empty digits
    then ok none
    else if ltb n ulong_end
    then ok (some (KeyPart.index n, drop_up_to index_limit is_digit t))
    else err stoul_out_of_range

-- seq< ident, eof >
unfoldable pub is_identifier : Text → Bool
unfolding ident_first ident_other drop_while
is_identifier [] = false
is_identifier (c ∷ t) = ident_first c && is_empty (drop_while ident_other t)

-- `string_fragment` is the rule of the JAXN grammar for a quoted string, with the text that its
-- actions make of it; `mismatch` is the exception of PEGTL where a rule has to match; `ulong_end` is
-- one more than the greatest `unsigned long` of the platform.
module _ (string_fragment : Text → Option (Text × Text)) (mismatch : Text → Error)
    (ulong_end : ℕ) where
  unfoldable pub match_quoted : Text → Result Matching
  match_quoted [] = ok none
  match_quoted (c ∷ t) =
      let inside = elim (string_fragment (c ∷ t)) as (λ o. Result Matching) [
        | none ↦ err (mismatch (c ∷ t))
        | some (s, rest) ↦ ok (some (KeyPart.name s, rest))
      ] in
      if (c == 0x27) || (c == 0x22) then inside else ok none

  abbrev or_matches : Matching → Result Matching → Result Matching
  or_matches (some m) next = ok (some m)
  or_matches none next = next

  unfoldable pub key_first : Text → Result Matching
  unfolding match_ident match_quoted
  key_first t = or_matches (match_ident t) (match_quoted t)

  unfoldable pub key_other : Text → Result Matching
  unfolding match_ident match_quoted match_index
  key_other t =
      or_matches (match_ident t) (match_quoted t >>= λ m. or_matches m (match_index ulong_end t))

  abbrev must : Text → Matching → Result (KeyPart × Text)
  must t none = err (mismatch t)
  must t (some m) = ok m

  -- star_must< dot, key_other >, and then `eof`; each round costs one of the first number.
  unfoldable pub parse_more : ℕ → Text → Result Key
  unfolding key_other
  parse_more n [] = ok []
  parse_more zero (c ∷ t) = err out_of_fuel
  parse_more (suc n) (c ∷ t) =
      let rest = do m ← key_other t; (p, u) ← must t m; ps ← parse_more n u; ok (p ∷ ps)
      in if c == 0x2E then rest else err (mismatch (c ∷ t))

  -- key::assign
  unfoldable pub assign : Text → Result Key
  unfolding key_first parse_more
  assign t = do m ← key_first t; (p, u) ← must t m; ps ← parse_more (length u) u; ok (p ∷ ps)

-- std::to_string of a number with at most `n` digits.
unfoldable pub digits : ℕ → ℕ → Text
digits zero i = []
digits (suc n) i =
    let front = digits n (i / 10) in
    if ltb i 10 then (0x30 + i) ∷ [] else front ++ (0x30 + i % 10) ∷ []

-- A std::size_t has at most 20 digits.
abbrev pub size_digits : ℕ
size_digits = 20

-- `escape` is json::internal::escape.
module _ (escape : Text → Text) where
  unfoldable pub name_to_string : Text → Text
  unfolding is_identifier
  name_to_string n = if is_identifier n then n else 0x22 ∷ (escape n ++ 0x22 ∷ [])

  unfoldable pub part_to_string : KeyPart → Text
  unfolding name_to_string digits
  part_to_string (KeyPart.name n) = name_to_string n
  part_to_string (KeyPart.index i) = digits size_digits i

  unfoldable pub more_to_string : Key → Text
  unfolding part_to_string
  more_to_string [] = []
  more_to_string (p ∷ ps) = 0x2E ∷ (part_to_string p ++ more_to_string ps)

  -- to_stream and to_string of a key
  unfoldable pub to_string : Key → Text
  unfolding part_to_string more_to_string
  to_string [] = []
  to_string (p ∷ ps) = part_to_string p ++ more_to_string ps

-- pop_front and pop_back, under their assertions, and the operators that append.
unfoldable pub pop_front : Key → Result Key
pop_front [] = err undefined
pop_front (p ∷ ps) = ok ps

unfoldable pub pop_back : Key → Result Key
pop_back [] = err undefined
pop_back (p ∷ []) = ok []
pop_back (p ∷ q ∷ ps) = pop_back (q ∷ ps) >>= λ rest. ok (p ∷ rest)

abbrev pub append_key : Key → Key → Key
append_key l r = l ++ r

abbrev pub append_part : Key → KeyPart → Key
append_part l p = l ++ p ∷ []
