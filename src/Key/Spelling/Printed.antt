-- ===== src/Key/Spelling/Printed.antt =====
-- key.hpp: a key that has been printed is read back.
use config.Common.{
  ltb, ◌⊎◌, Text, ℕ, zero, suc, ◌^◌, ◌<◌, ◌≤◌, ◌≡◌, refl, ap, Bool, true, false, ◌||◌, ◌==◌,
  Bool-cases, inl, inr, Option, none, some, [], ◌∷◌, ◌++◌, append_assoc, length, length-append,
  is_empty, arith, Result, ok, Error, ◌>>=◌,
}
use config.Jaxn.Number.Digits.{AreDigits}
use config.Key.Spelling.Digits.{digits-AreDigits, digits-value, digits-length, digits-nonempty}
use config.Key.Spelling.{
  ident_first, ident_other, is_digit, take_while, drop_while, take_up_to, drop_up_to, Matching,
  match_ident, match_index, index_limit, is_identifier, match_quoted, or_matches, key_first,
  key_other, parse_more, assign, digits, size_digits, name_to_string, part_to_string,
  more_to_string, to_string,
}
use config.Key.{Key, KeyPart}

-- Every character passes the test, or the first one does not.
unfoldable Passes : (ℕ → Bool) → Text → Type 0
Passes test [] = Unit {0}
Passes test (c ∷ t) = (test c ≡ true) × Passes test t

unfoldable Stops : (ℕ → Bool) → Text → Type 0
Stops test [] = Unit {0}
Stops test (c ∷ t) = test c ≡ false

module _ (test : ℕ → Bool) where
  take_while-Stops : (t : Text) → Stops test t → (take_while test t ≡ []) × (drop_while test t ≡ t)
  unfolding take_while drop_while Stops
  take_while-Stops [] s = (refl, refl)
  take_while-Stops (c ∷ t) s = rw s (refl, refl)

  take_while-append :
      (t rest : Text)
      → Passes test t
      → Stops test rest
      → (take_while test (t ++ rest) ≡ t) × (drop_while test (t ++ rest) ≡ rest)
  unfolding take_while drop_while Passes
  take_while-append [] rest p s = take_while-Stops rest s
  take_while-append (c ∷ t) rest p s =
      let (a, b) = take_while-append t rest (p.1) s in rw (p.0) (ap (◌∷◌ c) a, b)

  take_up_to-append :
      (n : ℕ) (t rest : Text)
      → length t ≤ n
      → Passes test t
      → Stops test rest
      → (take_up_to n test (t ++ rest) ≡ t) × (drop_up_to n test (t ++ rest) ≡ rest)
  unfolding take_up_to drop_up_to Passes Stops
  take_up_to-append zero [] rest l p s = (refl, refl)
  take_up_to-append zero (c ∷ t) rest l p s = absurd (omega arith)
  take_up_to-append (suc n) [] [] l p s = (refl, refl)
  take_up_to-append (suc n) [] (c ∷ rest) l p s = rw s (refl, refl)
  take_up_to-append (suc n) (c ∷ t) rest l p s =
      let (a, b) = take_up_to-append n t rest (omega arith) (p.1) s in rw (p.0) (ap (◌∷◌ c) a, b)

  drop_while-Passes : (t : Text) → is_empty (drop_while test t) ≡ true → Passes test t
  unfolding drop_while Passes
  drop_while-Passes [] h = tt
  drop_while-Passes (c ∷ t) h = elim (Bool-cases (test c)) [
    | inl k ↦ (k, drop_while-Passes t (rw k at h))
    | inr k ↦ not_empty (rw k at h)
  ]
    where
      not_empty : false ≡ true → Passes test (c ∷ t)
      not_empty k = cc

-- What stands behind a part of a key: nothing, or a dot.
unfoldable Ends : Text → Type 0
Ends [] = Unit {0}
Ends (c ∷ t) = c ≡ 0x2E

Ends-ident : (t : Text) → Ends t → Stops ident_other t
unfolding Ends Stops ident_other ident_first is_digit
Ends-ident [] e = tt
Ends-ident (c ∷ t) e = rw e refl

Ends-digit : (t : Text) → Ends t → Stops is_digit t
unfolding Ends Stops is_digit
Ends-digit [] e = tt
Ends-digit (c ∷ t) e = rw e refl

digits-Passes : (t : Text) → AreDigits t → Passes is_digit t
unfolding AreDigits Passes is_digit
digits-Passes [] d = tt
digits-Passes (c ∷ t) d = (ground (arith, d.0, d.1), digits-Passes t (d.2))

match_ident-append :
    (n rest : Text)
    → is_identifier n ≡ true
    → Ends rest
    → match_ident (n ++ rest) ≡ some (KeyPart.name n, rest)
unfolding match_ident is_identifier
match_ident-append [] rest i e = cc
match_ident-append (c ∷ t) rest i e =
    let first : ident_first c ≡ true = ground arith in
    let others : is_empty (drop_while ident_other t) ≡ true = ground arith in
    let (a, b) =
      take_while-append ident_other t rest (drop_while-Passes ident_other t others)
        (Ends-ident rest e) in
    rw (first, a, b) refl

-- Digits are neither an identifier nor quoted.
match_ident-digit : (c : ℕ) (t : Text) → is_digit c ≡ true → match_ident (c ∷ t) ≡ none
unfolding match_ident ident_first is_digit
match_ident-digit c t h = let other : ident_first c ≡ false = ground arith in rw other refl

first_digit :
    (t : Text)
    → Passes is_digit t
    → 0 < length t
    → (c : ℕ) × (u : Text) × (t ≡ c ∷ u) × (is_digit c ≡ true)
unfolding Passes
first_digit [] p h = absurd (omega arith)
first_digit (c ∷ u) p h = (c, u, refl, p.0)

match_index-append :
    (ulong_end i : ℕ) (rest : Text)
    → i < 10 ^ index_limit
    → i < ulong_end
    → Ends rest
    → match_index ulong_end (digits size_digits i ++ rest) ≡ ok (some (KeyPart.index i, rest))
unfolding match_index
match_index-append ulong_end i rest h m e =
    let t = digits size_digits i in
    let short = digits-length size_digits 14 i h in
    let pass = digits-Passes t (digits-AreDigits size_digits i) in
    let (a, b) = take_up_to-append is_digit index_limit t rest short pass (Ends-digit rest e) in
    let (c, u, split, d) = first_digit t pass (digits-nonempty 19 i) in
    let filled : is_empty t ≡ false = rw split refl in
    let fits : ltb i ulong_end ≡ true = ground arith in
    rw (a, b, filled, digits-value size_digits i (omega (arith, h)), fits) refl

-- The dot and what follows it begins with no part.
more_to_string-Ends : (escape : Text → Text) (ps : Key) → Ends (more_to_string escape ps)
unfolding more_to_string Ends
more_to_string-Ends escape [] = tt
more_to_string-Ends escape (p ∷ ps) = refl

-- An index has at most 15 digits and fits `unsigned long`, and a name is one that the JSON library can write and read.
unfoldable pub AreWritable : (Text → Bool) → ℕ → Key → Type 0
AreWritable valid ulong_end [] = Unit {0}
AreWritable valid ulong_end (KeyPart.name n ∷ ps) =
    (valid n ≡ true) × AreWritable valid ulong_end ps
AreWritable valid ulong_end (KeyPart.index i ∷ ps) =
    (i < 10 ^ index_limit) × (i < ulong_end) × AreWritable valid ulong_end ps

module _ (string_fragment : Text → Option (Text × Text)) (mismatch : Text → Error) (ulong_end : ℕ)
    (escape : Text → Text) (valid : Text → Bool)
    (reads : (n rest : Text)
      → valid n ≡ true
      → (rest ≡ []) ⊎ ((u : Text) × (rest ≡ 0x2E ∷ u))
      → string_fragment (0x22 ∷ (escape n ++ 0x22 ∷ rest)) ≡ some (n, rest)) where
  Ends-cases : (t : Text) → Ends t → (t ≡ []) ⊎ ((u : Text) × (t ≡ 0x2E ∷ u))
  unfolding Ends
  Ends-cases [] e = inl refl
  Ends-cases (c ∷ t) e = inr (t, ap (λ x. x ∷ t) e)

  key_first-name :
      (n rest : Text)
      → valid n ≡ true
      → Ends rest
      → key_first string_fragment mismatch ulong_end (name_to_string escape n ++ rest)
        ≡ ok (some (KeyPart.name n, rest))
  unfolding key_first name_to_string match_quoted match_ident ident_first
  key_first-name n rest v e = elim (Bool-cases (is_identifier n)) [
    | inl i ↦ rw (i, match_ident-append n rest i e) refl
    | inr i ↦
        rw (i, append_assoc (escape n) (0x22 ∷ []) rest, reads n rest v (Ends-cases rest e)) refl
  ]

  key_other-first :
      (t : Text) (m : KeyPart × Text)
      → key_first string_fragment mismatch ulong_end t ≡ ok (some m)
      → key_other string_fragment mismatch ulong_end t ≡ ok (some m)
  unfolding key_first key_other
  key_other-first t m h =
      chain (match_ident t) (match_quoted string_fragment mismatch ulong_end t) h
    where
      chain :
          (first : Matching) (r : Result Matching)
          → or_matches string_fragment mismatch ulong_end first r ≡ ok (some m)
          → or_matches string_fragment mismatch ulong_end first
              (r >>= λ o. or_matches string_fragment mismatch ulong_end o (match_index ulong_end t))
            ≡ ok (some m)
      chain (some n) r k = k
      chain none r k = rw k refl

  match_quoted-digit :
      (c : ℕ) (t : Text)
      → is_digit c ≡ true
      → match_quoted string_fragment mismatch ulong_end (c ∷ t) ≡ ok none
  unfolding match_quoted is_digit
  match_quoted-digit c t h =
      let other : (c == 0x27) || (c == 0x22) ≡ false = ground arith in rw other refl

  key_other-index :
      (t : Text) (i : ℕ)
      → ((c : ℕ) × (u : Text) × (t ≡ c ∷ u) × (is_digit c ≡ true))
      → (rest : Text) → match_index ulong_end (t ++ rest) ≡ ok (some (KeyPart.index i, rest))
      → key_other string_fragment mismatch ulong_end (t ++ rest) ≡ ok (some (KeyPart.index i, rest))
  unfolding key_other
  key_other-index t i (c, u, split, d) rest h =
      rw (h, split, match_ident-digit c (u ++ rest) d, match_quoted-digit c (u ++ rest) d) refl

  key_other-part :
      (p : KeyPart) (rest : Text)
      → AreWritable valid ulong_end (p ∷ [])
      → Ends rest
      → key_other string_fragment mismatch ulong_end (part_to_string escape p ++ rest)
        ≡ ok (some (p, rest))
  unfolding part_to_string AreWritable
  key_other-part (KeyPart.name n) rest w e =
      key_other-first _ (KeyPart.name n, rest) (key_first-name n rest (w.0) e)
  key_other-part (KeyPart.index i) rest w e =
      let t = digits size_digits i in
      let pass = digits-Passes t (digits-AreDigits size_digits i) in
      key_other-index t i (first_digit t pass (digits-nonempty 19 i)) rest
        (match_index-append ulong_end i rest (w.0) (w.1) e)

  AreWritable-first :
      (p : KeyPart) (ps : Key)
      → AreWritable valid ulong_end (p ∷ ps)
      → AreWritable valid ulong_end (p ∷ []) × AreWritable valid ulong_end ps
  unfolding AreWritable
  AreWritable-first (KeyPart.name n) ps w = ((w.0, tt), w.1)
  AreWritable-first (KeyPart.index i) ps w = ((w.0, w.1, tt), w.2)

  parse_more-printed :
      (n : ℕ) (ps : Key)
      → length (more_to_string escape ps) ≤ n
      → AreWritable valid ulong_end ps
      → parse_more string_fragment mismatch ulong_end n (more_to_string escape ps) ≡ ok ps
  unfolding parse_more more_to_string
  parse_more-printed n [] l w = refl
  parse_more-printed zero (p ∷ ps) l w = absurd (omega arith)
  parse_more-printed (suc n) (p ∷ ps) l w =
      let (first, later) = AreWritable-first p ps w in
      let rest = more_to_string escape ps in
      let read = key_other-part p rest first (more_to_string-Ends escape ps) in
      rw
        (
          read,
          parse_more-printed n ps (omega (arith, length-append (part_to_string escape p) rest))
              later,
        )
        refl

  -- A key that begins with a name, whose indices have at most 15 digits and fit `unsigned long`, and
  -- whose names can be written and read as quoted strings, is read back from what it is printed to.
  pub assign-to_string :
      (n : Text) (ps : Key)
      → AreWritable valid ulong_end (KeyPart.name n ∷ ps)
      → assign string_fragment mismatch ulong_end (to_string escape (KeyPart.name n ∷ ps))
        ≡ ok (KeyPart.name n ∷ ps)
  unfolding assign to_string AreWritable
  assign-to_string n ps w =
      let rest = more_to_string escape ps in
      let read = key_first-name n rest (w.0) (more_to_string-Ends escape ps) in
      rw (read, parse_more-printed (length rest) ps (omega arith) (w.1)) refl
