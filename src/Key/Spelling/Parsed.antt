-- ===== src/Key/Spelling/Parsed.antt =====
-- key.hpp: what a key is parsed to, and that the parse ends.
use config.Common.{
  ltb, Text, ℕ, zero, suc, ◌^◌, ◌<◌, ◌≤◌, ◌≡◌, ◌∙◌, ap, subst, ◌||◌, ◌==◌, Bool-cases, inl, inr,
  Option, none, some, [], ◌∷◌, length, is_empty, arith, Result, ok, err, Error, ◌>>=◌, >>=-eq-ok,
  value_of,
}
use native.Mathlib.Nat.{pow-le-pow_right}
use config.Jaxn.Number.Digits.{AreDigits, decimal-bound}
use config.Jaxn.Number.{decimal}
use config.Key.Spelling.{
  ident_first, is_digit, take_up_to, Matching, match_ident, match_index, index_limit, match_quoted,
  or_matches, key_first, key_other, must, parse_more, assign,
}
use config.Key.{Key, KeyPart}

-- An index has at most 15 digits, and fits `unsigned long`.
unfoldable pub IsBounded : ℕ → KeyPart → Type 0
IsBounded ulong_end (KeyPart.name n) = Unit {0}
IsBounded ulong_end (KeyPart.index i) = (i < 10 ^ index_limit) × (i < ulong_end)

unfoldable pub AreBounded : ℕ → Key → Type 0
AreBounded ulong_end [] = Unit {0}
AreBounded ulong_end (p ∷ ps) = IsBounded ulong_end p × AreBounded ulong_end ps

take_up_to-AreDigits :
    (n : ℕ) (t : Text)
    → AreDigits (take_up_to n is_digit t) × (length (take_up_to n is_digit t) ≤ n)
unfolding take_up_to AreDigits is_digit
take_up_to-AreDigits zero t = (tt, omega arith)
take_up_to-AreDigits (suc n) [] = (tt, omega arith)
take_up_to-AreDigits (suc n) (c ∷ t) = elim (Bool-cases (is_digit c)) [
  | inl h ↦
      let (d, l) = take_up_to-AreDigits n t in
      rw h ((ground arith, ground arith, d), omega (arith, l))
  | inr h ↦ rw h (tt, omega arith)
]

-- What a rule gives is bounded, where it matches.
abbrev GivesBounded : ℕ → Matching → Type 0
GivesBounded ulong_end o = (m : KeyPart × Text) → o ≡ some m → IsBounded ulong_end (m.0)

some_same : {x y : KeyPart × Text} → some x ≡ some y → x ≡ y
some_same h = cc

match_index-IsBounded :
    (ulong_end : ℕ) (t : Text) (m : KeyPart × Text)
    → match_index ulong_end t ≡ ok (some m)
    → IsBounded ulong_end (m.0)
unfolding match_index IsBounded
match_index-IsBounded ulong_end t m h =
    elim (Bool-cases (is_empty (take_up_to index_limit is_digit t))) [
      | inl k ↦ no_match (rw k at h)
      | inr k ↦ elim (Bool-cases (ltb (decimal 0 (take_up_to index_limit is_digit t)) ulong_end)) [
        | inl l ↦
            subst (λ (x : KeyPart × Text). IsBounded ulong_end (x.0))
              (some_same (value_of (rw (k, l) at h))) (below, ground arith)
        | inr l ↦ too_large (rw (k, l) at h)
      ]
    ]
  where
    no_match : ◌≡◌ {A = Result Matching} (ok none) (ok (some m)) → IsBounded ulong_end (m.0)
    no_match k = cc

    too_large :
        {e : Error} → ◌≡◌ {A = Result Matching} (err e) (ok (some m)) → IsBounded ulong_end (m.0)
    too_large k = cc

    below : decimal 0 (take_up_to index_limit is_digit t) < 10 ^ index_limit
    below =
        let (d, l) = take_up_to-AreDigits index_limit t in
        let room = pow-le-pow_right {n = 10} (omega arith) {j = index_limit} l in
        omega (arith, decimal-bound (take_up_to index_limit is_digit t) d, room)

match_ident-GivesBounded : (ulong_end : ℕ) (t : Text) → GivesBounded ulong_end (match_ident t)
unfolding match_ident IsBounded
match_ident-GivesBounded ulong_end [] m h = cc
match_ident-GivesBounded ulong_end (c ∷ t) m h = elim (Bool-cases (ident_first c)) [
  | inl k ↦ subst (λ (x : KeyPart × Text). IsBounded ulong_end (x.0)) (some_same (rw k at h)) tt
  | inr k ↦ no_match (rw k at h)
]
  where
    no_match : ◌≡◌ {A = Matching} none (some m) → IsBounded ulong_end (m.0)
    no_match k = cc

module _ (string_fragment : Text → Option (Text × Text)) (mismatch : Text → Error)
    (ulong_end : ℕ) where
  fragment-IsBounded :
      (c : ℕ) (t : Text) (o : Option (Text × Text)) (m : KeyPart × Text)
      → elim o as (λ x. Result Matching) [
        | none ↦ err (mismatch (c ∷ t))
        | some (s, rest) ↦ ok (some (KeyPart.name s, rest))
      ]
        ≡ ok (some m)
      → IsBounded ulong_end (m.0)
  unfolding IsBounded
  fragment-IsBounded c t none m h = cc
  fragment-IsBounded c t (some (s, rest)) m h =
      subst (λ (x : KeyPart × Text). IsBounded ulong_end (x.0)) (some_same (value_of h)) tt

  match_quoted-IsBounded :
      (t : Text) (m : KeyPart × Text)
      → match_quoted string_fragment mismatch ulong_end t ≡ ok (some m)
      → IsBounded ulong_end (m.0)
  unfolding match_quoted
  match_quoted-IsBounded [] m h = cc
  match_quoted-IsBounded (c ∷ t) m h = elim (Bool-cases ((c == 0x27) || (c == 0x22))) [
    | inl k ↦ fragment-IsBounded c t (string_fragment (c ∷ t)) m (rw k at h)
    | inr k ↦ no_match (rw k at h)
  ]
    where
      no_match : ◌≡◌ {A = Result Matching} (ok none) (ok (some m)) → IsBounded ulong_end (m.0)
      no_match k = cc

  or_matches-IsBounded :
      (first : Matching) (next : Result Matching) (m : KeyPart × Text)
      → GivesBounded ulong_end first
      → (next ≡ ok (some m) → IsBounded ulong_end (m.0))
      → or_matches string_fragment mismatch ulong_end first next ≡ ok (some m)
      → IsBounded ulong_end (m.0)
  or_matches-IsBounded none next m b k h = k h
  or_matches-IsBounded (some n) next m b k h = b m (value_of h)

  key_first-IsBounded :
      (t : Text) (m : KeyPart × Text)
      → key_first string_fragment mismatch ulong_end t ≡ ok (some m)
      → IsBounded ulong_end (m.0)
  unfolding key_first
  key_first-IsBounded t m h =
      or_matches-IsBounded (match_ident t) (match_quoted string_fragment mismatch ulong_end t) m
        (match_ident-GivesBounded ulong_end t) (match_quoted-IsBounded t m) h

  key_other-IsBounded :
      (t : Text) (m : KeyPart × Text)
      → key_other string_fragment mismatch ulong_end t ≡ ok (some m)
      → IsBounded ulong_end (m.0)
  unfolding key_other
  key_other-IsBounded t m h =
      or_matches-IsBounded (match_ident t) _ m (match_ident-GivesBounded ulong_end t) behind h
    where
      behind :
          (match_quoted string_fragment mismatch ulong_end t >>= λ o.
          or_matches string_fragment mismatch ulong_end o (match_index ulong_end t))
            ≡ ok (some m)
          → IsBounded ulong_end (m.0)
      behind k =
          let (o, u, v) = >>=-eq-ok (match_quoted string_fragment mismatch ulong_end t) _ k in
          or_matches-IsBounded o (match_index ulong_end t) m
            (λ n q. match_quoted-IsBounded t n (u ∙ ap ok q)) (match_index-IsBounded ulong_end t m)
            v

  must-some :
      (t : Text) (o : Matching) {m : KeyPart × Text}
      → must string_fragment mismatch ulong_end t o ≡ ok m
      → o ≡ some m
  must-some t none h = cc
  must-some t (some n) h = ap some (value_of h)

  parse_more-AreBounded :
      (n : ℕ) (t : Text) (k : Key)
      → parse_more string_fragment mismatch ulong_end n t ≡ ok k
      → AreBounded ulong_end k
  unfolding parse_more AreBounded
  parse_more-AreBounded n [] k h = subst (AreBounded ulong_end) (value_of h) tt
  parse_more-AreBounded zero (c ∷ t) k h = cc
  parse_more-AreBounded (suc n) (c ∷ t) k h = elim (Bool-cases (c == 0x2E)) [
    | inl d ↦
        let (o, u, v) = >>=-eq-ok (key_other string_fragment mismatch ulong_end t) _ (rw d at h) in
        let ((p, rest), u', v') = >>=-eq-ok (must string_fragment mismatch ulong_end t o) _ v in
        let (ps, u2, v2) = >>=-eq-ok (parse_more string_fragment mismatch ulong_end n rest) _ v' in
        subst (AreBounded ulong_end) (value_of v2) (
          key_other-IsBounded t (p, rest) (u ∙ ap ok (must-some t o u')),
          parse_more-AreBounded n rest ps u2,
        )
    | inr d ↦ no_dot (rw d at h)
  ]
    where
      no_dot : {e : Error} → ◌≡◌ {A = Result Key} (err e) (ok k) → AreBounded ulong_end k
      no_dot q = cc

  -- Every index in a key that is parsed is below 10^15 and fits `unsigned long`.
  pub assign-AreBounded :
      (t : Text) (k : Key)
      → assign string_fragment mismatch ulong_end t ≡ ok k
      → AreBounded ulong_end k
  unfolding assign AreBounded
  assign-AreBounded t k h =
      let (o, u, v) = >>=-eq-ok (key_first string_fragment mismatch ulong_end t) _ h in
      let ((p, rest), u', v') = >>=-eq-ok (must string_fragment mismatch ulong_end t o) _ v in
      let (ps, u2, v2) =
        >>=-eq-ok (parse_more string_fragment mismatch ulong_end (length rest) rest) _ v' in
      subst (AreBounded ulong_end) (value_of v2) (
        key_first-IsBounded t (p, rest) (u ∙ ap ok (must-some t o u')),
        parse_more-AreBounded (length rest) rest ps u2,
      )
