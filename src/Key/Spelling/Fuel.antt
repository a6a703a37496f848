-- ===== src/Key/Spelling/Fuel.antt =====
-- key.hpp: the parse of a key ends.
use config.Common.{
  ltb, stoul_out_of_range, Text, ℕ, zero, suc, ◌≤◌, ◌≡◌, refl, ◌∙◌, subst, Bool, ◌||◌, ◌==◌,
  Bool-cases, inl, inr, Option, none, some, [], ◌∷◌, length, is_empty, arith, Result, ok, err,
  Error, out_of_fuel, ◌>>=◌, value_of,
}
use config.Key.Spelling.{
  decimal, ident_first, ident_other, is_digit, drop_while, take_up_to, drop_up_to, Matching,
  match_ident, match_index, index_limit, match_quoted, or_matches, key_first, key_other, must,
  parse_more, assign,
}
use config.Key.{Key, KeyPart}

-- The operation does not run out of fuel.
abbrev Ends {ℓ} : {A : Type ℓ} → Result A → Type ℓ
Ends r = ¬ (r ≡ err out_of_fuel)

length-drop_while : (test : ℕ → Bool) (t : Text) → length (drop_while test t) ≤ length t
unfolding drop_while
length-drop_while test [] = omega arith
length-drop_while test (c ∷ t) = elim (Bool-cases (test c)) [
  | inl h ↦ rw h (omega (arith, length-drop_while test t))
  | inr h ↦ rw h (omega arith)
]

length-drop_up_to : (n : ℕ) (test : ℕ → Bool) (t : Text) → length (drop_up_to n test t) ≤ length t
unfolding drop_up_to
length-drop_up_to zero test t = omega arith
length-drop_up_to (suc n) test [] = omega arith
length-drop_up_to (suc n) test (c ∷ t) = elim (Bool-cases (test c)) [
  | inl h ↦ rw h (omega (arith, length-drop_up_to n test t))
  | inr h ↦ rw h (omega arith)
]

-- What a rule leaves is not longer than what it was given.
abbrev Leaves : Text → Matching → Type 0
Leaves t o = (m : KeyPart × Text) → o ≡ some m → length (m.1) ≤ length t

left : {x y : KeyPart × Text} → some x ≡ some y → x ≡ y
left h = cc

match_ident-Leaves : (t : Text) → Leaves t (match_ident t)
unfolding match_ident
match_ident-Leaves [] m h = cc
match_ident-Leaves (c ∷ t) m h = elim (Bool-cases (ident_first c)) [
  | inl k ↦
      subst (λ (x : KeyPart × Text). length (x.1) ≤ length (c ∷ t)) (left (rw k at h))
        (omega (arith, length-drop_while ident_other t))
  | inr k ↦ no_match (rw k at h)
]
  where
    no_match : ◌≡◌ {A = Matching} none (some m) → length (m.1) ≤ length (c ∷ t)
    no_match k = cc

module _ (string_fragment : Text → Option (Text × Text)) (mismatch : Text → Error) (ulong_end : ℕ)
    (other_error : (t : Text) → ¬ (mismatch t ≡ out_of_fuel))
    (shorter : (t s rest : Text)
      → string_fragment t ≡ some (s, rest)
      → length rest ≤ length t) where
  mismatch-Ends {ℓ} : {A : Type ℓ} (t : Text) → Ends {A = A} (err (mismatch t))
  mismatch-Ends {A = A} t h = other_error t (same h)
    where
      same : {x y : Error} → ◌≡◌ {A = Result A} (err x) (err y) → x ≡ y
      same r = cc

  -- A rule that may throw ends, and leaves what is not longer.
  abbrev EndsIn : Text → Result Matching → Type 0
  EndsIn t r = Ends r × ((o : Matching) → r ≡ ok o → Leaves t o)

  none-EndsIn : (t : Text) → EndsIn t (ok none)
  none-EndsIn t = (λ h. cc, nothing)
    where
      nothing : (o : Matching) → ok none ≡ ok o → Leaves t o
      nothing o h m k = cc

  fragment-EndsIn :
      (t : Text) (o : Option (Text × Text))
      → ((s rest : Text) → o ≡ some (s, rest) → length rest ≤ length t)
      → EndsIn t (elim o as (λ o. Result Matching) [
        | none ↦ err (mismatch t)
        | some (s, rest) ↦ ok (some (KeyPart.name s, rest))
      ])
  fragment-EndsIn t none k = (mismatch-Ends t, nothing)
    where
      nothing : (o : Matching) → err (mismatch t) ≡ ok o → Leaves t o
      nothing o h m q = cc
  fragment-EndsIn t (some (s, rest)) k = (λ h. cc, something)
    where
      something : (o : Matching) → ok (some (KeyPart.name s, rest)) ≡ ok o → Leaves t o
      something o h m q =
          subst (λ (x : KeyPart × Text). length (x.1) ≤ length t) (left (value_of h ∙ q))
            (k s rest refl)

  match_quoted-EndsIn : (t : Text) → EndsIn t (match_quoted string_fragment mismatch ulong_end t)
  unfolding match_quoted
  match_quoted-EndsIn [] = none-EndsIn []
  match_quoted-EndsIn (c ∷ t) = elim (Bool-cases ((c == 0x27) || (c == 0x22))) [
    | inl k ↦ rw k (fragment-EndsIn (c ∷ t) (string_fragment (c ∷ t)) (shorter (c ∷ t)))
    | inr k ↦ rw k (none-EndsIn (c ∷ t))
  ]

  or_matches-EndsIn :
      (t : Text) (first : Matching) (next : Result Matching)
      → Leaves t first
      → EndsIn t next
      → EndsIn t (or_matches string_fragment mismatch ulong_end first next)
  or_matches-EndsIn t none next l e = e
  or_matches-EndsIn t (some n) next l e = (λ h. cc, found)
    where
      found : (o : Matching) → ok (some n) ≡ ok o → Leaves t o
      found o h m q = l m (value_of h ∙ q)

  index-EndsIn : (t : Text) → EndsIn t (match_index ulong_end t)
  unfolding match_index
  index-EndsIn t = elim (Bool-cases (is_empty (take_up_to index_limit is_digit t))) [
    | inl k ↦ rw k (none-EndsIn t)
    | inr k ↦ elim (Bool-cases (ltb (decimal 0 (take_up_to index_limit is_digit t)) ulong_end)) [
      | inl l ↦ rw (k, l) (λ h. cc, found)
      | inr l ↦ rw (k, l) (λ h. cc, nothing)
    ]
  ]
    where
      found :
          (o : Matching)
          → ok (
              some (
                KeyPart.index (decimal 0 (take_up_to index_limit is_digit t)),
                drop_up_to index_limit is_digit t,
              ))
            ≡ ok o
          → Leaves t o
      found o h m q =
          subst (λ (x : KeyPart × Text). length (x.1) ≤ length t) (left (value_of h ∙ q))
            (length-drop_up_to index_limit is_digit t)

      nothing : (o : Matching) → err stoul_out_of_range ≡ ok o → Leaves t o
      nothing o h m q = cc

  quoted_or_index-EndsIn :
      (t : Text) (r : Result Matching)
      → EndsIn t r
      → EndsIn t
          (r >>= λ o. or_matches string_fragment mismatch ulong_end o (match_index ulong_end t))
  quoted_or_index-EndsIn t (ok o) e =
      or_matches-EndsIn t o (match_index ulong_end t) (e.1 o refl) (index-EndsIn t)
  quoted_or_index-EndsIn t (err d) e = e

  key_first-EndsIn : (t : Text) → EndsIn t (key_first string_fragment mismatch ulong_end t)
  unfolding key_first
  key_first-EndsIn t =
      or_matches-EndsIn t (match_ident t) (match_quoted string_fragment mismatch ulong_end t)
        (match_ident-Leaves t) (match_quoted-EndsIn t)

  key_other-EndsIn : (t : Text) → EndsIn t (key_other string_fragment mismatch ulong_end t)
  unfolding key_other
  key_other-EndsIn t = or_matches-EndsIn t (match_ident t) _ (match_ident-Leaves t) (
      quoted_or_index-EndsIn t (match_quoted string_fragment mismatch ulong_end t)
        (match_quoted-EndsIn t))

  -- A rule that must match, and what follows it.
  must-Ends :
      (t : Text) (r : Result Matching) (f : KeyPart × Text → Result Key)
      → EndsIn t r
      → ((m : KeyPart × Text) → length (m.1) ≤ length t → Ends (f m))
      → Ends (r >>= λ o. must string_fragment mismatch ulong_end t o >>= f)
  must-Ends t (ok none) f e k h = mismatch-Ends t h
  must-Ends t (ok (some m)) f e k h = k m (e.1 (some m) refl m refl) h
  must-Ends t (err d) f e k h = e.0 (same h)
    where
      same :
          {x y : Error}
          → ◌≡◌ {A = Result Key} (err x) (err y)
          → ◌≡◌ {A = Result Matching} (err x) (err y)
      same r = cc

  put : (p : KeyPart) (r : Result Key) → Ends r → Ends (r >>= λ ps. ok (p ∷ ps))
  put p (ok ps) e h = cc
  put p (err d) e h = e h

  parse_more-Ends :
      (n : ℕ) (t : Text) → length t ≤ n → Ends (parse_more string_fragment mismatch ulong_end n t)
  unfolding parse_more
  parse_more-Ends n [] l h = cc
  parse_more-Ends zero (c ∷ t) l h = absurd (omega arith)
  parse_more-Ends (suc n) (c ∷ t) l h = elim (Bool-cases (c == 0x2E)) [
    | inl d ↦
        must-Ends t (key_other string_fragment mismatch ulong_end t) _ (key_other-EndsIn t)
          (λ m k. put (m.0) _ (parse_more-Ends n (m.1) (omega (arith, k)))) (rw d at h)
    | inr d ↦ mismatch-Ends (c ∷ t) (rw d at h)
  ]

  -- The rounds that the length of the text allows are enough for every text.
  pub assign-Ends : (t : Text) → ¬ (assign string_fragment mismatch ulong_end t ≡ err out_of_fuel)
  unfolding assign
  assign-Ends t =
      must-Ends t (key_first string_fragment mismatch ulong_end t) _ (key_first-EndsIn t)
        (λ m k. put (m.0) _ (parse_more-Ends (length (m.1)) (m.1) (omega arith)))
