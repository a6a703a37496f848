-- ===== src/Jaxn/Number/Read.antt =====
-- jaxn_action.hpp: what the digits of a number leave in its state.
use config.Jaxn.Number.{in_range, NumberState, no_digits, has_nonzero, idigits}
use config.Common.{
  true, ◌<◌, Text, ℕ, ◌+◌, ◌-◌, ◌≤◌, pos, ◌+ℤ◌, ◌≡◌, refl, sym, ◌∙◌, ap, false, not, ◌||◌, ◌&&◌, [],
  ◌∷◌, ◌++◌, append-nil, length, take, drop, take-drop, length-take, length-drop, min, Bool-cases,
  inl, inr, ◌⊎◌, arith, ◌==◌, ltb, Position, ok,
}

pub has_nonzero-append : (t u : Text) → has_nonzero (t ++ u) ≡ has_nonzero t || has_nonzero u
unfolding has_nonzero
has_nonzero-append [] u = refl
has_nonzero-append (c ∷ t) u = ground (arith, has_nonzero-append t u)

-- The state has read the digits `t`, the last `fraction` of them behind the point: it skipped zeros
-- and left out the digits `rest`.
pub record IsRead (t : Text) (fraction max_digits : ℕ) (st : NumberState) : Type 0 where
  pub skipped : Text
  pub rest : Text
  pub split : t ≡ skipped ++ (st.mantissa ++ rest)
  pub nought : has_nonzero skipped ≡ false
  pub dropped : st.drop ≡ has_nonzero rest
  pub exponent : st.exponent10 +ℤ pos fraction ≡ pos (length rest)
  pub fits : length st.mantissa ≤ max_digits

pos_plus : (a b : ℕ) → pos a +ℤ pos b ≡ pos (a + b)
unfolding ◌+ℤ◌
pos_plus a b = ground arith

pub nil_of_length : (xs : Text) → length xs ≡ 0 → xs ≡ []
nil_of_length [] h = refl
nil_of_length (x ∷ xs) h = absurd (omega arith)

module _ (max_digits : ℕ) where
  -- The state after the digits `t`: nothing is left out unless the buffer is full.
  abbrev pub Filled : Text → NumberState → Type 0
  Filled t st =
      (read : IsRead t 0 max_digits st) × ((read.rest ≡ []) ⊎ (length st.mantissa ≡ max_digits))

  idigits-zero : (t : Text) → has_nonzero t ≡ false → Filled t no_digits
  unfolding has_nonzero
  idigits-zero t z = (
    record {
      skipped = t;
      rest = [];
      split = sym (append-nil t);
      nought = z;
      dropped = refl;
      exponent = pos_plus 0 0;
      fits = omega arith;
    },
    inl refl,
  )

  idigits-digits :
      (t : Text)
      → Filled t (record no_digits {
        exponent10 = pos 0 +ℤ pos (length t - min (length t) max_digits);
        mantissa = take (min (length t) max_digits) t;
        drop = has_nonzero (drop (min (length t) max_digits) t);
      })
  unfolding has_nonzero
  idigits-digits t =
      let s = length t in
      let c = min s max_digits in
      let left : s - c ≡ length (drop c t) = omega (arith, length-drop c t) in
      (
        record {
          skipped = [];
          rest = drop c t;
          split = take-drop c t;
          nought = refl;
          dropped = refl;
          exponent =
              ap (λ z. z +ℤ pos 0) (pos_plus 0 (s - c))
              ∙ pos_plus (0 + (s - c)) 0
              ∙ ap pos (omega (arith, left));
          fits = omega (arith, length-take c t);
        },
        full,
      )
    where
      full :
          (drop (min (length t) max_digits) t ≡ [])
          ⊎ (length (take (min (length t) max_digits) t) ≡ max_digits)
      full = elim (Bool-cases (ltb max_digits (length t))) [
        | inl h ↦ inr (ground (arith, length-take (min (length t) max_digits) t))
        | inr h ↦ inl (
            nil_of_length (drop (min (length t) max_digits) t)
              (ground (arith, length-drop (min (length t) max_digits) t)))
      ]

  -- The digits of the integer part are read, where there are at most 2^20 of them.
  pub idigits-Filled :
      (limit : ℕ) (t : Text) (p : Position)
      → length t ≤ 0x100000
      → 0x100000 < limit
      → (st : NumberState) × (idigits limit max_digits t p no_digits ≡ ok st) × Filled t st
  unfolding idigits
  idigits-Filled limit t p h l = elim (Bool-cases ((length t == 1) && not (has_nonzero t))) [
    | inl z ↦ (no_digits, rw z refl, idigits-zero t (ground arith))
    | inr z ↦
        let small : ltb 0x100000 (length t) ≡ false = ground arith in
        let room : ltb (0 + (length t - min (length t) max_digits)) limit ≡ true = ground arith in
        let fits : in_range limit (pos 0 +ℤ pos (length t - min (length t) max_digits)) ≡ true =
          rw (pos_plus 0 (length t - min (length t) max_digits)) room in
        (_, rw (z, small, fits) refl, idigits-digits t)
  ]
