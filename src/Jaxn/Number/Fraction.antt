-- ===== src/Jaxn/Number/Fraction.antt =====
-- jaxn_action.hpp: what the digits behind the point leave in the state of a number.
use config.Jaxn.Number.{
  in_range, NumberState, is_zero, has_nonzero, trim_zeros, skip_zeros, significant, fdigits,
}
use config.Common.{
  ok, ◌≤◌, Text, ℕ, ◌+◌, ◌-◌, ◌<◌, ℤ, pos, negsuc, ◌+ℤ◌, sub_ℕ, ◌≡◌, refl, sym, ◌∙◌, ap, Bool, true,
  false, ◌||◌, ◌&&◌, [], ◌∷◌, ◌++◌, append_assoc, append-nil, length, length-append, take, drop,
  take-drop, length-take, length-drop, min, Bool-cases, inl, inr, ◌⊎◌, is_empty, arith,
  if◌then◌else◌,
}
use config.Jaxn.Number.Read.{IsRead, Filled, has_nonzero-append, nil_of_length}

-- Zeros have been cut off from the end, or from the front.
abbrev CutBehind : Text → Text → Type 0
CutBehind t e = (z : Text) × (t ≡ e ++ z) × (has_nonzero z ≡ false)

abbrev CutBefore : Text → Text → Type 0
CutBefore t b = (z : Text) × (t ≡ z ++ b) × (has_nonzero z ≡ false)

and_false : (b : Bool) → b && false ≡ false
and_false true = refl
and_false false = refl

trim_zeros-CutBehind : (t : Text) → CutBehind t (trim_zeros t)
unfolding trim_zeros has_nonzero
trim_zeros-CutBehind [] = ([], refl, refl)
trim_zeros-CutBehind (c ∷ t) = let (z, h, k) = trim_zeros-CutBehind t in cut (trim_zeros t) z h k
  where
    cut :
        (rest z : Text)
        → t ≡ rest ++ z
        → has_nonzero z ≡ false
        → CutBehind (c ∷ t) (if is_zero c && is_empty rest then [] else c ∷ rest)
    cut (x ∷ rest) z h k = rw (and_false (is_zero c)) (z, ap (◌∷◌ c) h, k)
    cut [] z h k = elim (Bool-cases (is_zero c)) [
      | inl i ↦ rw i (c ∷ z, ap (◌∷◌ c) h, rw (i, k) refl)
      | inr i ↦ rw i (z, ap (◌∷◌ c) h, k)
    ]

skip_zeros-CutBefore : (t : Text) → CutBefore t (skip_zeros t)
unfolding skip_zeros has_nonzero
skip_zeros-CutBefore [] = ([], refl, refl)
skip_zeros-CutBefore (c ∷ t) = elim (Bool-cases (is_zero c)) [
  | inl i ↦ let (z, h, k) = skip_zeros-CutBefore t in rw i (c ∷ z, ap (◌∷◌ c) h, rw (i, k) refl)
  | inr i ↦ rw i ([], refl, refl)
]

-- Zeros are skipped only in front of the first digit that is kept.
significant-CutBefore :
    (mantissa t : Text)
    → (cut : CutBefore t (significant mantissa t)) × ((mantissa ≡ []) ⊎ (cut.0 ≡ []))
unfolding has_nonzero significant skip_zeros
significant-CutBefore [] t = (skip_zeros-CutBefore t, inl refl)
significant-CutBefore (c ∷ m) t = (([], refl, refl), inr refl)

plus_zero : (x : ℤ) → x +ℤ pos 0 ≡ x
unfolding ◌+ℤ◌
plus_zero (pos n) = ground arith
plus_zero (negsuc n) = ground arith

minus_ℕ : (p q a : ℕ) → sub_ℕ p q +ℤ sub_ℕ 0 a ≡ sub_ℕ p (q + a)
unfolding ◌+ℤ◌
minus_ℕ p q a = ground arith

plus_ℕ : (p q f : ℕ) → sub_ℕ p q +ℤ pos f ≡ sub_ℕ (p + f) q
unfolding ◌+ℤ◌
plus_ℕ p q f = ground arith

sub_ℕ-pos : (p q r : ℕ) → p ≡ r + q → sub_ℕ p q ≡ pos r
sub_ℕ-pos p q r h = ground arith

exponent-step :
    (x : ℤ) (r a c f r' : ℕ)
    → x +ℤ pos 0 ≡ pos r
    → r + f ≡ r' + a + c
    → (x +ℤ sub_ℕ 0 a +ℤ sub_ℕ 0 c) +ℤ pos f ≡ pos r'
exponent-step x r a c f r' h k = rw (sym (plus_zero x) ∙ h) (
    ap (λ y. y +ℤ sub_ℕ 0 a +ℤ sub_ℕ 0 c +ℤ pos f) (sym (sub_ℕ-pos r 0 r (omega arith)))
    ∙ ap (λ y. y +ℤ sub_ℕ 0 c +ℤ pos f) (minus_ℕ r 0 a)
    ∙ ap (λ y. y +ℤ pos f) (minus_ℕ r (0 + a) c)
    ∙ plus_ℕ r (0 + a + c) f
    ∙ sub_ℕ-pos (r + f) (0 + a + c) r' (omega (arith, k)))

dropped-append :
    (b : Bool) (r d zt : Text)
    → b ≡ has_nonzero r
    → has_nonzero zt ≡ false
    → b || has_nonzero d ≡ has_nonzero (r ++ (d ++ zt))
dropped-append b r d zt h k =
    rw (h, has_nonzero-append r (d ++ zt), has_nonzero-append d zt, k) (ground arith)

module _ (max_digits : ℕ) (some_digits : 0 < max_digits) where
  -- What is split off stands behind what has been left out before.
  fraction-split :
      (z m r zb a d zt i f : Text)
      → i ≡ z ++ (m ++ r)
      → f ≡ (zb ++ (a ++ d)) ++ zt
      → (m ≡ []) ⊎ (zb ≡ [])
      → (r ≡ []) ⊎ ((a ≡ []) × (0 < length m))
      → i ++ f ≡ (z ++ zb) ++ ((m ++ a) ++ (r ++ (d ++ zt)))
  fraction-split z m r zb a d zt i f h k (inl p) (inl q) =
      rw (h, k, p, q) (simp (append_assoc, append-nil))
  fraction-split z m r zb a d zt i f h k (inl p) (inr q) = absurd (omega (arith, q.1, ap length p))
  fraction-split z m r zb a d zt i f h k (inr p) (inl q) =
      rw (h, k, p, q) (simp (append_assoc, append-nil))
  fraction-split z m r zb a d zt i f h k (inr p) (inr q) =
      rw (h, k, p, q.0) (simp (append_assoc, append-nil))

  buffer_full :
      (m r b : Text)
      → (r ≡ []) ⊎ (length m ≡ max_digits)
      → (r ≡ []) ⊎ ((take (min (length b) (max_digits - length m)) b ≡ []) × (0 < length m))
  buffer_full m r b (inl h) = inl h
  buffer_full m r b (inr h) =
      let c = min (length b) (max_digits - length m) in
      inr (nil_of_length (take c b) (omega (arith, length-take c b, h)), omega arith)

  -- The state after the digits behind the point.
  abbrev after_fraction : Text → NumberState → NumberState
  after_fraction f st =
      let e = trim_zeros f in
      let b = significant st.mantissa e in
      let c = min (length b) (max_digits - length st.mantissa) in
      record st {
        isfp = true;
        exponent10 = st.exponent10 +ℤ sub_ℕ 0 (length e - length b) +ℤ sub_ℕ 0 c;
        mantissa = st.mantissa ++ take c b;
        drop = st.drop || has_nonzero (drop c b);
      }

  -- The digits behind the point are read, where those in front of it are.
  after_fraction-IsRead :
      (i f : Text) (st : NumberState)
      → Filled max_digits i st
      → IsRead (i ++ f) (length f) max_digits (after_fraction f st)
  after_fraction-IsRead i f st (read, full) =
      let e = trim_zeros f in
      let b = significant st.mantissa e in
      let c = min (length b) (max_digits - length st.mantissa) in
      let (zt, behind, noughts) = trim_zeros-CutBehind f in
      let ((zb, before, noughts'), where_cut) = significant-CutBefore st.mantissa e in
      let parts : f ≡ (zb ++ (take c b ++ drop c b)) ++ zt =
        behind ∙ ap (λ x. x ++ zt) (before ∙ ap (λ y. zb ++ y) (take-drop c b)) in
      record {
        skipped = read.skipped ++ zb;
        rest = read.rest ++ (drop c b ++ zt);
        split =
            fraction-split read.skipped st.mantissa read.rest zb (take c b) (drop c b) zt i f
              read.split parts where_cut (buffer_full st.mantissa read.rest b full);
        nought = has_nonzero-append read.skipped zb ∙ rw (read.nought, noughts') refl;
        dropped = dropped-append st.drop read.rest (drop c b) zt read.dropped noughts;
        exponent =
            exponent-step st.exponent10 (length read.rest) (length e - length b) c (length f)
              (length (read.rest ++ (drop c b ++ zt))) read.exponent
              (omega (
                arith,
                length-append read.rest (drop c b ++ zt),
                length-append (drop c b) zt,
                length-drop c b,
                ap length behind ∙ length-append e zt,
                ap length before ∙ length-append zb b,
              ));
        fits = omega (arith, length-append st.mantissa (take c b), length-take c b, read.fits);
      }

  -- The exponent is held by its type, where there are few digits.
  in_range-read :
      (limit : ℕ) (x : ℤ) (r a c : ℕ)
      → x +ℤ pos 0 ≡ pos r
      → r < limit
      → a + c ≤ limit
      → in_range limit (x +ℤ sub_ℕ 0 a +ℤ sub_ℕ 0 c) ≡ true
  in_range-read limit x r a c h k l = rw (sym (plus_zero x) ∙ h) (
      rw
        (ap (λ y. y +ℤ sub_ℕ 0 a +ℤ sub_ℕ 0 c) (sym (sub_ℕ-pos r 0 r (omega arith)))
          ∙ ap (λ y. y +ℤ sub_ℕ 0 c) (minus_ℕ r 0 a)
          ∙ minus_ℕ r (0 + a) c)
        (between r (0 + a + c) k (omega arith)))
    where
      between : (p q : ℕ) → (p < limit) → q ≤ limit → in_range limit (sub_ℕ p q) ≡ true
      between p q i j = ground arith

  -- So reading at most as many digits behind the point as the type has negative numbers returns.
  pub fdigits-IsRead :
      (limit : ℕ) (i f : Text) (st : NumberState)
      → Filled max_digits i st
      → length i ≤ 0x100000
      → length f ≤ limit
      → 0x100000 < limit
      → (st' : NumberState) × (fdigits limit max_digits f st ≡ ok st')
        × IsRead (i ++ f) (length f) max_digits st'
  unfolding fdigits
  fdigits-IsRead limit i f st (read, full) s l m =
      let e = trim_zeros f in
      let b = significant st.mantissa e in
      let c = min (length b) (max_digits - length st.mantissa) in
      let (zt, behind, noughts) = trim_zeros-CutBehind f in
      let parts = ap length read.split in
      let few : length read.rest < limit = omega (
        arith,
        s,
        m,
        parts,
        length-append read.skipped (st.mantissa ++ read.rest),
        length-append st.mantissa read.rest,
      ) in
      let short : length e - length b + c ≤ limit =
        omega (arith, l, ap length behind ∙ length-append e zt, shorter) in
      let fits =
        in_range-read limit st.exponent10 (length read.rest) (length e - length b) c read.exponent
          few short in
      (after_fraction f st, rw fits refl, after_fraction-IsRead i f st (read, full))
    where
      shorter : length (significant st.mantissa (trim_zeros f)) ≤ length (trim_zeros f)
      shorter =
          let ((z, before, noughts), cut) = significant-CutBefore st.mantissa (trim_zeros f) in
          omega (arith, ap length before ∙ length-append z (significant st.mantissa (trim_zeros f)))
