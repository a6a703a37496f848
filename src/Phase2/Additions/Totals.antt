-- ===== src/Phase2/Additions/Totals.antt =====
-- phase2_additions.hpp: what the entries of a concat add up to.
use config.Common.{
  ◌<◌, Text, ℕ, suc, ◌+◌, ℤ, ◌+ℤ◌, fits_int64, wrap_uint64, Bool, true, false, ◌&&◌, Bool-cases,
  inl, inr, some, List, [], ◌∷◌, ◌++◌, length, append-nil, append_assoc, ◌≡◌, refl, ap, sym, ◌∙◌,
  Position, ok, err, undefined, arith, if◌then◌else◌,
}
use config.Counted.{add_changes, changed, ◌>>=◌}
use config.Data.{
  Entry, Entries, Concats, signed, unsigned, string, array, no_entry, entry, no_element,
}
use config.Data.Sequence.{◌++ₐ◌, elements_append_assoc, elements_append_nil}
use config.Phase2.Additions.{add_pair, add_all, add_neighbours, after_pair}

-- The position of the last of the entries, behind one at `p`.
abbrev pub last_position {ℓ} : {A : Type ℓ} → Position → List (A × Position) → Position
last_position p [] = p
last_position p ((a, q) ∷ rest) = last_position q rest

-- The entries of one kind with these values.
abbrev pub entries_of {ℓ} : {A : Type ℓ} → (A → Position → Entry) → List (A × Position) → Entries
entries_of make [] = no_entry
entries_of make ((a, p) ∷ rest) = entry (make a p) (entries_of make rest)

abbrev pub total {ℓ} : {A : Type ℓ} → (A → A → A) → A → List (A × Position) → A
total plus a [] = a
total plus a ((b, p) ∷ rest) = total plus (plus a b) rest

abbrev pub texts : List (Text × Position) → Text
texts [] = []
texts ((t, p) ∷ rest) = t ++ texts rest

total-texts : (s : Text) (rest : List (Text × Position)) → total ◌++◌ s rest ≡ s ++ texts rest
total-texts s [] = sym (append-nil s)
total-texts s ((t, p) ∷ rest) = total-texts (s ++ t) rest ∙ append_assoc s t (texts rest)

abbrev pub arrays : List (Concats × Position) → Concats
arrays [] = no_element
arrays ((cs, p) ∷ rest) = cs ++ₐ arrays rest

total-arrays :
    (cs : Concats) (rest : List (Concats × Position)) → total ◌++ₐ◌ cs rest ≡ cs ++ₐ arrays rest
total-arrays cs [] = sym (elements_append_nil cs)
total-arrays cs ((ds, p) ∷ rest) =
    total-arrays (cs ++ₐ ds) rest ∙ elements_append_assoc cs ds (arrays rest)

abbrev pub sum : List (ℕ × Position) → ℕ
sum [] = 0
sum ((n, p) ∷ rest) = n + sum rest

abbrev add_uint64 : ℕ → ℕ → ℕ
add_uint64 a b = wrap_uint64 (b + a)

wrap-step : (a b s : ℕ) → wrap_uint64 (wrap_uint64 (b + a) + s) ≡ wrap_uint64 (a + (b + s))
wrap-step a b s = omega arith

total-unsigned :
    (n : ℕ) (rest : List (ℕ × Position))
    → n < 0x10000000000000000
    → total add_uint64 n rest ≡ wrap_uint64 (n + sum rest)
total-unsigned n [] h = omega (arith, h)
total-unsigned n ((m, p) ∷ rest) h =
    total-unsigned (add_uint64 n m) rest (omega arith) ∙ wrap-step n m (sum rest)

abbrev pub add_signed : ℤ → ℤ → ℤ
add_signed a b = b +ℤ a

-- Every sum on the way fits `std::int64_t`.
abbrev pub all_fit : ℤ → List (ℤ × Position) → Bool
all_fit z [] = true
all_fit z ((w, p) ∷ rest) = fits_int64 (w +ℤ z) && all_fit (w +ℤ z) rest

one_more :
    (b : Bool) (es : Entries) (n : ℕ)
    → add_changes 0 ((if b then ok (es, n) else err undefined) >>= λ fs. changed fs)
      ≡ (if b then ok (es, suc n) else err undefined)
one_more true es n = ap (λ (k : ℕ). ok (es, k)) (omega arith)
one_more false es n = refl

module _ (double_add : ℕ → ℕ → ℕ) where
  -- Entries of a kind whose sum is always defined become one entry.
  add_neighbours-total {ℓ} :
      {A : Type ℓ} (make : A → Position → Entry) (plus : A → A → A)
      → ((a b : A) (p q : Position)
          → add_pair double_add (make a p) (make b q) ≡ ok (some (make (plus a b) q)))
      → (a : A) (p : Position) (rest : List (A × Position))
      → add_neighbours double_add (make a p) (entries_of make rest)
        ≡ ok (entry (make (total plus a rest) (last_position p rest)) no_entry, length rest)
  unfolding add_neighbours after_pair
  add_neighbours-total make plus sums a p [] = refl
  add_neighbours-total make plus sums a p ((b, q) ∷ rest) =
      rw (sums a b p q, add_neighbours-total make plus sums (plus a b) q rest)
        (ap
          (λ (n : ℕ).
            ok (entry (make (total plus (plus a b) rest) (last_position q rest)) no_entry, n))
          (count (length rest)))
    where
      count : (n : ℕ) → 0 + (n + 1) ≡ suc n
      count n = omega arith

  -- A sum of strings is one string: their texts, one behind the other.
  pub add_all-strings :
      (s : Text) (p : Position) (rest : List (Text × Position))
      → add_all double_add (entries_of string ((s, p) ∷ rest))
        ≡ ok (entry (string (s ++ texts rest) (last_position p rest)) no_entry, length rest)
  unfolding add_pair add_neighbours
  add_all-strings s p rest =
      add_neighbours-total string ◌++◌ (λ a b q r. refl) s p rest
      ∙ ap (λ t. ok (entry (string t (last_position p rest)) no_entry, length rest))
          (total-texts s rest)

  -- A sum of lists is one list: their elements, one behind the other.
  pub add_all-arrays :
      (cs : Concats) (p : Position) (rest : List (Concats × Position))
      → add_all double_add (entries_of (array []) ((cs, p) ∷ rest))
        ≡ ok (entry (array [] (cs ++ₐ arrays rest) (last_position p rest)) no_entry, length rest)
  unfolding add_pair add_neighbours
  add_all-arrays cs p rest =
      add_neighbours-total (array []) ◌++ₐ◌ (λ a b q r. refl) cs p rest
      ∙ ap (λ t. ok (entry (array [] t (last_position p rest)) no_entry, length rest))
          (total-arrays cs rest)

  -- A sum of unsigned integers is one, their sum modulo 2^64.
  pub add_all-unsigned :
      (n : ℕ) (p : Position) (rest : List (ℕ × Position))
      → n < 0x10000000000000000
      → add_all double_add (entries_of unsigned ((n, p) ∷ rest))
        ≡ ok (
          entry (unsigned (wrap_uint64 (n + sum rest)) (last_position p rest)) no_entry,
          length rest,
        )
  unfolding add_pair add_neighbours
  add_all-unsigned n p rest h =
      add_neighbours-total unsigned add_uint64 (λ a b q r. refl) n p rest
      ∙ ap (λ t. ok (entry (unsigned t (last_position p rest)) no_entry, length rest))
          (total-unsigned n rest h)

  -- A sum of signed integers, added from the left, is one where every sum on the way fits
  -- `std::int64_t`, and undefined where one does not.
  pub add_all-signed :
      (z : ℤ) (p : Position) (rest : List (ℤ × Position))
      → add_all double_add (entries_of signed ((z, p) ∷ rest)) ≡ (
          if all_fit z rest
          then ok (
            entry (signed (total add_signed z rest) (last_position p rest)) no_entry,
            length rest,
          )
          else err undefined)
  unfolding add_neighbours add_pair after_pair
  add_all-signed z p [] = refl
  add_all-signed z p ((w, q) ∷ rest) = elim (Bool-cases (fits_int64 (w +ℤ z))) [
    | inl h ↦
        rw (h, add_all-signed (w +ℤ z) q rest)
          (one_more (all_fit (w +ℤ z) rest)
            (entry (signed (total add_signed (w +ℤ z) rest) (last_position q rest)) no_entry)
            (length rest))
    | inr h ↦ rw h refl
  ]
