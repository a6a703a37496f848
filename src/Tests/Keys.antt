-- ===== src/Tests/Keys.antt =====
-- Runs on keys as text.
use config.Common.{
  Text, bytes, ℕ, ◌≤◌, ◌==◌, ◌≡◌, refl, sym, ◌∙◌, ap, Bool, true, false, Option, none, some, [],
  ◌∷◌, ◌++◌, length, append-nil, append_assoc, arith, ok, err, Error, out_of_fuel, undefined, inl,
  inr, ◌⊎◌, Bool-cases, not, ◌&&◌, if◌then◌else◌,
}
use config.Key.Spelling.Fuel.{assign-Ends}
use config.Key.Spelling.Parsed.{assign-AreBounded, AreBounded}
use config.Key.Spelling.Printed.{assign-to_string, AreWritable}
use config.Key.Spelling.{assign, to_string}
use config.Key.{Key, KeyPart}

abbrev is_quote : ℕ → Bool
is_quote c = c == 0x22

-- Quoted strings without escapes: the text up to the next double quote.
unfoldable closed : Text → Text → Option (Text × Text)
closed s [] = none
closed s (c ∷ t) = let more = closed (s ++ c ∷ []) t in if is_quote c then some (s, t) else more

abbrev plain_string : Text → Option (Text × Text)
unfolding closed
plain_string [] = none
plain_string (c ∷ t) = if is_quote c then closed [] t else none

-- Names without a double quote.
unfoldable has_no_quote : Text → Bool
has_no_quote [] = true
has_no_quote (c ∷ t) = not (is_quote c) && has_no_quote t

-- Where `unsigned long` has 32 bits.
abbrev ulong_end : ℕ
ulong_end = 0x100000000

abbrev unescaped : Text → Text
unescaped n = n

abbrev no_match : Text → Error
no_match t = undefined

closed-append :
    (s n rest : Text) → has_no_quote n ≡ true → closed s (n ++ 0x22 ∷ rest) ≡ some (s ++ n, rest)
unfolding closed has_no_quote
closed-append s [] rest h = ap (λ x. some (x, rest)) (sym (append-nil s))
closed-append s (c ∷ n) rest h =
    let other : is_quote c ≡ false = ground arith in
    let later : has_no_quote n ≡ true = ground arith in
    rw other (
      closed-append (s ++ c ∷ []) n rest later
      ∙ ap (λ x. some (x, rest)) (append_assoc s (c ∷ []) n))

plain_string-reads :
    (n rest : Text)
    → has_no_quote n ≡ true
    → (rest ≡ []) ⊎ ((u : Text) × (rest ≡ 0x2E ∷ u))
    → plain_string (0x22 ∷ (unescaped n ++ 0x22 ∷ rest)) ≡ some (n, rest)
unfolding plain_string
plain_string-reads n rest h e = closed-append [] n rest h

same : {x y : Text × Text} → some x ≡ some y → x ≡ y
same h = cc

closed-shorter : (s t u rest : Text) → closed s t ≡ some (u, rest) → length rest ≤ length t
unfolding closed
closed-shorter s [] u rest h = cc
closed-shorter s (c ∷ t) u rest h = elim (Bool-cases (is_quote c)) [
  | inl q ↦ omega (arith, ap (λ (x : Text × Text). length (x.1)) (same (rw q at h)))
  | inr q ↦ omega (arith, closed-shorter (s ++ c ∷ []) t u rest (rw q at h))
]

plain_string-shorter : (t s rest : Text) → plain_string t ≡ some (s, rest) → length rest ≤ length t
unfolding plain_string
plain_string-shorter [] s rest h = cc
plain_string-shorter (c ∷ t) s rest h = elim (Bool-cases (is_quote c)) [
  | inl q ↦ omega (arith, closed-shorter [] t s rest (rw q at h))
  | inr q ↦ nothing (rw q at h)
]
  where
    nothing : ◌≡◌ {A = Option (Text × Text)} none (some (s, rest)) → length rest ≤ length (c ∷ t)
    nothing k = cc

-- a."b c".12
abbrev parts : Key
parts = KeyPart.name (bytes "b c") ∷ KeyPart.index 12 ∷ []

parts-AreWritable : AreWritable has_no_quote ulong_end (KeyPart.name (bytes "a") ∷ parts)
unfolding AreWritable has_no_quote
parts-AreWritable = (refl, (refl, (omega arith, omega arith, tt)))

assign-to_string_example :
    assign plain_string no_match ulong_end (to_string unescaped (KeyPart.name (bytes "a") ∷ parts))
    ≡ ok (KeyPart.name (bytes "a") ∷ parts)
assign-to_string_example =
    assign-to_string plain_string no_match ulong_end unescaped has_no_quote plain_string-reads
      (bytes "a") parts parts-AreWritable

assign-AreBounded_example : AreBounded ulong_end (KeyPart.name (bytes "a") ∷ KeyPart.index 12 ∷ [])
unfolding assign
assign-AreBounded_example =
    assign-AreBounded plain_string no_match ulong_end (bytes "a.12")
      (KeyPart.name (bytes "a") ∷ KeyPart.index 12 ∷ []) refl

assign-Ends_example : ¬ (assign plain_string no_match ulong_end (bytes "a.12") ≡ err out_of_fuel)
assign-Ends_example =
    assign-Ends plain_string no_match ulong_end (λ t h. cc) plain_string-shorter (bytes "a.12")
