-- ===== src/Jaxn/Rebuilt.antt =====
-- jaxn_action.hpp and jaxn_to_entry.hpp: the rules that spell out a JAXN value make that value.
use config.JaxnToEntry.Calls.{
  IsJaxnObject, IsJaxnArray, IsJaxnConcat, IsJaxn, calls, calls_concat, calls_array, calls_object,
}
use config.Common.{
  ℤ, Text, ℕ, ◌<◌, ◌≤◌, ◌==◌, leb, ltb, sub_ℕ, neg_part, true, false, List, [], ◌∷◌, Position, none,
  Result, ok, err, ◌>>=◌, ◌≡◌, refl, ◌∙◌, ◌⊎◌, inl, inr, arith, if◌then◌else◌,
}
use config.Data.{
  Entry, Concat, Concats, Members, null, boolean, string, binary, signed, unsigned, double, array,
  object, asterisk, reference, concat, no_entry, entry, no_element, element, no_member, member,
}
use config.Data.Views.{mark}
use config.Jaxn.{
  Matched, UnescapedRule, JsonNumbers, apply, apply_all, parse_entry, nan_bits, infinity_bits,
  unescaped_call,
}
use config.Jaxn.Hexnum.Exact.{AreHexDigits, hexadecimal, hexnum-exact}
use config.JaxnToEntry.{Call}
use config.JaxnToEntry.Rebuilt.{consume_all-calls}

abbrev double_rule : ℕ → Position → Matched
double_rule d p =
    if d == nan_bits
    then Matched.kw_nan p
    else if d == infinity_bits true
    then Matched.kw_infinity true p
    else Matched.kw_infinity false p

-- `hex` writes a number in hexadecimal digits.
module _ (json : JsonNumbers) (hex : ℕ → Text) where
  -- The rules that match the spelling of an entry, in front of others: integers are hexadecimal, and
  -- negative ones have their sign in front.
  unfoldable mutual
    pub matched : Entry → List Matched → List Matched
    matched (null p) rest = Matched.kw_null p ∷ rest
    matched (boolean true p) rest = Matched.kw_true p ∷ rest
    matched (boolean false p) rest = Matched.kw_false p ∷ rest
    matched (signed z p) rest = Matched.hexnum true (hex (neg_part z)) p ∷ rest
    matched (unsigned n p) rest = Matched.hexnum false (hex n) p ∷ rest
    matched (double d p) rest = double_rule d p ∷ rest
    matched (string t p) rest = Matched.unescaped UnescapedRule.string t p ∷ rest
    matched (binary t p) rest = Matched.unescaped UnescapedRule.binary t p ∷ rest
    matched (array f cs p) rest =
        Matched.array_begin p ∷ matched_array cs (Matched.array_end p ∷ rest)
    matched (object ms p) rest =
        Matched.object_begin p ∷ matched_object ms (Matched.object_end p ∷ rest)
    matched (asterisk c) rest = rest
    matched (reference r) rest = rest

    pub matched_concat : Concat → List Matched → List Matched
    matched_concat (concat m no_entry) rest = rest
    matched_concat (concat m (entry e es)) rest = matched e rest

    pub matched_array : Concats → List Matched → List Matched
    matched_array no_element rest = rest
    matched_array (element c cs) rest =
        matched_concat c (Matched.array_element (mark c).position ∷ matched_array cs rest)

    pub matched_object : Members → List Matched → List Matched
    matched_object no_member rest = rest
    matched_object (member k c ms) rest =
        Matched.unescaped UnescapedRule.key k (mark c).position
        ∷ matched_concat c (Matched.object_element (mark c).position ∷ matched_object ms rest)

  abbrev pub Writes : ℕ → Type 0
  Writes n = AreHexDigits json.hex_digit (hex n) × (hexadecimal json.hex_digit 0 (hex n) ≡ n)

  -- The numbers in a value have a spelling of this kind.
  unfoldable mutual
    pub IsSpelt : Entry → Type 0
    IsSpelt (signed z p) =
        Writes (neg_part z) × (sub_ℕ 0 (neg_part z) ≡ z) × (neg_part z ≤ 0x8000000000000000)
    IsSpelt (unsigned n p) = Writes n × (n < 0x10000000000000000)
    IsSpelt (double d p) = (d ≡ nan_bits) ⊎ ((d ≡ infinity_bits true) ⊎ (d ≡ infinity_bits false))
    IsSpelt (array f cs p) = IsSpeltArray cs
    IsSpelt (object ms p) = IsSpeltObject ms
    IsSpelt _ = Unit {0}

    pub IsSpeltConcat : Concat → Type 0
    IsSpeltConcat (concat m no_entry) = Unit {0}
    IsSpeltConcat (concat m (entry e es)) = IsSpelt e

    pub IsSpeltArray : Concats → Type 0
    IsSpeltArray no_element = Unit {0}
    IsSpeltArray (element c cs) = IsSpeltConcat c × IsSpeltArray cs

    pub IsSpeltObject : Members → Type 0
    IsSpeltObject no_member = Unit {0}
    IsSpeltObject (member k c ms) = IsSpeltConcat c × IsSpeltObject ms

  -- Rules put in front of others give the calls put in front of theirs.
  abbrev Spells : (List Matched → List Matched) → (List Call → List Call) → Type 0
  Spells ms cs =
      (rest : List Matched) → apply_all json (ms rest) ≡ (apply_all json rest >>= λ xs. ok (cs xs))

  none-Spells : Spells (λ rest. rest) (λ cs. cs)
  none-Spells rest = same (apply_all json rest)
    where
      same : (r : Result (List Call)) → r ≡ (r >>= λ xs. ok xs)
      same (ok xs) = refl
      same (err e) = refl

  one-Spells :
      (m : Matched) (c : Call) → apply json m ≡ ok c → Spells (λ rest. m ∷ rest) (λ cs. c ∷ cs)
  unfolding apply_all
  one-Spells m c h rest = rw h refl

  compose-Spells :
      (ms ns : List Matched → List Matched) (cs ds : List Call → List Call)
      → Spells ms cs
      → Spells ns ds
      → Spells (λ rest. ms (ns rest)) (λ xs. cs (ds xs))
  compose-Spells ms ns cs ds s t rest = s (ns rest) ∙ rw (t rest) (chained (apply_all json rest))
    where
      chained :
          (r : Result (List Call))
          → ((r >>= λ xs. ok (ds xs)) >>= λ xs. ok (cs xs)) ≡ (r >>= λ xs. ok (cs (ds xs)))
      chained (ok xs) = refl
      chained (err e) = refl

  hexnum-signed :
      (z : ℤ) (p : Position)
      → IsSpelt (signed z p)
      → apply json (Matched.hexnum true (hex (neg_part z)) p) ≡ ok (Call.signed z p)
  unfolding IsSpelt apply
  hexnum-signed z p (w, same, small) =
      let fits : leb (neg_part z) 0x8000000000000000 ≡ true = ground arith in
      hexnum-exact json.hex_digit true (hex (neg_part z)) p (w.0) ∙ rw (w.1, fits, same) refl

  hexnum-unsigned :
      (n : ℕ) (p : Position)
      → IsSpelt (unsigned n p)
      → apply json (Matched.hexnum false (hex n) p) ≡ ok (Call.unsigned n p)
  unfolding IsSpelt apply
  hexnum-unsigned n p (w, small) =
      let fits : ltb n 0x10000000000000000 ≡ true = ground arith in
      hexnum-exact json.hex_digit false (hex n) p (w.0) ∙ rw (w.1, fits) refl

  double-applied :
      (d : ℕ) (p : Position)
      → IsSpelt (double d p)
      → apply json (double_rule d p) ≡ ok (Call.double d p)
  unfolding IsSpelt apply
  double-applied d p (inl h) = rw h refl
  double-applied d p (inr (inl h)) = rw h refl
  double-applied d p (inr (inr h)) = rw h refl

  mutual
    unfolding matched calls IsSpelt IsJaxn apply unescaped_call

    matched-Spells : (e : Entry) → IsJaxn e → IsSpelt e → Spells (matched e) (calls e)
    matched-Spells (null p) j s = one-Spells _ _ refl
    matched-Spells (boolean true p) j s = one-Spells _ _ refl
    matched-Spells (boolean false p) j s = one-Spells _ _ refl
    matched-Spells (signed z p) j s = one-Spells _ _ (hexnum-signed z p s)
    matched-Spells (unsigned n p) j s = one-Spells _ _ (hexnum-unsigned n p s)
    matched-Spells (double d p) j s = one-Spells _ _ (double-applied d p s)
    matched-Spells (string t p) j s = one-Spells _ _ refl
    matched-Spells (binary t p) j s = one-Spells _ _ refl
    matched-Spells (array f cs p) j s =
        compose-Spells _ _ _ _ (one-Spells (Matched.array_begin p) (Call.begin_array p) refl) (
          compose-Spells _ _ _ _ (array-Spells cs (j.1) s)
            (one-Spells (Matched.array_end p) Call.end_array refl))
    matched-Spells (object ms p) j s =
        compose-Spells _ _ _ _ (one-Spells (Matched.object_begin p) (Call.begin_object p) refl) (
          compose-Spells _ _ _ _ (object-Spells ms (j.1) s)
            (one-Spells (Matched.object_end p) Call.end_object refl))
    matched-Spells (asterisk c) j s = absurd j
    matched-Spells (reference r) j s = absurd j

    concat-Spells :
        (c : Concat) → IsJaxnConcat c → IsSpeltConcat c → Spells (matched_concat c) (calls_concat c)
    concat-Spells (concat m no_entry) j s = absurd j
    concat-Spells (concat m (entry e no_entry)) j s = matched-Spells e (j.1) s
    concat-Spells (concat m (entry e (entry f es))) j s = absurd j

    array-Spells :
        (cs : Concats)
        → IsJaxnArray cs
        → IsSpeltArray cs
        → Spells (matched_array cs) (calls_array cs)
    array-Spells no_element j s = none-Spells
    array-Spells (element c cs) j s = compose-Spells _ _ _ _ (concat-Spells c (j.0) (s.0)) (
        compose-Spells _ _ _ _
          (one-Spells (Matched.array_element (mark c).position) (Call.element (mark c).position)
            refl)
          (array-Spells cs (j.1) (s.1)))

    object-Spells :
        (ms : Members)
        → IsJaxnObject ms
        → IsSpeltObject ms
        → Spells (matched_object ms) (calls_object ms)
    object-Spells no_member j s = none-Spells
    object-Spells (member k c ms) j s =
        compose-Spells _ _ _ _
          (one-Spells (Matched.unescaped UnescapedRule.key k (mark c).position) (Call.key k) refl)
          (compose-Spells _ _ _ _ (concat-Spells c (j.0) (s.0)) (
            compose-Spells _ _ _ _
              (one-Spells (Matched.object_element (mark c).position) (Call.member (mark c).position)
                refl)
              (object-Spells ms (j.1) (s.1))))

  -- A JAXN value whose integers are written in hexadecimal digits, the signed ones at most 0, and
  -- whose doubles are NaN and the infinities, is parsed from the rules that match its spelling.
  pub parse_entry-matched :
      (e : Entry) → IsJaxn e → IsSpelt e → parse_entry json (matched e []) ≡ ok e
  unfolding parse_entry apply_all
  parse_entry-matched e j s =
      rw
        (
          matched-Spells e j s [],
          consume_all-calls e (record { stack = []; keys = []; value = none }) j,
        )
        refl
