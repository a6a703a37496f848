-- ===== src/Phase2/Functions/Split.antt =====
-- `split_function` of function_implementations.hpp.
use mathlib.Core.Path.{ap₂}
use config.Common.{
  Text, ℕ, suc, ◌+◌, ◌≡◌, refl, sym, ◌∙◌, ap, Bool, true, false, Bool-cases, inl, inr, ◌⊎◌, List,
  [], ◌∷◌, ◌++◌, length, length-append, is_empty, append_assoc, append-nil, arith, if◌then◌else◌,
}
use config.Phase2.Functions.Builtin.{split_words, flush}

module _ (is_space : ℕ → Bool) where
  abbrev pub without_space : Text → Text
  without_space [] = []
  without_space (c ∷ text) = if is_space c then without_space text else c ∷ without_space text

  abbrev pub joined : List (ℕ × Text) → Text
  joined [] = []
  joined ((i, word) ∷ words) = word ++ joined words

  abbrev pub HasNoSpace : Text → Type 0
  HasNoSpace [] = Unit {0}
  HasNoSpace (c ∷ text) = (is_space c ≡ false) × HasNoSpace text

  -- What stands before a word is nothing or ends in a space, what stands behind it is nothing or
  -- starts with one.
  abbrev pub EndsInSpace : Text → Type 0
  EndsInSpace before =
      (before ≡ []) ⊎ ((a : Text) × (c : ℕ) × (before ≡ a ++ c ∷ []) × (is_space c ≡ true))

  abbrev pub StartsWithSpace : Text → Type 0
  StartsWithSpace [] = Unit {0}
  StartsWithSpace (c ∷ behind) = is_space c ≡ true

  -- A word of a text stands in it at its offset, from one space, or end of the text, to the next.
  abbrev pub IsWord : Text → ℕ → Text → Type 0
  IsWord text i word =
      (is_empty word ≡ false)
      × HasNoSpace word
      × (before : Text) × (behind : Text) × (text ≡ before ++ (word ++ behind))
      × (length before ≡ i)
      × EndsInSpace before
      × StartsWithSpace behind

  abbrev pub AreWords : Text → List (ℕ × Text) → Type 0
  AreWords text [] = Unit {0}
  AreWords text ((i, word) ∷ words) = IsWord text i word × AreWords text words

  joined-append : (v w : List (ℕ × Text)) → joined (v ++ w) ≡ joined v ++ joined w
  joined-append [] w = refl
  joined-append ((i, word) ∷ v) w =
      rw (joined-append v w) (sym (append_assoc word (joined v) (joined w)))

  joined-flush : (i : ℕ) (word : Text) → joined (flush i word) ≡ word
  joined-flush i [] = refl
  joined-flush i (c ∷ word) = append-nil (c ∷ word)

  words-append :
      (text : Text) (v w : List (ℕ × Text))
      → AreWords text v
      → AreWords text w
      → AreWords text (v ++ w)
  words-append text [] w h k = k
  words-append text ((i, word) ∷ v) w h k = (h.0, words-append text v w h.1 k)

  no_space-append : (a b : Text) → HasNoSpace a → HasNoSpace b → HasNoSpace (a ++ b)
  no_space-append [] b h k = k
  no_space-append (c ∷ a) b h k = (h.0, no_space-append a b h.1 k)

  -- What the loop knows of the text: `before` has been read, and `word` is the part of a word behind it.
  record IsAt (text before word rest : Text) (offset start : ℕ) : Type 0 where
    pub split : text ≡ before ++ (word ++ rest)
    pub read : length before + length word ≡ offset
    pub started : is_empty word ≡ false → length before ≡ start
    pub solid : HasNoSpace word
    pub gap : EndsInSpace before

  words-flush :
      (text before word rest : Text) (offset start : ℕ)
      → IsAt text before word rest offset start
      → StartsWithSpace rest
      → AreWords text (flush start word)
  words-flush text before [] rest offset start at s = tt
  words-flush text before (c ∷ word) rest offset start at s =
      ((refl, at.solid, before, rest, at.split, at.started refl, at.gap, s), tt)

  -- Behind a space, and behind one more byte of a word.
  IsAt-gap :
      (text before word rest : Text) (c offset start : ℕ)
      → is_space c ≡ true
      → IsAt text before word (c ∷ rest) offset start
      → IsAt text (before ++ (word ++ c ∷ [])) [] rest (suc offset) start
  IsAt-gap text before word rest c offset start s at = record {
    split = at.split ∙ simp append_assoc;
    read =
        omega (arith, length-append before (word ++ c ∷ []), length-append word (c ∷ []), at.read);
    started = λ h. cc;
    solid = tt;
    gap = inr (before ++ word, c, sym (append_assoc before word (c ∷ [])), s);
  }

  start_of_word :
      (before word : Text) (offset start : ℕ)
      → length before + length word ≡ offset
      → (is_empty word ≡ false → length before ≡ start)
      → length before ≡ (if is_empty word then offset else start)
  start_of_word before [] offset start h k = omega (arith, h)
  start_of_word before (c ∷ word) offset start h k = k refl

  IsAt-word :
      (text before word rest : Text) (c offset start : ℕ)
      → is_space c ≡ false
      → IsAt text before word (c ∷ rest) offset start
      → IsAt text before
          (word ++ c ∷ [])
          rest
          (suc offset)
          (if is_empty word then offset else start)
  IsAt-word text before word rest c offset start s at = record {
    split = at.split ∙ ap (λ x. before ++ x) (sym (append_assoc word (c ∷ []) rest));
    read = omega (arith, length-append word (c ∷ []), at.read);
    started = λ h. start_of_word before word offset start at.read at.started;
    solid = no_space-append word (c ∷ []) at.solid (s, tt);
    gap = at.gap;
  }

  split_from :
      (text before word rest : Text) (offset start : ℕ)
      → IsAt text before word rest offset start
      → (joined (split_words is_space offset start word rest) ≡ word ++ without_space rest)
        × AreWords text (split_words is_space offset start word rest)
  unfolding split_words
  split_from text before word [] offset start at = (
    joined-flush start word ∙ sym (append-nil word),
    words-flush text before word [] offset start at tt,
  )
  split_from text before word (c ∷ rest) offset start at = elim (Bool-cases (is_space c)) [
    | inl space ↦
        let (j, w) =
          split_from text (before ++ (word ++ c ∷ [])) [] rest (suc offset) start
            (IsAt-gap text before word rest c offset start space at) in
        rw space (
          joined-append (flush start word) _ ∙ ap₂ ◌++◌ (joined-flush start word) j,
          words-append text (flush start word) _
              (words-flush text before word (c ∷ rest) offset start at space) w,
        )
    | inr solid ↦
        let (j, w) =
          split_from text before (word ++ c ∷ []) rest (suc offset)
            (if is_empty word then offset else start)
            (IsAt-word text before word rest c offset start solid at) in
        rw solid (j ∙ append_assoc word (c ∷ []) (without_space rest), w)
  ]

  -- The words of a text, put together, are the text without its spaces, in order; each word has at
  -- least one byte, and none that is a space, and stands in the text at its offset, with the begin of
  -- the text or a space before it, and the end of the text or a space behind it.
  pub split_words-joined :
      (text : Text)
      → (joined (split_words is_space 0 0 [] text) ≡ without_space text)
        × AreWords text (split_words is_space 0 0 [] text)
  split_words-joined text =
      split_from text [] [] text 0 0
        (record { split = refl; read = refl; started = λ h. cc; solid = tt; gap = inl refl })
