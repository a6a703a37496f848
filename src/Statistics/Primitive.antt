-- ===== src/Statistics/Primitive.antt =====
-- `is_primitive()` of statistics.hpp against a description of the tree.
use config.Common.{
  Text, ℕ, suc, ◌+◌, ◌≤◌, ◌≡◌, refl, ◌↔◌, true, ltb, is_empty, if◌then◌else◌, arith, [], ◌∷◌,
}
use config.Data.{
  Entry, Concat, Entries, Concats, Members, array, object, asterisk, reference, concat, no_entry,
  entry, no_element, element, no_member, member,
}
use config.Data.Sequence.{entries_size}
use config.Statistics.{
  Statistics, no_statistics, count_head, count_addition, count_entry, count_array, count_object,
  count_concat, count_entries, is_primitive, concat_is_primitive,
}

-- No function, no asterisk and no reference is in the tree, and no concat holds two entries.
abbrev mutual
  pub IsPrimitive : Concat → Type 0
  IsPrimitive (concat m es) = (entries_size es ≤ 1) × ArePrimitive es

  pub ArePrimitive : Entries → Type 0
  ArePrimitive no_entry = Unit {0}
  ArePrimitive (entry e es) = IsPrimitiveEntry e × ArePrimitive es

  pub IsPrimitiveEntry : Entry → Type 0
  IsPrimitiveEntry (array f cs p) = (is_empty f ≡ true) × IsPrimitiveArray cs
  IsPrimitiveEntry (object ms p) = IsPrimitiveObject ms
  IsPrimitiveEntry (asterisk c) = ⊥
  IsPrimitiveEntry (reference r) = ⊥
  IsPrimitiveEntry _ = Unit {0}

  pub IsPrimitiveArray : Concats → Type 0
  IsPrimitiveArray no_element = Unit {0}
  IsPrimitiveArray (element c cs) = IsPrimitive c × IsPrimitiveArray cs

  pub IsPrimitiveObject : Members → Type 0
  IsPrimitiveObject no_member = Unit {0}
  IsPrimitiveObject (member k c ms) = IsPrimitive c × IsPrimitiveObject ms

-- What stands in the way of a primitive tree.
mutual
  pub obstacles : Concat → ℕ
  obstacles (concat m es) = (if ltb 1 (entries_size es) then 1 else 0) + obstacles_in es

  pub obstacles_in : Entries → ℕ
  obstacles_in no_entry = 0
  obstacles_in (entry e es) = obstacles_of e + obstacles_in es

  pub obstacles_of : Entry → ℕ
  obstacles_of (array f cs p) = (if is_empty f then 0 else 1) + obstacles_array cs
  obstacles_of (object ms p) = obstacles_object ms
  obstacles_of (asterisk c) = 1 + obstacles c
  obstacles_of (reference r) = 1
  obstacles_of _ = 0

  pub obstacles_array : Concats → ℕ
  obstacles_array no_element = 0
  obstacles_array (element c cs) = obstacles c + obstacles_array cs

  pub obstacles_object : Members → ℕ
  obstacles_object no_member = 0
  obstacles_object (member k c ms) = obstacles c + obstacles_object ms

abbrev total : Statistics → ℕ
total s = s.functions + s.additions + s.asterisks + s.references

total-count_head :
    (f : Text) (s : Statistics) → total (count_head f s) ≡ total s + (if is_empty f then 0 else 1)
total-count_head [] s = omega arith
total-count_head (x ∷ f) s = omega arith

total-count_addition :
    (es : Entries) (s : Statistics)
    → total (count_addition es s) ≡ total s + (if ltb 1 (entries_size es) then 1 else 0)
total-count_addition es s = ground arith

mutual
  unfolding count_concat obstacles

  concat_total : (c : Concat) (s : Statistics) → total (count_concat c s) ≡ total s + obstacles c
  concat_total (concat m es) s =
      omega (arith, entries_total es (count_addition es s), total-count_addition es s)

  entries_total :
      (es : Entries) (s : Statistics) → total (count_entries es s) ≡ total s + obstacles_in es
  entries_total no_entry s = omega arith
  entries_total (entry e es) s = omega (arith, entries_total es (count_entry e s), entry_total e s)

  entry_total : (e : Entry) (s : Statistics) → total (count_entry e s) ≡ total s + obstacles_of e
  entry_total (array f cs p) s =
      omega (arith, array_total cs (count_head f s), total-count_head f s)
  entry_total (object ms p) s = omega (arith, object_total ms s)
  entry_total (asterisk c) s =
      omega (arith, concat_total c (record s { asterisks = suc s.asterisks }))
  entry_total _ s = omega arith

  array_total :
      (cs : Concats) (s : Statistics) → total (count_array cs s) ≡ total s + obstacles_array cs
  array_total no_element s = omega arith
  array_total (element c cs) s = omega (arith, array_total cs (count_concat c s), concat_total c s)

  object_total :
      (ms : Members) (s : Statistics) → total (count_object ms s) ≡ total s + obstacles_object ms
  object_total no_member s = omega arith
  object_total (member k c ms) s =
      omega (arith, object_total ms (count_concat c s), concat_total c s)

mutual
  unfolding obstacles

  concat_clear : (c : Concat) → obstacles c ≡ 0 → IsPrimitive c
  concat_clear (concat m es) h = (ground arith, entries_clear es (ground arith))

  entries_clear : (es : Entries) → obstacles_in es ≡ 0 → ArePrimitive es
  entries_clear no_entry h = tt
  entries_clear (entry e es) h = (entry_clear e (omega arith), entries_clear es (omega arith))

  entry_clear : (e : Entry) → obstacles_of e ≡ 0 → IsPrimitiveEntry e
  entry_clear (array [] cs p) h = (refl, array_clear cs (omega arith))
  entry_clear (array (x ∷ f) cs p) h = absurd (omega arith)
  entry_clear (object ms p) h = object_clear ms h
  entry_clear (asterisk c) h = absurd (omega arith)
  entry_clear (reference r) h = absurd (omega arith)
  entry_clear _ h = tt

  array_clear : (cs : Concats) → obstacles_array cs ≡ 0 → IsPrimitiveArray cs
  array_clear no_element h = tt
  array_clear (element c cs) h = (concat_clear c (omega arith), array_clear cs (omega arith))

  object_clear : (ms : Members) → obstacles_object ms ≡ 0 → IsPrimitiveObject ms
  object_clear no_member h = tt
  object_clear (member k c ms) h = (concat_clear c (omega arith), object_clear ms (omega arith))

mutual
  unfolding obstacles

  clear_concat : (c : Concat) → IsPrimitive c → obstacles c ≡ 0
  clear_concat (concat m es) h = ground (arith, clear_entries es h.1)

  clear_entries : (es : Entries) → ArePrimitive es → obstacles_in es ≡ 0
  clear_entries no_entry h = refl
  clear_entries (entry e es) h = omega (arith, clear_entry e h.0, clear_entries es h.1)

  clear_entry : (e : Entry) → IsPrimitiveEntry e → obstacles_of e ≡ 0
  clear_entry (array [] cs p) h = omega (arith, clear_array cs h.1)
  clear_entry (array (x ∷ f) cs p) h = cc (h.0)
  clear_entry (object ms p) h = clear_object ms h
  clear_entry (asterisk c) h = absurd h
  clear_entry (reference r) h = absurd h
  clear_entry _ h = refl

  clear_array : (cs : Concats) → IsPrimitiveArray cs → obstacles_array cs ≡ 0
  clear_array no_element h = refl
  clear_array (element c cs) h = omega (arith, clear_concat c h.0, clear_array cs h.1)

  clear_object : (ms : Members) → IsPrimitiveObject ms → obstacles_object ms ≡ 0
  clear_object no_member h = refl
  clear_object (member k c ms) h = omega (arith, clear_concat c h.0, clear_object ms h.1)

primitive_iff_total : (s : Statistics) → (is_primitive s ≡ true) ↔ (total s ≡ 0)
primitive_iff_total s = (λ h. ground arith, λ h. ground arith)

-- The counters call a concat primitive exactly when no function, asterisk or reference is in it at
-- any depth, and none of the concats in it, itself included, holds two entries.
pub concat_is_primitive-IsPrimitive : (c : Concat) → (concat_is_primitive c ≡ true) ↔ IsPrimitive c
unfolding concat_is_primitive
concat_is_primitive-IsPrimitive c =
    let counted = concat_total c no_statistics in
    let test = primitive_iff_total (count_concat c no_statistics) in
    (
      λ h. concat_clear c (omega (arith, counted, test.0 h)),
      λ h. test.1 (omega (arith, counted, clear_concat c h)),
    )
