-- ===== src/Phase5/Packed.antt =====
-- Which trees phase5_repack.hpp turns into a value.
use config.Common.{
  ℕ, suc, ◌≡◌, refl, true, is_empty, ok, [], ◌∷◌, ◌++◌, >>=-eq-ok, Succeeds, Succeeds-bind, ◌↔◌,
}
use config.Data.{
  Entry, Concat, Entries, Concats, Members, ObjectRoot, null, array, object, asterisk, reference,
  concat, no_entry, entry, no_element, element, no_member, member,
}
use config.Key.{Key, KeyPart}
use config.Events.{Events}
use config.Phase5.{
  repack_entry, phase5_repack, repack_entries, repack_array, repack_object, repack_root,
}

-- Every concat holds one entry, and no entry is a function, an asterisk or a reference.
abbrev mutual
  pub IsPackedEntry : Entry → Type 0
  IsPackedEntry (array f cs p) = (is_empty f ≡ true) × IsPackedArray cs
  IsPackedEntry (object ms p) = IsPackedObject ms
  IsPackedEntry (asterisk c) = ⊥
  IsPackedEntry (reference r) = ⊥
  IsPackedEntry _ = Unit {0}

  pub IsPacked : Concat → Type 0
  IsPacked (concat m es) = IsPackedEntries es

  pub IsPackedEntries : Entries → Type 0
  IsPackedEntries no_entry = ⊥
  IsPackedEntries (entry e no_entry) = IsPackedEntry e
  IsPackedEntries (entry e (entry f es)) = ⊥

  pub IsPackedArray : Concats → Type 0
  IsPackedArray no_element = Unit {0}
  IsPackedArray (element c cs) = IsPacked c × IsPackedArray cs

  pub IsPackedObject : Members → Type 0
  IsPackedObject no_member = Unit {0}
  IsPackedObject (member n c ms) = IsPacked c × IsPackedObject ms

mutual
  unfolding phase5_repack

  entry_repacks : (k : Key) (e : Entry) → IsPackedEntry e → Succeeds (repack_entry k e)
  entry_repacks k (array [] cs p) h = Succeeds-bind _ _ (array_repacks k 0 cs h.1) λ es. (_, refl)
  entry_repacks k (array (x ∷ f) cs p) h = cc (h.0)
  entry_repacks k (object ms p) h = Succeeds-bind _ _ (object_repacks k ms h) λ es. (_, refl)
  entry_repacks k (asterisk c) h = absurd h
  entry_repacks k (reference r) h = absurd h
  entry_repacks k (null p) h = (_, refl)
  entry_repacks k _ h = (_, refl)

  concat_repacks : (k : Key) (c : Concat) → IsPacked c → Succeeds (phase5_repack k c)
  concat_repacks k (concat m es) h = entries_repacks k es h

  entries_repacks : (k : Key) (es : Entries) → IsPackedEntries es → Succeeds (repack_entries k es)
  entries_repacks k no_entry h = absurd h
  entries_repacks k (entry e no_entry) h = entry_repacks k e h
  entries_repacks k (entry e (entry f es)) h = absurd h

  array_repacks :
      (k : Key) (i : ℕ) (cs : Concats) → IsPackedArray cs → Succeeds (repack_array k i cs)
  array_repacks k i no_element h = (_, refl)
  array_repacks k i (element c cs) h =
      Succeeds-bind _ _ (concat_repacks (k ++ KeyPart.index i ∷ []) c h.0)
        λ es. Succeeds-bind _ _ (array_repacks k (suc i) cs h.1) λ fs. (_, refl)

  object_repacks : (k : Key) (ms : Members) → IsPackedObject ms → Succeeds (repack_object k ms)
  object_repacks k no_member h = (_, refl)
  object_repacks k (member n c ms) h =
      Succeeds-bind _ _ (concat_repacks (k ++ KeyPart.name n ∷ []) c h.0)
        λ es. Succeeds-bind _ _ (object_repacks k ms h.1) λ fs. (_, refl)

mutual
  unfolding phase5_repack

  entry_packed : (k : Key) (e : Entry) {es : Events} → repack_entry k e ≡ ok es → IsPackedEntry e
  entry_packed k (array [] cs p) h =
      let (es, q, r) = >>=-eq-ok (repack_array k 0 cs) _ h in (refl, array_packed k 0 cs q)
  entry_packed k (array (x ∷ f) cs p) h = cc
  entry_packed k (object ms p) h =
      let (es, q, r) = >>=-eq-ok (repack_object k ms) _ h in object_packed k ms q
  entry_packed k (asterisk c) h = cc
  entry_packed k (reference r) h = cc
  entry_packed k (null p) h = tt
  entry_packed k _ h = tt

  concat-IsPacked : (k : Key) (c : Concat) {es : Events} → phase5_repack k c ≡ ok es → IsPacked c
  concat-IsPacked k (concat m es) h = entries_packed k es h

  entries_packed :
      (k : Key) (es : Entries) {fs : Events} → repack_entries k es ≡ ok fs → IsPackedEntries es
  entries_packed k no_entry h = cc
  entries_packed k (entry e no_entry) h = entry_packed k e h
  entries_packed k (entry e (entry f es)) h = cc

  array_packed :
      (k : Key) (i : ℕ) (cs : Concats) {es : Events}
      → repack_array k i cs ≡ ok es
      → IsPackedArray cs
  array_packed k i no_element h = tt
  array_packed k i (element c cs) h =
      let (es, q, r) = >>=-eq-ok (phase5_repack (k ++ KeyPart.index i ∷ []) c) _ h in
      let (fs, s, t) = >>=-eq-ok (repack_array k (suc i) cs) _ r in
      (concat-IsPacked _ c q, array_packed k (suc i) cs s)

  object_packed :
      (k : Key) (ms : Members) {es : Events} → repack_object k ms ≡ ok es → IsPackedObject ms
  object_packed k no_member h = tt
  object_packed k (member n c ms) h =
      let (es, q, r) = >>=-eq-ok (phase5_repack (k ++ KeyPart.name n ∷ []) c) _ h in
      let (fs, s, t) = >>=-eq-ok (repack_object k ms) _ r in
      (concat-IsPacked _ c q, object_packed k ms s)

-- Repacking a concat succeeds, at whatever key, exactly when the concat is packed: every concat in
-- it holds one entry, and it has no function, asterisk or reference.
pub phase5_repack_iff : (k : Key) (c : Concat) → Succeeds (phase5_repack k c) ↔ IsPacked c
phase5_repack_iff k c = (λ h. concat-IsPacked k c h.1, concat_repacks k c)

pub repack_root-Succeeds : (o : ObjectRoot) → IsPackedObject o.members → Succeeds (repack_root o)
unfolding repack_root
repack_root-Succeeds o h = Succeeds-bind _ _ (object_repacks [] o.members h) λ es. (_, refl)
