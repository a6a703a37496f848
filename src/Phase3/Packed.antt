-- ===== src/Phase3/Packed.antt =====
-- phase3_remove.hpp after phase2_additions.hpp has nothing left to add: what is kept can be
-- repacked.
use config.Common.{
  Text, ◌≡◌, refl, sym, ap, subst, value_of, true, false, ◌||◌, ok, >>=-eq-ok, arith, [], ◌∷◌, ◌⊎◌,
  inl, inr, Bool-cases, if◌then◌else◌,
}
use config.Data.{
  Entry, Concat, Entries, Concats, Members, ObjectRoot, null, array, object, asterisk, reference,
  concat, no_entry, entry, no_element, element, no_member, member, Reference2Part, Reference2Parts,
  no_part, part,
}
use config.Data.Views.{omit_from_final_result, no_entries, entries}
use config.Phase2.Additions.{ignore_entry}
use config.Phase2.Additions.Stable.{
  AreSeparated, IsStable, IsStableEntries, IsStableEntry, IsStableArray, IsStableObject,
}
use config.Phase3.{
  phase3_remove, remove_entry, remove_entries, remove_array, remove_object, remove_root, unresolved,
}
use config.Phase5.Packed.{IsPacked, IsPackedEntry, IsPackedEntries, IsPackedArray, IsPackedObject}

pub unresolved_fails {ℓ} : {A : Type ℓ} (r : Reference2Parts) {a : A} → ¬ (unresolved r ≡ ok a)
unresolved_fails no_part h = cc
unresolved_fails (part (Reference2Part.name t p) r) h = cc
unresolved_fails (part (Reference2Part.index i p) r) h = cc
unresolved_fails (part (Reference2Part.vector v p) r) h = cc

kept-ignore_entry : (e : Entry) {f : Entry} → remove_entry e ≡ ok f → ignore_entry e ≡ false
unfolding ignore_entry remove_entry
kept-ignore_entry (array [] cs p) h = refl
kept-ignore_entry (array (x ∷ g) cs p) h = cc
kept-ignore_entry (asterisk c) h = cc
kept-ignore_entry (reference r) h = absurd (unresolved_fails r h)
kept-ignore_entry _ h = refl

-- Two neighbours that both survive contradict the separation.
kept_apart :
    (e f : Entry) {e' f' : Entry}
    → ignore_entry e || ignore_entry f ≡ true
    → remove_entry e ≡ ok e'
    → remove_entry f ≡ ok f'
    → ⊥
kept_apart e f s h k = ground (arith, kept-ignore_entry e h, kept-ignore_entry f k)

-- What is kept of a concat is empty or packed.
abbrev Kept : Entries → Type 0
Kept es = (no_entries es ≡ true) ⊎ IsPackedEntries es

IsPacked-Kept : (c : Concat) → omit_from_final_result c ≡ false → Kept (entries c) → IsPacked c
unfolding omit_from_final_result
IsPacked-Kept (concat m es) h (inl e) = ground arith
IsPacked-Kept (concat m es) h (inr p) = p

elements-Kept :
    (d : Concat) (ds : Concats)
    → Kept (entries d)
    → IsPackedArray ds
    → IsPackedArray (if omit_from_final_result d then ds else element d ds)
elements-Kept d ds k rest = elim (Bool-cases (omit_from_final_result d)) [
  | inl o ↦ rw o rest
  | inr o ↦ rw o (IsPacked-Kept d o k, rest)
]

members-Kept :
    (n : Text) (d : Concat) (ms : Members)
    → Kept (entries d)
    → IsPackedObject ms
    → IsPackedObject (if omit_from_final_result d then ms else member n d ms)
members-Kept n d ms k rest = elim (Bool-cases (omit_from_final_result d)) [
  | inl o ↦ rw o rest
  | inr o ↦ rw o (IsPacked-Kept d o k, rest)
]

mutual
  unfolding phase3_remove

  concat-Kept : (c : Concat) {d : Concat} → IsStable c → phase3_remove c ≡ ok d → Kept (entries d)
  concat-Kept (concat m es) {d} s h =
      let (fs, p, q) = >>=-eq-ok (remove_entries es) _ h in
      subst Kept (ap entries (value_of q)) (entries-Kept es s.0 s.1 p)

  entries-Kept :
      (es : Entries) {fs : Entries}
      → AreSeparated es
      → IsStableEntries es
      → remove_entries es ≡ ok fs
      → Kept fs
  entries-Kept no_entry a s h = inl (ap no_entries (sym (value_of h)))
  entries-Kept (entry e no_entry) a s h =
      let (f, p, q) = >>=-eq-ok (remove_entry e) _ h in
      inr (subst IsPackedEntries (value_of q) (entry_kept e s.0 p))
  entries-Kept (entry e (entry f es)) a s h =
      let (e', p, q) = >>=-eq-ok (remove_entry e) _ h in
      let (fs', r, t) = >>=-eq-ok (remove_entries (entry f es)) _ q in
      let (f', u, v) = >>=-eq-ok (remove_entry f) _ r in absurd (kept_apart e f a.0 p u)

  entry_kept : (e : Entry) {f : Entry} → IsStableEntry e → remove_entry e ≡ ok f → IsPackedEntry f
  entry_kept (array [] cs p) s h =
      let (ds, q, r) = >>=-eq-ok (remove_array cs) _ h in
      subst IsPackedEntry (value_of r) (refl, array_kept cs s q)
  entry_kept (array (x ∷ g) cs p) s h = cc
  entry_kept (object ms p) s h =
      let (ns, q, r) = >>=-eq-ok (remove_object ms) _ h in
      subst IsPackedEntry (value_of r) (object_kept ms s q)
  entry_kept (asterisk c) s h = cc
  entry_kept (reference r) s h = absurd (unresolved_fails r h)
  entry_kept (null p) s h = subst IsPackedEntry (value_of h) tt
  entry_kept _ s h = subst IsPackedEntry (value_of h) tt

  array_kept :
      (cs : Concats) {ds : Concats} → IsStableArray cs → remove_array cs ≡ ok ds → IsPackedArray ds
  array_kept no_element s h = subst IsPackedArray (value_of h) tt
  array_kept (element c cs) s h =
      let (d, p, q) = >>=-eq-ok (phase3_remove c) _ h in
      let (ds, r, t) = >>=-eq-ok (remove_array cs) _ q in
      subst IsPackedArray (value_of t)
        (elements-Kept d ds (concat-Kept c s.0 p) (array_kept cs s.1 r))

  object_kept :
      (ms : Members) {ns : Members}
      → IsStableObject ms
      → remove_object ms ≡ ok ns
      → IsPackedObject ns
  object_kept no_member s h = subst IsPackedObject (value_of h) tt
  object_kept (member k c ms) s h =
      let (d, p, q) = >>=-eq-ok (phase3_remove c) _ h in
      let (ns, r, t) = >>=-eq-ok (remove_object ms) _ q in
      subst IsPackedObject (value_of t)
        (members-Kept k d ns (concat-Kept c s.0 p) (object_kept ms s.1 r))

-- If no two neighbours in the tree can be added, what the third phase keeps is packed.
pub remove_root-IsPacked :
    (o : ObjectRoot) {r : ObjectRoot}
    → IsStableObject o.members
    → remove_root o ≡ ok r
    → IsPackedObject r.members
unfolding remove_root
remove_root-IsPacked o s h =
    let (ms, p, q) = >>=-eq-ok (remove_object o.members) _ h in
    subst IsPackedObject (ap (λ x. x.members) (value_of q)) (object_kept o.members s p)
