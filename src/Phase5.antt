-- ===== src/Phase5.antt =====
-- phase5_repack.hpp: the calls that the tree makes on the consumer of the json library.
pub mod Packed
use config.Common.{
  ℕ, suc, Position, true, false, Result, ok, err, ◌>>=◌, logic_error, undefined, is_empty, [], ◌∷◌,
  ◌++◌,
}
use config.Data.{
  Entry, Concat, Entries, Concats, Members, ObjectRoot, null, boolean, string, binary, signed,
  unsigned, double, array, object, asterisk, reference, concat, no_entry, entry, no_element,
  element, no_member, member,
}
use config.Data.Sequence.{elements_size, members_size}
use config.Key.{Key, KeyPart}
use config.Events.{
  Event, Events, end_element, end_array, begin_array, begin_object, key, end_member, end_object,
  annotate_value, annotate_open,
}

abbrev pub leaf : Key → Position → Event → Result Events
leaf k p e = ok (e ∷ annotate_value k p ∷ [])

unfoldable mutual
  pub repack_entry : Key → Entry → Result Events
  repack_entry k (null p) = leaf k p Event.null
  repack_entry k (boolean b p) = leaf k p (Event.boolean b)
  repack_entry k (string t p) = leaf k p (Event.string t)
  repack_entry k (binary t p) = leaf k p (Event.binary t)
  repack_entry k (signed z p) = leaf k p (Event.signed z)
  repack_entry k (unsigned n p) = leaf k p (Event.unsigned n)
  repack_entry k (double d p) = leaf k p (Event.double d)
  repack_entry k (array f cs p) = elim (is_empty f) [
    | true ↦ do
      es ← repack_array k 0 cs
      ok (
          begin_array (elements_size cs)
          ∷ annotate_open k p
          ∷ (es ++ end_array (elements_size cs) ∷ []))
    | false ↦ err logic_error
  ]
  repack_entry k (object ms p) = do
    es ← repack_object k ms
    ok (
        begin_object (members_size ms)
        ∷ annotate_open k p
        ∷ (es ++ end_object (members_size ms) ∷ []))
  repack_entry k (asterisk c) = err logic_error
  repack_entry k (reference r) = err logic_error

  pub phase5_repack : Key → Concat → Result Events
  phase5_repack k (concat m es) = repack_entries k es

  -- `assert( c.concat.size() == 1 )`, and then `front()`
  pub repack_entries : Key → Entries → Result Events
  repack_entries k no_entry = err undefined
  repack_entries k (entry e no_entry) = repack_entry k e
  repack_entries k (entry e (entry f es)) = err undefined

  pub repack_array : Key → ℕ → Concats → Result Events
  repack_array k i no_element = ok []
  repack_array k i (element c cs) = do
    es ← phase5_repack (k ++ KeyPart.index i ∷ []) c
    fs ← repack_array k (suc i) cs
    ok (es ++ end_element ∷ fs)

  pub repack_object : Key → Members → Result Events
  repack_object k no_member = ok []
  repack_object k (member n c ms) = do
    es ← phase5_repack (k ++ KeyPart.name n ∷ []) c
    fs ← repack_object k ms
    ok (key n ∷ (es ++ end_member ∷ fs))

-- The root: an object at the empty key, and `set_key_and_position` once more at the end.
unfoldable pub repack_root : ObjectRoot → Result Events
unfolding repack_object
repack_root o = do
  es ← repack_object [] o.members
  let n = members_size o.members
  ok (
      (begin_object n ∷ annotate_open [] o.position ∷ (es ++ end_object n ∷ []))
      ++ annotate_value [] o.position ∷ [])
