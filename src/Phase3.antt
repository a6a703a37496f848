-- ===== src/Phase3.antt =====
-- phase3_remove.hpp: whatever could not be resolved is an error, and what is not part of the
-- result is removed.
pub mod Packed
pub mod Again
use config.Common.{
  true, false, Result, ok, err, ◌>>=◌, parse_error, function_not_called, asterisk_not_expanded,
  reference_not_resolved, undefined, is_empty, if◌then◌else◌,
}
use config.Data.{
  Reference2Part, Reference2Parts, no_part, part, Entry, Concat, Entries, Concats, Members,
  ObjectRoot, null, boolean, string, binary, signed, unsigned, double, array, object, asterisk,
  reference, concat, no_entry, entry, no_element, element, no_member, member,
}
use config.Data.Views.{omit_from_final_result, mark}

-- The error for a reference that is left; `at( 0 )` throws where there is no part.
abbrev pub unresolved {ℓ} : {A : Type ℓ} → Reference2Parts → Result A
unresolved no_part = err undefined
unresolved (part (Reference2Part.name t p) r) = err (parse_error reference_not_resolved p)
unresolved (part (Reference2Part.index i p) r) = err (parse_error reference_not_resolved p)
unresolved (part (Reference2Part.vector v p) r) = err (parse_error reference_not_resolved p)

unfoldable mutual
  pub remove_entry : Entry → Result Entry
  remove_entry (null p) = ok (null p)
  remove_entry (boolean b p) = ok (boolean b p)
  remove_entry (string t p) = ok (string t p)
  remove_entry (binary t p) = ok (binary t p)
  remove_entry (signed z p) = ok (signed z p)
  remove_entry (unsigned n p) = ok (unsigned n p)
  remove_entry (double d p) = ok (double d p)
  remove_entry (array f cs p) = elim (is_empty f) [
    | true ↦ do cs' ← remove_array cs; ok (array f cs' p)
    | false ↦ err (parse_error (function_not_called f) p)
  ]
  remove_entry (object ms p) = do ms' ← remove_object ms; ok (object ms' p)
  remove_entry (asterisk c) = err (parse_error asterisk_not_expanded (mark c).position)
  remove_entry (reference r) = unresolved r

  pub phase3_remove : Concat → Result Concat
  phase3_remove (concat m es) = do es' ← remove_entries es; ok (concat m es')

  pub remove_entries : Entries → Result Entries
  remove_entries no_entry = ok no_entry
  remove_entries (entry e es) = do e' ← remove_entry e; es' ← remove_entries es; ok (entry e' es')

  pub remove_array : Concats → Result Concats
  remove_array no_element = ok no_element
  remove_array (element c cs) = do
    c' ← phase3_remove c
    cs' ← remove_array cs
    ok (if omit_from_final_result c' then cs' else element c' cs')

  pub remove_object : Members → Result Members
  remove_object no_member = ok no_member
  remove_object (member k c ms) = do
    c' ← phase3_remove c
    ms' ← remove_object ms
    ok (if omit_from_final_result c' then ms' else member k c' ms')

unfoldable pub remove_root : ObjectRoot → Result ObjectRoot
unfolding remove_object
remove_root o = do ms ← remove_object o.members; ok (record o { members = ms })
