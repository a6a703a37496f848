-- ===== src/Phase2/Asterisks.antt =====
-- phase2_asterisks.hpp: an asterisk is spread over the arrays and objects of its concat.
pub mod Unchanged
pub mod Fits
pub mod Runs
pub mod Depth
pub mod Names
use config.Common.{
  Text, text_compare, Ordering, ℕ, zero, suc, true, false, ◌||◌, List, [], ◌∷◌, Result, ok, err,
  parse_error, asterisk_inside_function, out_of_fuel, is_empty, if◌then◌else◌, ◌>>=◌ as ◌>>=ᵣ◌,
}
use config.Counted.{Counted, unchanged, changed, lift, ◌>>=◌}
use config.Data.{
  Entry, Concat, Entries, Concats, Members, ObjectRoot, array, object, asterisk, concat, no_entry,
  entry, no_element, element, no_member, member,
}
use config.Data.Views.{mark}
use config.Data.Sequence.{◌++ₑ◌, entries_size}

-- std::set< std::string >::emplace
unfoldable pub emplace_name : Text → List Text → List Text
emplace_name k [] = k ∷ []
emplace_name k (j ∷ names) = elim (text_compare k j) [
  | Ordering.lt ↦ k ∷ j ∷ names
  | Ordering.eq ↦ j ∷ names
  | Ordering.gt ↦ j ∷ emplace_name k names
]

abbrev pub member_names : Members → List Text → List Text
member_names no_member names = names
member_names (member k c ms) names = member_names ms (emplace_name k names)

-- An element of an array behind the asterisk `s`.
unfoldable pub asterisk_before : Concat → Concat → Concat
asterisk_before (concat s fs) (concat m es) =
    if m.remove
    then concat m es
    else concat (record m { remove = s.remove; temporary = m.temporary || s.temporary }) (fs ++ₑ es)

-- An element of an array in front of the asterisk `s`.
unfoldable pub asterisk_behind : Concat → Concat → Concat
asterisk_behind (concat s fs) (concat m es) =
    if s.remove
    then concat (record m { remove = true; temporary = m.temporary || s.temporary }) fs
    else concat (record m { temporary = m.temporary || s.temporary }) (es ++ₑ fs)

unfoldable pub process_asterisk_and_array : Concat → Concats → Concats
unfolding asterisk_before
process_asterisk_and_array s no_element = no_element
process_asterisk_and_array s (element c cs) =
    element (asterisk_before s c) (process_asterisk_and_array s cs)

unfoldable pub process_array_and_asterisk : Concats → Concat → Concats
unfolding asterisk_behind
process_array_and_asterisk no_element s = no_element
process_array_and_asterisk (element c cs) s =
    element (asterisk_behind s c) (process_array_and_asterisk cs s)

-- One of the two loops of `process_asterisk`, with what it does to the elements of an array, and
-- the names that it adds to those in hand.
unfoldable pub spread : (Concats → Concats) → Entries → List Text → Result (Entries × List Text)
spread on_array no_entry names = ok (no_entry, names)
spread on_array (entry (array f cs p) es) names = elim (is_empty f) [
  | true ↦ spread on_array es names >>=ᵣ λ (fs, ns). ok (entry (array f (on_array cs) p) fs, ns)
  | false ↦ err (parse_error asterisk_inside_function p)
]
spread on_array (entry (object ms p) es) names =
    spread on_array es (member_names ms names) >>=ᵣ λ (fs, ns). ok (entry (object ms p) fs, ns)
spread on_array (entry e es) names = spread on_array es names >>=ᵣ λ (fs, ns). ok (entry e fs, ns)

-- The object that replaces the asterisk. The names of the set are in order, and so are the members.
unfoldable pub star_members : Concat → List Text → Members
star_members star [] = no_member
star_members star (n ∷ names) = member n star (star_members star names)

unfoldable pub star_entries : Concat → List Text → Entries
unfolding star_members
star_entries star [] = no_entry
star_entries star (n ∷ names) =
    entry (object (star_members star (n ∷ names)) (mark star).position) no_entry

-- `process_asterisk` between the entries before and behind the asterisk: the entries up to the
-- next position of the iterator, and those behind it.
unfoldable pub process_asterisk : Entries → Concat → Entries → Counted (Entries × Entries)
unfolding spread star_entries process_asterisk_and_array process_array_and_asterisk
process_asterisk before star after = do
  (before', names) ← lift (spread (λ cs. process_array_and_asterisk cs star) before [])
  (after', names') ← lift (spread (process_asterisk_and_array star) after names)
  changed (before' ++ₑ star_entries star names', after')

-- The loops over the elements of an array and the members of an object.
abbrev pub process_elements : (Concat → Counted Concat) → Concats → Counted Concats
process_elements rec no_element = unchanged no_element
process_elements rec (element c cs) = do
  d ← rec c
  ds ← process_elements rec cs
  unchanged (element d ds)

abbrev pub process_members : (Concat → Counted Concat) → Members → Counted Members
process_members rec no_member = unchanged no_member
process_members rec (member k c ms) = do
  d ← rec c
  ns ← process_members rec ms
  unchanged (member k d ns)

-- `process_entry` at an entry that is the only one of its concat.
unfoldable pub process_single : (Concat → Counted Concat) → Entry → Counted Entry
process_single rec (array f cs p) = do ds ← process_elements rec cs; unchanged (array f ds p)
process_single rec (object ms p) = do ns ← process_members rec ms; unchanged (object ns p)
process_single rec e = unchanged e

-- `process_entry`: the entries up to the next position of the iterator, and those behind it.
unfoldable pub process_entry :
    (Concat → Counted Concat) → Entries → Entry → Entries → Counted (Entries × Entries)
process_entry rec before (asterisk star) es = process_asterisk before star es
process_entry rec no_entry e no_entry = do
  f ← process_single rec e
  unchanged (entry f no_entry, no_entry)
process_entry rec before e es = unchanged (before ++ₑ entry e no_entry, es)

-- The loop of `process_concat`, with the entries before the iterator and those from it on; each
-- round costs one of the first number.
unfoldable pub process_from : (Concat → Counted Concat) → ℕ → Entries → Entries → Counted Entries
process_from rec n before no_entry = unchanged before
process_from rec zero before (entry e es) = err out_of_fuel
process_from rec (suc n) before (entry e es) = do
  (before', after) ← process_entry rec before e es
  process_from rec n before' after

-- The recursion goes into what an asterisk has been spread over, so its depth is bounded by fuel.
unfoldable pub process_concat : ℕ → Concat → Counted Concat
process_concat zero c = err out_of_fuel
process_concat (suc fuel) (concat m es) = do
  fs ← process_from (process_concat fuel) (entries_size es) no_entry es
  unchanged (concat m fs)

unfoldable pub phase2_asterisks : ℕ → ObjectRoot → Counted ObjectRoot
phase2_asterisks fuel o = do
  ms ← process_members (process_concat fuel) o.members
  unchanged (record o { members = ms })
