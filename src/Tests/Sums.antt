-- ===== src/Tests/Sums.antt =====
-- Runs on sums and an asterisk, and on a loop that does not end.
use config.Common.{
  Text, bytes, ℕ, ℤ, pos, ◌+◌, ◌++◌, wrap_uint64, List, [], ◌∷◌, length, ◌≡◌, refl, Position, ok,
  err, undefined, arith, text_compare, if◌then◌else◌, some, none,
}
use config.Data.{
  Concats, signed, unsigned, string, array, no_entry, entry, no_element, element, Entries, Members,
  object, no_member, member,
}
use config.Counted.{Counted}
use config.Data.Dict.{find}
use config.Phase2.Asterisks.{process_asterisk, process_asterisk_and_array}
use config.Phase2.Asterisks.Names.{process_asterisk-keys, object_of, with_arrays, has_key}
use config.Data.Sequence.{◌++ₐ◌}
use config.Phase2.Additions.{add_all}
use config.Phase2.Additions.Totals.{
  add_all-strings, add_all-arrays, add_all-unsigned, add_all-signed, entries_of, last_position,
  texts, arrays, sum, total, add_signed, all_fit,
}
use config.Tests.{here, one_entry, number, first_operand}

abbrev more_texts : List (Text × Position)
more_texts = (bytes "b", here) ∷ (bytes "c", here) ∷ []

add_all-strings_example :
    add_all first_operand (entries_of string ((bytes "a", here) ∷ more_texts))
    ≡ ok (
      entry (string (bytes "a" ++ texts more_texts) (last_position here more_texts)) no_entry,
      length more_texts,
    )
add_all-strings_example = add_all-strings first_operand (bytes "a") here more_texts

abbrev single : Concats
single = element (one_entry (number 1)) no_element

add_all-arrays_example :
    add_all first_operand (entries_of (array []) ((single, here) ∷ (single, here) ∷ []))
    ≡ ok (
      entry
          (array []
            (single ++ₐ arrays ((single, here) ∷ []))
            (last_position here ((single, here) ∷ [])))
          no_entry,
      1,
    )
add_all-arrays_example = add_all-arrays first_operand single here ((single, here) ∷ [])

abbrev more_numbers : List (ℕ × Position)
more_numbers = (2, here) ∷ (3, here) ∷ []

add_all-unsigned_example :
    add_all first_operand (entries_of unsigned ((0xFFFFFFFFFFFFFFFF, here) ∷ more_numbers))
    ≡ ok (
      entry
          (unsigned
            (wrap_uint64 (0xFFFFFFFFFFFFFFFF + sum more_numbers))
            (last_position here more_numbers))
          no_entry,
      length more_numbers,
    )
add_all-unsigned_example =
    add_all-unsigned first_operand 0xFFFFFFFFFFFFFFFF here more_numbers (omega arith)

-- 1 + 2 + (2^63 - 1)
abbrev more_integers : List (ℤ × Position)
more_integers = (pos 2, here) ∷ (pos 0x7FFFFFFFFFFFFFFF, here) ∷ []

add_all-signed_example :
    add_all first_operand (entries_of signed ((pos 1, here) ∷ more_integers)) ≡ (
      if all_fit (pos 1) more_integers
      then ok (
        entry
            (signed (total add_signed (pos 1) more_integers) (last_position here more_integers))
            no_entry,
        length more_integers,
      )
      else err undefined)
add_all-signed_example = add_all-signed first_operand (pos 1) here more_integers

-- { * = 1 } + { b = 3 }, where the asterisk stands for the first object
abbrev behind_star : Entries
behind_star = entry (object (member (bytes "b") (one_entry (number 3)) no_member) here) no_entry

abbrev before_in : Counted (Entries × Entries) → Entries
before_in (ok ((b, a), n)) = b
before_in (err e) = no_entry

abbrev expanded : Entries
unfolding process_asterisk
expanded = before_in (process_asterisk no_entry (one_entry (number 1)) behind_star)

process_asterisk-keys_example :
    (new : Members) × (expanded ≡ object_of (one_entry (number 1)) new)
    × (behind_star ≡ with_arrays (process_asterisk_and_array (one_entry (number 1))) behind_star)
    × ((k : Text)
        → find k new ≡ (if has_key k behind_star then some (one_entry (number 1)) else none))
unfolding process_asterisk expanded text_compare
process_asterisk-keys_example =
    process_asterisk-keys no_entry (one_entry (number 1)) behind_star expanded behind_star 1 refl
