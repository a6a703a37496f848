-- ===== src/Data/Kind.antt =====
-- entry_kind.hpp, key1_kind.hpp and reference2_kind.hpp: the kinds of entries and of parts.
use config.Common.{Text, Position, [], bytes}
use config.Data.{Entry, Reference2Part, no_part, part}
use config.Data.Views.{mark}

pub data EntryKind : Type 0 where
  null boolean string binary signed unsigned double array object asterisk reference : EntryKind

abbrev pub kind : Entry → EntryKind
kind (Entry.null p) = EntryKind.null
kind (Entry.boolean b p) = EntryKind.boolean
kind (Entry.string s p) = EntryKind.string
kind (Entry.binary s p) = EntryKind.binary
kind (Entry.signed z p) = EntryKind.signed
kind (Entry.unsigned n p) = EntryKind.unsigned
kind (Entry.double d p) = EntryKind.double
kind (Entry.array f xs p) = EntryKind.array
kind (Entry.object ms p) = EntryKind.object
kind (Entry.asterisk c) = EntryKind.asterisk
kind (Entry.reference r) = EntryKind.reference

unfoldable pub to_string : EntryKind → Text
to_string EntryKind.null = bytes "null"
to_string EntryKind.boolean = bytes "boolean"
to_string EntryKind.string = bytes "string"
to_string EntryKind.binary = bytes "binary"
to_string EntryKind.signed = bytes "signed"
to_string EntryKind.unsigned = bytes "unsigned"
to_string EntryKind.double = bytes "double"
to_string EntryKind.array = bytes "array"
to_string EntryKind.object = bytes "object"
to_string EntryKind.asterisk = bytes "asterisk"
to_string EntryKind.reference = bytes "reference"

-- A reference has a part, by the assertion of its constructor; this stands where it has none.
abbrev no_source : Position
no_source = record { byte = 0; line = 0; column = 0; source = [] }

unfoldable pub get_position : Entry → Position
get_position (Entry.null p) = p
get_position (Entry.boolean b p) = p
get_position (Entry.string s p) = p
get_position (Entry.binary s p) = p
get_position (Entry.signed z p) = p
get_position (Entry.unsigned n p) = p
get_position (Entry.double d p) = p
get_position (Entry.array f xs p) = p
get_position (Entry.object ms p) = p
get_position (Entry.asterisk c) = (mark c).position
get_position (Entry.reference no_part) = no_source
get_position (Entry.reference (part (Reference2Part.name n p) ps)) = p
get_position (Entry.reference (part (Reference2Part.index i p) ps)) = p
get_position (Entry.reference (part (Reference2Part.vector v p) ps)) = p
