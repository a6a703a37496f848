-- ===== src/Data/Views.antt =====
-- concat.hpp: what a concat tells of itself, and `back_ensure_init`.
use config.Common.{Position, Bool, true, false, ◌||◌, []}
use config.Data.{
  Mark, Entry, Concat, Entries, array, object, asterisk, concat, no_entry, entry, no_element,
  no_member,
}

abbrev pub mark : Concat → Mark
mark (concat m es) = m

abbrev pub entries : Concat → Entries
entries (concat m es) = es

abbrev pub no_entries : Entries → Bool
no_entries no_entry = true
no_entries (entry e es) = false

abbrev pub fresh_mark : Position → Mark
fresh_mark p = record {
  remove = false;
  implicit = false;
  temporary = false;
  generation = 0;
  position = p;
}

-- basic_concat( p )
abbrev pub empty_concat : Position → Concat
empty_concat p = concat (fresh_mark p) no_entry

unfoldable pub omit_from_final_result : Concat → Bool
omit_from_final_result (concat m es) = m.implicit || m.temporary || no_entries es

-- The tags `array_init`, `object_init` and `asterisk_init` of constants.hpp.
pub data Init : Type 0 where
  array_init object_init asterisk_init : Init

abbrev pub init_entry : Init → Position → Entry
init_entry Init.array_init p = array [] no_element p
init_entry Init.object_init p = object no_member p
init_entry Init.asterisk_init p = asterisk (empty_concat p)

abbrev pub has_kind : Init → Entry → Bool
has_kind Init.array_init (array f xs p) = true
has_kind Init.object_init (object ms p) = true
has_kind Init.asterisk_init (asterisk c) = true
has_kind _ _ = false

abbrev pub ensure_last : Init → Position → Entry → Entries → Entries
ensure_last k p e no_entry = elim (has_kind k e) [
  | true ↦ entry e no_entry
  | false ↦ entry e (entry (init_entry k p) no_entry)
]
ensure_last k p e (entry f es) = entry e (ensure_last k p f es)

abbrev pub ensure_entries : Init → Position → Entries → Entries
ensure_entries k p no_entry = entry (init_entry k p) no_entry
ensure_entries k p (entry e es) = ensure_last k p e es

unfoldable pub back_ensure_init : Init → Position → Concat → Concat
back_ensure_init k p (concat m es) = concat m (ensure_entries k p es)
