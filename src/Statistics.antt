-- ===== src/Statistics.antt =====
-- statistics.hpp: what a tree contains, counted entry by entry.
pub mod Primitive
use config.Common.{Text, ℕ, suc, Bool, ◌&&◌, ◌==◌, ltb, is_empty, if◌then◌else◌}
use config.Data.{
  Entry, Concat, Entries, Concats, Members, null, boolean, string, binary, signed, unsigned, double,
  array, object, asterisk, reference, concat, no_entry, entry, no_element, element, no_member,
  member,
}
use config.Data.Sequence.{entries_size}

pub record Statistics : Type 0 where
  pub nulls : ℕ
  pub atoms : ℕ
  pub arrays : ℕ
  pub objects : ℕ
  pub functions : ℕ
  pub additions : ℕ
  pub asterisks : ℕ
  pub references : ℕ

abbrev pub no_statistics : Statistics
no_statistics = record {
  nulls = 0;
  atoms = 0;
  arrays = 0;
  objects = 0;
  functions = 0;
  additions = 0;
  asterisks = 0;
  references = 0;
}

abbrev count_head : Text → Statistics → Statistics
count_head f s =
    if is_empty f
    then record s { arrays = suc s.arrays }
    else record s { functions = suc s.functions }

abbrev count_addition : Entries → Statistics → Statistics
count_addition es s =
    if ltb 1 (entries_size es) then record s { additions = suc s.additions } else s

unfoldable mutual
  pub count_entry : Entry → Statistics → Statistics
  count_entry (null p) s = record s { nulls = suc s.nulls }
  count_entry (boolean b p) s = record s { atoms = suc s.atoms }
  count_entry (string t p) s = record s { atoms = suc s.atoms }
  count_entry (binary t p) s = record s { atoms = suc s.atoms }
  count_entry (signed z p) s = record s { atoms = suc s.atoms }
  count_entry (unsigned n p) s = record s { atoms = suc s.atoms }
  count_entry (double d p) s = record s { atoms = suc s.atoms }
  count_entry (array f cs p) s = count_array cs (count_head f s)
  count_entry (object ms p) s = let t = count_object ms s in record t { objects = suc t.objects }
  count_entry (asterisk c) s = count_concat c (record s { asterisks = suc s.asterisks })
  count_entry (reference r) s = record s { references = suc s.references }

  pub count_array : Concats → Statistics → Statistics
  count_array no_element s = s
  count_array (element c cs) s = count_array cs (count_concat c s)

  pub count_object : Members → Statistics → Statistics
  count_object no_member s = s
  count_object (member k c ms) s = count_object ms (count_concat c s)

  pub count_concat : Concat → Statistics → Statistics
  count_concat (concat m es) s = count_entries es (count_addition es s)

  pub count_entries : Entries → Statistics → Statistics
  count_entries no_entry s = s
  count_entries (entry e es) s = count_entries es (count_entry e s)

abbrev pub is_primitive : Statistics → Bool
is_primitive s = s.functions == 0 && s.additions == 0 && s.asterisks == 0 && s.references == 0

-- statistics( c ).is_primitive()
unfoldable pub concat_is_primitive : Concat → Bool
unfolding count_concat
concat_is_primitive c = is_primitive (count_concat c no_statistics)
