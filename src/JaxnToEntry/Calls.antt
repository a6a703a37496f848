-- ===== src/JaxnToEntry/Calls.antt =====
-- jaxn_to_entry.hpp: the values of JAXN among the entries, and the calls that spell them out.
use config.Common.{true, List, [], ◌∷◌, ◌≡◌}
use config.Data.{
  Entry, Concat, Concats, Members, null, boolean, string, binary, signed, unsigned, double, array,
  object, asterisk, reference, concat, no_entry, entry, no_element, element, no_member, member,
}
use config.Data.Dict.{IsOrdered}
use config.Data.Views.{mark, fresh_mark}
use config.JaxnToEntry.{Call}

-- A value of JAXN: no function, asterisk or reference, and each concat is one value that the
-- assignment of a value would leave.
unfoldable mutual
  pub IsJaxn : Entry → Type 0
  IsJaxn (array f cs p) = (f ≡ []) × IsJaxnArray cs
  IsJaxn (object ms p) = IsOrdered ms × IsJaxnObject ms
  IsJaxn (asterisk c) = ⊥
  IsJaxn (reference r) = ⊥
  IsJaxn _ = Unit {0}

  pub IsJaxnConcat : Concat → Type 0
  IsJaxnConcat (concat m no_entry) = ⊥
  IsJaxnConcat (concat m (entry e no_entry)) =
      (m ≡ record (fresh_mark m.position) { remove = true }) × IsJaxn e
  IsJaxnConcat (concat m (entry e (entry f es))) = ⊥

  pub IsJaxnArray : Concats → Type 0
  IsJaxnArray no_element = Unit {0}
  IsJaxnArray (element c cs) = IsJaxnConcat c × IsJaxnArray cs

  pub IsJaxnObject : Members → Type 0
  IsJaxnObject no_member = Unit {0}
  IsJaxnObject (member k c ms) = IsJaxnConcat c × IsJaxnObject ms

-- The calls that spell out an entry, in front of others.
unfoldable mutual
  pub calls : Entry → List Call → List Call
  calls (null p) rest = Call.null p ∷ rest
  calls (boolean b p) rest = Call.boolean b p ∷ rest
  calls (signed z p) rest = Call.signed z p ∷ rest
  calls (unsigned n p) rest = Call.unsigned n p ∷ rest
  calls (double d p) rest = Call.double d p ∷ rest
  calls (string t p) rest = Call.string t p ∷ rest
  calls (binary t p) rest = Call.binary t p ∷ rest
  calls (array f cs p) rest = Call.begin_array p ∷ calls_array cs (Call.end_array ∷ rest)
  calls (object ms p) rest = Call.begin_object p ∷ calls_object ms (Call.end_object ∷ rest)
  calls (asterisk c) rest = rest
  calls (reference r) rest = rest

  pub calls_concat : Concat → List Call → List Call
  calls_concat (concat m no_entry) rest = rest
  calls_concat (concat m (entry e es)) rest = calls e rest

  pub calls_array : Concats → List Call → List Call
  calls_array no_element rest = rest
  calls_array (element c cs) rest =
      calls_concat c (Call.element (mark c).position ∷ calls_array cs rest)

  pub calls_object : Members → List Call → List Call
  calls_object no_member rest = rest
  calls_object (member k c ms) rest =
      Call.key k ∷ calls_concat c (Call.member (mark c).position ∷ calls_object ms rest)
