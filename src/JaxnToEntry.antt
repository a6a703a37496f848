-- ===== src/JaxnToEntry.antt =====
-- jaxn_to_entry.hpp: the entry that the calls of the JAXN parser make.
pub mod Calls
pub mod Rebuilt
use config.Common.{
  Text, ℕ, ℤ, Bool, true, false, Option, none, some, List, [], ◌∷◌, Position, Result, ok, err,
  ◌>>=◌, undefined,
}
use config.Data.{Entry, Concat, Concats, Members, concat, no_entry, entry, no_element, no_member}
use config.Data.Dict.{upsert}
use config.Data.Sequence.{◌++ₑ◌, ◌++ₐ◌}
use config.Data.Views.{fresh_mark, empty_concat}

-- A call on the consumer, with the position that it hands over where that is used.
pub data Call : Type 0 where
  null : Position → Call
  boolean : Bool → Position → Call
  signed : ℤ → Position → Call
  unsigned : ℕ → Position → Call
  double : ℕ → Position → Call
  string : Text → Position → Call
  binary : Text → Position → Call
  begin_array : Position → Call
  element : Position → Call
  end_array : Call
  begin_object : Position → Call
  key : Text → Call
  member : Position → Call
  end_object : Call

-- The first entry of a list is the back of the vector. A value that has been moved from stays in
-- its place until the next one replaces it.
pub record Consumer : Type 0 where
  pub stack : List Entry
  pub keys : List Text
  pub value : Option Entry

abbrev pub emplace_element : Position → Option Entry → List Entry → Result (List Entry)
emplace_element p (some e) (Entry.array f cs q ∷ stack) = ok (
    Entry.array f
      (cs
        ++ₐ Concats.element (concat (record (fresh_mark p) { remove = true }) (entry e no_entry))
            no_element)
      q
    ∷ stack)
emplace_element p v stack = err undefined

abbrev pub emplace_value : Entry → Bool → Concat → Result Concat
emplace_value e is_new (concat m es) =
    ok (concat (record m { remove = true }) (es ++ₑ entry e no_entry))

unfoldable pub emplace_member :
    Position → Option Entry → List Text → List Entry → Result (List Entry)
unfolding upsert
emplace_member p (some e) (k ∷ keys) (Entry.object ms q ∷ stack) = do
  ns ← upsert k (empty_concat p) (emplace_value e) ms
  ok (Entry.object ns q ∷ stack)
emplace_member p v keys stack = err undefined

abbrev pub pop_value : Consumer → List Entry → Result Consumer
pop_value j [] = err undefined
pop_value j (e ∷ stack) = ok (record j { stack = stack; value = some e })

abbrev pop : List Text → List Text
pop [] = []
pop (k ∷ keys) = keys

unfoldable pub consume : Call → Consumer → Result Consumer
unfolding emplace_member
consume (null p) j = ok (record j { value = some (Entry.null p) })
consume (boolean b p) j = ok (record j { value = some (Entry.boolean b p) })
consume (signed z p) j = ok (record j { value = some (Entry.signed z p) })
consume (unsigned n p) j = ok (record j { value = some (Entry.unsigned n p) })
consume (double d p) j = ok (record j { value = some (Entry.double d p) })
consume (string t p) j = ok (record j { value = some (Entry.string t p) })
consume (binary t p) j = ok (record j { value = some (Entry.binary t p) })
consume (begin_array p) j = ok (record j { stack = Entry.array [] no_element p ∷ j.stack })
consume (Call.element p) j = do
  stack ← emplace_element p j.value j.stack
  ok (record j { stack = stack })
consume end_array j = pop_value j j.stack
consume (begin_object p) j = ok (record j { stack = Entry.object no_member p ∷ j.stack })
consume (key k) j = ok (record j { keys = k ∷ j.keys })
consume (Call.member p) j = do
  stack ← emplace_member p j.value j.keys j.stack
  ok (record j { stack = stack; keys = pop j.keys })
consume end_object j = pop_value j j.stack

unfoldable pub consume_all : List Call → Consumer → Result Consumer
unfolding consume
consume_all [] j = ok j
consume_all (c ∷ cs) j = do j' ← consume c j; consume_all cs j'
