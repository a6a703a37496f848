-- ===== src/Phase2/Functions.antt =====
-- phase2_functions.hpp, function_traits.hpp, function_wrapper.hpp and function_implementations.hpp.
pub mod Builtin
pub mod Unchanged
pub mod Print
pub mod Split
use config.Common.{
  Text, text_eq, bytes, ℕ, Bool, true, false, Option, none, some, Position, Result, ok, err, Error,
  parse_error, unknown_function, arguments_unready, is_empty, if◌then◌else◌,
}
use config.Counted.{Counted, unchanged, changed, lift, ◌>>=◌}
use config.Data.{
  Entry, Concat, Entries, Concats, Members, ObjectRoot, null, boolean, string, binary, signed,
  unsigned, double, array, object, asterisk, reference, concat, no_entry, entry, no_element,
  element, no_member, member,
}

-- `std::function< bool( entry& ) >`: `none` is false, and then the entry is as before; with `some`
-- the entry has been replaced.
abbrev pub Function : Type 0
Function = Entry → Result (Option Entry)

abbrev pub FunctionMap : Type 0
FunctionMap = Text → Option Function

-- catch( const arguments_unready& ) { return false; }
abbrev pub catch_unready : Result (Option Entry) → Result (Option Entry)
catch_unready (err arguments_unready) = ok none
catch_unready r = r

abbrev pub replaced : Entry → Option Entry → Counted Entry
replaced e none = unchanged e
replaced e (some f) = changed f

-- `parse_function` is `process_parse_function`, below.
module _ (functions : FunctionMap) (parse_function : Entry → Result Entry) where
  abbrev call : Text → Position → Entry → Option Function → Counted Entry
  call name p e none = err (parse_error (unknown_function name) p)
  call name p e (some f) = do r ← lift (f e); replaced e r

  -- The change is counted whether or not the arguments were ready.
  abbrev call_parse : Entry → Counted Entry
  call_parse e = do f ← lift (parse_function e); changed f

  unfoldable pub process_function : Text → Position → Entry → Counted Entry
  process_function name p e =
      if text_eq name (bytes "parse") then call_parse e else call name p e (functions name)

  unfoldable mutual
    unfolding process_function

    pub process_entry : Entry → Counted Entry
    process_entry (array f cs p) = do
      ds ← process_array cs
      elim (is_empty f) [
        | true ↦ unchanged (array f ds p)
        | false ↦ process_function f p (array f ds p)
      ]
    process_entry (object ms p) = do ns ← process_members ms; unchanged (object ns p)
    process_entry e = unchanged e

    pub process_concat : Concat → Counted Concat
    process_concat (concat m es) = do fs ← process_entries es; unchanged (concat m fs)

    pub process_entries : Entries → Counted Entries
    process_entries no_entry = unchanged no_entry
    process_entries (entry e es) = do
      f ← process_entry e
      fs ← process_entries es
      unchanged (entry f fs)

    pub process_array : Concats → Counted Concats
    process_array no_element = unchanged no_element
    process_array (element c cs) = do
      d ← process_concat c
      ds ← process_array cs
      unchanged (element d ds)

    pub process_members : Members → Counted Members
    process_members no_member = unchanged no_member
    process_members (member k c ms) = do
      d ← process_concat c
      ns ← process_members ms
      unchanged (member k d ns)

  unfoldable pub phase2_functions : ObjectRoot → Counted ObjectRoot
  unfolding process_members
  phase2_functions o = do ms ← process_members o.members; unchanged (record o { members = ms })
