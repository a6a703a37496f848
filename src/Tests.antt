-- ===== src/Tests.antt =====
-- Runs on small inputs: the data and, in the child modules, one run for each result.
mod Pipeline
mod Phase1
mod Functions
mod Tree
mod Sums
mod Jaxn
mod Keys
mod Access
use config.Data.{
  KeyPath, Mark, Entry, Concat, Entries, Concats, Members, ObjectRoot, Key1Part, Reference2Part,
  Reference2Parts, signed, string, array, object, reference, concat, no_entry, entry, no_element,
  element, no_member, member, no_part, part,
}
use config.Common.{
  Text, bytes, ℕ, zero, suc, List, [], ◌∷◌, Option, none, some, Position, Result, ok, err, Bool,
  true, false, pos, ◌∷◌,
}
use config.Data.Views.{fresh_mark}
use config.Events.{Events}
use config.Phase1.State.{State, initial}
use config.Phase1.Document.Include.{Opened, failed}
use config.Phase1.Document.{ValuePart, ValueList, ValueLists, Statement, Document}
use config.Phase2.Functions.{FunctionMap}
use config.Phase2.Functions.Builtin.{System}

abbrev pub here : Position
here = record { byte = 0; line = 1; column = 1; source = bytes "file" }

abbrev pub plain : Mark
plain = fresh_mark here

abbrev pub one_entry : Entry → Concat
one_entry e = concat plain (entry e no_entry)

abbrev pub two_entries : Entry → Entry → Concat
two_entries e f = concat plain (entry e (entry f no_entry))

abbrev pub number : ℕ → Entry
number n = signed (pos n) here

abbrev pub root_of : Members → ObjectRoot
root_of ms = record { members = ms; position = here }

abbrev pub at_key : Text → KeyPath
at_key k = Key1Part.name k here ∷ []

abbrev pub refer : Text → Reference2Parts
refer k = part (Reference2Part.name k here) no_part

-- a = 1 + 2, b = { c = (a) }
abbrev pub sum_and_reference : Members
sum_and_reference = member (bytes "a") (two_entries (number 1) (number 2)) (
    member (bytes "b")
      (one_entry
        (object (member (bytes "c") (one_entry (reference (refer (bytes "a")))) no_member) here))
      no_member)

-- What is left of it.
abbrev pub plain_values : Members
plain_values = member (bytes "a") (one_entry (number 3)) (
    member (bytes "b")
      (one_entry (object (member (bytes "c") (one_entry (number 3)) no_member) here)) no_member)

abbrev pub no_functions : FunctionMap
no_functions name = none

abbrev pub no_parse : Entry → Result Entry
no_parse e = ok e

abbrev pub first_operand : ℕ → ℕ → ℕ
first_operand a b = a

abbrev pub depth_nine : ObjectRoot → ℕ
depth_nine o = 9

-- A system in which nothing is found.
abbrev pub empty_system : System
empty_system = record {
  getenv = λ name. none;
  read_file = λ name. ok [];
  shell_popen = λ p script. ok [];
  validate_utf8 = λ s. true;
  parse_jaxn = λ s. ok (number 0);
  to_jaxn = λ es. bytes "value";
  is_space = λ c. false;
  position_in = λ s n. here;
  open_file = λ name. failed true (bytes "no such file");
  nesting = 9;
  parse_value = λ s p. ok (ValuePart.jaxn (number 0));
}
