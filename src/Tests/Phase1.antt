-- ===== src/Tests/Phase1.antt =====
-- Runs of the first phase.
use config.Common.{
  out_of_fuel, true, false, Text, bytes, ℕ, zero, suc, ◌≤◌, [], ◌∷◌, Result, ok, err, ◌≡◌, refl,
  parse_error, nesting_depth_exceeded, length, text_compare, text_eq, if◌then◌else◌,
}
use config.Data.{KeyPath, Concat, ObjectRoot, Key1Part, array, no_entry, no_element, no_member}
use config.Data.Views.{back_ensure_init, Init}
use config.Phase1.State.{back_emplace_func, State, initial}
use config.Phase1.Document.{run_document, ValuePart, ValueList, ValueLists, Statement, Document}
use config.Phase1.{append_root, Phase1Mode, part_position}
use config.Tests.{here, plain, one_entry, number, root_of, at_key, plain_values}
use config.Data.Dict.{IsOrdered}
use config.Phase1.Document.Fuel.{load_file-itself}
use config.Phase1.State.Sums.{back_emplace_func-takes_over}
use config.Phase1.Document.Include.{Opened, opened, failed, load_file}
use config.Phase1.Document.Keys.{KeptKey}
use config.Phase1.Document.Scopes.{run_document-KeptKey}
use config.Phase1.Frame.{Framed, append_root-Framed, append_root-too_deep}

-- a = 1 + [ 2 ], b += (f 3), (include "more")
abbrev values : Document
values =
    Document.member
      (Statement.assign (at_key (bytes "a")) (
        ValueList.plus (ValuePart.jaxn (number 1)) (
          ValueList.last (
            ValuePart.array here here (
              ValueLists.value (ValueList.last (ValuePart.jaxn (number 2))) ValueLists.no_value)))))
      (Document.member
        (Statement.append (at_key (bytes "b")) (
          ValueList.last (
            ValuePart.function (bytes "f") here here
              (ValueLists.value (ValueList.last (ValuePart.jaxn (number 3))) ValueLists.no_value))))
        (Document.member (Statement.include_file false (bytes "more") here) Document.end))

-- The one file that is there: b = 2.
abbrev one_file : Text → Opened
one_file name =
    if text_eq name (bytes "more")
    then opened (
        Document.member
          (Statement.assign (at_key (bytes "b")) (ValueList.last (ValuePart.jaxn (number 2))))
          Document.end)
    else failed true (bytes "no such file")

abbrev state_of : Result State → State
state_of (ok st) = st
state_of (err e) = initial

abbrev root_in : Result ObjectRoot → ObjectRoot
root_in (ok o) = o
root_in (err e) = root_of no_member

run_document-KeptKey_example :
    KeptKey initial (state_of (run_document (load_file one_file 1) values initial))
unfolding run_document load_file config.Phase1.State.assign_head append_root
    config.Phase1.State.jaxn_value text_compare config.Phase1.State.begin_array back_ensure_init
    config.Phase1.State.value_list config.Phase1.State.function_name
run_document-KeptKey_example = run_document-KeptKey one_file 1 values initial refl

abbrev set_seven : Concat → Result Concat
set_seven c = ok (one_entry (number 7))

abbrev ordered : IsOrdered plain_values
unfolding text_compare
ordered = ((refl, tt), (tt, tt))

append_root-Framed_example :
    (length (at_key (bytes "a")) ≤ 96)
    × Framed (at_key (bytes "a")) (root_of plain_values) (
        root_in
          (append_root (at_key (bytes "a")) set_seven Phase1Mode.manifest (root_of plain_values)))
unfolding append_root text_compare
append_root-Framed_example =
    append_root-Framed (at_key (bytes "a")) set_seven Phase1Mode.manifest (root_of plain_values)
      ordered refl

abbrev long_path : ℕ → KeyPath
long_path zero = []
long_path (suc n) = Key1Part.name (bytes "a") here ∷ long_path n

append_root-too_deep_example :
    append_root (long_path 97) set_seven Phase1Mode.manifest (root_of no_member)
    ≡ err (parse_error nesting_depth_exceeded here)
append_root-too_deep_example =
    append_root-too_deep (long_path 97) set_seven Phase1Mode.manifest (root_of no_member) refl

back_emplace_func-takes_over_example :
    (back_emplace_func (bytes "g") here (one_entry (array (bytes "f") no_element here))
      ≡ ok (one_entry (array (bytes "g") no_element here)))
    × (back_ensure_init Init.array_init here (one_entry (array (bytes "f") no_element here))
        ≡ one_entry (array (bytes "f") no_element here))
back_emplace_func-takes_over_example =
    back_emplace_func-takes_over plain no_entry (bytes "f") (bytes "g") no_element here here

-- (include "more"), where that file is there
abbrev includes : Document
includes = Document.member (Statement.include_file false (bytes "more") here) Document.end

abbrev itself_file : Text → Opened
itself_file name = opened includes

load_file-itself_example : load_file itself_file 100 (bytes "more") here initial ≡ err out_of_fuel
load_file-itself_example =
    load_file-itself itself_file (bytes "more") false here Document.end refl 100 here initial
