-- ===== src/Tests/Pipeline.antt =====
-- Runs of the passes on whole trees.
use config.Common.{
  arith, Text, bytes, ℕ, zero, suc, ◌+◌, ◌≤◌, List, [], ◌∷◌, ◌++◌, Option, none, some, Position,
  Result, ok, err, Bool, true, false, pos, ◌≡◌, refl, Succeeds, ◌⊎◌, inl, inr, ◌↔◌, out_of_fuel,
  parse_error, invalid_string_argument, nesting_depth_exceeded, length, text_compare, text_eq,
  Ordering,
}
use config.Phase2.Additions.Stable.{IsStableObject}
use config.Phase5.{repack_root}
use config.Data.{
  Mark, Entry, Concat, Entries, Concats, Members, ObjectRoot, Key1Part, Reference2Part,
  Reference2Parts, signed, string, array, object, reference, asterisk, concat, no_entry, entry,
  no_element, element, no_member, member, no_part, part,
}
use config.Tests.{
  root_of, sum_and_reference, plain_values, no_functions, no_parse, first_operand, depth_nine,
}
use config.Phase3.{remove_root}
use config.Phase2.Everything.{phase2_everything, phase2_iteration}
use config.Pipeline.Finish.{repack_root-after_phases}
use config.Phase2.Everything.Settled.{phase2_iteration-unchanged, phase2_everything-settled}

repack_root-after_phases_example : Succeeds (repack_root (root_of plain_values))
unfolding phase2_everything remove_root config.Phase3.remove_object phase2_iteration
    config.Phase2.Functions.phase2_functions config.Phase2.Additions.phase2_additions
    config.Phase2.Additions.process_members config.Phase2.Additions.add_neighbours
    config.Phase2.Additions.add_pair config.Phase2.Additions.after_pair
    config.Phase2.References.phase2_references config.Phase2.Access.access_root
    config.Data.Dict.find text_compare config.Phase2.Access.phase2_access
    config.Phase2.Access.phase2_access_part config.Phase2.Access.phase2_access_name
    config.Statistics.concat_is_primitive config.Phase2.Asterisks.phase2_asterisks
    config.Phase2.Asterisks.process_concat config.Common.◌+ℤ◌ config.Data.Kind.get_position
    config.Data.Views.omit_from_final_result config.Phase2.Access.access_scope
    config.Phase2.Access.access_scopes config.Phase2.Access.phase2_access_index
    config.Phase2.Additions.ignore_entry config.Phase2.Asterisks.process_entry
    config.Phase2.Asterisks.process_from config.Phase2.Asterisks.process_single
    config.Phase2.Functions.process_members config.Phase2.References.collect_suffix
    config.Phase2.References.inner_part config.Phase2.References.pop_back
    config.Phase2.References.process_members config.Phase2.References.process_reference_parts
    config.Phase2.References.replace_reference config.Statistics.count_concat
repack_root-after_phases_example =
    repack_root-after_phases no_functions no_parse first_operand depth_nine 5
      (root_of sum_and_reference) (root_of plain_values) (root_of plain_values) refl refl

phase2_iteration-unchanged_example :
    (root_of plain_values ≡ root_of plain_values) × IsStableObject plain_values
unfolding phase2_iteration config.Phase2.Functions.phase2_functions
    config.Phase2.Additions.phase2_additions config.Phase2.Additions.process_members
    config.Phase2.Additions.add_neighbours config.Phase2.Additions.add_pair
    config.Phase2.Additions.after_pair config.Phase2.References.phase2_references
    config.Phase2.Access.access_root config.Data.Dict.find text_compare
    config.Phase2.Access.phase2_access config.Phase2.Access.phase2_access_part
    config.Phase2.Access.phase2_access_name config.Statistics.concat_is_primitive
    config.Phase2.Asterisks.phase2_asterisks config.Phase2.Asterisks.process_concat
    config.Common.◌+ℤ◌ config.Data.Kind.get_position config.Data.Views.omit_from_final_result
    config.Phase2.Access.access_scope config.Phase2.Access.access_scopes
    config.Phase2.Access.phase2_access_index config.Phase2.Additions.ignore_entry
    config.Phase2.Asterisks.process_entry config.Phase2.Asterisks.process_from
    config.Phase2.Asterisks.process_single config.Phase2.Functions.process_members
    config.Phase2.References.collect_suffix config.Phase2.References.inner_part
    config.Phase2.References.pop_back config.Phase2.References.process_members
    config.Phase2.References.process_reference_parts config.Phase2.References.replace_reference
    config.Statistics.count_concat
phase2_iteration-unchanged_example =
    phase2_iteration-unchanged no_functions no_parse first_operand depth_nine (root_of plain_values)
      (root_of plain_values) refl

phase2_everything-settled_example :
    phase2_iteration no_functions no_parse first_operand depth_nine (root_of plain_values)
    ≡ ok (root_of plain_values, 0)
unfolding phase2_everything phase2_iteration config.Phase2.Functions.phase2_functions
    config.Phase2.Additions.phase2_additions config.Phase2.Additions.process_members
    config.Phase2.Additions.add_neighbours config.Phase2.Additions.add_pair
    config.Phase2.Additions.after_pair config.Phase2.References.phase2_references
    config.Phase2.Access.access_root config.Data.Dict.find text_compare
    config.Phase2.Access.phase2_access config.Phase2.Access.phase2_access_part
    config.Phase2.Access.phase2_access_name config.Statistics.concat_is_primitive
    config.Phase2.Asterisks.phase2_asterisks config.Phase2.Asterisks.process_concat
    config.Common.◌+ℤ◌ config.Data.Kind.get_position config.Data.Views.omit_from_final_result
    config.Phase2.Access.access_scope config.Phase2.Access.access_scopes
    config.Phase2.Access.phase2_access_index config.Phase2.Additions.ignore_entry
    config.Phase2.Asterisks.process_entry config.Phase2.Asterisks.process_from
    config.Phase2.Asterisks.process_single config.Phase2.Functions.process_members
    config.Phase2.References.collect_suffix config.Phase2.References.inner_part
    config.Phase2.References.pop_back config.Phase2.References.process_members
    config.Phase2.References.process_reference_parts config.Phase2.References.replace_reference
    config.Statistics.count_concat
phase2_everything-settled_example =
    phase2_everything-settled no_functions no_parse first_operand depth_nine 5
      (root_of sum_and_reference) (root_of plain_values) refl
