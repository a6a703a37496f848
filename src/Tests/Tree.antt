-- ===== src/Tests/Tree.antt =====
-- Runs on the tree.
use config.JaxnToEntry.Calls.{calls, IsJaxn}
use config.JaxnToEntry.{consume_all, Consumer}
use config.Phase2.Additions.Objects.{find-process_object, merged}
use config.Phase2.Additions.{process_object, phase2_additions}
use config.Common.{
  arith, none, bytes, ◌+◌, [], some, ok, true, ◌≡◌, refl, Succeeds, ◌↔◌, text_compare, err,
  out_of_fuel,
}
use config.Phase2.Asterisks.Depth.{phase2_asterisks-depth, depth}
use config.Data.Dict.{find}
use config.JaxnToEntry.Rebuilt.{consume_all-calls}
use config.Tests.{
  two_entries, here, plain, one_entry, number, root_of, at_key, refer, plain_values, first_operand,
}
use config.Phase3.{remove_root}
use config.Phase2.Access.{access_root}
use config.Statistics.{concat_is_primitive}
use config.Phase5.{phase5_repack}
use config.Phase2.References.{phase2_references}
use config.Phase2.Asterisks.{phase2_asterisks}
use config.Data.{
  Mark, Entry, Concat, Entries, Concats, Members, ObjectRoot, Key1Part, Reference2Part,
  Reference2Parts, signed, string, array, object, reference, asterisk, concat, no_entry, entry,
  no_element, element, no_member, member, no_part, part,
}
use config.Statistics.Primitive.{concat_is_primitive-IsPrimitive, IsPrimitive}
use config.Phase2.Additions.Stable.{phase2_additions-unchanged, IsStableObject}
use config.Phase2.Access.Scopes.{
  access_root-found, access_root-innermost, FoundWithin, ReachesFrom, Reaches,
}
use config.Phase2.References.Measure.{references-phase2_references, references_object}
use config.Phase3.Packed.{remove_root-IsPacked}
use config.Phase3.Again.{remove_root-again}
use config.Phase5.Packed.{phase5_repack_iff, IsPacked, IsPackedObject}

-- a = 3, b = { c = (a) }
abbrev one_reference : ObjectRoot
one_reference = root_of (
    member (bytes "a") (one_entry (number 3)) (
      member (bytes "b")
        (one_entry
          (object (member (bytes "c") (one_entry (reference (refer (bytes "a")))) no_member) here))
        no_member))

concat_is_primitive-IsPrimitive_example :
    (concat_is_primitive (one_entry (number 1)) ≡ true) ↔ IsPrimitive (one_entry (number 1))
concat_is_primitive-IsPrimitive_example = concat_is_primitive-IsPrimitive (one_entry (number 1))

references-phase2_references_example :
    references_object plain_values + 1 ≡ references_object one_reference.members
unfolding phase2_references access_root config.Data.Dict.find text_compare
    config.Phase2.Access.phase2_access config.Phase2.Access.phase2_access_part
    config.Phase2.Access.phase2_access_name concat_is_primitive
references-phase2_references_example =
    references-phase2_references one_reference (root_of plain_values) 1 refl

access_root-found_example :
    FoundWithin one_reference (at_key (bytes "b")) (at_key (bytes "a")) 1 (one_entry (number 3))
unfolding access_root config.Data.Dict.find text_compare config.Phase2.Access.phase2_access
    config.Phase2.Access.phase2_access_part config.Phase2.Access.phase2_access_name
    concat_is_primitive
access_root-found_example =
    access_root-found one_reference (at_key (bytes "b")) (at_key (bytes "a")) refl

access_root-innermost_example :
    access_root (root_of plain_values) (at_key (bytes "b")) (at_key (bytes "c"))
    ≡ ok (some (one_entry (number 3)))
unfolding config.Data.Dict.find text_compare concat_is_primitive config.Statistics.count_concat
access_root-innermost_example =
    access_root-innermost (root_of plain_values) (at_key (bytes "b"))
      (Key1Part.name (bytes "c") here) []
      (ReachesFrom.at_member
        {c = one_entry (object (member (bytes "c") (one_entry (number 3)) no_member) here)} refl
        (Reaches.at_name {c = one_entry (number 3)} refl Reaches.here))
      refl

phase2_additions-unchanged_example :
    (root_of plain_values ≡ root_of plain_values) × IsStableObject plain_values
unfolding phase2_additions config.Phase2.Additions.process_members
    config.Phase2.Additions.add_neighbours
phase2_additions-unchanged_example =
    phase2_additions-unchanged first_operand (root_of plain_values) (root_of plain_values) refl

-- a = 3, b = (nothing), where the second member is implicit
abbrev with_empty : Members
with_empty =
    member (bytes "a") (one_entry (number 3)) (member (bytes "b") (concat plain no_entry) no_member)

abbrev without_empty : Members
without_empty = member (bytes "a") (one_entry (number 3)) no_member

remove_root-IsPacked_example : IsPackedObject without_empty
unfolding remove_root config.Data.Views.omit_from_final_result
remove_root-IsPacked_example =
    remove_root-IsPacked (root_of with_empty) {r = root_of without_empty}
      ((tt, (tt, tt)), ((tt, tt), tt)) refl

remove_root-again_example : remove_root (root_of without_empty) ≡ ok (root_of without_empty)
unfolding remove_root config.Data.Views.omit_from_final_result
remove_root-again_example = remove_root-again (root_of with_empty) {r = root_of without_empty} refl

phase5_repack_iff_example :
    Succeeds (phase5_repack [] (one_entry (number 1))) ↔ IsPacked (one_entry (number 1))
phase5_repack_iff_example = phase5_repack_iff [] (one_entry (number 1))

-- a = { * = 1 } + { b = 3 }, where the asterisk stands for the first object
abbrev starred : ObjectRoot
starred = root_of (
    member (bytes "a")
      (two_entries (asterisk (one_entry (number 1)))
        (object (member (bytes "b") (one_entry (number 3)) no_member) here))
      no_member)

phase2_asterisks-depth_example : ¬ (phase2_asterisks 3 starred ≡ err out_of_fuel)
unfolding depth
phase2_asterisks-depth_example = phase2_asterisks-depth 3 starred (omega arith)

-- The asterisk is spread over the member, and is an object with the name of the member.
spread_asterisk :
    phase2_asterisks 3 starred
    ≡ ok (
      root_of (
          member
            (bytes "a")
            (two_entries
              (object (member (bytes "b") (one_entry (number 1)) no_member) here)
              (object (member (bytes "b") (one_entry (number 3)) no_member) here))
            no_member),
      1,
    )
unfolding phase2_asterisks config.Phase2.Asterisks.process_concat
    config.Phase2.Asterisks.process_from config.Phase2.Asterisks.process_entry
    config.Phase2.Asterisks.process_asterisk config.Phase2.Asterisks.emplace_name
spread_asterisk = refl

find-process_object_example :
    find (bytes "a") (process_object plain_values without_empty)
    ≡ merged (find (bytes "a") plain_values) (find (bytes "a") without_empty)
unfolding text_compare
find-process_object_example =
    find-process_object (bytes "a") plain_values without_empty ((refl, tt), (tt, tt)) (tt, tt)

abbrev jaxn_value : Entry → Concat
jaxn_value e = concat (record plain { remove = true }) (entry e no_entry)

-- { "b" : [ 1 ] }
abbrev nested_value : Entry
nested_value =
    object
      (member (bytes "b") (jaxn_value (array [] (element (jaxn_value (number 1)) no_element) here))
        no_member)
      here

abbrev consumer : Consumer
consumer = record { stack = []; keys = []; value = none }

consume_all-calls_example :
    consume_all (calls nested_value []) consumer
    ≡ ok (record consumer { value = some nested_value })
unfolding IsJaxn
consume_all-calls_example =
    consume_all-calls nested_value consumer ((tt, tt), ((refl, (refl, ((refl, tt), tt))), tt))
