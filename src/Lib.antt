-- ===== src/Lib.antt =====
-- A model of the configuration parser of include/tao/config, with proofs.
--
-- A configuration file is parsed into a tree of entries, and the tree is brought to a JSON value in
-- phases that each go over the whole tree. `config_parser` (config_parser.hpp) runs them:
--   the actions of the grammar build the tree (first phase);
--   the passes over functions, additions, references and asterisks run until none of them reports
--   a change (second phase);
--   the third phase removes what is temporary or empty and reports what is left unresolved;
--   the fifth phase hands the tree to the consumer that makes the value.
--
-- Which file models what, with the paths of the code from include/tao/config:
--   Data: internal/{entry,entry_kind,array,object,concat,constants,reference2_part,key1_part}.hpp.
--     An entry is a variant; `Entries` is the list of a concat, `Concats` the list of an array, and
--     `Members` the ordered map of an object (Data/Dict has its lookup and its try_emplace).
--   Statistics: internal/statistics.hpp.
--   Phase1: internal/phase1_append.hpp. Phase1/State: internal/{state,key1_guard,config_action}.hpp.
--     Phase1/Document: the order in which the rules of internal/config_grammar.hpp run the actions,
--     as functions on what has been parsed; Phase1/Document/Include: the action of an included file.
--   Phase2/Functions: internal/{phase2_functions,function_traits,function_wrapper,
--     function_implementations}.hpp. Phase2/Additions, Phase2/Access, Phase2/References,
--     Phase2/Asterisks, Phase2/Everything: the headers internal/phase2_*.hpp of these names.
--   Phase3: internal/phase3_remove.hpp. Phase5: internal/phase5_repack.hpp, whose calls on the
--     consumer are the list of Events. Key: key_part.hpp. Key/Spelling: key.hpp,
--     internal/key_grammar.hpp and internal/key_action.hpp, the text of a key.
--   Jaxn: internal/jaxn_action.hpp, on the rules that the JAXN grammar matches: Jaxn/Number has the
--     digits of a number, Jaxn/Hexnum hexadecimal numbers. JaxnToEntry: internal/jaxn_to_entry.hpp,
--     as a machine on the calls of these actions.
--   Access: access.hpp and assign.hpp. Pipeline: internal/config_parser.hpp and from_files.hpp.
--   Common and Counted have what the parts share: bytes, results and errors, and the counting of
--   `m_changes`, which the passes do as they change the tree.
--
-- How the model reads the code. An operation that throws, or whose assertion fails, has a `Result`:
-- `parse_error` with its message and position, `logic_error`, and `undefined` where an assertion
-- fails or the behaviour is undefined, as for an int64 sum that overflows. A pass gives the new tree
-- and the number of its changes. The pass over the references looks keys up in the tree that it is
-- changing; it carries that tree as a function of the part that is in hand. The operands of `|` in
-- `phase2_iteration` have no fixed order in C++; they run here in the order of the text.
--
-- Fuel. `phase2_everything` counts its iterations, because the loop need not end. The pass over the
-- asterisks counts the depth of the tree (Phase2/Asterisks/Depth), since it goes into what an
-- asterisk has been spread over; a round of its inner loop costs one of the entries that are there
-- at its start. Included files count their nesting, because a file can include itself, and
-- the parse of a key its rounds, of which the length of the text is enough (Key/Spelling/Fuel).
--
-- Parameters. The match of characters by PEGTL, the JAXN grammar, numbers and printer of the JSON
-- library, the environment, files and the shell are fields of `System` or arguments; the addition of two
-- doubles is an argument on their bits, the end of `unsigned long` and of the exponent of a number are
-- arguments, and a finished value is one of a type with its operations.
--
-- Not modelled: the text form of the keys and references in a file, debug output, and the classes
-- that join the parser to the JSON library (value.hpp, traits.hpp, annotation.hpp).
pub mod Access
pub mod Common
pub mod Data
pub mod Counted
pub mod Key
pub mod Events
pub mod Statistics
pub mod Phase3
pub mod Phase5
pub mod Phase2
pub mod Phase1
pub mod Pipeline
pub mod Jaxn
pub mod JaxnToEntry
pub mod Tests
