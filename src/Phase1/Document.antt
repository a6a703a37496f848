-- ===== src/Phase1/Document.antt =====
-- config_grammar.hpp: a parsed config file, and the order in which the parse runs the actions of
-- config_action.hpp. The text itself is matched by PEGTL.
pub mod Keys
pub mod Scopes
pub mod Include
pub mod Fuel
use config.Data.{KeyPath, Entry, Reference2Parts}
use config.Common.{Text, length, Position, Bool, Result, ok, ◌>>=◌, if◌then◌else◌}
use config.Phase1.State.{
  State, guard_key, guard_list, guard_end, assign_head, begin_array, begin_object, function_name,
  value_list, key1_success, temporary_extension, permanent_extension, jaxn_value, reference_value,
  include, inc_if,
}

mutual
  -- value_part: an array and a function have the position at which their list begins
  pub data ValuePart : Type 0 where
    array : Position → Position → ValueLists → ValuePart
    object : Position → Document → ValuePart
    function : Text → Position → Position → ValueLists → ValuePart
    reference : Reference2Parts → ValuePart
    jaxn : Entry → ValuePart

  -- value_list: the parts between `+`
  pub data ValueList : Type 0 where
    last : ValuePart → ValueList
    plus : ValuePart → ValueList → ValueList

  -- element_list and extension_list
  pub data ValueLists : Type 0 where
    no_value : ValueLists
    value : ValueList → ValueLists → ValueLists

  -- member: `key = values`, `key = delete`, `key += values`, the two extensions, and
  -- `include` of a file, with or without `?`, at the position of its name
  pub data Statement : Type 0 where
    assign : KeyPath → ValueList → Statement
    remove : KeyPath → Statement
    append : KeyPath → ValueList → Statement
    temporary : KeyPath → Statement
    permanent : KeyPath → Statement
    include_file : Bool → Text → Position → Statement

  -- member_list
  pub data Document : Type 0 where
    end : Document
    member : Statement → Document → Document

-- The scope of a `key1_guard`.
abbrev pub guarded : (State → State) → (State → Result State) → State → Result State
guarded enter body st = do st' ← body (enter st); ok (guard_end (length st.prefix) st')

-- assign_head value_list, and value_list by itself
abbrev pub assigned : (State → Result State) → State → Result State
assigned values st = do st' ← assign_head st; st'' ← values st'; value_list st''

abbrev pub appended : (State → Result State) → State → Result State
appended values st = do st' ← values st; value_list st'

-- `load` is the action `inc_fn`, which parses another file on the same state.
module _ (load : Text → Position → State → Result State) where
  unfoldable mutual
    unfolding guard_key guard_list guard_end include inc_if

    pub run_part : ValuePart → State → Result State
    run_part (array p q vs) st = do
      st' ← begin_array p st
      guarded (guard_list q) (run_lists vs) st'
    run_part (object p ms) st = do st' ← begin_object p st; run_document ms st'
    run_part (function name p q vs) st = do
      st' ← function_name name p st
      guarded (guard_list q) (run_lists vs) st'
    run_part (reference r) st = reference_value r st
    run_part (jaxn e) st = jaxn_value e st

    pub run_parts : ValueList → State → Result State
    run_parts (last v) st = run_part v st
    run_parts (plus v vs) st = do st' ← run_part v st; run_parts vs st'

    -- Behind the parts of a value list comes the action of the list itself.
    pub run_lists : ValueLists → State → Result State
    run_lists no_value st = ok st
    run_lists (value v vs) st = do st' ← run_parts v st; st'' ← value_list st'; run_lists vs st''

    pub run_statement : Statement → State → Result State
    run_statement (assign key v) st = guarded (guard_key key) (assigned (run_parts v)) st
    run_statement (remove key) st = guarded (guard_key key) assign_head st
    run_statement (append key v) st = guarded (guard_key key) (appended (run_parts v)) st
    run_statement (temporary key) st = do st' ← key1_success key st; temporary_extension st'
    run_statement (permanent key) st = do st' ← key1_success key st; permanent_extension st'
    run_statement (include_file optional name p) st =
        load name p (if optional then inc_if (include st) else include st)

    pub run_document : Document → State → Result State
    run_document end st = ok st
    run_document (member s ms) st = do st' ← run_statement s st; run_document ms st'
