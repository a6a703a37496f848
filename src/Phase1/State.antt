-- ===== src/Phase1/State.antt =====
-- state.hpp, key1_guard.hpp, the actions of config_action.hpp, and the parts of concat.hpp and
-- key1_part.hpp that only they use.
pub mod Sums
use config.Data.{
  KeyPath, Entry, Concat, ObjectRoot, Key1Part, Reference2Parts, array, reference, concat, no_entry,
  entry, no_member,
}
use config.Common.{
  Text, ℕ, suc, ltb, Bool, true, false, [], ◌∷◌, ◌++◌, take, drop, Position, Result, ok, err, ◌>>=◌,
  undefined, bytes, if◌then◌else◌,
}
use config.Data.Sequence.{◌++ₑ◌}
use config.Data.Views.{Init, back_ensure_init, ensure_entries}
use config.Phase1.{Phase1Mode, append_root, at_last}

-- In the source an `append` part shares its generation with its copies. `set_generation` is called
-- at the back of the suffix only when the guards inside it have ended, so that no other key of the
-- state has a copy then, and a concat keeps the number itself: the part has the number here.
pub record State : Type 0 where
  pub prefix : KeyPath
  pub suffix : KeyPath
  pub member : KeyPath
  pub root : ObjectRoot
  pub include_is_optional : Bool
  pub generation : ℕ

-- The member `include_is_optional` has no initial value in the source.
abbrev pub initial : State
initial = record {
  prefix = [];
  suffix = [];
  member = [];
  root = record {
    members = no_member;
    position = record { byte = 1; line = 1; column = 1; source = bytes "(root)" };
  };
  include_is_optional = false;
  generation = 1;
}

-- The constructor of `key1_guard` with a key; the size that it keeps is that of the old prefix.
unfoldable pub guard_key : KeyPath → State → State
guard_key key st = record st { prefix = st.prefix ++ st.suffix; suffix = key }

-- The constructor with an input, which begins a list.
unfoldable pub guard_list : Position → State → State
guard_list p st = record st {
  prefix = st.prefix ++ st.suffix;
  suffix = Key1Part.append (suc st.generation) p ∷ [];
  generation = suc st.generation;
}

-- The destructor.
unfoldable pub guard_end : ℕ → State → State
guard_end size st = record st { suffix = drop size st.prefix; prefix = take size st.prefix }

-- phase1_append at the key of the state, with more of a key behind it
unfoldable pub append_at : KeyPath → (Concat → Result Concat) → Phase1Mode → State → Result State
append_at more thing mode st = do
  o ← append_root (st.prefix ++ (st.suffix ++ more)) thing mode st.root
  ok (record st { root = o })

abbrev pub clear_and_remove : Concat → Result Concat
clear_and_remove (concat m es) = ok (concat (record m { remove = true }) no_entry)

unfoldable pub assign_head : State → Result State
unfolding append_at
assign_head = append_at [] clear_and_remove Phase1Mode.implicit

unfoldable pub begin_array : Position → State → Result State
unfolding append_at
begin_array p = append_at [] (λ c. ok (back_ensure_init Init.array_init p c)) Phase1Mode.manifest

unfoldable pub begin_object : Position → State → Result State
unfolding append_at
begin_object p = append_at [] (λ c. ok (back_ensure_init Init.object_init p c)) Phase1Mode.manifest

abbrev pub set_function : Text → Entry → Result Entry
set_function name (array f cs p) = ok (array name cs p)
set_function name e = err undefined

unfoldable pub back_emplace_func : Text → Position → Concat → Result Concat
back_emplace_func name p (concat m es) = do
  fs ← at_last (set_function name) (ensure_entries Init.array_init p es)
  ok (concat m fs)

unfoldable pub function_name : Text → Position → State → Result State
unfolding append_at back_emplace_func
function_name name p = append_at [] (back_emplace_func name p) Phase1Mode.manifest

-- `set_generation`, under its assertion, at the last part of a key
unfoldable pub set_last_generation : ℕ → KeyPath → Result KeyPath
set_last_generation g [] = err undefined
set_last_generation g (Key1Part.append h p ∷ []) =
    if ltb h g then ok (Key1Part.append g p ∷ []) else err undefined
set_last_generation g (part ∷ []) = ok (part ∷ [])
set_last_generation g (part ∷ next ∷ path) = do
  rest ← set_last_generation g (next ∷ path)
  ok (part ∷ rest)

unfoldable pub value_list : State → Result State
unfolding set_last_generation
value_list st = do
  path ← set_last_generation (suc st.generation) st.suffix
  ok (record st { suffix = path; generation = suc st.generation })

-- The action of `key1_rule` hands the key to the extension that it belongs to; the second key is
-- that which is there before.
abbrev pub take_key : KeyPath → KeyPath → State → Result State
take_key key [] st = ok (record st { member = key })
take_key key (part ∷ path) st = err undefined

unfoldable pub key1_success : KeyPath → State → Result State
key1_success key st = take_key key st.member st

abbrev pub set_temporary : Bool → Concat → Result Concat
set_temporary b (concat m es) = ok (concat (record m { temporary = b }) es)

abbrev pub at_member : (Concat → Result Concat) → KeyPath → State → Result State
at_member thing [] st = err undefined
at_member thing (part ∷ path) st = do
  st' ← append_at (part ∷ path) thing Phase1Mode.implicit st
  ok (record st' { member = [] })

unfoldable pub temporary_extension : State → Result State
unfolding append_at
temporary_extension st = at_member (set_temporary true) st.member st

unfoldable pub permanent_extension : State → Result State
unfolding append_at
permanent_extension st = at_member (set_temporary false) st.member st

-- The actions of `include` and of the `?` behind it.
unfoldable pub include : State → State
include st = record st { include_is_optional = false }

unfoldable pub inc_if : State → State
inc_if st = record st { include_is_optional = true }

abbrev pub emplace_entry : Entry → Concat → Result Concat
emplace_entry e (concat m es) = ok (concat m (es ++ₑ entry e no_entry))

-- `jaxn_value` and `reference_value` of config_grammar.hpp, with what they have parsed.
unfoldable pub jaxn_value : Entry → State → Result State
unfolding append_at
jaxn_value e = append_at [] (emplace_entry e) Phase1Mode.manifest

unfoldable pub reference_value : Reference2Parts → State → Result State
unfolding append_at
reference_value r = append_at [] (emplace_entry (reference r)) Phase1Mode.manifest
