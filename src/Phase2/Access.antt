-- ===== src/Phase2/Access.antt =====
-- phase2_access.hpp: a key is looked up from the innermost scope outwards.
pub mod Scopes
use config.Data.{
  KeyPath, Concat, ObjectRoot, Key1Part, array, object, asterisk, reference, concat, no_entry,
  entry,
}
use config.Common.{
  Text, ℕ, zero, suc, ℤ, pos, negsuc, Bool, true, false, Option, none, some, List, [], ◌∷◌, ◌++◌,
  take, length, Position, Result, ok, err, ◌>>=◌, Message, parse_error, phase2_access_return,
  undefined, cannot_index_value, cannot_index_object, cannot_index_reference, index_out_of_range,
  cannot_index_asterisk, access_name_in_value, access_name_in_array, name_not_found,
  unable_to_access_asterisk, impossible_append, if◌then◌else◌,
}
use config.Data.Dict.{find}
use config.Data.Sequence.{element_at?}
use config.Statistics.{concat_is_primitive}

-- A `const concat*`, where `none` is the null pointer.
abbrev pub Found : Type 0
Found = Result (Option Concat)

-- `down` counts the parts of the prefix that are left; it is an `int`, and negative behind them.
abbrev pub decrement : ℤ → ℤ
decrement (pos zero) = negsuc 0
decrement (pos (suc n)) = pos n
decrement (negsuc n) = negsuc (suc n)

abbrev pub within_prefix : ℤ → Bool
within_prefix (pos n) = true
within_prefix (negsuc n) = false

-- What the functions do where nothing is found: go on with the next scope inside of the prefix,
-- and end with `e` behind it.
abbrev pub missing : ℤ → Result (Option Concat) → Found
missing down e = if within_prefix down then ok none else e

abbrev pub or_missing : ℤ → Message → Position → (Concat → Found) → Option Concat → Found
or_missing down m p next none = missing down (err (parse_error m p))
or_missing down m p next (some c) = next c

-- `next` looks up the rest of the key, with `down - 1`.
unfoldable pub phase2_access_name : (Concat → Found) → Position → Text → ℤ → Concat → Found
phase2_access_name next p n down (concat m no_entry) = missing down (err phase2_access_return)
phase2_access_name next p n down (concat m (entry e (entry f es))) = err phase2_access_return
phase2_access_name next p n down (concat m (entry (array f cs q) no_entry)) =
    missing down (err (parse_error access_name_in_array p))
phase2_access_name next p n down (concat m (entry (object ms q) no_entry)) =
    or_missing down name_not_found p next (find n ms)
phase2_access_name next p n down (concat m (entry (asterisk c) no_entry)) =
    missing down (err (parse_error name_not_found p))
phase2_access_name next p n down (concat m (entry (reference r) no_entry)) =
    err phase2_access_return
phase2_access_name next p n down (concat m (entry e no_entry)) =
    err (parse_error access_name_in_value p)

unfoldable pub phase2_access_index : (Concat → Found) → Position → ℕ → ℤ → Concat → Found
phase2_access_index next p i down (concat m no_entry) = missing down (err phase2_access_return)
phase2_access_index next p i down (concat m (entry e (entry f es))) = err phase2_access_return
phase2_access_index next p i down (concat m (entry (array f cs q) no_entry)) =
    or_missing down index_out_of_range p next (element_at? cs i)
phase2_access_index next p i down (concat m (entry (object ms q) no_entry)) =
    err (parse_error cannot_index_object p)
phase2_access_index next p i down (concat m (entry (asterisk c) no_entry)) =
    missing down (err (parse_error cannot_index_asterisk p))
phase2_access_index next p i down (concat m (entry (reference r) no_entry)) =
    err (parse_error cannot_index_reference p)
phase2_access_index next p i down (concat m (entry e no_entry)) =
    err (parse_error cannot_index_value p)

unfoldable pub phase2_access_part : (Concat → Found) → Key1Part → ℤ → Concat → Found
phase2_access_part next (Key1Part.asterisk p) down c = err (parse_error unable_to_access_asterisk p)
phase2_access_part next (Key1Part.name n p) down c = phase2_access_name next p n down c
phase2_access_part next (Key1Part.index i p) down c = phase2_access_index next p i down c
phase2_access_part next (Key1Part.append g p) down c = err (parse_error impossible_append p)

unfoldable pub phase2_access : KeyPath → ℤ → Concat → Found
phase2_access [] down c = if concat_is_primitive c then ok (some c) else err phase2_access_return
phase2_access (part ∷ suffix) down c =
    phase2_access_part (phase2_access suffix (decrement down)) part down c

-- The body of the loop over the scopes. `get_name()` on a part that is no name breaks its
-- precondition, and so does `front()` on a key with no part.
unfoldable pub access_scope : ObjectRoot → KeyPath → ℤ → Found
access_scope o [] down = err undefined
access_scope o (Key1Part.name n p ∷ path) down = elim (find n o.members) [
  | none ↦ ok none
  | some c ↦ phase2_access path (decrement down) c
]
access_scope o (part ∷ path) down = err undefined

abbrev or_else : Option Concat → Found → Found
or_else none next = next
or_else (some c) next = ok (some c)

-- The loop, with the first `n` parts of the prefix and those before.
unfoldable pub access_scopes : ObjectRoot → KeyPath → KeyPath → ℕ → Found
access_scopes o prefix suffix zero = access_scope o suffix (pos 0)
access_scopes o prefix suffix (suc n) = do
  found ← access_scope o (take (suc n) prefix ++ suffix) (pos (suc n))
  or_else found (access_scopes o prefix suffix n)

-- catch( const phase2_access_return& )
abbrev pub catch_return : Found → Found
catch_return (err phase2_access_return) = ok none
catch_return r = r

unfoldable pub access_root : ObjectRoot → KeyPath → KeyPath → Found
unfolding access_scopes access_scope
access_root o prefix [] = err undefined
access_root o prefix (part ∷ suffix) =
    catch_return (access_scopes o prefix (part ∷ suffix) (length prefix))
