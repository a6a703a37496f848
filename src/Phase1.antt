-- ===== src/Phase1.antt =====
-- phase1_append.hpp: what a config file says of a key is appended at that key.
pub mod State
pub mod Frame
pub mod Document
use config.Data.{
  KeyPath, Entry, Concat, Entries, Concats, ObjectRoot, Key1Part, array, object, asterisk,
  reference, concat, no_entry, entry, no_element, element,
}
use config.Common.{
  Text, ℕ, zero, suc, ◌-◌, ltb, Bool, true, false, ◌&&◌, ◌||◌, List, [], ◌∷◌, length, Position,
  Result, ok, err, ◌>>=◌, parse_error, undefined, cannot_index_value, cannot_index_object,
  cannot_index_asterisk, cannot_index_reference, index_out_of_range, nesting_depth_exceeded,
  expected_name, if◌then◌else◌,
}
use config.Data.Dict.{upsert}
use config.Data.Sequence.{elements_size}
use config.Data.Views.{Init, ensure_entries, empty_concat}

-- limits.hpp
abbrev pub global_nesting_limit : ℕ
global_nesting_limit = 96

pub data Phase1Mode : Type 0 where
  implicit manifest : Phase1Mode

abbrev is_implicit : Phase1Mode → Bool
is_implicit Phase1Mode.implicit = true
is_implicit Phase1Mode.manifest = false

-- A step at the last entry of a list that is not empty.
abbrev pub at_last : (Entry → Result Entry) → Entries → Result Entries
at_last step no_entry = err undefined
at_last step (entry e no_entry) = do f ← step e; ok (entry f no_entry)
at_last step (entry e (entry f es)) = do fs ← at_last step (entry f es); ok (entry e fs)

-- A step at the last element of a list that is not empty.
abbrev pub at_last_element : (Concat → Result Concat) → Concats → Result Concats
at_last_element step no_element = err undefined
at_last_element step (element c no_element) = do d ← step c; ok (element d no_element)
at_last_element step (element c (element d cs)) = do
  ds ← at_last_element step (element d cs)
  ok (element c ds)

-- A step at the element at an index that is in range.
abbrev pub at_element : (Concat → Result Concat) → ℕ → Concats → Result Concats
at_element step n no_element = err undefined
at_element step zero (element c cs) = do d ← step c; ok (element d cs)
at_element step (suc n) (element c cs) = do ds ← at_element step n cs; ok (element c ds)

-- In each of these `next` appends at the rest of the path.
module _ (next : Concat → Result Concat) where
  abbrev in_asterisk : Entry → Result Entry
  in_asterisk (asterisk c) = do d ← next c; ok (asterisk d)
  in_asterisk e = err undefined

  unfoldable pub phase1_append_asterisk : Position → Concat → Result Concat
  phase1_append_asterisk p (concat m es) = do
    fs ← at_last in_asterisk (ensure_entries Init.asterisk_init p es)
    ok (concat m fs)

  -- What `try_emplace` gives is implicit if this is and if it was, or is new.
  abbrev pub named : Phase1Mode → Bool → Concat → Result Concat
  named mode inserted (concat m es) =
      next (concat (record m { implicit = is_implicit mode && (inserted || m.implicit) }) es)

  abbrev in_object : Position → Text → Phase1Mode → Entry → Result Entry
  in_object p name mode (object ms q) = do
    ns ← upsert name (empty_concat p) (named mode) ms
    ok (object ns q)
  in_object p name mode e = err undefined

  unfoldable pub phase1_append_name : Position → Text → Phase1Mode → Concat → Result Concat
  unfolding upsert
  phase1_append_name p name mode (concat m es) = do
    fs ← at_last (in_object p name mode) (ensure_entries Init.object_init p es)
    ok (concat m fs)

  -- The loop over the entries, with what is left of the index.
  unfoldable pub index_entries : Position → ℕ → Entries → Result Entries
  index_entries p n no_entry = err (parse_error index_out_of_range p)
  index_entries p n (entry (array f cs q) es) =
      let later = index_entries p (n - elements_size cs) es in
      if ltb n (elements_size cs)
      then (do ds ← at_element next n cs; ok (entry (array f ds q) es))
      else (do fs ← later; ok (entry (array f cs q) fs))
  index_entries p n (entry (object ms q) es) = err (parse_error cannot_index_object p)
  index_entries p n (entry (asterisk c) es) = err (parse_error cannot_index_asterisk p)
  index_entries p n (entry (reference r) es) = err (parse_error cannot_index_reference p)
  index_entries p n (entry e es) = err (parse_error cannot_index_value p)

  unfoldable pub phase1_append_index : Position → ℕ → Concat → Result Concat
  unfolding index_entries
  phase1_append_index p n (concat m es) = do fs ← index_entries p n es; ok (concat m fs)

  abbrev emplace_last : Position → Concats → Result Concats
  emplace_last p no_element = do d ← next (empty_concat p); ok (element d no_element)
  emplace_last p (element c cs) = do ds ← emplace_last p cs; ok (element c ds)

  abbrev in_array : Position → Bool → Entry → Result Entry
  in_array p fresh (array f cs q) = do
    ds ← if fresh then emplace_last p cs else at_last_element next cs
    ok (array f ds q)
  in_array p fresh e = err undefined

  -- A generation later than that of the concat begins a new element.
  unfoldable pub phase1_append_append : Position → ℕ → Concat → Result Concat
  phase1_append_append p g (concat m es) = do
    let fresh = ltb m.generation g
    fs ← at_last (in_array p fresh) (ensure_entries Init.array_init p es)
    ok (concat (if fresh then record m { generation = g } else m) fs)

-- The generation of a part, under the assertion that it has been set.
abbrev pub get_generation : ℕ → Result ℕ
get_generation zero = err undefined
get_generation (suc g) = ok (suc g)

unfoldable pub append_part :
    (Concat → Result Concat) → Phase1Mode → Key1Part → Concat → Result Concat
unfolding phase1_append_asterisk phase1_append_name phase1_append_index phase1_append_append
append_part next mode (Key1Part.asterisk p) c = phase1_append_asterisk next p c
append_part next mode (Key1Part.name n p) c = phase1_append_name next p n mode c
append_part next mode (Key1Part.index i p) c = phase1_append_index next p i c
append_part next mode (Key1Part.append g p) c = do
  generation ← get_generation g
  phase1_append_append next p generation c

unfoldable pub phase1_append :
    KeyPath → (Concat → Result Concat) → Phase1Mode → Concat → Result Concat
unfolding append_part
phase1_append [] thing mode c = thing c
phase1_append (part ∷ path) thing mode c = append_part (phase1_append path thing mode) mode part c

abbrev pub part_position : Key1Part → Position
part_position (Key1Part.name n p) = p
part_position (Key1Part.index i p) = p
part_position (Key1Part.asterisk p) = p
part_position (Key1Part.append g p) = p

-- The part behind the first `n`, which is there where this is used.
abbrev position_at : ℕ → KeyPath → Result Position
position_at n [] = err undefined
position_at zero (part ∷ path) = ok (part_position part)
position_at (suc n) (part ∷ path) = position_at n path

abbrev append_at_name :
    KeyPath → (Concat → Result Concat) → Phase1Mode → ObjectRoot → Result ObjectRoot
append_at_name [] thing mode o = err undefined
append_at_name (Key1Part.name n p ∷ path) thing mode o = do
  ms ← upsert n (empty_concat p) (named (phase1_append path thing mode) mode) o.members
  ok (record o { members = ms })
append_at_name (part ∷ path) thing mode o = err (parse_error expected_name (part_position part))

-- phase1_append at the root
unfoldable pub append_root :
    KeyPath → (Concat → Result Concat) → Phase1Mode → ObjectRoot → Result ObjectRoot
unfolding phase1_append upsert
append_root path thing mode o =
    if ltb global_nesting_limit (length path)
    then (do p ← position_at global_nesting_limit path; err (parse_error nesting_depth_exceeded p))
    else append_at_name path thing mode o
