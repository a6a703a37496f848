-- ===== src/Phase2/References.antt =====
-- phase2_references.hpp: references are replaced by copies of the values that they name.
pub mod Measure
pub mod Unchanged
use config.Data.{
  KeyPath, Reference2Part, Reference2Parts, no_part, part, Entry, Concat, Entries, Concats, Members,
  ObjectRoot, Key1Part, string, unsigned, array, object, reference, concat, no_entry, entry,
  no_element, element, no_member, member,
}
use config.Common.{
  ℕ, suc, Option, none, some, [], ◌∷◌, ◌++◌, Result, ok, err, parse_error, invalid_reference_part,
  undefined, ◌>>=◌ as ◌>>=ᵣ◌,
}
use config.Counted.{Counted, unchanged, changed, lift, ◌>>=◌}
use config.Data.Kind.{get_position}
use config.Phase2.Access.{Found, access_root}

-- pop_back( prefix ), under its assertion
unfoldable pub pop_back : KeyPath → Result KeyPath
pop_back [] = err undefined
pop_back (p ∷ []) = ok []
pop_back (p ∷ q ∷ path) = pop_back (q ∷ path) >>=ᵣ λ rest. ok (p ∷ rest)

-- The key part that an inner reference stands for, from what it refers to.
unfoldable pub inner_part : Option Concat → Result (Option Key1Part)
inner_part none = ok none
inner_part (some (concat m (entry (string s p) no_entry))) = ok (some (Key1Part.name s p))
inner_part (some (concat m (entry (unsigned n p) no_entry))) = ok (some (Key1Part.index n p))
inner_part (some (concat m (entry e no_entry))) =
    err (parse_error invalid_reference_part (get_position e))
inner_part (some c) = ok none

abbrev access_suffix : ObjectRoot → KeyPath → Option KeyPath → Found
access_suffix root prefix none = ok none
access_suffix root prefix (some suffix) =
    pop_back prefix >>=ᵣ λ scope. access_root root scope suffix

unfoldable mutual
  pub process_reference_part : ObjectRoot → KeyPath → Reference2Part → Result (Option Key1Part)
  process_reference_part root prefix (Reference2Part.name n p) = ok (some (Key1Part.name n p))
  process_reference_part root prefix (Reference2Part.index i p) = ok (some (Key1Part.index i p))
  process_reference_part root prefix (Reference2Part.vector v p) =
      collect_suffix root prefix v >>=ᵣ λ suffix.
      access_suffix root prefix suffix >>=ᵣ λ found. inner_part found

  -- The loop that builds `suffix`; `none` where a part is not known yet.
  pub collect_suffix : ObjectRoot → KeyPath → Reference2Parts → Result (Option KeyPath)
  collect_suffix root prefix no_part = ok (some [])
  collect_suffix root prefix (part p ps) = process_reference_part root prefix p >>=ᵣ λ k. elim k [
    | none ↦ ok none
    | some key ↦ collect_suffix root prefix ps >>=ᵣ λ rest. elim rest [
      | none ↦ ok none
      | some suffix ↦ ok (some (key ∷ suffix))
    ]
  ]

unfoldable pub process_reference_parts : ObjectRoot → KeyPath → Reference2Parts → Found
process_reference_parts root prefix r =
    collect_suffix root prefix r >>=ᵣ λ suffix. access_suffix root prefix suffix

-- What happens to the entry `e` once the reference in it has been looked up.
unfoldable pub replace_reference : Entry → Option Concat → Counted Entry
replace_reference e none = unchanged e
replace_reference e (some (concat m no_entry)) = unchanged e
replace_reference e (some (concat m (entry f no_entry))) = changed f
replace_reference e (some (concat m (entry f (entry g es)))) = err undefined

-- The tree is changed while it is read: `plug` puts the part at hand back into the tree as it
-- stands, so that `plug` of the part is `m_root`.
unfoldable mutual
  pub process_entry : KeyPath → Entry → (Entry → ObjectRoot) → Counted Entry
  process_entry prefix (array f cs p) plug = do
    ds ← process_array prefix 0 cs (λ xs. plug (array f xs p))
    unchanged (array f ds p)
  process_entry prefix (object ms p) plug = do
    ns ← process_members prefix ms (λ xs. plug (object xs p))
    unchanged (object ns p)
  process_entry prefix (reference r) plug = do
    found ← lift (process_reference_parts (plug (reference r)) prefix r)
    replace_reference (reference r) found
  process_entry prefix e plug = unchanged e

  pub process_concat : KeyPath → Concat → (Concat → ObjectRoot) → Counted Concat
  process_concat prefix (concat m es) plug = do
    fs ← process_entries prefix es (λ xs. plug (concat m xs))
    unchanged (concat m fs)

  pub process_entries : KeyPath → Entries → (Entries → ObjectRoot) → Counted Entries
  process_entries prefix no_entry plug = unchanged no_entry
  process_entries prefix (entry e es) plug = do
    f ← process_entry prefix e (λ x. plug (entry x es))
    fs ← process_entries prefix es (λ xs. plug (entry f xs))
    unchanged (entry f fs)

  pub process_array : KeyPath → ℕ → Concats → (Concats → ObjectRoot) → Counted Concats
  process_array prefix i no_element plug = unchanged no_element
  process_array prefix i (element c cs) plug = do
    d ←
        process_concat (prefix ++ Key1Part.index i (plug (element c cs)).position ∷ []) c
          (λ x. plug (element x cs))
    ds ← process_array prefix (suc i) cs (λ xs. plug (element d xs))
    unchanged (element d ds)

  pub process_members : KeyPath → Members → (Members → ObjectRoot) → Counted Members
  process_members prefix no_member plug = unchanged no_member
  process_members prefix (member n c ms) plug = do
    d ←
        process_concat (prefix ++ Key1Part.name n (plug (member n c ms)).position ∷ []) c
          (λ x. plug (member n x ms))
    ns ← process_members prefix ms (λ xs. plug (member n d xs))
    unchanged (member n d ns)

-- The loop of `process()` is that over the members of an object, with no prefix.
unfoldable pub phase2_references : ObjectRoot → Counted ObjectRoot
unfolding process_concat process_reference_parts collect_suffix pop_back inner_part
    replace_reference
phase2_references o = do
  ms ← process_members [] o.members (λ xs. record o { members = xs })
  unchanged (record o { members = ms })
