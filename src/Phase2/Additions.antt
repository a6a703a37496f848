-- ===== src/Phase2/Additions.antt =====
-- phase2_additions.hpp: neighbours in a concat are added where both are values.
pub mod Stable
pub mod Objects
pub mod Totals
use config.Common.{
  Text, text_compare, Ordering, ℕ, ◌+◌, ℤ, ◌+ℤ◌, fits_int64, to_int64, wrap_uint64, Bool, true,
  false, ◌||◌, Option, none, some, ◌++◌, Position, bytes, Result, ok, err, parse_error,
  incompatible_addition, undefined, is_empty, if◌then◌else◌, suc,
}
use config.Data.{
  Entry, Concat, Entries, Concats, Members, ObjectRoot, null, boolean, string, binary, signed,
  unsigned, double, array, object, asterisk, reference, concat, no_entry, entry, no_element,
  element, no_member, member,
}
use config.Counted.{Counted, unchanged, changed, lift, ◌>>=◌}
use config.Data.Sequence.{◌++ₑ◌, ◌++ₐ◌}

unfoldable pub ignore_entry : Entry → Bool
ignore_entry (asterisk c) = true
ignore_entry (reference r) = true
ignore_entry (array f cs p) = elim (is_empty f) [ true ↦ false | false ↦ true ]
ignore_entry _ = false

abbrev pub no_position : Position
no_position = record { byte = 0; line = 0; column = 0; source = bytes "TODO: location of '+'" }

abbrev pub throw_type_error {ℓ} : {A : Type ℓ} → Result A
throw_type_error = err (parse_error incompatible_addition no_position)

-- `throw_type_error_if` at a kind that `l` has or has not, and the value that replaces `r`.
abbrev unless_ignored : Entry → Entry → Result (Option Entry) → Result (Option Entry)
unless_ignored l r next = if ignore_entry l || ignore_entry r then ok none else next

-- A sum of `std::int64_t` that overflows is undefined.
abbrev signed_sum : ℤ → ℤ → Position → Result (Option Entry)
signed_sum a b p = if fits_int64 (a +ℤ b) then ok (some (signed (a +ℤ b) p)) else err undefined

-- One member of the left object, added to the right object.
unfoldable pub splice_member : Concat → Concat → Concat
splice_member (concat l es) (concat r fs) =
    if r.remove
    then concat r fs
    else concat (record r { remove = l.remove; temporary = r.temporary || l.temporary }) (es ++ₑ fs)

unfoldable pub add_member : Text → Concat → Members → Members
unfolding splice_member
add_member k c no_member = member k c no_member
add_member k c (member j d ms) = elim (text_compare k j) [
  | Ordering.lt ↦ member k c (member j d ms)
  | Ordering.eq ↦ member j (splice_member c d) ms
  | Ordering.gt ↦ member j d (add_member k c ms)
]

unfoldable pub process_object : Members → Members → Members
unfolding add_member
process_object no_member r = r
process_object (member k c l) r = process_object l (add_member k c r)

-- What the loop does with the sum of `l` and `r`, and `next` for the entries behind `r`.
unfoldable pub after_pair :
    Entry → Entry → (Entry → Counted Entries) → Option Entry → Counted Entries
after_pair l r next none = do fs ← next r; unchanged (entry l fs)
after_pair l r next (some r') = do fs ← next r'; changed fs

-- `double_add` is the hardware's addition on the bits of two doubles.
module _ (double_add : ℕ → ℕ → ℕ) where
  -- The body of the loop at `l` and `r`: `none` continues, and `some` erases `l` and replaces `r`.
  unfoldable pub add_pair : Entry → Entry → Result (Option Entry)
  unfolding ignore_entry process_object ◌+ℤ◌
  add_pair l (null p) = throw_type_error
  add_pair l (boolean b p) = throw_type_error
  add_pair l (signed b p) = unless_ignored l (signed b p) (elim l [
    | signed a q ↦ signed_sum b a p
    | unsigned a q ↦ signed_sum b (to_int64 a) p
    | _ ↦ throw_type_error
  ])
  add_pair l (unsigned b p) = unless_ignored l (unsigned b p) (elim l [
    | unsigned a q ↦ ok (some (unsigned (wrap_uint64 (b + a)) p))
    | signed a q ↦ signed_sum a (to_int64 b) q
    | _ ↦ throw_type_error
  ])
  add_pair l (double b p) =
      unless_ignored l (double b p)
        (elim l [ double a q ↦ ok (some (double (double_add b a) p)) | _ ↦ throw_type_error ])
  add_pair l (string t p) =
      unless_ignored l (string t p)
        (elim l [ string s q ↦ ok (some (string (s ++ t) p)) | _ ↦ throw_type_error ])
  add_pair l (binary t p) =
      unless_ignored l (binary t p)
        (elim l [ binary s q ↦ ok (some (binary (s ++ t) p)) | _ ↦ throw_type_error ])
  add_pair l (array f cs p) =
      unless_ignored l (array f cs p)
        (elim l [ array g bs q ↦ ok (some (array f (bs ++ₐ cs) p)) | _ ↦ throw_type_error ])
  add_pair l (object ms p) =
      unless_ignored l (object ms p) (elim l [
        | object ns q ↦ ok (some (object (process_object ns ms) p))
        | _ ↦ throw_type_error
      ])
  add_pair l (asterisk c) = ok none
  add_pair l (reference r) = ok none

  -- The loop from `r` on, with `l` before it.
  unfoldable pub add_neighbours : Entry → Entries → Counted Entries
  add_neighbours l no_entry = unchanged (entry l no_entry)
  add_neighbours l (entry r es) = do
    sum ← lift (add_pair l r)
    after_pair l r (λ e. add_neighbours e es) sum

  abbrev pub add_all : Entries → Counted Entries
  add_all no_entry = unchanged no_entry
  add_all (entry e es) = add_neighbours e es

  unfoldable mutual
    pub process_concat : Concat → Counted Concat
    process_concat (concat m es) = do
      fs ← process_entries es
      gs ← add_all fs
      unchanged (concat m gs)

    pub process_entries : Entries → Counted Entries
    process_entries no_entry = unchanged no_entry
    process_entries (entry e es) = do
      f ← process_entry e
      fs ← process_entries es
      unchanged (entry f fs)

    pub process_entry : Entry → Counted Entry
    process_entry (array f cs p) = do ds ← process_array cs; unchanged (array f ds p)
    process_entry (object ms p) = do ns ← process_members ms; unchanged (object ns p)
    process_entry (asterisk c) = do d ← process_concat c; unchanged (asterisk d)
    process_entry e = unchanged e

    pub process_array : Concats → Counted Concats
    process_array no_element = unchanged no_element
    process_array (element c cs) = do
      d ← process_concat c
      ds ← process_array cs
      unchanged (element d ds)

    pub process_members : Members → Counted Members
    process_members no_member = unchanged no_member
    process_members (member key c ms) = do
      d ← process_concat c
      ns ← process_members ms
      unchanged (member key d ns)

  unfoldable pub phase2_additions : ObjectRoot → Counted ObjectRoot
  phase2_additions o = do ms ← process_members o.members; unchanged (record o { members = ms })
