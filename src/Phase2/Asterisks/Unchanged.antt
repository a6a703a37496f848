-- ===== src/Phase2/Asterisks/Unchanged.antt =====
-- phase2_asterisks.hpp where it reports no change.
use config.Common.{zero, suc, sym, ℕ, ◌≡◌, ap, ◌∙◌, ok, arith, []}
use config.Counted.{unchanged, Counted, lift, >>=-unchanged, value_eq}
use config.Data.Sequence.{entries_size, entries_append_nil, ◌++ₑ◌, entries_append_assoc}
use config.Data.{
  concat, ObjectRoot, asterisk, Entry, Concat, Entries, Concats, Members, array, object, no_entry,
  entry, no_element, element, no_member, member,
}
use mathlib.Core.Path.{ap₂}
use config.Phase2.Asterisks.{
  process_entry, process_from, process_concat, phase2_asterisks, spread, process_asterisk,
  process_elements, process_members, process_single, process_array_and_asterisk,
  process_asterisk_and_array,
}

process_asterisk-changes :
    (before : Entries) (star : Concat) (after : Entries) {r : Entries × Entries}
    → ¬ (process_asterisk before star after ≡ ok (r, 0))
unfolding process_asterisk
process_asterisk-changes before star after h =
    let ((b, names), p, h') =
      >>=-unchanged (lift (spread (λ cs. process_array_and_asterisk cs star) before [])) _ h in
    let ((a, names'), q, t) =
      >>=-unchanged (lift (spread (process_asterisk_and_array star) after names)) _ h' in
    ground arith

joined : {r s : Entries × Entries} → r ≡ s → r.0 ++ₑ r.1 ≡ s.0 ++ₑ s.1
joined h = ap (λ (r : Entries × Entries). r.0 ++ₑ r.1) h

module _ (rec : Concat → Counted Concat) (same : (c d : Concat) → rec c ≡ ok (d, 0) → d ≡ c) where
  elements-same : (cs : Concats) {ds : Concats} → process_elements rec cs ≡ ok (ds, 0) → ds ≡ cs
  elements-same no_element h = value_eq h
  elements-same (element c cs) h =
      let (d, p, h') = >>=-unchanged (rec c) _ h in
      let (ds, q, r) = >>=-unchanged (process_elements rec cs) _ h' in
      value_eq r ∙ ap₂ element (same c d p) (elements-same cs q)

  members-same : (ms : Members) {ns : Members} → process_members rec ms ≡ ok (ns, 0) → ns ≡ ms
  members-same no_member h = value_eq h
  members-same (member k c ms) h =
      let (d, p, h') = >>=-unchanged (rec c) _ h in
      let (ns, q, r) = >>=-unchanged (process_members rec ms) _ h' in
      value_eq r ∙ ap₂ (member k) (same c d p) (members-same ms q)

  single-same : (e : Entry) {f : Entry} → process_single rec e ≡ ok (f, 0) → f ≡ e
  unfolding process_single
  single-same (array g cs p) h =
      let (ds, q, r) = >>=-unchanged (process_elements rec cs) _ h in
      value_eq r ∙ ap (λ xs. array g xs p) (elements-same cs q)
  single-same (object ms p) h =
      let (ns, q, r) = >>=-unchanged (process_members rec ms) _ h in
      value_eq r ∙ ap (λ xs. object xs p) (members-same ms q)
  single-same e h = value_eq h

  entry-same :
      (before : Entries) (e : Entry) (es : Entries) {b a : Entries}
      → process_entry rec before e es ≡ ok ((b, a), 0)
      → b ++ₑ a ≡ before ++ₑ entry e es
  unfolding process_entry
  entry-same before (asterisk star) es h = absurd (process_asterisk-changes before star es h)
  entry-same no_entry e no_entry h =
      let (f, p, q) =
        >>=-unchanged (process_single rec e) (λ f. unchanged (entry f no_entry, no_entry)) h in
      joined (value_eq q) ∙ ap (λ x. entry x no_entry) (single-same e p)
  entry-same before e es h = joined (value_eq h) ∙ entries_append_assoc before (entry e no_entry) es

  from-same :
      (n : ℕ) (before es : Entries) {fs : Entries}
      → process_from rec n before es ≡ ok (fs, 0)
      → fs ≡ before ++ₑ es
  unfolding process_from
  from-same zero before no_entry h = value_eq h ∙ sym (entries_append_nil before)
  from-same (suc n) before no_entry h = value_eq h ∙ sym (entries_append_nil before)
  from-same zero before (entry e es) h = cc
  from-same (suc n) before (entry e es) h =
      let ((b, a), p, q) = >>=-unchanged (process_entry rec before e es) _ h in
      from-same n b a q ∙ entry-same before e es p

concat-same : (fuel : ℕ) (c d : Concat) → process_concat fuel c ≡ ok (d, 0) → d ≡ c
unfolding process_concat
concat-same zero c d h = cc
concat-same (suc fuel) (concat m es) d h =
    let (fs, p, q) =
      >>=-unchanged (process_from (process_concat fuel) (entries_size es) no_entry es) _ h in
    value_eq q
    ∙ ap (concat m)
        (from-same (process_concat fuel) (concat-same fuel) (entries_size es) no_entry es p)

pub phase2_asterisks-unchanged :
    (fuel : ℕ) (o : ObjectRoot) {o' : ObjectRoot} → phase2_asterisks fuel o ≡ ok (o', 0) → o' ≡ o
unfolding phase2_asterisks
phase2_asterisks-unchanged fuel o h =
    let (ms, p, r) = >>=-unchanged (process_members (process_concat fuel) o.members) _ h in
    value_eq r
    ∙ ap (λ xs. record o { members = xs })
        (members-same (process_concat fuel) (concat-same fuel) o.members p)
