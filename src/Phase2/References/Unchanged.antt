-- ===== src/Phase2/References/Unchanged.antt =====
-- phase2_references.hpp where it reports no change.
use config.Data.{
  KeyPath, Entry, Concat, Entries, Concats, Members, ObjectRoot, array, object, reference, concat,
  no_entry, entry, no_element, element, no_member, member,
}
use mathlib.Core.Path.{ap₂}
use config.Common.{◌≡◌, ap, ◌∙◌, ℕ, suc, [], Option, none, some, ok, arith}
use config.Counted.{lift, >>=-unchanged, value_eq}
use config.Phase2.References.{
  process_reference_parts, replace_reference, process_entry, process_concat, process_entries,
  process_array, process_members, phase2_references,
}

replace_reference-unchanged :
    (e : Entry) (found : Option Concat) {f : Entry} → replace_reference e found ≡ ok (f, 0) → f ≡ e
unfolding replace_reference
replace_reference-unchanged e none h = value_eq h
replace_reference-unchanged e (some (concat m no_entry)) h = value_eq h
replace_reference-unchanged e (some (concat m (entry f no_entry))) h = ground arith
replace_reference-unchanged e (some (concat m (entry f (entry g es)))) h = cc

mutual
  unfolding process_concat

  entry-same :
      (k : KeyPath) (e : Entry) (plug : Entry → ObjectRoot) {f : Entry}
      → process_entry k e plug ≡ ok (f, 0)
      → f ≡ e
  entry-same k (array g cs p) plug h =
      let (ds, q, r) = >>=-unchanged (process_array k 0 cs _) _ h in
      value_eq r ∙ ap (λ xs. array g xs p) (array-same k 0 cs _ q)
  entry-same k (object ms p) plug h =
      let (ns, q, r) = >>=-unchanged (process_members k ms _) _ h in
      value_eq r ∙ ap (λ xs. object xs p) (members-same k ms _ q)
  entry-same k (reference r) plug h =
      let (found, p, q) = >>=-unchanged (lift (process_reference_parts _ k r)) _ h in
      replace_reference-unchanged (reference r) found q
  entry-same k e plug h = value_eq h

  concat-same :
      (k : KeyPath) (c : Concat) (plug : Concat → ObjectRoot) {d : Concat}
      → process_concat k c plug ≡ ok (d, 0)
      → d ≡ c
  concat-same k (concat m es) plug h =
      let (fs, q, r) = >>=-unchanged (process_entries k es _) _ h in
      value_eq r ∙ ap (concat m) (entries-same k es _ q)

  entries-same :
      (k : KeyPath) (es : Entries) (plug : Entries → ObjectRoot) {fs : Entries}
      → process_entries k es plug ≡ ok (fs, 0)
      → fs ≡ es
  entries-same k no_entry plug h = value_eq h
  entries-same k (entry e es) plug h =
      let (f, p, h') = >>=-unchanged (process_entry k e _) _ h in
      let (fs, q, r) = >>=-unchanged (process_entries k es _) _ h' in
      value_eq r ∙ ap₂ entry (entry-same k e _ p) (entries-same k es _ q)

  array-same :
      (k : KeyPath) (i : ℕ) (cs : Concats) (plug : Concats → ObjectRoot) {ds : Concats}
      → process_array k i cs plug ≡ ok (ds, 0)
      → ds ≡ cs
  array-same k i no_element plug h = value_eq h
  array-same k i (element c cs) plug h =
      let (d, p, h') = >>=-unchanged (process_concat _ c _) _ h in
      let (ds, q, r) = >>=-unchanged (process_array k (suc i) cs _) _ h' in
      value_eq r ∙ ap₂ element (concat-same _ c _ p) (array-same k (suc i) cs _ q)

  members-same :
      (k : KeyPath) (ms : Members) (plug : Members → ObjectRoot) {ns : Members}
      → process_members k ms plug ≡ ok (ns, 0)
      → ns ≡ ms
  members-same k no_member plug h = value_eq h
  members-same k (member n c ms) plug h =
      let (d, p, h') = >>=-unchanged (process_concat _ c _) _ h in
      let (ns, q, r) = >>=-unchanged (process_members k ms _) _ h' in
      value_eq r ∙ ap₂ (member n) (concat-same _ c _ p) (members-same k ms _ q)

pub phase2_references-unchanged :
    (o : ObjectRoot) {o' : ObjectRoot} → phase2_references o ≡ ok (o', 0) → o' ≡ o
unfolding phase2_references
phase2_references-unchanged o h =
    let (ms, p, r) = >>=-unchanged (process_members [] o.members _) _ h in
    value_eq r ∙ ap (λ xs. record o { members = xs }) (members-same [] o.members _ p)
