-- ===== src/Phase2/References/Measure.antt =====
-- phase2_references.hpp: each change takes one reference out of the tree.
use config.Data.{
  KeyPath, Entry, Concat, Entries, Concats, Members, ObjectRoot, Reference2Parts, array, object,
  asterisk, reference, concat, no_entry, entry, no_element, element, no_member, member,
}
use config.Common.{
  ℕ, suc, ◌+◌, ◌≡◌, refl, ap, ◌∙◌, Option, none, some, Result, ok, err, arith, [], >>=-eq-ok,
}
use config.Counted.{unchanged, changed, unchanged-eq-ok, lift, >>=-eq-ok as counted-eq-ok}
use config.Statistics.Primitive.{
  IsPrimitive, ArePrimitive, IsPrimitiveEntry, IsPrimitiveArray, IsPrimitiveObject,
  concat_is_primitive-IsPrimitive,
}
use config.Phase2.Access.Scopes.{access_root-found}
use config.Phase2.References.{
  pop_back, access_suffix, collect_suffix, process_reference_parts, replace_reference,
  process_entry, process_concat, process_entries, process_array, process_members, phase2_references,
}

-- The references in a tree, at any depth.
mutual
  pub references_in : Concat → ℕ
  references_in (concat m es) = references_entries es

  pub references_entries : Entries → ℕ
  references_entries no_entry = 0
  references_entries (entry e es) = references_entry e + references_entries es

  pub references_entry : Entry → ℕ
  references_entry (array f cs p) = references_array cs
  references_entry (object ms p) = references_object ms
  references_entry (asterisk c) = references_in c
  references_entry (reference r) = 1
  references_entry _ = 0

  pub references_array : Concats → ℕ
  references_array no_element = 0
  references_array (element c cs) = references_in c + references_array cs

  pub references_object : Members → ℕ
  references_object no_member = 0
  references_object (member k c ms) = references_in c + references_object ms

mutual
  unfolding references_in

  primitive_concat : (c : Concat) → IsPrimitive c → references_in c ≡ 0
  primitive_concat (concat m es) h = primitive_entries es h.1

  primitive_entries : (es : Entries) → ArePrimitive es → references_entries es ≡ 0
  primitive_entries no_entry h = refl
  primitive_entries (entry e es) h = omega (arith, primitive_entry e h.0, primitive_entries es h.1)

  primitive_entry : (e : Entry) → IsPrimitiveEntry e → references_entry e ≡ 0
  primitive_entry (array f cs p) h = primitive_array cs h.1
  primitive_entry (object ms p) h = primitive_object ms h
  primitive_entry (asterisk c) h = absurd h
  primitive_entry (reference r) h = absurd h
  primitive_entry _ h = refl

  primitive_array : (cs : Concats) → IsPrimitiveArray cs → references_array cs ≡ 0
  primitive_array no_element h = refl
  primitive_array (element c cs) h = omega (arith, primitive_concat c h.0, primitive_array cs h.1)

  primitive_object : (ms : Members) → IsPrimitiveObject ms → references_object ms ≡ 0
  primitive_object no_member h = refl
  primitive_object (member k c ms) h =
      omega (arith, primitive_concat c h.0, primitive_object ms h.1)

-- What a reference is replaced by has been found by the lookup, so it is primitive.
suffix-IsPrimitive :
    (o : ObjectRoot) (prefix : KeyPath) (s : Option KeyPath) {d : Concat}
    → access_suffix o prefix s ≡ ok (some d)
    → IsPrimitive d
suffix-IsPrimitive o prefix none h = cc
suffix-IsPrimitive o prefix (some suffix) {d} h =
    let (scope, p, q) = >>=-eq-ok (pop_back prefix) _ h in
    let (k, l, r, t) = access_root-found o scope suffix q in (concat_is_primitive-IsPrimitive d).0 t

parts-IsPrimitive :
    (o : ObjectRoot) (prefix : KeyPath) (r : Reference2Parts) {d : Concat}
    → process_reference_parts o prefix r ≡ ok (some d)
    → IsPrimitive d
unfolding process_reference_parts
parts-IsPrimitive o prefix r h =
    let (s, p, q) = >>=-eq-ok (collect_suffix o prefix r) _ h in suffix-IsPrimitive o prefix s q

count_same :
    (e : Entry) {f : Entry} {n : ℕ}
    → unchanged e ≡ ok (f, n)
    → references_entry f + n ≡ references_entry e
count_same e h = ground arith

count_changed :
    (g : Entry) {f : Entry} {n : ℕ}
    → references_entry g ≡ 0
    → changed g ≡ ok (f, n)
    → references_entry f + n ≡ 1
count_changed g z h = ground arith

replaced_count :
    (r : Reference2Parts) (found : Option Concat) {f : Entry} {n : ℕ}
    → ((d : Concat) → found ≡ some d → IsPrimitive d)
    → replace_reference (reference r) found ≡ ok (f, n)
    → references_entry f + n ≡ 1
unfolding replace_reference references_in
replaced_count r none p h = count_same (reference r) h
replaced_count r (some (concat m no_entry)) p h = count_same (reference r) h
replaced_count r (some (concat m (entry g no_entry))) p h =
    let zero_refs = primitive_entry g (p (concat m (entry g no_entry)) refl).1.0 in
    count_changed g zero_refs h
replaced_count r (some (concat m (entry g (entry k es)))) p h = cc

lift-eq-ok {ℓ} :
    {A : Type ℓ} (m : Result A) {a : A} {n : ℕ} → lift m ≡ ok (a, n) → (m ≡ ok a) × (n ≡ 0)
lift-eq-ok (ok a) h = (cc, ground arith)
lift-eq-ok (err e) h = cc

mutual
  unfolding process_concat references_in

  entry_counted :
      (k : KeyPath) (e : Entry) (plug : Entry → ObjectRoot) {f : Entry} {n : ℕ}
      → process_entry k e plug ≡ ok (f, n)
      → references_entry f + n ≡ references_entry e
  entry_counted k (array g cs p) plug h =
      let (ds, i, j, q, r, t) = counted-eq-ok (process_array k 0 cs _) _ h in
      let (same, j0) = unchanged-eq-ok r in
      omega (arith, ap references_entry same, array_counted k 0 cs _ q)
  entry_counted k (object ms p) plug h =
      let (ns, i, j, q, r, t) = counted-eq-ok (process_members k ms _) _ h in
      let (same, j0) = unchanged-eq-ok r in
      omega (arith, ap references_entry same, members_counted k ms _ q)
  entry_counted k (reference r) plug h =
      let (found, i, j, p, q, t) = counted-eq-ok (lift (process_reference_parts _ k r)) _ h in
      let (found_eq, i0) = lift-eq-ok (process_reference_parts _ k r) p in
      omega (arith, replaced_count r found (λ d e. parts-IsPrimitive _ k r (found_eq ∙ ap ok e)) q)
  entry_counted k e plug h = count_same e h

  concat_counted :
      (k : KeyPath) (c : Concat) (plug : Concat → ObjectRoot) {d : Concat} {n : ℕ}
      → process_concat k c plug ≡ ok (d, n)
      → references_in d + n ≡ references_in c
  concat_counted k (concat m es) plug h =
      let (fs, i, j, q, r, t) = counted-eq-ok (process_entries k es _) _ h in
      let (same, j0) = unchanged-eq-ok r in
      omega (arith, ap references_in same, entries_counted k es _ q)

  entries_counted :
      (k : KeyPath) (es : Entries) (plug : Entries → ObjectRoot) {fs : Entries} {n : ℕ}
      → process_entries k es plug ≡ ok (fs, n)
      → references_entries fs + n ≡ references_entries es
  entries_counted k no_entry plug h =
      let (same, j0) = unchanged-eq-ok h in omega (arith, ap references_entries same)
  entries_counted k (entry e es) plug h =
      let (f, i, j, p, q, t) = counted-eq-ok (process_entry k e _) _ h in
      let (fs, i', j', p', q', t') = counted-eq-ok (process_entries k es _) _ q in
      let (same, j0) = unchanged-eq-ok q' in
      omega (arith, ap references_entries same, entry_counted k e _ p, entries_counted k es _ p')

  array_counted :
      (k : KeyPath) (i : ℕ) (cs : Concats) (plug : Concats → ObjectRoot) {ds : Concats} {n : ℕ}
      → process_array k i cs plug ≡ ok (ds, n)
      → references_array ds + n ≡ references_array cs
  array_counted k i no_element plug h =
      let (same, j0) = unchanged-eq-ok h in omega (arith, ap references_array same)
  array_counted k i (element c cs) plug h =
      let (d, a, j, p, q, t) = counted-eq-ok (process_concat _ c _) _ h in
      let (ds, a', j', p', q', t') = counted-eq-ok (process_array k (suc i) cs _) _ q in
      let (same, j0) = unchanged-eq-ok q' in
      omega
        (arith, ap references_array same, concat_counted _ c _ p, array_counted k (suc i) cs _ p')

  members_counted :
      (k : KeyPath) (ms : Members) (plug : Members → ObjectRoot) {ns : Members} {n : ℕ}
      → process_members k ms plug ≡ ok (ns, n)
      → references_object ns + n ≡ references_object ms
  members_counted k no_member plug h =
      let (same, j0) = unchanged-eq-ok h in omega (arith, ap references_object same)
  members_counted k (member x c ms) plug h =
      let (d, a, j, p, q, t) = counted-eq-ok (process_concat _ c _) _ h in
      let (ns, a', j', p', q', t') = counted-eq-ok (process_members k ms _) _ q in
      let (same, j0) = unchanged-eq-ok q' in
      omega (arith, ap references_object same, concat_counted _ c _ p, members_counted k ms _ p')

-- A pass takes out of the tree exactly as many references as it reports changes: what replaces a
-- reference has no reference in it.
pub references-phase2_references :
    (o o' : ObjectRoot) (n : ℕ)
    → phase2_references o ≡ ok (o', n)
    → references_object o'.members + n ≡ references_object o.members
unfolding phase2_references
references-phase2_references o o' n h =
    let (ms, i, j, p, q, t) = counted-eq-ok (process_members [] o.members _) _ h in
    let (same, j0) = unchanged-eq-ok q in
    omega (
      arith,
      ap (λ (x : ObjectRoot). references_object x.members) same,
      members_counted [] o.members _ p,
    )
