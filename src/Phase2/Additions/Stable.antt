-- ===== src/Phase2/Additions/Stable.antt =====
-- phase2_additions.hpp where it reports no change.
use mathlib.Core.Path.{ap₂, subst}
use config.Common.{ℕ, ◌≡◌, refl, ap, ◌∙◌, true, ◌||◌, Option, none, some, Result, ok, err, arith}
use config.Data.{
  Entry, Concat, Entries, Concats, Members, ObjectRoot, null, boolean, array, object, asterisk,
  reference, concat, no_entry, entry, no_element, element, no_member, member,
}
use config.Counted.{Counted, lift, >>=-unchanged, value_eq}
use config.Phase2.Additions.{
  ignore_entry, after_pair, add_pair, add_all, add_neighbours, process_concat, process_entries,
  process_entry, process_array, process_members, phase2_additions,
}

-- Of two neighbours one is a function, an asterisk or a reference.
abbrev pub Separated : Entry → Entries → Type 0
Separated l no_entry = Unit {0}
Separated l (entry r es) = (ignore_entry l || ignore_entry r ≡ true) × Separated r es

abbrev pub AreSeparated : Entries → Type 0
AreSeparated no_entry = Unit {0}
AreSeparated (entry e es) = Separated e es

-- So it is in every concat of the tree.
abbrev mutual
  pub IsStable : Concat → Type 0
  IsStable (concat m es) = AreSeparated es × IsStableEntries es

  pub IsStableEntries : Entries → Type 0
  IsStableEntries no_entry = Unit {0}
  IsStableEntries (entry e es) = IsStableEntry e × IsStableEntries es

  pub IsStableEntry : Entry → Type 0
  IsStableEntry (array f cs p) = IsStableArray cs
  IsStableEntry (object ms p) = IsStableObject ms
  IsStableEntry (asterisk c) = IsStable c
  IsStableEntry _ = Unit {0}

  pub IsStableArray : Concats → Type 0
  IsStableArray no_element = Unit {0}
  IsStableArray (element c cs) = IsStable c × IsStableArray cs

  pub IsStableObject : Members → Type 0
  IsStableObject no_member = Unit {0}
  IsStableObject (member k c ms) = IsStable c × IsStableObject ms

pub after_pair-unchanged :
    (l r : Entry) (next : Entry → Counted Entries) (sum : Option Entry) {fs : Entries}
    → after_pair l r next sum ≡ ok (fs, 0)
    → (sum ≡ none) × (gs : Entries) × (next r ≡ ok (gs, 0)) × (fs ≡ entry l gs)
unfolding after_pair
after_pair-unchanged l r next none h =
    let (gs, p, q) = >>=-unchanged (next r) _ h in (refl, gs, p, cc)
after_pair-unchanged l r next (some r') h = let (gs, p, q) = >>=-unchanged (next r') _ h in cc

lift-none {ℓ} :
    {A : Type ℓ} (m : Result (Option A)) (o : Option A)
    → lift m ≡ ok (o, 0)
    → o ≡ none
    → m ≡ ok none
lift-none (ok a) o h e = cc
lift-none (err x) o h e = cc

module _ (double_add : ℕ → ℕ → ℕ) where
  pub add_pair-none :
      (l r : Entry) → add_pair double_add l r ≡ ok none → ignore_entry l || ignore_entry r ≡ true
  unfolding add_pair
  add_pair-none l (null p) h = cc
  add_pair-none l (boolean b p) h = cc
  add_pair-none l (asterisk c) h = ground arith
  add_pair-none l (reference r) h = ground arith
  add_pair-none l r h = ground arith

  pub add_neighbours-stable :
      (l : Entry) (es fs : Entries)
      → add_neighbours double_add l es ≡ ok (fs, 0)
      → (fs ≡ entry l es) × Separated l es
  unfolding add_neighbours
  add_neighbours-stable l no_entry fs h = (cc, tt)
  add_neighbours-stable l (entry r es) fs h =
      let (sum, q, rest) = >>=-unchanged (lift (add_pair double_add l r)) _ h in
      let (none_sum, gs, t, u) = after_pair-unchanged l r _ sum rest in
      let (same, apart) = add_neighbours-stable r es gs t in
      (u ∙ ap (entry l) same, (add_pair-none l r (lift-none _ sum q none_sum), apart))

  pub add_all-stable :
      (es fs : Entries) → add_all double_add es ≡ ok (fs, 0) → (fs ≡ es) × AreSeparated es
  add_all-stable no_entry fs h = (cc, tt)
  add_all-stable (entry e es) fs h = add_neighbours-stable e es fs h

  mutual
    unfolding process_concat

    concat-IsStable :
        (c d : Concat) → process_concat double_add c ≡ ok (d, 0) → (d ≡ c) × IsStable c
    concat-IsStable (concat m es) d h =
        let (fs, p, h') = >>=-unchanged (process_entries double_add es) _ h in
        let (gs, q, r) = >>=-unchanged (add_all double_add fs) _ h' in
        let (same, stable) = entries-stable es fs p in
        let (same', apart) = add_all-stable fs gs q in
        (value_eq r ∙ ap (concat m) (same' ∙ same), (subst AreSeparated same apart, stable))

    entries-stable :
        (es fs : Entries)
        → process_entries double_add es ≡ ok (fs, 0)
        → (fs ≡ es) × IsStableEntries es
    entries-stable no_entry fs h = (value_eq h, tt)
    entries-stable (entry e es) fs h =
        let (f, p, h') = >>=-unchanged (process_entry double_add e) _ h in
        let (gs, q, r) = >>=-unchanged (process_entries double_add es) _ h' in
        let (same, stable) = entry-stable e f p in
        let (same', stable') = entries-stable es gs q in
        (value_eq r ∙ ap₂ entry same same', (stable, stable'))

    entry-stable :
        (e f : Entry) → process_entry double_add e ≡ ok (f, 0) → (f ≡ e) × IsStableEntry e
    entry-stable (array g cs p) f h =
        let (ds, q, r) = >>=-unchanged (process_array double_add cs) _ h in
        let (same, stable) = array-stable cs ds q in
        (value_eq r ∙ ap (λ xs. array g xs p) same, stable)
    entry-stable (object ms p) f h =
        let (ns, q, r) = >>=-unchanged (process_members double_add ms) _ h in
        let (same, stable) = members-stable ms ns q in
        (value_eq r ∙ ap (λ xs. object xs p) same, stable)
    entry-stable (asterisk c) f h =
        let (d, q, r) = >>=-unchanged (process_concat double_add c) _ h in
        let (same, stable) = concat-IsStable c d q in (value_eq r ∙ ap asterisk same, stable)
    entry-stable e f h = (value_eq h, tt)

    array-stable :
        (cs ds : Concats) → process_array double_add cs ≡ ok (ds, 0) → (ds ≡ cs) × IsStableArray cs
    array-stable no_element ds h = (value_eq h, tt)
    array-stable (element c cs) ds h =
        let (d, p, h') = >>=-unchanged (process_concat double_add c) _ h in
        let (es, q, r) = >>=-unchanged (process_array double_add cs) _ h' in
        let (same, stable) = concat-IsStable c d p in
        let (same', stable') = array-stable cs es q in
        (value_eq r ∙ ap₂ element same same', (stable, stable'))

    members-stable :
        (ms ns : Members)
        → process_members double_add ms ≡ ok (ns, 0)
        → (ns ≡ ms) × IsStableObject ms
    members-stable no_member ns h = (value_eq h, tt)
    members-stable (member k c ms) ns h =
        let (d, p, h') = >>=-unchanged (process_concat double_add c) _ h in
        let (es, q, r) = >>=-unchanged (process_members double_add ms) _ h' in
        let (same, stable) = concat-IsStable c d p in
        let (same', stable') = members-stable ms es q in
        (value_eq r ∙ ap₂ (member k) same same', (stable, stable'))

  -- A pass that reports no change has changed nothing, and of any two neighbours in a concat of
  -- the tree, at any depth, one is a function, an asterisk or a reference.
  pub phase2_additions-unchanged :
      (o o' : ObjectRoot)
      → phase2_additions double_add o ≡ ok (o', 0)
      → (o' ≡ o) × IsStableObject o.members
  unfolding phase2_additions
  phase2_additions-unchanged o o' h =
      let (ms, p, r) = >>=-unchanged (process_members double_add o.members) _ h in
      let (same, stable) = members-stable o.members ms p in
      (value_eq r ∙ ap (λ xs. record o { members = xs }) same, stable)
