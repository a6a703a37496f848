-- ===== src/Phase2/Asterisks/Depth.antt =====
-- phase2_asterisks.hpp: the depth of the tree is fuel enough.
use config.Common.{ℕ, zero, suc, max, ◌≤◌, ◌≡◌, err, out_of_fuel, arith}
use config.Data.{
  Entry, Concat, Entries, Concats, Members, ObjectRoot, array, object, asterisk, concat, no_entry,
  entry, no_element, element, no_member, member,
}
use config.Phase2.Asterisks.{process_members, process_concat, phase2_asterisks}
use config.Phase2.Asterisks.Fits.{Fits, FitsEntries, FitsEntry, FitsArray, FitsObject}
use config.Phase2.Asterisks.Runs.{>>=-Runs, process_concat-Runs, process_members-Runs, not_fuel}

-- How deep concats are nested.
unfoldable mutual
  pub depth : Concat → ℕ
  depth (concat m es) = suc (depth_entries es)

  pub depth_entries : Entries → ℕ
  depth_entries no_entry = 0
  depth_entries (entry e es) = max (depth_entry e) (depth_entries es)

  pub depth_entry : Entry → ℕ
  depth_entry (array f cs p) = depth_array cs
  depth_entry (object ms p) = depth_object ms
  depth_entry (asterisk c) = depth c
  depth_entry _ = 0

  pub depth_array : Concats → ℕ
  depth_array no_element = 0
  depth_array (element c cs) = max (depth c) (depth_array cs)

  pub depth_object : Members → ℕ
  depth_object no_member = 0
  depth_object (member k c ms) = max (depth c) (depth_object ms)

mutual
  unfolding depth Fits

  depth-Fits : (n : ℕ) (c : Concat) → depth c ≤ n → Fits n c
  depth-Fits zero (concat m es) l = absurd (omega arith)
  depth-Fits (suc n) (concat m es) l = depth_entries-Fits n es (omega arith)

  depth_entries-Fits : (n : ℕ) (es : Entries) → depth_entries es ≤ n → FitsEntries n es
  depth_entries-Fits n no_entry l = tt
  depth_entries-Fits n (entry e es) l =
      (depth_entry-Fits n e (omega arith), depth_entries-Fits n es (omega arith))

  depth_entry-Fits : (n : ℕ) (e : Entry) → depth_entry e ≤ n → FitsEntry n e
  depth_entry-Fits n (array f cs p) l = depth_array-Fits n cs l
  depth_entry-Fits n (object ms p) l = depth_object-Fits n ms l
  depth_entry-Fits n (asterisk c) l = depth-Fits n c l
  depth_entry-Fits n _ l = tt

  depth_array-Fits : (n : ℕ) (cs : Concats) → depth_array cs ≤ n → FitsArray n cs
  depth_array-Fits n no_element l = tt
  depth_array-Fits n (element c cs) l =
      (depth-Fits n c (omega arith), depth_array-Fits n cs (omega arith))

  depth_object-Fits : (n : ℕ) (ms : Members) → depth_object ms ≤ n → FitsObject n ms
  depth_object-Fits n no_member l = tt
  depth_object-Fits n (member k c ms) l =
      (depth-Fits n c (omega arith), depth_object-Fits n ms (omega arith))

-- With fuel for the depth of the tree, a pass over the asterisks does not run out of it.
pub phase2_asterisks-depth :
    (fuel : ℕ) (o : ObjectRoot)
    → depth_object o.members ≤ fuel
    → ¬ (phase2_asterisks fuel o ≡ err out_of_fuel)
unfolding phase2_asterisks
phase2_asterisks-depth fuel o l = not_fuel _ (
    >>=-Runs (process_members (process_concat fuel) o.members) _
      (process_members-Runs fuel (process_concat fuel) (process_concat-Runs fuel) o.members
        (depth_object-Fits fuel o.members l))
      (λ ms k t. tt))
