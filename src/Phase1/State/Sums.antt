-- ===== src/Phase1/State/Sums.antt =====
-- concat.hpp: `back_emplace_func` and `back_ensure_init` behind an array.
use config.Common.{Text, Position, ◌≡◌, refl, ap, Result, ok}
use config.Data.{Mark, Entry, Entries, Concats, array, concat, no_entry, entry}
use config.Data.Sequence.{◌++ₑ◌}
use config.Data.Views.{Init, back_ensure_init, ensure_entries, ensure_last}
use config.Phase1.{at_last}
use config.Phase1.State.{back_emplace_func, set_function}

abbrev ending : Entries → Entry → Entries
ending es e = es ++ₑ entry e no_entry

ensure-ending :
    (p : Position) (d : Entry) (es : Entries) (f : Text) (cs : Concats) (q : Position)
    → ensure_last Init.array_init p d (ending es (array f cs q))
      ≡ entry d (ending es (array f cs q))
ensure-ending p d no_entry f cs q = refl
ensure-ending p d (entry e es) f cs q = ap (entry d) (ensure-ending p e es f cs q)

entries-ending :
    (p : Position) (es : Entries) (f : Text) (cs : Concats) (q : Position)
    → ensure_entries Init.array_init p (ending es (array f cs q)) ≡ ending es (array f cs q)
entries-ending p no_entry f cs q = refl
entries-ending p (entry e es) f cs q = ensure-ending p e es f cs q

at_last-ending :
    (step : Entry → Result Entry) (es : Entries) (e e' : Entry)
    → step e ≡ ok e'
    → at_last step (ending es e) ≡ ok (ending es e')
at_last-ending step no_entry e e' h = rw h
at_last-ending step (entry d no_entry) e e' h = rw h
at_last-ending step (entry d (entry d' es)) e e' h = rw (at_last-ending step (entry d' es) e e' h)

-- Behind an array, be it a list or the call of a function, a call adds no entry to the concat: it
-- takes the array over with its elements, and its name replaces the name that is there. A list
-- behind an array or a call adds no entry either, and leaves the name as it is.
pub back_emplace_func-takes_over :
    (m : Mark) (es : Entries) (f g : Text) (cs : Concats) (p q : Position)
    → (back_emplace_func g p (concat m (es ++ₑ entry (array f cs q) no_entry))
        ≡ ok (concat m (es ++ₑ entry (array g cs q) no_entry)))
      × (back_ensure_init Init.array_init p (concat m (es ++ₑ entry (array f cs q) no_entry))
          ≡ concat m (es ++ₑ entry (array f cs q) no_entry))
unfolding back_emplace_func back_ensure_init
back_emplace_func-takes_over m es f g cs p q = (
  rw (entries-ending p es f cs q)
      (rw (at_last-ending (set_function g) es (array f cs q) (array g cs q) refl)),
  ap (concat m) (entries-ending p es f cs q),
)
