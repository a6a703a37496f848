-- ===== src/Phase2/Everything.antt =====
-- phase2_everything.hpp: the passes of the second phase, in the order of the text, until an
-- iteration changes nothing.
pub mod Settled
pub mod Diverges
use config.Common.{ℕ, zero, suc, Result, ok, err, out_of_fuel, ◌>>=◌ as ◌>>=ᵣ◌}
use config.Counted.{Counted, ◌>>=◌}
use config.Data.{Entry, ObjectRoot}
use config.Phase2.Functions.{FunctionMap, phase2_functions}
use config.Phase2.Additions.{phase2_additions}
use config.Phase2.References.{phase2_references}
use config.Phase2.Asterisks.{phase2_asterisks}

-- The test of the loop, with the rest of the loop.
abbrev pub while_changed : (ObjectRoot → Result ObjectRoot) → ObjectRoot → ℕ → Result ObjectRoot
while_changed again o zero = ok o
while_changed again o (suc n) = again o

-- `depth` bounds the depth of the tree for the pass over the asterisks.
module _ (functions : FunctionMap) (parse_function : Entry → Result Entry) (double_add : ℕ → ℕ → ℕ)
    (depth : ObjectRoot → ℕ) where
  unfoldable pub phase2_iteration : ObjectRoot → Counted ObjectRoot
  phase2_iteration o = do
    a ← phase2_functions functions parse_function o
    b ← phase2_additions double_add a
    c ← phase2_references b
    phase2_asterisks (depth c) c

  -- The loop, on fuel for its iterations.
  unfoldable pub phase2_everything : ℕ → ObjectRoot → Result ObjectRoot
  phase2_everything zero o = err out_of_fuel
  phase2_everything (suc fuel) o =
      phase2_iteration o >>=ᵣ λ (o', changes). while_changed (phase2_everything fuel) o' changes
