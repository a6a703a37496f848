-- ===== src/Pipeline/Finish.antt =====
-- config_parser.hpp: `finish` never reaches what the third and fifth phase take for unreachable.
use config.Common.{ℕ, ◌≡◌, Result, ok, Succeeds}
use config.Data.{Entry, ObjectRoot}
use config.Phase2.Functions.{FunctionMap}
use config.Phase2.Everything.{phase2_everything}
use config.Phase2.Everything.Settled.{phase2_iteration-unchanged, phase2_everything-settled}
use config.Phase3.{remove_root}
use config.Phase3.Packed.{remove_root-IsPacked}
use config.Phase5.{repack_root}
use config.Phase5.Packed.{repack_root-Succeeds}

module _ (functions : FunctionMap) (parse_function : Entry → Result Entry) (double_add : ℕ → ℕ → ℕ)
    (depth : ObjectRoot → ℕ) where
  -- If the second phase returns a tree and the third phase accepts it, then the fifth phase
  -- succeeds: its assertion holds, and none of its exceptions is thrown.
  pub repack_root-after_phases :
      (fuel : ℕ) (o p r : ObjectRoot)
      → phase2_everything functions parse_function double_add depth fuel o ≡ ok p
      → remove_root p ≡ ok r
      → Succeeds (repack_root r)
  repack_root-after_phases fuel o p r h k =
      let settled =
        phase2_everything-settled functions parse_function double_add depth fuel o p h in
      let (same, stable) =
        phase2_iteration-unchanged functions parse_function double_add depth p p settled in
      repack_root-Succeeds r (remove_root-IsPacked p stable k)
