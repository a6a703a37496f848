-- ===== src/Pipeline.antt =====
-- config_parser.hpp: from the parsed files to the calls that make the value.
pub mod Finish
use config.Common.{Text, ℕ, List, [], ◌∷◌, Result, ok, ◌>>=◌}
use config.Counted.{Counted}
use config.Data.{Entry, ObjectRoot}
use config.Events.{Events}
use config.Phase1.State.{State, initial}
use config.Phase1.Document.{Document, run_document}
use config.Phase1.Document.Include.{Opened, load_file}
use config.Phase2.Functions.{FunctionMap}
use config.Phase2.Everything.{phase2_everything}
use config.Phase3.{remove_root}
use config.Phase5.{repack_root}

-- One `parse` for each file, on the same state; `files` and `nesting` are for included files.
unfoldable pub parse_all : (Text → Opened) → ℕ → List Document → State → Result State
unfolding run_document load_file
parse_all files nesting [] st = ok st
parse_all files nesting (d ∷ ds) st = do
  st' ← run_document (load_file files nesting) d st
  parse_all files nesting ds st'

module _ (functions : FunctionMap) (parse_function : Entry → Result Entry) (double_add : ℕ → ℕ → ℕ)
    (depth : ObjectRoot → ℕ) where
  unfoldable pub finish : ℕ → State → Result Events
  finish fuel st = do
    o ← phase2_everything functions parse_function double_add depth fuel st.root
    p ← remove_root o
    repack_root p

  -- basic_from_files, on what the files parse to
  unfoldable pub from_files : (Text → Opened) → ℕ → ℕ → List Document → Result Events
  unfolding parse_all finish
  from_files files nesting fuel ds = do st ← parse_all files nesting ds initial; finish fuel st
