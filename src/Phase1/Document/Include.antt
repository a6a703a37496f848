-- ===== src/Phase1/Document/Include.antt =====
-- config_action.hpp: the action `inc_fn`, and the files that include one another.
use config.Common.{
  Text, Position, ℕ, zero, suc, Bool, Result, ok, err, parse_error, out_of_fuel, include_error,
  include_optional_error, if◌then◌else◌,
}
use config.Phase1.State.{State}
use config.Phase1.Document.{Document, run_document}

-- What `pegtl::file_input` gives for a name: the file, here as it parses, or a system_error, with
-- whether it is ENOENT and its text.
pub data Opened : Type 0 where
  opened : Document → Opened
  failed : Bool → Text → Opened

-- `parse` is parse_nested. Its errors keep their own position; the one of the `include` that PEGTL
-- adds to them is left out.
unfoldable pub inc_fn : (Document → State → Result State) → Opened → Position → State → Result State
inc_fn parse (opened ms) p st = parse ms st
inc_fn parse (failed missing what) p st =
    if st.include_is_optional
    then if missing then ok st else err (parse_error (include_optional_error what) p)
    else err (parse_error (include_error what) p)

-- On fuel for the nesting of the files.
unfoldable pub load_file : (Text → Opened) → ℕ → Text → Position → State → Result State
unfolding inc_fn run_document
load_file files zero name p st = err out_of_fuel
load_file files (suc fuel) name p st =
    inc_fn (run_document (load_file files fuel)) (files name) p st
