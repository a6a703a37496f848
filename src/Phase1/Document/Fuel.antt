-- ===== src/Phase1/Document/Fuel.antt =====
-- config_action.hpp: a file that includes itself.
use config.Common.{Text, Position, ℕ, zero, suc, ◌≡◌, refl, Bool, err, out_of_fuel}
use config.Phase1.State.{State}
use config.Phase1.Document.{Document, include_file, member, run_document}
use config.Phase1.Document.Include.{Opened, opened, inc_fn, load_file}

-- A file that begins with the include of itself is included for ever: no fuel is enough.
pub load_file-itself :
    (files : Text → Opened) (name : Text) (optional : Bool) (q : Position) (ms : Document)
    → files name ≡ opened (member (include_file optional name q) ms)
    → (fuel : ℕ) (p : Position) (st : State) → load_file files fuel name p st ≡ err out_of_fuel
unfolding load_file inc_fn run_document
load_file-itself files name optional q ms h zero p st = refl
load_file-itself files name optional q ms h (suc fuel) p st =
    rw (h, load_file-itself files name optional q ms h fuel q) refl
