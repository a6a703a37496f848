-- ===== src/Events.antt =====
-- The calls on a consumer of the json library, as repack (phase5_repack.hpp) and the debug output
-- (debug_traits.hpp) make them.
use config.Common.{Text, ℕ, ℤ, Position, Bool, List}
use config.Key.{Key}

-- A call on `to_basic_value`, or `set_key_and_position` on its current value, or on the value that
-- is open at the top of its stack.
pub data Event : Type 0 where
  null : Event
  boolean : Bool → Event
  signed : ℤ → Event
  unsigned : ℕ → Event
  double : ℕ → Event
  string : Text → Event
  binary : Text → Event
  begin_array : ℕ → Event
  end_element : Event
  end_array : ℕ → Event
  begin_object : ℕ → Event
  key : Text → Event
  end_member : Event
  end_object : ℕ → Event
  annotate_value : Key → Position → Event
  annotate_open : Key → Position → Event

abbrev pub Events : Type 0
Events = List Event
