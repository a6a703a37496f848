-- ===== src/Key.antt =====
-- key_part.hpp and key.hpp: the keys of the public interface.
pub mod Spelling
use config.Common.{Text, ℕ, List}

pub data KeyPart : Type 0 where
  name : Text → KeyPart
  index : ℕ → KeyPart

abbrev pub Key : Type 0
Key = List KeyPart
