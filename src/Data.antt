-- ===== src/Data.antt =====
-- The tree that the phases work on: include/tao/config/internal/{atom,array,object,concat,entry,
-- entry_kind,reference2_part,reference2,constants}.hpp, and the keys of key1_part.hpp.
pub mod Sequence
pub mod Dict
pub mod Kind
pub mod Views
use config.Common.{Text, Position, ℕ, ℤ, Bool, List}

-- A part of a reference is a name, an index or a reference in brackets.
mutual
  pub data Reference2Part : Type 0 where
    name : Text → Position → Reference2Part
    index : ℕ → Position → Reference2Part
    vector : Reference2Parts → Position → Reference2Part

  pub data Reference2Parts : Type 0 where
    no_part : Reference2Parts
    part : Reference2Part → Reference2Parts → Reference2Parts

-- The members of `basic_concat` beside its list.
pub record Mark : Type 0 where
  pub remove : Bool
  pub implicit : Bool
  pub temporary : Bool
  pub generation : ℕ
  pub position : Position

-- An entry holds one alternative of its variant. A double is kept as its 64 bits.
mutual
  pub data Entry : Type 0 where
    null : Position → Entry
    boolean : Bool → Position → Entry
    string : Text → Position → Entry
    binary : Text → Position → Entry
    signed : ℤ → Position → Entry
    unsigned : ℕ → Position → Entry
    double : ℕ → Position → Entry
    array : Text → Concats → Position → Entry
    object : Members → Position → Entry
    asterisk : Concat → Entry
    reference : Reference2Parts → Entry

  pub data Concat : Type 0 where
    concat : Mark → Entries → Concat

  -- std::list< entry >
  pub data Entries : Type 0 where
    no_entry : Entries
    entry : Entry → Entries → Entries

  -- std::list< concat >
  pub data Concats : Type 0 where
    no_element : Concats
    element : Concat → Concats → Concats

  -- std::map< std::string, concat >
  pub data Members : Type 0 where
    no_member : Members
    member : Text → Concat → Members → Members

-- `object` by itself, for the root of the tree.
pub record ObjectRoot : Type 0 where
  pub members : Members
  pub position : Position

-- A part of a key. The shared generation of an `append` part is a value here: see `State`.
pub data Key1Part : Type 0 where
  name : Text → Position → Key1Part
  index : ℕ → Position → Key1Part
  asterisk : Position → Key1Part
  append : ℕ → Position → Key1Part

-- `key1`
abbrev pub KeyPath : Type 0
KeyPath = List Key1Part
