-- ===== src/Data/Sequence.antt =====
-- The operations of `std::list` that the program uses, on the lists inside the tree.
use config.Common.{ℕ, zero, suc, ◌≡◌, refl, ap, Option, none, some}
use config.Data.{
  Concat, Entries, Concats, Members, no_entry, entry, no_element, element, no_member, member,
}

infixr 66 ◌++ₑ◌ ◌++ₐ◌
abbrev pub ◌++ₑ◌ : Entries → Entries → Entries
no_entry ++ₑ ys = ys
entry e xs ++ₑ ys = entry e (xs ++ₑ ys)

abbrev pub ◌++ₐ◌ : Concats → Concats → Concats
no_element ++ₐ ys = ys
element c xs ++ₐ ys = element c (xs ++ₐ ys)

abbrev pub entries_size : Entries → ℕ
entries_size no_entry = 0
entries_size (entry e es) = suc (entries_size es)

abbrev pub elements_size : Concats → ℕ
elements_size no_element = 0
elements_size (element c cs) = suc (elements_size cs)

abbrev pub members_size : Members → ℕ
members_size no_member = 0
members_size (member k c ms) = suc (members_size ms)

-- The element that `std::next( begin, n )` stands at.
abbrev pub element_at? : Concats → ℕ → Option Concat
element_at? no_element n = none
element_at? (element c cs) zero = some c
element_at? (element c cs) (suc n) = element_at? cs n

pub entries_append_assoc : (xs ys zs : Entries) → (xs ++ₑ ys) ++ₑ zs ≡ xs ++ₑ (ys ++ₑ zs)
entries_append_assoc no_entry ys zs = refl
entries_append_assoc (entry e xs) ys zs = ap (entry e) (entries_append_assoc xs ys zs)

pub entries_append_nil : (xs : Entries) → xs ++ₑ no_entry ≡ xs
entries_append_nil no_entry = refl
entries_append_nil (entry e xs) = ap (entry e) (entries_append_nil xs)

pub elements_append_assoc : (xs ys zs : Concats) → (xs ++ₐ ys) ++ₐ zs ≡ xs ++ₐ (ys ++ₐ zs)
elements_append_assoc no_element ys zs = refl
elements_append_assoc (element c xs) ys zs = ap (element c) (elements_append_assoc xs ys zs)

pub elements_append_nil : (xs : Concats) → xs ++ₐ no_element ≡ xs
elements_append_nil no_element = refl
elements_append_nil (element c xs) = ap (element c) (elements_append_nil xs)
