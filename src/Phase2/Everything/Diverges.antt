-- ===== src/Phase2/Everything/Diverges.antt =====
-- phase2_everything.hpp: a configuration that the loop never comes to an end with.
use config.Common.{Text, bytes, text_eq, ℕ, ◌≡◌, false, Position}
use config.Data.{
  Concat, ObjectRoot, Reference2Part, Mark, string, array, reference, concat, no_entry, entry,
  no_element, element, no_member, member, no_part, part,
}
use config.Phase2.Functions.{FunctionMap}
use config.Phase2.Functions.Builtin.{System}

-- (parse s + (n)), where (n) is a reference
abbrev pub call_on_sum : Text → Text → Mark → Position → Concat
call_on_sum s n m p = concat m (
    entry
      (array (bytes "parse")
        (element
          (concat m (
            entry (string s p)
              (entry (reference (part (Reference2Part.name n p) no_part)) no_entry)))
          no_element)
        p)
      no_entry)

-- k = (parse s + (n))
abbrev pub parses_sum : Text → Text → Text → Mark → Position → ObjectRoot
parses_sum k s n m p = record { members = member k (call_on_sum s n m p) no_member; position = p }

module _ (sys : System) (functions : FunctionMap) (double_add : ℕ → ℕ → ℕ) (depth : ObjectRoot → ℕ)
    (k s n : Text) (m : Mark) (p : Position) (other : text_eq n k ≡ false) where
  abbrev root : ObjectRoot
  root = parses_sum k s n m p
