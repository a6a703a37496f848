-- ===== src/Tests/Functions.antt =====
-- Runs of the functions.
use config.Phase5.Packed.{IsPacked}
use config.Phase2.Functions.Builtin.{print_function, split_words}
use config.Statistics.{count_concat, concat_is_primitive}
use config.Common.{bytes, ℕ, [], ◌∷◌, Bool, ◌≡◌, refl, Succeeds, ◌↔◌, text_eq}
use config.Data.{array, no_element, element}
use config.Tests.{here, one_entry, number, empty_system}
use config.Phase2.Functions.Print.{print_function-primitive}
use config.Phase2.Functions.Split.{split_words-joined, joined, without_space, AreWords}

print_function-primitive_example :
    Succeeds (
      print_function empty_system
        (array (bytes "print") (element (one_entry (number 1)) no_element) here))
    ↔ IsPacked (one_entry (number 1))
unfolding concat_is_primitive count_concat
print_function-primitive_example =
    print_function-primitive empty_system (bytes "print") (one_entry (number 1)) here refl

abbrev is_blank : ℕ → Bool
is_blank c = text_eq (c ∷ []) (bytes " ")

split_words-joined_example :
    (joined is_blank (split_words is_blank 0 0 [] (bytes " ab  c "))
      ≡ without_space is_blank (bytes " ab  c "))
    × AreWords is_blank (bytes " ab  c ") (split_words is_blank 0 0 [] (bytes " ab  c "))
split_words-joined_example = split_words-joined is_blank (bytes " ab  c ")
