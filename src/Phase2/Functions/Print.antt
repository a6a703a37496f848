-- ===== src/Phase2/Functions/Print.antt =====
-- `print_function` of function_implementations.hpp.
use config.Common.{Text, Position, ◌≡◌, refl, true, Succeeds, ◌↔◌, [], >>=-eq-ok}
use config.Data.{Concat, array, element, no_element}
use config.Statistics.{concat_is_primitive}
use config.Phase5.{phase5_repack}
use config.Phase5.Packed.{IsPacked, phase5_repack_iff}
use config.Phase2.Functions.Builtin.{System, print_function, print_primitive}

printed_iff : (sys : System) (c : Concat) → Succeeds (print_primitive sys c true) ↔ IsPacked c
unfolding print_primitive
printed_iff sys c = (
  λ h.
      let (es, t, u) = >>=-eq-ok (phase5_repack [] c) _ (h.1) in (phase5_repack_iff [] c).0 (es, t),
  λ k. let (es, q) = (phase5_repack_iff [] c).1 k in rw q (_, refl),
)

-- `print` of one argument that is primitive succeeds exactly when every concat in the argument, at
-- any depth, holds one entry; so it fails where a member of an object in it is empty, as after a
-- `delete`.
pub print_function-primitive :
    (sys : System) (f : Text) (c : Concat) (p : Position)
    → concat_is_primitive c ≡ true
    → Succeeds (print_function sys (array f (element c no_element) p)) ↔ IsPacked c
unfolding print_function
print_function-primitive sys f c p h = rw h (printed_iff sys c)
