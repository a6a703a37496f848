-- ===== src/Phase2/Everything/Settled.antt =====
-- phase2_everything.hpp: what an iteration without a change says of the tree, and what the loop
-- returns.
use config.Common.{ℕ, zero, suc, ◌≡◌, ap, subst, sym, ◌∙◌, Result, ok, >>=-eq-ok, value_of}
use config.Counted.{>>=-unchanged}
use config.Data.{Entry, ObjectRoot}
use config.Phase2.Functions.{FunctionMap, phase2_functions}
use config.Phase2.Functions.Unchanged.{phase2_functions-unchanged}
use config.Phase2.Additions.{phase2_additions}
use config.Phase2.Additions.Stable.{IsStableObject, phase2_additions-unchanged}
use config.Phase2.References.{phase2_references}
use config.Phase2.References.Unchanged.{phase2_references-unchanged}
use config.Phase2.Asterisks.Unchanged.{phase2_asterisks-unchanged}
use config.Phase2.Everything.{phase2_iteration, phase2_everything, while_changed}

module _ (functions : FunctionMap) (parse_function : Entry → Result Entry) (double_add : ℕ → ℕ → ℕ)
    (depth : ObjectRoot → ℕ) where
  -- An iteration that reports no change has changed nothing, and in the tree, at any depth, of two
  -- neighbours in a concat one is a function, an asterisk or a reference.
  pub phase2_iteration-unchanged :
      (o o' : ObjectRoot)
      → phase2_iteration functions parse_function double_add depth o ≡ ok (o', 0)
      → (o' ≡ o) × IsStableObject o.members
  unfolding phase2_iteration
  phase2_iteration-unchanged o o' h =
      let (a, p, h₁) = >>=-unchanged (phase2_functions functions parse_function o) _ h in
      let (b, q, h₂) = >>=-unchanged (phase2_additions double_add a) _ h₁ in
      let (c, r, h₃) = >>=-unchanged (phase2_references b) _ h₂ in
      let same_a = phase2_functions-unchanged functions parse_function o p in
      let (same_b, stable) = phase2_additions-unchanged double_add a b q in
      let same_c = phase2_references-unchanged b r in
      let same_d = phase2_asterisks-unchanged (depth c) c h₃ in
      (same_d ∙ (same_c ∙ (same_b ∙ same_a)), subst (λ x. IsStableObject x.members) same_a stable)

  abbrev Settled : ObjectRoot → Type 0
  Settled r = phase2_iteration functions parse_function double_add depth r ≡ ok (r, 0)

  while_changed-Settled :
      (o o' r : ObjectRoot) (changes : ℕ)
      → phase2_iteration functions parse_function double_add depth o ≡ ok (o', changes)
      → (again : ObjectRoot → Result ObjectRoot) → ((x : ObjectRoot) → again x ≡ ok r → Settled r)
      → while_changed again o' changes ≡ ok r
      → Settled r
  while_changed-Settled o o' r zero p again ih q =
      let same = (phase2_iteration-unchanged o o' p).0 in
      subst Settled (sym same ∙ value_of q) (p ∙ ap (λ (x : ObjectRoot). ok (x, 0)) same)
  while_changed-Settled o o' r (suc n) p again ih q = ih o' q

  -- What the loop returns is a tree on which one more iteration reports no change.
  pub phase2_everything-settled :
      (fuel : ℕ) (o r : ObjectRoot)
      → phase2_everything functions parse_function double_add depth fuel o ≡ ok r
      → phase2_iteration functions parse_function double_add depth r ≡ ok (r, 0)
  unfolding phase2_everything
  phase2_everything-settled zero o r h = cc
  phase2_everything-settled (suc fuel) o r h =
      let ((o', changes), p, q) =
        >>=-eq-ok (phase2_iteration functions parse_function double_add depth o) _ h in
      while_changed-Settled o o' r changes p
        (phase2_everything functions parse_function double_add depth fuel)
        (λ x. phase2_everything-settled fuel x r) q
