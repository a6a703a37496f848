-- ===== src/Phase3/Again.antt =====
-- phase3_remove.hpp on its own result.
use config.Common.{
  Text, ◌≡◌, refl, subst, Bool-cases, inl, inr, Result, ok, >>=-eq-ok, value_of, [], ◌∷◌,
  if◌then◌else◌,
}
use config.Data.{
  Entry, Concat, Entries, Concats, Members, ObjectRoot, null, array, object, asterisk, reference,
  concat, no_entry, entry, no_element, element, no_member, member,
}
use config.Data.Views.{omit_from_final_result}
use config.Phase3.{
  phase3_remove, remove_entry, remove_entries, remove_array, remove_object, remove_root,
}
use config.Phase3.Packed.{unresolved_fails}

abbrev Fixed {ℓ} : {A : Type ℓ} → (A → Result A) → A → Type ℓ
Fixed f a = f a ≡ ok a

element-Fixed :
    (d : Concat) (ds : Concats)
    → Fixed phase3_remove d
    → Fixed remove_array ds
    → Fixed remove_array (if omit_from_final_result d then ds else element d ds)
unfolding remove_array
element-Fixed d ds h k = elim (Bool-cases (omit_from_final_result d)) [
  | inl o ↦ rw o k
  | inr o ↦ rw o (rw h (rw k (rw o)))
]

member-Fixed :
    (n : Text) (d : Concat) (ms : Members)
    → Fixed phase3_remove d
    → Fixed remove_object ms
    → Fixed remove_object (if omit_from_final_result d then ms else member n d ms)
unfolding remove_object
member-Fixed n d ms h k = elim (Bool-cases (omit_from_final_result d)) [
  | inl o ↦ rw o k
  | inr o ↦ rw o (rw h (rw k (rw o)))
]

mutual
  unfolding phase3_remove

  concat_again : (c : Concat) {d : Concat} → phase3_remove c ≡ ok d → Fixed phase3_remove d
  concat_again (concat m es) h =
      let (fs, p, q) = >>=-eq-ok (remove_entries es) _ h in
      subst (Fixed phase3_remove) (value_of q) (rw (entries_again es p))

  entries_again :
      (es : Entries) {fs : Entries} → remove_entries es ≡ ok fs → Fixed remove_entries fs
  entries_again no_entry h = subst (Fixed remove_entries) (value_of h) refl
  entries_again (entry e es) h =
      let (f, p, q) = >>=-eq-ok (remove_entry e) _ h in
      let (fs, r, t) = >>=-eq-ok (remove_entries es) _ q in
      subst (Fixed remove_entries) (value_of t) (rw (entry_again e p) (rw (entries_again es r)))

  entry_again : (e : Entry) {f : Entry} → remove_entry e ≡ ok f → Fixed remove_entry f
  entry_again (array [] cs p) h =
      let (ds, q, r) = >>=-eq-ok (remove_array cs) _ h in
      subst (Fixed remove_entry) (value_of r) (rw (array_again cs q))
  entry_again (array (x ∷ g) cs p) h = cc
  entry_again (object ms p) h =
      let (ns, q, r) = >>=-eq-ok (remove_object ms) _ h in
      subst (Fixed remove_entry) (value_of r) (rw (object_again ms q))
  entry_again (asterisk c) h = cc
  entry_again (reference r) h = absurd (unresolved_fails r h)
  entry_again (null p) h = subst (Fixed remove_entry) (value_of h) refl
  entry_again _ h = subst (Fixed remove_entry) (value_of h) refl

  array_again : (cs : Concats) {ds : Concats} → remove_array cs ≡ ok ds → Fixed remove_array ds
  array_again no_element h = subst (Fixed remove_array) (value_of h) refl
  array_again (element c cs) h =
      let (d, p, q) = >>=-eq-ok (phase3_remove c) _ h in
      let (ds, r, t) = >>=-eq-ok (remove_array cs) _ q in
      subst (Fixed remove_array) (value_of t)
        (element-Fixed d ds (concat_again c p) (array_again cs r))

  object_again : (ms : Members) {ns : Members} → remove_object ms ≡ ok ns → Fixed remove_object ns
  object_again no_member h = subst (Fixed remove_object) (value_of h) refl
  object_again (member k c ms) h =
      let (d, p, q) = >>=-eq-ok (phase3_remove c) _ h in
      let (ns, r, t) = >>=-eq-ok (remove_object ms) _ q in
      subst (Fixed remove_object) (value_of t)
        (member-Fixed k d ns (concat_again c p) (object_again ms r))

-- On its own result the third phase removes nothing and reports no error.
pub remove_root-again :
    (o : ObjectRoot) {r : ObjectRoot} → remove_root o ≡ ok r → remove_root r ≡ ok r
unfolding remove_root
remove_root-again o h =
    let (ms, p, q) = >>=-eq-ok (remove_object o.members) _ h in
    subst (Fixed remove_root) (value_of q) (rw (object_again o.members p))
