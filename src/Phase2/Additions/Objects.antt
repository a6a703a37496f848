-- ===== src/Phase2/Additions/Objects.antt =====
-- phase2_additions.hpp: what the sum of two objects holds at each key.
use config.Data.Dict.Laws.{
  is_new, start_of, find-upsert_self, find-upsert_ne, upsert-IsOrdered, find-Below,
}
use config.Common.{
  Text, text_compare, text_eq, eq_of_text_eq, Ordering, ◌≡◌, refl, sym, ◌∙◌, ap, subst, inl, inr,
  Bool, Bool-cases, true, false, Option, none, some, Result, ok, value_of,
}
use config.Data.{Concat, Members, no_member, member}
use config.Data.Dict.{find, upsert, upsert_at, Below, IsOrdered}
use config.Phase2.Additions.{splice_member, add_member, process_object}

-- A member of one object is kept, and two members of one key are spliced.
abbrev pub merged : Option Concat → Option Concat → Option Concat
merged none r = r
merged (some c) none = some c
merged (some c) (some d) = some (splice_member c d)

-- What `try_emplace` with the left member is followed by.
abbrev pub spliced : Concat → Bool → Concat → Result Concat
spliced c true d = ok d
spliced c false d = ok (splice_member c d)

pub upsert-add_member :
    (k : Text) (c : Concat) (ms : Members) → upsert k c (spliced c) ms ≡ ok (add_member k c ms)
unfolding upsert add_member
upsert-add_member k c no_member = refl
upsert-add_member k c (member j d ms) = rw (upsert-add_member k c ms) (at_key (text_compare k j))
  where
    at_key :
        (o : Ordering)
        → upsert_at o k c (spliced c) j d ms (ok (add_member k c ms))
          ≡ ok (elim o [
            | Ordering.lt ↦ member k c (member j d ms)
            | Ordering.eq ↦ member j (splice_member c d) ms
            | Ordering.gt ↦ member j d (add_member k c ms)
          ])
    at_key Ordering.lt = refl
    at_key Ordering.eq = refl
    at_key Ordering.gt = refl

find-add_member_self :
    (k : Text) (c : Concat) (ms : Members)
    → IsOrdered ms
    → find k (add_member k c ms) ≡ merged (some c) (find k ms)
find-add_member_self k c ms s =
    let (d, p, q) = find-upsert_self k c (spliced c) ms s (upsert-add_member k c ms) in
    q ∙ found (find k ms) p
  where
    found :
        (o : Option Concat) {d : Concat}
        → spliced c (is_new o) (start_of c o) ≡ ok d
        → some d ≡ merged (some c) o
    found none h = ap some (sym (value_of h))
    found (some b) h = ap some (sym (value_of h))

-- One step of the loop over the left object, at the key of its member and at the others.
merged-add_member :
    (k j : Text) (c : Concat) (l r : Members)
    → Below j l
    → IsOrdered r
    → merged (find k l) (find k (add_member j c r)) ≡ merged (find k (member j c l)) (find k r)
unfolding find
merged-add_member k j c l r b t = elim (Bool-cases (text_eq k j)) [
  | inl e ↦ rw e (at_key (eq_of_text_eq k j e))
  | inr n ↦
      rw n (ap (merged (find k l)) (find-upsert_ne j c (spliced c) r k n (upsert-add_member j c r)))
]
  where
    at_key : k ≡ j → merged (find k l) (find k (add_member j c r)) ≡ merged (some c) (find k r)
    at_key p =
        ap (λ x. merged x (find k (add_member j c r)))
          (find-Below k l (subst (λ x. Below x l) (sym p) b))
        ∙ subst (λ x. find k (add_member x c r) ≡ merged (some c) (find k r)) p
            (find-add_member_self k c r t)

-- The sum of two objects whose keys are in strictly rising order holds, at each key, the member of
-- the object that has it, or the two members spliced.
pub find-process_object :
    (k : Text) (l r : Members)
    → IsOrdered l
    → IsOrdered r
    → find k (process_object l r) ≡ merged (find k l) (find k r)
unfolding process_object find
find-process_object k no_member r s t = refl
find-process_object k (member j c l) r s t =
    find-process_object k l (add_member j c r) (s.1)
      (upsert-IsOrdered j c (spliced c) r t (upsert-add_member j c r))
    ∙ merged-add_member k j c l r (s.0) t
