-- ===== src/Data/Dict/Laws.antt =====
-- `try_emplace` on the ordered maps of object.hpp: lookups and the order of the keys.
use config.Common.{
  Text, text_compare, text_eq, text_compare_refl, eq_of_text_compare, text_compare_gt, Ordering,
  ◌≡◌, refl, subst, Bool, true, false, Option, none, some, Result, ok, >>=-eq-ok, value_of, arith,
}
use config.Data.{Concat, Members, no_member, member}
use config.Data.Dict.{find, upsert, upsert_at, Below, IsOrdered, Below-trans}

-- The member that the step starts from, and whether it is new.
abbrev pub start_of : Concat → Option Concat → Concat
start_of d none = d
start_of d (some c) = c

abbrev pub is_new : Option Concat → Bool
is_new none = true
is_new (some c) = false

pub find-Below : (k : Text) (ms : Members) → Below k ms → find k ms ≡ none
unfolding find
find-Below k no_member b = refl
find-Below k (member j c ms) b = ground (arith, find-Below k ms b.1)

-- The step has been made, on the member that was there or on a new one, and gives the member that
-- is found now.
abbrev pub Upserted : Text → Concat → (Bool → Concat → Result Concat) → Members → Members → Type 0
Upserted k d step ms ns =
    (c' : Concat) × (step (is_new (find k ms)) (start_of d (find k ms)) ≡ ok c')
    × (find k ns ≡ some c')

module _ (k : Text) (d : Concat) (step : Bool → Concat → Result Concat) where
  Upserted-new :
      (ms : Members) {c : Concat} (ns : Members)
      → find k ms ≡ none
      → step true d ≡ ok c
      → find k ns ≡ some c
      → Upserted k d step ms ns
  Upserted-new ms {c} ns none_found s f = (c, rw none_found s, f)

  Upserted-old :
      (ms : Members) {b c : Concat} (ns : Members)
      → find k ms ≡ some b
      → step false b ≡ ok c
      → find k ns ≡ some c
      → Upserted k d step ms ns
  Upserted-old ms {b} {c} ns found s f = (c, rw found s, f)

  find_head : (c : Concat) (ms : Members) → find k (member k c ms) ≡ some c
  unfolding find
  find_head c ms = ground (arith, text_compare_refl k)

  Upserted-at :
      (o : Ordering) (j : Text) (c : Concat) (ms : Members) (later : Result Members) {ns : Members}
      → text_compare k j ≡ o
      → IsOrdered (member j c ms)
      → ((ns' : Members) → later ≡ ok ns' → Upserted k d step ms ns')
      → upsert_at o k d step j c ms later ≡ ok ns
      → Upserted k d step (member j c ms) ns
  unfolding find
  Upserted-at Ordering.lt j c ms later e s ih h =
      let (c', p, q) = >>=-eq-ok (step true d) _ h in
      let b = find-Below k (member j c ms) (e, Below-trans k j ms e s.0) in
      Upserted-new (member j c ms) _ b p
        (subst (λ x. find k x ≡ some c') (value_of q) (find_head c' (member j c ms)))
  Upserted-at Ordering.eq j c ms later e s ih h =
      let (c', p, q) = >>=-eq-ok (step false c) _ h in
      Upserted-old (member j c ms) _ (ground arith) p
        (subst (λ x. find k x ≡ some c') (value_of q) (ground arith))
  Upserted-at Ordering.gt j c ms later e s ih h =
      let (ns', p, q) = >>=-eq-ok later _ h in
      let (c', t, f) = ih ns' p in
      let passed : find k (member j c ms) ≡ find k ms = ground arith in
      (c', rw passed t, subst (λ x. find k x ≡ some c') (value_of q) (ground arith))

  -- After `try_emplace` and the step, the key is found with what the step made of the member that
  -- was there, or of a new one.
  pub find-upsert_self :
      (ms : Members) {ns : Members}
      → IsOrdered ms
      → upsert k d step ms ≡ ok ns
      → Upserted k d step ms ns
  unfolding upsert
  find-upsert_self no_member s h =
      let (c', p, q) = >>=-eq-ok (step true d) _ h in
      Upserted-new no_member _ (find-Below k no_member tt) p
        (subst (λ x. find k x ≡ some c') (value_of q) (find_head c' no_member))
  find-upsert_self (member j c ms) s h =
      Upserted-at (text_compare k j) j c ms (upsert k d step ms) refl s
        (λ ns' p. find-upsert_self ms s.1 p) h

  skip_head :
      (i : Text) (c : Concat) (ms : Members)
      → text_eq i k ≡ false
      → find i (member k c ms) ≡ find i ms
  unfolding find
  skip_head i c ms n = ground arith

  other_at :
      (o : Ordering) (j : Text) (c : Concat) (ms : Members) (later : Result Members) {ns : Members}
      (i : Text)
      → text_eq i k ≡ false
      → text_compare k j ≡ o
      → ((ns' : Members) → later ≡ ok ns' → find i ns' ≡ find i ms)
      → upsert_at o k d step j c ms later ≡ ok ns
      → find i ns ≡ find i (member j c ms)
  unfolding find
  other_at Ordering.lt j c ms later i n e ih h =
      let (c', p, q) = >>=-eq-ok (step true d) _ h in
      subst (λ x. find i x ≡ find i (member j c ms)) (value_of q) (skip_head i c' (member j c ms) n)
  other_at Ordering.eq j c ms later i n e ih h =
      let (c', p, q) = >>=-eq-ok (step false c) _ h in
      subst (λ x. find i x ≡ find i (member j c ms)) (value_of q)
        (let n' = subst (λ x. text_eq i x ≡ false) (eq_of_text_compare k j e) n in ground arith)
  other_at Ordering.gt j c ms later i n e ih h =
      let (ns', p, q) = >>=-eq-ok later _ h in
      subst (λ x. find i x ≡ find i (member j c ms)) (value_of q) (rw (ih ns' p))

  -- No other key is affected.
  pub find-upsert_ne :
      (ms : Members) (i : Text) {ns : Members}
      → text_eq i k ≡ false
      → upsert k d step ms ≡ ok ns
      → find i ns ≡ find i ms
  unfolding upsert find
  find-upsert_ne no_member i n h =
      let (c', p, q) = >>=-eq-ok (step true d) _ h in
      subst (λ x. find i x ≡ none) (value_of q) (skip_head i c' no_member n)
  find-upsert_ne (member j c ms) i n h =
      other_at (text_compare k j) j c ms (upsert k d step ms) i n refl
        (λ ns' p. find-upsert_ne ms i n p) h

  Below-at :
      (o : Ordering) (j : Text) (c : Concat) (ms : Members) (later : Result Members) {ns : Members}
      (i : Text)
      → text_compare i k ≡ Ordering.lt
      → Below i (member j c ms)
      → ((ns' : Members) → later ≡ ok ns' → Below i ns')
      → upsert_at o k d step j c ms later ≡ ok ns
      → Below i ns
  Below-at Ordering.lt j c ms later i l b ih h =
      let (c', p, q) = >>=-eq-ok (step true d) _ h in subst (Below i) (value_of q) (l, b)
  Below-at Ordering.eq j c ms later i l b ih h =
      let (c', p, q) = >>=-eq-ok (step false c) _ h in subst (Below i) (value_of q) b
  Below-at Ordering.gt j c ms later i l b ih h =
      let (ns', p, q) = >>=-eq-ok later _ h in subst (Below i) (value_of q) (b.0, ih ns' p)

  Below-upsert :
      (ms : Members) {ns : Members} (i : Text)
      → text_compare i k ≡ Ordering.lt
      → Below i ms
      → upsert k d step ms ≡ ok ns
      → Below i ns
  unfolding upsert
  Below-upsert no_member i l b h =
      let (c', p, q) = >>=-eq-ok (step true d) _ h in subst (Below i) (value_of q) (l, tt)
  Below-upsert (member j c ms) i l b h =
      Below-at (text_compare k j) j c ms (upsert k d step ms) i l b
        (λ ns' p. Below-upsert ms i l b.1 p) h

  ordered_at :
      (o : Ordering) (j : Text) (c : Concat) (ms : Members) {ns : Members}
      → text_compare k j ≡ o
      → IsOrdered (member j c ms)
      → ((ns' : Members) → upsert k d step ms ≡ ok ns' → IsOrdered ns')
      → upsert_at o k d step j c ms (upsert k d step ms) ≡ ok ns
      → IsOrdered ns
  ordered_at Ordering.lt j c ms e s ih h =
      let (c', p, q) = >>=-eq-ok (step true d) _ h in
      subst IsOrdered (value_of q) ((e, Below-trans k j ms e s.0), s)
  ordered_at Ordering.eq j c ms e s ih h =
      let (c', p, q) = >>=-eq-ok (step false c) _ h in subst IsOrdered (value_of q) s
  ordered_at Ordering.gt j c ms e s ih h =
      let (ns', p, q) = >>=-eq-ok (upsert k d step ms) _ h in
      subst IsOrdered (value_of q) (Below-upsert ms j (text_compare_gt k j e) s.0 p, ih ns' p)

  -- The keys stay in strictly rising order, and so each is there once.
  pub upsert-IsOrdered :
      (ms : Members) {ns : Members} → IsOrdered ms → upsert k d step ms ≡ ok ns → IsOrdered ns
  unfolding upsert
  upsert-IsOrdered no_member s h =
      let (c', p, q) = >>=-eq-ok (step true d) _ h in subst IsOrdered (value_of q) (tt, tt)
  upsert-IsOrdered (member j c ms) s h =
      ordered_at (text_compare k j) j c ms refl s (λ ns' p. upsert-IsOrdered ms s.1 p) h
