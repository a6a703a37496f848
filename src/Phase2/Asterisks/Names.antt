-- ===== src/Phase2/Asterisks/Names.antt =====
-- phase2_asterisks.hpp: what an asterisk is replaced by.
use config.Counted.{Counted, lift, lift-eq-ok, >>=-eq-ok as counted-eq-ok}
use config.Common.{
  Text, text_compare, text_eq, eq_of_text_compare, Ordering, ℕ, Bool, true, false, ◌||◌, Bool-cases,
  inl, inr, Option, none, some, List, [], ◌∷◌, ok, >>=-eq-ok, value_of, ◌≡◌, refl, sym, ap, ◌∙◌,
  subst, if◌then◌else◌,
}
use config.Data.{
  Concat, Entries, Concats, Members, array, object, no_entry, entry, no_member, member,
}
use config.Data.Dict.{find}
use config.Data.Sequence.{◌++ₑ◌}
use config.Data.Views.{mark}
use config.Phase2.Asterisks.{
  emplace_name, member_names, spread, star_members, star_entries, process_asterisk,
  process_asterisk_and_array, process_array_and_asterisk,
}

abbrev pub is_found : Option Concat → Bool
is_found none = false
is_found (some c) = true

-- Some object among the entries has the key.
abbrev pub has_key : Text → Entries → Bool
has_key k no_entry = false
has_key k (entry (object ms p) es) = is_found (find k ms) || has_key k es
has_key k (entry e es) = has_key k es

-- The entries with their arrays changed.
abbrev pub with_arrays : (Concats → Concats) → Entries → Entries
with_arrays on no_entry = no_entry
with_arrays on (entry (array f cs p) es) = entry (array f (on cs) p) (with_arrays on es)
with_arrays on (entry e es) = entry e (with_arrays on es)

-- An object with these members, if there are any.
abbrev pub object_of : Concat → Members → Entries
object_of star no_member = no_entry
object_of star (member k c ms) = entry (object (member k c ms) (mark star).position) no_entry

abbrev contains : Text → List Text → Bool
contains k [] = false
contains k (j ∷ names) = text_eq k j || contains k names

twice : (a b : Bool) → a || b ≡ a || (a || b)
twice true b = refl
twice false b = refl

behind : (a b c : Bool) → b || (a || c) ≡ a || (b || c)
behind true true c = refl
behind true false c = refl
behind false b c = refl

grouped : (a b c : Bool) → b || (a || c) ≡ (a || b) || c
grouped true true c = refl
grouped true false c = refl
grouped false b c = refl

contains-emplace_name :
    (k j : Text) (names : List Text)
    → contains k (emplace_name j names) ≡ text_eq k j || contains k names
unfolding emplace_name
contains-emplace_name k j [] = refl
contains-emplace_name k j (i ∷ names) = at (text_compare j i) refl (contains-emplace_name k j names)
  where
    at :
        (o : Ordering)
        → text_compare j i ≡ o
        → contains k (emplace_name j names) ≡ text_eq k j || contains k names
        → contains k (elim o [
          | Ordering.lt ↦ j ∷ i ∷ names
          | Ordering.eq ↦ i ∷ names
          | Ordering.gt ↦ i ∷ emplace_name j names
        ])
          ≡ text_eq k j || (text_eq k i || contains k names)
    at Ordering.lt h ih = refl
    at Ordering.eq h ih =
        subst
          (λ x. text_eq k i || contains k names ≡ text_eq k x || (text_eq k i || contains k names))
          (sym (eq_of_text_compare j i h)) (twice (text_eq k i) (contains k names))
    at Ordering.gt h ih =
        ap (λ b. text_eq k i || b) ih ∙ behind (text_eq k j) (text_eq k i) (contains k names)

found_first :
    (b : Bool) (c : Concat) (o : Option Concat)
    → is_found (if b then some c else o) ≡ b || is_found o
found_first true c o = refl
found_first false c o = refl

contains-member_names :
    (k : Text) (ms : Members) (names : List Text)
    → contains k (member_names ms names) ≡ is_found (find k ms) || contains k names
unfolding find
contains-member_names k no_member names = refl
contains-member_names k (member j c ms) names =
    contains-member_names k ms (emplace_name j names)
    ∙ ap (λ b. is_found (find k ms) || b) (contains-emplace_name k j names)
    ∙ grouped (text_eq k j) (is_found (find k ms)) (contains k names)
    ∙ ap (λ b. b || contains k names) (sym (found_first (text_eq k j) c (find k ms)))

-- What the loop over the entries gives.
abbrev Spread : (Concats → Concats) → Entries → List Text → Entries × List Text → Type 0
Spread on es names (fs, ns) =
    (fs ≡ with_arrays on es) × ((k : Text) → contains k ns ≡ has_key k es || contains k names)

spread-Spread :
    (on : Concats → Concats) (es : Entries) (names : List Text) {r : Entries × List Text}
    → spread on es names ≡ ok r
    → Spread on es names r
unfolding spread
spread-Spread on no_entry names h = subst (Spread on no_entry names) (value_of h) (refl, λ k. refl)
spread-Spread on (entry (array [] cs p) es) names h =
    let ((fs, ns), q, t) = >>=-eq-ok (spread on es names) _ h in
    let (same, keys) = spread-Spread on es names q in
    subst (Spread on (entry (array [] cs p) es) names) (value_of t)
      (ap (entry (array [] (on cs) p)) same, keys)
spread-Spread on (entry (array (x ∷ f) cs p) es) names h = cc
spread-Spread on (entry (object ms p) es) names h =
    let ((fs, ns), q, t) = >>=-eq-ok (spread on es (member_names ms names)) _ h in
    let (same, keys) = spread-Spread on es (member_names ms names) q in
    subst (Spread on (entry (object ms p) es) names) (value_of t) (
      ap (entry (object ms p)) same,
      λ k.
          keys k
          ∙ ap (λ b. has_key k es || b) (contains-member_names k ms names)
          ∙ grouped (is_found (find k ms)) (has_key k es) (contains k names),
    )
spread-Spread on (entry e es) names h =
    let ((fs, ns), q, t) = >>=-eq-ok (spread on es names) _ h in
    let (same, keys) = spread-Spread on es names q in
    subst (Spread on (entry e es) names) (value_of t) (ap (entry e) same, keys)

find-star_members :
    (k : Text) (star : Concat) (names : List Text)
    → find k (star_members star names) ≡ (if contains k names then some star else none)
unfolding find star_members
find-star_members k star [] = refl
find-star_members k star (j ∷ names) = elim (Bool-cases (text_eq k j)) [
  | inl h ↦ rw h refl
  | inr h ↦ rw h (find-star_members k star names)
]

star_entries-object :
    (star : Concat) (names : List Text)
    → star_entries star names ≡ object_of star (star_members star names)
unfolding star_entries star_members
star_entries-object star [] = refl
star_entries-object star (j ∷ names) = refl

either : (a b : Bool) → b || (a || false) ≡ a || b
either true true = refl
either true false = refl
either false true = refl
either false false = refl

-- Where an asterisk is expanded, the arrays before and behind it have the star spread over their
-- elements; in its place stands an object that has, with the star, exactly the keys of the objects in
-- the concat, or nothing where there is no such key.
pub process_asterisk-keys :
    (before : Entries) (star : Concat) (after b a : Entries) (n : ℕ)
    → process_asterisk before star after ≡ ok ((b, a), n)
    → (new : Members) × (b
        ≡ with_arrays (λ cs. process_array_and_asterisk cs star) before ++ₑ object_of star new)
      × (a ≡ with_arrays (process_asterisk_and_array star) after)
      × ((k : Text)
          → find k new ≡ (if has_key k before || has_key k after then some star else none))
unfolding process_asterisk
process_asterisk-keys before star after b a n h =
    let ((b', ns), i, j, t, u, v) =
      counted-eq-ok (lift (spread (λ cs. process_array_and_asterisk cs star) before [])) _ h in
    let ((a', ms), i', j', t', u', v') =
      counted-eq-ok (lift (spread (process_asterisk_and_array star) after ns)) _ u in
    let (same, keys) = spread-Spread _ before [] (lift-eq-ok _ t) in
    let (same', keys') = spread-Spread _ after ns (lift-eq-ok _ t') in
    let (e, e') = parts u' in
    (
      star_members star ms,
      sym e
          ∙ ap (λ x. x ++ₑ star_entries star ms) same
          ∙ ap (λ x. with_arrays (λ cs. process_array_and_asterisk cs star) before ++ₑ x)
              (star_entries-object star ms),
      sym e' ∙ same',
      λ k.
          find-star_members k star ms
          ∙ ap (λ c. if c then some star else none)
              (keys' k
                ∙ ap (λ c. has_key k after || c) (keys k)
                ∙ either (has_key k before) (has_key k after)),
    )
  where
    parts :
        {x y x' y' : Entries} {m l : ℕ}
        → ◌≡◌ {A = Counted (Entries × Entries)} (ok ((x, y), m)) (ok ((x', y'), l))
        → (x ≡ x') × (y ≡ y')
    parts q = (cc, cc)
