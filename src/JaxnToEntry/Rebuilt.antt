-- ===== src/JaxnToEntry/Rebuilt.antt =====
-- jaxn_to_entry.hpp: the calls that spell out a JAXN value make that value.
use config.JaxnToEntry.Calls.{IsJaxn, IsJaxnArray, IsJaxnObject, calls, calls_array, calls_object}
use config.Common.{
  Text, text_compare, text_compare_lt, Ordering, Bool, true, Option, some, List, [], ◌∷◌, Position,
  Result, ok, ◌≡◌, refl, sym, ap, ◌∙◌, subst,
}
use config.Data.{
  Entry, Concat, Concats, Members, null, boolean, string, binary, signed, unsigned, double, array,
  object, asterisk, reference, concat, no_entry, entry, no_element, element, no_member, member,
}
use config.Data.Dict.{upsert, Below, IsOrdered}
use config.Data.Sequence.{◌++ₐ◌, elements_append_assoc, elements_append_nil}
use config.Data.Views.{fresh_mark, empty_concat}
use config.JaxnToEntry.{Call, Consumer, consume, consume_all, emplace_value}

-- The value that is left when the elements have been made.
abbrev front : Concat → Option Entry → Option Entry
front (concat m no_entry) v = v
front (concat m (entry e es)) v = some e

abbrev last_element : Concats → Option Entry → Option Entry
last_element no_element v = v
last_element (element c cs) v = last_element cs (front c v)

abbrev last_member : Members → Option Entry → Option Entry
last_member no_member v = v
last_member (member k c ms) v = last_member ms (front c v)

infixr 5 ◌++ₘ◌
abbrev ◌++ₘ◌ : Members → Members → Members
no_member ++ₘ ns = ns
member k c ms ++ₘ ns = member k c (ms ++ₘ ns)

members_append_assoc : (xs ys zs : Members) → (xs ++ₘ ys) ++ₘ zs ≡ xs ++ₘ (ys ++ₘ zs)
members_append_assoc no_member ys zs = refl
members_append_assoc (member k c xs) ys zs = ap (member k c) (members_append_assoc xs ys zs)

members_append_nil : (xs : Members) → xs ++ₘ no_member ≡ xs
members_append_nil no_member = refl
members_append_nil (member k c xs) = ap (member k c) (members_append_nil xs)

Below-last :
    (j k : Text) (done : Members) (c : Concat) (ms : Members)
    → Below j (done ++ₘ member k c ms)
    → text_compare k j ≡ Ordering.gt
Below-last j k no_member c ms b = text_compare_lt j k (b.0)
Below-last j k (member i d done) c ms b = Below-last j k done c ms (b.1)

-- A key that comes behind all others is emplaced at the end.
upsert-last :
    (k : Text) (d : Concat) (step : Bool → Concat → Result Concat) (done : Members) (c : Concat)
    (ms : Members)
    → IsOrdered (done ++ₘ member k c ms)
    → step true d ≡ ok c
    → upsert k d step done ≡ ok (done ++ₘ member k c no_member)
unfolding upsert
upsert-last k d step no_member c ms s h = rw h refl
upsert-last k d step (member j b done) c ms s h =
    rw (Below-last j k done c ms (s.0), upsert-last k d step done c ms (s.1) h) refl

-- The concat of an element or a member.
abbrev one_value : Position → Entry → Concat
one_value p e = concat (record (fresh_mark p) { remove = true }) (entry e no_entry)

-- The call that ends a member whose key comes behind all others.
member_made :
    (p q : Position) (k : Text) (e : Entry) (done ms : Members) (stack : List Entry)
    (keys : List Text) (rest : List Call)
    → IsOrdered (done ++ₘ member k (one_value p e) ms)
    → consume_all
        (Call.member p ∷ rest)
        (record { stack = object done q ∷ stack; keys = k ∷ keys; value = some e })
      ≡ consume_all rest (record {
        stack = object (done ++ₘ member k (one_value p e) no_member) q ∷ stack;
        keys = keys;
        value = some e;
      })
unfolding consume_all consume
member_made p q k e done ms stack keys rest o =
    rw (upsert-last k (empty_concat p) (emplace_value e) done (one_value p e) ms o refl) refl

mutual
  unfolding consume_all IsJaxn calls

  consume_all-calls_rest :
      (e : Entry) (rest : List Call) (j : Consumer)
      → IsJaxn e
      → consume_all (calls e rest) j ≡ consume_all rest (record j { value = some e })
  consume_all-calls_rest (array f cs p) rest j h =
      array_consumed cs no_element p j.stack j.keys j.value (Call.end_array ∷ rest) (h.1)
      ∙ ap (λ g. consume_all rest (record j { value = some (array g cs p) })) (sym (h.0))
  consume_all-calls_rest (object ms p) rest j h =
      object_consumed ms no_member p j.stack j.keys j.value (Call.end_object ∷ rest) (h.0) (h.1)
  consume_all-calls_rest (asterisk c) rest j h = absurd h
  consume_all-calls_rest (reference r) rest j h = absurd h
  consume_all-calls_rest (null p) rest j h = refl
  consume_all-calls_rest (boolean b p) rest j h = refl
  consume_all-calls_rest (signed z p) rest j h = refl
  consume_all-calls_rest (unsigned n p) rest j h = refl
  consume_all-calls_rest (double d p) rest j h = refl
  consume_all-calls_rest (string t p) rest j h = refl
  consume_all-calls_rest (binary t p) rest j h = refl

  array_consumed :
      (cs done : Concats) (p : Position) (stack : List Entry) (keys : List Text) (v : Option Entry)
      (rest : List Call)
      → IsJaxnArray cs
      → consume_all
          (calls_array cs rest)
          (record { stack = array [] done p ∷ stack; keys = keys; value = v })
        ≡ consume_all rest (record {
          stack = array [] (done ++ₐ cs) p ∷ stack;
          keys = keys;
          value = last_element cs v;
        })
  array_consumed no_element done p stack keys v rest h = rw (elements_append_nil done) refl
  array_consumed (element (concat m no_entry) cs) done p stack keys v rest h = absurd (h.0)
  array_consumed (element (concat m (entry e (entry f es))) cs) done p stack keys v rest h =
      absurd (h.0)
  array_consumed (element (concat m (entry e no_entry)) cs) done p stack keys v rest h =
      consume_all-calls_rest e (Call.element m.position ∷ calls_array cs rest)
        (record { stack = array [] done p ∷ stack; keys = keys; value = v }) (h.0.1)
      ∙ array_consumed cs (done ++ₐ element (one_value m.position e) no_element) p stack keys
          (some e) rest (h.1)
      ∙ ap
          (λ x. consume_all rest (record {
            stack = array [] x p ∷ stack;
            keys = keys;
            value = last_element cs (some e);
          }))
          (elements_append_assoc done (element (one_value m.position e) no_element) cs
            ∙ ap (λ y. done ++ₐ element (concat y (entry e no_entry)) cs) (sym (h.0.0)))

  object_consumed :
      (ms done : Members) (p : Position) (stack : List Entry) (keys : List Text) (v : Option Entry)
      (rest : List Call)
      → IsOrdered (done ++ₘ ms)
      → IsJaxnObject ms
      → consume_all
          (calls_object ms rest)
          (record { stack = object done p ∷ stack; keys = keys; value = v })
        ≡ consume_all rest (record {
          stack = object (done ++ₘ ms) p ∷ stack;
          keys = keys;
          value = last_member ms v;
        })
  object_consumed no_member done p stack keys v rest o h = rw (members_append_nil done) refl
  object_consumed (member k (concat m no_entry) ms) done p stack keys v rest o h = absurd (h.0)
  object_consumed (member k (concat m (entry e (entry f es))) ms) done p stack keys v rest o h =
      absurd (h.0)
  object_consumed (member k (concat m (entry e no_entry)) ms) done p stack keys v rest o h =
      let c : Concat = one_value m.position e in
      let o' =
        subst (λ y. IsOrdered (done ++ₘ member k (concat y (entry e no_entry)) ms)) (h.0.0) o in
      consume_all-calls_rest e (Call.member m.position ∷ calls_object ms rest)
        (record { stack = object done p ∷ stack; keys = k ∷ keys; value = v }) (h.0.1)
      ∙ member_made m.position p k e done ms stack keys (calls_object ms rest) o'
      ∙ object_consumed ms (done ++ₘ member k c no_member) p stack keys (some e) rest
          (subst IsOrdered (sym (members_append_assoc done (member k c no_member) ms)) o') (h.1)
      ∙ ap
          (λ x.
            consume_all rest
              (record { stack = object x p ∷ stack; keys = keys; value = last_member ms (some e) }))
          (members_append_assoc done (member k c no_member) ms
            ∙ ap (λ y. done ++ₘ member k (concat y (entry e no_entry)) ms) (sym (h.0.0)))

-- Spelled out as calls, a value of JAXN is made again by the consumer, whatever it held; its stack
-- and its keys are as before.
pub consume_all-calls :
    (e : Entry) (j : Consumer)
    → IsJaxn e
    → consume_all (calls e []) j ≡ ok (record j { value = some e })
unfolding consume_all
consume_all-calls e j h = consume_all-calls_rest e [] j h
