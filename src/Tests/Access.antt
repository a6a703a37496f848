-- ===== src/Tests/Access.antt =====
-- Runs of access and assign, on a small type of values.
use config.Access.Created.{assign-created, referred, created, named_key}
use config.Access.Written.{assign-access, access-assign}
use config.Access.{JsonValues, Accessed, found, failed, Reference, access, assign}
use config.Common.{
  Text, bytes, text_eq, text_compare, text_eq_refl, ℕ, zero, suc, List, [], ◌∷◌, get_elem?, Bool,
  true, false, Bool-cases, inl, inr, Option, none, some, ◌≡◌, refl, if◌then◌else◌,
}
use config.Key.{Key, KeyPart}

-- Numbers, objects and arrays; a value that ends neither members nor elements stands for their end.
data Value : Type 0 where
  leaf : ℕ → Value
  no_members no_elements : Value
  member : Text → Value → Value → Value
  element : Value → Value → Value

abbrev is_object : Value → Bool
is_object no_members = true
is_object (member k v rest) = true
is_object v = false

abbrev is_array : Value → Bool
is_array no_elements = true
is_array (element v rest) = true
is_array v = false

unfoldable find : Value → Text → Option Value
find (member j v rest) k = if text_eq k j then some v else find rest k
find v k = none

unfoldable elements : Value → List Value
elements (element v rest) = v ∷ elements rest
elements v = []

unfoldable put : Value → Text → Value → Value
put (member j v rest) k w = if text_eq k j then member j w rest else member j v (put rest k w)
put v k w = member k w no_members

unfoldable with_member : Value → Text → Value → Value
unfolding put
with_member no_members k w = put no_members k w
with_member (member j v rest) k w = put (member j v rest) k w
with_member v k w = v

unfoldable with_element : Value → ℕ → Value → Value
with_element (element v rest) zero w = element w rest
with_element (element v rest) (suc n) w = element v (with_element rest n w)
with_element v n w = v

abbrev values : JsonValues Value
unfolding find elements with_member with_element
values = record {
  is_object = is_object;
  find = find;
  is_array = is_array;
  elements = elements;
  empty_object = no_members;
  with_member = with_member;
  with_element = with_element;
}

object_kept : (v : Value) (k : Text) (w : Value) → is_object (with_member v k w) ≡ is_object v
unfolding with_member put
object_kept (leaf n) k w = refl
object_kept no_members k w = refl
object_kept no_elements k w = refl
object_kept (element v rest) k w = refl
object_kept (member j v rest) k w = elim (Bool-cases (text_eq k j)) [
  | inl h ↦ rw h refl
  | inr h ↦ rw h refl
]

find-put : (v : Value) (k : Text) (w : Value) → find (put v k w) k ≡ some w
unfolding find put
find-put (leaf n) k w = rw (text_eq_refl k) refl
find-put no_members k w = rw (text_eq_refl k) refl
find-put no_elements k w = rw (text_eq_refl k) refl
find-put (element v rest) k w = rw (text_eq_refl k) refl
find-put (member j v rest) k w = elim (Bool-cases (text_eq k j)) [
  | inl h ↦ rw (h, h) refl
  | inr h ↦ rw (h, h) (find-put rest k w)
]

member_put :
    (v : Value) (k : Text) (w : Value) → is_object v ≡ true → find (with_member v k w) k ≡ some w
unfolding with_member
member_put (leaf n) k w h = cc
member_put no_members k w h = find-put no_members k w
member_put no_elements k w h = cc
member_put (element v rest) k w h = cc
member_put (member j v rest) k w h = find-put (member j v rest) k w

array_kept : (v : Value) (n : ℕ) (w : Value) → is_array (with_element v n w) ≡ is_array v
unfolding with_element
array_kept (element v rest) zero w = refl
array_kept (element v rest) (suc n) w = refl
array_kept v n w = refl

element_put :
    (v : Value) (n : ℕ) (u w : Value)
    → get_elem? (elements v) n ≡ some u
    → get_elem? (elements (with_element v n w)) n ≡ some w
unfolding elements with_element
element_put (element v rest) zero u w h = refl
element_put (element v rest) (suc n) u w h = element_put rest n u w h
element_put v n u w h = cc

-- { "a" : [ 1, { } ] }
abbrev nested : Value
nested = member (bytes "a") (element (leaf 1) (element no_members no_elements)) no_members

-- a.1.b, which is not there, and a.0
abbrev new_key : Key
new_key = KeyPart.name (bytes "a") ∷ KeyPart.index 1 ∷ KeyPart.name (bytes "b") ∷ []

abbrev old_key : Key
old_key = KeyPart.name (bytes "a") ∷ KeyPart.index 0 ∷ []

abbrev put_in : Accessed (Reference Value) → Value → Value
put_in (found r) = r.1
put_in (failed e) = λ x. x

access-assign_example :
    access values (put_in (assign values nested new_key) (leaf 7)) new_key ≡ found (leaf 7)
unfolding assign values with_member text_compare
access-assign_example =
    access-assign values object_kept member_put array_kept element_put nested new_key no_members
      (put_in (assign values nested new_key)) (leaf 7) refl

assign-access_example : (put : Value → Value) × (assign values nested old_key ≡ found (leaf 1, put))
unfolding access values text_compare
assign-access_example = assign-access values nested old_key (leaf 1) refl

-- c.d, which is not there
abbrev new_names : List Text
new_names = bytes "c" ∷ bytes "d" ∷ []

no_member : (n : Text) → find no_members n ≡ none
unfolding find
no_member n = refl

assign-created_example :
    referred values (assign values nested (named_key new_names))
    ≡ created values (access values nested (named_key new_names))
unfolding values
assign-created_example = assign-created values refl no_member nested new_names
