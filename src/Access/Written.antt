-- ===== src/Access/Written.antt =====
-- access.hpp and assign.hpp: what is written through a reference is found at its key.
use config.Access.{
  JsonValues, Accessed, found, failed, non_object, non_array, ◌>>=◌, Reference, or_not_found,
  or_out_of_bounds, access_name, access_index, access, or_empty, assign_name, assign,
}
use config.Common.{
  Text, ℕ, true, Bool-cases, inl, inr, Option, none, some, [], ◌∷◌, get_elem?, ◌≡◌, refl, ap, subst,
}
use config.Key.{Key, KeyPart}

>>=-eq-found :
    {A B : Type 0} (m : Accessed A) (f : A → Accessed B) {b : B}
    → (m >>= f) ≡ found b
    → (a : A) × (m ≡ found a) × (f a ≡ found b)
>>=-eq-found (found a) f h = (a, refl, h)
>>=-eq-found (failed e) f h = cc

found_value : {A : Type 0} {a b : A} → found a ≡ found b → a ≡ b
found_value h = cc

module _ {V : Type 0} (json : JsonValues V) where
  -- assign goes where access goes.
  assign_name-found :
      (v : V) (k : Text) (w : V) → access_name json v k ≡ found w → assign_name json v k ≡ found w
  unfolding access_name assign_name
  assign_name-found v k w h = elim (Bool-cases (json.is_object v)) [
    | inl o ↦ rw o (there (json.find v k) (rw o at h))
    | inr o ↦ no_object (rw o at h)
  ]
    where
      there : (o : Option V) → or_not_found json k o ≡ found w → found (or_empty json o) ≡ found w
      there none q = cc
      there (some u) q = q

      no_object : failed (non_object k) ≡ found w → assign_name json v k ≡ found w
      no_object q = cc

  -- Where access finds a value, assign gives a reference to that value.
  pub assign-access :
      (v : V) (k : Key) (w : V)
      → access json v k ≡ found w
      → (put : V → V) × (assign json v k ≡ found (w, put))
  unfolding access assign
  assign-access v [] w h = ((λ x. x), ap (λ u. found (u, λ x. x)) (found_value h))
  assign-access v (KeyPart.name k ∷ p) w h =
      let (u, a, b) = >>=-eq-found (access_name json v k) _ h in
      let (put, c) = assign-access u p w b in
      ((λ x. json.with_member v k (put x)), rw (assign_name-found v k u a) (rw c refl))
  assign-access v (KeyPart.index n ∷ p) w h =
      let (u, a, b) = >>=-eq-found (access_index json v n) _ h in
      let (put, c) = assign-access u p w b in
      ((λ x. json.with_element v n (put x)), rw a (rw c refl))

  module _
      (object_kept : (v : V) (k : Text) (w : V)
        → json.is_object (json.with_member v k w) ≡ json.is_object v)
      (member_put : (v : V) (k : Text) (w : V)
        → json.is_object v ≡ true
        → json.find (json.with_member v k w) k ≡ some w)
      (array_kept : (v : V) (n : ℕ) (w : V)
        → json.is_array (json.with_element v n w) ≡ json.is_array v)
      (element_put : (v : V) (n : ℕ) (u w : V)
        → get_elem? (json.elements v) n ≡ some u
        → get_elem? (json.elements (json.with_element v n w)) n ≡ some w) where
    access_name-put :
        (v : V) (k : Text) (u w : V)
        → assign_name json v k ≡ found u
        → access_name json (json.with_member v k w) k ≡ found w
    unfolding access_name assign_name
    access_name-put v k u w h = elim (Bool-cases (json.is_object v)) [
      | inl o ↦ rw (object_kept v k w, o, member_put v k w o) refl
      | inr o ↦ no_object (rw o at h)
    ]
      where
        no_object :
            failed (non_object k) ≡ found u → access_name json (json.with_member v k w) k ≡ found w
        no_object q = cc

    access_index-put :
        (v : V) (n : ℕ) (u w : V)
        → access_index json v n ≡ found u
        → access_index json (json.with_element v n w) n ≡ found w
    unfolding access_index
    access_index-put v n u w h = elim (Bool-cases (json.is_array v)) [
      | inl o ↦ rw (array_kept v n w, o) (there (get_elem? (json.elements v) n) refl (rw o at h))
      | inr o ↦ no_array (rw o at h)
    ]
      where
        there :
            (o : Option V)
            → get_elem? (json.elements v) n ≡ o
            → or_out_of_bounds json n v o ≡ found u
            → or_out_of_bounds json n
                (json.with_element v n w)
                (get_elem? (json.elements (json.with_element v n w)) n)
              ≡ found w
        there none q k = cc
        there (some x) q k = rw (element_put v n x w q) refl

        no_array :
            failed (non_array n) ≡ found u → access_index json (json.with_element v n w) n ≡ found w
        no_array q = cc

    -- What is written through the reference that assign gives is what access finds at the key.
    pub access-assign :
        (v : V) (k : Key) (u : V) (put : V → V) (w : V)
        → assign json v k ≡ found (u, put)
        → access json (put w) k ≡ found w
    unfolding access assign
    access-assign v [] u put w h =
        subst (λ (r : Reference V). access json (r.1 w) [] ≡ found w) (found_value h) refl
    access-assign v (KeyPart.name k ∷ p) u put w h =
        let (c, a, b) = >>=-eq-found (assign_name json v k) _ h in
        let ((u', put'), a', b') = >>=-eq-found (assign json c p) _ b in
        subst (λ (r : Reference V). access json (r.1 w) (KeyPart.name k ∷ p) ≡ found w)
          (found_value b') (rw (access_name-put v k c (put' w) a) (access-assign c p u' put' w a'))
    access-assign v (KeyPart.index n ∷ p) u put w h =
        let (c, a, b) = >>=-eq-found (access_index json v n) _ h in
        let ((u', put'), a', b') = >>=-eq-found (assign json c p) _ b in
        subst (λ (r : Reference V). access json (r.1 w) (KeyPart.index n ∷ p) ≡ found w)
          (found_value b') (rw (access_index-put v n c (put' w) a) (access-assign c p u' put' w a'))
