-- ===== src/Access/Created.antt =====
-- assign.hpp: the members that assign makes where they are missing.
use config.Access.{
  JsonValues, Accessed, found, failed, not_found, ◌>>=◌, Reference, access_name, access, or_empty,
  or_not_found, assign_name, assign,
}
use config.Common.{Text, true, Bool-cases, inl, inr, Option, none, some, List, [], ◌∷◌, ◌≡◌, refl}
use config.Key.{Key, KeyPart}

abbrev pub named_key : List Text → Key
named_key [] = []
named_key (n ∷ names) = KeyPart.name n ∷ named_key names

module _ {V : Type 0} (json : JsonValues V) where
  -- The value that a reference refers to.
  abbrev pub referred : Accessed (Reference V) → Accessed V
  referred (found (w, put)) = found w
  referred (failed e) = failed e

  -- What assign is to give where access gives this: a missing member is an empty object.
  abbrev pub created : Accessed V → Accessed V
  created (found w) = found w
  created (failed (not_found n)) = found json.empty_object
  created (failed e) = failed e

  referred-put :
      (r : Accessed (Reference V)) (around : (V → V) → V → V)
      → referred (r >>= λ (u, put). found (u, around put)) ≡ referred r
  referred-put (found (u, put)) around = refl
  referred-put (failed e) around = refl

  module _ (object_empty : json.is_object json.empty_object ≡ true)
      (no_member : (n : Text) → json.find json.empty_object n ≡ none) where
    -- Below an empty object that has been made, all further members are made.
    assign-empty :
        (names : List Text)
        → referred (assign json json.empty_object (named_key names)) ≡ found json.empty_object
    unfolding assign assign_name
    assign-empty [] = refl
    assign-empty (n ∷ names) =
        rw (object_empty, no_member n)
          (rw
            (referred-put (assign json json.empty_object (named_key names))
              (λ put x. json.with_member json.empty_object n (put x)))
            (assign-empty names))

    -- For a key of names, assign refers to what access finds; where access fails since a member is
    -- missing, it refers to an empty object that it has made; where access fails otherwise, it fails
    -- in the same way.
    pub assign-created :
        (v : V) (names : List Text)
        → referred (assign json v (named_key names)) ≡ created (access json v (named_key names))
    unfolding assign access assign_name access_name
    assign-created v [] = refl
    assign-created v (n ∷ names) = elim (Bool-cases (json.is_object v)) [
      | inl o ↦ rw o (below (json.find v n) (λ w. assign-created w names))
      | inr o ↦ rw o refl
    ]
      where
        below :
            (m : Option V)
            → ((w : V)
                → referred (assign json w (named_key names))
                  ≡ created (access json w (named_key names)))
            → referred (
                assign json (or_empty json m) (named_key names) >>= λ (u, put).
                found (u, λ x. json.with_member v n (put x)))
              ≡ created (or_not_found json n m >>= λ w. access json w (named_key names))
        below none later =
            rw
              (referred-put (assign json json.empty_object (named_key names))
                (λ put x. json.with_member v n (put x)))
              (assign-empty names)
        below (some w) later =
            rw
              (referred-put (assign json w (named_key names))
                (λ put x. json.with_member v n (put x)))
              (later w)
