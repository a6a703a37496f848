-- ===== src/Access.antt =====
-- access.hpp and assign.hpp: a value of the result at a key.
pub mod Written
pub mod Created
use config.Common.{
  Text, ℕ, List, Bool, Option, none, some, [], ◌∷◌, get_elem?, length, if◌then◌else◌,
}
use config.Key.{Key, KeyPart}

-- What the functions use of json::basic_value: the members of an object and the elements of an array,
-- the value that `try_emplace( k, json::empty_object )` makes, and what stands there after a member or
-- an element has been replaced.
pub record JsonValues (V : Type 0) : Type 0 where
  pub is_object : V → Bool
  pub find : V → Text → Option V
  pub is_array : V → Bool
  pub elements : V → List V
  pub empty_object : V
  pub with_member : V → Text → V → V
  pub with_element : V → ℕ → V → V

-- The std::runtime_error, with what its text names.
pub data AccessError : Type 0 where
  non_object not_found : Text → AccessError
  non_array : ℕ → AccessError
  out_of_bounds : ℕ → ℕ → AccessError

pub data Accessed (A : Type 0) : Type 0 where
  found : A → Accessed A
  failed : AccessError → Accessed A

infixl 5 ◌>>=◌
abbrev pub ◌>>=◌ : {A B : Type 0} → Accessed A → (A → Accessed B) → Accessed B
found a >>= f = f a
failed e >>= f = failed e

-- A reference into a value: the value that it refers to, and the whole value once another one has been
-- put there.
abbrev pub Reference : Type 0 → Type 0
Reference V = V × (V → V)

module _ {V : Type 0} (json : JsonValues V) where
  abbrev pub or_not_found : Text → Option V → Accessed V
  or_not_found k none = failed (not_found k)
  or_not_found k (some w) = found w

  -- The bounds are tested where the element is read.
  abbrev pub or_out_of_bounds : ℕ → V → Option V → Accessed V
  or_out_of_bounds n v none = failed (out_of_bounds n (length (json.elements v)))
  or_out_of_bounds n v (some w) = found w

  unfoldable pub access_name : V → Text → Accessed V
  access_name v k =
      if json.is_object v then or_not_found k (json.find v k) else failed (non_object k)

  unfoldable pub access_index : V → ℕ → Accessed V
  access_index v n =
      if json.is_array v
      then or_out_of_bounds n v (get_elem? (json.elements v) n)
      else failed (non_array n)

  unfoldable pub access : V → Key → Accessed V
  unfolding access_name access_index
  access v [] = found v
  access v (KeyPart.name k ∷ p) = access_name v k >>= λ w. access w p
  access v (KeyPart.index n ∷ p) = access_index v n >>= λ w. access w p

  abbrev pub or_empty : Option V → V
  or_empty none = json.empty_object
  or_empty (some w) = w

  unfoldable pub assign_name : V → Text → Accessed V
  assign_name v k =
      if json.is_object v then found (or_empty (json.find v k)) else failed (non_object k)

  -- Where it throws, the empty objects that it has made so far stay in the value; they are left out.
  unfoldable pub assign : V → Key → Accessed (Reference V)
  unfolding assign_name access_index
  assign v [] = found (v, λ x. x)
  assign v (KeyPart.name k ∷ p) = assign_name v k >>= λ w.
      assign w p >>= λ (u, put). found (u, λ x. json.with_member v k (put x))
  assign v (KeyPart.index n ∷ p) = access_index v n >>= λ w.
      assign w p >>= λ (u, put). found (u, λ x. json.with_element v n (put x))
