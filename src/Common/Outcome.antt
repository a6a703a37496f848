-- ===== src/Common/Outcome.antt =====
-- What an operation gives: a value, or the exception with which it ends.
use Prim.Native.Nat.{ℕ}
use mathlib.Core.Path.{◌≡◌, refl}
use config.Common.Bytes.{Text}

-- `pegtl::position`: byte, line, column and source.
pub record Position : Type 0 where
  pub byte : ℕ
  pub line : ℕ
  pub column : ℕ
  pub source : Text

-- The messages of `pegtl::parse_error`, with the variable part of the text where it has one.
pub data Message : Type 0 where
  cannot_index_value cannot_index_object cannot_index_asterisk cannot_index_reference : Message
  index_out_of_range nesting_depth_exceeded expected_name : Message
  access_name_in_value access_name_in_array name_not_found unable_to_access_asterisk : Message
  impossible_append incompatible_addition asterisk_inside_function : Message
  invalid_reference_part : Message
  function_not_called : Text → Message
  asterisk_not_expanded reference_not_resolved : Message
  unknown_function : Text → Message
  default_without_argument default_without_value print_one_argument : Message
  invalid_string_argument invalid_utf8 : Message
  include_error include_optional_error : Text → Message
  raised : Text → Message
  hexadecimal_too_large hexadecimal_too_large_to_negate : Message
  too_many_digits exponent_too_large : Message

-- `undefined` is a broken precondition: an assertion fails, or the behaviour is undefined.
pub data Error : Type 0 where
  parse_error : Message → Position → Error
  phase2_access_return : Error
  arguments_unready : Error
  -- std::out_of_range of std::stoul
  stoul_out_of_range : Error
  logic_error : Error
  undefined : Error
  out_of_fuel : Error

pub data Result {ℓ} (T : Type ℓ) : Type ℓ where
  ok : T → Result T
  err : Error → Result T

-- An exception goes past what follows.
infixl 5 ◌>>=◌
abbrev pub ◌>>=◌ {κ ℓ} : {B : Type κ} {A : Type ℓ} → Result B → (B → Result A) → Result A
err thrown >>= next = err thrown
ok value >>= next = next value

-- What a successful chain of two steps went through.
pub >>=-eq-ok {κ ℓ} :
    {B : Type κ} {A : Type ℓ} (first : Result B) (next : B → Result A) {a : A}
    → (first >>= next) ≡ ok a
    → (value : B) × (first ≡ ok value) × (next value ≡ ok a)
>>=-eq-ok (err thrown) next h = cc
>>=-eq-ok (ok value) next h = (value, refl, h)

-- The operation returns.
abbrev pub Succeeds {ℓ} : {A : Type ℓ} → Result A → Type ℓ
Succeeds {A} r = (a : A) × (r ≡ ok a)

pub Succeeds-bind {ℓ κ} :
    {A : Type ℓ} {B : Type κ} (m : Result A) (f : A → Result B)
    → Succeeds m
    → ((a : A) → Succeeds (f a))
    → Succeeds (m >>= f)
Succeeds-bind (ok a) f h k = k a
Succeeds-bind (err e) f h k = cc (h.1)

pub value_of {ℓ} : {A : Type ℓ} {a b : A} → ok a ≡ ok b → a ≡ b
value_of h = cc
