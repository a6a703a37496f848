-- ===== src/Phase1/Frame.antt =====
-- phase1_append.hpp at the root: what it refuses, and what it leaves alone.
use config.Data.{KeyPath, Concat, ObjectRoot, Key1Part}
use config.Common.{
  eq_of_text_eq, ◌⊎◌, Text, text_eq, ℕ, zero, suc, ◌≤◌, ◌<◌, ltb, ◌≡◌, refl, subst, true, false,
  Bool-cases, inl, inr, some, [], ◌∷◌, length, Position, Result, ok, err, parse_error,
  nesting_depth_exceeded, >>=-eq-ok, value_of, arith, get_elem?,
}
use config.Data.Dict.{find, upsert, IsOrdered}
use config.Data.Dict.Laws.{find-upsert_ne, upsert-IsOrdered}
use config.Data.Views.{empty_concat}
use config.Phase1.{
  Phase1Mode, named, phase1_append, part_position, position_at, append_at_name, append_root,
}

position_at-lt :
    (n : ℕ) (path : KeyPath) {part : Key1Part}
    → get_elem? path n ≡ some part
    → position_at n path ≡ ok (part_position part)
position_at-lt n [] h = cc
position_at-lt zero (q ∷ path) h = ground arith
position_at-lt (suc n) (q ∷ path) h = position_at-lt n path h

lt-length :
    (n : ℕ) (path : KeyPath) {part : Key1Part} → get_elem? path n ≡ some part → n < length path
lt-length n [] h = cc
lt-length zero (q ∷ path) h = omega arith
lt-length (suc n) (q ∷ path) h = omega (arith, lt-length n path h)

-- A key with more than 96 parts is refused, at the position of the part that is one too many.
pub append_root-too_deep :
    (path : KeyPath) (thing : Concat → Result Concat) (mode : Phase1Mode) (o : ObjectRoot)
    {part : Key1Part}
    → get_elem? path 96 ≡ some part
    → append_root path thing mode o ≡ err (parse_error nesting_depth_exceeded (part_position part))
unfolding append_root
append_root-too_deep path thing mode o h =
    let deep : ltb 96 (length path) ≡ true = ground (arith, lt-length 96 path h) in
    rw deep (rw (position_at-lt 96 path h))

-- Appending at a key that begins with a name leaves the other names of an object alone.
abbrev pub Framed : KeyPath → ObjectRoot → ObjectRoot → Type 0
Framed path o o' =
    (n : Text) × (p : Position) × (rest : KeyPath) × (path ≡ Key1Part.name n p ∷ rest)
    × (o'.position ≡ o.position)
    × ((k : Text) → (k ≡ n) ⊎ (find k o'.members ≡ find k o.members))
    × IsOrdered o'.members

same_or_other : (k n : Text) {A : Type 0} → (text_eq k n ≡ false → A) → (k ≡ n) ⊎ A
same_or_other k n f = elim (Bool-cases (text_eq k n)) [
  | inl e ↦ inl (eq_of_text_eq k n e)
  | inr e ↦ inr (f e)
]

Framed-append_at_name :
    (path : KeyPath) (thing : Concat → Result Concat) (mode : Phase1Mode) (o : ObjectRoot)
    {o' : ObjectRoot}
    → IsOrdered o.members
    → append_at_name path thing mode o ≡ ok o'
    → Framed path o o'
Framed-append_at_name [] thing mode o s h = cc
Framed-append_at_name (Key1Part.index i p ∷ path) thing mode o s h = cc
Framed-append_at_name (Key1Part.asterisk p ∷ path) thing mode o s h = cc
Framed-append_at_name (Key1Part.append g p ∷ path) thing mode o s h = cc
Framed-append_at_name (Key1Part.name n p ∷ path) thing mode o {o'} s h =
    let step = named (phase1_append path thing mode) mode in
    let (ms, u, q) = >>=-eq-ok (upsert n (empty_concat p) step o.members) _ h in
    subst (λ x. Framed (Key1Part.name n p ∷ path) o x) (value_of q)
      (
        n,
        p,
        path,
        refl,
        refl,
        (λ k. same_or_other k n (λ e. find-upsert_ne n (empty_concat p) step o.members k e u)),
        upsert-IsOrdered n (empty_concat p) step o.members s u,
      )

-- Where something is appended at the root, whose names are in strictly rising order, the key has at
-- most 96 parts and begins with a name; what is found at every other name is as before, and the
-- names are in strictly rising order again.
pub append_root-Framed :
    (path : KeyPath) (thing : Concat → Result Concat) (mode : Phase1Mode) (o : ObjectRoot)
    {o' : ObjectRoot}
    → IsOrdered o.members
    → append_root path thing mode o ≡ ok o'
    → (length path ≤ 96) × Framed path o o'
unfolding append_root
append_root-Framed path thing mode o s h = elim (Bool-cases (ltb 96 (length path))) [
  | inl deep ↦ let (p, q, r) = >>=-eq-ok (position_at 96 path) _ (rw deep at h) in cc
  | inr flat ↦ (ground arith, Framed-append_at_name path thing mode o s (rw flat at h))
]
