-- ===== src/Counted.antt =====
-- A pass over the tree may throw, and counts its changes, as the member `m_changes` does.
use config.Common.{ℕ, ◌+◌, ◌≡◌, refl, ap, ◌∙◌, Result, ok, err, arith}

abbrev pub Counted {ℓ} : Type ℓ → Type ℓ
Counted A = Result (A × ℕ)

abbrev pub unchanged {ℓ} : {A : Type ℓ} → A → Counted A
unchanged a = ok (a, 0)

-- ++m_changes
abbrev pub changed {ℓ} : {A : Type ℓ} → A → Counted A
changed a = ok (a, 1)

abbrev pub lift {ℓ} : {A : Type ℓ} → Result A → Counted A
lift (ok a) = ok (a, 0)
lift (err e) = err e

abbrev pub add_changes {ℓ} : {A : Type ℓ} → ℕ → Counted A → Counted A
add_changes n (ok (a, k)) = ok (a, n + k)
add_changes n (err e) = err e

infixl 5 ◌>>=◌
abbrev pub ◌>>=◌ {ℓ κ} : {A : Type ℓ} {B : Type κ} → Counted A → (A → Counted B) → Counted B
ok (a, n) >>= f = add_changes n (f a)
err e >>= f = err e

module _ {ℓ} {A : Type ℓ} where
  pub add_changes-eq-ok :
      (n : ℕ) (m : Counted A) {b : A} {k : ℕ}
      → add_changes n m ≡ ok (b, k)
      → (j : ℕ) × (m ≡ ok (b, j)) × (k ≡ n + j)
  add_changes-eq-ok n (ok (a, j)) h = (j, ground arith, ground arith)
  add_changes-eq-ok n (err e) h = cc

module _ {ℓ κ} {A : Type ℓ} {B : Type κ} where
  -- What a successful chain of two steps went through, and its changes.
  pub >>=-eq-ok :
      (m : Counted A) (f : A → Counted B) {b : B} {k : ℕ}
      → (m >>= f) ≡ ok (b, k)
      → (a : A) × (n : ℕ) × (j : ℕ) × (m ≡ ok (a, n)) × (f a ≡ ok (b, j)) × (k ≡ n + j)
  >>=-eq-ok (ok (a, n)) f h = let (j, p, q) = add_changes-eq-ok n (f a) h in (a, n, j, refl, p, q)
  >>=-eq-ok (err e) f h = cc

  -- A chain with no change has none in either step.
  pub >>=-unchanged :
      (m : Counted A) (f : A → Counted B) {b : B}
      → (m >>= f) ≡ ok (b, 0)
      → (a : A) × (m ≡ ok (a, 0)) × (f a ≡ ok (b, 0))
  >>=-unchanged m f {b} h =
      let (a, n, j, p, q, r) = >>=-eq-ok m f h in
      let n0 : n ≡ 0 = omega arith in
      let j0 : j ≡ 0 = omega arith in
      (a, p ∙ ap (λ (i : ℕ). ok (a, i)) n0, q ∙ ap (λ (i : ℕ). ok (b, i)) j0)

pub value_eq {ℓ} : {A : Type ℓ} {a b : A} → unchanged a ≡ ok (b, 0) → b ≡ a
value_eq h = cc

pub unchanged-eq-ok {ℓ} :
    {A : Type ℓ} {a b : A} {n : ℕ} → unchanged a ≡ ok (b, n) → (b ≡ a) × (n ≡ 0)
unchanged-eq-ok h = (cc, ground arith)

first_value {ℓ} :
    {A : Type ℓ} {a b : A} {j k : ℕ} → ◌≡◌ {A = Counted A} (ok (a, j)) (ok (b, k)) → a ≡ b
first_value h = cc

pub lift-eq-ok {ℓ} : {A : Type ℓ} (m : Result A) {a : A} {n : ℕ} → lift m ≡ ok (a, n) → m ≡ ok a
lift-eq-ok (ok b) h = cc
lift-eq-ok (err e) h = cc
