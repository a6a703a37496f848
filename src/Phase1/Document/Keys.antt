-- ===== src/Phase1/Document/Keys.antt =====
-- key1_guard.hpp under config_grammar.hpp: what one action leaves of the key.
use config.Data.{KeyPath, Concat}
use config.Common.{
  suc, ◌≤◌, ◌≡◌, refl, sym, ap, ◌∙◌, [], ◌∷◌, ◌++◌, length, take, drop, take-append, drop-append,
  Result, ok, >>=-eq-ok, value_of, arith, subst,
}
use config.Phase1.{Phase1Mode, append_root}
use config.Phase1.State.{
  State, guard_end, append_at, value_list, set_last_generation, key1_success, at_member, take_key,
}
use config.Phase1.Document.{guarded}

-- The generation may have grown; the prefix, and the key of an extension, are as before.
pub record KeptPrefix (st st' : State) : Type 0 where
  pub prefix : st'.prefix ≡ st.prefix
  pub member : st'.member ≡ st.member
  pub generation : st.generation ≤ st'.generation

-- The suffix is as before, too.
pub record KeptKey (st st' : State) : Type 0 where
  pub prefix : st'.prefix ≡ st.prefix
  pub suffix : st'.suffix ≡ st.suffix
  pub member : st'.member ≡ st.member
  pub generation : st.generation ≤ st'.generation

pub KeptKey-refl : (st : State) → KeptKey st st
KeptKey-refl st = record { prefix = refl; suffix = refl; member = refl; generation = omega arith }

pub KeptKey-trans : {a b c : State} → KeptKey a b → KeptKey b c → KeptKey a c
KeptKey-trans h k = record {
  prefix = k.prefix ∙ h.prefix;
  suffix = k.suffix ∙ h.suffix;
  member = k.member ∙ h.member;
  generation = omega arith;
}

pub forget_suffix : {a b : State} → KeptKey a b → KeptPrefix a b
forget_suffix h = record { prefix = h.prefix; member = h.member; generation = h.generation }

pub KeptPrefix-trans : {a b c : State} → KeptPrefix a b → KeptPrefix b c → KeptPrefix a c
KeptPrefix-trans h k = record {
  prefix = k.prefix ∙ h.prefix;
  member = k.member ∙ h.member;
  generation = omega arith;
}

pub kept_at : {a b c : State} → b ≡ c → KeptKey a b → KeptKey a c
kept_at {a} e h = subst (KeptKey a) e h

pub append_at-KeptKey :
    (more : KeyPath) (thing : Concat → Result Concat) (mode : Phase1Mode) (st : State) {st' : State}
    → append_at more thing mode st ≡ ok st'
    → KeptKey st st'
unfolding append_at
append_at-KeptKey more thing mode st h =
    let (o, p, q) =
      >>=-eq-ok (append_root (st.prefix ++ (st.suffix ++ more)) thing mode st.root) _ h in
    kept_at (value_of q)
      (record { prefix = refl; suffix = refl; member = refl; generation = omega arith })

pub value_list-KeptPrefix : (st : State) {st' : State} → value_list st ≡ ok st' → KeptPrefix st st'
unfolding value_list
value_list-KeptPrefix st h =
    let (path, p, q) = >>=-eq-ok (set_last_generation (suc st.generation) st.suffix) _ h in
    subst (KeptPrefix st) (value_of q)
      (record { prefix = refl; member = refl; generation = omega arith })

-- A body that keeps the prefix, run under a guard.
pub guarded-KeptKey :
    (enter : State → State) (body : State → Result State) (st : State) {st' : State}
    → ((enter st).prefix ≡ st.prefix ++ st.suffix)
    → ((enter st).member ≡ st.member)
    → (st.generation ≤ (enter st).generation)
    → ((x : State) → body (enter st) ≡ ok x → KeptPrefix (enter st) x)
    → guarded enter body st ≡ ok st'
    → KeptKey st st'
unfolding guard_end
guarded-KeptKey enter body st e f g keep h =
    let (x, p, q) = >>=-eq-ok (body (enter st)) _ h in
    let kept = keep x p in
    let whole = kept.prefix ∙ e in
    kept_at (value_of q) (record {
      prefix = ap (take (length st.prefix)) whole ∙ take-append st.prefix st.suffix;
      suffix = ap (drop (length st.prefix)) whole ∙ drop-append st.prefix st.suffix;
      member = kept.member ∙ f;
      generation = omega arith;
    })

-- The key of an extension is taken and cleared again.
pub at_member-cleared :
    (thing : Concat → Result Concat) (key : KeyPath) (st : State) {st' : State}
    → at_member thing key st ≡ ok st'
    → (st'.prefix ≡ st.prefix)
      × (st'.suffix ≡ st.suffix)
      × (st'.member ≡ [])
      × (st.generation ≤ st'.generation)
at_member-cleared thing [] st h = cc
at_member-cleared thing (part ∷ path) st h =
    let (x, p, q) = >>=-eq-ok (append_at (part ∷ path) thing Phase1Mode.implicit st) _ h in
    let kept = append_at-KeptKey (part ∷ path) thing Phase1Mode.implicit st p in
    let e = value_of q in
    (
      ap (λ s. s.prefix) (sym e) ∙ kept.prefix,
      ap (λ s. s.suffix) (sym e) ∙ kept.suffix,
      ap (λ s. s.member) (sym e),
      omega (arith, ap (λ (s : State). s.generation) e),
    )

pub taken :
    (key before : KeyPath) (st : State) {x : State}
    → take_key key before st ≡ ok x
    → (before ≡ []) × (record st { member = key } ≡ x)
taken key [] st h = (refl, value_of h)
taken key (part ∷ path) st h = cc

pub extension-KeptKey :
    (thing : Concat → Result Concat) (key : KeyPath) (st : State) {x st' : State}
    → key1_success key st ≡ ok x
    → at_member thing x.member x ≡ ok st'
    → KeptKey st st'
unfolding key1_success
extension-KeptKey thing key st {x} h k =
    let (none_before, e) = taken key st.member st h in
    let (p, s, m, g) = at_member-cleared thing x.member x k in
    record {
      prefix = p ∙ ap (λ y. y.prefix) (sym e);
      suffix = s ∙ ap (λ y. y.suffix) (sym e);
      member = m ∙ sym none_before;
      generation = omega (arith, ap (λ (y : State). y.generation) e);
    }
