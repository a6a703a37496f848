-- ===== src/Phase2/Asterisks/Fits.antt =====
-- phase2_asterisks.hpp: what an asterisk is spread over is nested no deeper than before.
use config.Common.{
  ℕ, zero, suc, ◌≡◌, refl, ap, subst, Result, ok, Text, List, [], ◌∷◌, if◌then◌else◌, true, false,
  Bool, >>=-eq-ok,
}
use config.Data.{
  Entry, Concat, Entries, Concats, Members, array, object, asterisk, concat, no_entry, entry,
  no_element, element, no_member, member,
}
use config.Data.Sequence.{◌++ₑ◌, entries_size}
use config.Phase2.Asterisks.{
  spread, star_members, star_entries, asterisk_before, asterisk_behind, process_asterisk_and_array,
  process_array_and_asterisk, member_names,
}

-- No concat is nested deeper than the number says.
unfoldable mutual
  pub Fits : ℕ → Concat → Type 0
  Fits zero c = ⊥
  Fits (suc n) (concat m es) = FitsEntries n es

  pub FitsEntries : ℕ → Entries → Type 0
  FitsEntries n no_entry = Unit {0}
  FitsEntries n (entry e es) = FitsEntry n e × FitsEntries n es

  pub FitsEntry : ℕ → Entry → Type 0
  FitsEntry n (array f cs p) = FitsArray n cs
  FitsEntry n (object ms p) = FitsObject n ms
  FitsEntry n (asterisk c) = Fits n c
  FitsEntry n _ = Unit {0}

  pub FitsArray : ℕ → Concats → Type 0
  FitsArray n no_element = Unit {0}
  FitsArray n (element c cs) = Fits n c × FitsArray n cs

  pub FitsObject : ℕ → Members → Type 0
  FitsObject n no_member = Unit {0}
  FitsObject n (member k c ms) = Fits n c × FitsObject n ms

if-holds {ℓ} :
    {A : Type ℓ} (P : A → Type 0) (b : Bool) {x y : A} → P x → P y → P (if b then x else y)
if-holds P true h k = h
if-holds P false h k = k

pub FitsEntries-append :
    (n : ℕ) (es fs : Entries) → FitsEntries n es → FitsEntries n fs → FitsEntries n (es ++ₑ fs)
unfolding Fits
FitsEntries-append n no_entry fs h k = k
FitsEntries-append n (entry e es) fs h k = (h.0, FitsEntries-append n es fs (h.1) k)

asterisk_before-Fits : (n : ℕ) (s c : Concat) → Fits n s → Fits n c → Fits n (asterisk_before s c)
unfolding asterisk_before Fits
asterisk_before-Fits zero s c h k = absurd h
asterisk_before-Fits (suc n) (concat s fs) (concat m es) h k =
    if-holds (Fits (suc n)) m.remove k (FitsEntries-append n fs es h k)

asterisk_behind-Fits : (n : ℕ) (s c : Concat) → Fits n s → Fits n c → Fits n (asterisk_behind s c)
unfolding asterisk_behind Fits
asterisk_behind-Fits zero s c h k = absurd h
asterisk_behind-Fits (suc n) (concat s fs) (concat m es) h k =
    if-holds (Fits (suc n)) s.remove h (FitsEntries-append n es fs k h)

pub process_asterisk_and_array-Fits :
    (n : ℕ) (s : Concat) (cs : Concats)
    → Fits n s
    → FitsArray n cs
    → FitsArray n (process_asterisk_and_array s cs)
unfolding process_asterisk_and_array Fits
process_asterisk_and_array-Fits n s no_element h k = tt
process_asterisk_and_array-Fits n s (element c cs) h k =
    (asterisk_before-Fits n s c h (k.0), process_asterisk_and_array-Fits n s cs h (k.1))

pub process_array_and_asterisk-Fits :
    (n : ℕ) (s : Concat) (cs : Concats)
    → Fits n s
    → FitsArray n cs
    → FitsArray n (process_array_and_asterisk cs s)
unfolding process_array_and_asterisk Fits
process_array_and_asterisk-Fits n s no_element h k = tt
process_array_and_asterisk-Fits n s (element c cs) h k =
    (asterisk_behind-Fits n s c h (k.0), process_array_and_asterisk-Fits n s cs h (k.1))

star_members-Fits :
    (n : ℕ) (s : Concat) (names : List Text) → Fits n s → FitsObject n (star_members s names)
unfolding star_members Fits
star_members-Fits n s [] h = tt
star_members-Fits n s (k ∷ names) h = (h, star_members-Fits n s names h)

pub star_entries-Fits :
    (n : ℕ) (s : Concat) (names : List Text) → Fits n s → FitsEntries n (star_entries s names)
unfolding star_entries Fits
star_entries-Fits n s [] h = tt
star_entries-Fits n s (k ∷ names) h = (star_members-Fits n s (k ∷ names) h, tt)

first_eq {ℓ κ} :
    {A : Type ℓ} {B : Type κ} {a c : A} {b d : B}
    → ◌≡◌ {A = Result (A × B)} (ok (a, b)) (ok (c, d))
    → a ≡ c
first_eq h = cc

-- The entries fit, and they are as many.
abbrev pub Respread : ℕ → Entries → Entries → Type 0
Respread n es fs = FitsEntries n fs × (entries_size fs ≡ entries_size es)

pub spread-Fits :
    (n : ℕ) (on : Concats → Concats)
    → ((cs : Concats) → FitsArray n cs → FitsArray n (on cs))
    → (es : Entries) (names : List Text) {fs : Entries} {names' : List Text} → FitsEntries n es
    → spread on es names ≡ ok (fs, names')
    → Respread n es fs
unfolding spread Fits
spread-Fits n on keeps no_entry names h k = subst (Respread n no_entry) (first_eq k) (tt, refl)
spread-Fits n on keeps (entry (array [] cs p) es) names h k =
    let ((gs, ns), t, u) = >>=-eq-ok (spread on es names) _ k in
    let (f, z) = spread-Fits n on keeps es names (h.1) t in
    subst (Respread n (entry (array [] cs p) es)) (first_eq u) ((keeps cs (h.0), f), ap suc z)
spread-Fits n on keeps (entry (array (x ∷ g) cs p) es) names h k = cc
spread-Fits n on keeps (entry (object ms p) es) names h k =
    let ((gs, ns), t, u) = >>=-eq-ok (spread on es (member_names ms names)) _ k in
    let (f, z) = spread-Fits n on keeps es (member_names ms names) (h.1) t in
    subst (Respread n (entry (object ms p) es)) (first_eq u) ((h.0, f), ap suc z)
spread-Fits n on keeps (entry e es) names h k =
    let ((gs, ns), t, u) = >>=-eq-ok (spread on es names) _ k in
    let (f, z) = spread-Fits n on keeps es names (h.1) t in
    subst (Respread n (entry e es)) (first_eq u) ((h.0, f), ap suc z)
