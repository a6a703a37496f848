-- ===== src/Phase2/Asterisks/Runs.antt =====
-- phase2_asterisks.hpp: where no concat is nested deeper than the fuel says, the fuel does not run out.
use config.Common.{
  ℕ, zero, suc, ◌≤◌, ◌≡◌, refl, subst, ◌⊎◌, inl, inr, Result, ok, err, out_of_fuel, Error, arith,
  Text, List, [], ◌∷◌, ◌>>=◌ as ◌>>=ᵣ◌,
}
use config.Counted.{lift-eq-ok, >>=-eq-ok, Counted, unchanged, add_changes, lift, ◌>>=◌}
use config.Data.{
  Entry, Concat, Entries, Concats, Members, array, object, asterisk, concat, no_entry, entry,
  no_element, element, no_member, member,
}
use config.Data.Sequence.{entries_size}
use config.Phase2.Asterisks.{
  process_elements, process_members, process_single, process_entry, process_from, process_concat,
  process_asterisk, spread, member_names,
}
use config.Phase2.Asterisks.Fits.{
  Fits, FitsEntries, FitsEntry, FitsArray, FitsObject, spread-Fits, star_entries-Fits,
  FitsEntries-append, process_asterisk_and_array-Fits, process_array_and_asterisk-Fits,
}

-- The fuel has not run out.
abbrev pub IsOther : Error → Type 0
IsOther out_of_fuel = ⊥
IsOther _ = Unit {0}

abbrev pub Runs {ℓ} : {A : Type ℓ} → Result A → Type 0
Runs (ok a) = Unit {0}
Runs (err e) = IsOther e

add_changes-Runs {ℓ} : {A : Type ℓ} (n : ℕ) (m : Counted A) → Runs m → Runs (add_changes n m)
add_changes-Runs n (ok (a, k)) r = tt
add_changes-Runs n (err e) r = r

pub >>=-Runs {ℓ κ} :
    {A : Type ℓ} {B : Type κ} (m : Counted A) (f : A → Counted B)
    → Runs m
    → ((a : A) (n : ℕ) → m ≡ ok (a, n) → Runs (f a))
    → Runs (m >>= f)
>>=-Runs (ok (a, n)) f r k = add_changes-Runs n (f a) (k a n refl)
>>=-Runs (err e) f r k = r

lift-Runs {ℓ} : {A : Type ℓ} (m : Result A) → Runs m → Runs (lift m)
lift-Runs (ok a) r = tt
lift-Runs (err e) r = r

bind-Runs {ℓ κ} :
    {A : Type ℓ} {B : Type κ} (m : Result A) (f : A → Result B)
    → Runs m
    → ((a : A) → Runs (f a))
    → Runs (m >>=ᵣ f)
bind-Runs (ok a) f r k = k a
bind-Runs (err e) f r k = r

spread-Runs :
    (on : Concats → Concats) (es : Entries) (names : List Text) → Runs (spread on es names)
unfolding spread
spread-Runs on no_entry names = tt
spread-Runs on (entry (array [] cs p) es) names =
    bind-Runs (spread on es names) _ (spread-Runs on es names) (λ r. tt)
spread-Runs on (entry (array (x ∷ f) cs p) es) names = tt
spread-Runs on (entry (object ms p) es) names =
    bind-Runs (spread on es (member_names ms names)) _ (spread-Runs on es (member_names ms names))
      (λ r. tt)
spread-Runs on (entry e es) names =
    bind-Runs (spread on es names) _ (spread-Runs on es names) (λ r. tt)

process_asterisk-Runs :
    (before : Entries) (star : Concat) (after : Entries) → Runs (process_asterisk before star after)
unfolding process_asterisk
process_asterisk-Runs before star after =
    >>=-Runs (lift (spread _ before [])) _ (lift-Runs _ (spread-Runs _ before [])) (λ a n h.
      >>=-Runs (lift (spread _ after (a.1))) _ (lift-Runs _ (spread-Runs _ after (a.1)))
        (λ b k i. tt))

-- Where the iterator has not reached the end, the entries on both sides of it fit, and those from
-- it on are fewer by one.
abbrev Ready : ℕ → Entries → Entries × Entries → Type 0
Ready n es (before, after) =
    (after ≡ no_entry)
    ⊎ (FitsEntries n before × FitsEntries n after × (entries_size after ≡ entries_size es))

error_eq {ℓ} : {A : Type ℓ} {d e : Error} → ◌≡◌ {A = Result A} (err d) (err e) → d ≡ e
error_eq h = cc

pair_eq {ℓ} : {A : Type ℓ} {a b : A} {j k : ℕ} → ◌≡◌ {A = Counted A} (ok (a, j)) (ok (b, k)) → a ≡ b
pair_eq h = cc

process_asterisk-Ready :
    (n : ℕ) (before : Entries) (star : Concat) (after : Entries) {r : Entries × Entries} {k : ℕ}
    → FitsEntries n before
    → Fits n star
    → FitsEntries n after
    → process_asterisk before star after ≡ ok (r, k)
    → Ready n after r
unfolding process_asterisk
process_asterisk-Ready n before star after h s a q =
    let ((b', ns), i, j, t, u, v) = >>=-eq-ok (lift (spread _ before [])) _ q in
    let ((a', ms), i', j', t', u', v') = >>=-eq-ok (lift (spread _ after ns)) _ u in
    let (f, z) =
      spread-Fits n _ (λ cs c. process_array_and_asterisk-Fits n star cs s c) before [] h
        (lift-eq-ok _ t) in
    let (g, y) =
      spread-Fits n _ (λ cs c. process_asterisk_and_array-Fits n star cs s c) after ns a
        (lift-eq-ok _ t') in
    subst (Ready n after) (pair_eq u')
      (inr (FitsEntries-append n b' _ f (star_entries-Fits n star ms s), g, y))

module _ (n : ℕ) (rec : Concat → Counted Concat)
    (runs : (c : Concat) → Fits n c → Runs (rec c)) where
  process_elements-Runs : (cs : Concats) → FitsArray n cs → Runs (process_elements rec cs)
  unfolding Fits
  process_elements-Runs no_element h = tt
  process_elements-Runs (element c cs) h = >>=-Runs (rec c) _ (runs c (h.0)) (λ d k t.
      >>=-Runs (process_elements rec cs) _ (process_elements-Runs cs (h.1)) (λ ds j u. tt))

  pub process_members-Runs : (ms : Members) → FitsObject n ms → Runs (process_members rec ms)
  unfolding Fits
  process_members-Runs no_member h = tt
  process_members-Runs (member key c ms) h =
      >>=-Runs (rec c) _ (runs c (h.0)) (λ d k t.
        >>=-Runs (process_members rec ms) _ (process_members-Runs ms (h.1)) (λ ds j u. tt))

  process_single-Runs : (e : Entry) → FitsEntry n e → Runs (process_single rec e)
  unfolding Fits process_single
  process_single-Runs (array f cs p) h =
      >>=-Runs (process_elements rec cs) _ (process_elements-Runs cs h) (λ ds k t. tt)
  process_single-Runs (object ms p) h =
      >>=-Runs (process_members rec ms) _ (process_members-Runs ms h) (λ ds k t. tt)
  process_single-Runs e h = tt

  process_entry-Runs :
      (before : Entries) (e : Entry) (es : Entries)
      → FitsEntry n e
      → Runs (process_entry rec before e es)
  unfolding process_entry
  process_entry-Runs before (asterisk star) es h = process_asterisk-Runs before star es
  process_entry-Runs no_entry e no_entry h =
      >>=-Runs (process_single rec e) _ (process_single-Runs e h) (λ f k t. tt)
  process_entry-Runs before e es h = tt

  process_entry-Ready :
      (before : Entries) (e : Entry) (es : Entries) {r : Entries × Entries} {k : ℕ}
      → FitsEntries n before
      → FitsEntry n e
      → FitsEntries n es
      → process_entry rec before e es ≡ ok (r, k)
      → Ready n es r
  unfolding process_entry Fits
  process_entry-Ready before (asterisk star) es h s a q =
      process_asterisk-Ready n before star es h s a q
  process_entry-Ready no_entry e no_entry h s a q =
      let (f, i, j, t, u, v) =
        >>=-eq-ok (process_single rec e) (λ f. unchanged (entry f no_entry, no_entry)) q in
      subst (Ready n no_entry) (pair_eq u) (inl refl)
  process_entry-Ready before e es h s a q =
      subst (Ready n es) (pair_eq q)
        (inr (FitsEntries-append n before (entry e no_entry) h (s, tt), a, refl))

  process_from-end :
      (m : ℕ) (before after : Entries) → after ≡ no_entry → Runs (process_from rec m before after)
  unfolding process_from
  process_from-end zero before no_entry p = tt
  process_from-end (suc m) before no_entry p = tt
  process_from-end m before (entry e es) p = cc

  go_on :
      (m : ℕ) (es : Entries) (r : Entries × Entries)
      → Ready n es r
      → entries_size es ≤ m
      → (FitsEntries n (r.0)
          → FitsEntries n (r.1)
          → entries_size (r.1) ≤ m
          → Runs (process_from rec m (r.0) (r.1)))
      → Runs (process_from rec m (r.0) (r.1))
  go_on m es r (inl p) l next = process_from-end m (r.0) (r.1) p
  go_on m es r (inr (f, g, z)) l next = next f g (omega arith)

  process_from-Runs :
      (m : ℕ) (before es : Entries)
      → FitsEntries n before
      → FitsEntries n es
      → entries_size es ≤ m
      → Runs (process_from rec m before es)
  unfolding process_from Fits
  process_from-Runs zero before no_entry h a l = tt
  process_from-Runs (suc m) before no_entry h a l = tt
  process_from-Runs zero before (entry e es) h a l = absurd (omega arith)
  process_from-Runs (suc m) before (entry e es) h a l =
      >>=-Runs (process_entry rec before e es) _ (process_entry-Runs before e es (a.0)) (λ r k t.
        go_on m es r (process_entry-Ready before e es h (a.0) (a.1) t) (omega arith)
          (process_from-Runs m (r.0) (r.1)))

pub process_concat-Runs : (fuel : ℕ) (c : Concat) → Fits fuel c → Runs (process_concat fuel c)
unfolding Fits process_concat
process_concat-Runs zero c h = absurd h
process_concat-Runs (suc fuel) (concat m es) h =
    >>=-Runs (process_from (process_concat fuel) (entries_size es) no_entry es) _
      (process_from-Runs fuel (process_concat fuel) (process_concat-Runs fuel) (entries_size es)
        no_entry es tt h (omega arith))
      (λ fs k t. tt)

pub not_fuel {ℓ} : {A : Type ℓ} (m : Result A) → Runs m → ¬ (m ≡ err out_of_fuel)
not_fuel (ok a) r h = cc
not_fuel (err e) r h = subst IsOther (error_eq h) r
