-- ===== src/Phase2/Access/Scopes.antt =====
-- phase2_access.hpp against the meaning of a key: the path through objects and arrays, from the
-- innermost scope in which it can be followed.
use config.Data.{
  KeyPath, Concat, Members, ObjectRoot, Key1Part, Mark, array, object, asterisk, reference, concat,
  no_entry, entry, Concats,
}
use config.Common.{
  take-length_self, Text, ℕ, zero, suc, ℤ, pos, negsuc, ◌≤◌, ◌≡◌, refl, sym, subst, ap, ◌∙◌, Bool,
  true, false, Option, none, some, [], ◌∷◌, ◌++◌, take, length, Position, ok, err, Error, Message,
  >>=-eq-ok, arith, if◌then◌else◌, parse_error, phase2_access_return,
}
use config.Data.Dict.{find}
use config.Data.Sequence.{element_at?}
use config.Statistics.{concat_is_primitive}
use config.Phase2.Access.{
  Found, decrement, missing, or_missing, phase2_access_name, phase2_access_index,
  phase2_access_part, phase2_access, access_scope, or_else, access_scopes, catch_return,
  access_root,
}

-- The path leads from one concat to the other; each concat on the way holds one entry.
pub data Reaches : KeyPath → Concat → Concat → Type 0 where
  here : {c : Concat} → Reaches [] c c
  at_name :
      {n : Text} {p q : Position} {m : Mark} {ms : Members} {path : KeyPath} {c d : Concat}
      → find n ms ≡ some c
      → Reaches path c d
      → Reaches (Key1Part.name n p ∷ path) (concat m (entry (object ms q) no_entry)) d
  at_index :
      {i : ℕ} {p q : Position} {m : Mark} {f : Text} {cs : Concats} {path : KeyPath} {c d : Concat}
      → element_at? cs i ≡ some c
      → Reaches path c d
      → Reaches (Key1Part.index i p ∷ path) (concat m (entry (array f cs q) no_entry)) d

-- The same from the root.
pub data ReachesFrom (o : ObjectRoot) : KeyPath → Concat → Type 0 where
  at_member :
      {n : Text} {p : Position} {path : KeyPath} {c d : Concat}
      → find n o.members ≡ some c
      → Reaches path c d
      → ReachesFrom o (Key1Part.name n p ∷ path) d

missing-some : (down : ℤ) (e : Error) (d : Concat) → ¬ (missing down (err e) ≡ ok (some d))
missing-some (pos n) e d h = cc
missing-some (negsuc n) e d h = cc

or_missing-some :
    (down : ℤ) (m : Message) (p : Position) (next : Concat → Found) (o : Option Concat) {d : Concat}
    → or_missing down m p next o ≡ ok (some d)
    → (c : Concat) × (o ≡ some c) × (next c ≡ ok (some d))
or_missing-some down m p next none {d} h = absurd (missing-some down (parse_error m p) d h)
or_missing-some down m p next (some c) h = (c, refl, h)

-- What a lookup gives: the concat at the end of the path, which is primitive.
abbrev Lookup : KeyPath → Concat → Concat → Type 0
Lookup path c d = Reaches path c d × (concat_is_primitive d ≡ true)

end_found :
    (b : Bool) (c : Concat) {d : Concat}
    → ◌≡◌ {A = Found} (if b then ok (some c) else err phase2_access_return) (ok (some d))
    → (d ≡ c) × (b ≡ true)
end_found true c h = (cc, refl)
end_found false c h = cc

name_found :
    (path : KeyPath) (p : Position) (n : Text) (down : ℤ) (c : Concat) {d : Concat}
    → ((b : Concat) → phase2_access path (decrement down) b ≡ ok (some d) → Lookup path b d)
    → phase2_access_name (phase2_access path (decrement down)) p n down c ≡ ok (some d)
    → Lookup (Key1Part.name n p ∷ path) c d
unfolding phase2_access_name
name_found path p n down (concat m no_entry) {d} ih h = absurd (missing-some down _ d h)
name_found path p n down (concat m (entry e (entry f es))) ih h = cc
name_found path p n down (concat m (entry (array f cs q) no_entry)) {d} ih h =
    absurd (missing-some down _ d h)
name_found path p n down (concat m (entry (object ms q) no_entry)) ih h =
    let (c, e, k) = or_missing-some down _ p _ (find n ms) h in (at_name e (ih c k).0, (ih c k).1)
name_found path p n down (concat m (entry (asterisk c) no_entry)) {d} ih h =
    absurd (missing-some down _ d h)
name_found path p n down (concat m (entry (reference r) no_entry)) ih h = cc
name_found path p n down (concat m (entry e no_entry)) ih h = cc

index_found :
    (path : KeyPath) (p : Position) (i : ℕ) (down : ℤ) (c : Concat) {d : Concat}
    → ((b : Concat) → phase2_access path (decrement down) b ≡ ok (some d) → Lookup path b d)
    → phase2_access_index (phase2_access path (decrement down)) p i down c ≡ ok (some d)
    → Lookup (Key1Part.index i p ∷ path) c d
unfolding phase2_access_index
index_found path p i down (concat m no_entry) {d} ih h = absurd (missing-some down _ d h)
index_found path p i down (concat m (entry e (entry f es))) ih h = cc
index_found path p i down (concat m (entry (array f cs q) no_entry)) ih h =
    let (c, e, k) = or_missing-some down _ p _ (element_at? cs i) h in
    (at_index e (ih c k).0, (ih c k).1)
index_found path p i down (concat m (entry (asterisk c) no_entry)) {d} ih h =
    absurd (missing-some down _ d h)
index_found path p i down (concat m (entry e no_entry)) ih h = cc

access_reaches :
    (path : KeyPath) (down : ℤ) (c : Concat) {d : Concat}
    → phase2_access path down c ≡ ok (some d)
    → Lookup path c d
unfolding phase2_access phase2_access_part
access_reaches [] down c h =
    let (e, t) = end_found (concat_is_primitive c) c h in subst (Lookup [] c) (sym e) (here, t)
access_reaches (Key1Part.asterisk p ∷ path) down c h = cc
access_reaches (Key1Part.name n p ∷ path) down c h =
    name_found path p n down c (λ b k. access_reaches path (decrement down) b k) h
access_reaches (Key1Part.index i p ∷ path) down c h =
    index_found path p i down c (λ b k. access_reaches path (decrement down) b k) h
access_reaches (Key1Part.append g p ∷ path) down c h = cc

scope_reaches :
    (o : ObjectRoot) (path : KeyPath) (down : ℤ) {d : Concat}
    → access_scope o path down ≡ ok (some d)
    → ReachesFrom o path d × (concat_is_primitive d ≡ true)
unfolding access_scope
scope_reaches o [] down h = cc
scope_reaches o (Key1Part.name n p ∷ path) down {d} h = at_found (find n o.members) refl h
  where
    at_found :
        (found : Option Concat)
        → find n o.members ≡ found
        → ◌≡◌ {A = Found}
            (elim found [ none ↦ ok none | some c ↦ phase2_access path (decrement down) c ])
            (ok (some d))
        → ReachesFrom o (Key1Part.name n p ∷ path) d × (concat_is_primitive d ≡ true)
    at_found none e h = cc
    at_found (some c) e h =
        let (r, t) = access_reaches path (decrement down) c h in (at_member e r, t)
scope_reaches o (part ∷ path) down h = cc

-- One of the first `n` parts of the prefix, or none, leads to the primitive concat.
abbrev pub FoundWithin : ObjectRoot → KeyPath → KeyPath → ℕ → Concat → Type 0
FoundWithin o prefix suffix n d =
    (k : ℕ) × (k ≤ n) × ReachesFrom o (take k prefix ++ suffix) d × (concat_is_primitive d ≡ true)

further :
    (o : ObjectRoot) (prefix suffix : KeyPath) (n : ℕ) (d : Concat)
    → FoundWithin o prefix suffix n d
    → FoundWithin o prefix suffix (suc n) d
further o prefix suffix n d (k, l, r, t) = (k, omega arith, r, t)

scopes_reach :
    (o : ObjectRoot) (prefix suffix : KeyPath) (n : ℕ) {d : Concat}
    → access_scopes o prefix suffix n ≡ ok (some d)
    → FoundWithin o prefix suffix n d
unfolding access_scopes
scopes_reach o prefix suffix zero h =
    let (r, t) = scope_reaches o suffix (pos 0) h in (0, omega arith, r, t)
scopes_reach o prefix suffix (suc n) {d} h =
    let (found, p, q) =
      >>=-eq-ok (access_scope o (take (suc n) prefix ++ suffix) (pos (suc n))) _ h in
    next found (scopes_reach o prefix suffix n) p q
  where
    next :
        (found : Option Concat)
        → (access_scopes o prefix suffix n ≡ ok (some d) → FoundWithin o prefix suffix n d)
        → access_scope o (take (suc n) prefix ++ suffix) (pos (suc n)) ≡ ok found
        → or_else found (access_scopes o prefix suffix n) ≡ ok (some d)
        → FoundWithin o prefix suffix (suc n) d
    next none ih p q = further o prefix suffix n d (ih q)
    next (some c) ih p q = let (r, t) = scope_reaches o _ _ (p ∙ q) in (suc n, omega arith, r, t)

catch_return-some : (r : Found) {d : Concat} → catch_return r ≡ ok (some d) → r ≡ ok (some d)
catch_return-some (ok o) h = h
catch_return-some (err phase2_access_return) h = cc
catch_return-some (err e) h = cc

-- What a lookup returns is primitive, and it is what the key means in the scope of some first part
-- of the prefix: each concat on the way to it holds one entry.
pub access_root-found :
    (o : ObjectRoot) (prefix suffix : KeyPath) {d : Concat}
    → access_root o prefix suffix ≡ ok (some d)
    → FoundWithin o prefix suffix (length prefix) d
unfolding access_root
access_root-found o prefix [] h = cc
access_root-found o prefix (part ∷ suffix) h =
    scopes_reach o prefix (part ∷ suffix) (length prefix) (catch_return-some _ h)

reaches_access :
    (path : KeyPath) (down : ℤ) {c d : Concat}
    → Reaches path c d
    → concat_is_primitive d ≡ true
    → phase2_access path down c ≡ ok (some d)
unfolding phase2_access phase2_access_part phase2_access_name phase2_access_index
reaches_access [] down here t = rw t
reaches_access (Key1Part.name n p ∷ path) down (at_name e r) t =
    rw e (reaches_access path (decrement down) r t)
reaches_access (Key1Part.index i p ∷ path) down (at_index e r) t =
    rw e (reaches_access path (decrement down) r t)
reaches_access (Key1Part.asterisk p ∷ path) down r t = elim r [ ]
reaches_access (Key1Part.append g p ∷ path) down r t = elim r [ ]

reaches_scope :
    (path : KeyPath) (o : ObjectRoot) (down : ℤ) {d : Concat}
    → ReachesFrom o path d
    → concat_is_primitive d ≡ true
    → access_scope o path down ≡ ok (some d)
unfolding access_scope
reaches_scope (Key1Part.name n p ∷ path) o down (at_member e r) t =
    rw (e, access_scope) (reaches_access path (decrement down) r t)
reaches_scope [] o down r t = elim r [ ]
reaches_scope (Key1Part.index i p ∷ path) o down r t = elim r [ ]
reaches_scope (Key1Part.asterisk p ∷ path) o down r t = elim r [ ]
reaches_scope (Key1Part.append g p ∷ path) o down r t = elim r [ ]

-- The innermost scope wins: where the whole prefix and the suffix lead to a primitive concat, that
-- is what is found, whatever the outer scopes hold.
pub access_root-innermost :
    (o : ObjectRoot) (prefix : KeyPath) (part : Key1Part) (suffix : KeyPath) {d : Concat}
    → ReachesFrom o (prefix ++ part ∷ suffix) d
    → concat_is_primitive d ≡ true
    → access_root o prefix (part ∷ suffix) ≡ ok (some d)
unfolding access_root access_scopes
access_root-innermost o [] part suffix r t = ap catch_return (reaches_scope _ o (pos 0) r t)
access_root-innermost o (q ∷ prefix) part suffix {d} r t =
    rw (take-length_self prefix)
      (rw (reaches_scope (q ∷ (prefix ++ part ∷ suffix)) o (pos (suc (length prefix))) r t))
