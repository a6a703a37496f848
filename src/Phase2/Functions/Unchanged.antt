-- ===== src/Phase2/Functions/Unchanged.antt =====
-- phase2_functions.hpp where it reports no change.
use mathlib.Core.Path.{ap₂}
use config.Common.{
  Text, Position, ◌≡◌, ap, ◌∙◌, inl, inr, Bool-cases, Option, none, some, Result, ok, arith,
  text_eq, bytes, [], ◌∷◌,
}
use config.Counted.{lift, >>=-unchanged, value_eq}
use config.Data.{
  Entry, Concat, Entries, Concats, Members, ObjectRoot, array, object, concat, no_entry, entry,
  no_element, element, no_member, member,
}
use config.Phase2.Functions.{
  Function, FunctionMap, replaced, call, call_parse, process_function, process_entry,
  process_concat, process_entries, process_array, process_members, phase2_functions,
}

replaced-unchanged : (e : Entry) (r : Option Entry) {f : Entry} → replaced e r ≡ ok (f, 0) → f ≡ e
replaced-unchanged e none h = value_eq h
replaced-unchanged e (some g) h = ground arith

module _ (functions : FunctionMap) (parse_function : Entry → Result Entry) where
  call-unchanged :
      (name : Text) (p : Position) (e : Entry) (g : Option Function) {f : Entry}
      → call functions parse_function name p e g ≡ ok (f, 0)
      → f ≡ e
  call-unchanged name p e none h = cc
  call-unchanged name p e (some g) h =
      let (r, q, t) = >>=-unchanged (lift (g e)) _ h in replaced-unchanged e r t

  call_parse-unchanged :
      (e : Entry) {f : Entry} → call_parse functions parse_function e ≡ ok (f, 0) → f ≡ e
  call_parse-unchanged e h =
      let (r, q, t) = >>=-unchanged (lift (parse_function e)) _ h in ground arith

  process_function-unchanged :
      (name : Text) (p : Position) (e : Entry) {f : Entry}
      → process_function functions parse_function name p e ≡ ok (f, 0)
      → f ≡ e
  unfolding process_function
  process_function-unchanged name p e {f} h = elim (Bool-cases (text_eq name (bytes "parse"))) [
    | inl t ↦ call_parse-unchanged e (rw t at h)
    | inr t ↦ call-unchanged name p e (functions name) (rw t at h)
  ]

  mutual
    unfolding process_concat

    entry-same :
        (e : Entry) {f : Entry} → process_entry functions parse_function e ≡ ok (f, 0) → f ≡ e
    entry-same (array [] cs p) h =
        let (ds, q, r) = >>=-unchanged (process_array functions parse_function cs) _ h in
        value_eq r ∙ ap (λ xs. array [] xs p) (array-same cs q)
    entry-same (array (x ∷ g) cs p) h =
        let (ds, q, r) = >>=-unchanged (process_array functions parse_function cs) _ h in
        process_function-unchanged (x ∷ g) p (array (x ∷ g) ds p) r
        ∙ ap (λ xs. array (x ∷ g) xs p) (array-same cs q)
    entry-same (object ms p) h =
        let (ns, q, r) = >>=-unchanged (process_members functions parse_function ms) _ h in
        value_eq r ∙ ap (λ xs. object xs p) (members-same ms q)
    entry-same e h = value_eq h

    concat-same :
        (c : Concat) {d : Concat} → process_concat functions parse_function c ≡ ok (d, 0) → d ≡ c
    concat-same (concat m es) h =
        let (fs, q, r) = >>=-unchanged (process_entries functions parse_function es) _ h in
        value_eq r ∙ ap (concat m) (entries-same es q)

    entries-same :
        (es : Entries) {fs : Entries}
        → process_entries functions parse_function es ≡ ok (fs, 0)
        → fs ≡ es
    entries-same no_entry h = value_eq h
    entries-same (entry e es) h =
        let (f, p, h') = >>=-unchanged (process_entry functions parse_function e) _ h in
        let (fs, q, r) = >>=-unchanged (process_entries functions parse_function es) _ h' in
        value_eq r ∙ ap₂ entry (entry-same e p) (entries-same es q)

    array-same :
        (cs : Concats) {ds : Concats}
        → process_array functions parse_function cs ≡ ok (ds, 0)
        → ds ≡ cs
    array-same no_element h = value_eq h
    array-same (element c cs) h =
        let (d, p, h') = >>=-unchanged (process_concat functions parse_function c) _ h in
        let (ds, q, r) = >>=-unchanged (process_array functions parse_function cs) _ h' in
        value_eq r ∙ ap₂ element (concat-same c p) (array-same cs q)

    members-same :
        (ms : Members) {ns : Members}
        → process_members functions parse_function ms ≡ ok (ns, 0)
        → ns ≡ ms
    members-same no_member h = value_eq h
    members-same (member n c ms) h =
        let (d, p, h') = >>=-unchanged (process_concat functions parse_function c) _ h in
        let (ns, q, r) = >>=-unchanged (process_members functions parse_function ms) _ h' in
        value_eq r ∙ ap₂ (member n) (concat-same c p) (members-same ms q)

  pub phase2_functions-unchanged :
      (o : ObjectRoot) {o' : ObjectRoot}
      → phase2_functions functions parse_function o ≡ ok (o', 0)
      → o' ≡ o
  unfolding phase2_functions
  phase2_functions-unchanged o h =
      let (ms, p, r) = >>=-unchanged (process_members functions parse_function o.members) _ h in
      value_eq r ∙ ap (λ xs. record o { members = xs }) (members-same o.members p)
