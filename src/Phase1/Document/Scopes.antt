-- ===== src/Phase1/Document/Scopes.antt =====
-- key1_guard.hpp under config_grammar.hpp: the key of the state is that of the scope.
use config.Phase1.Document.Include.{load_file, Opened, opened, failed, inc_fn}
use config.Phase1.Document.{
  inc_if, include, ValuePart, ValueList, ValueLists, Statement, Document, array, object, function,
  reference, jaxn, last, plus, no_value, value, assign, remove, append, temporary, permanent, end,
  member, assigned, appended, run_part, run_parts, run_lists, run_statement, run_document,
  include_file,
}
use config.Common.{
  Position, Text, Bool, suc, ◌≡◌, refl, true, false, Result, ok, >>=-eq-ok, value_of, arith, subst,
  ℕ, zero, err, if◌then◌else◌, Error,
}
use config.Phase1.State.{
  State, guard_key, guard_list, assign_head, begin_array, begin_object, function_name, value_list,
  key1_success, temporary_extension, permanent_extension, jaxn_value, reference_value,
  set_temporary, include, inc_if,
}
use config.Phase1.Document.Keys.{
  KeptPrefix, KeptKey, KeptKey-refl, KeptKey-trans, forget_suffix, KeptPrefix-trans, kept_at,
  append_at-KeptKey, value_list-KeptPrefix, guarded-KeptKey, extension-KeptKey,
}

KeptKey-optional : (b : Bool) (st : State) → KeptKey st (record st { include_is_optional = b })
KeptKey-optional b st = record {
  prefix = refl;
  suffix = refl;
  member = refl;
  generation = omega arith;
}

module _ (load : Text → Position → State → Result State)
    (keeps : (name : Text) (p : Position) (st st' : State)
      → load name p st ≡ ok st'
      → KeptKey st st') where
  mutual
    unfolding run_part guard_key guard_list begin_array begin_object function_name jaxn_value
        reference_value assign_head temporary_extension permanent_extension include inc_if

    part_kept :
        (v : ValuePart) (st : State) {st' : State} → run_part load v st ≡ ok st' → KeptKey st st'
    part_kept (array p q vs) st h =
        let (x, a, b) = >>=-eq-ok (begin_array p st) _ h in
        KeptKey-trans (append_at-KeptKey _ _ _ st a) (
          guarded-KeptKey (guard_list q) (run_lists load vs) x refl refl (omega arith)
            (λ y. lists_kept vs (guard_list q x)) b)
    part_kept (object p ms) st h =
        let (x, a, b) = >>=-eq-ok (begin_object p st) _ h in
        KeptKey-trans (append_at-KeptKey _ _ _ st a) (document_kept ms x b)
    part_kept (function name p q vs) st h =
        let (x, a, b) = >>=-eq-ok (function_name name p st) _ h in
        KeptKey-trans (append_at-KeptKey _ _ _ st a) (
          guarded-KeptKey (guard_list q) (run_lists load vs) x refl refl (omega arith)
            (λ y. lists_kept vs (guard_list q x)) b)
    part_kept (reference r) st h = append_at-KeptKey _ _ _ st h
    part_kept (jaxn e) st h = append_at-KeptKey _ _ _ st h

    parts_kept :
        (v : ValueList) (st : State) {st' : State} → run_parts load v st ≡ ok st' → KeptKey st st'
    parts_kept (last v) st h = part_kept v st h
    parts_kept (plus v vs) st h =
        let (x, a, b) = >>=-eq-ok (run_part load v st) _ h in
        KeptKey-trans (part_kept v st a) (parts_kept vs x b)

    lists_kept :
        (vs : ValueLists) (st : State) {st' : State}
        → run_lists load vs st ≡ ok st'
        → KeptPrefix st st'
    lists_kept no_value st h = subst (KeptPrefix st) (value_of h) (forget_suffix (KeptKey-refl st))
    lists_kept (value v vs) st h =
        let (x, a, b) = >>=-eq-ok (run_parts load v st) _ h in
        let (y, c, d) = >>=-eq-ok (value_list x) _ b in
        KeptPrefix-trans (forget_suffix (parts_kept v st a))
          (KeptPrefix-trans (value_list-KeptPrefix x c) (lists_kept vs y d))

    statement_kept :
        (s : Statement) (st : State) {st' : State}
        → run_statement load s st ≡ ok st'
        → KeptKey st st'
    statement_kept (assign key v) st h =
        guarded-KeptKey (guard_key key) (assigned (run_parts load v)) st refl refl (omega arith)
          (λ x k.
            let (y, a, b) = >>=-eq-ok (assign_head (guard_key key st)) _ k in
            let (z, c, d) = >>=-eq-ok (run_parts load v y) _ b in
            KeptPrefix-trans (forget_suffix (append_at-KeptKey _ _ _ (guard_key key st) a))
              (KeptPrefix-trans (forget_suffix (parts_kept v y c)) (value_list-KeptPrefix z d)))
          h
    statement_kept (remove key) st h =
        guarded-KeptKey (guard_key key) assign_head st refl refl (omega arith)
          (λ x k. forget_suffix (append_at-KeptKey _ _ _ (guard_key key st) k)) h
    statement_kept (append key v) st h =
        guarded-KeptKey (guard_key key) (appended (run_parts load v)) st refl refl (omega arith)
          (λ x k.
            let (y, a, b) = >>=-eq-ok (run_parts load v (guard_key key st)) _ k in
            KeptPrefix-trans (forget_suffix (parts_kept v (guard_key key st) a))
              (value_list-KeptPrefix y b))
          h
    statement_kept (temporary key) st h =
        let (x, a, b) = >>=-eq-ok (key1_success key st) _ h in
        extension-KeptKey (set_temporary true) key st a b
    statement_kept (permanent key) st h =
        let (x, a, b) = >>=-eq-ok (key1_success key st) _ h in
        extension-KeptKey (set_temporary false) key st a b
    statement_kept (include_file true name p) st {st'} h =
        KeptKey-trans (KeptKey-optional true st) (keeps name p (inc_if (include st)) st' h)
    statement_kept (include_file false name p) st {st'} h =
        KeptKey-trans (KeptKey-optional false st) (keeps name p (include st) st' h)

    document_kept :
        (ms : Document) (st : State) {st' : State}
        → run_document load ms st ≡ ok st'
        → KeptKey st st'
    document_kept end st h = kept_at (value_of h) (KeptKey-refl st)
    document_kept (member s ms) st h =
        let (x, a, b) = >>=-eq-ok (run_statement load s st) _ h in
        KeptKey-trans (statement_kept s st a) (document_kept ms x b)

failed_kept :
    (st : State) {st' : State} (d e : Error) (b c : Bool)
    → (if b then if c then ok st else err d else err e) ≡ ok st'
    → KeptKey st st'
failed_kept st d e true true k = kept_at (value_of k) (KeptKey-refl st)
failed_kept st d e true false k = cc
failed_kept st d e false c k = cc

inc_fn-KeptKey :
    (parse : Document → State → Result State)
    → ((ms : Document) (st st' : State) → parse ms st ≡ ok st' → KeptKey st st')
    → (o : Opened) (p : Position) (st st' : State) → inc_fn parse o p st ≡ ok st'
    → KeptKey st st'
unfolding inc_fn
inc_fn-KeptKey parse keep (opened ms) p st st' h = keep ms st st' h
inc_fn-KeptKey parse keep (failed missing what) p st st' h =
    failed_kept st _ _ st.include_is_optional missing h

load_file-KeptKey :
    (files : Text → Opened) (fuel : ℕ) (name : Text) (p : Position) (st st' : State)
    → load_file files fuel name p st ≡ ok st'
    → KeptKey st st'
unfolding load_file
load_file-KeptKey files zero name p st st' h = cc
load_file-KeptKey files (suc fuel) name p st st' h =
    inc_fn-KeptKey (run_document (load_file files fuel))
      (λ ms x y k. document_kept (load_file files fuel) (load_file-KeptKey files fuel) ms x k)
      (files name) p st st' h

-- However values and files are nested, a document that is run to its end leaves the prefix, the
-- suffix and the key of an extension as they were, and the generation has not gone down.
pub run_document-KeptKey :
    (files : Text → Opened) (fuel : ℕ) (ms : Document) (st : State) {st' : State}
    → run_document (load_file files fuel) ms st ≡ ok st'
    → KeptKey st st'
run_document-KeptKey files fuel =
    document_kept (load_file files fuel) (load_file-KeptKey files fuel)
