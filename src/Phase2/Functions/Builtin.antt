-- ===== src/Phase2/Functions/Builtin.antt =====
-- function_traits.hpp, function_wrapper.hpp and function_implementations.hpp, the table of
-- config_parser.hpp, and `process_parse_function` of phase2_functions.hpp.
use config.Data.{
  Members, Concat, Entry, Concats, Key1Part, null, string, binary, array, asterisk, reference,
  concat, no_entry, entry, no_element, element, no_member, member,
}
use config.Common.{
  Text, text_eq, bytes, ℕ, zero, suc, Bool, true, false, Option, none, some, List, [], ◌∷◌, ◌++◌,
  Position, Result, ok, err, ◌>>=◌, parse_error, raised, invalid_string_argument, invalid_utf8,
  default_without_argument, default_without_value, print_one_argument, arguments_unready, undefined,
  is_empty, if◌then◌else◌,
}
use config.Data.Kind.{get_position}
use config.Data.Sequence.{element_at?}
use config.Data.Views.{fresh_mark, mark}
use config.Statistics.{concat_is_primitive}
use config.Events.{Events}
use config.Phase5.{phase5_repack}
use config.Phase1.State.{initial, guard_key}
use config.Phase1.Document.{ValuePart, run_part}
use config.Phase1.Document.Include.{Opened, load_file}
use config.Phase2.Functions.{Function, FunctionMap, catch_unready}

-- What the functions use of the system, of PEGTL and of the json library.
pub record System : Type 0 where
  -- std::getenv, and the contents of a file and the output of a shell command, or their errors
  pub getenv : Text → Option Text
  pub read_file : Text → Result Text
  pub shell_popen : Position → Text → Result Text
  pub validate_utf8 : Text → Bool
  -- the JAXN grammar, and its printer on the calls that make a value
  pub parse_jaxn : Text → Result Entry
  pub to_jaxn : Events → Text
  -- pegtl::space, and the position of a byte of a text
  pub is_space : ℕ → Bool
  pub position_in : Text → ℕ → Position
  -- pegtl::file_input for an included file, and a bound for the nesting of these
  pub open_file : Text → Opened
  pub nesting : ℕ
  -- the match of rules::value
  pub parse_value : Text → Position → Result ValuePart

-- A function is a call on its arguments at the position of its array; other entries are none.
abbrev on_array : (Position → Concats → Result (Option Entry)) → Function
on_array f (array name cs p) = f p cs
on_array f e = err undefined

unfoldable pub function_traits_entry : Concats → ℕ → Result Entry
function_traits_entry cs i = elim (element_at? cs i) [
  | none ↦ err undefined
  | some (concat m no_entry) ↦ err undefined
  | some (concat m (entry e no_entry)) ↦ ok e
  | some (concat m (entry e (entry f es))) ↦ err arguments_unready
]

unfoldable pub default_from : Position → Concats → Result (Option Entry)
default_from p no_element = err (parse_error default_without_value p)
default_from p (element (concat m (entry (null q) no_entry)) cs) = default_from p cs
default_from p (element (concat m (entry (array f ds q) no_entry)) cs) =
    if is_empty f then ok (some (array f ds q)) else ok none
default_from p (element (concat m (entry (asterisk c) no_entry)) cs) = ok none
default_from p (element (concat m (entry (reference r) no_entry)) cs) = ok none
default_from p (element (concat m (entry e no_entry)) cs) = ok (some e)
default_from p (element (concat m es) cs) = ok none

abbrev default_arguments : Position → Concats → Result (Option Entry)
default_arguments p no_element = err (parse_error default_without_argument p)
default_arguments p (element c cs) = default_from p (element c cs)

unfoldable pub default_function : Function
unfolding default_from
default_function = on_array default_arguments

abbrev pub flush : ℕ → Text → List (ℕ × Text)
flush start [] = []
flush start (c ∷ word) = (start, c ∷ word) ∷ []

-- The words that `split_rule` matches, each with the offset of its first byte; `word` is the part
-- of a word that has been read, from `start` on.
unfoldable pub split_words : (ℕ → Bool) → ℕ → ℕ → Text → Text → List (ℕ × Text)
split_words is_space offset start word [] = flush start word
split_words is_space offset start word (c ∷ text) =
    let gap = flush start word ++ split_words is_space (suc offset) start [] text in
    let on =
      split_words is_space (suc offset) (if is_empty word then offset else start) (word ++ c ∷ [])
        text in
    if is_space c then gap else on

module _ (sys : System) where
  unfoldable pub get_string : Concats → ℕ → Result Text
  unfolding function_traits_entry
  get_string cs i = do
    e ← function_traits_entry cs i
    elim e [
      | string s p ↦ ok s
      | binary b p ↦ if sys.validate_utf8 b then ok b else err (parse_error invalid_utf8 p)
      | other ↦ err (parse_error invalid_string_argument (get_position other))
    ]

  -- `wrap` of a function of one text, and of two
  unfoldable pub wrap1 : (Position → Text → Result Entry) → Function
  unfolding get_string
  wrap1 x = on_array λ p cs. catch_unready (do s ← get_string cs 0; e ← x p s; ok (some e))

  unfoldable pub wrap2 : (Position → Text → Text → Result Entry) → Function
  unfolding get_string
  wrap2 x =
      on_array λ p cs.
        catch_unready (do s ← get_string cs 0; t ← get_string cs 1; e ← x p s t; ok (some e))

  abbrev binary_function : Position → Text → Result Entry
  binary_function p s = ok (binary s p)

  abbrev env_function : Position → Text → Result Entry
  env_function p s = elim (sys.getenv s) [
    | none ↦ err (parse_error (raised s) p)
    | some v ↦ ok (string v p)
  ]

  abbrev env_if_function : Position → Text → Text → Result Entry
  env_if_function p s d = elim (sys.getenv s) [ none ↦ ok (string d p) | some v ↦ ok (string v p) ]

  abbrev jaxn_function : Position → Text → Result Entry
  jaxn_function p s = sys.parse_jaxn s

  abbrev read_function : Position → Text → Result Entry
  read_function p s = do d ← sys.read_file s; ok (binary d p)

  abbrev shell_function : Position → Text → Result Entry
  shell_function p s = do d ← sys.shell_popen p s; ok (string d p)

  abbrev pub string_function : Position → Text → Result Entry
  string_function p s = ok (string s p)

  abbrev split_elements : Position → Text → List (ℕ × Text) → Concats
  split_elements p s [] = no_element
  split_elements p s ((i, w) ∷ words) =
      element (concat (fresh_mark p) (entry (string w (sys.position_in s i)) no_entry))
        (split_elements p s words)

  abbrev split_function : Position → Text → Result Entry
  split_function p s = ok (array [] (split_elements p s (split_words sys.is_space 0 0 [] s)) p)

  unfoldable pub print_primitive : Concat → Bool → Result (Option Entry)
  unfolding phase5_repack
  print_primitive c true = do
    es ← phase5_repack [] c
    ok (some (string (sys.to_jaxn es) (mark c).position))
  print_primitive c false = ok none

  abbrev print_arguments : Position → Concats → Result (Option Entry)
  unfolding concat_is_primitive print_primitive
  print_arguments p (element c no_element) = print_primitive c (concat_is_primitive c)
  print_arguments p cs = err (parse_error print_one_argument p)

  unfoldable pub print_function : Function
  unfolding print_primitive concat_is_primitive
  print_function = on_array print_arguments

  -- The table of the constructor of `config_parser`.
  unfoldable pub builtin : FunctionMap
  unfolding wrap1 wrap2 default_function print_function split_words
  builtin name =
      if text_eq name (bytes "binary")
      then some (wrap1 binary_function)
      else if text_eq name (bytes "default")
      then some default_function
      else if text_eq name (bytes "env")
      then some (wrap1 env_function)
      else if text_eq name (bytes "env?")
      then some (wrap2 env_if_function)
      else if text_eq name (bytes "jaxn")
      then some (wrap1 jaxn_function)
      else if text_eq name (bytes "print")
      then some print_function
      else if text_eq name (bytes "read")
      then some (wrap1 read_function)
      else if text_eq name (bytes "shell")
      then some (wrap1 shell_function)
      else if text_eq name (bytes "split")
      then some (wrap1 split_function)
      else if text_eq name (bytes "string")
      then some (wrap1 string_function)
      else none

  -- The one entry of the one member of the root that the nested parse has filled.
  abbrev pub parsed_entry : Members → Result Entry
  parsed_entry (member k (concat m (entry e no_entry)) no_member) = ok e
  parsed_entry ms = err undefined

  abbrev parse_text : Position → Text → Result Entry
  parse_text p s = do
    v ← sys.parse_value s p
    st ←
        run_part (load_file sys.open_file sys.nesting) v
          (guard_key (Key1Part.name (zero ∷ []) p ∷ []) initial)
    parsed_entry st.root.members

  -- The handler for arguments that are not ready leaves the entry as it is.
  abbrev unless_unready : Entry → Result Entry → Result Entry
  unless_unready e (err arguments_unready) = ok e
  unless_unready e r = r

  unfoldable pub process_parse_function : Entry → Result Entry
  unfolding get_string run_part guard_key load_file
  process_parse_function (array f cs p) =
      unless_unready (array f cs p) (do s ← get_string cs 0; parse_text p s)
  process_parse_function e = err undefined
