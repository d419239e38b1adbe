-- ===== src/Producer/Correlation.antt =====
-- `extract_correlation_context` of rrq-rs/producer/src/lib.rs and the functions it calls. A HashMap
-- is the list of its entries, in the order in which it is iterated.
pub mod Bounds
use Prim.Native.Char.{Char, len_utf8}
use Prim.Native.String.{len, ◌++◌ as text_append, [] as text_nil, ◌∷◌ as text_cons}
use rrq.Prelude.{
  ℕ, ◌+◌, String, Bool, true, false, Option, none, some, List, [], ◌∷◌, ◌==◌, ltb, leb, ◌||◌, not,
  if◌then◌else◌, length,
}
use rrq.Keys.{bare_name}
use rrq.Job.{and_then}

-- A `serde_json::Value` as the code takes it apart. A number comes as the text it prints as.
pub data Shape (Map : Type 0) : Type 0 where
  text : String → Shape Map
  bool : Bool → Shape Map
  number : String → Shape Map
  object : Map → Shape Map
  other : Shape Map

pub record JsonValues : Type 1 where
  pub Value : Type 0
  pub Map : Type 0
  pub shape : Value → Shape Map
  pub get : Map → String → Option Value
  -- `trim` and `split('.')` of the standard library.
  pub trim : String → String
  pub split_dots : String → List String

abbrev pub Entries : Type 0
Entries = List (String × String)

-- `HashMap::get` and `HashMap::insert`.
abbrev pub entry : Entries → String → Option String
entry [] key = none
entry ((k, v) ∷ m) key = if k == key then some v else entry m key

abbrev pub insert : Entries → String → String → Entries
insert [] key value = (key, value) ∷ []
insert ((k, v) ∷ m) key value =
    let rest = insert m key value in if k == key then (key, value) ∷ m else (k, v) ∷ rest

abbrev pub some_entries : Entries → Option Entries
some_entries [] = none
some_entries (x ∷ xs) = some (x ∷ xs)

-- The loop of `truncate_utf8` over the characters that are left.
abbrev pub push_chars : String → ℕ → String → String
push_chars text_nil max_len out = out
push_chars (text_cons ch rest) max_len out =
    let pushed = push_chars rest max_len (text_append out (text_cons ch text_nil)) in
    if ltb max_len (len out + len_utf8 ch) then out else pushed

unfoldable pub truncate_utf8 : String → ℕ → String
truncate_utf8 value max_len = if leb (len value) max_len then value else push_chars value max_len ""

module _ (j : JsonValues) where
  open j use {Value, Map, shape, get}

  abbrev pub as_object : Shape Map → Option Map
  as_object (object m) = some m
  as_object s = none

  abbrev pub lookup_parts : Value → List String → Option Value
  lookup_parts current [] = some current
  lookup_parts current (part ∷ parts) =
      if part == ""
      then none
      else and_then (as_object (shape current))
          (λ m. and_then (get m part) (λ next. lookup_parts next parts))

  abbrev pub lookup_split : Map → List String → Option Value
  lookup_split params [] = none
  lookup_split params (first ∷ parts) =
      and_then (get params first) (λ current. lookup_parts current parts)

  unfoldable pub lookup_value_in_params : Map → String → Option Value
  lookup_value_in_params params path =
      let cleaned = bare_name "params." (j.trim path) in
      if cleaned == "" then none else lookup_split params (j.split_dots cleaned)

  abbrev pub scalar_value_to_string : Shape Map → Option String
  scalar_value_to_string (text v) = if v == "" then none else some v
  scalar_value_to_string (bool true) = some "true"
  scalar_value_to_string (bool false) = some "false"
  scalar_value_to_string (number v) = some v
  scalar_value_to_string s = none

  -- The value of a key: that of the trace context where it has one that is not empty.
  abbrev pub param_value : Map → String → Option String
  param_value params path =
      and_then (lookup_value_in_params params path) (λ raw. scalar_value_to_string (shape raw))

  abbrev pub traced : Option String → Option String → Option String
  traced none fallback = fallback
  traced (some existing) fallback = if existing == "" then fallback else some existing

  abbrev pub value_of : Map → Option Entries → String → String → Option String
  value_of params trace_context key path =
      traced (and_then trace_context (λ ctx. entry ctx key)) (param_value params path)

  abbrev pub insert_value : Entries → String → Option String → Entries
  insert_value correlation key none = correlation
  insert_value correlation key (some value) = insert correlation key (truncate_utf8 value 256)

  abbrev pub add_mapping : Map → Option Entries → Entries → String × String → Entries
  add_mapping params trace_context correlation (attr_name, path) =
      let key = j.trim attr_name in
      if key == "" || ltb 64 (len key)
      then correlation
      else insert_value correlation key (value_of params trace_context key path)

  unfoldable pub correlation_loop :
      Map → Option Entries → Entries → List (String × String) → Entries
  correlation_loop params trace_context correlation [] = correlation
  correlation_loop params trace_context correlation (m ∷ mappings) =
      let rest =
        correlation_loop params trace_context (add_mapping params trace_context correlation m)
          mappings in
      if leb 16 (length correlation) then correlation else rest

  unfoldable pub extract_correlation_context :
      Map → List (String × String) → Option Entries → Option Entries
  extract_correlation_context params [] trace_context = none
  extract_correlation_context params (m ∷ mappings) trace_context =
      some_entries (correlation_loop params trace_context [] (m ∷ mappings))
