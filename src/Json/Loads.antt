-- ===== src/Json/Loads.antt =====
-- `json.loads(s)`: a value with white space round it. `none` is a `JSONDecodeError`. The words
-- NaN, Infinity and -Infinity, which Python accepts besides JSON, are not.
pub mod Strings
pub mod Numbers
unfoldable pub use Strings.{read_string}
unfoldable pub use Numbers.{read_number}
use unikernel_syscall_monito.Base.{
  ℕ, zero, suc, Bool, true, false, ◌||◌, Option, none, some, List, [], ◌∷◌, ◌==◌, if◌then◌else◌,
  length, drop,
}
use unikernel_syscall_monito.Base.Text.{Text, codes}
use unikernel_syscall_monito.Json.Value.{
  Json, null, bool, str, arr, obj, Items, nil, item, Fields, end, field,
}
use unikernel_syscall_monito.Py.Strip.{starts_with}

abbrev pub is_json_space : ℕ → Bool
is_json_space c = c == 32 || c == 9 || c == 10 || c == 13

unfoldable pub skip : Text → Text
skip [] = []
skip (c ∷ s) = let rest = skip s in if is_json_space c then rest else c ∷ s

-- A word or a number.
unfoldable pub read_scalar : Text → Option (Json × Text)
read_scalar s =
    if starts_with s (codes "null")
    then some (null, drop 4 s)
    else if starts_with s (codes "true")
    then some (bool true, drop 4 s)
    else if starts_with s (codes "false")
    then some (bool false, drop 5 s)
    else read_number s

-- The colon behind a key, with white space round it.
unfoldable pub read_colon : Text → Text → Option (Text × Text)
read_colon key [] = none
read_colon key (d ∷ t) = if d == b':' then some (key, skip t) else none

abbrev pub colon_after : Option (Text × Text) → Option (Text × Text)
colon_after none = none
colon_after (some (key, r)) = read_colon key (skip r)

unfoldable pub read_key : Text → Option (Text × Text)
read_key [] = none
read_key (c ∷ s) = if c == b'"' then colon_after (read_string s) else none

abbrev pub as_str : Option (Text × Text) → Option (Json × Text)
as_str none = none
as_str (some (s, r)) = some (str s, r)

abbrev pub as_arr : Option (Items × Text) → Option (Json × Text)
as_arr none = none
as_arr (some (items, r)) = some (arr items, r)

abbrev pub as_obj : Option (Fields × Text) → Option (Json × Text)
as_obj none = none
as_obj (some (fields, r)) = some (obj fields, r)

-- What stands behind an element: the end, or a comma and more, which the last argument reads.
unfoldable pub after_item : Json → Text → (Text → Option (Items × Text)) → Option (Items × Text)
after_item v [] more = none
after_item v (c ∷ r) more =
    if c == b']'
    then some (item v nil, r)
    else if c == b','
    then (elim (more (skip r)) [ none ↦ none | some (vs, t) ↦ some (item v vs, t) ])
    else none

unfoldable pub after_field :
    Text → Json → Text → (Text → Option (Fields × Text)) → Option (Fields × Text)
after_field k v [] more = none
after_field k v (c ∷ r) more =
    if c == b'}'
    then some (field k v end, r)
    else if c == b','
    then (elim (more (skip r)) [ none ↦ none | some (fs, t) ↦ some (field k v fs, t) ])
    else none

-- What stands behind an opening bracket: its end at once, or elements.
unfoldable pub first_item : Text → (Text → Option (Items × Text)) → Option (Items × Text)
first_item [] more = none
first_item (c ∷ s) more = if c == b']' then some (nil, s) else more (c ∷ s)

unfoldable pub first_field : Text → (Text → Option (Fields × Text)) → Option (Fields × Text)
first_field [] more = none
first_field (c ∷ s) more = if c == b'}' then some (end, s) else more (c ∷ s)

-- The fuel bounds the depth and the length of what is read; the text's length is enough.
unfoldable mutual
  pub read_value : ℕ → Text → Option (Json × Text)
  read_value zero s = none
  read_value (suc fuel) [] = none
  read_value (suc fuel) (c ∷ s) =
      if c == b'"'
      then as_str (read_string s)
      else if c == b'['
      then as_arr (first_item (skip s) (λ t. read_items fuel t))
      else if c == b'{'
      then as_obj (first_field (skip s) (λ t. read_fields fuel t))
      else read_scalar (c ∷ s)

  pub read_items : ℕ → Text → Option (Items × Text)
  read_items zero s = none
  read_items (suc fuel) s = elim (read_value fuel s) [
    | none ↦ none
    | some (v, r) ↦ after_item v (skip r) (λ t. read_items fuel t)
  ]

  pub read_fields : ℕ → Text → Option (Fields × Text)
  read_fields zero s = none
  read_fields (suc fuel) s = elim (read_key s) [
    | none ↦ none
    | some (k, t) ↦ elim (read_value fuel t) [
      | none ↦ none
      | some (v, r) ↦ after_field k v (skip r) (λ u. read_fields fuel u)
    ]
  ]

-- Nothing but white space may stand behind the value.
unfoldable pub at_end : Option (Json × Text) → Option Json
at_end none = none
at_end (some (v, r)) = elim (skip r) [ [] ↦ some v | _ ∷ _ ↦ none ]

unfoldable pub loads : Text → Option Json
loads s = at_end (read_value (suc (length s)) (skip s))
