-- ===== src/Base/Json.antt =====
-- What `json.loads` returns. The numbers are the whole ones from zero on, as the ids are that the
-- program reads; an object holds each key once.
use openmodelops.Base.{
  ℕ, String, Bool, true, false, not, Option, none, some, List, [], ◌∷◌, if◌then◌else◌, ◌==◌,
  eq_of_string, nat_eq, is_empty, Result, ok, err, attribute_error,
}

mutual
  pub data Json : Type 0 where
    null : Json
    boolean : Bool → Json
    number : ℕ → Json
    text : String → Json
    array : Items → Json
    object : Fields → Json

  pub data Items : Type 0 where
    no_items : Items
    item : Json → Items → Items

  pub data Fields : Type 0 where
    no_fields : Fields
    field : String → Json → Fields → Fields

-- The elements of a list.
abbrev pub to_list : Items → List Json
to_list no_items = []
to_list (item x xs) = x ∷ to_list xs

-- `d.get(key)` of a dict
unfoldable pub get_field : String → Fields → Option Json
get_field key no_fields = none
get_field key (field k x fs) = let rest = get_field key fs in if k == key then some x else rest

-- `d.get(key, default)`
abbrev pub or_default : Json → Option Json → Json
or_default default none = default
or_default default (some x) = x

abbrev pub has_items : Items → Bool
has_items no_items = false
has_items (item x xs) = true

abbrev pub has_fields : Fields → Bool
has_fields no_fields = false
has_fields (field k x fs) = true

-- `bool(x)`
abbrev pub truthy : Json → Bool
truthy null = false
truthy (boolean b) = b
truthy (number n) = not (nat_eq n 0)
truthy (text s) = not (is_empty s)
truthy (array xs) = has_items xs
truthy (object fs) = has_fields fs

-- `x or default`
abbrev pub or_else : Json → Json → Json
or_else x default = if truthy x then x else default

abbrev pub type_name : Json → String
type_name null = "NoneType"
type_name (boolean b) = "bool"
type_name (number n) = "int"
type_name (text s) = "str"
type_name (array xs) = "list"
type_name (object fs) = "dict"

-- The fields of `x` in `x.get(...)`, which only a dict has.
abbrev pub fields_of : Json → Result Fields
fields_of (object fs) = ok fs
fields_of x = err (attribute_error (type_name x))
