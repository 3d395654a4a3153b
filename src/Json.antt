-- ===== src/Json.antt =====
-- `serde_json::Value`, with the accessors that the code uses. A number is kept as its text.
use tron_hawk.Common.{
  Bool, true, false, Option, none, some, List, [], ◌∷◌, Str, str_eq, is_empty, if◌then◌else◌,
}
use tron_hawk.Common.Map.{Map, lookup}

mutual
  pub data Json : Type 0 where
    null : Json
    boolean : Bool → Json
    number : Str → Json
    string : Str → Json
    array : Items → Json
    object : Fields → Json

  pub data Items : Type 0 where
    nil : Items
    cons : Json → Items → Items

  pub data Fields : Type 0 where
    end : Fields
    field : Str → Json → Fields → Fields

abbrev pub items : Items → List Json
items nil = []
items (cons v vs) = v ∷ items vs

-- The entries of an object, by key in `serde_json`'s order.
abbrev pub entries : Fields → Map Json
entries end = []
entries (field k v fs) = (k, v) ∷ entries fs

abbrev pub is_null : Json → Bool
is_null null = true
is_null _ = false

abbrev pub is_string : Json → Bool
is_string (string s) = true
is_string _ = false

abbrev pub is_number : Json → Bool
is_number (number n) = true
is_number _ = false

abbrev pub is_boolean : Json → Bool
is_boolean (boolean b) = true
is_boolean _ = false

abbrev pub as_str : Json → Option Str
as_str (string s) = some s
as_str _ = none

abbrev pub as_array : Json → Option (List Json)
as_array (array vs) = some (items vs)
as_array _ = none

abbrev pub as_object : Json → Option (Map Json)
as_object (object fs) = some (entries fs)
as_object _ = none

-- `value.get(key)`
abbrev pub get : Str → Json → Option Json
get k (object fs) = lookup k (entries fs)
get k _ = none

-- `params.is_null() || params.as_object().is_some_and(Map::is_empty)`
abbrev pub is_empty_params : Json → Bool
is_empty_params null = true
is_empty_params (object fs) = is_empty (entries fs)
is_empty_params _ = false

-- The text of a struct with one text field that denies others: an object or an array of just that.
abbrev pub fields_only : Str → Json → Option Str
fields_only name (object (field k (string s) end)) = if str_eq k name then some s else none
fields_only name (array (cons (string s) nil)) = some s
fields_only name _ = none
