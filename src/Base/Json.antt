-- ===== src/Base/Json.antt =====
-- The values of a parsed JSON or YAML document, and what the code asks of them.
use Prim.Native.String.{String}
use mathlib.Core.Bool.{Bool, true, false, not}
use mathlib.Core.Option.{Option, none, some}
use mathlib.Core.List.{List, [], ◌∷◌}
use cloudfall.Base.Equality.{◌==◌, string_eq, if◌then◌else◌}
use cloudfall.Base.Int.{ℤ, is_zero_int}

mutual
  pub data Json : Type 0 where
    null : Json
    bool : Bool → Json
    int : ℤ → Json
    str : String → Json
    arr : Items → Json
    obj : Fields → Json

  pub data Items : Type 0 where
    nil : Items
    cons : Json → Items → Items

  pub data Fields : Type 0 where
    end : Fields
    field : String → Json → Fields → Fields

-- `bool(value)`
abbrev pub truthy : Json → Bool
truthy null = false
truthy (bool b) = b
truthy (int n) = not (is_zero_int n)
truthy (str s) = not (s == "")
truthy (arr nil) = false
truthy (arr (cons _ _)) = true
truthy (obj end) = false
truthy (obj (field _ _ _)) = true

-- `fields.get(name)`
unfoldable pub get_field : String → Fields → Option Json
get_field name end = none
get_field name (field key value rest) =
    let later = get_field name rest in if name == key then some value else later

-- `items`, as a list
abbrev pub items_list : Items → List Json
items_list nil = []
items_list (cons x xs) = x ∷ items_list xs

-- the pairs of an object, in their order
abbrev pub fields_list : Fields → List (String × Json)
fields_list end = []
fields_list (field k v rest) = (k, v) ∷ fields_list rest
