-- ===== src/Models/Json.antt =====
-- JSON values, as `model_dump(mode="json")` returns them. A number is kept as its literal.
use Prim.Native.String.{String}
use mathlib.Core.Bool.{Bool, true, false, ◌&&◌}
use mathlib.Core.Option.{Option, none, some}
use mathlib.Core.List.{List, [], ◌∷◌}
use skill_governance_control.Base.{◌==◌, string_eq, if◌then◌else◌}

mutual
  pub data Value : Type 0 where
    null : Value
    bool : Bool → Value
    number : String → Value
    text : String → Value
    array : Items → Value
    object : Fields → Value

  pub data Items : Type 0 where
    item_end : Items
    item : Value → Items → Items

  pub data Fields : Type 0 where
    field_end : Fields
    field : String → Value → Fields → Fields

abbrev pub texts : List String → Items
texts [] = item_end
texts (s ∷ ss) = item (text s) (texts ss)

abbrev pub values {ℓ} : {A : Type ℓ} → (A → Value) → List A → Items
values f [] = item_end
values f (x ∷ xs) = item (f x) (values f xs)

abbrev pub or_null : Option String → Value
or_null none = null
or_null (some s) = text s

-- A mapping from texts to texts, `dict[str, str]`.
abbrev pub text_fields : List (String × String) → Fields
text_fields [] = field_end
text_fields ((k, v) ∷ rest) = field k (text v) (text_fields rest)

-- `mapping.get(key)`
abbrev pub get_field : String → Fields → Option Value
get_field key field_end = none
get_field key (field k v rest) = if key == k then some v else get_field key rest

-- `set(mapping) == {key}`
abbrev pub only_keys : String → Fields → Bool
only_keys key field_end = true
only_keys key (field k v rest) = k == key && only_keys key rest

abbrev pub has_only_key : String → Fields → Bool
has_only_key key field_end = false
has_only_key key (field k v rest) = only_keys key (field k v rest)

-- The items of a list of non-empty texts, if it is one.
abbrev pub text_items : Items → Option (List String)
text_items item_end = some []
text_items (item (text s) rest) = elim (text_items rest) [
  | none ↦ none
  | some ss ↦ if s == "" then none else some (s ∷ ss)
]
text_items (item _ rest) = none
