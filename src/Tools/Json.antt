-- ===== src/Tools/Json.antt =====
-- JSON values as `serde_json` has them: an object is the list of its entries in the order of its
-- map, each key once. A number is left opaque, as the number of its value.
use customer_service_chat_sy.Base.{
  ℕ, Bool, List, [], ◌∷◌, Option, none, some, Text, text_eq, ◌==◌, if◌then◌else◌,
}

mutual
  pub data Json : Type 0 where
    null : Json
    bool : Bool → Json
    number : ℕ → Json
    string : Text → Json
    array : Items → Json
    object : Entries → Json

  pub data Items : Type 0 where
    nil : Items
    cons : Json → Items → Items

  pub data Entries : Type 0 where
    end : Entries
    entry : Text → Json → Entries → Entries

abbrev pub items : Items → List Json
items nil = []
items (cons v vs) = v ∷ items vs

abbrev pub entries : Entries → List (Text × Json)
entries end = []
entries (entry k v es) = (k, v) ∷ entries es

-- The value of a key in an object's entries.
abbrev pub field : Text → List (Text × Json) → Option Json
field k [] = none
field k ((j, v) ∷ es) = if j == k then some v else field k es

-- `Value::get` with a text: `none` on what is no object.
abbrev pub get : Text → Json → Option Json
get k (object es) = field k (entries es)
get k _ = none

-- `as_object`, `as_array` and `as_str`.
abbrev pub as_object : Json → Option (List (Text × Json))
as_object (object es) = some (entries es)
as_object _ = none

abbrev pub as_array : Json → Option (List Json)
as_array (array vs) = some (items vs)
as_array _ = none

abbrev pub as_str : Json → Option Text
as_str (string s) = some s
as_str _ = none

-- `Option::and_then` on a looked-up value.
abbrev pub and_then {ℓ} : {A : Type ℓ} → Option Json → (Json → Option A) → Option A
and_then none f = none
and_then (some v) f = f v
