-- ===== src/Webhook/Json.antt =====
-- What encoding/json makes of a document with UseNumber: a number keeps its text, and an object is
-- a map, here an association list in which the first entry of a key counts.
use maild.Base.{ℕ, suc, Bool, Option, none, some, String, str_eq, if◌then◌else◌}

mutual
  pub data Value : Type 0 where
    null : Value
    bool : Bool → Value
    num : String → Value
    str : String → Value
    arr : Items → Value
    obj : Fields → Value

  pub data Items : Type 0 where
    no_items : Items
    item : Value → Items → Items

  pub data Fields : Type 0 where
    end : Fields
    field : String → Value → Fields → Fields

-- `value, ok := obj[key]`
unfoldable pub lookup : String → Fields → Option Value
lookup key end = none
lookup key (field k v fs) = let rest = lookup key fs in if str_eq k key then some v else rest

unfoldable pub count_items : Items → ℕ
count_items no_items = 0
count_items (item v vs) = suc (count_items vs)
