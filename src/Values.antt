-- ===== src/Values.antt =====
-- The values of Go's map[string]any, from which the configuration of a collector is built. A number
-- is not negative, and `negative n` is -(n + 1); numbers that the program sets are not negative. A struct that is only marshalled is written as the map
-- that its JSON names make of it.
pub mod Json
use telemetry_controller.Prelude.{ℕ, String, Bool, List, [], ◌∷◌, map}

mutual
  pub data Value : Type 0 where
    text : String → Value
    number : ℕ → Value
    flag : Bool → Value
    negative : ℕ → Value
    null : Value
    sequence : Values → Value
    object : Fields → Value

  pub data Values : Type 0 where
    no_values : Values
    value : Value → Values → Values

  pub data Fields : Type 0 where
    no_fields : Fields
    field : String → Value → Fields → Fields

-- A map[string]any, in the order in which the keys were set.
abbrev pub Config : Type 0
Config = List (String × Value)

abbrev fields_of : Config → Fields
fields_of [] = no_fields
fields_of ((k, v) ∷ rest) = field k v (fields_of rest)

abbrev values_of : List Value → Values
values_of [] = no_values
values_of (v ∷ rest) = value v (values_of rest)

abbrev pub config : Config → Value
config c = object (fields_of c)

abbrev pub list : List Value → Value
list vs = sequence (values_of vs)

abbrev pub texts : List String → Value
texts ss = list (map text ss)
