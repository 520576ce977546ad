-- ===== src/Base/Json.antt =====
-- Go values of type `any` as encoding/json makes them, and `map[string]any`.
-- A number is kept as the text that it has in JSON.
use Prim.Native.String.{String}
use mathlib.Core.Bool.{Bool}
use mathlib.Core.Option.{Option, none, some}
use mathlib.Core.List.{List, [], ◌∷◌}
use text.Mathlib.Text.{◌==◌}
use mister_morph.Base.Tests.{if◌then◌else◌}

mutual
  -- The members of an object, in order.
  pub data Members : Type 0 where
    no_members : Members
    member : Members → String → Value → Members

  -- The elements of an array, the last one outermost.
  pub data Elements : Type 0 where
    no_elements : Elements
    element : Elements → Value → Elements

  pub data Value : Type 0 where
    null : Value
    bool : Bool → Value
    num str : String → Value
    object : Members → Value
    array : Elements → Value

-- map[string]any
abbrev pub Params : Type 0
Params = List (String × Value)

-- v, ok := m[key]
unfoldable pub lookup {ℓ} : {V : Type ℓ} → String → List (String × V) → Option V
lookup key [] = none
lookup key ((name, value) ∷ entries) =
    let rest = lookup key entries in if name == key then some value else rest

abbrev as_string : Option Value → Option String
as_string (some (Value.str s)) = some s
as_string _ = none

-- v, ok := m[key].(string)
unfoldable pub get_string : String → Params → Option String
unfolding lookup
get_string k m = as_string (lookup k m)
