-- ===== src/Mcp/Value.antt =====
-- Dynamic values: what `any` holds where the services decode JSON, and `map[string]any`.
use chamicore.Prelude.{Bool, List, Option, none, some, if◌then◌else◌}
use chamicore.Text.{Text, ◌=ₛ◌}

-- `number` keeps its literal; `strings` is a `[]string`, which no JSON decoder makes.
mutual
  pub data Value : Type 0 where
    null : Value
    bool : Bool → Value
    number : Text → Value
    string : Text → Value
    strings : List Text → Value
    array : Values → Value
    object : Fields → Value

  pub data Values : Type 0 where
    nil : Values
    cons : Value → Values → Values

  -- A nil map and an empty one are both `end`: reading them gives the same.
  pub data Fields : Type 0 where
    end : Fields
    field : Text → Value → Fields → Fields

-- `value, ok := args[key]`.
unfoldable pub get : Fields → Text → Option Value
unfolding ◌=ₛ◌
get end k = none
get (field j v fs) k = if j =ₛ k then some v else get fs k
