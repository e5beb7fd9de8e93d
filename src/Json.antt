-- ===== src/Json.antt =====
-- `serde_json::Value`, as far as the program takes values apart.
use little_actors.Prelude.{ℕ, Bool, true, false, Option, none, some, ◌==◌, if◌then◌else◌}
use little_actors.Prelude.Text.{Text, text_eq}

mutual
  pub data Value : Type 0 where
    null : Value
    bool : Bool → Value
    number : ℕ → Value
    string : Text → Value
    array : Items → Value
    object : Fields → Value

  pub data Items : Type 0 where
    nil : Items
    cons : Value → Items → Items

  pub data Fields : Type 0 where
    end : Fields
    field : Text → Value → Fields → Fields

-- `Value::is_object`
unfoldable pub is_object : Value → Bool
is_object (object fs) = true
is_object v = false

field_get : Text → Fields → Option Value
field_get k end = none
field_get k (field j v fs) = if j == k then some v else field_get k fs

-- `Value::get` at a string
unfoldable pub get : Value → Text → Option Value
unfolding field_get
get (object fs) k = field_get k fs
get v k = none
