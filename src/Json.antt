-- ===== src/Json.antt =====
-- ui-v2/src/modules/workflow/types/react-flow-cots.ts, `JsonValue`: the JSON values that the other
-- modules pass around. A number is a natural one; the lists inside have types of their own.
use tokyo_tester.Base.{ℕ, String, Bool, Option, none, some, ◌===◌, if◌then◌else◌}

mutual
  pub data JsonValue : Type 0 where
    null : JsonValue
    bool : Bool → JsonValue
    num : ℕ → JsonValue
    str : String → JsonValue
    arr : JsonItems → JsonValue
    obj : JsonFields → JsonValue

  pub data JsonItems : Type 0 where
    nil : JsonItems
    cons : JsonValue → JsonItems → JsonItems

  pub data JsonFields : Type 0 where
    end : JsonFields
    field : String → JsonValue → JsonFields → JsonFields

-- `object[name]`; `none` is `undefined`.
unfoldable pub get_field : String → JsonFields → Option JsonValue
get_field name end = none
get_field name (field key v fs) = if key === name then some v else get_field name fs
