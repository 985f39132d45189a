-- ===== src/Common/Json.antt =====
-- JSON values as the database client returns them, and the tests that the code makes on them.
use Prim.Native.Nat.{ℕ}
use Prim.Native.String.{String}
use mathlib.Core.Bool.{Bool, false}
use mathlib.Core.Option.{Option, none, some}
use text.Mathlib.Text.{◌==◌}
use happy_server.Common.Tests.{if◌then◌else◌}

-- `Prisma.JsonValue`.
mutual
  pub data JsonValue : Type 0 where
    null : JsonValue
    bool : Bool → JsonValue
    number : ℕ → JsonValue
    string : String → JsonValue
    array : JsonItems → JsonValue
    object : JsonFields → JsonValue

  pub data JsonItems : Type 0 where
    end_items : JsonItems
    item : JsonValue → JsonItems → JsonItems

  pub data JsonFields : Type 0 where
    end_fields : JsonFields
    field : String → JsonValue → JsonFields → JsonFields

-- A property of a JSON object, `undefined` where it has none.
unfoldable pub get_field : String → JsonFields → Option JsonValue
get_field k end_fields = none
get_field k (field j v fs) = if j == k then some v else get_field k fs

unfoldable pub is_text : Option JsonValue → String → Bool
is_text (some (string t)) s = t == s
is_text _ s = false
