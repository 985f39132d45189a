-- ===== src/Rpc.antt =====
-- sources/app/api/socket/rpcRegistrationRegistry.ts: the registrations of remote methods in Redis.
-- The key of a registration is a digest of the account and the method, made by the parameter
-- `digest`; the texts of JSON and the order of texts in Redis scripts are those of `Platform`.
pub mod Generation
pub mod Registry
pub mod Convergence
pub mod MethodMap
pub mod Lifecycle
pub mod Lifetime
pub mod Sizes
pub mod Room
pub mod Sound
pub mod Removal
pub mod Progress
pub mod Calls
pub mod Honesty
pub mod Dispatch
mod Examples
mod GenerationExamples
use Prim.Native.String.{◌++◌}
use happy_server.Common.{
  ℕ, ◌+◌, String, Bool, true, false, not, ◌&&◌, ◌||◌, Option, none, some, List, [], ◌∷◌, ltb,
  if◌then◌else◌, is_null, ◌==◌,
}
use happy_server.Common.Json.{
  JsonValue, null, bool, number, string, array, object, JsonFields, end_fields, field, get_field,
}

-- What the code takes from JavaScript and Redis: `JSON.stringify`, `JSON.parse`, `cjson.decode`, `<`
-- on the texts of a script, the test of the generation's pattern, the length of a text,
-- `n.toString().padStart(width, "0")`, and the digest in a key.
pub record Platform : Type 0 where
  pub stringify : JsonValue → String
  pub parse : String → Option JsonValue
  pub cjson_decode : String → Option JsonValue
  pub before : String → String → Bool
  pub is_generation : String → Bool
  pub length : String → ℕ
  pub pad_start : ℕ → ℕ → String
  pub digest : String → String → String

pub record RuntimeOwner : Type 0 where
  pub session_id : String
  pub session_instance_id : Option String
  pub lease_id : Option String

pub record RpcRegistrationTarget : Type 0 where
  pub socket_id : String
  pub generation : String
  pub runtime_owner : Option RuntimeOwner

pub record RpcRegistration : Type 0 where
  pub target : RpcRegistrationTarget
  pub key : String

-- A property that is left out where it is undefined.
abbrev optional_text : String → Option String → JsonFields → JsonFields
optional_text name none fs = fs
optional_text name (some t) fs = field name (string t) fs

abbrev owner_fields : Option RuntimeOwner → JsonFields
owner_fields none = end_fields
owner_fields (some o) =
    field "runtimeOwner"
      (object (
        field "sessionId" (string o.session_id) (
          optional_text "sessionInstanceId" o.session_instance_id
            (optional_text "leaseId" o.lease_id end_fields))))
      end_fields

abbrev pub target_value : RpcRegistrationTarget → JsonValue
target_value t = object (
    field "socketId" (string t.socket_id)
      (field "generation" (string t.generation) (owner_fields t.runtime_owner)))

unfoldable pub encode_target : Platform → RpcRegistrationTarget → String
encode_target js t = js.stringify (target_value t)

-- The text of a property, `none` where it is absent or no text.
abbrev pub text_field : String → JsonFields → Option String
unfolding get_field
text_field name fs = elim (get_field name fs) [ some (string t) ↦ some t | _ ↦ none ]

-- A property that is a text or undefined; `none` where it is neither.
abbrev pub optional_field : String → JsonFields → Option (Option String)
unfolding get_field
optional_field name fs = elim (get_field name fs) [
  | none ↦ some none
  | some (string t) ↦ some (some t)
  | _ ↦ none
]

unfoldable pub parse_owner : JsonFields → Option RuntimeOwner
parse_owner fs = elim (text_field "sessionId" fs) [
  | none ↦ none
  | some s ↦ elim (optional_field "sessionInstanceId" fs) [
    | none ↦ none
    | some i ↦ elim (optional_field "leaseId" fs) [
      | none ↦ none
      | some l ↦
          if s == "" || is_null i && not (is_null l) || not (is_null i) && is_null l
          then none
          else some (record { session_id = s; session_instance_id = i; lease_id = l })
    ]
  ]
]

-- The `runtimeOwner` of a stored value: undefined, or an object that names an owner.
unfoldable pub parse_owner_field : JsonFields → Option (Option RuntimeOwner)
unfolding parse_owner get_field
parse_owner_field fs = elim (get_field "runtimeOwner" fs) [
  | none ↦ some none
  | some (object os) ↦ elim (parse_owner os) [ none ↦ none | some o ↦ some (some o) ]
  | _ ↦ none
]

unfoldable pub parse_fields : Platform → JsonFields → Option RpcRegistrationTarget
unfolding parse_owner_field
parse_fields js fs = elim (text_field "socketId" fs) [
  | none ↦ none
  | some s ↦ elim (text_field "generation" fs) [
    | none ↦ none
    | some g ↦
        if s == "" || ltb 256 (js.length s) || not (js.is_generation g)
        then none
        else elim (parse_owner_field fs) [
          | none ↦ none
          | some o ↦ some (record { socket_id = s; generation = g; runtime_owner = o })
        ]
  ]
]

unfoldable pub parse_target : Platform → Option String → Option RpcRegistrationTarget
unfolding parse_fields
parse_target js none = none
parse_target js (some value) = elim (js.parse value) [
  | some (object fs) ↦ parse_fields js fs
  | _ ↦ none
]

unfoldable pub get_rpc_registration_key : Platform → String → String → String
get_rpc_registration_key js user_id method =
    "happy:rpc-registration:v1" ++ (":" ++ js.digest user_id method)
