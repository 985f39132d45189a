-- ===== src/Rpc/Registry.antt =====
-- `RedisRpcRegistrationRegistry` and its two Redis scripts. A script reads one clock; an entry whose
-- time is over is not there.
use happy_server.Common.{
  ℕ, ◌+◌, String, Bool, true, false, ◌||◌, Option, none, some, List, [], ◌∷◌, ltb, if◌then◌else◌,
  update, ◌==◌,
}
use happy_server.Common.Json.{object}
use happy_server.Rpc.{
  Platform, RuntimeOwner, RpcRegistrationTarget, RpcRegistration, encode_target, parse_target,
  get_rpc_registration_key, text_field,
}
use happy_server.Rpc.Generation.{GenerationClock, create_generation}

pub record RedisEntry : Type 0 where
  pub value : String
  pub expires_at : ℕ

abbrev pub Redis : Type 0
Redis = String → Option RedisEntry

-- `GET`.
unfoldable pub get : Redis → ℕ → String → Option String
get redis now key = elim (redis key) [
  | none ↦ none
  | some e ↦ if ltb now e.expires_at then some e.value else none
]

-- `SET key value PX ttl`; `PEXPIRE` of a key that holds the value.
unfoldable pub set_px : Redis → ℕ → ℕ → String → String → Redis
set_px redis now ttl key value =
    update redis key (some (record { value = value; expires_at = now + ttl }))

-- The generation that a script reads from a value.
unfoldable pub generation_of : Platform → String → Option String
generation_of js value = elim (js.cjson_decode value) [
  | some (object fs) ↦ text_field "generation" fs
  | _ ↦ none
]

unfoldable pub is_older : Platform → String → String → Bool
unfolding generation_of
is_older js current candidate = elim (generation_of js current) [
  | none ↦ false
  | some g ↦ elim (generation_of js candidate) [ none ↦ false | some h ↦ js.before g h ]
]

-- One round of `REFRESH_CURRENT_BATCH_SCRIPT`. `SET … NX` of a key that the script found missing
-- succeeds.
unfoldable pub refresh_current : Platform → Redis → ℕ → ℕ → String → String → Redis × Bool
unfolding get set_px is_older
refresh_current js redis now ttl key candidate = elim (get redis now key) [
  | none ↦ (set_px redis now ttl key candidate, true)
  | some current ↦
      if current == candidate || is_older js current candidate
      then (set_px redis now ttl key candidate, true)
      else (redis, false)
]

-- One round of `DELETE_CURRENT_BATCH_SCRIPT`.
unfoldable pub delete_current : Redis → ℕ → String → String → Redis × Bool
unfolding get
delete_current redis now key candidate = elim (get redis now key) [
  | none ↦ (redis, false)
  | some current ↦ if current == candidate then (update redis key none, true) else (redis, false)
]

-- The time to live of the registry is `ttl`.
unfoldable pub refresh_many : Platform → Redis → ℕ → ℕ → List RpcRegistration → Redis × List Bool
unfolding refresh_current encode_target
refresh_many js redis now ttl [] = (redis, [])
refresh_many js redis now ttl (r ∷ rs) =
    let (redis', done) = refresh_current js redis now ttl r.key (encode_target js r.target) in
    let (redis'', rest) = refresh_many js redis' now ttl rs in (redis'', done ∷ rest)

unfoldable pub unregister_many : Platform → Redis → ℕ → List RpcRegistration → Redis × List Bool
unfolding delete_current encode_target
unregister_many js redis now [] = (redis, [])
unregister_many js redis now (r ∷ rs) =
    let (redis', done) = delete_current redis now r.key (encode_target js r.target) in
    let (redis'', rest) = unregister_many js redis' now rs in (redis'', done ∷ rest)

abbrev first_or_false : List Bool → Bool
first_or_false [] = false
first_or_false (b ∷ bs) = b

unfoldable pub refresh : Platform → Redis → ℕ → ℕ → RpcRegistration → Redis × Bool
unfolding refresh_many
refresh js redis now ttl r =
    let (redis', results) = refresh_many js redis now ttl (r ∷ []) in
    (redis', first_or_false results)

unfoldable pub unregister : Platform → Redis → ℕ → RpcRegistration → Redis × Bool
unfolding unregister_many
unregister js redis now r =
    let (redis', results) = unregister_many js redis now (r ∷ []) in
    (redis', first_or_false results)

-- `register` of the registry: the clock of the process, its time and identifier, and Redis's clock.
unfoldable pub register :
    Platform
    → Redis
    → GenerationClock
    → ℕ
    → ℕ
    → String
    → ℕ
    → String
    → String
    → String
    → Option RuntimeOwner
    → Redis × GenerationClock × RpcRegistration
unfolding create_generation encode_target get_rpc_registration_key set_px
register js redis clock now observed uuid ttl user_id method socket_id owner =
    let (clock', generation) = create_generation js clock observed uuid in
    let target : RpcRegistrationTarget = record {
      socket_id = socket_id;
      generation = generation;
      runtime_owner = owner;
    } in
    let key = get_rpc_registration_key js user_id method in
    (
      set_px redis now ttl key (encode_target js target),
      clock',
      (record { target = target; key = key }),
    )

unfoldable pub resolve : Platform → Redis → ℕ → String → String → Option RpcRegistrationTarget
unfolding parse_target get_rpc_registration_key get
resolve js redis now user_id method =
    parse_target js (get redis now (get_rpc_registration_key js user_id method))
