-- ===== src/Rpc/Lifecycle.antt =====
-- `RpcRegistrationLifecycle`, the registrations of one socket. `runExclusive` runs one operation at a
-- time; between the awaits of a registration that waits for its owner's lock, other calls mark a
-- method as cancelled or the lifecycle as closing. A promise that is settled is its result.
use happy_server.Common.{
  ℕ, ◌*◌, ◌^◌, min, String, Bool, true, false, ◌&&◌, ◌||◌, Option, none, some, List, [], ◌∷◌, leb,
  if◌then◌else◌, is_null,
}
use happy_server.Rpc.{Platform, RuntimeOwner, RpcRegistration}
use happy_server.Rpc.Generation.{GenerationClock}
use happy_server.Rpc.Registry.{Redis, register, refresh_many, unregister, unregister_many}
use happy_server.Rpc.MethodMap.{
  Map, map_get, map_set, map_delete, size, values, set_delete, set_has, is_empty, drop_lost,
  all_lost,
}

abbrev pub owner_busy_retry_min_ms : ℕ
owner_busy_retry_min_ms = 50

abbrev pub owner_busy_retry_max_ms : ℕ
owner_busy_retry_max_ms = 1000

-- The registrations stand in the order of the map; `timer` says that the refresh timer runs.
pub record Lifecycle : Type 0 where
  pub user_id : String
  pub socket_id : String
  pub ttl_ms : ℕ
  pub max_registrations : ℕ
  pub runtime_owner : Option RuntimeOwner
  pub registrations : Map
  pub closing : Bool
  pub cancelled_methods : List String
  pub timer : Bool

-- What lies outside the socket: Redis and the clock of the generations.
pub record World : Type 0 where
  pub redis : Redis
  pub clock : GenerationClock

abbrev pub with_registrations : Lifecycle → Map → Lifecycle
with_registrations l m = record l { registrations = m }

unfoldable pub stop_refresh_timer_if_idle : Lifecycle → Lifecycle
stop_refresh_timer_if_idle l = if is_empty l.registrations then (record l { timer = false }) else l

unfoldable pub ensure_refresh_timer : Lifecycle → Lifecycle
ensure_refresh_timer l = if l.timer || l.closing then l else (record l { timer = true })

abbrev pub drop_cancelled : Lifecycle → String → Lifecycle
drop_cancelled l method = record l { cancelled_methods = set_delete l.cancelled_methods method }

-- The synchronous parts of `register`, `unregister` and `close`.
pub data Mark : Type 0 where
  revives : String → Mark
  cancels : String → Mark
  closes : Mark

unfoldable pub mark : Lifecycle → Mark → Lifecycle
mark l (revives m) = drop_cancelled l m
mark l (cancels m) = record l { cancelled_methods = m ∷ l.cancelled_methods }
mark l closes = record l { closing = true; timer = false }

unfoldable pub marks : Lifecycle → List Mark → Lifecycle
unfolding mark
marks l [] = l
marks l (m ∷ ms) = marks (mark l m) ms

-- How far a call through the owner's fence came before it threw: the operation never ran; the registry
-- failed in it, having written to Redis or not; or it had run, and the transaction failed at its end.
pub data Reached : Type 0 where
  not_run : Reached
  in_registry : ℕ → ℕ → String → Bool → Reached
  after_operation : ℕ → ℕ → String → Reached

-- How one call through the owner's fence went. An operation that ran has its times (of Redis, and of
-- the process) and its identifier.
pub data Fenced : Type 0 where
  completed : ℕ → ℕ → String → Fenced
  busy : Fenced
  not_owner : Fenced
  throws : Reached → Fenced

-- One round of the loop of `register`, with the marks that arrive during the call before and after its
-- operation has run, and during the wait.
pub record Attempt : Type 0 where
  pub during : List Mark
  pub fenced : Fenced
  pub ending : List Mark
  pub waiting : List Mark

pub data RegisterResult : Type 0 where
  registered : RegisterResult
  is_closed : RegisterResult
  limit_reached : RegisterResult
  ownership_lost : RegisterResult
  cancelled : RegisterResult
  still_trying : RegisterResult

abbrev pub Step : Type 0
Step = Lifecycle × World × RegisterResult

-- The operation in the fence: the registry's registration, the map, and the timer.
unfoldable pub install : Platform → Lifecycle → World → String → ℕ → ℕ → String → Lifecycle × World
unfolding register map_set ensure_refresh_timer
install js l w method now observed uuid =
    let (redis, clock, r) =
      register js w.redis w.clock now observed uuid l.ttl_ms l.user_id method l.socket_id
        l.runtime_owner in
    (
      ensure_refresh_timer (record l { registrations = map_set l.registrations method r }),
      (record { redis = redis; clock = clock }),
    )

abbrev pub stopped : Lifecycle → String → Bool
stopped l method = l.closing || set_has l.cancelled_methods method

-- What a registry that fails has left of a registration: the generation is taken, and Redis may have
-- been written.
unfoldable pub failed_install :
    Platform → Lifecycle → World → String → ℕ → ℕ → String → Bool → Lifecycle × World
unfolding register
failed_install js l w method now observed uuid stored =
    let (redis, clock, r) =
      register js w.redis w.clock now observed uuid l.ttl_ms l.user_id method l.socket_id
        l.runtime_owner in
    (l, (record { redis = if stored then redis else w.redis; clock = clock }))

-- What a call through the fence has done to the lifecycle and to Redis, whatever it comes to.
unfoldable pub attempt_install : Platform → Lifecycle → World → String → Fenced → Lifecycle × World
unfolding install failed_install
attempt_install js l w method (completed now observed uuid) =
    install js l w method now observed uuid
attempt_install js l w method busy = (l, w)
attempt_install js l w method not_owner = (l, w)
attempt_install js l w method (throws not_run) = (l, w)
attempt_install js l w method (throws (in_registry now observed uuid stored)) =
    failed_install js l w method now observed uuid stored
attempt_install js l w method (throws (after_operation now observed uuid)) =
    install js l w method now observed uuid

-- What a round of the loop comes to after its call, where `rest` is what the later rounds come to.
unfoldable pub settle_round : Lifecycle → World → String → Step → Fenced → Step
settle_round l w method rest (completed now observed uuid) = (l, w, registered)
settle_round l w method rest busy = rest
settle_round l w method rest not_owner = (drop_cancelled l method, w, ownership_lost)
settle_round l w method rest (throws reached) =
    if stopped l method then (drop_cancelled l method, w, cancelled) else rest

-- The loop of `register`, over the rounds that it makes.
unfoldable pub register_loop : Platform → Lifecycle → World → String → List Attempt → Step
unfolding marks settle_round attempt_install
register_loop js l w method [] =
    if stopped l method then (drop_cancelled l method, w, cancelled) else (l, w, still_trying)
register_loop js l w method (a ∷ attempts) =
    let (l', w') = attempt_install js (marks l a.during) w method a.fenced in
    let called = marks l' a.ending in
    let rest = register_loop js (marks called a.waiting) w' method attempts in
    if stopped l method
    then (drop_cancelled l method, w, cancelled)
    else settle_round called w' method rest a.fenced

-- The operation that `register` runs exclusively.
unfoldable pub run_register : Platform → Lifecycle → World → String → List Attempt → Step
unfolding register_loop map_get size
run_register js l w method attempts =
    if l.closing
    then (l, w, is_closed)
    else if is_null (map_get l.registrations method)
        && leb l.max_registrations (size l.registrations)
    then (l, w, limit_reached)
    else register_loop js l w method attempts

-- What is removed where the method has this registration; `now` is `none` where Redis fails. A failure
-- that is reported after the script ran leaves what the script left.
unfoldable pub settle_unregister :
    Platform → Lifecycle → World → String → Option ℕ → Option RpcRegistration → Lifecycle × World
unfolding map_delete stop_refresh_timer_if_idle unregister
settle_unregister js l w method now none = (drop_cancelled l method, w)
settle_unregister js l w method now (some r) = (
  drop_cancelled
      (stop_refresh_timer_if_idle (with_registrations l (map_delete l.registrations method)))
      method,
  elim now [ none ↦ w | some t ↦ record w { redis = (unregister js w.redis t r).0 } ],
)

-- The operation that `unregister` runs exclusively.
unfoldable pub run_unregister : Platform → Lifecycle → World → String → Option ℕ → Lifecycle × World
unfolding settle_unregister map_get
run_unregister js l w method now =
    settle_unregister js l w method now (map_get l.registrations method)

-- What a refresh that threw has done to Redis: its script may have run.
unfoldable pub failed_refresh : Platform → Lifecycle → World → Reached → World
unfolding refresh_many values
failed_refresh js l w not_run = w
failed_refresh js l w (in_registry now observed uuid stored) =
    let (redis, results) = refresh_many js w.redis now l.ttl_ms (values l.registrations) in
    (record w { redis = if stored then redis else w.redis })
failed_refresh js l w (after_operation now observed uuid) =
    let (redis, results) = refresh_many js w.redis now l.ttl_ms (values l.registrations) in
    (record w { redis = redis })

unfoldable pub settle_refresh : Platform → Lifecycle → World → Fenced → Lifecycle × World
unfolding drop_lost stop_refresh_timer_if_idle refresh_many values failed_refresh
settle_refresh js l w busy = (stop_refresh_timer_if_idle l, w)
settle_refresh js l w (throws reached) =
    (stop_refresh_timer_if_idle l, failed_refresh js l w reached)
settle_refresh js l w not_owner = (
  stop_refresh_timer_if_idle
      (with_registrations l (drop_lost l.registrations l.registrations (all_lost l.registrations))),
  w,
)
settle_refresh js l w (completed now observed uuid) =
    let (redis, results) = refresh_many js w.redis now l.ttl_ms (values l.registrations) in
    (
      stop_refresh_timer_if_idle
          (with_registrations l (drop_lost l.registrations l.registrations results)),
      record w { redis = redis },
    )

-- The operation that `refresh` runs exclusively.
unfoldable pub run_refresh : Platform → Lifecycle → World → Fenced → Lifecycle × World
unfolding settle_refresh
run_refresh js l w fenced =
    if l.closing || is_empty l.registrations then (l, w) else settle_refresh js l w fenced

-- The operation that `close` runs exclusively; `now` is `none` where Redis fails. A failure that is
-- reported after the script ran is only logged, and leaves what the script left.
unfoldable pub run_close : Platform → Lifecycle → World → Option ℕ → Lifecycle × World
unfolding values unregister_many
run_close js l w now = (
  record l { registrations = []; cancelled_methods = [] },
  elim now [
    | none ↦ w
    | some t ↦ record w { redis = (unregister_many js w.redis t (values l.registrations)).0 }
  ],
)

-- `waitForOwnerRetry`: the two bounds between which the random delay lies.
unfoldable pub owner_retry_exponential : ℕ → ℕ
owner_retry_exponential attempt =
    min owner_busy_retry_max_ms (owner_busy_retry_min_ms * 2 ^ min attempt 10)
