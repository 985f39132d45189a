-- ===== src/Rpc/Calls.antt =====
-- sources/app/api/socket/rpcHandler.ts: the handlers of `rpc-register`, `rpc-unregister` and
-- `rpc-call`. What socket.io answers for a target is the argument `Delivery`; `is_uuid` stands for the
-- test of the length and of the library on a call's identifier.
use happy_server.Common.{
  ℕ, ◌*◌, String, Bool, true, false, not, ◌&&◌, ◌||◌, Option, none, some, List, [], ◌∷◌, leb, ltb,
  if◌then◌else◌, ◌==◌, truthy,
}
use happy_server.RuntimeLease.{Db}
use happy_server.RuntimeLease.Operations as Lease
use happy_server.RuntimeLease.Operations.{run_with_runtime_connection_owner_lock}
use happy_server.EventRouter.{ClientConnection, session_scoped, user_scoped, machine_scoped}
use happy_server.Rpc.{Platform, RuntimeOwner, RpcRegistrationTarget}
use happy_server.Rpc.Lifecycle.{
  RegisterResult, registered, is_closed, limit_reached, ownership_lost, cancelled, still_trying,
}
use happy_server.SessionUpdates.{reject_runtime_connection}

abbrev pub max_rpc_method_length : ℕ
max_rpc_method_length = 512

abbrev pub max_rpc_params_bytes : ℕ
max_rpc_params_bytes = 4 * 1024 * 1024

-- The method is `none` where it is no text.
unfoldable pub is_valid_method : Platform → Option String → Bool
is_valid_method js none = false
is_valid_method js (some m) = not (m == "") && leb (js.length m) max_rpc_method_length

-- A property of the request: undefined, a text, or anything else.
pub data CallId : Type 0 where
  undefined : CallId
  text : String → CallId
  other : CallId

unfoldable pub is_valid_call_id : (String → Bool) → CallId → Bool
is_valid_call_id is_uuid undefined = true
is_valid_call_id is_uuid (text t) = is_uuid t
is_valid_call_id is_uuid other = false

-- The `runtimeOwner` of the lifecycle that a connection gets.
unfoldable pub lifecycle_owner : Option ClientConnection → Option RuntimeOwner
lifecycle_owner none = none
lifecycle_owner (some (user_scoped c)) = none
lifecycle_owner (some (machine_scoped c)) = none
lifecycle_owner (some (session_scoped c)) =
    if c.replay_only
    then none
    else some (record {
      session_id = c.session_id;
      session_instance_id = truthy c.session_instance_id;
      lease_id = truthy c.runtime_connection_lease_id;
    })

-- What `rpc-register` emits; nothing where the registration was cancelled.
pub data RegisterReply : Type 0 where
  rpc_registered : RegisterReply
  invalid_method_name : RegisterReply
  runtime_connection_is_stale : RegisterReply
  internal_error : RegisterReply
  no_reply : RegisterReply

abbrev lost_reply : Option ClientConnection → Option ClientConnection × RegisterReply
lost_reply none = (none, internal_error)
lost_reply (some (session_scoped c)) =
    (some (reject_runtime_connection (session_scoped c)), runtime_connection_is_stale)
lost_reply (some (user_scoped c)) = (some (user_scoped c), internal_error)
lost_reply (some (machine_scoped c)) = (some (machine_scoped c), internal_error)

-- The reply to a settled registration; a promise that is still pending has none yet.
unfoldable pub register_reply :
    Option ClientConnection → RegisterResult → Option ClientConnection × RegisterReply
unfolding reject_runtime_connection
register_reply c registered = (c, rpc_registered)
register_reply c cancelled = (c, no_reply)
register_reply c still_trying = (c, no_reply)
register_reply c ownership_lost = lost_reply c
register_reply c is_closed = (c, internal_error)
register_reply c limit_reached = (c, internal_error)

-- The acknowledgements of the sockets of a room, and the one of a socket of this server, where the
-- emission did not throw.
abbrev pub Delivery : Type 0
Delivery = String → Option (List String)

abbrev pub LocalDelivery : Type 0
LocalDelivery = String → Option String

-- A request that was emitted to a socket: the newest is first.
abbrev pub Emissions : Type 0
Emissions = List String

pub data CallReply : Type 0 where
  session_runtimes_cannot_call : CallReply
  invalid_parameters : CallReply
  params_too_large : CallReply
  registry_unavailable : CallReply
  method_not_available : CallReply
  same_socket : CallReply
  target_busy : CallReply
  target_gone : CallReply
  outcome_unknown : CallReply
  result : String → CallReply

-- `emitToSelectedTarget`: exactly one acknowledgement, or it throws.
abbrev pub selected_reply : Option (List String) → CallReply
selected_reply (some (r ∷ [])) = result r
selected_reply _ = outcome_unknown

unfoldable pub emit_to_selected_target :
    Delivery → Emissions → RpcRegistrationTarget → Emissions × CallReply
emit_to_selected_target deliver sent target =
    (target.socket_id ∷ sent, selected_reply (deliver target.socket_id))

-- What the dispatch under the owner's lock came to.
pub data LocalDispatch : Type 0 where
  not_dispatched : LocalDispatch
  dispatched : Option String → LocalDispatch

abbrev pub local_reply : LocalDispatch → CallReply
local_reply not_dispatched = target_gone
local_reply (dispatched (some r)) = result r
local_reply (dispatched none) = outcome_unknown

-- `emitToLocalRuntimeTarget`, on a socket of this server or none.
unfoldable pub emit_to_local_runtime_target :
    (String → Bool)
    → LocalDelivery
    → RpcRegistrationTarget
    → Emissions × LocalDispatch
    → Emissions × LocalDispatch
emit_to_local_runtime_target is_local deliver target (sent, before) =
    if is_local target.socket_id
    then (target.socket_id ∷ sent, dispatched (deliver target.socket_id))
    else (sent, not_dispatched)

abbrev pub owner_reply :
    Lease.OwnerOperationResult × (Emissions × LocalDispatch) → Emissions × CallReply
owner_reply (Lease.busy, (sent, d)) = (sent, target_busy)
owner_reply (Lease.not_owner, (sent, d)) = (sent, method_not_available)
owner_reply (Lease.completed, (sent, d)) = (sent, local_reply d)

-- Whether the transaction of the owner's lock throws: before the operation has run, or once it has run
-- or the lock has refused it.
pub data LockThrow : Type 0 where
  never : LockThrow
  before_operation : LockThrow
  at_the_end : LockThrow

-- The answer of the `catch`, on the emissions that the operation has made.
abbrev pub catch_throw : LockThrow → Emissions → Emissions × CallReply → Emissions × CallReply
catch_throw never sent after = after
catch_throw before_operation sent after = (sent, outcome_unknown)
catch_throw at_the_end sent (sent', reply) = (sent', outcome_unknown)

-- The tables, the clock, the lock and the sockets, as one call meets them.
pub record CallContext : Type 0 where
  pub db : Db
  pub now : ℕ
  pub lock_acquired : Bool
  pub lock_throw : LockThrow
  pub is_local : String → Bool
  pub deliver : Delivery
  pub deliver_local : LocalDelivery

-- The dispatch to a target that is not the caller, by the owner that the target names.
unfoldable pub dispatch_by :
    CallContext
    → String
    → Emissions
    → RpcRegistrationTarget
    → Option RuntimeOwner
    → Emissions × CallReply
unfolding emit_to_selected_target emit_to_local_runtime_target
    run_with_runtime_connection_owner_lock
dispatch_by ctx user_id sent target none = emit_to_selected_target ctx.deliver sent target
dispatch_by ctx user_id sent target (some o) = catch_throw ctx.lock_throw sent (
    owner_reply (
      run_with_runtime_connection_owner_lock ctx.lock_acquired ctx.db ctx.now user_id o.session_id
        o.session_instance_id o.lease_id
        (emit_to_local_runtime_target ctx.is_local ctx.deliver_local target)
        (sent, not_dispatched)))

unfoldable pub dispatch :
    CallContext → String → Emissions → RpcRegistrationTarget → Emissions × CallReply
unfolding dispatch_by
dispatch ctx user_id sent target = dispatch_by ctx user_id sent target target.runtime_owner

-- The target is `none` where the registry cannot be read, `some none` where the method has none.
unfoldable pub call_target :
    CallContext
    → String
    → String
    → Emissions
    → Option (Option RpcRegistrationTarget)
    → Emissions × CallReply
unfolding dispatch
call_target ctx user_id socket_id sent none = (sent, registry_unavailable)
call_target ctx user_id socket_id sent (some none) = (sent, method_not_available)
call_target ctx user_id socket_id sent (some (some t)) =
    if t.socket_id == socket_id then (sent, same_socket) else dispatch ctx user_id sent t

-- The handler from its checks of the request on.
unfoldable pub checked_call :
    Platform
    → (String → Bool)
    → CallContext
    → String
    → String
    → Option String
    → CallId
    → ℕ
    → Emissions
    → Option (Option RpcRegistrationTarget)
    → Emissions × CallReply
unfolding is_valid_method is_valid_call_id call_target
checked_call js is_uuid ctx user_id socket_id method call_id params_bytes sent target =
    if not (is_valid_method js method) || not (is_valid_call_id is_uuid call_id)
    then (sent, invalid_parameters)
    else if ltb max_rpc_params_bytes params_bytes
    then (sent, params_too_large)
    else call_target ctx user_id socket_id sent target

abbrev pub with_connection :
    Option ClientConnection
    → Emissions × CallReply
    → Option ClientConnection × Emissions × CallReply
with_connection c (sent, reply) = (c, sent, reply)

-- `rpc-call`.
unfoldable pub rpc_call :
    Platform
    → (String → Bool)
    → CallContext
    → String
    → String
    → Option ClientConnection
    → Option String
    → CallId
    → ℕ
    → Emissions
    → Option (Option RpcRegistrationTarget)
    → Option ClientConnection × Emissions × CallReply
unfolding checked_call reject_runtime_connection
rpc_call js is_uuid ctx user_id socket_id none method call_id params_bytes sent target =
    with_connection none
      (checked_call js is_uuid ctx user_id socket_id method call_id params_bytes sent target)
rpc_call js is_uuid ctx user_id socket_id (some (session_scoped c)) method call_id params_bytes sent
      target =
    (some (reject_runtime_connection (session_scoped c)), sent, session_runtimes_cannot_call)
rpc_call js is_uuid ctx user_id socket_id (some (user_scoped c)) method call_id params_bytes sent
      target =
    with_connection (some (user_scoped c))
      (checked_call js is_uuid ctx user_id socket_id method call_id params_bytes sent target)
rpc_call js is_uuid ctx user_id socket_id (some (machine_scoped c)) method call_id params_bytes sent
      target =
    with_connection (some (machine_scoped c))
      (checked_call js is_uuid ctx user_id socket_id method call_id params_bytes sent target)
