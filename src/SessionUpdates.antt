-- ===== src/SessionUpdates.antt =====
-- The packets of a socket: sources/app/api/socket/runtimeConnectionGuard.ts, which fences them, and
-- what the handlers of sources/app/api/socket/sessionUpdateHandler.ts share.
pub mod Writes
pub mod Presence
pub mod Messages
pub mod Fence
pub mod Retired
pub mod Senders
pub mod Versions
pub mod Writers
mod Examples
use happy_server.Common.{
  ℕ, ◌+◌, String, Bool, true, false, not, ◌&&◌, ◌||◌, Option, none, some, List, [], ◌∷◌, ◌==◌,
  if◌then◌else◌, is_null, truthy,
}
use happy_server.RuntimeLease.{Db}
use happy_server.RuntimeLease.Operations.{is_runtime_connection_owner}
use happy_server.EventRouter.{
  SessionScopedConnection, ClientConnection, session_scoped, user_scoped, machine_scoped,
}

-- `rejectRuntimeConnection`, which also disconnects the socket.
abbrev pub rejected : SessionScopedConnection → SessionScopedConnection
rejected c = record c { runtime_connection_lease_rejected = true }

unfoldable pub reject_runtime_connection : ClientConnection → ClientConnection
reject_runtime_connection (session_scoped c) = session_scoped (rejected c)
reject_runtime_connection (user_scoped c) = user_scoped c
reject_runtime_connection (machine_scoped c) = machine_scoped c

abbrev pub is_rejected_connection : ClientConnection → Bool
is_rejected_connection (session_scoped c) = c.runtime_connection_lease_rejected
is_rejected_connection (user_scoped c) = false
is_rejected_connection (machine_scoped c) = false

abbrev pub is_session_scoped : ClientConnection → Bool
is_session_scoped (session_scoped c) = true
is_session_scoped (user_scoped c) = false
is_session_scoped (machine_scoped c) = false

abbrev pub one_of : List String → String → Bool
one_of [] k = false
one_of (e ∷ es) k = e == k || one_of es k

abbrev pub replay_only_events : List String
replay_only_events = "message" ∷ "session-end" ∷ "ping" ∷ []

abbrev pub live_session_events : List String
live_session_events =
    "message" ∷ "session-end" ∷ "session-alive" ∷ "update-metadata" ∷ "update-state"
    ∷ "usage-report" ∷ "ping" ∷ "rpc-register" ∷ "rpc-unregister" ∷ []

abbrev pub self_fenced_events : List String
self_fenced_events = "session-alive" ∷ "session-end" ∷ []

pub data FenceResult : Type 0 where
  passed : FenceResult
  refused : String → FenceResult

abbrev pub owns : Db → ℕ → SessionScopedConnection → Bool
owns db now c =
    is_runtime_connection_owner db now c.user_id c.session_id c.session_instance_id
      c.runtime_connection_lease_id

-- The middleware on a session-scoped packet, where the ownership test answers.
unfoldable pub fence_packet :
    Db → ℕ → SessionScopedConnection → String → SessionScopedConnection × FenceResult
fence_packet db now c event_name =
    if c.runtime_connection_lease_rejected
    then (c, refused "Runtime connection is stale")
    else if c.replay_only
    then (if one_of replay_only_events event_name
        then (c, passed)
        else (rejected c, refused "Replay transport cannot perform live runtime operations"))
    else if not (one_of live_session_events event_name)
    then (rejected c, refused "Session runtime cannot perform this operation")
    else if one_of self_fenced_events event_name || event_name == "ping"
    then (c, passed)
    else if owns db now c
    then (c, passed)
    else (rejected c, refused "Runtime connection is stale")

-- The fields `sessionInstanceId` and `leaseId` of an authorization.
abbrev pub Authorization : Type 0
Authorization = Option String × Option String

-- A live connection of the session names its instance and lease, or neither.
unfoldable pub session_write_authorization : SessionScopedConnection → String → Option Authorization
session_write_authorization c session_id =
    if c.replay_only || not (c.session_id == session_id)
    then none
    else elim (truthy c.session_instance_id) [
      | some i ↦ elim (truthy c.runtime_connection_lease_id) [
        | some l ↦ some (some i, some l)
        | none ↦ none
      ]
      | none ↦ elim (truthy c.runtime_connection_lease_id) [
        | some l ↦ none
        | none ↦ some (none, none)
      ]
    ]

unfoldable pub runtime_write_authorization : ClientConnection → String → Option Authorization
unfolding session_write_authorization
runtime_write_authorization (session_scoped c) session_id = session_write_authorization c session_id
runtime_write_authorization (user_scoped c) session_id = some (none, none)
runtime_write_authorization (machine_scoped c) session_id = some (none, none)

unfoldable pub still_owns_runtime_connection : Db → ℕ → String → ClientConnection → String → Bool
still_owns_runtime_connection db now user_id (session_scoped c) session_id =
    is_runtime_connection_owner db now user_id session_id c.session_instance_id
      c.runtime_connection_lease_id
still_owns_runtime_connection db now user_id (user_scoped c) session_id = true
still_owns_runtime_connection db now user_id (machine_scoped c) session_id = true
