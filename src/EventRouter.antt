-- ===== src/EventRouter.antt =====
-- sources/app/events/eventRouter.ts: the connections, the rooms that they join, and the rooms and the
-- connections that a filter selects. A room is its name, as the server gives it to socket.io.
pub mod Events
pub mod Registry
pub mod Names
pub mod Agreement
pub mod Durable
pub mod Isolation
pub mod Members
mod Examples
use Prim.Native.String.{◌++◌}
use happy_server.Common.{
  ℕ, String, Bool, true, false, not, ◌&&◌, ◌||◌, Option, none, some, List, [], ◌∷◌, ◌==◌,
  if◌then◌else◌, is_null, truthy, sql_eq_column,
}

pub record SessionScopedConnection : Type 0 where
  pub socket_id : String
  pub user_id : String
  pub session_id : String
  pub session_instance_id : Option String
  pub runtime_connection_lease_id : Option String
  pub runtime_connection_lease_rejected : Bool
  pub replay_only : Bool
  pub replay_requested_session_instance_id : Option String

pub record UserScopedConnection : Type 0 where
  pub socket_id : String
  pub user_id : String

pub record MachineScopedConnection : Type 0 where
  pub socket_id : String
  pub user_id : String
  pub machine_id : String

pub data ClientConnection : Type 0 where
  session_scoped : SessionScopedConnection → ClientConnection
  user_scoped : UserScopedConnection → ClientConnection
  machine_scoped : MachineScopedConnection → ClientConnection

pub data RecipientFilter : Type 0 where
  all_interested_in_session : String → RecipientFilter
  user_scoped_only : RecipientFilter
  machine_scoped_only : String → RecipientFilter
  all_user_authenticated_connections : RecipientFilter

-- `connection.socket.id` and `connection.userId`.
abbrev pub socket_of : ClientConnection → String
socket_of (session_scoped c) = c.socket_id
socket_of (user_scoped c) = c.socket_id
socket_of (machine_scoped c) = c.socket_id

abbrev pub user_of : ClientConnection → String
user_of (session_scoped c) = c.user_id
user_of (user_scoped c) = c.user_id
user_of (machine_scoped c) = c.user_id

unfoldable pub account_room : String → String → String
account_room user_id scope = "account:" ++ (user_id ++ (":" ++ scope))

abbrev pub session_scope : String → String
session_scope session_id = "session:" ++ session_id

abbrev pub lease_scope : String → String → String
lease_scope session_id lease_id = "session:" ++ (session_id ++ (":runtime-lease:" ++ lease_id))

abbrev pub machine_scope : String → String
machine_scope machine_id = "machine:" ++ machine_id

abbrev pub get_runtime_connection_lease_room : String → String → String → String
get_runtime_connection_lease_room user_id session_id lease_id =
    account_room user_id (lease_scope session_id lease_id)

-- The second room of a session's connection: an empty lease identifier is none.
abbrev pub session_room : String → String → Option String → String
session_room user_id session_id none = account_room user_id (session_scope session_id)
session_room user_id session_id (some l) = get_runtime_connection_lease_room user_id session_id l

unfoldable pub get_connection_rooms : ClientConnection → List String
get_connection_rooms (session_scoped c) =
    if c.replay_only
    then []
    else account_room c.user_id "all"
      ∷ session_room c.user_id c.session_id (truthy c.runtime_connection_lease_id)
      ∷ []
get_connection_rooms (user_scoped c) =
    account_room c.user_id "all" ∷ account_room c.user_id "user" ∷ []
get_connection_rooms (machine_scoped c) =
    account_room c.user_id "all" ∷ account_room c.user_id (machine_scope c.machine_id) ∷ []

unfoldable pub get_recipient_rooms : String → RecipientFilter → List String
get_recipient_rooms user_id (all_interested_in_session session_id) =
    account_room user_id "user" ∷ account_room user_id (session_scope session_id) ∷ []
get_recipient_rooms user_id user_scoped_only = account_room user_id "user" ∷ []
get_recipient_rooms user_id (machine_scoped_only machine_id) =
    account_room user_id "user" ∷ account_room user_id (machine_scope machine_id) ∷ []
get_recipient_rooms user_id all_user_authenticated_connections = account_room user_id "all" ∷ []

unfoldable pub should_send_to_connection : ClientConnection → RecipientFilter → Bool
should_send_to_connection (session_scoped c) (all_interested_in_session session_id) =
    if c.replay_only then false else c.session_id == session_id
should_send_to_connection (machine_scoped c) (all_interested_in_session session_id) = false
should_send_to_connection (user_scoped c) (all_interested_in_session session_id) = true
should_send_to_connection (session_scoped c) user_scoped_only = false
should_send_to_connection (machine_scoped c) user_scoped_only = false
should_send_to_connection (user_scoped c) user_scoped_only = true
should_send_to_connection (user_scoped c) (machine_scoped_only machine_id) = true
should_send_to_connection (machine_scoped c) (machine_scoped_only machine_id) =
    c.machine_id == machine_id
should_send_to_connection (session_scoped c) (machine_scoped_only machine_id) = false
should_send_to_connection (session_scoped c) all_user_authenticated_connections = not c.replay_only
should_send_to_connection (user_scoped c) all_user_authenticated_connections = true
should_send_to_connection (machine_scoped c) all_user_authenticated_connections = true
