-- ===== src/EventRouter/Registry.antt =====
-- The class `EventRouter`: the connections of this process by user, and the emission of an event,
-- through the rooms of a server or, without one, to the selected connections. A set of connections is
-- a list without a repeated socket; `true` for `has_server` is `this.io`.
use happy_server.Common.{
  String, Bool, true, false, not, ◌&&◌, ◌||◌, Option, none, some, List, [], ◌∷◌, ◌==◌,
  if◌then◌else◌, update, sql_eq, truthy, is_null,
}
use happy_server.EventRouter.{
  SessionScopedConnection, ClientConnection, session_scoped, user_scoped, machine_scoped,
  RecipientFilter, all_user_authenticated_connections, socket_of, account_room, session_scope,
  get_runtime_connection_lease_room, should_send_to_connection, get_recipient_rooms,
}

abbrev pub UserConnections : Type 0
UserConnections = String → Option (List ClientConnection)

unfoldable pub has_socket : String → List ClientConnection → Bool
has_socket k [] = false
has_socket k (c ∷ cs) = socket_of c == k || has_socket k cs

unfoldable pub without_socket : String → List ClientConnection → List ClientConnection
without_socket k [] = []
without_socket k (c ∷ cs) =
    let rest = without_socket k cs in if socket_of c == k then rest else c ∷ rest

-- `Set.add` at the end; an object has one socket.
unfoldable pub set_add : ClientConnection → List ClientConnection → List ClientConnection
unfolding has_socket
set_add c [] = c ∷ []
set_add c (d ∷ ds) =
    let rest = set_add c ds in if socket_of d == socket_of c then d ∷ ds else d ∷ rest

abbrev pub connections_of : Option (List ClientConnection) → List ClientConnection
connections_of none = []
connections_of (some cs) = cs

unfoldable pub add_connection : UserConnections → String → ClientConnection → UserConnections
unfolding set_add
add_connection table user_id c =
    update table user_id (some (set_add c (connections_of (table user_id))))

abbrev pub kept_set : List ClientConnection → Option (List ClientConnection)
kept_set [] = none
kept_set (c ∷ cs) = some (c ∷ cs)

unfoldable pub remove_connection : UserConnections → String → ClientConnection → UserConnections
unfolding without_socket
remove_connection table user_id c = elim (table user_id) [
  | none ↦ table
  | some cs ↦ update table user_id (kept_set (without_socket (socket_of c) cs))
]

-- What an emission is addressed to: rooms, less one socket, or the sockets one by one.
pub data Emission : Type 0 where
  to_rooms : List String → Option String → Emission
  to_sockets : List String → Emission

-- `params.recipientFilter || { type: 'all-user-authenticated-connections' }`.
abbrev pub filter_or_all : Option RecipientFilter → RecipientFilter
filter_or_all none = all_user_authenticated_connections
filter_or_all (some f) = f

unfoldable pub selected_sockets :
    List ClientConnection → RecipientFilter → Option String → List String
selected_sockets [] f skip = []
selected_sockets (c ∷ cs) f skip =
    let rest = selected_sockets cs f skip in
    if sql_eq skip (socket_of c) || not (should_send_to_connection c f)
    then rest
    else socket_of c ∷ rest

-- `emit`, whose `skip` is the socket of `skipSenderConnection`.
unfoldable pub emit : Bool → UserConnections → String → RecipientFilter → Option String → Emission
unfolding selected_sockets
emit has_server table user_id f skip =
    if has_server
    then to_rooms (get_recipient_rooms user_id f) skip
    else to_sockets (selected_sockets (connections_of (table user_id)) f skip)

-- The fields of `DurableSessionMessageNotification` that choose the recipients, with the session of
-- its payload.
pub record DurableSessionMessageNotification : Type 0 where
  pub user_id : String
  pub payload_session_id : String
  pub origin_socket_id : Option String
  pub target_runtime_connection_lease_id : Option String
  pub target_legacy_runtime_connection : Bool

unfoldable pub durable_rooms : DurableSessionMessageNotification → List String
durable_rooms n =
    account_room n.user_id "user" ∷ (elim (truthy n.target_runtime_connection_lease_id) [
      | some l ↦ get_runtime_connection_lease_room n.user_id n.payload_session_id l ∷ []
      | none ↦
          if n.target_legacy_runtime_connection
          then account_room n.user_id (session_scope n.payload_session_id) ∷ []
          else []
    ])

-- `===` on lease identifiers, where an absent one of the connection is not the notification's null.
abbrev same_lease : Option String → Option String → Bool
same_lease (some a) (some b) = a == b
same_lease _ _ = false

abbrev is_lease_target : DurableSessionMessageNotification → SessionScopedConnection → Bool
is_lease_target n c =
    not c.replay_only
    && c.session_id == n.payload_session_id
    && same_lease c.runtime_connection_lease_id n.target_runtime_connection_lease_id

abbrev is_legacy_target : DurableSessionMessageNotification → SessionScopedConnection → Bool
is_legacy_target n c =
    not c.replay_only
    && c.session_id == n.payload_session_id
    && is_null (truthy c.runtime_connection_lease_id)
    && n.target_legacy_runtime_connection

unfoldable pub is_durable_recipient : DurableSessionMessageNotification → ClientConnection → Bool
is_durable_recipient n (user_scoped c) = true
is_durable_recipient n (machine_scoped c) = false
is_durable_recipient n (session_scoped c) = is_lease_target n c || is_legacy_target n c

-- One round of the loop: whether it emits to the connection, which it does not to the origin's.
unfoldable pub is_durable_target : DurableSessionMessageNotification → ClientConnection → Bool
unfolding is_durable_recipient
is_durable_target n c =
    if sql_eq n.origin_socket_id (socket_of c) then false else is_durable_recipient n c

unfoldable pub durable_sockets :
    DurableSessionMessageNotification → List ClientConnection → List String
unfolding is_durable_target
durable_sockets n [] = []
durable_sockets n (c ∷ cs) =
    let rest = durable_sockets n cs in if is_durable_target n c then socket_of c ∷ rest else rest

unfoldable pub emit_durable_session_message_local :
    Bool → UserConnections → DurableSessionMessageNotification → Emission
unfolding durable_rooms durable_sockets
emit_durable_session_message_local has_server table n =
    if has_server
    then to_rooms (durable_rooms n) (truthy n.origin_socket_id)
    else to_sockets (durable_sockets n (connections_of (table n.user_id)))
