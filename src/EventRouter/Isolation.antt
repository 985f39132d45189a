-- ===== src/EventRouter/Isolation.antt =====
-- What an emission to one user can reach: neither way of delivery, with a server or without one,
-- carries it to a connection of another user.
use happy_server.Common.{
  String, Bool, true, false, not, ◌&&◌, Option, List, [], ◌∷◌, ◌==◌, eq_iff, truthy, sql_eq, arith,
  ◌≡◌, refl, Option-cases, Bool-cases, inl, inr,
}
use happy_server.EventRouter.{
  ClientConnection, RecipientFilter, user_of, socket_of, session_scope, lease_scope,
  get_connection_rooms, get_recipient_rooms, get_runtime_connection_lease_room,
}
use happy_server.EventRouter.Names.{has_colon}
use happy_server.EventRouter.Agreement.{
  in_rooms, rooms_meet, rooms_of_user, rooms_meet_other, recipient_scopes, connection_scopes,
}
use happy_server.EventRouter.Registry.{
  UserConnections, Emission, to_rooms, to_sockets, emit, selected_sockets, has_socket,
  connections_of, DurableSessionMessageNotification, durable_rooms, durable_sockets,
  is_durable_target, emit_durable_session_message_local,
}
use happy_server.EventRouter.Members.{is_connected}

-- What the emission is addressed to names the connection: one of its rooms, but not its socket as the
-- excepted one; or its socket.
abbrev pub carries_to : Emission → ClientConnection → Bool
carries_to (to_rooms rs except) c =
    rooms_meet rs (get_connection_rooms c) && not (sql_eq except (socket_of c))
carries_to (to_sockets ks) c = in_rooms (socket_of c) ks

selected_sockets-has_socket :
    (cs : List ClientConnection) (f : RecipientFilter) (skip : Option String) (k : String)
    → has_socket k cs ≡ false
    → in_rooms k (selected_sockets cs f skip) ≡ false
unfolding selected_sockets has_socket
selected_sockets-has_socket [] f skip k absent = refl
selected_sockets-has_socket (c ∷ cs) f skip k absent =
    ground (
      arith,
      selected_sockets-has_socket cs f skip k,
      eq_iff k (socket_of c),
      eq_iff (socket_of c) k,
    )

durable_sockets-has_socket :
    (n : DurableSessionMessageNotification) (cs : List ClientConnection) (k : String)
    → has_socket k cs ≡ false
    → in_rooms k (durable_sockets n cs) ≡ false
unfolding durable_sockets has_socket
durable_sockets-has_socket n [] k absent = refl
durable_sockets-has_socket n (c ∷ cs) k absent = elim (Bool-cases (is_durable_target n c)) [
  | inl sent ↦ simp (sent) (
      ground
        (arith, durable_sockets-has_socket n cs k, eq_iff k (socket_of c), eq_iff (socket_of c) k))
  | inr kept ↦ simp (kept) (ground (arith, durable_sockets-has_socket n cs k))
]

durable_scopes :
    (n : DurableSessionMessageNotification)
    → (ps : List String) × (durable_rooms n ≡ rooms_of_user n.user_id ps)
unfolding durable_rooms get_runtime_connection_lease_room
durable_scopes n = elim (Option-cases (truthy n.target_runtime_connection_lease_id)) [
  | inl no_lease ↦ elim (Bool-cases n.target_legacy_runtime_connection) [
    | inl legacy ↦ ("user" ∷ session_scope n.payload_session_id ∷ [], simp (no_lease, legacy) refl)
    | inr alone ↦ ("user" ∷ [], simp (no_lease, alone) refl)
  ]
  | inr (l, leased) ↦ ("user" ∷ lease_scope n.payload_session_id l ∷ [], simp (leased) refl)
]

module _ (c : ClientConnection) (plain : has_colon (user_of c) ≡ false) where
  rooms_apart :
      (u : String) (ps : List String)
      → has_colon u ≡ false
      → (u == user_of c) ≡ false
      → rooms_meet (rooms_of_user u ps) (get_connection_rooms c) ≡ false
  rooms_apart u ps hu apart =
      let (bs, joined) = connection_scopes c in
      rw joined (rooms_meet_other u (user_of c) ps bs hu plain apart)

  filter_apart :
      (u : String) (f : RecipientFilter)
      → has_colon u ≡ false
      → (u == user_of c) ≡ false
      → rooms_meet (get_recipient_rooms u f) (get_connection_rooms c) ≡ false
  filter_apart u f hu apart =
      let (ps, recipients) = recipient_scopes u f in rw recipients (rooms_apart u ps hu apart)

  durable_apart :
      (n : DurableSessionMessageNotification)
      → has_colon n.user_id ≡ false
      → (n.user_id == user_of c) ≡ false
      → rooms_meet (durable_rooms n) (get_connection_rooms c) ≡ false
  durable_apart n hu apart =
      let (ps, recipients) = durable_scopes n in rw recipients (rooms_apart n.user_id ps hu apart)

-- Neither an event to a user nor a committed message's notification to a user is addressed to a
-- connection of another user, through the rooms of a server or by the sockets of this process, whatever
-- their sessions, machines and leases are named, as long as the two users' identifiers have no colon
-- and the connection's socket is not registered for the first user.
pub users_isolated :
    (has_server : Bool) (table : UserConnections) (u : String) (f : RecipientFilter)
    (skip : Option String) (n : DurableSessionMessageNotification) (c : ClientConnection)
    → n.user_id ≡ u
    → has_colon u ≡ false
    → has_colon (user_of c) ≡ false
    → (u == user_of c) ≡ false
    → is_connected table u (socket_of c) ≡ false
    → (carries_to (emit has_server table u f skip) c ≡ false)
      × (carries_to (emit_durable_session_message_local has_server table n) c ≡ false)
unfolding emit emit_durable_session_message_local
users_isolated true table u f skip n c same hu hc apart absent = (
  rw (filter_apart c hc u f hu apart) refl,
  rw (durable_apart c hc n (rw same hu) (rw same apart)) refl,
)
users_isolated false table u f skip n c same hu hc apart absent = (
  selected_sockets-has_socket (connections_of (table u)) f skip (socket_of c) absent,
  rw same (durable_sockets-has_socket n (connections_of (table u)) (socket_of c) absent),
)
