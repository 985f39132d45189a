-- ===== src/EventRouter/Examples.antt =====
-- The theorems on the event router at the user "u", and tests.
use happy_server.Common.{true, false, none, some, [], ◌∷◌, ◌≡◌, refl}
use happy_server.EventRouter.{
  SessionScopedConnection, ClientConnection, session_scoped, user_scoped, all_interested_in_session,
  account_room, get_connection_rooms, should_send_to_connection,
}
use happy_server.EventRouter.Agreement.{reached_by_rooms, rooms_agree}
use happy_server.EventRouter.Registry.{
  DurableSessionMessageNotification, is_durable_target, add_connection, emit, to_sockets,
  UserConnections, has_socket,
}
use happy_server.EventRouter.Durable.{durable_agrees, reached_durably}
use happy_server.EventRouter.Isolation.{users_isolated, carries_to}
use happy_server.EventRouter.Members.{is_connected, connections_refine}

abbrev runtime : SessionScopedConnection
runtime = record {
  socket_id = "k";
  user_id = "u";
  session_id = "s";
  session_instance_id = some "i";
  runtime_connection_lease_id = some "l";
  runtime_connection_lease_rejected = false;
  replay_only = false;
  replay_requested_session_instance_id = none;
}

abbrev app : ClientConnection
app = user_scoped (record { socket_id = "a"; user_id = "u" })

abbrev no_connections : UserConnections
no_connections = λ u. none

abbrev notification : DurableSessionMessageNotification
notification = record {
  user_id = "u";
  payload_session_id = "s";
  origin_socket_id = some "a";
  target_runtime_connection_lease_id = some "l";
  target_legacy_runtime_connection = false;
}

rooms_test :
    get_connection_rooms (session_scoped runtime)
    ≡ "account:u:all" ∷ "account:u:session:s:runtime-lease:l" ∷ []
unfolding get_connection_rooms account_room
rooms_test = refl

emit_test :
    emit false
      (add_connection (add_connection no_connections "u" app) "u" (session_scoped runtime))
      "u"
      (all_interested_in_session "s")
      (some "a")
    ≡ to_sockets ("k" ∷ [])
unfolding emit add_connection should_send_to_connection
emit_test = refl

rooms_agree_example :
    reached_by_rooms "u" (all_interested_in_session "s") (session_scoped runtime) ≡ false
unfolding should_send_to_connection
rooms_agree_example =
    rooms_agree "u" (all_interested_in_session "s") (session_scoped runtime) refl refl

users_isolated_example :
    carries_to
      (emit true
        (add_connection no_connections "v"
          (user_scoped (record { socket_id = "b"; user_id = "v" })))
        "v"
        (all_interested_in_session "s")
        none)
      app
    ≡ false
unfolding add_connection
users_isolated_example =
    (users_isolated true
      (add_connection no_connections "v" (user_scoped (record { socket_id = "b"; user_id = "v" })))
      "v" (all_interested_in_session "s") none (record notification { user_id = "v" }) app refl refl
      refl refl refl).0

-- The origin's own connection is reached neither way.
origin_test : is_durable_target notification app ≡ false
unfolding is_durable_target
origin_test = refl

durable_agrees_example : reached_durably notification (session_scoped runtime) ≡ true
unfolding is_durable_target
durable_agrees_example =
    durable_agrees notification (session_scoped runtime) refl refl refl refl refl

connections_refine_example : is_connected (add_connection no_connections "u" app) "u" "a" ≡ true
unfolding has_socket
connections_refine_example = (connections_refine no_connections "u" "u" "a" app).0
