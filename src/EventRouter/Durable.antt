-- ===== src/EventRouter/Durable.antt =====
-- Whom a committed message's notification reaches, through the rooms and without a server.
use happy_server.Common.{
  ◌∙◌, String, Bool, true, false, not, ◌&&◌, ◌||◌, Option, none, some, List, [], ◌∷◌, ◌==◌, sql_eq,
  eq_iff, eq_refl, if◌then◌else◌, is_null, truthy, arith, ◌≡◌, refl, Bool-cases, Option-cases, inl,
  inr,
}
use happy_server.EventRouter.{
  SessionScopedConnection, ClientConnection, session_scoped, user_scoped, machine_scoped, user_of,
  socket_of, account_room, session_scope, lease_scope, machine_scope, get_connection_rooms,
}
use happy_server.EventRouter.Names.{
  has_colon, room_test, user-session, user-lease, user-machine, session-all, session-machine,
  session-session, session-lease, lease-lease, lease-all, lease-machine, lease-session,
}
use happy_server.EventRouter.Agreement.{rooms_meet, live_rooms}
use happy_server.EventRouter.Registry.{
  DurableSessionMessageNotification, durable_rooms, is_durable_recipient, is_durable_target,
}

-- One recipient is named at most, and no name is the empty text.
abbrev pub names_one_target : DurableSessionMessageNotification → Bool
names_one_target n =
    is_null n.target_runtime_connection_lease_id
    || (not (is_null (truthy n.target_runtime_connection_lease_id))
        && not n.target_legacy_runtime_connection)

-- The scope that is named beside the user's own.
abbrev target_scope : DurableSessionMessageNotification → Option String
target_scope n = elim (truthy n.target_runtime_connection_lease_id) [
  | some l ↦ some (lease_scope n.payload_session_id l)
  | none ↦
      if n.target_legacy_runtime_connection then some (session_scope n.payload_session_id) else none
]

abbrev scope_rooms : String → Option String → List String
scope_rooms u none = account_room u "user" ∷ []
scope_rooms u (some x) = account_room u "user" ∷ account_room u x ∷ []

durable_rooms_lem :
    (n : DurableSessionMessageNotification)
    → durable_rooms n ≡ scope_rooms n.user_id (target_scope n)
unfolding durable_rooms
durable_rooms_lem n = elim (Option-cases (truthy n.target_runtime_connection_lease_id)) [
  | inl no_lease ↦ ground (arith, no_lease)
  | inr (l, leased) ↦ ground (arith, leased)
]

abbrev is_scope : Option String → String → Bool
is_scope none y = false
is_scope (some x) y = x == y

two_meet :
    (u y : String) (x : Option String)
    → ("user" == y) ≡ false
    → is_scope x "all" ≡ false
    → rooms_meet (scope_rooms u x) (account_room u "all" ∷ account_room u y ∷ []) ≡ is_scope x y
two_meet u y none other apart = simp (room_test) (ground (arith, other))
two_meet u y (some x) other apart = simp (room_test) (ground (arith, other, apart))

scope-all : (n : DurableSessionMessageNotification) → is_scope (target_scope n) "all" ≡ false
scope-all n = elim (Option-cases (truthy n.target_runtime_connection_lease_id)) [
  | inl no_lease ↦ ground (arith, no_lease, session-all n.payload_session_id)
  | inr (l, leased) ↦ ground (arith, leased, lease-all n.payload_session_id l)
]

user_meets :
    (u : String) (x : Option String)
    → rooms_meet (scope_rooms u x) (account_room u "all" ∷ account_room u "user" ∷ []) ≡ true
user_meets u none = ground (arith, eq_refl (account_room u "user"))
user_meets u (some x) = ground (arith, eq_refl (account_room u "user"))

scope-machine :
    (n : DurableSessionMessageNotification) (m : String)
    → is_scope (target_scope n) (machine_scope m) ≡ false
scope-machine n m = elim (Option-cases (truthy n.target_runtime_connection_lease_id)) [
  | inl no_lease ↦ ground (arith, no_lease, session-machine n.payload_session_id m)
  | inr (l, leased) ↦ ground (arith, leased, lease-machine n.payload_session_id l m)
]

scope-session :
    (n : DurableSessionMessageNotification) (c : SessionScopedConnection)
    → names_one_target n ≡ true
    → has_colon n.payload_session_id ≡ false
    → has_colon c.session_id ≡ false
    → c.replay_only ≡ false
    → truthy c.runtime_connection_lease_id ≡ none
    → is_scope (target_scope n) (session_scope c.session_id)
      ≡ is_durable_recipient n (session_scoped c)
unfolding is_durable_recipient
scope-session n c one hn hc live plain = elim (Option-cases n.target_runtime_connection_lease_id) [
  | inl no_lease ↦ ground (
    arith,
    no_lease,
    session-session n.payload_session_id c.session_id,
    eq_iff n.payload_session_id c.session_id,
    eq_iff c.session_id n.payload_session_id,
  )
  | inr (l, named) ↦ elim (Option-cases c.runtime_connection_lease_id) [
    | inl none_held ↦ ground (arith, lease-session n.payload_session_id l c.session_id hc)
    | inr (m, held) ↦ ground (
      arith,
      eq_iff m l,
      eq_iff m "",
      eq_iff l "",
      lease-session n.payload_session_id l c.session_id hc,
    )
  ]
]

scope-lease :
    (n : DurableSessionMessageNotification) (c : SessionScopedConnection) (m : String)
    → names_one_target n ≡ true
    → has_colon n.payload_session_id ≡ false
    → has_colon c.session_id ≡ false
    → c.replay_only ≡ false
    → truthy c.runtime_connection_lease_id ≡ some m
    → is_scope (target_scope n) (lease_scope c.session_id m)
      ≡ is_durable_recipient n (session_scoped c)
unfolding is_durable_recipient
scope-lease n c m one hn hc live leased = elim (Option-cases c.runtime_connection_lease_id) [
  | inl none_held ↦ ground (arith, leased)
  | inr (k, held) ↦ elim (Option-cases n.target_runtime_connection_lease_id) [
    | inl no_lease ↦ ground (arith, session-lease n.payload_session_id c.session_id m hn)
    | inr (l, named) ↦ ground (
      arith,
      eq_iff k l,
      eq_iff l m,
      eq_iff m l,
      eq_iff n.payload_session_id c.session_id,
      eq_iff c.session_id n.payload_session_id,
      lease-lease n.payload_session_id l c.session_id m hn hc,
    )
  ]
]

-- The session identifier of a session connection has no colon.
abbrev pub session_named_plainly : ClientConnection → Bool
session_named_plainly (session_scoped c) = not (has_colon c.session_id)
session_named_plainly (user_scoped c) = true
session_named_plainly (machine_scoped c) = true

meets_none : (rs : List String) → rooms_meet rs [] ≡ false
meets_none [] = refl
meets_none (r ∷ rs) = ground (arith, meets_none rs)

replay_agrees :
    (n : DurableSessionMessageNotification) (c : SessionScopedConnection)
    → c.replay_only ≡ true
    → rooms_meet (durable_rooms n) (get_connection_rooms (session_scoped c))
      ≡ is_durable_recipient n (session_scoped c)
unfolding get_connection_rooms is_durable_recipient
replay_agrees n c replay = ground (arith, replay, meets_none (durable_rooms n))

-- The rooms against the recipients of the loop, but for the origin's socket.
recipients_agree :
    (n : DurableSessionMessageNotification) (c : ClientConnection)
    → user_of c ≡ n.user_id
    → names_one_target n ≡ true
    → has_colon n.payload_session_id ≡ false
    → session_named_plainly c ≡ true
    → rooms_meet (durable_rooms n) (get_connection_rooms c) ≡ is_durable_recipient n c
unfolding is_durable_recipient get_connection_rooms
recipients_agree n (user_scoped c) mine one hn hc =
    rw (durable_rooms_lem n, get_connection_rooms, mine) (user_meets n.user_id (target_scope n))
recipients_agree n (machine_scoped c) mine one hn hc =
    rw (durable_rooms_lem n, get_connection_rooms, mine)
      (two_meet n.user_id (machine_scope c.machine_id) (target_scope n) (user-machine c.machine_id)
          (scope-all n)
        ∙ scope-machine n c.machine_id)
recipients_agree n (session_scoped c) mine one hn hc = elim (Bool-cases c.replay_only) [
  | inl replay ↦ replay_agrees n c replay
  | inr live ↦ elim (Option-cases (truthy c.runtime_connection_lease_id)) [
    | inl plain ↦
        rw (durable_rooms_lem n, live_rooms c none live plain, mine)
          (two_meet n.user_id (session_scope c.session_id) (target_scope n)
              (user-session c.session_id) (scope-all n)
            ∙ scope-session n c one hn (ground arith) live plain)
    | inr (m, leased) ↦
        rw (durable_rooms_lem n, live_rooms c (some m) live leased, mine)
          (two_meet n.user_id (lease_scope c.session_id m) (target_scope n)
              (user-lease c.session_id m) (scope-all n)
            ∙ scope-lease n c m one hn (ground arith) live leased)
  ]
]

-- `io.local.to(rooms).except(originSocketId)` reaches the connection.
abbrev pub reached_durably : DurableSessionMessageNotification → ClientConnection → Bool
reached_durably n c =
    rooms_meet (durable_rooms n) (get_connection_rooms c)
    && not (sql_eq (truthy n.origin_socket_id) (socket_of c))

-- For a notification that names a lease (not the empty text) or the legacy runtime or neither, session
-- identifiers without a colon and a socket identifier that is not the empty text: the rooms of the
-- server, less the origin's socket, reach a connection of the user exactly where the loop over the
-- connections of the process would send it.
pub durable_agrees :
    (n : DurableSessionMessageNotification) (c : ClientConnection)
    → user_of c ≡ n.user_id
    → names_one_target n ≡ true
    → has_colon n.payload_session_id ≡ false
    → session_named_plainly c ≡ true
    → (socket_of c == "") ≡ false
    → reached_durably n c ≡ is_durable_target n c
unfolding is_durable_target
durable_agrees n c mine one hn hc named =
    rw (recipients_agree n c mine one hn hc) (elim (Option-cases n.origin_socket_id) [
      | inl no_origin ↦ ground (arith, no_origin)
      | inr (o, origin) ↦ ground (arith, origin, eq_iff o (socket_of c), eq_iff o "")
    ])
