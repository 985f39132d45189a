-- ===== src/EventRouter/Agreement.antt =====
-- Delivery through the rooms of the server against the filter on the connections of one process.
use happy_server.Common.{
  String, Bool, true, false, not, ◌&&◌, ◌||◌, Option, none, some, List, [], ◌∷◌, ◌==◌, eq_iff,
  eq_refl, is_null, truthy, arith, ◌≡◌, refl, Bool-cases, Option-cases, inl, inr,
}
use happy_server.EventRouter.{
  SessionScopedConnection, UserScopedConnection, MachineScopedConnection, ClientConnection,
  session_scoped, user_scoped, machine_scoped, RecipientFilter, all_interested_in_session,
  user_scoped_only, machine_scoped_only, all_user_authenticated_connections, user_of, account_room,
  session_scope, lease_scope, machine_scope, session_room, get_connection_rooms,
  get_recipient_rooms, should_send_to_connection,
}
use happy_server.EventRouter.Names.{
  has_colon, room_test, room_other_user, user-session, user-lease, user-machine, session-all,
  machine-all, session-machine, machine-session, machine-lease, session-session, machine-machine,
  session-lease,
}

abbrev pub in_rooms : String → List String → Bool
in_rooms r [] = false
in_rooms r (s ∷ ss) = r == s || in_rooms r ss

-- Whether a connection is in one of the rooms that an emission names.
abbrev pub rooms_meet : List String → List String → Bool
rooms_meet [] ss = false
rooms_meet (r ∷ rs) ss = in_rooms r ss || rooms_meet rs ss

-- `io.to(getRecipientRooms(…))` reaches the connection.
abbrev pub reached_by_rooms : String → RecipientFilter → ClientConnection → Bool
reached_by_rooms u f c = rooms_meet (get_recipient_rooms u f) (get_connection_rooms c)

abbrev pub holds_lease : ClientConnection → Bool
holds_lease (session_scoped c) = not (is_null (truthy c.runtime_connection_lease_id))
holds_lease (user_scoped c) = false
holds_lease (machine_scoped c) = false

abbrev pub is_session_filter : RecipientFilter → Bool
is_session_filter (all_interested_in_session s) = true
is_session_filter user_scoped_only = false
is_session_filter (machine_scoped_only m) = false
is_session_filter all_user_authenticated_connections = false

-- The session that a filter names has no colon in its identifier.
abbrev pub named_plainly : RecipientFilter → Bool
named_plainly (all_interested_in_session s) = not (has_colon s)
named_plainly user_scoped_only = true
named_plainly (machine_scoped_only m) = true
named_plainly all_user_authenticated_connections = true

user_reached :
    (c : UserScopedConnection) (f : RecipientFilter)
    → reached_by_rooms c.user_id f (user_scoped c) ≡ should_send_to_connection (user_scoped c) f
unfolding get_connection_rooms get_recipient_rooms should_send_to_connection
user_reached c (all_interested_in_session s) =
    ground (arith, eq_refl (account_room c.user_id "user"))
user_reached c user_scoped_only = ground (arith, eq_refl (account_room c.user_id "user"))
user_reached c (machine_scoped_only m) = ground (arith, eq_refl (account_room c.user_id "user"))
user_reached c all_user_authenticated_connections =
    ground (arith, eq_refl (account_room c.user_id "all"))

machine_reached :
    (c : MachineScopedConnection) (f : RecipientFilter)
    → reached_by_rooms c.user_id f (machine_scoped c)
      ≡ should_send_to_connection (machine_scoped c) f
unfolding get_connection_rooms get_recipient_rooms should_send_to_connection
machine_reached c (all_interested_in_session s) =
    simp (room_test)
      (ground (arith, session-machine s c.machine_id, user-machine c.machine_id, session-all s))
machine_reached c user_scoped_only = simp (room_test) (ground (arith, user-machine c.machine_id))
machine_reached c (machine_scoped_only m) = simp (room_test) (
    ground (
      arith,
      user-machine c.machine_id,
      machine-all m,
      machine-machine m c.machine_id,
      eq_iff m c.machine_id,
      eq_iff c.machine_id m,
    ))
machine_reached c all_user_authenticated_connections =
    ground (arith, eq_refl (account_room c.user_id "all"))

-- The rooms of a live session connection, with and without a lease.
pub live_rooms :
    (c : SessionScopedConnection) (lease : Option String)
    → c.replay_only ≡ false
    → truthy c.runtime_connection_lease_id ≡ lease
    → get_connection_rooms (session_scoped c)
      ≡ account_room c.user_id "all" ∷ session_room c.user_id c.session_id lease ∷ []
unfolding get_connection_rooms
live_rooms c lease live held = ground (arith, live, held)

plain_session_reached :
    (c : SessionScopedConnection) (f : RecipientFilter)
    → c.replay_only ≡ false
    → truthy c.runtime_connection_lease_id ≡ none
    → reached_by_rooms c.user_id f (session_scoped c)
      ≡ should_send_to_connection (session_scoped c) f
unfolding get_recipient_rooms should_send_to_connection
plain_session_reached c (all_interested_in_session s) live plain =
    rw (live_rooms c none live plain) (
      simp (room_test) (
        ground (
          arith,
          live,
          user-session c.session_id,
          session-all s,
          session-session s c.session_id,
          eq_iff s c.session_id,
          eq_iff c.session_id s,
        )))
plain_session_reached c user_scoped_only live plain =
    rw (live_rooms c none live plain) (simp (room_test) (ground (arith, user-session c.session_id)))
plain_session_reached c (machine_scoped_only m) live plain = rw (live_rooms c none live plain) (
    simp (room_test)
      (ground (arith, user-session c.session_id, machine-all m, machine-session m c.session_id)))
plain_session_reached c all_user_authenticated_connections live plain =
    rw (live_rooms c none live plain) (ground (arith, live, eq_refl (account_room c.user_id "all")))

leased_session_reached :
    (c : SessionScopedConnection) (f : RecipientFilter) (l : String)
    → c.replay_only ≡ false
    → truthy c.runtime_connection_lease_id ≡ some l
    → named_plainly f ≡ true
    → reached_by_rooms c.user_id f (session_scoped c)
      ≡ (should_send_to_connection (session_scoped c) f && not (is_session_filter f))
unfolding get_recipient_rooms should_send_to_connection
leased_session_reached c (all_interested_in_session s) l live leased named =
    rw (live_rooms c (some l) live leased) (
      simp (room_test)
        (ground (arith, user-lease c.session_id l, session-all s, session-lease s c.session_id l)))
leased_session_reached c user_scoped_only l live leased named =
    rw (live_rooms c (some l) live leased)
      (simp (room_test) (ground (arith, user-lease c.session_id l)))
leased_session_reached c (machine_scoped_only m) l live leased named =
    rw (live_rooms c (some l) live leased) (
      simp (room_test)
        (ground (arith, user-lease c.session_id l, machine-all m, machine-lease m c.session_id l)))
leased_session_reached c all_user_authenticated_connections l live leased named =
    rw (live_rooms c (some l) live leased)
      (ground (arith, live, eq_refl (account_room c.user_id "all")))

replay_reached :
    (c : SessionScopedConnection) (f : RecipientFilter)
    → c.replay_only ≡ true
    → reached_by_rooms c.user_id f (session_scoped c) ≡ (
        should_send_to_connection (session_scoped c) f
        && not (holds_lease (session_scoped c) && is_session_filter f))
unfolding get_connection_rooms get_recipient_rooms should_send_to_connection
replay_reached c (all_interested_in_session s) replay = ground (arith, replay)
replay_reached c user_scoped_only replay = ground (arith, replay)
replay_reached c (machine_scoped_only m) replay = ground (arith, replay)
replay_reached c all_user_authenticated_connections replay = ground (arith, replay)

-- The rooms of the server reach a connection of the user exactly where the filter of the process
-- selects it, except for a session connection that holds a lease: an emission to all interested in a
-- session, whose identifier has no colon, does not reach it.
pub rooms_agree :
    (u : String) (f : RecipientFilter) (c : ClientConnection)
    → user_of c ≡ u
    → named_plainly f ≡ true
    → reached_by_rooms u f c
      ≡ (should_send_to_connection c f && not (holds_lease c && is_session_filter f))
rooms_agree u f (user_scoped c) mine named = rw (← mine) (ground (arith, user_reached c f))
rooms_agree u f (machine_scoped c) mine named = rw (← mine) (ground (arith, machine_reached c f))
rooms_agree u f (session_scoped c) mine named = elim (Bool-cases c.replay_only) [
  | inl replay ↦ rw (← mine) (replay_reached c f replay)
  | inr live ↦ elim (Option-cases (truthy c.runtime_connection_lease_id)) [
    | inl plain ↦ rw (← mine) (ground (arith, plain, plain_session_reached c f live plain))
    | inr (l, leased) ↦
        rw (← mine) (ground (arith, leased, leased_session_reached c f l live leased named))
  ]
]

-- A room list of one user meets none of another, whatever the scopes.
abbrev pub rooms_of_user : String → List String → List String
rooms_of_user u [] = []
rooms_of_user u (a ∷ as') = account_room u a ∷ rooms_of_user u as'

in_rooms_other :
    (u v a : String) (bs : List String)
    → has_colon u ≡ false
    → has_colon v ≡ false
    → (u == v) ≡ false
    → in_rooms (account_room u a) (rooms_of_user v bs) ≡ false
in_rooms_other u v a [] hu hv apart = refl
in_rooms_other u v a (b ∷ bs) hu hv apart =
    ground (arith, room_other_user u v a b hu hv apart, in_rooms_other u v a bs hu hv apart)

pub rooms_meet_other :
    (u v : String) (ps bs : List String)
    → has_colon u ≡ false
    → has_colon v ≡ false
    → (u == v) ≡ false
    → rooms_meet (rooms_of_user u ps) (rooms_of_user v bs) ≡ false
rooms_meet_other u v [] bs hu hv apart = refl
rooms_meet_other u v (a ∷ ps) bs hu hv apart =
    ground (arith, in_rooms_other u v a bs hu hv apart, rooms_meet_other u v ps bs hu hv apart)

pub recipient_scopes :
    (u : String) (f : RecipientFilter)
    → (ps : List String) × (get_recipient_rooms u f ≡ rooms_of_user u ps)
unfolding get_recipient_rooms
recipient_scopes u (all_interested_in_session s) = ("user" ∷ session_scope s ∷ [], refl)
recipient_scopes u user_scoped_only = ("user" ∷ [], refl)
recipient_scopes u (machine_scoped_only m) = ("user" ∷ machine_scope m ∷ [], refl)
recipient_scopes u all_user_authenticated_connections = ("all" ∷ [], refl)

pub connection_scopes :
    (c : ClientConnection)
    → (bs : List String) × (get_connection_rooms c ≡ rooms_of_user (user_of c) bs)
unfolding get_connection_rooms
connection_scopes (user_scoped c) = ("all" ∷ "user" ∷ [], refl)
connection_scopes (machine_scoped c) = ("all" ∷ machine_scope c.machine_id ∷ [], refl)
connection_scopes (session_scoped c) = elim (Bool-cases c.replay_only) [
  | inl replay ↦ ([], ground (arith, replay))
  | inr live ↦ elim (Option-cases (truthy c.runtime_connection_lease_id)) [
    | inl plain ↦ ("all" ∷ session_scope c.session_id ∷ [], live_rooms c none live plain)
    | inr (l, leased) ↦ ("all" ∷ lease_scope c.session_id l ∷ [], live_rooms c (some l) live leased)
  ]
]
