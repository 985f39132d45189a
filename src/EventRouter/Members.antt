-- ===== src/EventRouter/Members.antt =====
-- The connections of a process as a relation between users and sockets.
use happy_server.Common.{
  String, Bool, not, ◌&&◌, ◌||◌, List, [], ◌∷◌, ◌==◌, eq_iff, arith, ◌≡◌, refl, Option-cases, inl,
  inr,
}
use happy_server.EventRouter.{ClientConnection, socket_of}
use happy_server.EventRouter.Registry.{
  UserConnections, has_socket, without_socket, set_add, connections_of, kept_set, add_connection,
  remove_connection,
}

-- Whether the user has a connection with the socket.
abbrev pub is_connected : UserConnections → String → String → Bool
is_connected table u k = has_socket k (connections_of (table u))

has_socket-set_add :
    (c : ClientConnection) (cs : List ClientConnection) (k : String)
    → has_socket k (set_add c cs) ≡ (socket_of c == k || has_socket k cs)
unfolding set_add
has_socket-set_add c [] k = refl
has_socket-set_add c (d ∷ ds) k = ground (
  arith,
  eq_iff (socket_of d) (socket_of c),
  eq_iff (socket_of c) k,
  eq_iff (socket_of d) k,
  has_socket-set_add c ds k,
)

has_socket-without :
    (j k : String) (cs : List ClientConnection)
    → has_socket k (without_socket j cs) ≡ (not (j == k) && has_socket k cs)
unfolding without_socket has_socket
has_socket-without j k [] = ground arith
has_socket-without j k (d ∷ ds) =
    ground
      (arith, eq_iff (socket_of d) j, eq_iff j k, eq_iff (socket_of d) k, has_socket-without j k ds)

kept_set_lem : (cs : List ClientConnection) → connections_of (kept_set cs) ≡ cs
kept_set_lem [] = refl
kept_set_lem (c ∷ cs) = refl

-- Adding a connection adds the pair of its user and socket, and removing it takes that pair away;
-- every other pair is as before.
pub connections_refine :
    (table : UserConnections) (u v k : String) (c : ClientConnection)
    → (is_connected (add_connection table u c) v k
        ≡ (is_connected table v k || (u == v && socket_of c == k)))
      × (is_connected (remove_connection table u c) v k
          ≡ (is_connected table v k && not (u == v && socket_of c == k)))
unfolding add_connection remove_connection has_socket
connections_refine table u v k c = elim (Option-cases (table u)) [
  | inl empty ↦ (ground (arith, eq_iff u v, has_socket-set_add c [] k), ground (arith, eq_iff u v))
  | inr (cs, there) ↦ (
    ground (arith, eq_iff u v, has_socket-set_add c cs k),
    ground (
      arith,
      eq_iff u v,
      has_socket-without (socket_of c) k cs,
      kept_set_lem (without_socket (socket_of c) cs),
    ),
  )
]
