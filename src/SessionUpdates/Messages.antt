-- ===== src/SessionUpdates/Messages.antt =====
-- The handler of `message`: the request's checks, the authorization that the connection gives its
-- producer, and the answer. `byte_length` stands for the length of a text in UTF-8.
use happy_server.Common.{
  ℕ, ◌*◌, String, Bool, true, false, not, Option, none, some, ◌==◌, if◌then◌else◌, truthy, ltb,
}
use happy_server.EventRouter.{ClientConnection, session_scoped, user_scoped, machine_scoped}
use happy_server.SessionMessage.{
  Store, PersistSessionMessageInput, RuntimeMessageAuthorization, lease, legacy, replay,
  PersistResult, success, error, ErrorCode, session_not_found, idempotency_conflict,
  runtime_connection_stale,
}
use happy_server.SessionMessage.Persist.{persist_session_message_in_tx}
use happy_server.SessionUpdates.{reject_runtime_connection}
use happy_server.SessionUpdates.Presence.{Given, parse_session_message_local_id}

abbrev pub max_session_message_ciphertext_bytes : ℕ
max_session_message_ciphertext_bytes = 7 * 1024 * 1024

pub record MessageView : Type 0 where
  pub id : String
  pub seq : ℕ
  pub local_id : Option String
  pub created_at : ℕ
  pub updated_at : ℕ

-- `SessionMessageAck`; an error is its code and whether it may be retried.
pub data MessageAck : Type 0 where
  acknowledged : Bool → MessageView → MessageAck
  refused : ErrorCode → Bool → MessageAck
  invalid_request : MessageAck
  internal_error : MessageAck

unfoldable pub to_session_message_ack : PersistResult → MessageAck
to_session_message_ack (error code retryable) = refused code retryable
to_session_message_ack (success duplicate m update_seq) = acknowledged duplicate (record {
  id = m.id;
  seq = m.seq;
  local_id = m.local_id;
  created_at = m.created_at;
  updated_at = m.updated_at;
})

-- `sessionInstanceId && runtimeConnectionLeaseId`.
abbrev lease_or_legacy : Option String → Option String → RuntimeMessageAuthorization
lease_or_legacy none l = legacy
lease_or_legacy (some i) none = legacy
lease_or_legacy (some i) (some l) = lease i l

unfoldable pub message_authorization : ClientConnection → Option RuntimeMessageAuthorization
message_authorization (user_scoped c) = none
message_authorization (machine_scoped c) = none
message_authorization (session_scoped c) =
    if c.replay_only
    then some (replay (truthy c.session_instance_id) (truthy c.runtime_connection_lease_id))
    else some
        (lease_or_legacy (truthy c.session_instance_id) (truthy c.runtime_connection_lease_id))

abbrev targets_other_session : ClientConnection → String → Bool
targets_other_session (session_scoped c) sid = not (sid == c.session_id)
targets_other_session (user_scoped c) sid = false
targets_other_session (machine_scoped c) sid = false

-- The connection after the answer: a stale producer is rejected.
abbrev rejected_if_stale : ClientConnection → PersistResult → ClientConnection
rejected_if_stale c (success duplicate m n) = c
rejected_if_stale c (error session_not_found retryable) = c
rejected_if_stale c (error idempotency_conflict retryable) = c
rejected_if_stale c (error runtime_connection_stale retryable) = reject_runtime_connection c

abbrev pub is_success : PersistResult → Bool
is_success (success duplicate m n) = true
is_success (error code retryable) = false

-- The store, the connection, whether the dispatcher is woken, and the acknowledgement.
abbrev pub Received : Type 0
Received = Store × ClientConnection × Bool × MessageAck

unfoldable pub persist_message :
    Store → ℕ → String → ClientConnection → PersistSessionMessageInput → Received
unfolding to_session_message_ack reject_runtime_connection
persist_message store now id c input = elim (persist_session_message_in_tx store now id input) [
  | none ↦ (store, c, false, internal_error)
  | some (store', result) ↦
      (store', rejected_if_stale c result, is_success result, to_session_message_ack result)
]

abbrev pub message_input :
    ClientConnection
    → String
    → String
    → String
    → String
    → Option String
    → PersistSessionMessageInput
message_input c user_id socket_id sid message local_id = record {
  user_id = user_id;
  session_id = sid;
  ciphertext = message;
  local_id = local_id;
  origin_socket_id = some socket_id;
  runtime_authorization = message_authorization c;
}

-- `message`; the text is `none` where it is not one.
unfoldable pub receive_message :
    (String → Bool)
    → (String → ℕ)
    → Store
    → ℕ
    → String
    → ClientConnection
    → String
    → String
    → String
    → Option String
    → Given
    → Received
unfolding persist_message message_authorization parse_session_message_local_id
    reject_runtime_connection
receive_message is_uuid byte_length store now id c user_id socket_id sid message local_id =
    if sid == "" then (store, c, false, invalid_request) else elim message [
      | none ↦ (store, c, false, invalid_request)
      | some t ↦
          if ltb max_session_message_ciphertext_bytes (byte_length t)
          then (store, c, false, invalid_request)
          else elim (parse_session_message_local_id is_uuid local_id) [
            | none ↦ (store, c, false, invalid_request)
            | some l ↦
                if targets_other_session c sid
                then (store, reject_runtime_connection c, false, invalid_request)
                else persist_message store now id c (message_input c user_id socket_id sid t l)
          ]
    ]
