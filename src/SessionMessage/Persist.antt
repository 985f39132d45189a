-- ===== src/SessionMessage/Persist.antt =====
-- sources/app/session/sessionMessageCreate.ts: `persistSessionMessageInTx`. `none` stands for a
-- thrown database error, after which the caller's transaction rolls back; the identifier of a new
-- message and the clock are arguments.
use happy_server.Common.{
  ℕ, ◌+◌, String, true, false, not, ◌&&◌, Option, none, some, List, [], ◌∷◌, if◌then◌else◌, sql_eq,
  truthy, update, ◌==◌,
}
use happy_server.Common.Json.{string, object, field, end_fields}
use happy_server.RuntimeLease.{Session, Db, put_session}
use happy_server.SessionMessage.{
  Message, Notification, Store, RuntimeMessageAuthorization, PersistSessionMessageInput,
  session_not_found, idempotency_conflict, runtime_connection_stale, PersistResult, success, error,
  has_ciphertext, runtime_lease_current, is_replay, target_legacy_runtime_connection, authorized,
  stale_retryable,
}

-- The unique key (session, local identifier); NULL is equal to no key.
unfoldable pub find_message : String → String → List Message → Option Message
find_message k l [] = none
find_message k l (m ∷ ms) =
    if m.session_id == k && sql_eq m.local_id l then some m else find_message k l ms

abbrev pub find_local : String → Option String → List Message → Option Message
find_local k none ms = none
find_local k (some l) ms = find_message k l ms

-- What an unauthorized producer is told: a replay producer gets its exact duplicate.
unfoldable pub refuse :
    Db
    → Session
    → PersistSessionMessageInput
    → RuntimeMessageAuthorization
    → Option Message
    → PersistResult
unfolding stale_retryable
refuse db s input a none = error runtime_connection_stale (stale_retryable db input.session_id s a)
refuse db s input a (some m) =
    if is_replay a && has_ciphertext m.content input.ciphertext
    then success true m none
    else error runtime_connection_stale (stale_retryable db input.session_id s a)

unfoldable pub new_message : ℕ → String → PersistSessionMessageInput → ℕ → Message
new_message now id input seq = record {
  id = id;
  session_id = input.session_id;
  local_id = input.local_id;
  seq = seq;
  content =
      object (field "t" (string "encrypted") (field "c" (string input.ciphertext) end_fields));
  created_at = now;
  updated_at = now;
}

unfoldable pub new_notification :
    Db → ℕ → Session → PersistSessionMessageInput → String → ℕ → Notification
unfolding runtime_lease_current target_legacy_runtime_connection
new_notification db now s input message_id update_seq = record {
  account_id = input.user_id;
  session_id = input.session_id;
  message_id = message_id;
  update_seq = update_seq;
  origin_socket_id = input.origin_socket_id;
  target_runtime_connection_lease_id =
      if runtime_lease_current db now input.session_id s then s.lease_id else none;
  target_legacy_runtime_connection = target_legacy_runtime_connection now s;
}

-- The four writes of a new message: the session counter, the message (refused by the unique key),
-- the account counter (refused where there is no account) and the notification.
unfoldable pub create :
    Store → ℕ → String → PersistSessionMessageInput → Session → Option (Store × PersistResult)
unfolding new_message new_notification put_session find_message
create store now id input s = elim (find_local input.session_id input.local_id store.messages) [
  | some m ↦ none
  | none ↦ elim (store.account_seq input.user_id) [
    | none ↦ none
    | some n ↦ some (
      record {
        runtime =
            put_session store.runtime input.session_id
              (record s { seq = s.seq + 1; updated_at = now });
        messages = new_message now id input (s.seq + 1) ∷ store.messages;
        account_seq = update store.account_seq input.user_id (some (n + 1));
        outbox = new_notification store.runtime now s input id (n + 1) ∷ store.outbox;
      },
      success false (new_message now id input (s.seq + 1)) (some (n + 1)),
    )
  ]
]

-- What follows the authorization: a duplicate, a conflict, or a new message.
unfoldable pub admit :
    Store
    → ℕ
    → String
    → PersistSessionMessageInput
    → Session
    → Option Message
    → Option (Store × PersistResult)
unfolding create
admit store now id input s none = create store now id input s
admit store now id input s (some m) =
    if not (has_ciphertext m.content input.ciphertext)
    then some (store, error idempotency_conflict false)
    else some (store, success true m none)

unfoldable pub decide :
    Store
    → ℕ
    → String
    → PersistSessionMessageInput
    → Session
    → Option RuntimeMessageAuthorization
    → Option (Store × PersistResult)
unfolding admit refuse authorized find_message
decide store now id input s none =
    admit store now id input s (find_local input.session_id (truthy input.local_id) store.messages)
decide store now id input s (some a) =
    let existing = find_local input.session_id (truthy input.local_id) store.messages in
    if authorized store.runtime now input.session_id s a
    then admit store now id input s existing
    else some (store, refuse store.runtime s input a existing)

unfoldable pub persist_session_message_in_tx :
    Store → ℕ → String → PersistSessionMessageInput → Option (Store × PersistResult)
unfolding decide
persist_session_message_in_tx store now id input = elim (store.runtime.session input.session_id) [
  | none ↦ some (store, error session_not_found false)
  | some s ↦
      if s.account_id == input.user_id
      then decide store now id input s input.runtime_authorization
      else some (store, error session_not_found false)
]
