-- ===== src/SessionMessage/Effects.antt =====
-- What each result of `persistSessionMessageInTx` says about the tables.
use happy_server.Common.{
  ℕ, ◌+◌, String, Bool, true, false, Option, none, some, ◌∷◌, arith, ◌≡◌, Option-cases, inl, inr,
  ◌⊎◌, eq_refl, if◌then◌else◌,
}
use happy_server.RuntimeLease.{Session}
use happy_server.RuntimeLease.Counters.{seq_of}
use happy_server.SessionMessage.{
  Store, PersistSessionMessageInput, Message, PersistResult, success, error, ErrorCode,
  runtime_lease_current, target_legacy_runtime_connection,
}
use happy_server.SessionMessage.Persist.{persist_session_message_in_tx, create}

-- An error and a duplicate write nothing.
pub only_new_messages_write :
    (store store' : Store) (now : ℕ) (id : String) (input : PersistSessionMessageInput)
    (r : PersistResult) (c : ErrorCode) (retryable : Bool) (m : Message) (u : Option ℕ)
    → persist_session_message_in_tx store now id input ≡ some (store', r)
    → (r ≡ error c retryable) ⊎ (r ≡ success true m u)
    → store' ≡ store
unfolding persist_session_message_in_tx create
only_new_messages_write store store' now id input r c retryable m u done (inl e) =
    elim (Option-cases (store.runtime.session input.session_id)) [
      | inl missing ↦ ground arith
      | inr (s, found) ↦ ground arith
    ]
only_new_messages_write store store' now id input r c retryable m u done (inr e) =
    elim (Option-cases (store.runtime.session input.session_id)) [
      | inl missing ↦ ground arith
      | inr (s, found) ↦ ground arith
    ]

-- A new message takes the session's next sequence number and the account's next update number,
-- moves both counters there, becomes the newest message, and leaves one notification, which names
-- the message, carries that update number, and is aimed at the session's lease exactly if the lease
-- was current.
pub new_message_writes :
    (store store' : Store) (now : ℕ) (id : String) (input : PersistSessionMessageInput)
    (m : Message) (u : Option ℕ) (s : Session) (n : ℕ)
    → store.runtime.session input.session_id ≡ some s
    → store.account_seq input.user_id ≡ some n
    → persist_session_message_in_tx store now id input ≡ some (store', success false m u)
    → (m.seq ≡ s.seq + 1)
      × (u ≡ some (n + 1))
      × (seq_of store'.runtime input.session_id ≡ some (s.seq + 1))
      × (store'.account_seq input.user_id ≡ some (n + 1))
      × (store'.messages ≡ m ∷ store.messages)
      × (store'.outbox
          ≡ record {
            account_id = input.user_id;
            session_id = input.session_id;
            message_id = m.id;
            update_seq = n + 1;
            origin_socket_id = input.origin_socket_id;
            target_runtime_connection_lease_id =
                if runtime_lease_current store.runtime now input.session_id s
                then s.lease_id
                else none;
            target_legacy_runtime_connection = target_legacy_runtime_connection now s;
          }
            ∷ store.outbox)
unfolding persist_session_message_in_tx
new_message_writes store store' now id input m u s n found counted done = (
  ground arith,
  ground arith,
  ground (arith, eq_refl input.session_id),
  ground (arith, eq_refl input.user_id),
  ground arith,
  ground arith,
)
