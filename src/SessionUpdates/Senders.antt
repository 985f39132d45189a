-- ===== src/SessionUpdates/Senders.antt =====
-- The messages of a runtime whose incarnation was retired for good.
use happy_server.Common.{
  ℕ, String, Bool, true, false, Option, none, some, List, arith, ◌≡◌, refl, ◌∙◌, ◌==◌, eq_iff,
  Option-cases, Bool-cases, inl, inr,
}
use happy_server.RuntimeLease.{Db, is_finally_retired}
use happy_server.RuntimeLease.Steps.{Call, run}
use happy_server.EventRouter.{SessionScopedConnection, session_scoped}
use happy_server.SessionMessage.{
  Store, PersistSessionMessageInput, RuntimeMessageAuthorization, lease, replay,
}
use happy_server.SessionMessage.Persist.{persist_session_message_in_tx}
use happy_server.SessionMessage.Producers.{producer, retired_producer_writes_nothing}
use happy_server.SessionUpdates.Presence.{Given, parse_session_message_local_id}
use happy_server.SessionUpdates.Messages.{
  message_authorization, persist_message, receive_message, message_input,
}

module _ (db : Db) (cs : List (ℕ × Call)) (c : SessionScopedConnection) (i l : String)
    (retired : is_finally_retired db c.session_id i ≡ true) (named : (i == "") ≡ false)
    (leased : (l == "") ≡ false) (bound : c.session_instance_id ≡ some i)
    (bound_lease : c.runtime_connection_lease_id ≡ some l) where
  names_producer :
      (a : RuntimeMessageAuthorization) × (message_authorization (session_scoped c) ≡ some a)
      × (producer a ≡ some i)
  unfolding message_authorization
  names_producer = elim (Bool-cases c.replay_only) [
    | inl only ↦ (replay (some i) (some l), ground arith, refl)
    | inr live ↦ (lease i l, ground arith, refl)
  ]

  unpersisted :
      (store : Store) (now : ℕ) (id : String) (input : PersistSessionMessageInput)
      → store.runtime ≡ run db cs
      → input.session_id ≡ c.session_id
      → input.runtime_authorization ≡ message_authorization (session_scoped c)
      → (persist_message store now id (session_scoped c) input).0 ≡ store
  unfolding persist_message
  unpersisted store now id input later here authorized =
      let (a, of_a, by_i) = names_producer in
      let untouched =
        retired_producer_writes_nothing store db cs now id i input a later (rw here retired)
          (authorized ∙ of_a) by_i in
      elim (Option-cases (persist_session_message_in_tx store now id input)) [
        | inl failed ↦ ground arith
        | inr (r, returned) ↦ ground arith
      ]

  -- Through a connection, live or replay, that names a lease and an incarnation that was retired for
  -- good (neither of them the empty text), after any run of lease calls and for any session that the
  -- packet names: `message` changes no table.
  pub retired_runtime_sends_nothing :
      (is_uuid : String → Bool) (byte_length : String → ℕ) (store : Store) (now : ℕ)
      (id user_id socket_id sid : String) (message : Option String) (local_id : Given)
      → store.runtime ≡ run db cs
      → (receive_message is_uuid byte_length store now id
          (session_scoped c)
          user_id
          socket_id
          sid
          message
          local_id).0
        ≡ store
  unfolding receive_message
  retired_runtime_sends_nothing is_uuid byte_length store now id user_id socket_id sid none local_id
        later =
      ground arith
  retired_runtime_sends_nothing is_uuid byte_length store now id user_id socket_id sid (some t)
        local_id later =
      elim (Option-cases (parse_session_message_local_id is_uuid local_id)) [
        | inl bad ↦ ground arith
        | inr (j, parsed) ↦ elim (Bool-cases (sid == c.session_id)) [
          | inr other ↦ ground arith
          | inl same ↦ ground (
            arith,
            unpersisted store now id (message_input (session_scoped c) user_id socket_id sid t j)
                later ((eq_iff sid c.session_id).0 same) refl,
          )
        ]
      ]
