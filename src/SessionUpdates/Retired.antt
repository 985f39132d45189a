-- ===== src/SessionUpdates/Retired.antt =====
-- What a runtime whose incarnation was retired for good can still do through its socket, and what a
-- runtime can do to other sessions: nothing.
use happy_server.Common.{
  ℕ, min, String, Bool, true, false, Option, none, some, List, arith, ◌≡◌, refl, ap, ◌==◌, eq_iff,
  Option-cases, Bool-cases, inl, inr, truthy,
}
use happy_server.RuntimeLease.{Db, is_finally_retired}
use happy_server.RuntimeLease.Operations.{is_runtime_connection_owner}
use happy_server.RuntimeLease.Steps.{Call, run}
use happy_server.RuntimeLease.Fencing.{run-fenced}
use happy_server.EventRouter.{SessionScopedConnection, session_scoped}
use happy_server.Publishing.{Outbound}
use happy_server.SessionUpdates.Presence.{
  Given, session_alive, session_end, end_session, EndRequest, session_end_checked,
  parse_session_message_local_id,
}
use happy_server.SessionUpdates.Writes.{
  SessionField, Moments, session_write, find_session, metadata_field, state_field, update_metadata,
  update_state,
}
use happy_server.SessionUpdates.Fence.{
  is_written, metadata_refused, state_refused, Unwritten, refused_write, other_session,
}

-- A live connection whose incarnation was retired for good, at any later tables.
module _ (db : Db) (cs : List (ℕ × Call)) (c : SessionScopedConnection) (i : String)
    (retired : is_finally_retired db c.session_id i ≡ true) (named : (i == "") ≡ false)
    (bound : c.session_instance_id ≡ some i) where
  retired_owner :
      (now : ℕ) (account : String) (l : Option String)
      → is_runtime_connection_owner (run db cs) now account c.session_id (some i) l ≡ false
  retired_owner now account l =
      (run-fenced db cs c.session_id i retired named now account l "" "" "" true).0

  retired_write :
      {A : Type 0} (field : SessionField A)
      → is_written field.on_missing ≡ false
      → ((now : ℕ) (account : String) (l : Option String)
          → is_runtime_connection_owner (run db cs) now account c.session_id (some i) l ≡ false
          → (version : ℕ) (content : A)
          → field.runtime_write (run db cs) now account c.session_id (some i) l version content
            ≡ (run db cs, false))
      → (m : Moments) (out : Outbound) (user sid : String) (version : ℕ) (content : A)
      → m.when_written ≡ run db cs
      → Unwritten field m out c user sid version content
          (session_write field m out (session_scoped c) user sid version content)
  retired_write field quiet guarded m out user sid version content later =
      elim (Bool-cases (c.session_id == sid)) [
        | inl same ↦
            refused_write field m out c user sid version content i quiet (ground arith) (λ l.
              ground (
                arith,
                guarded m.now user l (retired_owner m.now user l) version content,
                eq_iff c.session_id sid,
              ))
        | inr other ↦ other_session field m out c user sid version content other
      ]

  retired_update_metadata :
      (m : Moments) (out : Outbound) (user sid : String) (metadata : Option String)
      (expected : Option ℕ)
      → m.when_written ≡ run db cs
      → let (db', out', c', answer) =
          update_metadata m out (session_scoped c) user sid metadata expected in
        (db' ≡ run db cs) × (out' ≡ out) × (is_written answer ≡ false)
  unfolding update_metadata
  retired_update_metadata m out user sid none expected later =
      (ground arith, ground arith, ground arith)
  retired_update_metadata m out user sid (some content) none later =
      (ground arith, ground arith, ground arith)
  retired_update_metadata m out user sid (some content) (some v) later =
      let refused =
        retired_write metadata_field refl
          (λ now account l fenced version text.
            metadata_refused (run db cs) now account c.session_id (some i) l fenced version text)
          m out user sid v content later in
      (ground (arith, refused.0), ground (arith, refused.1), ground (arith, refused.2))

  retired_update_state :
      (m : Moments) (out : Outbound) (user sid : String) (agent_state : Option (Option String))
      (expected : Option ℕ)
      → m.when_written ≡ run db cs
      → let (db', out', c', answer) =
          update_state m out (session_scoped c) user sid agent_state expected in
        (db' ≡ run db cs) × (out' ≡ out) × (is_written answer ≡ false)
  unfolding update_state
  retired_update_state m out user sid none expected later =
      (ground arith, ground arith, ground arith)
  retired_update_state m out user sid (some content) none later =
      (ground arith, ground arith, ground arith)
  retired_update_state m out user sid (some content) (some v) later =
      let refused =
        retired_write state_field refl
          (λ now account l fenced version state.
            state_refused (run db cs) now account c.session_id (some i) l fenced version state)
          m out user sid v content later in
      (ground (arith, refused.0), ground (arith, refused.1), ground (arith, refused.2))

  retired_alive :
      (user sid : String) (now received_at : ℕ) (has_time thinking : Bool)
      → let (db', c', news) =
          session_alive (run db cs) now received_at user c sid has_time thinking in
        (db' ≡ run db cs) × (news ≡ none)
  unfolding session_alive
  retired_alive user sid now received_at has_time thinking =
      elim (Option-cases (truthy c.runtime_connection_lease_id)) [
        | inl missing ↦ (ground arith, ground arith)
        | inr (l, leased) ↦
            let refused =
              (run-fenced db cs c.session_id i retired named now user none l "" "" true).1 in
            (ground (arith, refused), ground (arith, refused))
      ]

  retired_end_session :
      (now : ℕ) (tombstone : String) (r : EndRequest)
      → r.sid ≡ c.session_id
      → r.instance ≡ some i
      → let (db', news, ack) = end_session (run db cs) now tombstone r in
        (db' ≡ run db cs) × (news ≡ none)
  unfolding end_session
  retired_end_session now tombstone r same of_i =
      let refused =
        (run-fenced db cs c.session_id i retired named now r.user_id none "" "" tombstone true).2 in
      (ground (arith, refused), ground (arith, refused))

  retired_end_checked :
      (read : Db) (user sid : String) (now clock time : ℕ) (tombstone : String)
      (local_id requested : Option String)
      → c.replay_only ≡ false
      → sid ≡ c.session_id
      → let (db', news, ack) =
          session_end_checked read
            (run db cs)
            now
            clock
            tombstone
            c
            user
            sid
            time
            local_id
            requested in
        (db' ≡ run db cs) × (news ≡ none)
  unfolding session_end_checked
  retired_end_checked read user sid now clock time tombstone local_id none live same =
      (ground arith, ground arith)
  retired_end_checked read user sid now clock time tombstone local_id (some j) live same =
      let request : EndRequest = record {
        user_id = user;
        sid = sid;
        local_id = local_id;
        instance = some j;
        t = min time clock;
        clock = clock;
      } in
      elim (Bool-cases (j == i)) [
        | inr other ↦ (ground arith, ground arith)
        | inl own ↦ elim (Option-cases (find_session read user sid)) [
          | inl missing ↦ (ground arith, ground arith)
          | inr (s, found) ↦
              let refused =
                retired_end_session now tombstone request same
                  (ap (λ (x : String). some x) ((eq_iff j i).0 own)) in
              (ground (arith, refused.0), ground (arith, refused.1))
        ]
      ]

  retired_end :
      (is_uuid : String → Bool) (read : Db) (user sid : String) (now clock : ℕ) (tombstone : String)
      (time : Option ℕ) (local_id instance : Given)
      → c.replay_only ≡ false
      → let (db', news, ack) =
          session_end is_uuid read
            (run db cs)
            now
            clock
            tombstone
            (session_scoped c)
            user
            sid
            time
            local_id
            instance in
        (db' ≡ run db cs) × (news ≡ none)
  unfolding session_end
  retired_end is_uuid read user sid now clock tombstone none local_id instance live =
      (ground arith, ground arith)
  retired_end is_uuid read user sid now clock tombstone (some t) local_id instance live =
      elim (Option-cases (parse_session_message_local_id is_uuid local_id)) [
        | inl bad ↦ (ground arith, ground arith)
        | inr (l, parsed) ↦ elim (Option-cases (parse_session_message_local_id is_uuid instance)) [
          | inl bad' ↦ (ground arith, ground arith)
          | inr (j, parsed') ↦ elim (Bool-cases (sid == c.session_id)) [
            | inr other ↦ (ground arith, ground arith)
            | inl same ↦
                let refused =
                  retired_end_checked read user sid now clock t tombstone l j live
                    ((eq_iff sid c.session_id).0 same) in
                (ground (arith, refused.0), ground (arith, refused.1))
          ]
        ]
      ]

  -- Through a live connection whose incarnation was retired for good (an instance that is not the
  -- empty text), after any run of lease calls and for any session that the packets name:
  -- `update-metadata` and `update-state` change no table, emit nothing and answer no success,
  -- `session-alive` renews and publishes nothing, and `session-end` ends and publishes nothing.
  pub retired_runtime_writes_nothing :
      (m : Moments) (out : Outbound) (user sid : String)
      → m.when_written ≡ run db cs
      → c.replay_only ≡ false
      → ((metadata : Option String) (expected : Option ℕ)
          → let (db', out', c', answer) =
              update_metadata m out (session_scoped c) user sid metadata expected in
            (db' ≡ run db cs) × (out' ≡ out) × (is_written answer ≡ false))
        × ((agent_state : Option (Option String)) (expected : Option ℕ)
            → let (db', out', c', answer) =
                update_state m out (session_scoped c) user sid agent_state expected in
              (db' ≡ run db cs) × (out' ≡ out) × (is_written answer ≡ false))
        × ((now received_at : ℕ) (has_time thinking : Bool)
            → let (db', c', news) =
                session_alive (run db cs) now received_at user c sid has_time thinking in
              (db' ≡ run db cs) × (news ≡ none))
        × ((is_uuid : String → Bool) (read : Db) (now clock : ℕ) (tombstone : String)
              (time : Option ℕ) (local_id instance : Given)
            → let (db', news, ack) =
                session_end is_uuid read
                  (run db cs)
                  now
                  clock
                  tombstone
                  (session_scoped c)
                  user
                  sid
                  time
                  local_id
                  instance in
              (db' ≡ run db cs) × (news ≡ none))
  retired_runtime_writes_nothing m out user sid later live = (
    λ metadata expected. retired_update_metadata m out user sid metadata expected later,
    λ agent_state expected. retired_update_state m out user sid agent_state expected later,
    λ now received_at has_time thinking. retired_alive user sid now received_at has_time thinking,
    λ is_uuid read now clock tombstone time local_id instance.
        retired_end is_uuid read user sid now clock tombstone time local_id instance live,
  )
