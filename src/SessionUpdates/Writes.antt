-- ===== src/SessionUpdates/Writes.antt =====
-- The handlers of `update-metadata` and `update-state`, which differ in the columns that they write
-- and in their answer where there is no session. The session is read, then written, then read again
-- where the write found no row, each time on the tables as they then are.
use happy_server.Common.{ℕ, ◌+◌, String, Bool, not, Option, none, some, ◌==◌, nat_eq, if◌then◌else◌}
use happy_server.RuntimeLease.{Session, Db, update_where}
use happy_server.RuntimeLease.Operations.{
  update_runtime_session_metadata, update_runtime_session_state,
}
use happy_server.EventRouter.{
  ClientConnection, session_scoped, user_scoped, machine_scoped, all_interested_in_session,
}
use happy_server.EventRouter.Events.{Versioned, UpdatePayload, build_update_session_update}
use happy_server.Publishing.{Outbound, publish}
use happy_server.SessionUpdates.{
  Authorization, reject_runtime_connection, runtime_write_authorization,
  still_owns_runtime_connection,
}

-- The argument of the callback; `silent` where it is not called.
pub data WriteAnswer (A : Type 0) : Type 0 where
  failed : WriteAnswer A
  silent : WriteAnswer A
  version_mismatch : ℕ → A → WriteAnswer A
  written : ℕ → A → WriteAnswer A

-- The column that a handler writes. `or_else` is `??` on two contents.
pub record SessionField (A : Type 0) : Type 0 where
  pub version_of : Session → ℕ
  pub content_of : Session → A
  pub or_else : A → A → A
  pub runtime_write : Db → ℕ → String → String → Option String → Option String → ℕ → A → Db × Bool
  pub assign : ℕ → A → Session → Session
  pub announce : ℕ → String → ℕ → String → Versioned A → UpdatePayload
  pub on_missing : WriteAnswer A

-- The three tables at the moments of the handler's calls, with the clock of each write.
pub record Moments : Type 0 where
  pub when_read : Db
  pub when_written : Db
  pub when_read_again : Db
  pub now : ℕ
  pub update_id : String

abbrev pub WriteOutcome : Type 0 → Type 0
WriteOutcome A = Db × Outbound × ClientConnection × WriteAnswer A

abbrev pub find_session : Db → String → String → Option Session
find_session db user_id session_id = elim (db.session session_id) [
  | none ↦ none
  | some s ↦ if s.account_id == user_id then some s else none
]

module _ {A : Type 0} (field : SessionField A) where
  -- The guarded write of a runtime, or the plain one of any other connection, where the database
  -- client sets the update time.
  unfoldable pub write_field :
      Db → ℕ → ClientConnection → String → String → Authorization → ℕ → A → Db × Bool
  write_field db now (session_scoped c) user_id sid (i, l) expected content =
      field.runtime_write db now user_id sid i l expected content
  write_field db now (user_scoped c) user_id sid authorization expected content =
      update_where db sid user_id (λ s. nat_eq (field.version_of s) expected)
        (λ s. record (field.assign expected content s) { updated_at = now })
  write_field db now (machine_scoped c) user_id sid authorization expected content =
      update_where db sid user_id (λ s. nat_eq (field.version_of s) expected)
        (λ s. record (field.assign expected content s) { updated_at = now })

  abbrev mismatch_with : Session → WriteAnswer A
  mismatch_with s = version_mismatch (field.version_of s) (field.content_of s)

  abbrev current_or : Option Session → Session → WriteAnswer A
  current_or none s = mismatch_with s
  current_or (some current) s =
      version_mismatch (field.version_of current)
        (field.or_else (field.content_of current) (field.content_of s))

  -- The write found no row: a runtime that owns the session no longer is rejected.
  unfoldable pub lost_write :
      Moments → ClientConnection → String → String → Session → ClientConnection × WriteAnswer A
  unfolding still_owns_runtime_connection reject_runtime_connection
  lost_write m (session_scoped c) user_id sid s =
      if still_owns_runtime_connection m.when_read_again m.now user_id (session_scoped c) sid
      then (session_scoped c, current_or (find_session m.when_read_again user_id sid) s)
      else (reject_runtime_connection (session_scoped c), failed)
  lost_write m (user_scoped c) user_id sid s = (user_scoped c, mismatch_with s)
  lost_write m (machine_scoped c) user_id sid s = (machine_scoped c, mismatch_with s)

  -- The update is numbered and emitted; a missing account makes the handler answer an error.
  unfoldable pub announce_write :
      Moments → Outbound → String → String → ℕ → A → Outbound × WriteAnswer A
  unfolding publish
  announce_write m out user_id sid expected content =
      elim (publish out user_id
        (λ n.
          field.announce m.now sid n m.update_id
            (record { value = content; version = expected + 1 }))
        (all_interested_in_session sid)) [
          | none ↦ (out, failed)
          | some out' ↦ (out', written (expected + 1) content)
        ]

  -- The handler from its write on.
  unfoldable pub commit_write :
      Moments
      → Outbound
      → ClientConnection
      → String
      → String
      → Authorization
      → ℕ
      → A
      → Session
      → WriteOutcome A
  unfolding write_field lost_write announce_write
  commit_write m out c user_id sid authorization expected content s =
      let (db', done) =
        write_field m.when_written m.now c user_id sid authorization expected content in
      if done
      then (let (out', answer) = announce_write m out user_id sid expected content in
          (db', out', c, answer))
      else (let (c', answer) = lost_write m c user_id sid s in (db', out, c', answer))

  -- The handler on a packet whose fields have their types.
  unfoldable pub session_write :
      Moments → Outbound → ClientConnection → String → String → ℕ → A → WriteOutcome A
  unfolding runtime_write_authorization commit_write reject_runtime_connection
  session_write m out c user_id sid expected content = elim (runtime_write_authorization c sid) [
    | none ↦ (m.when_written, out, reject_runtime_connection c, failed)
    | some authorization ↦ elim (find_session m.when_read user_id sid) [
      | none ↦ (m.when_written, out, c, field.on_missing)
      | some s ↦
          if not (nat_eq (field.version_of s) expected)
          then (m.when_written, out, c, mismatch_with s)
          else commit_write m out c user_id sid authorization expected content s
    ]
  ]

abbrev pub metadata_field : SessionField String
metadata_field = record {
  version_of = λ s. s.metadata_version;
  content_of = λ s. s.metadata;
  or_else = λ current fallback. current;
  runtime_write = update_runtime_session_metadata;
  assign = λ expected content s. record s { metadata = content; metadata_version = expected + 1 };
  announce = λ now sid n update_id v. build_update_session_update now sid n update_id (some v) none;
  on_missing = silent;
}

abbrev state_or_else : Option String → Option String → Option String
state_or_else none fallback = fallback
state_or_else (some current) fallback = some current

abbrev pub state_field : SessionField (Option String)
state_field = record {
  version_of = λ s. s.agent_state_version;
  content_of = λ s. s.agent_state;
  or_else = state_or_else;
  runtime_write = update_runtime_session_state;
  assign =
      λ expected content s. record s { agent_state = content; agent_state_version = expected + 1 };
  announce = λ now sid n update_id v. build_update_session_update now sid n update_id none (some v);
  on_missing = failed;
}

-- `update-metadata`: a field that has not its type is `none`.
unfoldable pub update_metadata :
    Moments
    → Outbound
    → ClientConnection
    → String
    → String
    → Option String
    → Option ℕ
    → WriteOutcome String
unfolding session_write
update_metadata m out c user_id sid metadata expected =
    if sid == "" then (m.when_written, out, c, failed) else elim metadata [
      | none ↦ (m.when_written, out, c, failed)
      | some content ↦ elim expected [
        | none ↦ (m.when_written, out, c, failed)
        | some v ↦ session_write metadata_field m out c user_id sid v content
      ]
    ]

-- `update-state`, whose content may be null.
unfoldable pub update_state :
    Moments
    → Outbound
    → ClientConnection
    → String
    → String
    → Option (Option String)
    → Option ℕ
    → WriteOutcome (Option String)
unfolding session_write
update_state m out c user_id sid agent_state expected =
    if sid == "" then (m.when_written, out, c, failed) else elim agent_state [
      | none ↦ (m.when_written, out, c, failed)
      | some content ↦ elim expected [
        | none ↦ (m.when_written, out, c, failed)
        | some v ↦ session_write state_field m out c user_id sid v content
      ]
    ]
