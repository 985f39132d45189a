-- ===== src/SessionUpdates/Fence.antt =====
-- `update-metadata` and `update-state` of a runtime whose guarded write finds no row, or that names
-- another session.
use happy_server.Common.{
  ℕ, String, Bool, true, false, Option, some, arith, ◌≡◌, ◌==◌, Option-cases, inl, inr, truthy,
}
use happy_server.RuntimeLease.{Session, Db}
use happy_server.RuntimeLease.Operations.{
  is_runtime_connection_owner, update_runtime_session_metadata, update_runtime_session_state,
}
use happy_server.RuntimeLease.Writes.{metadata_write, state_write}
use happy_server.EventRouter.{SessionScopedConnection, session_scoped}
use happy_server.Publishing.{Outbound}
use happy_server.SessionUpdates.{Authorization, session_write_authorization}
use happy_server.SessionUpdates.Writes.{
  SessionField, Moments, WriteAnswer, failed, silent, version_mismatch, written, session_write,
  WriteOutcome, commit_write, lost_write, find_session,
}

-- The answer says that the column was written.
abbrev pub is_written : {A : Type 0} → WriteAnswer A → Bool
is_written failed = false
is_written silent = false
is_written (version_mismatch v a) = false
is_written (written v a) = true

module _ (db : Db) (now : ℕ) (account k : String) (i l : Option String)
    (fenced : is_runtime_connection_owner db now account k i l ≡ false) (version : ℕ) where
  pub metadata_refused :
      (metadata : String)
      → update_runtime_session_metadata db now account k i l version metadata ≡ (db, false)
  unfolding update_runtime_session_metadata
  metadata_refused metadata = elim (Option-cases (db.session k)) [
    | inl missing ↦ ground arith
    | inr (s, found) ↦ ground (arith, metadata_write db now account k i l version metadata s found)
  ]

  pub state_refused :
      (agent_state : Option String)
      → update_runtime_session_state db now account k i l version agent_state ≡ (db, false)
  unfolding update_runtime_session_state
  state_refused agent_state = elim (Option-cases (db.session k)) [
    | inl missing ↦ ground arith
    | inr (s, found) ↦ ground (arith, state_write db now account k i l version agent_state s found)
  ]

module _ {A : Type 0} (field : SessionField A) (m : Moments) (out : Outbound)
    (c : SessionScopedConnection) (user sid : String) (version : ℕ) (content : A) where
  -- Neither the tables nor what was emitted changed, and the answer is not that of a write.
  abbrev pub Unwritten : WriteOutcome A → Type 0
  Unwritten o = (o.0 ≡ m.when_written) × (o.1 ≡ out) × (is_written o.3 ≡ false)

  lost_not_written :
      (s : Session) → is_written (lost_write field m (session_scoped c) user sid s).1 ≡ false
  unfolding lost_write
  lost_not_written s = elim (Option-cases (find_session m.when_read_again user sid)) [
    | inl missing ↦ ground arith
    | inr (current, found) ↦ ground arith
  ]

  commit_refused :
      (i l : Option String) (s : Session)
      → field.runtime_write m.when_written m.now user sid i l version content
        ≡ (m.when_written, false)
      → Unwritten (commit_write field m out (session_scoped c) user sid (i, l) version content s)
  unfolding commit_write
  commit_refused i l s fenced =
      (ground (arith, fenced), ground (arith, fenced), ground (arith, fenced, lost_not_written s))

  authorization_names :
      (i : String) (a : Authorization)
      → truthy c.session_instance_id ≡ some i
      → session_write_authorization c sid ≡ some a
      → a.0 ≡ some i
  unfolding session_write_authorization
  authorization_names i a named authorized =
      elim (Option-cases (truthy c.runtime_connection_lease_id)) [
        | inl missing ↦ ground arith
        | inr (l, leased) ↦ ground arith
      ]

  pub refused_write :
      (i : String)
      → is_written field.on_missing ≡ false
      → truthy c.session_instance_id ≡ some i
      → ((l : Option String)
          → field.runtime_write m.when_written m.now user sid (some i) l version content
            ≡ (m.when_written, false))
      → Unwritten (session_write field m out (session_scoped c) user sid version content)
  unfolding session_write
  refused_write i silent_missing named fenced =
      elim (Option-cases (session_write_authorization c sid)) [
        | inl unauthorized ↦ (ground arith, ground arith, ground arith)
        | inr (a, authorized) ↦ elim (Option-cases (find_session m.when_read user sid)) [
          | inl missing ↦ (ground arith, ground arith, ground arith)
          | inr (s, found) ↦
              let refused =
                commit_refused a.0 a.1 s
                  (rw (authorization_names i a named authorized) (fenced a.1)) in
              (ground (arith, refused.0), ground (arith, refused.1), ground (arith, refused.2))
        ]
      ]

  -- A session that is not the connection's.
  pub other_session :
      (c.session_id == sid) ≡ false
      → Unwritten (session_write field m out (session_scoped c) user sid version content)
  unfolding session_write
  other_session other = (ground arith, ground arith, ground arith)
