-- ===== src/RuntimeLease/Writes.antt =====
-- The compare-and-set writes of a session's metadata and agent state.
use happy_server.Common.{
  ℕ, String, true, false, ◌&&◌, Option, none, some, arith, ◌≡◌, eq_refl, if◌then◌else◌,
  Option-cases, inl, inr, nat_eq, ◌+◌,
}
use happy_server.RuntimeLease.{Session, Db, put_session}
use happy_server.RuntimeLease.Operations.{
  is_runtime_connection_owner, update_runtime_session_metadata, update_runtime_session_state,
}

-- A metadata write succeeds exactly for an owner that expects the stored version; it then stores the
-- text under the next version and touches no other column but the update time, and otherwise
-- changes nothing.
pub metadata_write :
    (db : Db) (now : ℕ) (account k : String) (i l : Option String) (version : ℕ) (metadata : String)
    (s : Session)
    → db.session k ≡ some s
    → update_runtime_session_metadata db now account k i l version metadata ≡ (
        if nat_eq s.metadata_version version && is_runtime_connection_owner db now account k i l
        then (
          put_session db k (record s {
            metadata = metadata;
            metadata_version = s.metadata_version + 1;
            updated_at = now;
          }),
          true,
        )
        else (db, false))
unfolding update_runtime_session_metadata is_runtime_connection_owner
metadata_write db now account k none none version metadata s found = ground arith
metadata_write db now account k none (some l) version metadata s found = ground arith
metadata_write db now account k (some i) none version metadata s found = ground arith
metadata_write db now account k (some i) (some l) version metadata s found = ground arith

-- The same of an agent-state write.
pub state_write :
    (db : Db) (now : ℕ) (account k : String) (i l : Option String) (version : ℕ)
    (agent_state : Option String) (s : Session)
    → db.session k ≡ some s
    → update_runtime_session_state db now account k i l version agent_state ≡ (
        if nat_eq s.agent_state_version version && is_runtime_connection_owner db now account k i l
        then (
          put_session db k (record s {
            agent_state = agent_state;
            agent_state_version = s.agent_state_version + 1;
            updated_at = now;
          }),
          true,
        )
        else (db, false))
unfolding update_runtime_session_state is_runtime_connection_owner
state_write db now account k none none version agent_state s found = ground arith
state_write db now account k none (some l) version agent_state s found = ground arith
state_write db now account k (some i) none version agent_state s found = ground arith
state_write db now account k (some i) (some l) version agent_state s found = ground arith

module _ (db : Db) (now later : ℕ) (account k : String) (i l j m : Option String)
    (version : ℕ) where
  -- Of two metadata writes that expect the same version, by any owners, the second fails.
  pub one_metadata_writer :
      (first second : String)
      → (update_runtime_session_metadata db now account k i l version first).1 ≡ true
      → (update_runtime_session_metadata
          (update_runtime_session_metadata db now account k i l version first).0
          later
          account
          k
          j
          m
          version
          second).1
        ≡ false
  unfolding update_runtime_session_metadata put_session
  one_metadata_writer first second done = elim (Option-cases (db.session k)) [
    | inl missing ↦ ground arith
    | inr (s, found) ↦ ground (arith, eq_refl k)
  ]
