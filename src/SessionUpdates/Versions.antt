-- ===== src/SessionUpdates/Versions.antt =====
-- The writes of a session's metadata and agent state: each compares the version and raises it.
use happy_server.Common.{
  ℕ, ◌+◌, String, Bool, true, false, Option, none, some, arith, ◌≡◌, refl, eq_refl, nat_eq,
  Option-cases, inl, inr,
}
use happy_server.RuntimeLease.{Session, Db, update_where, put_session}
use happy_server.RuntimeLease.Operations.{
  update_runtime_session_metadata, update_runtime_session_state,
}
use happy_server.EventRouter.{ClientConnection, session_scoped, user_scoped, machine_scoped}
use happy_server.SessionUpdates.{Authorization}
use happy_server.SessionUpdates.Writes.{SessionField, write_field, metadata_field, state_field}

-- The stored version of the column.
abbrev pub version_at : {A : Type 0} → SessionField A → Db → String → Option ℕ
version_at field db sid = elim (db.session sid) [ none ↦ none | some s ↦ some (field.version_of s) ]

-- A write that found its row left the next version.
abbrev pub Bumps : {A : Type 0} → SessionField A → Type 0
Bumps {A} field =
    (db : Db) (now : ℕ) (c : ClientConnection) (user sid : String) (a : Authorization) (v : ℕ)
    (content : A)
    → (write_field field db now c user sid a v content).1 ≡ true
    → version_at field (write_field field db now c user sid a v content).0 sid ≡ some (v + 1)

-- A write that expects another version than the stored one finds no row.
abbrev pub Compares : {A : Type 0} → SessionField A → Type 0
Compares {A} field =
    (db : Db) (now : ℕ) (c : ClientConnection) (user sid : String) (a : Authorization) (v w : ℕ)
    (content : A)
    → version_at field db sid ≡ some w
    → nat_eq w v ≡ false
    → write_field field db now c user sid a v content ≡ (db, false)

module _ {A : Type 0} (field : SessionField A) (db : Db) (user sid : String) (v : ℕ)
    (test : Session → Bool) (assign : Session → Session) where
  version_at-update_where :
      ((s : Session) → field.version_of (assign s) ≡ v + 1)
      → (update_where db sid user test assign).1 ≡ true
      → version_at field (update_where db sid user test assign).0 sid ≡ some (v + 1)
  unfolding update_where put_session
  version_at-update_where bumped done = elim (Option-cases (db.session sid)) [
    | inl missing ↦ ground arith
    | inr (s, found) ↦ ground (arith, eq_refl sid, bumped s)
  ]

  update_where-stale :
      (w : ℕ)
      → ((s : Session) → test s ≡ true → field.version_of s ≡ v)
      → version_at field db sid ≡ some w
      → nat_eq w v ≡ false
      → update_where db sid user test assign ≡ (db, false)
  unfolding update_where
  update_where-stale w tested stored other = elim (Option-cases (db.session sid)) [
    | inl missing ↦ ground arith
    | inr (s, found) ↦ ground (arith, tested s)
  ]

pub metadata-Bumps : Bumps metadata_field
unfolding write_field update_runtime_session_metadata
metadata-Bumps db now (session_scoped c) user sid (i, l) v content done =
    version_at-update_where metadata_field db user sid v _ _ (λ s. refl) done
metadata-Bumps db now (user_scoped c) user sid a v content done =
    version_at-update_where metadata_field db user sid v _ _ (λ s. refl) done
metadata-Bumps db now (machine_scoped c) user sid a v content done =
    version_at-update_where metadata_field db user sid v _ _ (λ s. refl) done

pub metadata-Compares : Compares metadata_field
unfolding write_field update_runtime_session_metadata
metadata-Compares db now (session_scoped c) user sid (i, l) v w content stored other =
    update_where-stale metadata_field db user sid v _ _ w (λ s h. ground arith) stored other
metadata-Compares db now (user_scoped c) user sid a v w content stored other =
    update_where-stale metadata_field db user sid v _ _ w (λ s h. ground arith) stored other
metadata-Compares db now (machine_scoped c) user sid a v w content stored other =
    update_where-stale metadata_field db user sid v _ _ w (λ s h. ground arith) stored other

pub state-Bumps : Bumps state_field
unfolding write_field update_runtime_session_state
state-Bumps db now (session_scoped c) user sid (i, l) v content done =
    version_at-update_where state_field db user sid v _ _ (λ s. refl) done
state-Bumps db now (user_scoped c) user sid a v content done =
    version_at-update_where state_field db user sid v _ _ (λ s. refl) done
state-Bumps db now (machine_scoped c) user sid a v content done =
    version_at-update_where state_field db user sid v _ _ (λ s. refl) done

pub state-Compares : Compares state_field
unfolding write_field update_runtime_session_state
state-Compares db now (session_scoped c) user sid (i, l) v w content stored other =
    update_where-stale state_field db user sid v _ _ w (λ s h. ground arith) stored other
state-Compares db now (user_scoped c) user sid a v w content stored other =
    update_where-stale state_field db user sid v _ _ w (λ s h. ground arith) stored other
state-Compares db now (machine_scoped c) user sid a v w content stored other =
    update_where-stale state_field db user sid v _ _ w (λ s h. ground arith) stored other
