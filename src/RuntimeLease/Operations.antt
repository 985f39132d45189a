-- ===== src/RuntimeLease/Operations.antt =====
-- sources/app/presence/runtimeConnectionLease.ts: every statement but the two claims. Each is one
-- SQL statement, so one step on the tables; its result is whether a row was touched, or what it read.
use happy_server.Common.{
  ℕ, ◌+◌, String, Bool, true, false, not, ◌&&◌, ◌||◌, Option, none, some, List, ltb, nat_eq,
  if◌then◌else◌, is_null, sql_eq, sql_eq_column, sql_gt, ◌==◌,
}
use happy_server.RuntimeLease.{
  Session, Db, ended, is_retired, is_finally_retired, is_legacy_row, update_where, put_retirement,
  runtime_connection_lease_duration_ms, legacy_runtime_connection_grace_ms,
}

-- The exact process and socket generation that a socket packet names.
exact_generation : Db → String → String → String → Session → Bool
exact_generation db session_id session_instance_id lease_id s =
    s.active
    && sql_eq s.active_instance_id session_instance_id
    && sql_eq s.lease_instance_id session_instance_id
    && sql_eq s.lease_id lease_id
    && not (is_retired db session_id session_instance_id)

unfoldable pub expire_runtime_connection_lease :
    Db → ℕ → String → String → String → String → String → Db × Bool
unfolding exact_generation update_where
expire_runtime_connection_lease db now account_id session_id session_instance_id lease_id
      tombstone =
    update_where db session_id account_id
      (exact_generation db session_id session_instance_id lease_id)
      (λ s. record s {
        lease_id = some tombstone;
        lease_instance_id = some session_instance_id;
        lease_expires_at = some now;
        updated_at = now;
      })

unfoldable pub renew_runtime_connection_lease :
    Db → ℕ → String → String → String → String → Db × Bool
unfolding exact_generation update_where
renew_runtime_connection_lease db now account_id session_id session_instance_id lease_id =
    update_where db session_id account_id
      (exact_generation db session_id session_instance_id lease_id)
      (λ s. record s {
        lease_expires_at = some (now + runtime_connection_lease_duration_ms);
        last_active_at = now;
        updated_at = now;
      })

-- `runtimeConnectionOwnershipSql`: neither argument selects the legacy row, one alone selects
-- nothing; an empty instance is no instance.
unfoldable pub runtime_connection_ownership :
    Db → ℕ → String → Option String → Option String → Session → Bool
unfolding is_legacy_row
runtime_connection_ownership db now session_id none none s =
    s.active && is_null s.active_instance_id && is_legacy_row s
runtime_connection_ownership db now session_id none (some l) s = false
runtime_connection_ownership db now session_id (some i) none s = false
runtime_connection_ownership db now session_id (some i) (some l) s =
    if i == ""
    then s.active && is_null s.active_instance_id && is_legacy_row s
    else s.active
      && sql_eq s.active_instance_id i
      && sql_eq s.lease_instance_id i
      && sql_eq s.lease_id l
      && sql_gt s.lease_expires_at now
      && not (is_retired db session_id i)

-- `EXISTS (SELECT 1 FROM "Session" WHERE "id" = … AND "accountId" = … AND …)`.
unfoldable pub exists_session : Db → String → String → (Session → Bool) → Bool
exists_session db session_id account_id test = elim (db.session session_id) [
  | none ↦ false
  | some s ↦ s.account_id == account_id && test s
]

-- `isRuntimeConnectionOwner`, whose two queries are written out beside the shared fragment.
unfoldable pub is_runtime_connection_owner :
    Db → ℕ → String → String → Option String → Option String → Bool
unfolding exists_session is_legacy_row
is_runtime_connection_owner db now account_id session_id none (some l) = false
is_runtime_connection_owner db now account_id session_id (some i) none = false
is_runtime_connection_owner db now account_id session_id none none =
    exists_session db session_id account_id
      (λ s. s.active && is_null s.active_instance_id && is_legacy_row s)
is_runtime_connection_owner db now account_id session_id (some i) (some l) =
    exists_session db session_id account_id (λ s.
      if i == ""
      then s.active && is_null s.active_instance_id && is_legacy_row s
      else s.active
        && sql_eq s.active_instance_id i
        && sql_eq s.lease_instance_id i
        && sql_eq s.lease_id l
        && sql_gt s.lease_expires_at now
        && not (is_retired db session_id i))

pub data OwnerOperationResult : Type 0 where
  completed busy not_owner : OwnerOperationResult

-- `runWithRuntimeConnectionOwnerLock`: the advisory lock is another session's to give, so whether
-- it was acquired is an argument; `operation` is the state change of the side effect.
unfoldable pub run_with_runtime_connection_owner_lock {ℓ} :
    {S : Type ℓ}
    → Bool
    → Db
    → ℕ
    → String
    → String
    → Option String
    → Option String
    → (S → S)
    → S
    → OwnerOperationResult × S
unfolding exists_session runtime_connection_ownership
run_with_runtime_connection_owner_lock lock_acquired db now account_id session_id i l operation w =
    if not lock_acquired
    then (busy, w)
    else if not (
        exists_session db session_id account_id
          (runtime_connection_ownership db now session_id i l))
    then (not_owner, w)
    else (completed, operation w)

unfoldable pub update_runtime_session_metadata :
    Db → ℕ → String → String → Option String → Option String → ℕ → String → Db × Bool
unfolding update_where runtime_connection_ownership
update_runtime_session_metadata db now account_id session_id i l expected_version metadata =
    update_where db session_id account_id
      (λ s.
        nat_eq s.metadata_version expected_version
        && runtime_connection_ownership db now session_id i l s)
      (λ s. record s {
        metadata = metadata;
        metadata_version = expected_version + 1;
        updated_at = now;
      })

unfoldable pub update_runtime_session_state :
    Db → ℕ → String → String → Option String → Option String → ℕ → Option String → Db × Bool
unfolding update_where runtime_connection_ownership
update_runtime_session_state db now account_id session_id i l expected_version agent_state =
    update_where db session_id account_id
      (λ s.
        nat_eq s.agent_state_version expected_version
        && runtime_connection_ownership db now session_id i l s)
      (λ s. record s {
        agent_state = agent_state;
        agent_state_version = expected_version + 1;
        updated_at = now;
      })

unfoldable pub renew_legacy_runtime_connection : Db → ℕ → String → String → Db × Bool
unfolding update_where is_legacy_row
renew_legacy_runtime_connection db now account_id session_id =
    update_where db session_id account_id (λ s. is_null s.active_instance_id && is_legacy_row s)
      (λ s. record s { active = true; last_active_at = now; updated_at = now })

-- The statement part `ended`.
unfoldable pub end_row : Db → ℕ → String → String → String → String → Db × Bool
unfolding update_where is_finally_retired
end_row db now account_id session_id session_instance_id tombstone =
    update_where db session_id account_id
      (λ s.
        sql_eq s.active_instance_id session_instance_id
        && not (is_finally_retired db session_id session_instance_id))
      (λ s. record s {
        active = false;
        last_active_at = now;
        lease_id = some tombstone;
        lease_instance_id = some session_instance_id;
        lease_expires_at = some now;
        updated_at = now;
      })

-- The row is ended and the instance retired for good in one statement. The result is the new
-- `lastActiveAt`, or `none` where no row was ended.
unfoldable pub end_runtime_connection_lease :
    Db → ℕ → String → String → String → String → Db × Option ℕ
unfolding put_retirement
end_runtime_connection_lease db now account_id session_id session_instance_id tombstone =
    let (db', done) = end_row db now account_id session_id session_instance_id tombstone in
    if done
    then (
      put_retirement db' session_id session_instance_id
          (record { status = ended; retired_at = now }),
      some now,
    )
    else (db', none)

pub record RuntimeConnectionSessionRead : Type 0 where
  pub id : String
  pub agent_state_version : ℕ
  pub runtime_connected : Bool
  pub runtime_instance_id : Option String
  pub runtime_lease_instance_id : Option String
  pub runtime_lease_expires_at : Option ℕ
  pub runtime_instance_retired : Bool
  pub runtime_connection_checked_at : ℕ
  pub data_encryption_key : Option (List ℕ)

-- `EXISTS` of a retirement of the active instance; NULL is the key of no row.
unfoldable pub active_instance_retired : Db → String → Option String → Bool
unfolding is_retired
active_instance_retired db session_id none = false
active_instance_retired db session_id (some i) = is_retired db session_id i

-- The CASE expression of the query.
case_connected : Db → ℕ → String → Session → Bool
unfolding active_instance_retired
case_connected db now session_id s =
    if not s.active
      || is_null s.active_instance_id
      || active_instance_retired db session_id s.active_instance_id
    then false
    else if not (is_null s.lease_id)
        || not (is_null s.lease_instance_id)
        || not (is_null s.lease_expires_at)
    then not (is_null s.lease_id)
      && sql_eq_column s.lease_instance_id s.active_instance_id
      && sql_gt s.lease_expires_at now
    else ltb now (s.last_active_at + legacy_runtime_connection_grace_ms)

unfoldable pub find_runtime_connection_session :
    Db → ℕ → String → String → Option RuntimeConnectionSessionRead
unfolding case_connected
find_runtime_connection_session db now account_id session_id = elim (db.session session_id) [
  | none ↦ none
  | some s ↦
      if s.account_id == account_id
      then some (record {
        id = session_id;
        agent_state_version = s.agent_state_version;
        runtime_connected = case_connected db now session_id s;
        runtime_instance_id = s.active_instance_id;
        runtime_lease_instance_id = s.lease_instance_id;
        runtime_lease_expires_at = s.lease_expires_at;
        runtime_instance_retired = active_instance_retired db session_id s.active_instance_id;
        runtime_connection_checked_at = now;
        data_encryption_key = s.data_encryption_key;
      })
      else none
]
