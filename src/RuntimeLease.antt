-- ===== src/RuntimeLease.antt =====
-- sources/app/presence/runtimeConnectionLease.ts: the two tables that the SQL statements of the
-- module read and write, the predicates of their WHERE clauses, and `isRuntimeConnected`. Instants
-- are milliseconds; the database clock `CURRENT_TIMESTAMP` is the argument `now`.
pub mod Claims
pub mod Operations
pub mod Steps
pub mod Tables
pub mod WellFormed
pub mod Retirements
pub mod Fencing
pub mod Ownership
pub mod Reads
pub mod Writes
pub mod Counters
mod Examples
use happy_server.Common.{
  ℕ, ◌+◌, ◌*◌, String, Bool, true, false, not, ◌&&◌, ◌||◌, Option, none, some, List, ltb,
  if◌then◌else◌, is_null, sql_eq_column, sql_gt, update, ◌==◌,
}

abbrev pub runtime_connection_lease_duration_ms : ℕ
runtime_connection_lease_duration_ms = 4 * 60000

abbrev pub legacy_runtime_connection_grace_ms : ℕ
legacy_runtime_connection_grace_ms = runtime_connection_lease_duration_ms

-- The model `Session` of prisma/schema.prisma, less its tag and creation date.
pub record Session : Type 0 where
  pub account_id : String
  pub metadata : String
  pub metadata_version : ℕ
  pub agent_state : Option String
  pub agent_state_version : ℕ
  pub data_encryption_key : Option (List ℕ)
  pub seq : ℕ
  pub active : Bool
  pub active_instance_id : Option String
  pub lease_id : Option String
  pub lease_instance_id : Option String
  pub lease_expires_at : Option ℕ
  pub last_active_at : ℕ
  pub updated_at : ℕ

-- The texts that the column `status` takes.
pub data RetirementStatus : Type 0 where
  replaying superseded ended : RetirementStatus

-- The model `SessionRuntimeInstanceRetirement`, whose key is the session and the instance.
pub record Retirement : Type 0 where
  pub status : RetirementStatus
  pub retired_at : ℕ

pub record Db : Type 0 where
  pub session : String → Option Session
  pub retirement : String → String → Option Retirement

-- One row of a table is written.
unfoldable pub put_session : Db → String → Session → Db
put_session db session_id s = record db { session = update db.session session_id (some s) }

pub put_retirement : Db → String → String → Retirement → Db
put_retirement db session_id instance_id r = record db {
  retirement =
      update db.retirement session_id (update (db.retirement session_id) instance_id (some r));
}

abbrev pub is_replaying : RetirementStatus → Bool
is_replaying replaying = true
is_replaying superseded = false
is_replaying ended = false

-- `EXISTS (SELECT 1 FROM "SessionRuntimeInstanceRetirement" …)` on a row that may be missing.
abbrev pub exists_retirement : Option Retirement → Bool
exists_retirement none = false
exists_retirement (some r) = true

-- The same with `AND retirement."status" <> 'replaying'`.
abbrev pub exists_final_retirement : Option Retirement → Bool
exists_final_retirement none = false
exists_final_retirement (some r) = not (is_replaying r.status)

unfoldable pub is_retired : Db → String → String → Bool
is_retired db session_id instance_id = exists_retirement (db.retirement session_id instance_id)

unfoldable pub is_finally_retired : Db → String → String → Bool
is_finally_retired db session_id instance_id =
    exists_final_retirement (db.retirement session_id instance_id)

-- All three lease columns are NULL: the row was never touched by the lease protocol.
unfoldable pub is_legacy_row : Session → Bool
is_legacy_row s = is_null s.lease_id && is_null s.lease_instance_id && is_null s.lease_expires_at

-- The fields of `RuntimeConnectionSnapshot`; an absent optional field is `none` or `false`.
pub record RuntimeConnectionSnapshot : Type 0 where
  pub active : Bool
  pub active_instance_id : Option String
  pub last_active_at : ℕ
  pub lease_id : Option String
  pub lease_instance_id : Option String
  pub lease_expires_at : Option ℕ
  pub runtime_instance_retired : Bool

-- `lastActiveAt > now - GRACE` is written without the subtraction.
pub is_runtime_connected : RuntimeConnectionSnapshot → ℕ → Bool
is_runtime_connected session now =
    if not session.active || is_null session.active_instance_id || session.runtime_instance_retired
    then false
    else if not (is_null session.lease_id)
        || not (is_null session.lease_instance_id)
        || not (is_null session.lease_expires_at)
    then not (is_null session.lease_id)
      && sql_eq_column session.lease_instance_id session.active_instance_id
      && sql_gt session.lease_expires_at now
    else ltb now (session.last_active_at + legacy_runtime_connection_grace_ms)

-- `UPDATE "Session" SET … WHERE "id" = … AND "accountId" = … AND …`, with whether a row was updated.
unfoldable pub update_where :
    Db → String → String → (Session → Bool) → (Session → Session) → Db × Bool
update_where db session_id account_id test assign = elim (db.session session_id) [
  | none ↦ (db, false)
  | some s ↦
      if s.account_id == account_id && test s
      then (put_session db session_id (assign s), true)
      else (db, false)
]
