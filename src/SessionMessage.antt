-- ===== src/SessionMessage.antt =====
-- sources/app/session/sessionMessageCreate.ts: the tables that one persisted message touches, its
-- input and result, and the authorization of its producer. The columns that the session read
-- computes (the statement under the row lock) are functions of the row.
pub mod Persist
pub mod Producers
pub mod Idempotence
pub mod Sequence
pub mod Runs
pub mod Effects
mod Examples
use happy_server.Common.{
  ℕ, ◌+◌, String, Bool, true, false, not, ◌&&◌, Option, none, some, List, [], ◌∷◌, ltb, is_null,
  sql_eq, sql_eq_column, sql_gt,
}
use happy_server.Common.Json.{JsonValue, object, get_field, is_text}
use happy_server.RuntimeLease.{
  Session, Db, Retirement, RetirementStatus, is_replaying, is_legacy_row, put_session,
  legacy_runtime_connection_grace_ms,
}

pub record Message : Type 0 where
  pub id : String
  pub session_id : String
  pub local_id : Option String
  pub seq : ℕ
  pub content : JsonValue
  pub created_at : ℕ
  pub updated_at : ℕ

-- The columns of the outbox that the insert writes; the delivery columns take their defaults.
pub record Notification : Type 0 where
  pub account_id : String
  pub session_id : String
  pub message_id : String
  pub update_seq : ℕ
  pub origin_socket_id : Option String
  pub target_runtime_connection_lease_id : Option String
  pub target_legacy_runtime_connection : Bool

-- Messages and notifications stand newest first; an account is its update counter.
pub record Store : Type 0 where
  pub runtime : Db
  pub messages : List Message
  pub account_seq : String → Option ℕ
  pub outbox : List Notification

pub data RuntimeMessageAuthorization : Type 0 where
  lease : String → String → RuntimeMessageAuthorization
  legacy : RuntimeMessageAuthorization
  replay : Option String → Option String → RuntimeMessageAuthorization

pub record PersistSessionMessageInput : Type 0 where
  pub user_id : String
  pub session_id : String
  pub ciphertext : String
  pub local_id : Option String
  pub origin_socket_id : Option String
  pub runtime_authorization : Option RuntimeMessageAuthorization

pub data ErrorCode : Type 0 where
  session_not_found idempotency_conflict runtime_connection_stale : ErrorCode

-- `success duplicate message updateSeq` and `error code retryable`.
pub data PersistResult : Type 0 where
  success : Bool → Message → Option ℕ → PersistResult
  error : ErrorCode → Bool → PersistResult

unfoldable pub has_ciphertext : JsonValue → String → Bool
unfolding get_field is_text
has_ciphertext (object fs) c =
    is_text (get_field "t" fs) "encrypted" && is_text (get_field "c" fs) c
has_ciphertext _ c = false

-- `runtimeInstanceRetirementStatus`: the retirement of the active instance, if any.
unfoldable pub active_retirement : Db → String → Option String → Option Retirement
active_retirement db k none = none
active_retirement db k (some i) = db.retirement k i

abbrev pub holds_replaying : Option Retirement → Bool
holds_replaying none = false
holds_replaying (some r) = is_replaying r.status

unfoldable pub runtime_lease_current : Db → ℕ → String → Session → Bool
unfolding active_retirement
runtime_lease_current db now k s =
    s.active
    && not (is_null s.active_instance_id)
    && not (is_null s.lease_id)
    && sql_eq_column s.lease_instance_id s.active_instance_id
    && sql_gt s.lease_expires_at now
    && is_null (active_retirement db k s.active_instance_id)

unfoldable pub runtime_replay_lease_current : Db → ℕ → String → Session → Bool
unfolding active_retirement
runtime_replay_lease_current db now k s =
    not (is_null s.active_instance_id)
    && not (is_null s.lease_id)
    && sql_eq_column s.lease_instance_id s.active_instance_id
    && sql_gt s.lease_expires_at now
    && holds_replaying (active_retirement db k s.active_instance_id)

unfoldable pub target_legacy_runtime_connection : ℕ → Session → Bool
unfolding is_legacy_row
target_legacy_runtime_connection now s =
    s.active && is_legacy_row s && ltb now (s.last_active_at + legacy_runtime_connection_grace_ms)

unfoldable pub authorized : Db → ℕ → String → Session → RuntimeMessageAuthorization → Bool
unfolding runtime_lease_current runtime_replay_lease_current target_legacy_runtime_connection
authorized db now k s (lease i l) =
    runtime_lease_current db now k s
    && sql_eq s.active_instance_id i
    && sql_eq s.lease_instance_id i
    && sql_eq s.lease_id l
authorized db now k s legacy =
    is_null s.active_instance_id && target_legacy_runtime_connection now s
authorized db now k s (replay (some i) (some l)) =
    runtime_replay_lease_current db now k s
    && sql_eq s.active_instance_id i
    && sql_eq s.lease_instance_id i
    && sql_eq s.lease_id l
authorized db now k s (replay _ _) = false

unfoldable pub stale_retryable : Db → String → Session → RuntimeMessageAuthorization → Bool
unfolding active_retirement
stale_retryable db k s (lease i l) =
    sql_eq s.active_instance_id i && is_null (active_retirement db k s.active_instance_id)
stale_retryable db k s legacy = false
stale_retryable db k s (replay none l) = false
stale_retryable db k s (replay (some i) l) =
    sql_eq s.active_instance_id i && holds_replaying (active_retirement db k s.active_instance_id)

abbrev pub is_replay : RuntimeMessageAuthorization → Bool
is_replay (replay i l) = true
is_replay (lease i l) = false
is_replay legacy = false
