-- ===== src/RuntimeLease/Claims.antt =====
-- sources/app/presence/runtimeConnectionLease.ts: `claimRuntimeConnectionLease`, its live and its
-- replay statement. The random identifiers that the code draws are arguments.
use happy_server.Common.{
  ℕ, ◌+◌, String, Bool, true, false, not, ◌&&◌, ◌||◌, Option, none, some, leb, if◌then◌else◌,
  is_null, sql_eq, sql_distinct, sql_le, truthy, ◌==◌,
}
use happy_server.RuntimeLease.{
  Session, Db, Retirement, RetirementStatus, replaying, superseded, is_replaying, is_retired,
  is_finally_retired, is_legacy_row, put_session, put_retirement,
  runtime_connection_lease_duration_ms, legacy_runtime_connection_grace_ms,
}

pub record ClaimInput : Type 0 where
  pub account_id : String
  pub session_id : String
  pub session_instance_id : Option String
  pub replay_only : Bool
  pub lease_id : String

pub record ClaimResult : Type 0 where
  pub claimed : Bool
  pub owned_lease_id : Option String
  pub owned_session_instance_id : Option String
  pub displaced_lease_id : Option String

abbrev pub not_claimed : ClaimResult
not_claimed = record {
  claimed = false;
  owned_lease_id = none;
  owned_session_instance_id = none;
  displaced_lease_id = none;
}

-- `lastActiveAt <= CURRENT_TIMESTAMP - GRACE` on a row without lease columns.
pub legacy_grace_over : ℕ → Session → Bool
unfolding is_legacy_row
legacy_grace_over now s =
    is_legacy_row s && leb (s.last_active_at + legacy_runtime_connection_grace_ms) now

-- `resolved."replayInstanceId"`.
unfoldable pub replay_instance : Option String → String → Session → String
replay_instance (some supplied) synthetic s = supplied
replay_instance none synthetic s = elim s.active_instance_id [ none ↦ synthetic | some i ↦ i ]

-- The WHERE clause of the replay candidate; `i` is the resolved instance.
replay_candidate : Db → ℕ → String → Option String → String → Session → Bool
unfolding is_legacy_row legacy_grace_over is_finally_retired
replay_candidate db now session_id (some supplied) i s =
    (is_null s.active_instance_id || sql_eq s.active_instance_id supplied)
    && not (is_finally_retired db session_id i)
replay_candidate db now session_id none i s =
    (not s.active
      || (not (is_legacy_row s)
          && (is_null s.lease_id
              || sql_distinct s.lease_instance_id s.active_instance_id
              || sql_le s.lease_expires_at now))
      || legacy_grace_over now s)
    && not (is_finally_retired db session_id i)

-- `INSERT … 'replaying' ON CONFLICT DO UPDATE SET "retiredAt" … WHERE "status" = 'replaying'`:
-- none where the conflicting row is not replaying, and then nothing is returned.
retire_for_replay : Db → ℕ → String → String → Option Db
unfolding put_retirement
retire_for_replay db now session_id i =
    let mark = put_retirement db session_id i (record { status = replaying; retired_at = now }) in
    elim (db.retirement session_id i) [
      | none ↦ some mark
      | some r ↦ if is_replaying r.status then some mark else none
    ]

replay_row : ℕ → String → String → Session → Session
replay_row now lease_id i s = record s {
  active = false;
  active_instance_id = some i;
  lease_id = some lease_id;
  lease_instance_id = some i;
  lease_expires_at = some (now + runtime_connection_lease_duration_ms);
  updated_at = now;
}

-- The result is built from the row that the statement returns; an empty instance is no instance.
replay_result : String → String → Session → ClaimResult
replay_result lease_id i s = if i == "" then not_claimed else record {
  claimed = true;
  owned_lease_id = some lease_id;
  owned_session_instance_id = some i;
  displaced_lease_id = truthy s.lease_id;
}

unfoldable pub claim_replay : Db → ℕ → String → ClaimInput → Db × ClaimResult
unfolding replay_instance replay_candidate retire_for_replay replay_row replay_result put_session
claim_replay db now synthetic input = elim (db.session input.session_id) [
  | none ↦ (db, not_claimed)
  | some s ↦
      let i = replay_instance input.session_instance_id synthetic s in
      if s.account_id == input.account_id
        && replay_candidate db now input.session_id input.session_instance_id i s
      then elim (retire_for_replay db now input.session_id i) [
        | none ↦ (db, not_claimed)
        | some db' ↦ (
          put_session db' input.session_id (replay_row now input.lease_id i s),
          replay_result input.lease_id i s,
        )
      ]
      else (db, not_claimed)
]

-- The WHERE clause of the live candidate.
live_candidate : Db → ℕ → String → String → Session → Bool
unfolding legacy_grace_over is_retired
live_candidate db now session_id i s =
    not (is_retired db session_id i)
    && (is_null s.active_instance_id
        || sql_eq s.active_instance_id i
        || not s.active
        || sql_le s.lease_expires_at now
        || legacy_grace_over now s)

abbrev superseded_status : RetirementStatus → RetirementStatus
superseded_status r = if is_replaying r then superseded else r

superseded_row : ℕ → Option Retirement → Retirement
superseded_row now none = record { status = superseded; retired_at = now }
superseded_row now (some r) = record { status = superseded_status r.status; retired_at = now }

-- The displaced instance is retired in the statement that installs its successor.
retire_superseded : Db → ℕ → String → Option String → String → Db
unfolding superseded_row put_retirement
retire_superseded db now session_id none i = db
retire_superseded db now session_id (some previous) i =
    if previous == i
    then db
    else put_retirement db session_id previous
        (superseded_row now (db.retirement session_id previous))

unfoldable pub live_row : ℕ → String → String → Session → Session
live_row now lease_id i s = record s {
  active_instance_id = some i;
  lease_id = some lease_id;
  lease_instance_id = some i;
  lease_expires_at = some (now + runtime_connection_lease_duration_ms);
  active = true;
  last_active_at = now;
  updated_at = now;
}

unfoldable pub claim_live : Db → ℕ → String → String → String → String → Db × ClaimResult
unfolding live_candidate retire_superseded live_row put_session
claim_live db now account_id session_id i lease_id = elim (db.session session_id) [
  | none ↦ (db, not_claimed)
  | some s ↦
      if s.account_id == account_id && live_candidate db now session_id i s
      then (
        put_session (retire_superseded db now session_id s.active_instance_id i) session_id
            (live_row now lease_id i s),
        record {
          claimed = true;
          owned_lease_id = some lease_id;
          owned_session_instance_id = some i;
          displaced_lease_id = truthy s.lease_id;
        },
      )
      else (db, not_claimed)
]

-- `if (!sessionInstanceId) return { claimed: false }` comes before the live statement.
live_of : Db → ℕ → ClaimInput → Option String → Db × ClaimResult
live_of db now input none = (db, not_claimed)
live_of db now input (some i) =
    if i == ""
    then (db, not_claimed)
    else claim_live db now input.account_id input.session_id i input.lease_id

unfoldable pub claim_runtime_connection_lease : Db → ℕ → String → ClaimInput → Db × ClaimResult
unfolding live_of
claim_runtime_connection_lease db now synthetic input =
    if input.replay_only
    then claim_replay db now synthetic input
    else live_of db now input input.session_instance_id
