-- ===== src/Machines.antt =====
-- sources/app/api/socket/machineUpdateHandler.ts: the handlers of `machine-alive`,
-- `machine-update-metadata` and `machine-update-state`. The last two differ in the columns that they
-- write. The machine is read, then written, then read again where the write found no row.
pub mod Races
mod Examples
use happy_server.Common.{
  ℕ, ◌+◌, ◌-◌, ◌*◌, min, String, Bool, true, false, not, ◌&&◌, ◌||◌, Option, none, some, List, ◌==◌,
  nat_eq, ltb, if◌then◌else◌, update,
}
use happy_server.EventRouter.{RecipientFilter, machine_scoped_only, user_scoped_only}
use happy_server.EventRouter.Events.{
  Versioned, UpdatePayload, EphemeralPayload, build_update_machine_update,
  build_machine_activity_ephemeral,
}
use happy_server.Publishing.{Outbound, publish}
use happy_server.ActivityCache.Machines.{MachineCache, queue_machine_update}

-- The model `Machine` of prisma/schema.prisma, less its key and creation date.
pub record Machine : Type 0 where
  pub account_id : String
  pub metadata : String
  pub metadata_version : ℕ
  pub daemon_state : Option String
  pub daemon_state_version : ℕ
  pub active : Bool
  pub last_active_at : ℕ
  pub updated_at : ℕ

abbrev pub MachineTable : Type 0
MachineTable = String → Option Machine

unfoldable pub find_machine : MachineTable → String → String → Option Machine
find_machine table user_id machine_id = elim (table machine_id) [
  | none ↦ none
  | some a ↦ if a.account_id == user_id then some a else none
]

-- The argument of the callback; the content of a mismatch is what the column holds, if there is a row.
pub data MachineAnswer : Type 0 where
  refused : String → MachineAnswer
  version_mismatch : ℕ → Option String → MachineAnswer
  written : ℕ → String → MachineAnswer

-- The column that a handler writes; `assign` has the clock.
pub record MachineField : Type 0 where
  pub version_of : Machine → ℕ
  pub content_of : Machine → Option String
  pub assign : ℕ → ℕ → String → Machine → Machine
  pub parts : Versioned String → Option (Versioned String) × Option (Versioned String)

abbrev pub machine_metadata_field : MachineField
machine_metadata_field = record {
  version_of = λ a. a.metadata_version;
  content_of = λ a. some a.metadata;
  assign = λ now expected content a. record a {
    metadata = content;
    metadata_version = expected + 1;
    updated_at = now;
  };
  parts = λ v. (some v, none);
}

abbrev pub machine_daemon_state_field : MachineField
machine_daemon_state_field = record {
  version_of = λ a. a.daemon_state_version;
  content_of = λ a. a.daemon_state;
  assign = λ now expected content a. record a {
    daemon_state = some content;
    daemon_state_version = expected + 1;
    active = true;
    last_active_at = now;
    updated_at = now;
  };
  parts = λ v. (none, some v);
}

-- The tables at the moments of the handler's calls, its clock, and the random key of the update.
pub record MachineMoments : Type 0 where
  pub when_read : MachineTable
  pub when_written : MachineTable
  pub when_read_again : MachineTable
  pub now : ℕ
  pub update_id : String

abbrev pub Updated : Type 0
Updated = MachineTable × Outbound × MachineAnswer

module _ (field : MachineField) where
  -- `updateMany` with the expected version in its condition.
  unfoldable pub write_machine :
      MachineTable → ℕ → String → String → ℕ → String → MachineTable × Bool
  unfolding find_machine
  write_machine table now user_id machine_id expected content =
      elim (find_machine table user_id machine_id) [
        | none ↦ (table, false)
        | some a ↦
            if nat_eq (field.version_of a) expected
            then (update table machine_id (some (field.assign now expected content a)), true)
            else (table, false)
      ]

  -- The answer where the write found no row.
  unfoldable pub lost_machine_write : MachineTable → String → String → MachineAnswer
  unfolding find_machine
  lost_machine_write table user_id machine_id = elim (find_machine table user_id machine_id) [
    | none ↦ version_mismatch 0 none
    | some a ↦ version_mismatch (field.version_of a) (field.content_of a)
  ]

  -- The emission and the answer of a write; a missing account makes the handler answer an error.
  unfoldable pub announce_machine_write :
      MachineMoments → Outbound → String → String → ℕ → String → Outbound × MachineAnswer
  unfolding publish
  announce_machine_write m out user_id machine_id expected content =
      let (metadata, daemon_state) =
        field.parts (record { value = content; version = expected + 1 }) in
      elim (publish out user_id
        (λ n. build_update_machine_update m.now machine_id n m.update_id metadata daemon_state)
        (machine_scoped_only machine_id)) [
          | none ↦ (out, refused "Internal error")
          | some out' ↦ (out', written (expected + 1) content)
        ]

  -- The handler from its write on.
  unfoldable pub finish_machine_update :
      MachineMoments → Outbound → String → String → ℕ → String → Updated
  unfolding write_machine lost_machine_write announce_machine_write
  finish_machine_update m out user_id machine_id expected content =
      let (table, done) = write_machine m.when_written m.now user_id machine_id expected content in
      if done
      then (let (out', answer) = announce_machine_write m out user_id machine_id expected content in
          (table, out', answer))
      else (table, out, lost_machine_write m.when_read_again user_id machine_id)

  -- The handler; a field that has not its type is `none`.
  unfoldable pub machine_update :
      MachineMoments → Outbound → String → String → Option String → Option ℕ → Updated
  unfolding find_machine finish_machine_update
  machine_update m out user_id machine_id content expected =
      if machine_id == ""
      then (m.when_written, out, refused "Invalid parameters")
      else elim content [
        | none ↦ (m.when_written, out, refused "Invalid parameters")
        | some t ↦ elim expected [
          | none ↦ (m.when_written, out, refused "Invalid parameters")
          | some v ↦ elim (find_machine m.when_read user_id machine_id) [
            | none ↦ (m.when_written, out, refused "Machine not found")
            | some a ↦
                if not (nat_eq (field.version_of a) v)
                then (
                  m.when_written,
                  out,
                  version_mismatch (field.version_of a) (field.content_of a),
                )
                else finish_machine_update m out user_id machine_id v t
          ]
        ]
      ]

unfoldable pub machine_update_metadata :
    MachineMoments → Outbound → String → String → Option String → Option ℕ → Updated
unfolding machine_update
machine_update_metadata = machine_update machine_metadata_field

unfoldable pub machine_update_state :
    MachineMoments → Outbound → String → String → Option String → Option ℕ → Updated
unfolding machine_update
machine_update_state = machine_update machine_daemon_state_field

-- `machine-alive`: what is queued and emitted. The time is `none` where it is no number; `is_valid` is
-- the answer of the cache, which has been asked already.
unfoldable pub machine_alive :
    MachineCache
    → ℕ
    → Bool
    → String
    → Option ℕ
    → MachineCache × Option (EphemeralPayload × RecipientFilter)
unfolding queue_machine_update build_machine_activity_ephemeral
machine_alive cache clock is_valid machine_id none = (cache, none)
machine_alive cache clock is_valid machine_id (some time) =
    let t = min time clock in
    if machine_id == "" || ltb t (clock - 1000 * 60 * 10) || not is_valid then (cache, none) else (
      (queue_machine_update cache machine_id t).0,
      some (build_machine_activity_ephemeral machine_id true t, user_scoped_only),
    )
