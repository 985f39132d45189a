-- ===== src/SessionUpdates/Presence.antt =====
-- The handlers of `session-alive` and `session-end`, and
-- sources/app/api/socket/sessionMessageValidation.ts. `is_uuid` stands for the test of the length and
-- of the library on a text.
use happy_server.Common.{
  ℕ, String, Bool, true, false, not, ◌&&◌, ◌||◌, Option, none, some, ◌==◌, if◌then◌else◌, is_null,
  truthy, leb, sql_distinct, min,
}
use happy_server.RuntimeLease.{Db, update_where, is_legacy_row}
use happy_server.RuntimeLease.Operations.{
  renew_runtime_connection_lease, renew_legacy_runtime_connection, end_runtime_connection_lease,
}
use happy_server.EventRouter.{
  SessionScopedConnection, ClientConnection, session_scoped, user_scoped, machine_scoped,
}
use happy_server.SessionUpdates.{rejected}
use happy_server.SessionUpdates.Writes.{find_session}

-- An unknown value: undefined or null, a text, or anything else.
pub data Given : Type 0 where
  absent : Given
  text : String → Given
  other : Given

-- `none` is an invalid value.
unfoldable pub parse_session_message_local_id : (String → Bool) → Given → Option (Option String)
parse_session_message_local_id is_uuid absent = some none
parse_session_message_local_id is_uuid (text t) = if is_uuid t then some (some t) else none
parse_session_message_local_id is_uuid other = none

-- `SessionActivityPublication`.
pub record SessionActivityPublication : Type 0 where
  pub user_id : String
  pub session_id : String
  pub active : Bool
  pub active_at : ℕ
  pub thinking : Bool

abbrev pub Alive : Type 0
Alive = Db × SessionScopedConnection × Option SessionActivityPublication

abbrev renewed_or_rejected :
    Db × Bool → SessionScopedConnection → SessionActivityPublication → Alive
renewed_or_rejected (db, true) c news = (db, c, some news)
renewed_or_rejected (db, false) c news = (db, rejected c, none)

-- The renewal of a live connection: the exact lease, or the untouched legacy row.
unfoldable pub renew_connection :
    Db → ℕ → String → SessionScopedConnection → SessionActivityPublication → Alive
renew_connection db now user_id c news = elim (truthy c.session_instance_id) [
  | some i ↦ elim (truthy c.runtime_connection_lease_id) [
    | some l ↦
        renewed_or_rejected (renew_runtime_connection_lease db now user_id c.session_id i l) c news
    | none ↦ (db, c, none)
  ]
  | none ↦ elim (truthy c.runtime_connection_lease_id) [
    | some l ↦ (db, c, none)
    | none ↦
        renewed_or_rejected (renew_legacy_runtime_connection db now user_id c.session_id) c news
  ]
]

-- `session-alive` of a session connection; `received_at` is the clock of the process, and `has_time`
-- says that the time is a number.
unfoldable pub session_alive :
    Db → ℕ → ℕ → String → SessionScopedConnection → String → Bool → Bool → Alive
unfolding renew_connection
session_alive db now received_at user_id c sid has_time thinking =
    if not has_time
      || sid == ""
      || c.replay_only
      || not (sid == c.session_id)
      || c.runtime_connection_lease_rejected
    then (db, c, none)
    else renew_connection db now user_id c (record {
      user_id = user_id;
      session_id = sid;
      active = true;
      active_at = received_at;
      thinking = thinking;
    })

pub data SessionEndCode : Type 0 where
  invalid_request session_not_found : SessionEndCode

pub data SessionEndAck : Type 0 where
  success : Option String → SessionEndAck
  error : SessionEndCode → SessionEndAck

-- The end of an untouched legacy row, fenced by its time.
unfoldable pub end_legacy_session : Db → ℕ → String → String → ℕ → String → Db × Bool
unfolding update_where is_legacy_row
end_legacy_session db clock user_id sid t tombstone =
    update_where db sid user_id
      (λ s. leb s.last_active_at t && is_null s.active_instance_id && is_legacy_row s)
      (λ s. record s {
        last_active_at = t;
        active = false;
        lease_id = some tombstone;
        lease_instance_id = none;
        lease_expires_at = some t;
        updated_at = clock;
      })

-- What `session-end` works on once its request was accepted.
pub record EndRequest : Type 0 where
  pub user_id : String
  pub sid : String
  pub local_id : Option String
  pub instance : Option String
  pub t : ℕ
  pub clock : ℕ

abbrev ended_news : EndRequest → ℕ → SessionActivityPublication
ended_news r at = record {
  user_id = r.user_id;
  session_id = r.sid;
  active = false;
  active_at = at;
  thinking = false;
}

abbrev pub Ended : Type 0
Ended = Db × Option SessionActivityPublication × SessionEndAck

-- A request with an instance ends the incarnation, one without it the legacy row.
unfoldable pub end_session : Db → ℕ → String → EndRequest → Ended
unfolding end_legacy_session
end_session db now tombstone r = elim (truthy r.instance) [
  | some i ↦
      let (db', ended_at) = end_runtime_connection_lease db now r.user_id r.sid i tombstone in
      (db', elim ended_at [ none ↦ none | some at ↦ some (ended_news r at) ], success r.local_id)
  | none ↦
      let (db', done) = end_legacy_session db r.clock r.user_id r.sid r.t tombstone in
      (db', if done then some (ended_news r r.t) else none, success r.local_id)
]

-- `requested ?? connection.sessionInstanceId ?? null` of a replay, else what was requested.
abbrev ended_instance : SessionScopedConnection → Option String → Option String
ended_instance c (some i) = some i
ended_instance c none = if c.replay_only then c.session_instance_id else none

abbrev bound_instance : SessionScopedConnection → Option String
bound_instance c =
    if c.replay_only then c.replay_requested_session_instance_id else c.session_instance_id

-- The handler after the two identifiers were parsed; `read` is the table when the session is looked
-- up.
unfoldable pub session_end_checked :
    Db
    → Db
    → ℕ
    → ℕ
    → String
    → SessionScopedConnection
    → String
    → String
    → ℕ
    → Option String
    → Option String
    → Ended
unfolding end_session
session_end_checked read db now clock tombstone c user_id sid time local_id requested =
    if not (is_null local_id) && is_null requested
      || is_null local_id && not (is_null requested)
      || sql_distinct requested (bound_instance c)
    then (db, none, error invalid_request)
    else if c.replay_only && is_null (ended_instance c requested)
    then (db, none, success local_id)
    else elim (find_session read user_id sid) [
      | none ↦ (db, none, error session_not_found)
      | some s ↦ end_session db now tombstone (record {
        user_id = user_id;
        sid = sid;
        local_id = local_id;
        instance = ended_instance c requested;
        t = min time clock;
        clock = clock;
      })
    ]

-- `session-end`; `time` is `none` where it is not a finite number.
unfoldable pub session_end :
    (String → Bool)
    → Db
    → Db
    → ℕ
    → ℕ
    → String
    → ClientConnection
    → String
    → String
    → Option ℕ
    → Given
    → Given
    → Ended
unfolding session_end_checked parse_session_message_local_id
session_end is_uuid read db now clock tombstone (user_scoped c) user_id sid time local_id instance =
    (db, none, error invalid_request)
session_end is_uuid read db now clock tombstone (machine_scoped c) user_id sid time local_id
      instance =
    (db, none, error invalid_request)
session_end is_uuid read db now clock tombstone (session_scoped c) user_id sid time local_id
      instance =
    if sid == "" || is_null time || not (sid == c.session_id)
    then (db, none, error invalid_request)
    else elim time [
      | none ↦ (db, none, error invalid_request)
      | some t ↦ elim (parse_session_message_local_id is_uuid local_id) [
        | none ↦ (db, none, error invalid_request)
        | some l ↦ elim (parse_session_message_local_id is_uuid instance) [
          | none ↦ (db, none, error invalid_request)
          | some i ↦ session_end_checked read db now clock tombstone c user_id sid t l i
        ]
      ]
    ]
