-- ===== src/RuntimeLease/Steps.antt =====
-- Every call of sources/app/presence/runtimeConnectionLease.ts that can change a table, and runs of
-- such calls in any order, from any sockets, at any reading of the database clock.
use happy_server.Common.{ℕ, String, Option, List, [], ◌∷◌}
use happy_server.RuntimeLease.{Db}
use happy_server.RuntimeLease.Claims.{ClaimInput, claim_runtime_connection_lease}
use happy_server.RuntimeLease.Operations.{
  expire_runtime_connection_lease, renew_runtime_connection_lease, update_runtime_session_metadata,
  update_runtime_session_state, renew_legacy_runtime_connection, end_runtime_connection_lease,
}

-- The arguments of each call, with the identifiers that it draws.
pub data Call : Type 0 where
  claims : String → ClaimInput → Call
  expires : String → String → String → String → String → Call
  renews : String → String → String → String → Call
  writes_metadata : String → String → Option String → Option String → ℕ → String → Call
  writes_state : String → String → Option String → Option String → ℕ → Option String → Call
  renews_legacy : String → String → Call
  ends : String → String → String → String → Call

unfoldable pub step : Db → ℕ → Call → Db
step db now (claims synthetic input) = (claim_runtime_connection_lease db now synthetic input).0
step db now (expires account session instance lease tombstone) =
    (expire_runtime_connection_lease db now account session instance lease tombstone).0
step db now (renews account session instance lease) =
    (renew_runtime_connection_lease db now account session instance lease).0
step db now (writes_metadata account session i l version metadata) =
    (update_runtime_session_metadata db now account session i l version metadata).0
step db now (writes_state account session i l version state) =
    (update_runtime_session_state db now account session i l version state).0
step db now (renews_legacy account session) =
    (renew_legacy_runtime_connection db now account session).0
step db now (ends account session instance tombstone) =
    (end_runtime_connection_lease db now account session instance tombstone).0

unfoldable pub run : Db → List (ℕ × Call) → Db
run db [] = db
run db ((now, c) ∷ cs) = run (step db now c) cs
