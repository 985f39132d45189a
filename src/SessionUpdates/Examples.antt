-- ===== src/SessionUpdates/Examples.antt =====
-- The theorems on the packets of a session "s" of account "a", and tests.
use happy_server.Common.{true, false, none, some, [], ◌∷◌, ◌≡◌, refl, update}
use happy_server.RuntimeLease.{is_retired, Session, Db, superseded, is_finally_retired}
use happy_server.RuntimeLease.Operations.{update_runtime_session_metadata}
use happy_server.RuntimeLease.Steps.{renews, run}
use happy_server.EventRouter.{
  SessionScopedConnection, UserScopedConnection, session_scoped, user_scoped,
}
use happy_server.Publishing.{Outbound}
use happy_server.SessionMessage.{Store}
use happy_server.SessionUpdates.{fence_packet, refused}
use happy_server.SessionUpdates.Presence.{text}
use happy_server.SessionUpdates.Messages.{receive_message}
use happy_server.SessionUpdates.Writes.{Moments, written, update_metadata}
use happy_server.SessionUpdates.Fence.{is_written}
use happy_server.SessionUpdates.Retired.{retired_runtime_writes_nothing}
use happy_server.SessionUpdates.Senders.{retired_runtime_sends_nothing}
use happy_server.SessionUpdates.Writers.{one_update_per_version}

-- Instance "i" holds lease "l" until 9000.
abbrev row : Session
row = record {
  account_id = "a";
  metadata = "m";
  metadata_version = 3;
  agent_state = none;
  agent_state_version = 0;
  data_encryption_key = none;
  seq = 4;
  active = true;
  active_instance_id = some "i";
  lease_id = some "l";
  lease_instance_id = some "i";
  lease_expires_at = some 9000;
  last_active_at = 1000;
  updated_at = 1000;
}

abbrev db : Db
db = record { session = update (λ k. none) "s" (some row); retirement = λ k i. none }

abbrev retired_db : Db
retired_db = record db { retirement = λ k i. some (record { status = superseded; retired_at = 0 }) }

abbrev runtime : SessionScopedConnection
runtime = record {
  socket_id = "socket";
  user_id = "a";
  session_id = "s";
  session_instance_id = some "i";
  runtime_connection_lease_id = some "l";
  runtime_connection_lease_rejected = false;
  replay_only = false;
  replay_requested_session_instance_id = none;
}

abbrev app : UserScopedConnection
app = record { socket_id = "app"; user_id = "a" }

abbrev at_once : Db → Moments
at_once d = record {
  when_read = d;
  when_written = d;
  when_read_again = d;
  now = 2000;
  update_id = "u";
}

abbrev out : Outbound
out = record { account_seq = update (λ k. none) "a" (some 7); emitted = [] }

abbrev store : Db → Store
store d = record { runtime = d; messages = []; account_seq = λ k. none; outbox = [] }

update_metadata_test :
    (update_metadata (at_once db) out (session_scoped runtime) "a" "s" (some "n") (some 3)).3
    ≡ written 4 "n"
unfolding update_metadata update_runtime_session_metadata is_retired
update_metadata_test = refl

fence_test :
    (fence_packet db 2000 runtime "rpc-call").1
    ≡ refused "Session runtime cannot perform this operation"
unfolding fence_packet
fence_test = refl

retired_runtime_writes_nothing_example :
    is_written
      (update_metadata
        (at_once (run retired_db ((5, renews "a" "s" "i" "l") ∷ [])))
        out
        (session_scoped runtime)
        "a"
        "s"
        (some "n")
        (some 3)).3
    ≡ false
unfolding is_finally_retired
retired_runtime_writes_nothing_example =
    ((retired_runtime_writes_nothing retired_db ((5, renews "a" "s" "i" "l") ∷ []) runtime "i" refl
        refl refl (at_once (run retired_db ((5, renews "a" "s" "i" "l") ∷ []))) out "a" "s" refl
        refl).0
      (some "n") (some 3)).2

retired_runtime_sends_nothing_example :
    (receive_message
      (λ t. true)
      (λ t. 1)
      (store (run retired_db []))
      2000
      "id"
      (session_scoped runtime)
      "a"
      "socket"
      "s"
      (some "c")
      (text "k")).0
    ≡ store (run retired_db [])
unfolding is_finally_retired
retired_runtime_sends_nothing_example =
    retired_runtime_sends_nothing retired_db [] runtime "i" "l" refl refl refl refl refl (λ t. true)
      (λ t. 1) (store (run retired_db [])) 2000 "id" "a" "socket" "s" (some "c") (text "k") refl

abbrev after_first : Db
unfolding update_metadata
after_first =
    (update_metadata (at_once db) out (session_scoped runtime) "a" "s" (some "n") (some 3)).0

one_update_per_version_example :
    is_written
      (update_metadata (at_once after_first) out (user_scoped app) "a" "s" (some "p") (some 3)).3
    ≡ false
unfolding update_metadata update_runtime_session_metadata is_retired
one_update_per_version_example =
    ((one_update_per_version (at_once db) (at_once after_first) out out (session_scoped runtime)
        (user_scoped app) "a" "a" "s" 3).0
      "n" "p" refl refl).2
