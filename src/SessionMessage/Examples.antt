-- ===== src/SessionMessage/Examples.antt =====
-- The theorems on persisted messages at a session "s" of account "a", and tests.
use happy_server.Common.{true, false, none, some, [], ◌∷◌, ◌≡◌, refl, update}
use happy_server.Common.Json.{string, object, field, end_fields}
use happy_server.RuntimeLease.{Session, Db, superseded, is_finally_retired}
use happy_server.RuntimeLease.Operations.{is_runtime_connection_owner}
use happy_server.RuntimeLease.Steps.{renews, run}
use happy_server.SessionMessage.{
  Store, PersistSessionMessageInput, Message, success, error, lease, replay, authorized,
  runtime_connection_stale,
}
use happy_server.SessionMessage.Persist.{persist_session_message_in_tx}
use happy_server.SessionMessage.Producers.{
  authorized-eq-owner, retired_producer_writes_nothing, tables_after,
}
use happy_server.SessionMessage.Idempotence.{answer_recovered}
use happy_server.SessionMessage.Sequence.{IsSequenced, in_order, all_messages}
use happy_server.SessionMessage.Runs.{requests, calls, act_all, act_all-IsSequenced}

-- Instance "i" holds lease "l" until 9000; the session has counted four messages.
abbrev row : Session
row = record {
  account_id = "a";
  metadata = "m";
  metadata_version = 0;
  agent_state = none;
  agent_state_version = 0;
  data_encryption_key = none;
  seq = 4;
  active = true;
  active_instance_id = some "i";
  lease_id = some "l";
  lease_instance_id = some "i";
  lease_expires_at = some 9000;
  last_active_at = 1000;
  updated_at = 1000;
}

abbrev db : Db
db = record { session = update (λ k. none) "s" (some row); retirement = λ k i. none }

abbrev store : Store
store = record {
  runtime = db;
  messages = [];
  account_seq = update (λ k. none) "a" (some 7);
  outbox = [];
}

abbrev input : PersistSessionMessageInput
input = record {
  user_id = "a";
  session_id = "s";
  ciphertext = "c";
  local_id = some "k";
  origin_socket_id = none;
  runtime_authorization = none;
}

abbrev by_lease : PersistSessionMessageInput
by_lease = record input { runtime_authorization = some (lease "i" "l") }

abbrev first : Message
first = record {
  id = "m1";
  session_id = "s";
  local_id = some "k";
  seq = 5;
  content = object (field "t" (string "encrypted") (field "c" (string "c") end_fields));
  created_at = 2000;
  updated_at = 2000;
}

abbrev stored : Store
stored = act_all store ((2000, requests "m1" input) ∷ [])

creation_test :
    persist_session_message_in_tx store 2000 "m1" input
    ≡ some (stored, success false first (some 8))
unfolding persist_session_message_in_tx act_all
creation_test = refl

expired_lease_is_stale :
    persist_session_message_in_tx store 9000 "m1" by_lease
    ≡ some (store, error runtime_connection_stale true)
unfolding persist_session_message_in_tx
expired_lease_is_stale = refl

authorized-eq-owner_example :
    authorized db 2000 "s" row (lease "i" "l")
    ≡ is_runtime_connection_owner db 2000 "a" "s" (some "i") (some "l")
authorized-eq-owner_example = authorized-eq-owner db 2000 "a" "s" "i" "l" row refl refl refl

abbrev retired_db : Db
retired_db = record db { retirement = λ k i. some (record { status = superseded; retired_at = 0 }) }

abbrev retired_store : Store
retired_store = record store { runtime = run retired_db ((5, renews "a" "s" "i" "l") ∷ []) }

retired_producer_writes_nothing_example :
    tables_after (persist_session_message_in_tx retired_store 2000 "m1" by_lease)
    ≡ some retired_store
unfolding is_finally_retired
retired_producer_writes_nothing_example =
    retired_producer_writes_nothing retired_store retired_db ((5, renews "a" "s" "i" "l") ∷ []) 2000
      "m1" "i" by_lease (lease "i" "l") refl refl refl refl

answer_recovered_example :
    persist_session_message_in_tx stored 9999 "m2"
      (record input { runtime_authorization = some (replay none none) })
    ≡ some (stored, success true first none)
unfolding persist_session_message_in_tx act_all
answer_recovered_example =
    (answer_recovered store stored stored 2000 9999 "m1" "m2" "k" input false first (some 8)
      (record row { seq = 5; updated_at = 2000 }) none none refl refl refl refl refl refl).0

store-IsSequenced : IsSequenced store
unfolding in_order all_messages
store-IsSequenced = record { ordered = refl; counted = refl }

act_all-IsSequenced_example :
    IsSequenced
      (act_all store ((2000, requests "m1" input) ∷ (2001, calls (renews "a" "s" "i" "l")) ∷ []))
act_all-IsSequenced_example =
    act_all-IsSequenced store
      ((2000, requests "m1" input) ∷ (2001, calls (renews "a" "s" "i" "l")) ∷ []) store-IsSequenced
