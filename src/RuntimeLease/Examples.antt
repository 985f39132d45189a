-- ===== src/RuntimeLease/Examples.antt =====
-- The theorems on the runtime-connection lease at a session "s" of account "a", and tests.
use happy_server.Common.{String, true, false, none, some, [], ◌∷◌, arith, ◌≡◌, refl, update}
use happy_server.RuntimeLease.{
  Session, Db, is_retired, is_finally_retired, put_session, is_runtime_connected, superseded,
}
use happy_server.RuntimeLease.Claims.{
  ClaimInput, claim_runtime_connection_lease, claim_live, not_claimed,
}
use happy_server.RuntimeLease.Operations.{
  expire_runtime_connection_lease, is_runtime_connection_owner, find_runtime_connection_session,
  RuntimeConnectionSessionRead,
}
use happy_server.RuntimeLease.Steps.{claims, renews, run}
use happy_server.RuntimeLease.Tables.{put_session-AllRows}
use happy_server.RuntimeLease.WellFormed.{IsWellFormed, lease_columns_agree, run-IsWellFormed}
use happy_server.RuntimeLease.Fencing.{run-fenced}
use happy_server.RuntimeLease.Ownership.{
  claim_refused_while_held, claim_live_owns, expire_fences_lease,
}
use happy_server.RuntimeLease.Reads.{read_agrees, snapshot}

abbrev fresh_row : Session
fresh_row = record {
  account_id = "a";
  metadata = "m";
  metadata_version = 3;
  agent_state = none;
  agent_state_version = 5;
  data_encryption_key = none;
  seq = 0;
  active = true;
  active_instance_id = none;
  lease_id = none;
  lease_instance_id = none;
  lease_expires_at = none;
  last_active_at = 1000;
  updated_at = 1000;
}

-- Instance "i" holds lease "l" until 9000.
abbrev held_row : Session
held_row = record fresh_row {
  active_instance_id = some "i";
  lease_id = some "l";
  lease_instance_id = some "i";
  lease_expires_at = some 9000;
}

abbrev tables : Session → Db
tables s = record { session = update (λ k. none) "s" (some s); retirement = λ k i. none }

abbrev retired_tables : Db
retired_tables = record (tables fresh_row) {
  retirement = λ k i. some (record { status = superseded; retired_at = 0 });
}

abbrev live_input : String → ClaimInput
live_input i = record {
  account_id = "a";
  session_id = "s";
  session_instance_id = some i;
  replay_only = false;
  lease_id = "l2";
}

empty-IsWellFormed : IsWellFormed (record { session = λ k. none; retirement = λ k i. none })
empty-IsWellFormed k s e = ground arith

held-IsWellFormed : IsWellFormed (tables held_row)
unfolding put_session lease_columns_agree
held-IsWellFormed =
    put_session-AllRows _ (record { session = λ k. none; retirement = λ k i. none }) "s" held_row
      refl empty-IsWellFormed

run-IsWellFormed_example :
    IsWellFormed (run (tables held_row) ((9000, claims "x" (live_input "j")) ∷ []))
run-IsWellFormed_example =
    run-IsWellFormed (tables held_row) ((9000, claims "x" (live_input "j")) ∷ []) held-IsWellFormed

run-fenced_example :
    is_runtime_connection_owner
      (run retired_tables ((5, renews "a" "s" "i" "l") ∷ []))
      6
      "a"
      "s"
      (some "i")
      (some "l")
    ≡ false
unfolding is_finally_retired
run-fenced_example =
    (run-fenced retired_tables ((5, renews "a" "s" "i" "l") ∷ []) "s" "i" refl refl 6 "a" (some "l")
      "l" "x" "t" false).0

claim_refused_while_held_example :
    claim_runtime_connection_lease (tables held_row) 8999 "x" (live_input "j")
    ≡ (tables held_row, not_claimed)
claim_refused_while_held_example =
    claim_refused_while_held (tables held_row) 8999 "x" "i" 9000 held_row (live_input "j")
      held-IsWellFormed (refl, refl, refl, refl, omega arith) refl

claim_live_owns_example :
    is_runtime_connection_owner
      (claim_live (tables held_row) 9000 "a" "s" "j" "l2").0
      9001
      "a"
      "s"
      (some "j")
      (some "l2")
    ≡ true
unfolding claim_live
claim_live_owns_example =
    (claim_live_owns (tables held_row) 9000 9001 "a" "s" "j" "l2" "i" "l" refl refl refl
      (omega arith)).0

expire_fences_lease_example :
    (claim_live
      (expire_runtime_connection_lease (tables held_row) 2000 "a" "s" "i" "l" "t").0
      2001
      "a"
      "s"
      "j"
      "l2").1.claimed
    ≡ true
unfolding expire_runtime_connection_lease is_retired
expire_fences_lease_example =
    (expire_fences_lease (tables held_row) 2000 2001 "a" "s" "i" "l" "t" "j" "l2" (some "i")
      (some "l") refl refl refl (omega arith)).3

abbrev held_read : RuntimeConnectionSessionRead
held_read = record {
  id = "s";
  agent_state_version = 5;
  runtime_connected = true;
  runtime_instance_id = some "i";
  runtime_lease_instance_id = some "i";
  runtime_lease_expires_at = some 9000;
  runtime_instance_retired = false;
  runtime_connection_checked_at = 2000;
  data_encryption_key = none;
}

read_agrees_example : true ≡ is_runtime_connected (snapshot held_row false) 2000
unfolding find_runtime_connection_session
read_agrees_example = read_agrees (tables held_row) 2000 "a" "s" held_row held_read refl refl
