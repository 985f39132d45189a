-- ===== src/RuntimeLease/Fencing.antt =====
-- What an incarnation that was superseded or ended can still do: nothing.
use happy_server.Common.{
  ℕ, String, Bool, true, false, Option, none, some, List, arith, ◌≡◌, refl, ◌==◌, eq_refl,
}
use happy_server.RuntimeLease.{Session, Db, put_session, is_retired, is_finally_retired}
use happy_server.RuntimeLease.Claims.{
  claim_runtime_connection_lease, claim_replay, claim_live, not_claimed,
}
use happy_server.RuntimeLease.Operations.{
  renew_runtime_connection_lease, end_runtime_connection_lease, end_row,
  is_runtime_connection_owner,
}
use happy_server.RuntimeLease.Steps.{Call, run}
use happy_server.RuntimeLease.Retirements.{run-KeepsRetirements}

pub is_retired-is_finally_retired :
    (db : Db) (k i : String) → is_finally_retired db k i ≡ true → is_retired db k i ≡ true
unfolding is_retired is_finally_retired
is_retired-is_finally_retired db k i h = ground arith

module _ (db : Db) (k i : String) (h : is_finally_retired db k i ≡ true) (now : ℕ)
    (account : String) where
  owner_fenced :
      (l : Option String)
      → (i == "") ≡ false
      → is_runtime_connection_owner db now account k (some i) l ≡ false
  unfolding is_runtime_connection_owner
  owner_fenced none e = refl
  owner_fenced (some l) e = ground (arith, is_retired-is_finally_retired db k i h)

  renew_fenced : (l : String) → renew_runtime_connection_lease db now account k i l ≡ (db, false)
  unfolding renew_runtime_connection_lease
  renew_fenced l = ground (arith, is_retired-is_finally_retired db k i h)

  end_fenced : (t : String) → end_runtime_connection_lease db now account k i t ≡ (db, none)
  unfolding end_runtime_connection_lease end_row
  end_fenced t = ground arith

  claim_fenced :
      (synthetic lease : String) (replay_only : Bool)
      → claim_runtime_connection_lease db now synthetic (record {
        account_id = account;
        session_id = k;
        session_instance_id = some i;
        replay_only = replay_only;
        lease_id = lease;
      })
        ≡ (db, not_claimed)
  unfolding claim_runtime_connection_lease claim_live claim_replay
  claim_fenced synthetic lease true = ground arith
  claim_fenced synthetic lease false = ground (arith, is_retired-is_finally_retired db k i h)

-- Once an incarnation is retired for good, then after any run of calls and at any time: no lease
-- makes it an owner (an instance that is not the empty text), it renews nothing, it cannot end the
-- session again, and neither a live nor a replay claim under its name changes a table.
pub run-fenced :
    (db : Db) (cs : List (ℕ × Call)) (k i : String)
    → is_finally_retired db k i ≡ true
    → (i == "") ≡ false
    → (now : ℕ) (account : String) (l : Option String) (lease synthetic tombstone : String)
      (replay_only : Bool)
    → (is_runtime_connection_owner (run db cs) now account k (some i) l ≡ false)
      × (renew_runtime_connection_lease (run db cs) now account k i lease ≡ (run db cs, false))
      × (end_runtime_connection_lease (run db cs) now account k i tombstone ≡ (run db cs, none))
      × (claim_runtime_connection_lease (run db cs) now synthetic (record {
        account_id = account;
        session_id = k;
        session_instance_id = some i;
        replay_only = replay_only;
        lease_id = lease;
      })
          ≡ (run db cs, not_claimed))
run-fenced db cs k i retired named now account l lease synthetic tombstone replay_only =
    let still = (run-KeepsRetirements db cs k i).1 retired in
    (
      owner_fenced (run db cs) k i still now account l named,
      renew_fenced (run db cs) k i still now account lease,
      end_fenced (run db cs) k i still now account tombstone,
      claim_fenced (run db cs) k i still now account synthetic lease replay_only,
    )

-- A live claim by another instance that succeeds retires the displaced incarnation for good.
pub superseded_for_good :
    (db : Db) (now : ℕ) (account k i j lease : String) (s : Session)
    → db.session k ≡ some s
    → s.active_instance_id ≡ some i
    → (i == j) ≡ false
    → (claim_live db now account k j lease).1.claimed ≡ true
    → is_finally_retired (claim_live db now account k j lease).0 k i ≡ true
unfolding claim_live is_finally_retired
superseded_for_good db now account k i j lease s found held other won =
    ground (arith, eq_refl k, eq_refl i)

-- The end of the active incarnation, if it is not retired for good, retires it for good, reports
-- the database time, and leaves the row inactive with the tombstone in place of the lease.
pub ended_for_good :
    (db : Db) (now : ℕ) (account k i tombstone : String) (s : Session)
    → db.session k ≡ some s
    → s.account_id ≡ account
    → s.active_instance_id ≡ some i
    → is_finally_retired db k i ≡ false
    → let (db', at) = end_runtime_connection_lease db now account k i tombstone in
      (is_finally_retired db' k i ≡ true)
      × (at ≡ some now)
      × (db'.session k
          ≡ some (record s {
            active = false;
            last_active_at = now;
            lease_id = some tombstone;
            lease_instance_id = some i;
            lease_expires_at = some now;
            updated_at = now;
          }))
unfolding end_runtime_connection_lease end_row is_finally_retired put_session
ended_for_good db now account k i tombstone s found mine held open_yet = (
  ground (arith, eq_refl k, eq_refl i, eq_refl account),
  ground (arith, eq_refl k, eq_refl i, eq_refl account),
  ground (arith, eq_refl k, eq_refl i, eq_refl account),
)
