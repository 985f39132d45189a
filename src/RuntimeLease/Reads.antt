-- ===== src/RuntimeLease/Reads.antt =====
-- The three ways in which the code decides who is connected agree: the TypeScript predicate, the
-- CASE expression of the session read, and the ownership test of a socket's packet and of the lock.
use happy_server.Common.{
  ℕ, String, Bool, true, false, Option, none, some, arith, ◌≡◌, ◌==◌, eq_refl, if◌then◌else◌,
  eq_some_of_sql_eq,
}
use happy_server.RuntimeLease.{Session, Db, RuntimeConnectionSnapshot, is_runtime_connected}
use happy_server.RuntimeLease.Operations.{
  is_runtime_connection_owner, runtime_connection_ownership, run_with_runtime_connection_owner_lock,
  completed, not_owner, active_instance_retired, find_runtime_connection_session,
  RuntimeConnectionSessionRead,
}

-- The snapshot that a caller builds from a row and its retirement.
abbrev pub snapshot : Session → Bool → RuntimeConnectionSnapshot
snapshot s retired = record {
  active = s.active;
  active_instance_id = s.active_instance_id;
  last_active_at = s.last_active_at;
  lease_id = s.lease_id;
  lease_instance_id = s.lease_instance_id;
  lease_expires_at = s.lease_expires_at;
  runtime_instance_retired = retired;
}

-- What the query reports as connected is what the TypeScript predicate computes from the row that
-- it read, with the reported retirement, at the reported database time.
pub read_agrees :
    (db : Db) (now : ℕ) (account k : String) (s : Session) (r : RuntimeConnectionSessionRead)
    → db.session k ≡ some s
    → find_runtime_connection_session db now account k ≡ some r
    → r.runtime_connected
      ≡ is_runtime_connected (snapshot s r.runtime_instance_retired) r.runtime_connection_checked_at
unfolding find_runtime_connection_session is_runtime_connected
read_agrees db now account k s r found read = ground arith

-- The lock runs its operation exactly if it was acquired and the packet test holds; otherwise it
-- changes nothing and says which of the two failed.
pub lock_agrees {ℓ} :
    {S : Type ℓ} (db : Db) (now : ℕ) (account k : String) (i l : Option String) (operation : S → S)
    (w : S)
    → run_with_runtime_connection_owner_lock true db now account k i l operation w ≡ (
        if is_runtime_connection_owner db now account k i l
        then (completed, operation w)
        else (not_owner, w))
unfolding run_with_runtime_connection_owner_lock is_runtime_connection_owner
    runtime_connection_ownership
lock_agrees db now account k none none operation w = ground arith
lock_agrees db now account k none (some l) operation w = ground arith
lock_agrees db now account k (some i) none operation w = ground arith
lock_agrees db now account k (some i) (some l) operation w = ground arith

-- A lease owner (its instance not the empty text) is read as the connected, unretired instance.
pub owner_is_connected :
    (db : Db) (now : ℕ) (account k i l : String) (s : Session)
    → (i == "") ≡ false
    → db.session k ≡ some s
    → is_runtime_connection_owner db now account k (some i) (some l) ≡ true
    → (s.active_instance_id ≡ some i)
      × (is_runtime_connected (snapshot s (active_instance_retired db k s.active_instance_id)) now
          ≡ true)
unfolding is_runtime_connection_owner is_runtime_connected active_instance_retired
owner_is_connected db now account k i l s named found owns = (
  ground (arith, eq_some_of_sql_eq s.active_instance_id i),
  ground (
    arith,
    eq_some_of_sql_eq s.active_instance_id i,
    eq_some_of_sql_eq s.lease_instance_id i,
    eq_refl i,
  ),
)
