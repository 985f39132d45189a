-- ===== src/SessionMessage/Producers.antt =====
-- Which producers may write a message: the authorization of sessionMessageCreate.ts against the
-- ownership of runtimeConnectionLease.ts.
use happy_server.Common.{
  ℕ, String, true, false, Option, none, some, List, arith, ◌≡◌, refl, ◌==◌, eq_iff, eq_refl,
  Option-cases, inl, inr, eq_some_of_sql_eq,
}
use happy_server.RuntimeLease.{Session, Db, is_retired, is_finally_retired}
use happy_server.RuntimeLease.Operations.{is_runtime_connection_owner}
use happy_server.RuntimeLease.Steps.{Call, run}
use happy_server.RuntimeLease.Retirements.{run-KeepsRetirements}
use happy_server.SessionMessage.{
  Store, RuntimeMessageAuthorization, lease, legacy, replay, PersistSessionMessageInput,
  PersistResult, authorized, active_retirement,
}
use happy_server.SessionMessage.Persist.{persist_session_message_in_tx}

-- A lease producer (its instance not the empty text) may write exactly while the packet test of the
-- lease module takes it for the owner.
pub authorized-eq-owner :
    (db : Db) (now : ℕ) (account k i l : String) (s : Session)
    → (i == "") ≡ false
    → db.session k ≡ some s
    → s.account_id ≡ account
    → authorized db now k s (lease i l)
      ≡ is_runtime_connection_owner db now account k (some i) (some l)
unfolding authorized active_retirement is_runtime_connection_owner is_retired
authorized-eq-owner db now account k i l s named found mine =
    elim (Option-cases s.active_instance_id) [
      | inl vacant ↦ ground (arith, eq_refl account)
      | inr (j, held) ↦ ground (
        arith,
        eq_refl account,
        eq_iff j i,
        eq_some_of_sql_eq s.lease_instance_id i,
        eq_some_of_sql_eq s.lease_id l,
      )
    ]

-- The incarnation that a producer names.
abbrev pub producer : RuntimeMessageAuthorization → Option String
producer (lease i l) = some i
producer legacy = none
producer (replay i l) = i

retired_unauthorized :
    (db : Db) (now : ℕ) (k i : String) (s : Session) (a : RuntimeMessageAuthorization)
    → is_finally_retired db k i ≡ true
    → producer a ≡ some i
    → authorized db now k s a ≡ false
unfolding authorized is_finally_retired
retired_unauthorized db now k i s (lease j l) retired named =
    ground (arith, eq_some_of_sql_eq s.active_instance_id j)
retired_unauthorized db now k i s legacy retired named = cc
retired_unauthorized db now k i s (replay none l) retired named = cc
retired_unauthorized db now k i s (replay (some j) none) retired named = refl
retired_unauthorized db now k i s (replay (some j) (some l)) retired named =
    ground (arith, eq_some_of_sql_eq s.active_instance_id j)

-- The tables after a call that did not throw.
abbrev pub tables_after : Option (Store × PersistResult) → Option Store
tables_after none = none
tables_after (some (store, r)) = some store

-- Once an incarnation is retired for good, then after any run of lease calls no request of its
-- live or replay producer writes anything: the call returns, and every table is as before.
pub retired_producer_writes_nothing :
    (store : Store) (db : Db) (cs : List (ℕ × Call)) (now : ℕ) (id i : String)
    (input : PersistSessionMessageInput) (a : RuntimeMessageAuthorization)
    → store.runtime ≡ run db cs
    → is_finally_retired db input.session_id i ≡ true
    → input.runtime_authorization ≡ some a
    → producer a ≡ some i
    → tables_after (persist_session_message_in_tx store now id input) ≡ some store
unfolding persist_session_message_in_tx authorized
retired_producer_writes_nothing store db cs now id i input a here retired as_producer named =
    elim (Option-cases (store.runtime.session input.session_id)) [
      | inl missing ↦ ground arith
      | inr (s, found) ↦ ground (
        arith,
        retired_unauthorized store.runtime now input.session_id i s a
            (rw here ((run-KeepsRetirements db cs input.session_id i).1 retired)),
      )
    ]
