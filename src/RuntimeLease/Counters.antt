-- ===== src/RuntimeLease/Counters.antt =====
-- No call of the lease module touches a session's message counter, or adds or removes a session.
use happy_server.Common.{
  ℕ, String, Bool, Option, none, some, arith, ◌≡◌, refl, eq_iff, Option-cases, inl, inr,
}
use happy_server.RuntimeLease.{Session, Db, update_where, put_session}
use happy_server.RuntimeLease.Claims.{
  ClaimInput, claim_runtime_connection_lease, claim_replay, claim_live,
}
use happy_server.RuntimeLease.Operations.{
  expire_runtime_connection_lease, renew_runtime_connection_lease, update_runtime_session_metadata,
  update_runtime_session_state, renew_legacy_runtime_connection, end_runtime_connection_lease,
  end_row,
}
use happy_server.RuntimeLease.Steps.{
  Call, claims, expires, renews, writes_metadata, writes_state, renews_legacy, ends, step,
}

abbrev pub seq_column : Option Session → Option ℕ
seq_column none = none
seq_column (some s) = some s.seq

abbrev pub seq_of : Db → String → Option ℕ
seq_of db k = seq_column (db.session k)

seq_of-update_where :
    (db : Db) (k a : String) (test : Session → Bool) (assign : Session → Session)
    → ((s : Session) → (assign s).seq ≡ s.seq)
    → (j : String) → seq_of (update_where db k a test assign).0 j ≡ seq_of db j
unfolding update_where put_session
seq_of-update_where db k a test assign same j = elim (Option-cases (db.session k)) [
  | inl missing ↦ ground arith
  | inr (s, found) ↦ ground (arith, eq_iff k j, same s)
]

seq_of-claim_live :
    (db : Db) (now : ℕ) (account k i l j : String)
    → seq_of (claim_live db now account k i l).0 j ≡ seq_of db j
unfolding claim_live
seq_of-claim_live db now account k i l j = elim (Option-cases (db.session k)) [
  | inl missing ↦ ground arith
  | inr (s, found) ↦ elim (Option-cases s.active_instance_id) [
    | inl vacant ↦ ground (arith, eq_iff k j)
    | inr (previous, held) ↦ ground (arith, eq_iff k j)
  ]
]

seq_of-claim_replay :
    (db : Db) (now : ℕ) (synthetic : String) (input : ClaimInput) (j : String)
    → seq_of (claim_replay db now synthetic input).0 j ≡ seq_of db j
unfolding claim_replay
seq_of-claim_replay db now synthetic input j = elim (Option-cases (db.session input.session_id)) [
  | inl missing ↦ ground arith
  | inr (s, found) ↦ ground (arith, eq_iff input.session_id j)
]

seq_of-claim :
    (db : Db) (now : ℕ) (synthetic : String) (input : ClaimInput) (j : String)
    → seq_of (claim_runtime_connection_lease db now synthetic input).0 j ≡ seq_of db j
unfolding claim_runtime_connection_lease
seq_of-claim db now synthetic input j = elim (Option-cases input.session_instance_id) [
  | inl missing ↦ ground (arith, seq_of-claim_replay db now synthetic input j)
  | inr (i, named) ↦ ground (
    arith,
    seq_of-claim_replay db now synthetic input j,
    seq_of-claim_live db now input.account_id input.session_id i input.lease_id j,
  )
]

seq_of-end_row :
    (db : Db) (now : ℕ) (a k i t j : String) → seq_of (end_row db now a k i t).0 j ≡ seq_of db j
unfolding end_row
seq_of-end_row db now a k i t = seq_of-update_where db k a _ _ (λ s. refl)

seq_of-end :
    (db : Db) (now : ℕ) (a k i t j : String)
    → seq_of (end_runtime_connection_lease db now a k i t).0 j ≡ seq_of db j
unfolding end_runtime_connection_lease
seq_of-end db now a k i t j = ground (arith, seq_of-end_row db now a k i t j)

pub seq_of-step :
    (db : Db) (now : ℕ) (c : Call) (j : String) → seq_of (step db now c) j ≡ seq_of db j
unfolding step expire_runtime_connection_lease renew_runtime_connection_lease
    update_runtime_session_metadata update_runtime_session_state renew_legacy_runtime_connection
seq_of-step db now (claims synthetic input) = seq_of-claim db now synthetic input
seq_of-step db now (expires a k i l t) = seq_of-update_where db k a _ _ (λ s. refl)
seq_of-step db now (renews a k i l) = seq_of-update_where db k a _ _ (λ s. refl)
seq_of-step db now (writes_metadata a k i l v m) = seq_of-update_where db k a _ _ (λ s. refl)
seq_of-step db now (writes_state a k i l v s) = seq_of-update_where db k a _ _ (λ s. refl)
seq_of-step db now (renews_legacy a k) = seq_of-update_where db k a _ _ (λ s. refl)
seq_of-step db now (ends a k i t) = seq_of-end db now a k i t
