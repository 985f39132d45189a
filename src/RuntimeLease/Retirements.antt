-- ===== src/RuntimeLease/Retirements.antt =====
-- The retirement table: no call deletes a retirement, and none reopens one that is final.
use happy_server.Common.{
  ℕ, String, true, Option, List, [], ◌∷◌, arith, ◌≡◌, eq_iff, Option-cases, inl, inr, ap,
}
use happy_server.RuntimeLease.{Db, Retirement, is_retired, is_finally_retired}
use happy_server.RuntimeLease.Tables.{retirement-update_where}
use happy_server.RuntimeLease.Claims.{
  ClaimInput, claim_runtime_connection_lease, claim_replay, claim_live, replay_instance,
}
use happy_server.RuntimeLease.Operations.{
  expire_runtime_connection_lease, renew_runtime_connection_lease, update_runtime_session_metadata,
  update_runtime_session_state, renew_legacy_runtime_connection, end_runtime_connection_lease,
  end_row,
}
use happy_server.RuntimeLease.Steps.{
  Call, claims, expires, renews, writes_metadata, writes_state, renews_legacy, ends, step, run,
}

-- What is retired in the first tables is retired in the second, and for good if it was.
abbrev pub KeepsRetirements : Db → Db → Type 0
KeepsRetirements db db' =
    (k i : String)
    → (is_retired db k i ≡ true → is_retired db' k i ≡ true)
      × (is_finally_retired db k i ≡ true → is_finally_retired db' k i ≡ true)

same_retirements : (db db' : Db) → db'.retirement ≡ db.retirement → KeepsRetirements db db'
unfolding is_retired is_finally_retired
same_retirements db db' e k i = (
  λ h. ground (arith, ap (λ (t : String → String → Option Retirement). t k i) e),
  λ h. ground (arith, ap (λ (t : String → String → Option Retirement). t k i) e),
)

module _ (db : Db) (now : ℕ) (account session instance : String) where
  claim_live-KeepsRetirements :
      (lease : String) → KeepsRetirements db (claim_live db now account session instance lease).0
  unfolding claim_live is_retired is_finally_retired
  claim_live-KeepsRetirements lease k i = elim (Option-cases (db.session session)) [
    | inl missing ↦ ground arith
    | inr (s, found) ↦ elim (Option-cases s.active_instance_id) [
      | inl vacant ↦ ground arith
      | inr (previous, held) ↦ ground (arith, eq_iff session k, eq_iff previous i)
    ]
  ]

  retirement-end_row :
      (tombstone : String)
      → (end_row db now account session instance tombstone).0.retirement ≡ db.retirement
  unfolding end_row
  retirement-end_row tombstone = retirement-update_where db session account _ _

  end-KeepsRetirements :
      (tombstone : String)
      → KeepsRetirements db
          (end_runtime_connection_lease db now account session instance tombstone).0
  unfolding end_runtime_connection_lease is_retired is_finally_retired
  end-KeepsRetirements tombstone k i = ground (
    arith,
    ap (λ (t : String → String → Option Retirement). t k i) (retirement-end_row tombstone),
    eq_iff session k,
    eq_iff instance i,
  )

claim_replay-KeepsRetirements :
    (db : Db) (now : ℕ) (synthetic : String) (input : ClaimInput)
    → KeepsRetirements db (claim_replay db now synthetic input).0
unfolding claim_replay is_retired is_finally_retired
claim_replay-KeepsRetirements db now synthetic input k i =
    elim (Option-cases (db.session input.session_id)) [
      | inl missing ↦ ground arith
      | inr (s, found) ↦ ground (
        arith,
        eq_iff input.session_id k,
        eq_iff (replay_instance input.session_instance_id synthetic s) i,
      )
    ]

claim-KeepsRetirements :
    (db : Db) (now : ℕ) (synthetic : String) (input : ClaimInput)
    → KeepsRetirements db (claim_runtime_connection_lease db now synthetic input).0
unfolding claim_runtime_connection_lease
claim-KeepsRetirements db now synthetic input k i = elim (Option-cases input.session_instance_id) [
  | inl missing ↦ ground (arith, claim_replay-KeepsRetirements db now synthetic input k i)
  | inr (j, found) ↦ ground (
    arith,
    claim_replay-KeepsRetirements db now synthetic input k i,
    claim_live-KeepsRetirements db now input.account_id input.session_id j input.lease_id k i,
  )
]

step-KeepsRetirements : (db : Db) (now : ℕ) (c : Call) → KeepsRetirements db (step db now c)
unfolding step expire_runtime_connection_lease renew_runtime_connection_lease
    update_runtime_session_metadata update_runtime_session_state renew_legacy_runtime_connection
step-KeepsRetirements db now (claims synthetic input) =
    claim-KeepsRetirements db now synthetic input
step-KeepsRetirements db now (expires a k i l t) =
    same_retirements db _ (retirement-update_where db k a _ _)
step-KeepsRetirements db now (renews a k i l) =
    same_retirements db _ (retirement-update_where db k a _ _)
step-KeepsRetirements db now (writes_metadata a k i l v m) =
    same_retirements db _ (retirement-update_where db k a _ _)
step-KeepsRetirements db now (writes_state a k i l v s) =
    same_retirements db _ (retirement-update_where db k a _ _)
step-KeepsRetirements db now (renews_legacy a k) =
    same_retirements db _ (retirement-update_where db k a _ _)
step-KeepsRetirements db now (ends a k i t) = end-KeepsRetirements db now a k i t

pub run-KeepsRetirements : (db : Db) (cs : List (ℕ × Call)) → KeepsRetirements db (run db cs)
unfolding run
run-KeepsRetirements db [] k i = (λ h. h, λ h. h)
run-KeepsRetirements db ((now, c) ∷ cs) k i =
    let first = step-KeepsRetirements db now c k i in
    let rest = run-KeepsRetirements (step db now c) cs k i in
    (λ h. rest.0 (first.0 h), λ h. rest.1 (first.1 h))
