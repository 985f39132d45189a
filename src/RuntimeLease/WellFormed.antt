-- ===== src/RuntimeLease/WellFormed.antt =====
-- The lease columns of a session row: all NULL, or all set and naming the active instance.
use happy_server.Common.{
  ℕ, String, Bool, not, ◌&&◌, ◌||◌, Option, List, [], ◌∷◌, arith, ◌≡◌, eq_iff, eq_refl,
  Option-cases, inl, inr, is_null, sql_eq_column, eq_some_of_sql_eq,
}
use happy_server.RuntimeLease.{Session, Db, is_legacy_row}
use happy_server.RuntimeLease.Tables.{AllRows, update_where-AllRows}
use happy_server.RuntimeLease.Claims.{
  ClaimInput, claim_runtime_connection_lease, claim_replay, claim_live, replay_instance,
}
use happy_server.RuntimeLease.Operations.{
  expire_runtime_connection_lease, renew_runtime_connection_lease, update_runtime_session_metadata,
  update_runtime_session_state, renew_legacy_runtime_connection, end_runtime_connection_lease,
  end_row,
}
use happy_server.RuntimeLease.Steps.{
  Call, claims, expires, renews, writes_metadata, writes_state, renews_legacy, ends, step, run,
}

unfoldable pub lease_columns_agree : Session → Bool
unfolding is_legacy_row
lease_columns_agree s =
    is_legacy_row s
    || (not (is_null s.lease_id)
        && not (is_null s.lease_expires_at)
        && sql_eq_column s.lease_instance_id s.active_instance_id)

abbrev pub IsWellFormed : Db → Type 0
IsWellFormed = AllRows (λ k s. lease_columns_agree s)

session-end :
    (db : Db) (now : ℕ) (account session instance tombstone : String)
    → (end_runtime_connection_lease db now account session instance tombstone).0.session
      ≡ (end_row db now account session instance tombstone).0.session
unfolding end_runtime_connection_lease
session-end db now account session instance tombstone = ground arith

module _ (db : Db) (now : ℕ) (h : IsWellFormed db) (account session : String) where
  module _ (instance lease : String) where
    expire-IsWellFormed :
        (tombstone : String)
        → IsWellFormed
            (expire_runtime_connection_lease db now account session instance lease tombstone).0
    unfolding expire_runtime_connection_lease lease_columns_agree
    expire-IsWellFormed tombstone =
        update_where-AllRows _ db session account _ _
          (λ s t p.
            ground (arith, eq_some_of_sql_eq s.active_instance_id instance, eq_refl instance))
          h

    renew-IsWellFormed :
        IsWellFormed (renew_runtime_connection_lease db now account session instance lease).0
    unfolding renew_runtime_connection_lease lease_columns_agree
    renew-IsWellFormed =
        update_where-AllRows _ db session account _ _
          (λ s t p. ground (arith, eq_some_of_sql_eq s.lease_id lease)) h

    end_row-IsWellFormed :
        (tombstone : String) → IsWellFormed (end_row db now account session instance tombstone).0
    unfolding end_row lease_columns_agree
    end_row-IsWellFormed tombstone =
        update_where-AllRows _ db session account _ _
          (λ s t p.
            ground (arith, eq_some_of_sql_eq s.active_instance_id instance, eq_refl instance))
          h

    end-IsWellFormed :
        (tombstone : String)
        → IsWellFormed (end_runtime_connection_lease db now account session instance tombstone).0
    end-IsWellFormed tombstone j t e =
        end_row-IsWellFormed tombstone j t
          (rw (session-end db now account session instance tombstone) at e)

    claim_live-IsWellFormed : IsWellFormed (claim_live db now account session instance lease).0
    unfolding claim_live lease_columns_agree
    claim_live-IsWellFormed j t e = ground (arith, h j t, eq_iff session j, eq_refl instance)

  module _ (i l : Option String) (version : ℕ) where
    metadata-IsWellFormed :
        (metadata : String)
        → IsWellFormed
            (update_runtime_session_metadata db now account session i l version metadata).0
    unfolding update_runtime_session_metadata lease_columns_agree
    metadata-IsWellFormed metadata = update_where-AllRows _ db session account _ _ (λ s t p. p) h

    state-IsWellFormed :
        (state : Option String)
        → IsWellFormed (update_runtime_session_state db now account session i l version state).0
    unfolding update_runtime_session_state lease_columns_agree
    state-IsWellFormed state = update_where-AllRows _ db session account _ _ (λ s t p. p) h

  legacy-IsWellFormed : IsWellFormed (renew_legacy_runtime_connection db now account session).0
  unfolding renew_legacy_runtime_connection lease_columns_agree
  legacy-IsWellFormed = update_where-AllRows _ db session account _ _ (λ s t p. p) h

claim_replay-IsWellFormed :
    (db : Db) (now : ℕ)
    → IsWellFormed db
    → (synthetic : String) (input : ClaimInput)
    → IsWellFormed (claim_replay db now synthetic input).0
unfolding claim_replay lease_columns_agree
claim_replay-IsWellFormed db now h synthetic input j t e =
    elim (Option-cases (db.session input.session_id)) [
      | inl missing ↦ ground (arith, h j t)
      | inr (s, found) ↦ ground (
        arith,
        h j t,
        eq_iff input.session_id j,
        eq_refl (replay_instance input.session_instance_id synthetic s),
      )
    ]

claim-IsWellFormed :
    (db : Db) (now : ℕ)
    → IsWellFormed db
    → (synthetic : String) (input : ClaimInput)
    → IsWellFormed (claim_runtime_connection_lease db now synthetic input).0
unfolding claim_runtime_connection_lease
claim-IsWellFormed db now h synthetic input j t e = elim (Option-cases input.session_instance_id) [
  | inl missing ↦ ground (arith, h j t, claim_replay-IsWellFormed db now h synthetic input j t)
  | inr (i, found) ↦ ground (
    arith,
    h j t,
    claim_replay-IsWellFormed db now h synthetic input j t,
    claim_live-IsWellFormed db now h input.account_id input.session_id i input.lease_id j t,
  )
]

pub step-IsWellFormed :
    (db : Db) (now : ℕ) (c : Call) → IsWellFormed db → IsWellFormed (step db now c)
unfolding step
step-IsWellFormed db now (claims synthetic input) h = claim-IsWellFormed db now h synthetic input
step-IsWellFormed db now (expires a k i l t) h = expire-IsWellFormed db now h a k i l t
step-IsWellFormed db now (renews a k i l) h = renew-IsWellFormed db now h a k i l
step-IsWellFormed db now (writes_metadata a k i l v m) h =
    metadata-IsWellFormed db now h a k i l v m
step-IsWellFormed db now (writes_state a k i l v s) h = state-IsWellFormed db now h a k i l v s
step-IsWellFormed db now (renews_legacy a k) h = legacy-IsWellFormed db now h a k
step-IsWellFormed db now (ends a k i t) h = end-IsWellFormed db now h a k i t t

-- From tables in which every session row has either no lease column set, or all three with the
-- lease naming the active instance, any run of calls leads to such tables again.
pub run-IsWellFormed : (db : Db) (cs : List (ℕ × Call)) → IsWellFormed db → IsWellFormed (run db cs)
unfolding run
run-IsWellFormed db [] h = h
run-IsWellFormed db ((now, c) ∷ cs) h =
    run-IsWellFormed (step db now c) cs (step-IsWellFormed db now c h)
