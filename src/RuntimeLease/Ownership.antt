-- ===== src/RuntimeLease/Ownership.antt =====
-- Who owns a session: what a claim, an expiry and an end do to ownership, and when a claim is refused.
use happy_server.Common.{
  ℕ, String, true, false, ◌&&◌, some, arith, ◌≡◌, ◌==◌, eq_iff, eq_refl, Option-cases, inl, inr,
  ◌+◌, ◌≤◌, ◌<◌, sql_eq, Option, ◌∙◌, ap, refl,
}
use happy_server.RuntimeLease.{
  Session, Db, put_session, is_retired, runtime_connection_lease_duration_ms,
}
use happy_server.RuntimeLease.Claims.{
  ClaimInput, claim_runtime_connection_lease, claim_replay, claim_live, live_row, not_claimed,
}
use happy_server.RuntimeLease.Operations.{
  expire_runtime_connection_lease, renew_runtime_connection_lease, is_runtime_connection_owner,
}
use happy_server.RuntimeLease.WellFormed.{IsWellFormed, lease_columns_agree}

-- A row with an active instance and a lease that has not expired.
abbrev pub IsHeld : Db → ℕ → String → String → ℕ → Session → Type 0
IsHeld db now k i e s =
    (db.session k ≡ some s)
    × (s.active ≡ true)
    × (s.active_instance_id ≡ some i)
    × (s.lease_expires_at ≡ some e)
    × (now < e)

-- In well-formed tables, while the active instance's lease has not expired, no claim under another
-- instance or under none, live or replay, is granted or changes anything.
pub claim_refused_while_held :
    (db : Db) (now : ℕ) (synthetic i : String) (e : ℕ) (s : Session) (input : ClaimInput)
    → IsWellFormed db
    → IsHeld db now input.session_id i e s
    → sql_eq input.session_instance_id i ≡ false
    → claim_runtime_connection_lease db now synthetic input ≡ (db, not_claimed)
unfolding claim_runtime_connection_lease claim_live claim_replay lease_columns_agree
claim_refused_while_held db now synthetic i e s input w held other =
    elim (Option-cases input.session_instance_id) [
      | inl anonymous ↦ ground (arith, w input.session_id s, eq_refl i)
      | inr (x, named) ↦ ground (arith, w input.session_id s, eq_iff i x, eq_iff x i)
    ]

-- The row and the retirement that a successful live claim leaves.
claim_live_row :
    (db : Db) (now : ℕ) (account k i lease : String) (s : Session)
    → db.session k ≡ some s
    → (claim_live db now account k i lease).1.claimed ≡ true
    → (s.account_id ≡ account)
      × ((claim_live db now account k i lease).0.session k ≡ some (live_row now lease i s))
unfolding claim_live
claim_live_row db now account k i lease s found won =
    (ground (arith, eq_iff s.account_id account), ground (arith, eq_refl k))

claim_live_unretired :
    (db : Db) (now : ℕ) (account k i lease : String) (s : Session)
    → db.session k ≡ some s
    → (claim_live db now account k i lease).1.claimed ≡ true
    → is_retired (claim_live db now account k i lease).0 k i ≡ false
unfolding claim_live is_retired
claim_live_unretired db now account k i lease s found won =
    elim (Option-cases s.active_instance_id) [
      | inl vacant ↦ ground arith
      | inr (previous, old) ↦ ground (arith, eq_iff previous i)
    ]

claim_live_found :
    (db : Db) (now : ℕ) (account k i lease : String)
    → (claim_live db now account k i lease).1.claimed ≡ true
    → (s : Session) × (db.session k ≡ some s)
unfolding claim_live
claim_live_found db now account k i lease won = elim (Option-cases (db.session k)) [
  | inl missing ↦ ground arith
  | inr (s, found) ↦ (s, found)
]

-- A live claim that succeeds makes its instance and lease the owner until the lease runs out, and
-- them alone: any lease owner of the session in that time is this pair.
pub claim_live_owns :
    (db : Db) (now t : ℕ) (account k i lease j m : String)
    → (i == "") ≡ false
    → (j == "") ≡ false
    → (claim_live db now account k i lease).1.claimed ≡ true
    → t < now + runtime_connection_lease_duration_ms
    → (is_runtime_connection_owner
          (claim_live db now account k i lease).0
          t
          account
          k
          (some i)
          (some lease)
        ≡ true)
      × (is_runtime_connection_owner
            (claim_live db now account k i lease).0
            t
            account
            k
            (some j)
            (some m)
          ≡ (i == j && lease == m))
unfolding is_runtime_connection_owner live_row
claim_live_owns db now t account k i lease j m named named' won early =
    let (s, found) = claim_live_found db now account k i lease won in
    let (mine, row) = claim_live_row db now account k i lease s found won in
    let unretired = claim_live_unretired db now account k i lease s found won in
    (
      ground (arith, eq_refl account, eq_refl i, eq_refl lease),
      ground (arith, eq_refl account, eq_iff i j),
    )

-- The row of the session is owned by this incarnation under this lease, expired or not, and the
-- incarnation is not retired.
abbrev pub IsLeased : Db → String → String → String → String → Session → Type 0
IsLeased db account k i lease s =
    (db.session k ≡ some s)
    × (s.account_id ≡ account)
    × (s.active ≡ true)
    × (s.active_instance_id ≡ some i)
    × (s.lease_instance_id ≡ some i)
    × (s.lease_id ≡ some lease)
    × (is_retired db k i ≡ false)

expired_lease-IsLeased :
    (db : Db) (now : ℕ) (account k i lease tombstone : String)
    → (expire_runtime_connection_lease db now account k i lease tombstone).1 ≡ true
    → (s : Session) × IsLeased db account k i lease s
unfolding expire_runtime_connection_lease
expired_lease-IsLeased db now account k i lease tombstone done =
    elim (Option-cases (db.session k)) [
      | inl missing ↦ ground arith
      | inr (s, found) ↦ elim (Option-cases s.active_instance_id) [
        | inl vacant ↦ ground arith
        | inr (a, active) ↦ elim (Option-cases s.lease_instance_id) [
          | inl unleased ↦ ground arith
          | inr (b, leased) ↦ elim (Option-cases s.lease_id) [
            | inl unnamed ↦ ground arith
            | inr (c, named) ↦ (
              s,
              (
                found,
                (eq_iff s.account_id account).0 (ground arith),
                ground arith,
                active ∙ ap some ((eq_iff a i).0 (ground arith)),
                leased ∙ ap some ((eq_iff b i).0 (ground arith)),
                named ∙ ap some ((eq_iff c lease).0 (ground arith)),
                ground arith,
              ),
            )
          ]
        ]
      ]
    ]

unowned_after_expiry :
    (db : Db) (now t : ℕ) (account k i lease tombstone : String) (j m : Option String)
    → (expire_runtime_connection_lease db now account k i lease tombstone).1 ≡ true
    → now ≤ t
    → is_runtime_connection_owner
        (expire_runtime_connection_lease db now account k i lease tombstone).0
        t
        account
        k
        j
        m
      ≡ false
unfolding expire_runtime_connection_lease is_runtime_connection_owner put_session
unowned_after_expiry db now t account k i lease tombstone j m done later =
    elim (Option-cases (db.session k)) [
      | inl missing ↦ ground arith
      | inr (s, found) ↦ elim (Option-cases j) [
        | inl no_instance ↦ elim (Option-cases m) [
          | inl no_lease ↦ rw (no_instance, no_lease) (ground (arith, eq_refl k))
          | inr (n, with_lease) ↦ rw (no_instance, with_lease) refl
        ]
        | inr (h, with_instance) ↦ elim (Option-cases m) [
          | inl no_lease ↦ rw (with_instance, no_lease) refl
          | inr (n, with_lease) ↦ rw (with_instance, with_lease) (ground (arith, eq_refl k))
        ]
      ]
    ]

-- An expiry succeeds only for the session's own lease: the row is active under the named instance,
-- which is not retired, and carries the named lease. In the tables that it leaves, under a tombstone
-- that is not the lease's own name, at any later time:
-- no instance and no lease owns the session, neither does a runtime without one; the expired lease's
-- heartbeat renews nothing; and any instance that was not retired can claim the session.
pub expire_fences_lease :
    (db : Db) (now t : ℕ) (account k i lease tombstone j fresh : String) (h m : Option String)
    → (tombstone == lease) ≡ false
    → (expire_runtime_connection_lease db now account k i lease tombstone).1 ≡ true
    → is_retired db k j ≡ false
    → now ≤ t
    → let db' = (expire_runtime_connection_lease db now account k i lease tombstone).0 in
      ((s : Session) × IsLeased db account k i lease s)
      × (is_runtime_connection_owner db' t account k h m ≡ false)
      × (renew_runtime_connection_lease db' t account k i lease ≡ (db', false))
      × ((claim_live db' t account k j fresh).1.claimed ≡ true)
unfolding expire_runtime_connection_lease renew_runtime_connection_lease claim_live is_retired
    put_session
expire_fences_lease db now t account k i lease tombstone j fresh h m rotated done live later =
    let owned = expired_lease-IsLeased db now account k i lease tombstone done in
    let unowned = unowned_after_expiry db now t account k i lease tombstone h m done later in
    elim (Option-cases (db.session k)) [
      | inl missing ↦ ground arith
      | inr (s, found) ↦ (owned, unowned, ground (arith, eq_refl k), ground (arith, eq_refl k))
    ]
