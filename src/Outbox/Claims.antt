-- ===== src/Outbox/Claims.antt =====
-- Which dispatcher may settle a notification, and when it is tried again.
use native.Mathlib.Nat.{mul-le-mul_left}
use happy_server.Common.{
  ℕ, suc, zero, ◌+◌, ◌-◌, ◌*◌, ◌^◌, ◌≤◌, min, String, true, false, arith, ◌≡◌, refl, leb, ◌==◌,
  eq_refl, Option-cases, inl, inr, ◌⊎◌,
}
use happy_server.Outbox.{
  Outbox, update_row, claim, mark_delivered, mark_failed, retry_ceiling, retry_delay,
}

-- A row that was claimed is not claimed again before the lease has run out, and a dispatcher that
-- holds another token can neither mark it delivered nor failed: each of these calls finds no row and
-- changes nothing.
pub claim_excludes :
    (outbox outbox' : Outbox) (k token other error : String) (now t lease_ms next_attempt_at : ℕ)
    → claim outbox now lease_ms k token ≡ (outbox', true)
    → (token == other) ≡ false
    → t ≤ now + lease_ms
    → (claim outbox' t lease_ms k other ≡ (outbox', false))
      × (mark_delivered outbox' k other t ≡ (outbox', false))
      × (mark_failed outbox' k other error next_attempt_at ≡ (outbox', false))
unfolding update_row
claim_excludes outbox outbox' k token other error now t lease_ms next_attempt_at done apart early =
    elim (Option-cases (outbox.row k)) [
      | inl absent ↦ ground arith
      | inr (r, there) ↦
          (ground (arith, eq_refl k), ground (arith, eq_refl k), ground (arith, eq_refl k))
    ]

-- What becomes of a claimed notification: its own token marks it delivered, after which no call
-- claims or marks it any more, or marks it failed, after which it is not claimed before the time of
-- the next attempt, and any claim from then on succeeds.
pub claim_settles :
    (outbox outbox' : Outbox) (k token other error : String)
    (now t lease_ms later_ms next_attempt_at : ℕ)
    → claim outbox now lease_ms k token ≡ (outbox', true)
    → let sent = (mark_delivered outbox' k token t).0 in
      let failed = (mark_failed outbox' k token error next_attempt_at).0 in
      ((mark_delivered outbox' k token t).1 ≡ true)
      × ((mark_failed outbox' k token error next_attempt_at).1 ≡ true)
      × (claim sent later_ms lease_ms k other ≡ (sent, false))
      × (mark_delivered sent k other later_ms ≡ (sent, false))
      × (mark_failed sent k other error later_ms ≡ (sent, false))
      × ((claim failed later_ms lease_ms k other).1 ≡ leb next_attempt_at later_ms)
unfolding update_row
claim_settles outbox outbox' k token other error now t lease_ms later_ms next_attempt_at done =
    elim (Option-cases (outbox.row k)) [
      | inl absent ↦ ground arith
      | inr (r, there) ↦ (
        ground (arith, eq_refl k, eq_refl token),
        ground (arith, eq_refl k, eq_refl token),
        ground (arith, eq_refl k, eq_refl token),
        ground (arith, eq_refl k, eq_refl token),
        ground (arith, eq_refl k, eq_refl token),
        ground (arith, eq_refl k, eq_refl token),
      )
    ]

capped_step :
    (n : ℕ) → (min (n + 1 - 1) 16 ≡ min (n - 1) 16) ⊎ (min (n + 1 - 1) 16 ≡ suc (min (n - 1) 16))
capped_step zero = inl refl
capped_step (suc n) = omega arith

-- A bound that doubles or stays does not shrink.
doubling_grows : (base m m' : ℕ) → (m' ≡ m) ⊎ (m' ≡ suc m) → base * 2 ^ m ≤ base * 2 ^ m'
doubling_grows base m m' (inl stays) = rw stays (omega arith)
doubling_grows base m m' (inr doubles) = rw doubles (mul-le-mul_left base (omega arith))

-- The delay before the next attempt is at least one millisecond and at most the maximum (where that is
-- positive), and its bound never shrinks from one attempt to the next.
pub retry_bounds :
    (retry_max_ms retry_base_ms tries draw : ℕ)
    → 1 ≤ retry_max_ms
    → draw ≤ retry_ceiling retry_max_ms retry_base_ms tries
    → (1 ≤ retry_delay draw)
      × (retry_delay draw ≤ retry_max_ms)
      × (retry_ceiling retry_max_ms retry_base_ms tries
          ≤ retry_ceiling retry_max_ms retry_base_ms (tries + 1))
unfolding retry_ceiling retry_delay
retry_bounds retry_max_ms retry_base_ms tries draw positive within = (
  omega arith,
  omega arith,
  (let grows =
        doubling_grows retry_base_ms (min (tries - 1) 16) (min (tries + 1 - 1) 16)
          (capped_step tries) in
      omega arith),
)
