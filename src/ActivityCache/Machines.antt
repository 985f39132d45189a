-- ===== src/ActivityCache/Machines.antt =====
-- The machine half of sources/app/presence/sessionCache.ts. A machine's update is a timestamp, for
-- which 0 is not absent, unlike a session's.
use happy_server.Common.{
  ℕ, suc, ◌+◌, ◌≤◌, max, String, Bool, true, false, ◌&&◌, Option, none, some, List, [], ◌∷◌, ◌++◌,
  arith, ◌≡◌, ltb, leb, nat_eq, ◌==◌, eq_refl, if◌then◌else◌, update, is_null,
}
use happy_server.ActivityCache.{
  Outcome, persisted, missing_record, failed, cache_ttl_ms, update_threshold_ms, distance, without,
}

pub record MachineCacheEntry : Type 0 where
  pub machine_ref : ℕ
  pub valid_until : ℕ
  pub last_update_sent : ℕ
  pub pending_update : Option ℕ
  pub in_flight_update : Option ℕ
  pub cached_user_id : String

pub record MachineDatabaseUpdate : Type 0 where
  pub machine_id : String
  pub from_ref : ℕ
  pub timestamp : ℕ
  pub user_id : String

-- The flag is the one of the whole cache.
pub record MachineCache : Type 0 where
  pub machine_keys : List String
  pub machine : String → Option MachineCacheEntry
  pub next_machine_ref : ℕ
  pub is_shutting_down : Bool

abbrev max_option : ℕ → Option ℕ → ℕ
max_option mark none = mark
max_option mark (some t) = max mark t

abbrev pub machine_watermark : MachineCacheEntry → ℕ
machine_watermark e = max_option (max_option e.last_update_sent e.in_flight_update) e.pending_update

abbrev reaches : ℕ → Option ℕ → Bool
reaches t none = true
reaches t (some p) = leb p t

abbrev put_machine : MachineCache → String → MachineCacheEntry → MachineCache
put_machine cache id e = record cache { machine = update cache.machine id (some e) }

unfoldable pub queue_machine_update : MachineCache → String → ℕ → MachineCache × Bool
queue_machine_update cache id t = elim (cache.machine id) [
  | none ↦ (cache, false)
  | some e ↦
      if cache.is_shutting_down
      then (cache, false)
      else if ltb update_threshold_ms (distance t (machine_watermark e))
          && reaches t e.pending_update
      then (put_machine cache id (record e { pending_update = some t }), true)
      else (cache, false)
]

abbrev machine_keys_with : MachineCache → String → List String
machine_keys_with cache id = elim (cache.machine id) [
  | none ↦ cache.machine_keys ++ (id ∷ [])
  | some e ↦ cache.machine_keys
]

abbrev remember_new_machine : MachineCache → ℕ → String → String → ℕ → MachineCache
remember_new_machine cache now id user_id last_active_at = record cache {
  machine_keys = machine_keys_with cache id;
  machine = update cache.machine id (
      some (record {
        machine_ref = cache.next_machine_ref;
        valid_until = now + cache_ttl_ms;
        last_update_sent = last_active_at;
        pending_update = none;
        in_flight_update = none;
        cached_user_id = user_id;
      }));
  next_machine_ref = suc cache.next_machine_ref;
}

-- `machine.lastActiveAt?.getTime() || 0`.
abbrev persisted_last_active_at : Option ℕ → ℕ
persisted_last_active_at none = 0
persisted_last_active_at (some t) = t

-- The rest of `isMachineValid`, once the machine was found with the given `lastActiveAt`.
unfoldable pub remember_machine : MachineCache → ℕ → String → String → Option ℕ → MachineCache
remember_machine cache now id user_id last_active_at = elim (cache.machine id) [
  | none ↦ remember_new_machine cache now id user_id (persisted_last_active_at last_active_at)
  | some e ↦
      if e.cached_user_id == user_id
      then put_machine cache id (record e {
        valid_until = now + cache_ttl_ms;
        last_update_sent = max e.last_update_sent (persisted_last_active_at last_active_at);
      })
      else remember_new_machine cache now id user_id (persisted_last_active_at last_active_at)
]

-- The machine loop of `takePendingUpdates`.
unfoldable pub take_machines_from :
    MachineCache
    → List String
    → List MachineDatabaseUpdate
    → MachineCache × List MachineDatabaseUpdate
take_machines_from cache [] updates = (cache, updates)
take_machines_from cache (id ∷ ids) updates = elim (cache.machine id) [
  | none ↦ take_machines_from cache ids updates
  | some e ↦ elim e.pending_update [
    | none ↦ take_machines_from cache ids updates
    | some t ↦ elim e.in_flight_update [
      | some flying ↦ take_machines_from cache ids updates
      | none ↦
          take_machines_from
            (put_machine cache id (record e { pending_update = none; in_flight_update = some t }))
            ids
            (updates
              ++ (record {
                machine_id = id;
                from_ref = e.machine_ref;
                timestamp = t;
                user_id = e.cached_user_id;
              }
                  ∷ []))
    ]
  ]
]

abbrev is_machine_covered : Option ℕ → ℕ → Bool
is_machine_covered none sent = false
is_machine_covered (some p) sent = leb (distance p sent) update_threshold_ms

abbrev machine_settled : MachineCacheEntry → ℕ → MachineCacheEntry
machine_settled e t =
    let sent = max e.last_update_sent t in
    record e {
      last_update_sent = sent;
      in_flight_update = none;
      pending_update = if is_machine_covered e.pending_update sent then none else e.pending_update;
    }

abbrev machine_requeued : MachineCacheEntry → ℕ → MachineCacheEntry
machine_requeued e t = record e {
  in_flight_update = none;
  pending_update = if is_null e.pending_update then some t else e.pending_update;
}

abbrev delete_machine : MachineCache → String → MachineCache
delete_machine cache id = record cache {
  machine_keys = without id cache.machine_keys;
  machine = update cache.machine id none;
}

abbrev settle_machine : MachineCache → String → MachineCacheEntry → ℕ → Outcome → MachineCache
settle_machine cache id e t persisted = put_machine cache id (machine_settled e t)
settle_machine cache id e t missing_record = delete_machine cache id
settle_machine cache id e t failed = put_machine cache id (machine_requeued e t)

-- `persistUpdate` of a machine, after the database call.
unfoldable pub persist_machine_update :
    MachineCache → MachineDatabaseUpdate → Outcome → MachineCache
persist_machine_update cache u outcome = elim (cache.machine u.machine_id) [
  | none ↦ cache
  | some e ↦
      if nat_eq e.machine_ref u.from_ref
      then settle_machine cache u.machine_id e u.timestamp outcome
      else cache
]

-- The machine loop of `cleanup`.
unfoldable pub cleanup_machines_from : MachineCache → ℕ → List String → MachineCache
cleanup_machines_from cache now [] = cache
cleanup_machines_from cache now (id ∷ ids) = elim (cache.machine id) [
  | none ↦ cleanup_machines_from cache now ids
  | some e ↦
      elim (ltb e.valid_until now && is_null e.pending_update && is_null e.in_flight_update) [
        | true ↦ cleanup_machines_from (delete_machine cache id) now ids
        | false ↦ cleanup_machines_from cache now ids
      ]
]

-- A machine's activity is not written twice within the threshold: while an update that is newer than
-- what the cache knows is pending, and after it was taken and written, an update at most 30 seconds
-- newer is refused; if the write fails, the update is pending again.
pub machine_throttled :
    (cache cache' flying : MachineCache) (u : MachineDatabaseUpdate) (id : String)
    (e : MachineCacheEntry) (t t' : ℕ)
    → cache.machine id ≡ some e
    → e.in_flight_update ≡ none
    → machine_watermark e ≤ t
    → queue_machine_update cache id t ≡ (cache', true)
    → take_machines_from cache' (id ∷ []) [] ≡ (flying, u ∷ [])
    → t ≤ t'
    → t' ≤ t + update_threshold_ms
    → (queue_machine_update cache' id t' ≡ (cache', false))
      × (queue_machine_update (persist_machine_update flying u persisted) id t'
          ≡ (persist_machine_update flying u persisted, false))
      × ((persist_machine_update flying u failed).machine id ≡ cache'.machine id)
unfolding queue_machine_update take_machines_from persist_machine_update
machine_throttled cache cache' flying u id e t t' there free newer queued taken later soon =
    (ground (arith, eq_refl id), ground (arith, eq_refl id), ground (arith, eq_refl id))
