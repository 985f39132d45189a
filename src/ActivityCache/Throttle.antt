-- ===== src/ActivityCache/Throttle.antt =====
-- How often the activity of one session instance reaches the database.
use happy_server.Common.{
  ℕ, ◌+◌, ◌≤◌, max, String, true, false, Option, none, some, arith, ◌≡◌, refl, nat_eq, eq_refl,
  Option-cases, inl, inr,
}
use happy_server.ActivityCache.{
  SessionCacheEntry, SessionDatabaseUpdate, ActivityCache, persisted, queue_session_update,
  persist_update, update_threshold_ms, same_instance, activity_watermark,
}

same_instance_refl : (i : Option String) → same_instance i i ≡ true
same_instance_refl none = refl
same_instance_refl (some a) = eq_refl a

-- The activity of one instance is not queued twice within the threshold: once an update newer than
-- what the cache knows was queued, an update of the same instance that is at most 30 seconds newer is
-- refused and leaves the cache as it is.
pub queued_once :
    (cache cache' : ActivityCache) (id : String) (e : SessionCacheEntry) (i : Option String)
    (t t' : ℕ)
    → cache.entry id ≡ some e
    → activity_watermark e i ≤ t
    → queue_session_update cache id t i ≡ (cache', true)
    → t ≤ t'
    → t' ≤ t + update_threshold_ms
    → queue_session_update cache' id t' i ≡ (cache', false)
unfolding queue_session_update
queued_once cache cache' id e i t t' there newer done later soon =
    ground (arith, eq_refl id, same_instance_refl i)

-- Once an update was written, an update of any instance of the session that is at most 30 seconds
-- newer than the last one written is refused and leaves the cache as it is.
pub written_once :
    (cache : ActivityCache) (u : SessionDatabaseUpdate) (e : SessionCacheEntry) (i : Option String)
    (t : ℕ)
    → cache.entry u.update_id ≡ some e
    → nat_eq e.ref u.entry_ref ≡ true
    → max e.last_update_sent u.content.timestamp ≤ t
    → t ≤ max e.last_update_sent u.content.timestamp + update_threshold_ms
    → queue_session_update (persist_update cache u persisted) u.update_id t i
      ≡ (persist_update cache u persisted, false)
unfolding queue_session_update persist_update
written_once cache u e i t there same newer soon = elim (Option-cases e.pending_update) [
  | inl free ↦ ground (arith, eq_refl u.update_id)
  | inr (v, due) ↦ ground (arith, eq_refl u.update_id)
]
