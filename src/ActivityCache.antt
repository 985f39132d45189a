-- ===== src/ActivityCache.antt =====
-- sources/app/presence/sessionCache.ts, here its session half (Machines has the other): queueing, taking, settling and cleaning
-- up of the activity updates. A cache entry has a number, `ref`, that stands for the object's
-- identity, so that `get(id) === entry` is a test on it. The outcome of a database call is an
-- argument, and a call that waits for the database is two steps, before and after.
mod Tracking
mod Work
mod Throttle
pub mod Machines
mod Examples
use happy_server.Common.{
  ℕ, suc, ◌+◌, ◌-◌, max, String, Bool, true, false, not, ◌&&◌, ◌||◌, Option, none, some, List, [],
  ◌∷◌, ◌++◌, ltb, leb, nat_eq, ◌==◌, if◌then◌else◌, update,
}

pub record SessionPendingUpdate : Type 0 where
  pub timestamp : ℕ
  pub session_instance_id : Option String

pub record SessionCacheEntry : Type 0 where
  pub ref : ℕ
  pub valid_until : ℕ
  pub last_update_sent : ℕ
  pub pending_update : Option SessionPendingUpdate
  pub in_flight_update : Option SessionPendingUpdate
  pub cached_user_id : String

-- An update that was taken, with the identity of the entry it came from.
pub record SessionDatabaseUpdate : Type 0 where
  pub update_id : String
  pub entry_ref : ℕ
  pub content : SessionPendingUpdate

-- `keys` is the iteration order of the map; `next_ref` numbers the next entry object.
pub record ActivityCache : Type 0 where
  pub keys : List String
  pub entry : String → Option SessionCacheEntry
  pub next_ref : ℕ
  pub is_shutting_down : Bool

-- How the database call of `persistUpdate` ends.
pub data Outcome : Type 0 where
  persisted missing_record failed : Outcome

abbrev pub cache_ttl_ms : ℕ
cache_ttl_ms = 30000

abbrev pub update_threshold_ms : ℕ
update_threshold_ms = 30000

-- `===` on an identifier that may be undefined.
abbrev pub same_instance : Option String → Option String → Bool
same_instance none none = true
same_instance none (some b) = false
same_instance (some a) none = false
same_instance (some a) (some b) = a == b

abbrev pub is_present : Option SessionPendingUpdate → Bool
is_present none = false
is_present (some u) = true

-- `Math.abs` of a difference.
abbrev pub distance : ℕ → ℕ → ℕ
distance a b = (a - b) + (b - a)

-- `Math.max` with the timestamp of an update of the same instance.
abbrev pub max_matching : ℕ → Option SessionPendingUpdate → Option String → ℕ
max_matching mark none instance_id = mark
max_matching mark (some u) instance_id =
    if same_instance u.session_instance_id instance_id then max mark u.timestamp else mark

abbrev pub activity_watermark : SessionCacheEntry → Option String → ℕ
activity_watermark e instance_id =
    max_matching (max_matching e.last_update_sent e.in_flight_update instance_id) e.pending_update
      instance_id

abbrev pub supersedes : ℕ → Option SessionPendingUpdate → Bool
supersedes timestamp none = true
supersedes timestamp (some u) = leb u.timestamp timestamp

abbrev pub accepts : SessionCacheEntry → ℕ → Option String → Bool
accepts e timestamp instance_id =
    ltb update_threshold_ms (distance timestamp (activity_watermark e instance_id))
    && supersedes timestamp e.pending_update

abbrev pub put : ActivityCache → String → SessionCacheEntry → ActivityCache
put cache id e = record cache { entry = update cache.entry id (some e) }

unfoldable pub queue_session_update :
    ActivityCache → String → ℕ → Option String → ActivityCache × Bool
queue_session_update cache id timestamp instance_id = elim (cache.entry id) [
  | none ↦ (cache, false)
  | some e ↦
      if cache.is_shutting_down
      then (cache, false)
      else if accepts e timestamp instance_id
      then (
        put cache id (record e {
          pending_update =
              some (record { timestamp = timestamp; session_instance_id = instance_id });
        }),
        true,
      )
      else (cache, false)
]

-- `isSessionValid` before it asks the database.
unfoldable pub is_session_cached : ActivityCache → ℕ → String → String → Bool
is_session_cached cache now id user_id = elim (cache.entry id) [
  | none ↦ false
  | some e ↦ ltb now e.valid_until && e.cached_user_id == user_id
]

-- `Map.set` adds a key that is new at the end.
abbrev with_key : ActivityCache → String → List String
with_key cache id = elim (cache.entry id) [ none ↦ cache.keys ++ (id ∷ []) | some e ↦ cache.keys ]

abbrev remember_new : ActivityCache → ℕ → String → String → ℕ → ActivityCache
remember_new cache now id user_id last_active_at = record cache {
  keys = with_key cache id;
  entry = update cache.entry id (
      some (record {
        ref = cache.next_ref;
        valid_until = now + cache_ttl_ms;
        last_update_sent = last_active_at;
        pending_update = none;
        in_flight_update = none;
        cached_user_id = user_id;
      }));
  next_ref = suc cache.next_ref;
}

-- The rest of `isSessionValid`, once the session was found.
unfoldable pub remember_session : ActivityCache → ℕ → String → String → ℕ → ActivityCache
remember_session cache now id user_id last_active_at = elim (cache.entry id) [
  | none ↦ remember_new cache now id user_id last_active_at
  | some e ↦
      if e.cached_user_id == user_id
      then put cache id (record e {
        valid_until = now + cache_ttl_ms;
        last_update_sent = max e.last_update_sent last_active_at;
      })
      else remember_new cache now id user_id last_active_at
]

-- The loop of `takePendingUpdates`, with the updates pushed so far.
unfoldable pub take_from :
    ActivityCache
    → List String
    → List SessionDatabaseUpdate
    → ActivityCache × List SessionDatabaseUpdate
take_from cache [] updates = (cache, updates)
take_from cache (id ∷ ids) updates = elim (cache.entry id) [
  | none ↦ take_from cache ids updates
  | some e ↦ elim e.pending_update [
    | none ↦ take_from cache ids updates
    | some u ↦ elim e.in_flight_update [
      | some flying ↦ take_from cache ids updates
      | none ↦
          take_from (put cache id (record e { pending_update = none; in_flight_update = some u }))
            ids (updates ++ (record { update_id = id; entry_ref = e.ref; content = u } ∷ []))
    ]
  ]
]

abbrev pub take_pending_updates : ActivityCache → ActivityCache × List SessionDatabaseUpdate
take_pending_updates cache = take_from cache cache.keys []

-- Whether the pending update is as good as the one that was just written.
abbrev is_covered : Option SessionPendingUpdate → SessionPendingUpdate → ℕ → Bool
is_covered none written sent = false
is_covered (some u) written sent =
    same_instance u.session_instance_id written.session_instance_id
    && leb (distance u.timestamp sent) update_threshold_ms

abbrev pub note_persisted : SessionCacheEntry → SessionPendingUpdate → SessionCacheEntry
note_persisted e written =
    let sent = max e.last_update_sent written.timestamp in
    record e {
      last_update_sent = sent;
      in_flight_update = none;
      pending_update = if is_covered e.pending_update written sent then none else e.pending_update;
    }

-- `requeueFailedUpdate` on the entry.
abbrev pub requeue_failed : SessionCacheEntry → SessionPendingUpdate → SessionCacheEntry
requeue_failed e u = record e {
  in_flight_update = none;
  pending_update = if is_present e.pending_update then e.pending_update else some u;
}

abbrev pub without : String → List String → List String
without id [] = []
without id (k ∷ ks) = if k == id then without id ks else k ∷ without id ks

-- `sessionCache.delete`.
abbrev pub delete : ActivityCache → String → ActivityCache
delete cache id = record cache { keys = without id cache.keys; entry = update cache.entry id none }

-- What an outcome does to the entry that the update came from.
abbrev pub settle :
    ActivityCache → String → SessionCacheEntry → SessionPendingUpdate → Outcome → ActivityCache
settle cache id e u persisted = put cache id (note_persisted e u)
settle cache id e u missing_record = delete cache id
settle cache id e u failed = put cache id (requeue_failed e u)

-- `persistUpdate` after the database call, with `discardMissingUpdate` and `requeueFailedUpdate`.
unfoldable pub persist_update : ActivityCache → SessionDatabaseUpdate → Outcome → ActivityCache
persist_update cache u outcome = elim (cache.entry u.update_id) [
  | none ↦ cache
  | some e ↦
      if nat_eq e.ref u.entry_ref then settle cache u.update_id e u.content outcome else cache
]

abbrev pub is_idle : SessionCacheEntry → ℕ → Bool
is_idle e now =
    ltb e.valid_until now
    && not (is_present e.pending_update)
    && not (is_present e.in_flight_update)

-- The loop of `cleanup`.
unfoldable pub cleanup_from : ActivityCache → ℕ → List String → ActivityCache
cleanup_from cache now [] = cache
cleanup_from cache now (id ∷ ids) = elim (cache.entry id) [
  | none ↦ cleanup_from cache now ids
  | some e ↦ elim (is_idle e now) [
    | true ↦ cleanup_from (delete cache id) now ids
    | false ↦ cleanup_from cache now ids
  ]
]

abbrev pub cleanup : ActivityCache → ℕ → ActivityCache
cleanup cache now = cleanup_from cache now cache.keys
