-- ===== src/ActivityCache/Tracking.antt =====
-- Runs of the activity cache's operations in any order, with the updates that were taken and are not
-- settled yet.
use happy_server.Common.{
  ℕ, ◌≤◌, ◌<◌, String, Bool, true, false, ◌&&◌, Option, none, some, List, [], ◌∷◌, ◌++◌, arith, ◌≡◌,
  refl, ap, nat_eq, ◌==◌, eq_iff, eq_refl, if◌then◌else◌, Option-cases, Bool-cases, inl, inr,
}
use happy_server.ActivityCache.{
  SessionPendingUpdate, SessionCacheEntry, SessionDatabaseUpdate, ActivityCache, Outcome, persisted,
  missing_record, failed, queue_session_update, remember_session, take_from, take_pending_updates,
  persist_update, cleanup_from, cleanup, settle, put, delete, is_idle,
}

-- Whether an update was taken from the given entry.
abbrev is_from : String → ℕ → SessionDatabaseUpdate → Bool
is_from id ref u = u.update_id == id && nat_eq u.entry_ref ref

abbrev pub find_update : String → ℕ → List SessionDatabaseUpdate → Option SessionPendingUpdate
find_update id ref [] = none
find_update id ref (u ∷ us) = if is_from id ref u then some u.content else find_update id ref us

abbrev pub drop_update : String → ℕ → List SessionDatabaseUpdate → List SessionDatabaseUpdate
drop_update id ref [] = []
drop_update id ref (u ∷ us) =
    let rest = drop_update id ref us in if is_from id ref u then rest else u ∷ rest

-- The cache, and the updates whose database call has not returned.
abbrev pub Running : Type 0
Running = ActivityCache × List SessionDatabaseUpdate

pub data CacheStep : Type 0 where
  queues : String → ℕ → Option String → CacheStep
  validates : ℕ → String → String → ℕ → CacheStep
  takes : CacheStep
  settles : String → ℕ → Outcome → CacheStep
  cleans : ℕ → CacheStep
  shuts_down : CacheStep

abbrev pub settle_found :
    ActivityCache
    → List SessionDatabaseUpdate
    → String
    → ℕ
    → Outcome
    → Option SessionPendingUpdate
    → Running
settle_found cache out id ref outcome none = (cache, out)
settle_found cache out id ref outcome (some u) = (
  persist_update cache (record { update_id = id; entry_ref = ref; content = u }) outcome,
  drop_update id ref out,
)

abbrev pub cache_step : Running → CacheStep → Running
cache_step (cache, out) (queues id t i) = ((queue_session_update cache id t i).0, out)
cache_step (cache, out) (validates now id user t) = (remember_session cache now id user t, out)
cache_step (cache, out) takes =
    ((take_pending_updates cache).0, out ++ (take_pending_updates cache).1)
cache_step (cache, out) (settles id ref outcome) =
    settle_found cache out id ref outcome (find_update id ref out)
cache_step (cache, out) (cleans now) = (cleanup cache now, out)
cache_step (cache, out) shuts_down = (record cache { is_shutting_down = true }, out)

unfoldable pub cache_run : Running → List CacheStep → Running
cache_run s [] = s
cache_run s (c ∷ cs) = cache_run (cache_step s c) cs

-- What an entry has in flight is what is outstanding for it.
pub record IsTracked (cache : ActivityCache) (out : List SessionDatabaseUpdate) : Type 0 where
  pub in_flight :
      (id : String) (e : SessionCacheEntry)
      → cache.entry id ≡ some e
      → e.in_flight_update ≡ find_update id e.ref out
  pub numbered :
      (id : String) (e : SessionCacheEntry) → cache.entry id ≡ some e → e.ref < cache.next_ref
  pub fresh : (id : String) (ref : ℕ) → cache.next_ref ≤ ref → find_update id ref out ≡ none

find-dropped :
    (id : String) (ref : ℕ) (us : List SessionDatabaseUpdate)
    → find_update id ref (drop_update id ref us) ≡ none
find-dropped id ref [] = refl
find-dropped id ref (u ∷ us) = ground (arith, find-dropped id ref us)

find-drop-other :
    (id k : String) (ref r : ℕ) (us : List SessionDatabaseUpdate)
    → (id == k && nat_eq ref r) ≡ false
    → find_update k r (drop_update id ref us) ≡ find_update k r us
find-drop-other id k ref r [] apart = refl
find-drop-other id k ref r (u ∷ us) apart = ground (
  arith,
  eq_iff id k,
  eq_iff u.update_id id,
  eq_iff u.update_id k,
  find-drop-other id k ref r us apart,
)

find-append :
    (k : String) (r : ℕ) (us : List SessionDatabaseUpdate) (u : SessionDatabaseUpdate)
    → find_update k r (us ++ (u ∷ []))
      ≡ (elim (find_update k r us) [ some v ↦ some v | none ↦ find_update k r (u ∷ []) ])
find-append k r [] u = refl
find-append k r (v ∷ us) u = ground (arith, find-append k r us u)

queue-IsTracked :
    (cache : ActivityCache) (out : List SessionDatabaseUpdate) (id : String) (t : ℕ)
    (i : Option String)
    → IsTracked cache out
    → IsTracked (queue_session_update cache id t i).0 out
unfolding queue_session_update
queue-IsTracked cache out id t i h = record {
  in_flight = λ k e there. elim (Option-cases (cache.entry id)) [
    | inl absent ↦ ground (arith, h.in_flight k e)
    | inr (old, held) ↦ ground (arith, eq_iff id k, h.in_flight k e, h.in_flight id old held)
  ];
  numbered = λ k e there. elim (Option-cases (cache.entry id)) [
    | inl absent ↦ ground (arith, h.numbered k e)
    | inr (old, held) ↦ ground (arith, eq_iff id k, h.numbered k e, h.numbered id old held)
  ];
  fresh = λ k r later. ground (arith, h.fresh k r);
}

remember-IsTracked :
    (cache : ActivityCache) (out : List SessionDatabaseUpdate) (now : ℕ) (id user : String) (t : ℕ)
    → IsTracked cache out
    → IsTracked (remember_session cache now id user t) out
unfolding remember_session
remember-IsTracked cache out now id user t h = record {
  in_flight = λ k e there. elim (Option-cases (cache.entry id)) [
    | inl absent ↦ ground (arith, eq_iff id k, h.in_flight k e, h.fresh k cache.next_ref)
    | inr (old, held) ↦
        ground
          (arith, eq_iff id k, h.in_flight k e, h.in_flight id old held, h.fresh k cache.next_ref)
  ];
  numbered = λ k e there. elim (Option-cases (cache.entry id)) [
    | inl absent ↦ ground (arith, eq_iff id k, h.numbered k e)
    | inr (old, held) ↦ ground (arith, eq_iff id k, h.numbered k e, h.numbered id old held)
  ];
  fresh = λ k r later. elim (Option-cases (cache.entry id)) [
    | inl absent ↦ ground (arith, h.fresh k r)
    | inr (old, held) ↦ ground (arith, h.fresh k r)
  ];
}

find-drop_none :
    (id k : String) (ref r : ℕ) (us : List SessionDatabaseUpdate)
    → find_update k r us ≡ none
    → find_update k r (drop_update id ref us) ≡ none
find-drop_none id k ref r [] h = refl
find-drop_none id k ref r (u ∷ us) h = ground (arith, find-drop_none id k ref r us)

-- An outstanding update whose entry is gone may be dropped.
drop-IsTracked :
    (cache : ActivityCache) (out : List SessionDatabaseUpdate) (id : String) (ref : ℕ)
    → ((e : SessionCacheEntry) → cache.entry id ≡ some e → nat_eq e.ref ref ≡ false)
    → IsTracked cache out
    → IsTracked cache (drop_update id ref out)
drop-IsTracked cache out id ref gone h = record {
  in_flight = λ k e there.
      ground (arith, eq_iff id k, gone e, h.in_flight k e, find-drop-other id k ref e.ref out);
  numbered = h.numbered;
  fresh = λ k r later. find-drop_none id k ref r out (h.fresh k r later);
}

-- An outcome that is settled on the entry of the update.
settle-IsTracked :
    (cache : ActivityCache) (out : List SessionDatabaseUpdate) (id : String)
    (old : SessionCacheEntry) (u : SessionPendingUpdate) (outcome : Outcome)
    → cache.entry id ≡ some old
    → IsTracked cache out
    → IsTracked (settle cache id old u outcome) (drop_update id old.ref out)
settle-IsTracked cache out id old u persisted held h = record {
  in_flight = λ k e there. ground (
    arith,
    eq_iff id k,
    h.in_flight k e,
    find-dropped id old.ref out,
    find-drop-other id k old.ref e.ref out,
  );
  numbered = λ k e there. ground (arith, eq_iff id k, h.numbered k e, h.numbered id old held);
  fresh = λ k r later. find-drop_none id k old.ref r out (h.fresh k r later);
}
settle-IsTracked cache out id old u missing_record held h = record {
  in_flight = λ k e there.
      ground (arith, eq_iff id k, h.in_flight k e, find-drop-other id k old.ref e.ref out);
  numbered = λ k e there. ground (arith, eq_iff id k, h.numbered k e);
  fresh = λ k r later. find-drop_none id k old.ref r out (h.fresh k r later);
}
settle-IsTracked cache out id old u failed held h = record {
  in_flight = λ k e there. ground (
    arith,
    eq_iff id k,
    h.in_flight k e,
    find-dropped id old.ref out,
    find-drop-other id k old.ref e.ref out,
  );
  numbered = λ k e there. ground (arith, eq_iff id k, h.numbered k e, h.numbered id old held);
  fresh = λ k r later. find-drop_none id k old.ref r out (h.fresh k r later);
}

persist-IsTracked :
    (cache : ActivityCache) (out : List SessionDatabaseUpdate) (id : String) (ref : ℕ)
    (u : SessionPendingUpdate) (outcome : Outcome)
    → IsTracked cache out
    → IsTracked
        (persist_update cache (record { update_id = id; entry_ref = ref; content = u }) outcome)
        (drop_update id ref out)
unfolding persist_update
persist-IsTracked cache out id ref u outcome h = elim (Option-cases (cache.entry id)) [
  | inl absent ↦
      rw (absent, persist_update) (drop-IsTracked cache out id ref (λ e there. ground arith) h)
  | inr (old, held) ↦ elim (Bool-cases (nat_eq old.ref ref)) [
    | inl same ↦
        let same_ref : old.ref ≡ ref = ground arith in
        rw (held, same, ← same_ref, persist_update)
          (settle-IsTracked cache out id old u outcome held h)
    | inr other ↦
        rw (held, other, persist_update)
          (drop-IsTracked cache out id ref (λ e there. ground arith) h)
  ]
]

-- One taken update moves from pending to in flight, and is outstanding.
take_one-IsTracked :
    (cache : ActivityCache) (out : List SessionDatabaseUpdate) (id : String) (e : SessionCacheEntry)
    (u : SessionPendingUpdate)
    → cache.entry id ≡ some e
    → e.in_flight_update ≡ none
    → IsTracked cache out
    → IsTracked
        (put cache id (record e { pending_update = none; in_flight_update = some u }))
        (out ++ (record { update_id = id; entry_ref = e.ref; content = u } ∷ []))
take_one-IsTracked cache out id e u held idle h =
    let taken : SessionDatabaseUpdate = record { update_id = id; entry_ref = e.ref; content = u } in
    record {
      in_flight = λ k x there. ground (
        arith,
        eq_refl id,
        eq_iff id k,
        h.in_flight k x,
        h.in_flight id e held,
        find-append k x.ref out taken,
      );
      numbered = λ k x there. ground (arith, eq_iff id k, h.numbered k x, h.numbered id e held);
      fresh = λ k r later.
          ground (arith, h.fresh k r later, h.numbered id e held, find-append k r out taken);
    }

append_assoc : (a b c : List SessionDatabaseUpdate) → (a ++ b) ++ c ≡ a ++ (b ++ c)
append_assoc [] b c = refl
append_assoc (x ∷ a) b c = ap (λ l. x ∷ l) (append_assoc a b c)

take-IsTracked :
    (cache : ActivityCache) (out : List SessionDatabaseUpdate) (ids : List String)
    (updates : List SessionDatabaseUpdate)
    → IsTracked cache (out ++ updates)
    → IsTracked (take_from cache ids updates).0 (out ++ (take_from cache ids updates).1)
unfolding take_from
take-IsTracked cache out [] updates h = h
take-IsTracked cache out (id ∷ ids) updates h = elim (Option-cases (cache.entry id)) [
  | inl absent ↦ rw (absent, take_from) (take-IsTracked cache out ids updates h)
  | inr (e, held) ↦ elim (Option-cases e.pending_update) [
    | inl quiet ↦ rw (held, quiet, take_from) (take-IsTracked cache out ids updates h)
    | inr (u, due) ↦ elim (Option-cases e.in_flight_update) [
      | inr (v, flying) ↦ rw (held, due, flying, take_from) (take-IsTracked cache out ids updates h)
      | inl idle ↦
          let taken : SessionDatabaseUpdate = record {
            update_id = id;
            entry_ref = e.ref;
            content = u;
          } in
          let moved : ActivityCache =
            put cache id (record e { pending_update = none; in_flight_update = some u }) in
          rw (held, due, idle, take_from)
            (take-IsTracked moved out ids (updates ++ (taken ∷ [])) (
              rw (← append_assoc out updates (taken ∷ []))
                (take_one-IsTracked cache (out ++ updates) id e u held idle h)))
    ]
  ]
]

clean-IsTracked :
    (cache : ActivityCache) (out : List SessionDatabaseUpdate) (now : ℕ) (ids : List String)
    → IsTracked cache out
    → IsTracked (cleanup_from cache now ids) out
unfolding cleanup_from
clean-IsTracked cache out now [] h = h
clean-IsTracked cache out now (id ∷ ids) h = elim (Option-cases (cache.entry id)) [
  | inl absent ↦ rw (absent, cleanup_from) (clean-IsTracked cache out now ids h)
  | inr (e, held) ↦ elim (Bool-cases (is_idle e now)) [
    | inr busy ↦ rw (held, busy, cleanup_from) (clean-IsTracked cache out now ids h)
    | inl idle ↦
        rw (held, idle, cleanup_from)
          (clean-IsTracked (delete cache id) out now ids (record {
            in_flight = λ k x there. ground (arith, eq_iff id k, h.in_flight k x);
            numbered = λ k x there. ground (arith, eq_iff id k, h.numbered k x);
            fresh = h.fresh;
          }))
  ]
]

settle_found-IsTracked :
    (cache : ActivityCache) (out : List SessionDatabaseUpdate) (id : String) (ref : ℕ)
    (outcome : Outcome) (found : Option SessionPendingUpdate)
    → IsTracked cache out
    → IsTracked
        (settle_found cache out id ref outcome found).0
        (settle_found cache out id ref outcome found).1
settle_found-IsTracked cache out id ref outcome none h = h
settle_found-IsTracked cache out id ref outcome (some u) h =
    persist-IsTracked cache out id ref u outcome h

append_nil : (a : List SessionDatabaseUpdate) → a ++ [] ≡ a
append_nil [] = refl
append_nil (x ∷ a) = ap (λ l. x ∷ l) (append_nil a)

pub step-IsTracked :
    (cache : ActivityCache) (out : List SessionDatabaseUpdate) (c : CacheStep)
    → IsTracked cache out
    → IsTracked (cache_step (cache, out) c).0 (cache_step (cache, out) c).1
step-IsTracked cache out (queues id t i) h = queue-IsTracked cache out id t i h
step-IsTracked cache out (validates now id user t) h = remember-IsTracked cache out now id user t h
step-IsTracked cache out takes h = take-IsTracked cache out cache.keys [] (rw (append_nil out) h)
step-IsTracked cache out (settles id ref outcome) h =
    settle_found-IsTracked cache out id ref outcome (find_update id ref out) h
step-IsTracked cache out (cleans now) h = clean-IsTracked cache out now cache.keys h
step-IsTracked cache out shuts_down h = record {
  in_flight = h.in_flight;
  numbered = h.numbered;
  fresh = h.fresh;
}

-- In any order of queueing, validating, taking, settling, cleaning up and shutting down, an entry of
-- the cache has in flight exactly the update that was taken from it and is not settled: it has none
-- in flight once its update is settled, whatever the outcome, and no entry object takes the number
-- of another that an update still names.
pub cache_run-IsTracked :
    (cache : ActivityCache) (out : List SessionDatabaseUpdate) (cs : List CacheStep)
    → IsTracked cache out
    → IsTracked (cache_run (cache, out) cs).0 (cache_run (cache, out) cs).1
unfolding cache_run
cache_run-IsTracked cache out [] h = h
cache_run-IsTracked cache out (c ∷ cs) h =
    cache_run-IsTracked (cache_step (cache, out) c).0 (cache_step (cache, out) c).1 cs
      (step-IsTracked cache out c h)
