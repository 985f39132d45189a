-- ===== src/ActivityCache/Work.antt =====
-- What keeps an accepted activity update in the cache until it is written.
use happy_server.Common.{
  ℕ, String, Bool, true, false, not, ◌&&◌, ◌||◌, Option, none, some, List, [], ◌∷◌, ◌++◌, arith,
  ◌≡◌, refl, sym, subst, ◌∙◌, max, ◌+◌, nat_eq, ◌==◌, eq_iff, Option-cases, Bool-cases, inl, inr,
}
use happy_server.ActivityCache.{
  SessionPendingUpdate, SessionCacheEntry, SessionDatabaseUpdate, ActivityCache, Outcome, persisted,
  missing_record, failed, queue_session_update, remember_session, take_from, persist_update,
  cleanup_from, put, delete, is_idle, is_present, settle, accepts, note_persisted, requeue_failed,
  cache_ttl_ms,
}
use happy_server.ActivityCache.Tracking.{
  find_update, CacheStep, queues, validates, takes, settles, cleans, shuts_down, cache_step,
  cache_run, settle_found,
}

-- Whether the entry has an update pending or in flight.
abbrev pub has_work : SessionCacheEntry → Bool
has_work e = is_present e.pending_update || is_present e.in_flight_update

-- The steps that may end the work of an entry: its update was written, or its session is gone, or
-- the session was found to be another user's.
abbrev pub may_end : String → ℕ → String → CacheStep → Bool
may_end id ref user (queues k t i) = false
may_end id ref user (validates now k other t) = k == id && not (user == other)
may_end id ref user takes = false
may_end id ref user (settles k r persisted) = k == id && nat_eq r ref
may_end id ref user (settles k r missing_record) = k == id && nat_eq r ref
may_end id ref user (settles k r failed) = false
may_end id ref user (cleans now) = false
may_end id ref user shuts_down = false

abbrev pub none_may_end : String → ℕ → String → List CacheStep → Bool
none_may_end id ref user [] = true
none_may_end id ref user (c ∷ cs) = not (may_end id ref user c) && none_may_end id ref user cs

-- The entry object of the given number and user stands under the key, with work to do.
abbrev pub Working : ActivityCache → String → ℕ → String → Type 0
Working cache id ref user =
    (e : SessionCacheEntry) × (cache.entry id ≡ some e)
    × (e.ref ≡ ref)
    × (e.cached_user_id ≡ user)
    × (has_work e ≡ true)

-- Writing an entry keeps the work, where it is the entry itself with work left.
put-Working :
    (cache : ActivityCache) (id : String) (ref : ℕ) (user k : String) (x x' : SessionCacheEntry)
    → cache.entry k ≡ some x
    → ((k == id) ≡ true
        → has_work x ≡ true
        → (x'.ref ≡ x.ref) × (x'.cached_user_id ≡ x.cached_user_id) × (has_work x' ≡ true))
    → Working cache id ref user
    → Working (put cache k x') id ref user
put-Working cache id ref user k x x' there kept (e, held, numbered, owned, busy) =
    elim (Bool-cases (k == id)) [
      | inr other ↦ (e, ground arith, numbered, owned, busy)
      | inl same ↦
          let x_is : x ≡ e = ground (arith, eq_iff k id) in
          let (ref_kept, user_kept, busy') = kept same (rw x_is busy) in
          (x', ground arith, ref_kept ∙ rw x_is numbered, user_kept ∙ rw x_is owned, busy')
    ]

queue-Working :
    (cache : ActivityCache) (id : String) (ref : ℕ) (user k : String) (t : ℕ) (i : Option String)
    → Working cache id ref user
    → Working (queue_session_update cache k t i).0 id ref user
unfolding queue_session_update
queue-Working cache id ref user k t i h = elim (Option-cases (cache.entry k)) [
  | inl absent ↦ rw (absent, queue_session_update) h
  | inr (x, there) ↦ elim (Bool-cases cache.is_shutting_down) [
    | inl late ↦ rw (there, late, queue_session_update) h
    | inr on ↦ elim (Bool-cases (accepts x t i)) [
      | inr skipped ↦ rw (there, on, skipped, queue_session_update) h
      | inl taken ↦
          rw (there, on, taken, queue_session_update)
            (put-Working cache id ref user k x
              (record x {
                pending_update = some (record { timestamp = t; session_instance_id = i });
              })
              there (λ same busy. (refl, refl, refl)) h)
    ]
  ]
]

remember-Working :
    (cache : ActivityCache) (id : String) (ref : ℕ) (user : String) (now : ℕ) (k other : String)
    (t : ℕ)
    → (k == id && not (user == other)) ≡ false
    → Working cache id ref user
    → Working (remember_session cache now k other t) id ref user
unfolding remember_session
remember-Working cache id ref user now k other t quiet (e, held, numbered, owned, busy) =
    elim (Option-cases (cache.entry k)) [
      | inl absent ↦ (e, ground (arith, eq_iff k id), numbered, owned, busy)
      | inr (x, there) ↦ elim (Bool-cases (k == id)) [
        | inr apart ↦ (e, ground (arith, eq_iff k id), numbered, owned, busy)
        | inl same ↦
            let x_is : x ≡ e = ground (arith, eq_iff k id) in
            let mine : (x.cached_user_id == other) ≡ true = ground (arith, eq_iff user other) in
            rw (there, mine, remember_session)
              (put-Working cache id ref user k x
                (record x {
                  valid_until = now + cache_ttl_ms;
                  last_update_sent = max x.last_update_sent t;
                })
                there (λ same busy. (refl, refl, busy)) (e, held, numbered, owned, busy))
      ]
    ]

settle-Working :
    (cache : ActivityCache) (id : String) (ref : ℕ) (user k : String) (x : SessionCacheEntry)
    (u : SessionPendingUpdate) (outcome : Outcome)
    → cache.entry k ≡ some x
    → may_end id ref user (settles k x.ref outcome) ≡ false
    → Working cache id ref user
    → Working (settle cache k x u outcome) id ref user
settle-Working cache id ref user k x u persisted there quiet h =
    put-Working cache id ref user k x (note_persisted x u) there
      (λ same busy.
        absurd (let (e, held, numbered, owned, busy') = h in ground (arith, eq_iff k id)))
      h
settle-Working cache id ref user k x u missing_record there quiet h =
    let (e, held, numbered, owned, busy) = h in
    (e, ground (arith, eq_iff k id), numbered, owned, busy)
settle-Working cache id ref user k x u failed there quiet h =
    put-Working cache id ref user k x (requeue_failed x u) there
      (λ same busy. (
        refl,
        refl,
        elim (Option-cases x.pending_update) [
          | inl free ↦ ground arith
          | inr (v, due) ↦ ground arith
        ],
      ))
      h

persist-Working :
    (cache : ActivityCache) (id : String) (ref : ℕ) (user k : String) (r : ℕ)
    (u : SessionPendingUpdate) (outcome : Outcome)
    → may_end id ref user (settles k r outcome) ≡ false
    → Working cache id ref user
    → Working
        (persist_update cache (record { update_id = k; entry_ref = r; content = u }) outcome)
        id
        ref
        user
unfolding persist_update
persist-Working cache id ref user k r u outcome quiet h = elim (Option-cases (cache.entry k)) [
  | inl absent ↦ rw (absent, persist_update) h
  | inr (x, there) ↦ elim (Bool-cases (nat_eq x.ref r)) [
    | inr other ↦ rw (there, other, persist_update) h
    | inl same ↦
        let same_ref : x.ref ≡ r = ground arith in
        rw (there, same, persist_update)
          (settle-Working cache id ref user k x u outcome there
            (subst (λ n. may_end id ref user (settles k n outcome) ≡ false) (sym same_ref) quiet) h)
  ]
]

take-Working :
    (cache : ActivityCache) (id : String) (ref : ℕ) (user : String) (ids : List String)
    (updates : List SessionDatabaseUpdate)
    → Working cache id ref user
    → Working (take_from cache ids updates).0 id ref user
unfolding take_from
take-Working cache id ref user [] updates h = h
take-Working cache id ref user (k ∷ ks) updates h = elim (Option-cases (cache.entry k)) [
  | inl absent ↦ rw (absent, take_from) (take-Working cache id ref user ks updates h)
  | inr (x, there) ↦ elim (Option-cases x.pending_update) [
    | inl quiet ↦ rw (there, quiet, take_from) (take-Working cache id ref user ks updates h)
    | inr (u, due) ↦ elim (Option-cases x.in_flight_update) [
      | inr (v, flying) ↦
          rw (there, due, flying, take_from) (take-Working cache id ref user ks updates h)
      | inl idle ↦
          let taken : SessionDatabaseUpdate = record {
            update_id = k;
            entry_ref = x.ref;
            content = u;
          } in
          let moved : SessionCacheEntry = record x {
            pending_update = none;
            in_flight_update = some u;
          } in
          rw (there, due, idle, take_from)
            (take-Working (put cache k moved) id ref user ks (updates ++ (taken ∷ [])) (
              let (e, held, numbered, owned, busy) = h in
              elim (Bool-cases (k == id)) [
                | inl same ↦ (
                  moved,
                  ground arith,
                  ground (arith, eq_iff k id),
                  ground (arith, eq_iff k id),
                  refl,
                )
                | inr other ↦ (e, ground arith, numbered, owned, busy)
              ]))
    ]
  ]
]

clean-Working :
    (cache : ActivityCache) (id : String) (ref : ℕ) (user : String) (now : ℕ) (ids : List String)
    → Working cache id ref user
    → Working (cleanup_from cache now ids) id ref user
unfolding cleanup_from
clean-Working cache id ref user now [] h = h
clean-Working cache id ref user now (k ∷ ks) h = elim (Option-cases (cache.entry k)) [
  | inl absent ↦ rw (absent, cleanup_from) (clean-Working cache id ref user now ks h)
  | inr (x, there) ↦ elim (Bool-cases (is_idle x now)) [
    | inr kept ↦ rw (there, kept, cleanup_from) (clean-Working cache id ref user now ks h)
    | inl idle ↦
        let (e, held, numbered, owned, busy) = h in
        rw (there, idle, cleanup_from)
          (clean-Working (delete cache k) id ref user now ks
            (e, ground (arith, eq_iff k id), numbered, owned, busy))
  ]
]

settle_found-Working :
    (cache : ActivityCache) (out : List SessionDatabaseUpdate) (id : String) (ref : ℕ)
    (user k : String) (r : ℕ) (outcome : Outcome) (found : Option SessionPendingUpdate)
    → may_end id ref user (settles k r outcome) ≡ false
    → Working cache id ref user
    → Working (settle_found cache out k r outcome found).0 id ref user
settle_found-Working cache out id ref user k r outcome none quiet h = h
settle_found-Working cache out id ref user k r outcome (some u) quiet h =
    persist-Working cache id ref user k r u outcome quiet h

step-Working :
    (cache : ActivityCache) (out : List SessionDatabaseUpdate) (id : String) (ref : ℕ)
    (user : String) (c : CacheStep)
    → may_end id ref user c ≡ false
    → Working cache id ref user
    → Working (cache_step (cache, out) c).0 id ref user
step-Working cache out id ref user (queues k t i) quiet h = queue-Working cache id ref user k t i h
step-Working cache out id ref user (validates now k other t) quiet h =
    remember-Working cache id ref user now k other t quiet h
step-Working cache out id ref user takes quiet h = take-Working cache id ref user cache.keys [] h
step-Working cache out id ref user (settles k r outcome) quiet h =
    settle_found-Working cache out id ref user k r outcome (find_update k r out) quiet h
step-Working cache out id ref user (cleans now) quiet h =
    clean-Working cache id ref user now cache.keys h
step-Working cache out id ref user shuts_down quiet h = h

-- An entry with an update pending or in flight stays in the cache with one, through any sequence of
-- queueing, taking, failed writes, clean-ups, outcomes of other entries and shutdown, until its own
-- update is written, its session is gone, or its session is validated for another user.
pub work_kept :
    (cache : ActivityCache) (out : List SessionDatabaseUpdate) (id : String) (ref : ℕ)
    (user : String) (cs : List CacheStep)
    → none_may_end id ref user cs ≡ true
    → Working cache id ref user
    → Working (cache_run (cache, out) cs).0 id ref user
unfolding cache_run
work_kept cache out id ref user [] quiet h = h
work_kept cache out id ref user (c ∷ cs) quiet h =
    work_kept (cache_step (cache, out) c).0 (cache_step (cache, out) c).1 id ref user cs
      (ground arith) (step-Working cache out id ref user c (ground arith) h)
