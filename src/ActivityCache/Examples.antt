-- ===== src/ActivityCache/Examples.antt =====
-- The theorems on the activity cache at one session and one machine, and tests.
use happy_server.Common.{false, none, some, List, [], ◌∷◌, arith, ◌≡◌, refl}
use happy_server.ActivityCache.{
  SessionCacheEntry, SessionDatabaseUpdate, ActivityCache, failed, queue_session_update,
  remember_session, take_from, persist_update, cleanup_from,
}
use happy_server.ActivityCache.Tracking.{
  CacheStep, queues, validates, takes, settles, cleans, cache_run, IsTracked, cache_run-IsTracked,
}
use happy_server.ActivityCache.Work.{Working, work_kept}
use happy_server.ActivityCache.Machines.{
  MachineCache, MachineCacheEntry, queue_machine_update, take_machines_from,
}

abbrev empty_cache : ActivityCache
empty_cache = record { keys = []; entry = λ k. none; next_ref = 0; is_shutting_down = false }

empty_cache-IsTracked : IsTracked empty_cache []
empty_cache-IsTracked = record {
  in_flight = λ k e there. ground arith;
  numbered = λ k e there. ground arith;
  fresh = λ k r later. refl;
}

-- A session is validated, its activity is queued and taken, and the write fails.
abbrev failing : List CacheStep
failing =
    validates 100000 "s" "u" 50000
    ∷ queues "s" 100000 (some "i")
    ∷ takes
    ∷ settles "s" 0 failed
    ∷ cleans 200000
    ∷ []

failing_test :
    (cache_run (empty_cache, []) failing).0.entry "s"
    ≡ some (record {
      ref = 0;
      valid_until = 130000;
      last_update_sent = 50000;
      pending_update = some (record { timestamp = 100000; session_instance_id = some "i" });
      in_flight_update = none;
      cached_user_id = "u";
    })
unfolding cache_run queue_session_update remember_session take_from persist_update cleanup_from
failing_test = refl

cache_run-IsTracked_example :
    IsTracked (cache_run (empty_cache, []) failing).0 (cache_run (empty_cache, []) failing).1
cache_run-IsTracked_example = cache_run-IsTracked empty_cache [] failing empty_cache-IsTracked

abbrev queued_entry : SessionCacheEntry
queued_entry = record {
  ref = 0;
  valid_until = 130000;
  last_update_sent = 50000;
  pending_update = some (record { timestamp = 100000; session_instance_id = some "i" });
  in_flight_update = none;
  cached_user_id = "u";
}

abbrev flying_entry : SessionCacheEntry
flying_entry = record queued_entry {
  pending_update = none;
  in_flight_update = some (record { timestamp = 100000; session_instance_id = some "i" });
}

abbrev idle_entry : SessionCacheEntry
idle_entry = record queued_entry { pending_update = none }

abbrev cache_of : SessionCacheEntry → ActivityCache
cache_of e = record { keys = "s" ∷ []; entry = λ k. some e; next_ref = 1; is_shutting_down = false }

work_kept_example :
    Working
      (cache_run (cache_of queued_entry, []) (takes ∷ settles "s" 0 failed ∷ cleans 200000 ∷ [])).0
      "s"
      0
      "u"
work_kept_example =
    work_kept (cache_of queued_entry) [] "s" 0 "u"
      (takes ∷ settles "s" 0 failed ∷ cleans 200000 ∷ []) refl
      (queued_entry, refl, refl, refl, refl)

abbrev after_queue : ActivityCache
unfolding queue_session_update
after_queue = (queue_session_update (cache_of idle_entry) "s" 100000 (some "i")).0

abbrev flying_update : SessionDatabaseUpdate
flying_update = record {
  update_id = "s";
  entry_ref = 0;
  content = record { timestamp = 100000; session_instance_id = some "i" };
}

abbrev idle_machine : MachineCacheEntry
idle_machine = record {
  machine_ref = 0;
  valid_until = 130000;
  last_update_sent = 50000;
  pending_update = none;
  in_flight_update = none;
  cached_user_id = "u";
}

abbrev machines_of : MachineCacheEntry → MachineCache
machines_of e = record {
  machine_keys = "m" ∷ [];
  machine = λ k. some e;
  next_machine_ref = 1;
  is_shutting_down = false;
}

abbrev machine_queued : MachineCache
unfolding queue_machine_update
machine_queued = (queue_machine_update (machines_of idle_machine) "m" 100000).0

abbrev machine_taken : MachineCache
unfolding queue_machine_update take_machines_from
machine_taken = (take_machines_from machine_queued ("m" ∷ []) []).0
