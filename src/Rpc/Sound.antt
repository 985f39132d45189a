-- ===== src/Rpc/Sound.antt =====
-- The refresh timer and the limit of one socket's registrations, in every order of operations.
use happy_server.Common.{
  ℕ, ◌≤◌, String, Bool, true, false, ◌||◌, Option, none, some, List, [], ◌∷◌, arith, ◌≡◌, refl,
  Bool-cases, inl, inr, if◌then◌else◌,
}
use happy_server.Rpc.{Platform, RpcRegistration}
use happy_server.Rpc.Lifecycle.{
  Lifecycle, World, Attempt, Fenced, completed, busy, not_owner, throws, not_run, in_registry,
  after_operation, attempt_install, failed_install, marks, run_register, run_unregister,
  run_refresh, run_close, register_loop, install, settle_round, settle_refresh, settle_unregister,
  Step, drop_cancelled, stopped, with_registrations, stop_refresh_timer_if_idle,
}
use happy_server.Rpc.MethodMap.{size, map_get, map_set, map_delete, is_empty, Map}
use happy_server.Rpc.Sizes.{
  size-map_delete, size-drop_lost, is_empty-map_set, is_empty-map_get, map_get-map_set,
}
use happy_server.Rpc.Lifetime.{
  Operation, marked, runs_register, runs_unregister, runs_refresh, runs_close, step, run,
}
use happy_server.Rpc.Room.{
  IsSound, Room, mark-IsSound, marks-IsSound, marks-Room, size-map_set-Room,
  ensure_refresh_timer-IsSound, ensure_refresh_timer-Room,
}

drop_cancelled-IsSound :
    (l : Lifecycle) (method : String) → IsSound l → IsSound (drop_cancelled l method)
drop_cancelled-IsSound l method sound = record { limited = sound.limited; timed = sound.timed }

either-IsSound :
    (b : Bool) (p q : Lifecycle × World)
    → IsSound p.0
    → (b ≡ false → IsSound q.0)
    → IsSound (if b then p else q).0
either-IsSound true p q first second = first
either-IsSound false p q first second = second refl

either_step-IsSound :
    (b : Bool) (p q : Step)
    → IsSound p.0
    → (b ≡ false → IsSound q.0)
    → IsSound (if b then p else q).0
either_step-IsSound true p q first second = first
either_step-IsSound false p q first second = second refl

module _ (js : Platform) where
  install-IsSound :
      (l : Lifecycle) (w : World) (method : String) (now observed : ℕ) (uuid : String)
      → IsSound l
      → Room l method
      → IsSound (install js l w method now observed uuid).0
  unfolding install
  install-IsSound l w method now observed uuid sound room =
      ensure_refresh_timer-IsSound (with_registrations l (map_set l.registrations method _))
        (size-map_set-Room l method _ sound room) (is_empty-map_set l.registrations method _)
        (λ runs. ground (arith, sound.timed))

  install-Room :
      (l : Lifecycle) (w : World) (method : String) (now observed : ℕ) (uuid : String)
      → Room (install js l w method now observed uuid).0 method
  unfolding install
  install-Room l w method now observed uuid =
      ensure_refresh_timer-Room (with_registrations l (map_set l.registrations method _)) method _
        (map_get-map_set l.registrations method _)

  attempt_install-IsSound :
      (l : Lifecycle) (w : World) (method : String) (f : Fenced)
      → IsSound l
      → Room l method
      → IsSound (attempt_install js l w method f).0
        × Room (attempt_install js l w method f).0 method
  unfolding attempt_install failed_install
  attempt_install-IsSound l w method (completed now observed uuid) sound room = (
    install-IsSound l w method now observed uuid sound room,
    install-Room l w method now observed uuid,
  )
  attempt_install-IsSound l w method busy sound room = (sound, room)
  attempt_install-IsSound l w method not_owner sound room = (sound, room)
  attempt_install-IsSound l w method (throws not_run) sound room = (sound, room)
  attempt_install-IsSound l w method (throws (in_registry now observed uuid stored)) sound room =
      (sound, room)
  attempt_install-IsSound l w method (throws (after_operation now observed uuid)) sound room = (
    install-IsSound l w method now observed uuid sound room,
    install-Room l w method now observed uuid,
  )

  settle_round-IsSound :
      (l : Lifecycle) (w : World) (method : String) (rest : Step) (f : Fenced)
      → IsSound l
      → IsSound rest.0
      → IsSound (settle_round l w method rest f).0
  unfolding settle_round
  settle_round-IsSound l w method rest (completed now observed uuid) sound later = sound
  settle_round-IsSound l w method rest busy sound later = later
  settle_round-IsSound l w method rest not_owner sound later = drop_cancelled-IsSound l method sound
  settle_round-IsSound l w method rest (throws reached) sound later =
      either_step-IsSound (stopped l method) _ _ (drop_cancelled-IsSound l method sound)
        (λ h. later)

  register_loop-IsSound :
      (l : Lifecycle) (w : World) (method : String) (attempts : List Attempt)
      → IsSound l
      → Room l method
      → IsSound (register_loop js l w method attempts).0
  unfolding register_loop
  register_loop-IsSound l w method [] sound room =
      either_step-IsSound (stopped l method) _ _ (drop_cancelled-IsSound l method sound)
        (λ h. sound)
  register_loop-IsSound l w method (a ∷ attempts) sound room =
      let (l', w') = attempt_install js (marks l a.during) w method a.fenced in
      let (sound', room') =
        attempt_install-IsSound (marks l a.during) w method a.fenced
          (marks-IsSound l a.during sound) (marks-Room l a.during method room) in
      let called = marks l' a.ending in
      let called-IsSound = marks-IsSound l' a.ending sound' in
      let called-Room = marks-Room l' a.ending method room' in
      either_step-IsSound (stopped l method) _ _ (drop_cancelled-IsSound l method sound) (λ h.
        settle_round-IsSound called w' method _ a.fenced called-IsSound (
          register_loop-IsSound (marks called a.waiting) w' method attempts
            (marks-IsSound called a.waiting called-IsSound)
            (marks-Room called a.waiting method called-Room)))

  stop_if_idle-IsSound :
      (l : Lifecycle) (m : Map)
      → IsSound l
      → is_empty l.registrations ≡ false
      → size m ≤ size l.registrations
      → IsSound (stop_refresh_timer_if_idle (with_registrations l m))
  unfolding stop_refresh_timer_if_idle
  stop_if_idle-IsSound l [] sound filled fewer = record {
    limited = ground arith;
    timed = ground arith;
  }
  stop_if_idle-IsSound l (e ∷ m) sound filled fewer = record {
    limited = ground (arith, sound.limited);
    timed = ground (arith, sound.timed);
  }

  run_register-IsSound :
      (l : Lifecycle) (w : World) (method : String) (attempts : List Attempt)
      → IsSound l
      → IsSound (run_register js l w method attempts).0
  unfolding run_register
  run_register-IsSound l w method attempts sound =
      either_step-IsSound l.closing _ _ sound (λ open_yet.
        either_step-IsSound _ _ _ sound (register_loop-IsSound l w method attempts sound))

  settle_unregister-IsSound :
      (l : Lifecycle) (w : World) (method : String) (now : Option ℕ) (held : Option RpcRegistration)
      → IsSound l
      → map_get l.registrations method ≡ held
      → IsSound (settle_unregister js l w method now held).0
  unfolding settle_unregister
  settle_unregister-IsSound l w method now none sound there = drop_cancelled-IsSound l method sound
  settle_unregister-IsSound l w method now (some r) sound there = drop_cancelled-IsSound _ method (
      stop_if_idle-IsSound l (map_delete l.registrations method) sound
        (is_empty-map_get l.registrations method r there) (size-map_delete l.registrations method))

  settle_refresh-IsSound :
      (l : Lifecycle) (w : World) (f : Fenced)
      → IsSound l
      → is_empty l.registrations ≡ false
      → IsSound (settle_refresh js l w f).0
  unfolding settle_refresh
  settle_refresh-IsSound l w busy sound filled =
      stop_if_idle-IsSound l l.registrations sound filled (ground arith)
  settle_refresh-IsSound l w (throws reached) sound filled =
      stop_if_idle-IsSound l l.registrations sound filled (ground arith)
  settle_refresh-IsSound l w not_owner sound filled =
      stop_if_idle-IsSound l _ sound filled (size-drop_lost l.registrations l.registrations _)
  settle_refresh-IsSound l w (completed now observed uuid) sound filled =
      stop_if_idle-IsSound l _ sound filled (size-drop_lost l.registrations l.registrations _)

  step-IsSound : (l : Lifecycle) (w : World) (o : Operation) → IsSound l → IsSound (step js l w o).0
  unfolding step run_unregister run_refresh run_close
  step-IsSound l w (marked m) sound = mark-IsSound l m sound
  step-IsSound l w (runs_register method attempts) sound =
      run_register-IsSound l w method attempts sound
  step-IsSound l w (runs_unregister method now) sound =
      settle_unregister-IsSound l w method now _ sound refl
  step-IsSound l w (runs_refresh f) sound =
      either-IsSound (l.closing || is_empty l.registrations) _ _ sound
        (λ filled. settle_refresh-IsSound l w f sound (ground arith))
  step-IsSound l w (runs_close now) sound = elim (Bool-cases l.closing) [
    | inl closing ↦
        simp (closing) (record { limited = ground arith; timed = ground (arith, sound.timed) })
    | inr open_yet ↦ simp (open_yet) sound
  ]

  -- In every order of the socket's registrations, removals, refreshes and its close, whatever Redis and
  -- the owner's lock answer, a transaction included that throws once its operation has run: the refresh
  -- timer runs exactly while the lifecycle is open and holds a registration, and it never holds more
  -- registrations than its limit.
  pub run-IsSound :
      (l : Lifecycle) (w : World) (os : List Operation) → IsSound l → IsSound (run js l w os).0
  unfolding run
  run-IsSound l w [] sound = sound
  run-IsSound l w (o ∷ os) sound =
      run-IsSound (step js l w o).0 (step js l w o).1 os (step-IsSound l w o sound)
