-- ===== src/Rpc/Room.antt =====
-- When one socket's registrations are sound, and when there is room for another.
use happy_server.Common.{
  ◌≤◌, String, true, false, not, ◌&&◌, ◌||◌, some, List, [], ◌∷◌, arith, ◌≡◌, refl, Option-cases,
  Bool-cases, inl, inr, is_null, leb,
}
use happy_server.Rpc.{RpcRegistration}
use happy_server.Rpc.Lifecycle.{
  Lifecycle, Mark, revives, cancels, closes, mark, marks, ensure_refresh_timer,
}
use happy_server.Rpc.MethodMap.{size, map_get, map_set, is_empty}
use happy_server.Rpc.Sizes.{size-map_set, size-map_set_present}

-- The refresh timer runs exactly while there are registrations and the lifecycle is open, and there
-- are no more registrations than the limit.
pub record IsSound (l : Lifecycle) : Type 0 where
  pub limited : size l.registrations ≤ l.max_registrations
  pub timed : l.timer ≡ (not l.closing && not (is_empty l.registrations))

pub mark-IsSound : (l : Lifecycle) (m : Mark) → IsSound l → IsSound (mark l m)
unfolding mark
mark-IsSound l (revives k) sound = record { limited = sound.limited; timed = sound.timed }
mark-IsSound l (cancels k) sound = record { limited = sound.limited; timed = sound.timed }
mark-IsSound l closes sound = record { limited = sound.limited; timed = refl }

pub marks-IsSound : (l : Lifecycle) (ms : List Mark) → IsSound l → IsSound (marks l ms)
unfolding marks
marks-IsSound l [] sound = sound
marks-IsSound l (m ∷ ms) sound = marks-IsSound (mark l m) ms (mark-IsSound l m sound)

-- The method is registered or there is room for one more.
abbrev pub Room : Lifecycle → String → Type 0
Room l method =
    (is_null (map_get l.registrations method) && leb l.max_registrations (size l.registrations))
    ≡ false

mark-Room : (l : Lifecycle) (m : Mark) (method : String) → Room l method → Room (mark l m) method
unfolding mark
mark-Room l (revives k) method room = room
mark-Room l (cancels k) method room = room
mark-Room l closes method room = room

pub marks-Room :
    (l : Lifecycle) (ms : List Mark) (method : String) → Room l method → Room (marks l ms) method
unfolding marks
marks-Room l [] method room = room
marks-Room l (m ∷ ms) method room = marks-Room (mark l m) ms method (mark-Room l m method room)

pub size-map_set-Room :
    (l : Lifecycle) (method : String) (r : RpcRegistration)
    → IsSound l
    → Room l method
    → size (map_set l.registrations method r) ≤ l.max_registrations
size-map_set-Room l method r sound room = elim (Option-cases (map_get l.registrations method)) [
  | inl missing ↦ ground (arith, size-map_set l.registrations method r)
  | inr (q, there) ↦
      ground (arith, sound.limited, size-map_set_present l.registrations method q r there)
]

pub ensure_refresh_timer-IsSound :
    (l : Lifecycle)
    → size l.registrations ≤ l.max_registrations
    → is_empty l.registrations ≡ false
    → (l.timer ≡ true → l.closing ≡ false)
    → IsSound (ensure_refresh_timer l)
unfolding ensure_refresh_timer
ensure_refresh_timer-IsSound l limited filled running = elim (Bool-cases (l.timer || l.closing)) [
  | inl runs ↦ simp (runs) (record { limited = limited; timed = ground arith })
  | inr off ↦ simp (off) (record { limited = limited; timed = ground arith })
]

pub ensure_refresh_timer-Room :
    (l : Lifecycle) (method : String) (r : RpcRegistration)
    → map_get l.registrations method ≡ some r
    → Room (ensure_refresh_timer l) method
unfolding ensure_refresh_timer
ensure_refresh_timer-Room l method r there = elim (Bool-cases (l.timer || l.closing)) [
  | inl runs ↦ simp (runs, there) refl
  | inr off ↦ simp (off, there) refl
]
