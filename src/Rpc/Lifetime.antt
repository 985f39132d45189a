-- ===== src/Rpc/Lifetime.antt =====
-- The operations of one socket's lifecycle in the order in which they run.
use happy_server.Common.{
  true, none, some, arith, ◌≡◌, refl, ap, ◌∙◌, ℕ, String, Option, List, [], ◌∷◌, if◌then◌else◌,
  subst, sym,
}
use happy_server.Rpc.{Platform}
use happy_server.Rpc.Registry.{get, unregister_many}
use happy_server.Rpc.Removal.{unless, wrote, unregister_many_exact}
use happy_server.Rpc.Lifecycle.{
  Lifecycle, World, Mark, revives, cancels, closes, settle_unregister, Attempt, Fenced, mark,
  run_register, run_unregister, run_refresh, run_close,
}
use happy_server.Rpc.MethodMap.{map_get, values}

pub data Operation : Type 0 where
  marked : Mark → Operation
  runs_register : String → List Attempt → Operation
  runs_unregister : String → Option ℕ → Operation
  runs_refresh : Fenced → Operation
  runs_close : Option ℕ → Operation

-- The exclusive part of `close` runs after its mark only.
unfoldable pub step : Platform → Lifecycle → World → Operation → Lifecycle × World
unfolding mark run_register run_unregister run_refresh run_close
step js l w (marked m) = (mark l m, w)
step js l w (runs_register method attempts) =
    let (l', w', result) = run_register js l w method attempts in (l', w')
step js l w (runs_unregister method now) = run_unregister js l w method now
step js l w (runs_refresh fenced) = run_refresh js l w fenced
step js l w (runs_close now) = if l.closing then run_close js l w now else (l, w)

unfoldable pub run : Platform → Lifecycle → World → List Operation → Lifecycle × World
unfolding step
run js l w [] = (l, w)
run js l w (o ∷ os) = let (l', w') = step js l w o in run js l' w' os

abbrev pub IsClosed : Lifecycle → Type 0
IsClosed l = (l.closing ≡ true) × (l.registrations ≡ [])

mark-IsClosed : (l : Lifecycle) (m : Mark) → IsClosed l → IsClosed (mark l m)
unfolding mark
mark-IsClosed l (revives k) closed = closed
mark-IsClosed l (cancels k) closed = closed
mark-IsClosed l closes closed = (refl, closed.1)

step-IsClosed :
    (js : Platform) (l : Lifecycle) (w : World) (o : Operation)
    → IsClosed l
    → IsClosed (step js l w o).0 × ((step js l w o).1 ≡ w)
unfolding step run_register run_unregister settle_unregister run_refresh run_close map_get values
    unregister_many
step-IsClosed js l w (marked m) closed = (mark-IsClosed l m closed, refl)
step-IsClosed js l w (runs_register method attempts) (closing, empty) =
    ((ground arith, ground arith), ground arith)
step-IsClosed js l w (runs_unregister method now) (closing, empty) =
    ((ground arith, ground arith), ground arith)
step-IsClosed js l w (runs_refresh f) (closing, empty) =
    ((ground arith, ground arith), ground arith)
step-IsClosed js l w (runs_close none) (closing, empty) =
    ((ground arith, ground arith), ground arith)
step-IsClosed js l w (runs_close (some now)) (closing, empty) =
    ((ground arith, ground arith), ground arith)

run-IsClosed :
    (js : Platform) (l : Lifecycle) (w : World) (os : List Operation)
    → IsClosed l
    → IsClosed (run js l w os).0 × ((run js l w os).1 ≡ w)
unfolding run
run-IsClosed js l w [] closed = (closed, refl)
run-IsClosed js l w (o ∷ os) closed =
    let (still, same) = step-IsClosed js l w o closed in
    let (after, unchanged) = run-IsClosed js (step js l w o).0 (step js l w o).1 os still in
    (after, unchanged ∙ same)

run_close-clock :
    (js : Platform) (l : Lifecycle) (w : World) (now : Option ℕ)
    → (run_close js l w now).1.clock ≡ w.clock
unfolding run_close
run_close-clock js l w none = refl
run_close-clock js l w (some now) = refl

-- What the close leaves in Redis, where Redis answered it and where it did not.
abbrev pub ClosedRedis : Platform → Lifecycle → World → Option ℕ → World → Type 0
ClosedRedis js l w none w' = w'.redis ≡ w.redis
ClosedRedis js l w (some now) w' =
    (key : String)
    → get w'.redis now key
      ≡ unless (wrote js (values l.registrations) key (get w.redis now key)) (get w.redis now key)

run_close-ClosedRedis :
    (js : Platform) (l : Lifecycle) (w : World) (now : Option ℕ)
    → ClosedRedis js l w now (run_close js l w now).1
unfolding run_close
run_close-ClosedRedis js l w none = refl
run_close-ClosedRedis js l w (some now) =
    unregister_many_exact js w.redis now (values l.registrations)

-- Once a closing lifecycle has run its close, then whatever operations are run on it later: it holds no
-- registration, and Redis and the clock are exactly as the close left them, whether or not Redis
-- answered the close. Where it did, exactly the keys are gone whose values were written by the
-- lifecycle's own registrations; where it did not, Redis is as it was before.
pub close_is_final :
    (js : Platform) (l : Lifecycle) (w : World) (now : Option ℕ) (os : List Operation)
    → l.closing ≡ true
    → let (l', w') = run js l w (runs_close now ∷ os) in
      (l'.registrations ≡ [])
      × (w' ≡ (run_close js l w now).1)
      × (w'.clock ≡ w.clock)
      × ClosedRedis js l w now w'
unfolding run step run_close
close_is_final js l w now os closing =
    let (l', w') = step js l w (runs_close now) in
    let ran : step js l w (runs_close now) ≡ run_close js l w now = simp (closing) refl in
    let (after, same) = run-IsClosed js l' w' os (rw ran (closing, refl)) in
    let closed : (run js l w (runs_close now ∷ os)).1 ≡ (run_close js l w now).1 =
      same ∙ ap (λ (p : Lifecycle × World). p.1) ran in
    (
      after.1,
      closed,
      ap (λ (v : World). v.clock) closed ∙ run_close-clock js l w now,
      subst (ClosedRedis js l w now) (sym closed) (run_close-ClosedRedis js l w now),
    )
