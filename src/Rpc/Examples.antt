-- ===== src/Rpc/Examples.antt =====
-- The theorems on the registrations of a method "m" of account "a" by sockets "s1" and "s2", and tests.
use mathlib.Core.List.{Memᴰ}
use happy_server.Common.{
  ℕ, String, true, false, ◌&&◌, Option, none, some, List, [], ◌∷◌, arith, ◌≡◌, refl, ap, ◌==◌,
  eq_iff, if◌then◌else◌, subst, Bool-cases, update, inl, inr, ◌⊎◌,
}
use happy_server.Common.Json.{JsonValue, object, get_field}
use happy_server.RuntimeLease.{is_retired, Session, Db, superseded, is_finally_retired}
use happy_server.RuntimeLease.Steps.{renews, run}
use happy_server.Rpc.{
  Platform, RpcRegistrationTarget, RpcRegistration, RuntimeOwner, text_field, target_value,
}
use happy_server.Rpc.Convergence.{IsStrictOrder, InWindow, IsFreshest, redis_loss_converges}
use happy_server.Rpc.Lifecycle.{Lifecycle, World, Attempt, busy, throws, after_operation}
use happy_server.Rpc.MethodMap.{size}
use happy_server.Rpc.Lifetime as Lifetime
use happy_server.Rpc.Lifetime.{runs_register, runs_close, runs_refresh, marked, close_is_final}
use happy_server.Rpc.Room.{IsSound}
use happy_server.Rpc.Sound.{run-IsSound}
use happy_server.Rpc.Progress.{success_at}
use happy_server.EventRouter.{ClientConnection}
use happy_server.Rpc.Calls.{
  CallContext, Emissions, CallReply, never, at_the_end, outcome_unknown, rpc_call, undefined,
  result,
}
use happy_server.Rpc.Honesty.{may_have_run, lock_threw}
use happy_server.Rpc.Dispatch.{call_answers_truly, retired_runtime_is_not_called}

abbrev owner : RuntimeOwner
owner = record { session_id = "s"; session_instance_id = some "i"; lease_id = some "l" }

abbrev older : RpcRegistrationTarget
older = record { socket_id = "s1"; generation = "a"; runtime_owner = none }

abbrev newer : RpcRegistrationTarget
newer = record { socket_id = "s2"; generation = "b"; runtime_owner = some owner }

abbrev text_of : JsonValue → String
text_of (object fs) = elim (text_field "generation" fs) [ none ↦ "" | some g ↦ g ]
text_of _ = ""

-- A platform that writes a target as its generation, of which there are "a" and "b".
abbrev platform : Platform
platform = record {
  stringify = text_of;
  parse = λ t. none;
  cjson_decode = λ t.
      if t == "a"
      then some (target_value older)
      else if t == "b"
      then some (target_value newer)
      else none;
  before = λ g h. g == "a" && h == "b";
  is_generation = λ t. true;
  length = λ t. 1;
  pad_start = λ n w. "0";
  digest = λ u m. u;
}

before-irreflexive : (g : String) → platform.before g g ≡ false
before-irreflexive g = elim (Bool-cases (g == "a")) [
  | inl is_a ↦ rw ((eq_iff g "a").0 is_a) refl
  | inr other ↦ simp (other) refl
]

before-transitive :
    (g h i : String)
    → platform.before g h ≡ true
    → platform.before h i ≡ true
    → platform.before g i ≡ true
before-transitive g h i first second = elim (Bool-cases (h == "a")) [
  | inl is_a ↦
      let same : h ≡ "a" = (eq_iff h "a").0 is_a in
      let impossible : (g == "a" && "a" == "b") ≡ true =
        subst (λ (u : String). (g == "a" && u == "b") ≡ true) same first in
      ground (arith, impossible)
  | inr other ↦ let claimed : (h == "a" && i == "b") ≡ true = second in ground (arith, claimed)
]

platform-IsStrictOrder : IsStrictOrder platform
platform-IsStrictOrder = (before-irreflexive, before-transitive)

abbrev at_key : RpcRegistrationTarget → RpcRegistration
at_key t = record { target = t; key = "k" }

abbrev rounds : List (ℕ × RpcRegistration)
rounds = (5, at_key newer) ∷ (9, at_key older) ∷ []

rounds-InWindow : InWindow platform platform-IsStrictOrder 100 5 "k" rounds
unfolding get_field
rounds-InWindow now r (Memᴰ.head e) =
    let here : r ≡ at_key newer = ap (λ (p : ℕ × RpcRegistration). p.1) e in
    let then_ : now ≡ 5 = ap (λ (p : ℕ × RpcRegistration). p.0) e in
    (
      ap (λ (q : RpcRegistration). q.key) here,
      rw then_ (omega arith),
      rw then_ (omega arith),
      rw here refl,
    )
rounds-InWindow now r (Memᴰ.tail (Memᴰ.head e)) =
    let here : r ≡ at_key older = ap (λ (p : ℕ × RpcRegistration). p.1) e in
    let then_ : now ≡ 9 = ap (λ (p : ℕ × RpcRegistration). p.0) e in
    (
      ap (λ (q : RpcRegistration). q.key) here,
      rw then_ (omega arith),
      rw then_ (omega arith),
      rw here refl,
    )
rounds-InWindow now r (Memᴰ.tail (Memᴰ.tail m)) = elim m [ ]

redis_loss_converges_example :
    IsFreshest platform platform-IsStrictOrder 100 5 "k"
      (redis_loss_converges platform platform-IsStrictOrder 100 5 "k"
        (λ k. none)
        5
        (at_key newer)
        ((9, at_key older) ∷ [])
        refl
        rounds-InWindow).0
      rounds
redis_loss_converges_example =
    (redis_loss_converges platform platform-IsStrictOrder 100 5 "k" (λ k. none) 5 (at_key newer)
      ((9, at_key older) ∷ []) refl rounds-InWindow).5

abbrev lifecycle : Lifecycle
lifecycle = record {
  user_id = "a";
  socket_id = "s1";
  ttl_ms = 100;
  max_registrations = 2;
  runtime_owner = some owner;
  registrations = [];
  closing = false;
  cancelled_methods = [];
  timer = false;
}

abbrev world : World
world = record {
  redis = λ k. none;
  clock = record { last_registration_timestamp_ms = 7; last_registration_sequence = 0 };
}

abbrev busy_round : Attempt
busy_round = record { during = []; fenced = busy; ending = []; waiting = [] }

-- A round whose transaction fails after its operation has run.
abbrev thrown_round : Attempt
thrown_round = record {
  during = [];
  fenced = throws (after_operation 3 4 "t");
  ending = [];
  waiting = [];
}

lifecycle-IsSound : IsSound lifecycle
unfolding size
lifecycle-IsSound = record { limited = omega arith; timed = refl }

run-IsSound_example :
    IsSound
      (Lifetime.run platform lifecycle world
        (runs_register "m" (thrown_round ∷ success_at 5 6 "u" ∷ []) ∷ runs_refresh busy ∷ [])).0
run-IsSound_example =
    run-IsSound platform lifecycle world
      (runs_register "m" (thrown_round ∷ success_at 5 6 "u" ∷ []) ∷ runs_refresh busy ∷ [])
      lifecycle-IsSound

abbrev closing_lifecycle : Lifecycle
closing_lifecycle = record lifecycle { closing = true; registrations = ("m", at_key older) ∷ [] }

close_is_final_example :
    (Lifetime.run platform closing_lifecycle world
      (runs_close (some 5) ∷ runs_register "m" (success_at 5 6 "u" ∷ []) ∷ [])).0.registrations
    ≡ []
close_is_final_example =
    (close_is_final platform closing_lifecycle world (some 5)
      (runs_register "m" (success_at 5 6 "u" ∷ []) ∷ []) refl).0

abbrev row : Session
row = record {
  account_id = "a";
  metadata = "m";
  metadata_version = 3;
  agent_state = none;
  agent_state_version = 0;
  data_encryption_key = none;
  seq = 4;
  active = true;
  active_instance_id = some "i";
  lease_id = some "l";
  lease_instance_id = some "i";
  lease_expires_at = some 9000;
  last_active_at = 1000;
  updated_at = 1000;
}

abbrev db : Db
db = record { session = update (λ k. none) "s" (some row); retirement = λ k i. none }

abbrev retired_db : Db
retired_db = record db { retirement = λ k i. some (record { status = superseded; retired_at = 0 }) }

abbrev context : Db → CallContext
context d = record {
  db = d;
  now = 2000;
  lock_acquired = true;
  lock_throw = never;
  is_local = λ s. true;
  deliver = λ s. some ("r" ∷ []);
  deliver_local = λ s. some "r";
}

call_test :
    rpc_call platform
      (λ t. true)
      (context db)
      "a"
      "s1"
      none
      (some "m")
      undefined
      9
      []
      (some (some newer))
    ≡ (none, "s2" ∷ [], result "r")
unfolding rpc_call is_retired
call_test = refl

-- The transaction fails to commit after the target has answered.
thrown_call_test :
    rpc_call platform
      (λ t. true)
      (record (context db) { lock_throw = at_the_end })
      "a"
      "s1"
      none
      (some "m")
      undefined
      9
      []
      (some (some newer))
    ≡ (none, "s2" ∷ [], outcome_unknown)
unfolding rpc_call is_retired
thrown_call_test = refl

abbrev called : Option ClientConnection × Emissions × CallReply
called =
    rpc_call platform (λ t. true) (context db) "a" "s1" none (some "m") undefined 9 []
      (some (some newer))

call_answers_truly_example :
    ((t : RpcRegistrationTarget) × (some (some newer) ≡ some (some t))
      × ((t.socket_id == "s1") ≡ false)
      × (called.1 ≡ t.socket_id ∷ [])
      × (may_have_run called.2 ≡ true))
    ⊎ ((called.1 ≡ [])
        × ((may_have_run called.2 ≡ false)
            ⊎ ((called.2 ≡ outcome_unknown) × (lock_threw (context db).lock_throw ≡ true))))
call_answers_truly_example =
    call_answers_truly platform (λ t. true) (context db) "a" "s1" (some "m") undefined 9 [] none
      (some (some newer))

retired_runtime_is_not_called_example :
    (rpc_call platform
      (λ t. true)
      (context (run retired_db ((5, renews "a" "s" "i" "l") ∷ [])))
      "a"
      "s1"
      none
      (some "m")
      undefined
      9
      []
      (some (some newer))).1
    ≡ []
unfolding is_finally_retired
retired_runtime_is_not_called_example =
    retired_runtime_is_not_called platform (λ t. true)
      (context (run retired_db ((5, renews "a" "s" "i" "l") ∷ []))) "a" "s1" (some "m") undefined 9
      [] newer owner "i" retired_db ((5, renews "a" "s" "i" "l") ∷ []) refl refl refl refl refl none
