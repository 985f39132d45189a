-- ===== src/Rpc/Honesty.antt =====
-- What the answer of a dispatch says of the request that it emitted.
use happy_server.Common.{
  String, Bool, true, false, ◌&&◌, Option, none, some, List, [], ◌∷◌, arith, ◌≡◌, refl, ◌⊎◌, inl,
  inr, Option-cases, Bool-cases, if◌then◌else◌,
}
use happy_server.RuntimeLease.Operations.{
  is_runtime_connection_owner, run_with_runtime_connection_owner_lock, completed, not_owner,
}
use happy_server.RuntimeLease.Reads.{lock_agrees}
use happy_server.Rpc.{RuntimeOwner, RpcRegistrationTarget}
use happy_server.Rpc.Calls.{
  CallReply, CallContext, Emissions, not_dispatched, local_reply, selected_reply, LockThrow, never,
  before_operation, at_the_end, catch_throw, owner_reply, dispatch_by, emit_to_local_runtime_target,
  outcome_unknown, result,
}

-- The answer that the target may have run the method.
abbrev pub may_have_run : CallReply → Bool
may_have_run outcome_unknown = true
may_have_run (result r) = true
may_have_run _ = false

abbrev pub lock_threw : LockThrow → Bool
lock_threw never = false
lock_threw before_operation = true
lock_threw at_the_end = true

-- Either one request was emitted, to this socket, and the answer says that it may have run, or none
-- was and the answer says so, or leaves it open where the transaction of the owner's lock threw.
abbrev pub IsHonest : LockThrow → String → Emissions → Emissions → CallReply → Type 0
IsHonest thrown target sent sent' reply =
    ((sent' ≡ target ∷ sent) × (may_have_run reply ≡ true))
    ⊎ ((sent' ≡ sent)
        × ((may_have_run reply ≡ false) ⊎ ((reply ≡ outcome_unknown) × (lock_threw thrown ≡ true))))

-- The answer of the `catch` is honest where the one without a throw is.
catch_throw-IsHonest :
    (thrown : LockThrow) (target : String) (sent : Emissions) (after : Emissions × CallReply)
    → IsHonest never target sent after.0 after.1
    → IsHonest thrown target sent
        (catch_throw thrown sent after).0
        (catch_throw thrown sent after).1
catch_throw-IsHonest never target sent after honest = honest
catch_throw-IsHonest before_operation target sent after honest = inr (refl, inr (refl, refl))
catch_throw-IsHonest at_the_end target sent after (inl (emitted, said)) = inl (emitted, refl)
catch_throw-IsHonest at_the_end target sent after (inr (quiet, said)) =
    inr (quiet, inr (refl, refl))

local_dispatch-IsHonest :
    (ctx : CallContext) (target : RpcRegistrationTarget) (sent : Emissions)
    → let (sent', d) =
        emit_to_local_runtime_target ctx.is_local ctx.deliver_local target (sent, not_dispatched) in
      IsHonest never target.socket_id sent sent' (local_reply d)
unfolding emit_to_local_runtime_target
local_dispatch-IsHonest ctx target sent = elim (Bool-cases (ctx.is_local target.socket_id)) [
  | inl here ↦ elim (Option-cases (ctx.deliver_local target.socket_id)) [
    | inl failed ↦ inl (ground arith, ground arith)
    | inr (r, answered) ↦ inl (ground arith, ground arith)
  ]
  | inr elsewhere ↦ inr (ground arith, inl (ground arith))
]

may_have_run-selected_reply : (d : Option (List String)) → may_have_run (selected_reply d) ≡ true
may_have_run-selected_reply none = refl
may_have_run-selected_reply (some []) = refl
may_have_run-selected_reply (some (r ∷ [])) = refl
may_have_run-selected_reply (some (r ∷ q ∷ rs)) = refl

module _ (ctx : CallContext) (user_id : String) (sent : Emissions)
    (target : RpcRegistrationTarget) where
  agreed :
      (o : RuntimeOwner)
      → ctx.lock_acquired ≡ true
      → run_with_runtime_connection_owner_lock ctx.lock_acquired ctx.db ctx.now user_id o.session_id
          o.session_instance_id o.lease_id
          (emit_to_local_runtime_target ctx.is_local ctx.deliver_local target)
          (sent, not_dispatched)
        ≡ (if is_runtime_connection_owner ctx.db ctx.now user_id o.session_id o.session_instance_id
              o.lease_id
            then (
              completed,
              emit_to_local_runtime_target ctx.is_local ctx.deliver_local target
                  (sent, not_dispatched),
            )
            else (not_owner, (sent, not_dispatched)))
  agreed o acquired = rw acquired (
      lock_agrees ctx.db ctx.now user_id o.session_id o.session_instance_id o.lease_id
        (emit_to_local_runtime_target ctx.is_local ctx.deliver_local target) (sent, not_dispatched))

  -- What the lock answers for an owner, before any throw.
  abbrev locked_reply : RuntimeOwner → Emissions × CallReply
  locked_reply o = owner_reply (
      run_with_runtime_connection_owner_lock ctx.lock_acquired ctx.db ctx.now user_id o.session_id
        o.session_instance_id o.lease_id
        (emit_to_local_runtime_target ctx.is_local ctx.deliver_local target) (sent, not_dispatched))

  -- What the owner's lock lets through.
  owned_reply :
      (o : RuntimeOwner)
      → ctx.lock_acquired ≡ true
      → is_runtime_connection_owner ctx.db ctx.now user_id o.session_id o.session_instance_id
          o.lease_id
        ≡ true
      → locked_reply o ≡ (
          let (sent', d) =
            emit_to_local_runtime_target ctx.is_local ctx.deliver_local target
              (sent, not_dispatched) in
          (sent', local_reply d))
  owned_reply o acquired owned = rw (agreed o acquired, owned) refl

  refused_reply :
      (o : RuntimeOwner)
      → (ctx.lock_acquired
          && is_runtime_connection_owner ctx.db ctx.now user_id o.session_id o.session_instance_id
              o.lease_id)
        ≡ false
      → ((locked_reply o).0 ≡ sent) × (may_have_run (locked_reply o).1 ≡ false)
  unfolding run_with_runtime_connection_owner_lock
  refused_reply o refused = elim (Bool-cases ctx.lock_acquired) [
    | inl acquired ↦
        let stale : is_runtime_connection_owner ctx.db ctx.now user_id o.session_id
              o.session_instance_id o.lease_id
            ≡ false =
          ground arith in
        rw (agreed o acquired, stale) (refl, refl)
    | inr kept ↦ rw kept (refl, refl)
  ]

  locked_reply-IsHonest :
      (o : RuntimeOwner)
      → IsHonest never target.socket_id sent (locked_reply o).0 (locked_reply o).1
  locked_reply-IsHonest o =
      elim (Bool-cases (
        ctx.lock_acquired
        && is_runtime_connection_owner ctx.db ctx.now user_id o.session_id o.session_instance_id
            o.lease_id)) [
              | inl owned ↦
                  rw (owned_reply o (ground arith) (ground arith))
                    (local_dispatch-IsHonest ctx target sent)
              | inr refused ↦ let (quiet, said) = refused_reply o refused in inr (quiet, inl said)
            ]

  -- A throw emits nothing that the lock has not let through.
  catch_throw-quiet :
      (thrown : LockThrow) (after : Emissions × CallReply)
      → after.0 ≡ sent
      → (catch_throw thrown sent after).0 ≡ sent
  catch_throw-quiet never after quiet = quiet
  catch_throw-quiet before_operation after quiet = refl
  catch_throw-quiet at_the_end after quiet = quiet

  pub dispatch_by-IsHonest :
      (o : Option RuntimeOwner)
      → IsHonest ctx.lock_throw target.socket_id sent
          (dispatch_by ctx user_id sent target o).0
          (dispatch_by ctx user_id sent target o).1
  unfolding dispatch_by
  dispatch_by-IsHonest none = inl (refl, may_have_run-selected_reply (ctx.deliver target.socket_id))
  dispatch_by-IsHonest (some o) =
      catch_throw-IsHonest ctx.lock_throw target.socket_id sent (locked_reply o)
        (locked_reply-IsHonest o)

  pub refused_dispatch :
      (o : RuntimeOwner)
      → (ctx.lock_acquired
          && is_runtime_connection_owner ctx.db ctx.now user_id o.session_id o.session_instance_id
              o.lease_id)
        ≡ false
      → (dispatch_by ctx user_id sent target (some o)).0 ≡ sent
  unfolding dispatch_by
  refused_dispatch o refused =
      catch_throw-quiet ctx.lock_throw (locked_reply o) (refused_reply o refused).0
