-- ===== src/Rpc/Dispatch.antt =====
-- Which socket a call reaches, and what its answer says of that.
use happy_server.Common.{
  ℕ, String, Bool, true, false, not, ◌||◌, ltb, Option, none, some, List, ◌∷◌, arith, ◌≡◌, refl,
  ◌⊎◌, inl, inr, ◌==◌, if◌then◌else◌,
}
use happy_server.RuntimeLease.{Db, is_finally_retired}
use happy_server.RuntimeLease.Operations.{is_runtime_connection_owner}
use happy_server.RuntimeLease.Steps.{Call, run}
use happy_server.RuntimeLease.Fencing.{run-fenced}
use happy_server.EventRouter.{ClientConnection, session_scoped, user_scoped, machine_scoped}
use happy_server.Rpc.{Platform, RuntimeOwner, RpcRegistrationTarget}
use happy_server.Rpc.Calls.{
  CallId, CallReply, CallContext, Emissions, dispatch, rpc_call, is_valid_method, is_valid_call_id,
  max_rpc_params_bytes, checked_call, call_target, invalid_parameters, params_too_large,
  outcome_unknown,
}
use happy_server.Rpc.Honesty.{
  may_have_run, lock_threw, IsHonest, dispatch_by-IsHonest, refused_dispatch,
}

either_answer :
    (P : Emissions × CallReply → Type 0) (b : Bool) (p q : Emissions × CallReply)
    → P p
    → (b ≡ false → P q)
    → P (if b then p else q)
either_answer P true p q first second = first
either_answer P false p q first second = second refl

module _ (js : Platform) (is_uuid : String → Bool) (ctx : CallContext) (user_id socket_id : String)
    (method : Option String) (call_id : CallId) (params_bytes : ℕ) (sent : Emissions) where
  -- One request was emitted, to the registered target, which is another socket, and the answer says
  -- that it may have run; or none was and the answer says so, or leaves it open where the lock threw.
  abbrev pub IsTrue : Option (Option RpcRegistrationTarget) → Emissions × CallReply → Type 0
  IsTrue target (sent', reply) =
      ((t : RpcRegistrationTarget) × (target ≡ some (some t))
        × ((t.socket_id == socket_id) ≡ false)
        × (sent' ≡ t.socket_id ∷ sent)
        × (may_have_run reply ≡ true))
      ⊎ ((sent' ≡ sent)
          × ((may_have_run reply ≡ false)
              ⊎ ((reply ≡ outcome_unknown) × (lock_threw ctx.lock_throw ≡ true))))

  honest-IsTrue :
      (t : RpcRegistrationTarget) (sent' : Emissions) (reply : CallReply)
      → (t.socket_id == socket_id) ≡ false
      → IsHonest ctx.lock_throw t.socket_id sent sent' reply
      → IsTrue (some (some t)) (sent', reply)
  honest-IsTrue t sent' reply other (inl (emitted, said)) = inl (t, refl, other, emitted, said)
  honest-IsTrue t sent' reply other (inr quiet) = inr quiet

  call_target-IsTrue :
      (target : Option (Option RpcRegistrationTarget))
      → IsTrue target (call_target ctx user_id socket_id sent target)
  unfolding call_target dispatch
  call_target-IsTrue none = inr (refl, inl refl)
  call_target-IsTrue (some none) = inr (refl, inl refl)
  call_target-IsTrue (some (some t)) =
      either_answer (IsTrue (some (some t))) (t.socket_id == socket_id) _ _ (inr (refl, inl refl))
        (λ other.
          honest-IsTrue t _ _ other (dispatch_by-IsHonest ctx user_id sent t t.runtime_owner))

  checked_call-IsTrue :
      (target : Option (Option RpcRegistrationTarget))
      → IsTrue target
          (checked_call js is_uuid ctx user_id socket_id method call_id params_bytes sent target)
  unfolding checked_call
  checked_call-IsTrue target =
      let called = call_target ctx user_id socket_id sent target in
      either_answer (IsTrue target)
        (not (is_valid_method js method) || not (is_valid_call_id is_uuid call_id))
        (sent, invalid_parameters)
        (if ltb max_rpc_params_bytes params_bytes then (sent, params_too_large) else called)
        (inr (refl, inl refl))
        (λ valid.
          either_answer (IsTrue target) (ltb max_rpc_params_bytes params_bytes)
            (sent, params_too_large) called (inr (refl, inl refl))
            (λ fits. call_target-IsTrue target))

  -- A call emits at most one request, and only to the registered target, which is another socket. Where
  -- it has emitted one, its answer is a result or an unknown outcome: an answer that the call was
  -- refused, not started or may be retried means that no socket was sent anything. Where it has emitted
  -- none, its answer is no result, and it is an unknown outcome only if the transaction of the owner's
  -- lock threw.
  pub call_answers_truly :
      (connection : Option ClientConnection) (target : Option (Option RpcRegistrationTarget))
      → let (c', sent', reply) =
          rpc_call js is_uuid ctx user_id socket_id connection method call_id params_bytes sent
            target in
        ((t : RpcRegistrationTarget) × (target ≡ some (some t))
          × ((t.socket_id == socket_id) ≡ false)
          × (sent' ≡ t.socket_id ∷ sent)
          × (may_have_run reply ≡ true))
        ⊎ ((sent' ≡ sent)
            × ((may_have_run reply ≡ false)
                ⊎ ((reply ≡ outcome_unknown) × (lock_threw ctx.lock_throw ≡ true))))
  unfolding rpc_call
  call_answers_truly none target = checked_call-IsTrue target
  call_answers_truly (some (session_scoped c)) target = inr (refl, inl refl)
  call_answers_truly (some (user_scoped c)) target = checked_call-IsTrue target
  call_answers_truly (some (machine_scoped c)) target = checked_call-IsTrue target

  module _ (t : RpcRegistrationTarget) (o : RuntimeOwner) (i : String) (db : Db)
      (cs : List (ℕ × Call)) (owned : t.runtime_owner ≡ some o)
      (named : o.session_instance_id ≡ some i) (texted : (i == "") ≡ false)
      (retired : is_finally_retired db o.session_id i ≡ true) (later : ctx.db ≡ run db cs) where
    retired_dispatch : (dispatch ctx user_id sent t).0 ≡ sent
    unfolding dispatch
    retired_dispatch =
        let stale : is_runtime_connection_owner ctx.db ctx.now user_id o.session_id
              o.session_instance_id o.lease_id
            ≡ false =
          rw (later, named)
            (run-fenced db cs o.session_id i retired texted ctx.now user_id o.lease_id "" "" ""
              true).0 in
        rw owned (refused_dispatch ctx user_id sent t o (ground arith))

    retired_call :
        (checked_call js is_uuid ctx user_id socket_id method call_id params_bytes sent
          (some (some t))).0
        ≡ sent
    unfolding checked_call call_target
    retired_call = ground (arith, retired_dispatch)

    -- A call whose target is registered for an incarnation that was retired for good (an instance that
    -- is not the empty text) reaches no socket, after any run of lease calls.
    pub retired_runtime_is_not_called :
        (connection : Option ClientConnection)
        → (rpc_call js is_uuid ctx user_id socket_id connection method call_id params_bytes sent
            (some (some t))).1
          ≡ sent
    unfolding rpc_call
    retired_runtime_is_not_called none = retired_call
    retired_runtime_is_not_called (some (session_scoped c)) = refl
    retired_runtime_is_not_called (some (user_scoped c)) = retired_call
    retired_runtime_is_not_called (some (machine_scoped c)) = retired_call
