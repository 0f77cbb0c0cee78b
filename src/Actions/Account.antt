-- ===== src/Actions/Account.antt =====
-- The actions on the worker itself, in src/worker/controller/actions: RegisterAction.js,
-- UnregisterAction.js, LoginAction.js and LogoutAction.js of ethereum, and HealthCheckAction.js, with
-- src/worker/handlers/WebServer.js.
use enigma_p2p.Base.{
  ℕ, String, ◌≡◌, refl, ◌⊎◌, inl, inr, Bool, true, false, Option, none, some, is_some, Bool-cases,
  List, [], ◌∷◌, ◌&&◌, ◌==◌, leb, arith, if◌then◌else◌,
}
use enigma_p2p.Ethereum.Reader.{
  Read, resolved, call_rejected, data_error, missing_address, WorkerParams,
}
use enigma_p2p.Ethereum.Account.{
  AccountCall, register, unregister, login, logout, AccountEnd, account_done, account_rejected,
  account_pending, account_refused,
}

-- The call of `onResponse`: its error, if there is one, and the success; `not_answered` is none.
pub data ActionEnd : Type 0 where
  answered : (error success : Bool) → ActionEnd
  not_answered : ActionEnd

-- An action's end, and its calls of the contract.
abbrev pub ActionRun : Type 0
ActionRun = ActionEnd × List AccountCall

-- A call under `try`.
unfoldable pub call_end : AccountEnd → ActionEnd
call_end account_done = answered false true
call_end account_rejected = answered true false
call_end account_pending = not_answered
call_end (account_refused e) = answered true false

call_end_done : (e : AccountEnd) → call_end e ≡ answered false true → e ≡ account_done
unfolding call_end
call_end_done account_done h = refl
call_end_done account_rejected h = absurd (ground (arith, h))
call_end_done account_pending h = absurd (ground (arith, h))
call_end_done (account_refused x) h = absurd (ground (arith, h))

module _ (call : AccountCall → AccountEnd) where
  -- RegisterAction: signing key, report and signature of Core, or an error of it.
  unfoldable pub register_action : Option (String × String × String) → ActionRun
  unfolding call_end
  register_action none = (answered true false, [])
  register_action (some (key, report, sig)) =
      let c : AccountCall = register key report sig in (call_end (call c), c ∷ [])

  unfoldable pub login_action : ActionRun
  unfolding call_end
  login_action = (call_end (call login), login ∷ [])

  -- The rest of the two other actions, on the worker's record in the contract: nothing is called for
  -- a worker that has the status already.
  unfoldable pub leave_action : (status : ℕ) → AccountCall → Read WorkerParams → ActionRun
  unfolding call_end
  leave_action status c (resolved w) =
      if w.status == status then (answered false true, []) else (call_end (call c), c ∷ [])
  leave_action status c call_rejected = (answered true false, [])
  leave_action status c data_error = (answered true false, [])
  leave_action status c missing_address = (answered true false, [])

  -- `ETHEREUM_WORKER_STATUS`
  unfoldable pub unregister_action : Read WorkerParams → ActionRun
  unfolding leave_action
  unregister_action w = leave_action 0 unregister w

  unfoldable pub logout_action : Read WorkerParams → ActionRun
  unfolding leave_action
  logout_action w = leave_action 2 logout w

  -- Where logging out or unregistering reports a success, the worker had the status already or the
  -- call of the contract was done.
  pub leave_action_success :
      (status : ℕ) (c : AccountCall) (w : WorkerParams)
      → (leave_action status c (resolved w)).0 ≡ answered false true
      → (w.status ≡ status) ⊎ (call c ≡ account_done)
  unfolding leave_action call_end
  leave_action_success status c w h = elim (Bool-cases (w.status == status)) [
    | inl same ↦ inl (ground (arith, same))
    | inr other ↦ inr (call_end_done (call c) (ground (arith, other, h)))
  ]

-- `healthCheckResult`, less the addresses in it.
pub record Health : Type 0 where
  pub status : Bool
  pub core : Bool
  pub ethereum : Bool
  pub connections : ℕ

-- HealthCheckAction. `core` is the answer of Core, with the key if it has one; `none` is an error, of
-- which the callback is not told. `ethereum` is whether the node is connected, `none` an exception.
unfoldable pub health_check :
    (core : Option (Option String))
    → (has_ethereum : Bool) → (ethereum : Option Bool) → (connections : ℕ) → Option Health
health_check none has_ethereum ethereum connections = none
health_check (some key) has_ethereum ethereum connections =
    let core : Bool = is_some key in
    let eth : Bool =
      if has_ethereum then (elim ethereum [ none ↦ false | some b ↦ b ]) else false in
    some (record {
      status = core && eth && leb 1 connections;
      core = core;
      ethereum = eth;
      connections = connections;
    })

-- `performHealthCheck`: the result, or the error code; `none` is no answer to the request.
unfoldable pub perform_health_check : Option Health → Option (Option Health)
perform_health_check none = none
perform_health_check (some h) = if h.status then some (some h) else some none
