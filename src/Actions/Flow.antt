-- ===== src/Actions/Flow.antt =====
-- A task from the request to its result, through the actions on tasks and TaskManager.js.
use mathlib.Core.Path.{ap₂}
use enigma_p2p.Base.{
  ℕ, String, ◌≡◌, refl, sym, ap, ◌∙◌, subst, true, false, none, some, [], ◌∷◌, ◌++◌, if◌then◌else◌,
  eq_refl, arith,
}
use enigma_p2p.Base.Dict
use enigma_p2p.Base.Dict.{get-put_self}
use enigma_p2p.Tasks.Result.{
  in_progress, success, failed, TaskType, TaskResult, result_task_id, result_is_success,
}
use enigma_p2p.Tasks.Task.{Task, set_status, set_result}
use enigma_p2p.Tasks.Json.{TaskJson}
use enigma_p2p.Tasks.RoundTrip.{IsStorable}
use enigma_p2p.Tasks.Level.{Level, LevelLaws}
use enigma_p2p.Tasks.Stored.{Healthy}
use enigma_p2p.Tasks.Manager.{
  PoolEntry, verify_new_task, task_verified, task_finished, ok, Manager, add_task_unverified,
  get_task, read_task, on_verify_task, on_finish_task,
}
use enigma_p2p.Tasks.Lifecycle.{
  on_verify_task_stores, on_finish_task_stores, get_task_stored, set_result_id,
}
use enigma_p2p.Verifier.Listeners.{Creation}
use enigma_p2p.Actions.Execute.{
  build_request, is_accepted, set_limits, TaskReply, built, build_reply, start_task, change_pooled,
  verify_new_task_action, finish_built, execute_reply,
}
use enigma_p2p.Actions.ReplyId.{build_reply_id}

set_limits_id : (c : Creation) (t : Task) → (set_limits c t).task_id ≡ t.task_id
unfolding set_limits
set_limits_id c t = refl

sent_id : (c : Creation) (t : Task) → (set_status in_progress (set_limits c t)).task_id ≡ t.task_id
unfolding set_limits set_status
sent_id c t = refl

-- A task that is passed to Core, with what the verifier gave.
abbrev pub passed : Creation → Task → Task
passed c t = record t {
  status = in_progress;
  gas_limit = c.gas_limit;
  block_number = c.block_number;
}

-- A task with its result.
abbrev pub completed : TaskResult → Task → Task
completed r t = record t {
  status = if result_is_success r then success else failed;
  result = some r;
}

set_result-completed :
    (r : TaskResult) (t : Task) → result_task_id r ≡ t.task_id → set_result r t ≡ completed r t
unfolding set_result
set_result-completed r t own = rw (own, eq_refl t.task_id) refl

module _ (level : Level TaskJson) where
  pub start_effect :
      (m : Manager level) (now : ℕ) (type : TaskType) (j : TaskJson) (t : Task)
      → build_request type j ≡ some t
      → Dict.get t.task_id m.pool ≡ none
      → (Dict.get t.task_id (start_task level now type j m).0.pool
          ≡ some (record { time = now; task = t }))
        × ((start_task level now type j m).1 ≡ verify_new_task t ∷ [])
  unfolding start_task add_task_unverified
  start_effect m now type j t made new =
      ground (arith, made, new, get-put_self t.task_id (record { time = now; task = t }) m.pool)

  change_pooled_effect :
      (m : Manager level) (id : String) (f : Task → Task) (e : PoolEntry)
      → Dict.get id m.pool ≡ some e
      → Dict.get id (change_pooled level id f m).pool ≡ some (record e { task = f e.task })
  unfolding change_pooled
  change_pooled_effect m id f e pooled =
      ground (arith, pooled, get-put_self id (record e { task = f e.task }) m.pool)

  accepted_effect :
      (m : Manager level) (id : String) (c : Creation)
      → is_accepted (some c) ≡ true
      → verify_new_task_action level true (some c) id m
        ≡ on_verify_task level id true (change_pooled level id (set_limits c) m)
  unfolding verify_new_task_action
  accepted_effect m id c accepted = rw accepted refl

  reply_effect :
      (m : Manager level) (t : Task) (reply : TaskReply) (r : TaskResult)
      → reply.has_msg ≡ false
      → build_reply t.task_id reply.type reply.result ≡ built r
      → execute_reply level t (some reply) m ≡ record {
        manager = (on_finish_task level r m).0;
        finished = some (on_finish_task level r m).1;
        threw = false;
        notices = (on_finish_task level r m).2;
      }
  unfolding execute_reply finish_built
  reply_effect m t reply r plain made = ground (arith, plain, made)

module _ (level : Level TaskJson) (laws : LevelLaws level) where
  -- A request that ends with `final` stored, after `sent` was passed to Core.
  abbrev Ends :
      Manager level
      → ℕ
      → TaskType
      → TaskJson
      → Task
      → Creation
      → TaskReply
      → (sent final : Task) → Type 0
  Ends m now type j t c reply sent final =
      let started = start_task level now type j m in
      let checked = verify_new_task_action level true (some c) t.task_id started.0 in
      let executed = execute_reply level sent (some reply) checked.0 in
      (get_task level t.task_id executed.manager ≡ ok final)
      × (executed.finished ≡ some (ok tt))
      × (started.1 ++ checked.2 ++ executed.notices
          ≡ verify_new_task t ∷ task_verified sent ∷ task_finished final ∷ [])

  request_to_result_set :
      (m : Manager level) (now : ℕ) (type : TaskType) (j : TaskJson) (t : Task) (c : Creation)
      (reply : TaskReply) (r : TaskResult)
      → Healthy level
      → build_request type j ≡ some t
      → Dict.get t.task_id m.pool ≡ none
      → is_accepted (some c) ≡ true
      → reply.has_msg ≡ false
      → build_reply t.task_id reply.type reply.result ≡ built r
      → IsStorable (set_status in_progress (set_limits c t))
      → IsStorable (set_result r (set_status in_progress (set_limits c t)))
      → Ends m now type j t c reply
          (set_status in_progress (set_limits c t))
          (set_result r (set_status in_progress (set_limits c t)))
  request_to_result_set m now type j t c reply r healthy made new accepted plain replied s1 s2 =
      let id : String = t.task_id in
      let sent : Task = set_status in_progress (set_limits c t) in
      let e : PoolEntry = record { time = now; task = set_limits c t } in
      let m1 : Manager level = (start_task level now type j m).0 in
      let m1' : Manager level = change_pooled level id (set_limits c) m1 in
      let m2 : Manager level = (on_verify_task level id true m1').0 in
      let (added, told) = start_effect level m now type j t made new in
      let pooled : Dict.get id m1'.pool ≡ some e =
        change_pooled_effect level m1 id (set_limits c) (record { time = now; task = t }) added in
      let (held, _, verified, left) =
        on_verify_task_stores level laws m1' id e healthy pooled (set_limits_id c t) s1 in
      let read : read_task level id m2.store ≡ ok sent =
        sym (get_task_stored level m2 id left) ∙ held.found in
      let own : result_task_id r ≡ id = build_reply_id id reply.type reply.result r replied in
      let (final, done, finished) =
        on_finish_task_stores level laws m2 r sent healthy
          (subst (λ k. Dict.get k m2.pool ≡ none) (sym own) left)
          (subst (λ k. read_task level k m2.store ≡ ok sent) (sym own) read)
          (set_result_id r sent ∙ sent_id c t ∙ sym own) s2 in
      let replied' : build_reply sent.task_id reply.type reply.result ≡ built r =
        subst (λ k. build_reply k reply.type reply.result ≡ built r) (sym (sent_id c t)) replied in
      rw (accepted_effect level m1 id c accepted) (
        rw (reply_effect level m2 sent reply r plain replied') (
          (
            subst (λ k. get_task level k (on_finish_task level r m2).0 ≡ ok (set_result r sent)) own
                final.found,
            ap some done,
            ap₂ (λ a b. a ++ b) (ap₂ (λ a b. a ++ b) told verified) finished,
          )))

  -- From the request to the result, over a database whose writes do not fail. A request for a task
  -- whose id is new is built and stored unverified; the verifier accepts it; Core replies with no
  -- system message and with a result that can be built. The task that is sent to Core, in progress
  -- and with the gas limit and the block number that the verifier gave, and the finished task, with
  -- the result and its status, are of the form that the worker stores: ids and addresses with no
  -- `0x`, the limits given, the result of the task's type or a failure. Then the finished task is
  -- stored under its id with these limits, whatever id Core gave its result, and it is notified of
  -- the new, the verified and the finished task in this order.
  pub request_to_result :
      (m : Manager level) (now : ℕ) (type : TaskType) (j : TaskJson) (t : Task) (c : Creation)
      (reply : TaskReply) (r : TaskResult)
      → Healthy level
      → build_request type j ≡ some t
      → Dict.get t.task_id m.pool ≡ none
      → is_accepted (some c) ≡ true
      → reply.has_msg ≡ false
      → build_reply t.task_id reply.type reply.result ≡ built r
      → IsStorable (passed c t)
      → IsStorable (completed r (passed c t))
      → let started = start_task level now type j m in
        let checked = verify_new_task_action level true (some c) t.task_id started.0 in
        let executed = execute_reply level (passed c t) (some reply) checked.0 in
        (get_task level t.task_id executed.manager ≡ ok (completed r (passed c t)))
        × (executed.finished ≡ some (ok tt))
        × (started.1 ++ checked.2 ++ executed.notices
            ≡ verify_new_task t
              ∷ task_verified (passed c t)
              ∷ task_finished (completed r (passed c t))
              ∷ [])
  unfolding set_status set_limits
  request_to_result m now type j t c reply r healthy made new accepted plain replied s1 s2 =
      subst (λ f. IsStorable f → Ends m now type j t c reply (passed c t) f)
        (set_result-completed r (passed c t)
          (build_reply_id t.task_id reply.type reply.result r replied))
        (request_to_result_set m now type j t c reply r healthy made new accepted plain replied s1)
        s2
