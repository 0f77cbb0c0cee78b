-- ===== src/Actions/Failure.antt =====
-- The task that VerifyAndStoreResultAction.js stores for a failure due to Ethereum.
use enigma_p2p.Base.{
  String, ◌≡◌, refl, sym, ap, subst, ◌∙◌, true, Option, none, some, ◌>>=◌, arith, Occurs, inl, inr,
  Option-cases,
}
use enigma_p2p.Tasks.Result.{
  TaskType, TaskResult, RawResult, compute_result, deploy_result, failed_result, set_result_status,
  result_status, build_from_raw, result_task_id,
}
use enigma_p2p.Tasks.Task.{Task, outside_payload, build_outside_task, new_outside_task, set_result}
use enigma_p2p.Tasks.Json.{TaskJson, null, to_db_json, deserialize_task}
use enigma_p2p.Verifier.Check.{ethereum_failure_err}
use enigma_p2p.Actions.StoreResult.{
  build_task_result, refused, Services, verify_result, is_ethereum_failure, mark_failure,
  store_result,
}
use enigma_p2p.Actions.Guarded.{update_and_store-Outside, store_result_lem}

set_result_status-none : (r : TaskResult) → result_status (set_result_status none r) ≡ none
unfolding result_status set_result_status
set_result_status-none (compute_result id s c) = refl
set_result_status-none (deploy_result id s c h) = refl
set_result_status-none (failed_result id s f) = refl

new_outside_task-payload :
    (id : String) (type : TaskType) (r : TaskResult)
    → (new_outside_task id type r).payload ≡ outside_payload
unfolding new_outside_task set_result
new_outside_task-payload id type r = ground arith

build_outside_task-payload :
    (type : TaskType) (raw : RawResult) (t : Task)
    → build_outside_task type raw ≡ some t
    → t.payload ≡ outside_payload
unfolding build_outside_task
build_outside_task-payload type raw t e = go (build_from_raw type raw) refl
  where
    go : (o : Option TaskResult) → build_from_raw type raw ≡ o → t.payload ≡ outside_payload
    go none p = absurd (ground (arith, p, e))
    go (some r) p =
        let same : new_outside_task (result_task_id r) type r ≡ t = ground (arith, p, e) in
        ap (λ x. x.payload) (sym same) ∙ new_outside_task-payload (result_task_id r) type r

-- An outside task whose result has no status is read as `null`.
read_back :
    (t : Task) (r : TaskResult)
    → t.payload ≡ outside_payload
    → t.result ≡ some r
    → result_status r ≡ none
    → (to_db_json t >>= λ j. some (deserialize_task j)) ≡ some null
unfolding to_db_json deserialize_task
read_back t r outside has plain = rw (outside, has, plain) refl

-- A marked task is an outside task with a result of no status.
mark_failure-inv :
    (t m : Task)
    → t.payload ≡ outside_payload
    → mark_failure true t ≡ some m
    → (m.payload ≡ outside_payload)
      × ((r : TaskResult) × (m.result ≡ some r) × (result_status r ≡ none))
unfolding mark_failure
mark_failure-inv t m outside e = elim (Option-cases t.result) [
  | inl missing ↦ absurd (ground (arith, missing, e))
  | inr (r, has) ↦
      let plain : Task = record t { result = some (set_result_status none r) } in
      let same : plain ≡ m = ground (arith, has, e) in
      (
        ap (λ x. x.payload) (sym same) ∙ outside,
        (set_result_status none r, ap (λ x. x.result) (sym same), set_result_status-none r),
      )
]

-- Where the verifier reports a failure due to Ethereum, the task that is stored for it, if it can be
-- stored, is read back as `null`.
pub ethereum_failure_unreadable :
    (services : Services) (type : TaskType) (raw : RawResult) (id address : String) (r : TaskResult)
    (t : Task) (j : TaskJson)
    → build_task_result type raw ≡ some (some r)
    → (verify_result services r address).error ≡ some (refused ethereum_failure_err)
    → Occurs t (store_result services type raw id address).tasks
    → to_db_json t ≡ some j
    → deserialize_task j ≡ null
unfolding is_ethereum_failure
ethereum_failure_unreadable services type raw id address r t j built failure o stored =
    let (_, (t', made, same)) =
      update_and_store-Outside services type raw id r address (verify_result services r address) t
        (subst (λ x. Occurs t x.tasks) (store_result_lem services type raw id address r built) o) in
    let marked : mark_failure true t' ≡ some t =
      ap (λ e. mark_failure (is_ethereum_failure e) t') (sym failure) ∙ same in
    let (outside, (r', has, plain)) =
      mark_failure-inv t' t (build_outside_task-payload type raw t' made) marked in
    let q : some (deserialize_task j) ≡ some null =
      sym (ap (λ x. x >>= (λ y. some (deserialize_task y))) stored)
      ∙ read_back t r' outside has plain in
    cc
