-- ===== src/Tasks/RoundTrip.antt =====
-- Storing a task and reading it back (Task.js, ComputeTask.js, DeployTask.js, OutsideTask.js).
use enigma_p2p.Base.{
  ap, ℕ, String, ◌≡◌, refl, true, Option, none, some, ◌>>=◌, if◌then◌else◌, eq_refl,
}
use enigma_p2p.Base.Text.{remove0x}
use text.Mathlib.Text.{◌==◌ as str_eq}
use enigma_p2p.Tasks.Result.{
  Status, unverified, in_progress, success, failed, TaskType, deploy_secret_contract, compute_task,
  failed_task, Computed, Failure, TaskResult, compute_result, deploy_result, failed_result,
  result_task_id, result_is_success,
}
use enigma_p2p.Tasks.Task.{Task, compute_payload, deploy_payload, outside_payload, new_outside_task}
use enigma_p2p.Tasks.Json.{loaded, to_db_json, deserialize_task, is_truthy}

-- How far a task of this worker is: waiting for its verification, passed to Core, done (with the
-- hash of the code, for a deployment), or failed.
pub data Progress : Type 0 where
  waiting running : Progress
  done : Computed → String → Progress
  broken : Failure → Progress

abbrev pub progress_status : Progress → Status
progress_status waiting = unverified
progress_status running = in_progress
progress_status (done c h) = success
progress_status (broken f) = failed

abbrev pub compute_progress : String → Progress → Option TaskResult
compute_progress id waiting = none
compute_progress id running = none
compute_progress id (done c h) = some (compute_result id (some success) c)
compute_progress id (broken f) = some (failed_result id (some failed) f)

abbrev pub deploy_progress : String → Progress → Option TaskResult
deploy_progress id waiting = none
deploy_progress id running = none
deploy_progress id (done c h) = some (deploy_result id (some success) c h)
deploy_progress id (broken f) = some (failed_result id (some failed) f)

-- A text with no `0x` in front.
abbrev pub IsClean : String → Type 0
IsClean s = remove0x s ≡ s

-- A result of another worker, under the type with which it was published.
pub data IsPublished : TaskType → TaskResult → Type 0 where
  published_compute :
      (id : String) (c : Computed) → IsPublished compute_task (compute_result id (some success) c)
  published_deploy :
      (id : String) (c : Computed) (h : String)
      → IsPublished deploy_secret_contract (deploy_result id (some success) c h)
  published_failed :
      (id : String) (f : Failure) → IsPublished failed_task (failed_result id (some failed) f)

-- The tasks that the worker stores: ids and addresses are kept without `0x`, a deployment has its
-- code, the result is for the task and agrees with its status.
pub data IsStorable : Task → Type 0 where
  stored_compute :
      (p : Progress) (id args fn key contract : String) (gas block : ℕ)
      → IsClean id
      → IsClean contract
      → IsStorable (record {
        task_id = id;
        status = progress_status p;
        result = compute_progress id p;
        type = compute_task;
        contract_addr = some contract;
        gas_limit = some gas;
        block_number = some block;
        payload = compute_payload args fn key;
      })
  stored_deploy :
      (p : Progress) (id code args fn key contract : String) (gas block : ℕ)
      → IsClean id
      → IsClean contract
      → is_truthy (some code) ≡ true
      → IsStorable (record {
        task_id = id;
        status = progress_status p;
        result = deploy_progress id p;
        type = deploy_secret_contract;
        contract_addr = some contract;
        gas_limit = some gas;
        block_number = some block;
        payload = deploy_payload code args fn key;
      })
  stored_outside :
      (type : TaskType) (r : TaskResult)
      → IsPublished type r
      → IsClean (result_task_id r)
      → IsStorable (new_outside_task (result_task_id r) type r)

same_id : (id : String) → str_eq id id ≡ true
same_id id = eq_refl id

new_outside_task_lem :
    (id : String) (type : TaskType) (r : TaskResult)
    → result_task_id r ≡ id
    → IsClean id
    → new_outside_task id type r ≡ record {
      task_id = id;
      status = if result_is_success r then success else failed;
      result = some r;
      type = type;
      contract_addr = none;
      gas_limit = none;
      block_number = none;
      payload = outside_payload;
    }
unfolding new_outside_task
new_outside_task_lem id type r e ci = rw (e, ci, same_id id)

-- Reading what was stored gives the task back: its id, status, result, addresses, limits and code.
pub deserialize_task-to_db_json :
    (t : Task) → IsStorable t → (to_db_json t >>= λ j. some (deserialize_task j)) ≡ some (loaded t)
unfolding to_db_json deserialize_task result_task_id result_is_success
deserialize_task-to_db_json t (stored_compute waiting id args fn key contract gas block ci cn) =
    rw (ci, cn)
deserialize_task-to_db_json t (stored_compute running id args fn key contract gas block ci cn) =
    rw (ci, cn)
deserialize_task-to_db_json t (stored_compute (done c h) id args fn key contract gas block ci cn) =
    rw (ci, cn, same_id id)
deserialize_task-to_db_json t (stored_compute (broken f) id args fn key contract gas block ci cn) =
    rw (ci, cn, same_id id)
deserialize_task-to_db_json t
      (stored_deploy waiting id code args fn key contract gas block ci cn x) =
    rw (x, ci, cn)
deserialize_task-to_db_json t
      (stored_deploy running id code args fn key contract gas block ci cn x) =
    rw (x, ci, cn)
deserialize_task-to_db_json t
      (stored_deploy (done c h) id code args fn key contract gas block ci cn x) =
    rw (x, ci, cn, same_id id)
deserialize_task-to_db_json t
      (stored_deploy (broken f) id code args fn key contract gas block ci cn x) =
    rw (x, ci, cn, same_id id)
deserialize_task-to_db_json t (stored_outside type r (published_compute id c) ci) =
    let built = new_outside_task_lem id compute_task (compute_result id (some success) c) refl ci in
    rw built (ap (λ x. some (loaded x)) built)
deserialize_task-to_db_json t (stored_outside type r (published_deploy id c h) ci) =
    let built =
      new_outside_task_lem id deploy_secret_contract (deploy_result id (some success) c h) refl
        ci in
    rw built (ap (λ x. some (loaded x)) built)
deserialize_task-to_db_json t (stored_outside type r (published_failed id f) ci) =
    let built = new_outside_task_lem id failed_task (failed_result id (some failed) f) refl ci in
    rw built (ap (λ x. some (loaded x)) built)
