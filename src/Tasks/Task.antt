-- ===== src/Tasks/Task.antt =====
-- src/worker/tasks/Task.js and its subclasses ComputeTask, DeployTask and OutsideTask.
use enigma_p2p.Base.{ℕ, String, Bool, Option, none, some, ◌>>=◌, if◌then◌else◌, ◌||◌}
use enigma_p2p.Base.Text.{remove0x}
use text.Mathlib.Text.{◌==◌ as str_eq}
use enigma_p2p.Tasks.Result.{
  Status, unverified, success, failed, TaskType, deploy_secret_contract, compute_task, TaskResult,
  result_task_id, result_is_success, is_success_status, is_failed_status, RawResult, build_from_raw,
}

-- What a subclass adds to a task. The code of a deployment is a text; where it comes as an array of
-- bytes, as ProxyDispatcherAction.js leaves it, an empty one is not taken for a missing one, as the
-- empty text is.
pub data Payload : Type 0 where
  compute_payload : (encrypted_args encrypted_fn user_dh_key : String) → Payload
  deploy_payload : (pre_code encrypted_args encrypted_fn user_dh_key : String) → Payload
  outside_payload : Payload

-- `contract_addr` is `none` for `null`, and the numbers for `undefined`, which an outside task has.
pub record Task : Type 0 where
  pub task_id : String
  pub status : Status
  pub result : Option TaskResult
  pub type : TaskType
  pub contract_addr : Option String
  pub gas_limit : Option ℕ
  pub block_number : Option ℕ
  pub payload : Payload

-- A result is attached if it is for this task, and decides the status.
unfoldable pub set_result : TaskResult → Task → Task
unfolding result_task_id result_is_success
set_result r t =
    if str_eq (result_task_id r) t.task_id
    then record t { result = some r; status = if result_is_success r then success else failed }
    else t

unfoldable pub set_status : Status → Task → Task
set_status s t = record t { status = s }

unfoldable pub set_gas_limit : Option ℕ → Task → Task
set_gas_limit g t = record t { gas_limit = g }

unfoldable pub set_block_number : Option ℕ → Task → Task
set_block_number b t = record t { block_number = b }

unfoldable pub is_success : Task → Bool
is_success t = is_success_status (some t.status)

unfoldable pub is_failed : Task → Bool
is_failed t = is_failed_status (some t.status)

unfoldable pub is_finished : Task → Bool
unfolding is_success is_failed
is_finished t = is_success t || is_failed t

-- The constructors of the subclasses.
unfoldable pub new_compute_task :
    (task_id args fn key : String) → ℕ → (contract : String) → ℕ → Task
unfolding remove0x
new_compute_task id args fn key gas contract block = record {
  task_id = remove0x id;
  status = unverified;
  result = none;
  type = compute_task;
  contract_addr = some (remove0x contract);
  gas_limit = some gas;
  block_number = some block;
  payload = compute_payload args fn key;
}

unfoldable pub new_deploy_task :
    (task_id pre_code args fn key : String) → ℕ → (contract : String) → ℕ → Task
unfolding remove0x
new_deploy_task id code args fn key gas contract block = record {
  task_id = remove0x id;
  status = unverified;
  result = none;
  type = deploy_secret_contract;
  contract_addr = some (remove0x contract);
  gas_limit = some gas;
  block_number = some block;
  payload = deploy_payload code args fn key;
}

unfoldable pub new_outside_task : String → TaskType → TaskResult → Task
unfolding remove0x set_result
new_outside_task id type r = set_result r (record {
  task_id = remove0x id;
  status = unverified;
  result = none;
  type = type;
  contract_addr = none;
  gas_limit = none;
  block_number = none;
  payload = outside_payload;
})

-- `OutsideTask.buildTask`
unfoldable pub build_outside_task : TaskType → RawResult → Option Task
unfolding build_from_raw new_outside_task
build_outside_task type raw = do
  r ← build_from_raw type raw
  some (new_outside_task (result_task_id r) type r)
