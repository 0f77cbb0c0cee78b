-- ===== src/Tasks/Json.antt =====
-- The stored form of a task: `toDbJson` and `fromDbJson` of ComputeTask, DeployTask and OutsideTask,
-- and `_serializeTask` and `_deserializeTask` of TaskManager.js. Stored text is `JSON.stringify` of
-- an object, which `JSON.parse` gives back without the fields that are `undefined`.
use enigma_p2p.Base.{ℕ, String, Bool, true, false, not, Option, none, some, ◌>>=◌, if◌then◌else◌}
use text.Mathlib.Text.{◌==◌ as str_eq}
use enigma_p2p.Tasks.Result.{
  Status, TaskType, other_type, TaskResult, RawResult, is_success_status, is_failed_status,
  result_status, result_to_db_json, build_compute_result, build_deploy_result, build_failed_result,
}
use enigma_p2p.Tasks.Task.{
  Task, Payload, compute_payload, deploy_payload, outside_payload, set_result, set_status,
  is_finished, new_compute_task, new_deploy_task, build_outside_task,
}

-- An object that holds a task; a field that it lacks is `none`.
pub record TaskJson : Type 0 where
  pub outside_task : Bool
  pub status : Option Status
  pub type : Option TaskType
  pub task_id : Option String
  pub pre_code : Option String
  pub encrypted_args : Option String
  pub encrypted_fn : Option String
  pub user_dh_key : Option String
  pub gas_limit : Option ℕ
  pub contract_address : Option String
  pub block_number : Option ℕ
  pub result : Option RawResult

-- `this._result.toDbJson()` where the task is finished; `none` is the `TypeError` of a finished task
-- that has no result.
unfoldable pub finished_result : Task → Option (Option RawResult)
unfolding is_finished result_to_db_json
finished_result t =
    if is_finished t then (do r ← t.result; some (some (result_to_db_json r))) else some none

task_json : Task → Option String → (args fn key : String) → Option RawResult → TaskJson
task_json t code args fn key r = record {
  outside_task = false;
  status = some t.status;
  type = none;
  task_id = some t.task_id;
  pre_code = code;
  encrypted_args = some args;
  encrypted_fn = some fn;
  user_dh_key = some key;
  gas_limit = t.gas_limit;
  contract_address = t.contract_addr;
  block_number = t.block_number;
  result = r;
}

-- An outside task stores its result's status, and the result.
outside_json : Task → TaskResult → TaskJson
unfolding result_status result_to_db_json
outside_json t r = record {
  outside_task = true;
  status = result_status r;
  type = some t.type;
  task_id = some t.task_id;
  pre_code = none;
  encrypted_args = none;
  encrypted_fn = none;
  user_dh_key = none;
  gas_limit = none;
  contract_address = none;
  block_number = none;
  result = some (result_to_db_json r);
}

to_db_json_of : Task → Payload → Option TaskJson
unfolding finished_result task_json outside_json
to_db_json_of t (compute_payload args fn key) = do
  r ← finished_result t
  some (task_json t none args fn key r)
to_db_json_of t (deploy_payload code args fn key) = do
  r ← finished_result t
  some (task_json t (some code) args fn key r)
to_db_json_of t outside_payload = do r ← t.result; some (outside_json t r)

-- `none` is a `TypeError`.
unfoldable pub to_db_json : Task → Option TaskJson
unfolding to_db_json_of
to_db_json t = to_db_json_of t t.payload

-- `ComputeTask.buildTask` and `DeployTask.buildTask`
unfoldable pub build_compute_task : TaskJson → Option Task
unfolding new_compute_task
build_compute_task j = do
  id ← j.task_id
  args ← j.encrypted_args
  fn ← j.encrypted_fn
  key ← j.user_dh_key
  gas ← j.gas_limit
  contract ← j.contract_address
  block ← j.block_number
  some (new_compute_task id args fn key gas contract block)

unfoldable pub build_deploy_task : TaskJson → Option Task
unfolding new_deploy_task
build_deploy_task j = do
  id ← j.task_id
  code ← j.pre_code
  args ← j.encrypted_args
  fn ← j.encrypted_fn
  key ← j.user_dh_key
  gas ← j.gas_limit
  contract ← j.contract_address
  block ← j.block_number
  some (new_deploy_task id code args fn key gas contract block)

-- What reading a stored task gives: a task, `null`, or an exception.
pub data Loaded : Type 0 where
  loaded : Task → Loaded
  null : Loaded
  type_error : Loaded

-- `task.setResult(result)`, where a result that could not be built is `null` and changes nothing.
unfoldable pub set_built : Option TaskResult → Task → Task
unfolding set_result
set_built none t = t
set_built (some r) t = set_result r t

-- A result of status SUCCESS is read as a compute result, any other as a failed one.
compute_with_result : Option RawResult → Task → Task
unfolding set_built build_compute_result build_failed_result
compute_with_result none t = t
compute_with_result (some raw) t =
    if is_success_status raw.status
    then set_built (build_compute_result raw) t
    else set_built (build_failed_result raw) t

-- A result of any status but FAILED is read as a deploy result.
deploy_with_result : Option RawResult → Task → Task
unfolding set_built build_deploy_result build_failed_result
deploy_with_result none t = t
deploy_with_result (some raw) t =
    if is_failed_status raw.status
    then set_built (build_failed_result raw) t
    else set_built (build_deploy_result raw) t

-- The rest of `fromDbJson` once the task is built: `null._setStatus` throws.
load_as : Option Task → Option Status → (Task → Task) → Loaded
unfolding set_status
load_as t none attach = null
load_as none (some s) attach = type_error
load_as (some t) (some s) attach = loaded (attach (set_status s t))

unfoldable pub compute_from_db_json : TaskJson → Loaded
unfolding load_as build_compute_task compute_with_result
compute_from_db_json j = load_as (build_compute_task j) j.status (compute_with_result j.result)

unfoldable pub deploy_from_db_json : TaskJson → Loaded
unfolding load_as build_deploy_task deploy_with_result
deploy_from_db_json j = load_as (build_deploy_task j) j.status (deploy_with_result j.result)

outside_of : Option Status → Option TaskType → Option RawResult → Loaded
unfolding build_outside_task
outside_of none type raw = null
outside_of (some s) none raw = null
outside_of (some s) (some other_type) none = null
outside_of (some s) (some type) none = type_error
outside_of (some s) (some type) (some raw) = elim (build_outside_task type raw) [
  | none ↦ null
  | some t ↦ loaded t
]

unfoldable pub outside_from_db_json : TaskJson → Loaded
unfolding outside_of
outside_from_db_json j = outside_of j.status j.type j.result

-- A text that is missing or empty is false.
unfoldable pub is_truthy : Option String → Bool
is_truthy none = false
is_truthy (some s) = not (str_eq s "")

unfoldable pub deserialize_task : TaskJson → Loaded
unfolding outside_from_db_json deploy_from_db_json compute_from_db_json is_truthy
deserialize_task j =
    if j.outside_task
    then outside_from_db_json j
    else if is_truthy j.pre_code
    then deploy_from_db_json j
    else compute_from_db_json j
