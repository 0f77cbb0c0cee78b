-- ===== src/Tasks/Result.antt =====
-- src/worker/tasks/Result.js: the results of tasks, built from the objects of Core and of peers.
use enigma_p2p.Base.{ℕ, String, Bool, true, false, Option, none, some, List, is_some, ◌>>=◌}

-- The status names of `TASK_STATUS` in common/constants.js.
pub data Status : Type 0 where
  unverified in_progress success failed failed_ethereum_cb : Status

-- The values of `CORE_REQUESTS` that are types of tasks; any other text is `other_type`.
pub data TaskType : Type 0 where
  deploy_secret_contract compute_task failed_task other_type : TaskType

abbrev pub Bytes : Type 0
Bytes = List ℕ

-- A change of a contract's state. `data` is `none` where it is missing or `null`.
pub record Delta : Type 0 where
  pub key : ℕ
  pub bytes : Option Bytes

-- The fields of a `ComputeResult`. A `delta` of `null` is `none`.
pub record Computed : Type 0 where
  pub output : Bytes
  pub delta : Option Delta
  pub used_gas : ℕ
  pub ethereum_payload : String
  pub ethereum_address : String
  pub signature : String

-- The fields of a `FailedResult`.
pub record Failure : Type 0 where
  pub output : Bytes
  pub used_gas : ℕ
  pub signature : String

-- The class hierarchy: the task's id, the status (`none` for `undefined`), and what the class adds.
pub data TaskResult : Type 0 where
  compute_result : String → Option Status → Computed → TaskResult
  deploy_result : String → Option Status → Computed → String → TaskResult
  failed_result : String → Option Status → Failure → TaskResult

unfoldable pub result_task_id : TaskResult → String
result_task_id (compute_result id s c) = id
result_task_id (deploy_result id s c h) = id
result_task_id (failed_result id s f) = id

unfoldable pub result_status : TaskResult → Option Status
result_status (compute_result id s c) = s
result_status (deploy_result id s c h) = s
result_status (failed_result id s f) = s

unfoldable pub set_result_status : Option Status → TaskResult → TaskResult
set_result_status t (compute_result id s c) = compute_result id t c
set_result_status t (deploy_result id s c h) = deploy_result id t c h
set_result_status t (failed_result id s f) = failed_result id t f

abbrev pub is_success_status : Option Status → Bool
is_success_status (some success) = true
is_success_status _ = false

abbrev pub is_failed_status : Option Status → Bool
is_failed_status (some failed) = true
is_failed_status _ = false

unfoldable pub result_is_success : TaskResult → Bool
unfolding result_status
result_is_success r = is_success_status (result_status r)

unfoldable pub result_output : TaskResult → Bytes
result_output (compute_result id s c) = c.output
result_output (deploy_result id s c h) = c.output
result_output (failed_result id s f) = f.output

-- `delta && delta.data`
unfoldable pub has_delta : Computed → Bool
has_delta c = elim c.delta [ none ↦ false | some d ↦ is_some d.bytes ]

-- An object from which a result is built; an attribute that it lacks is `none`. The attribute
-- `delta` may be there and `null`.
pub record RawResult : Type 0 where
  pub task_id : Option String
  pub status : Option Status
  pub output : Option Bytes
  pub delta : Option (Option Delta)
  pub used_gas : Option ℕ
  pub ethereum_payload : Option String
  pub ethereum_address : Option String
  pub signature : Option String
  pub pre_code_hash : Option String

unfoldable pub build_compute_result : RawResult → Option TaskResult
build_compute_result r = do
  id ← r.task_id
  status ← r.status
  output ← r.output
  delta ← r.delta
  gas ← r.used_gas
  payload ← r.ethereum_payload
  address ← r.ethereum_address
  signature ← r.signature
  some (
      compute_result id (some status) (record {
        output = output;
        delta = delta;
        used_gas = gas;
        ethereum_payload = payload;
        ethereum_address = address;
        signature = signature;
      }))

unfoldable pub build_deploy_result : RawResult → Option TaskResult
build_deploy_result r = do
  id ← r.task_id
  status ← r.status
  output ← r.output
  delta ← r.delta
  gas ← r.used_gas
  payload ← r.ethereum_payload
  address ← r.ethereum_address
  signature ← r.signature
  hash ← r.pre_code_hash
  some (
      deploy_result id (some status)
        (record {
          output = output;
          delta = delta;
          used_gas = gas;
          ethereum_payload = payload;
          ethereum_address = address;
          signature = signature;
        })
        hash)

-- The status of the object is not read: a failed result is FAILED.
unfoldable pub build_failed_result : RawResult → Option TaskResult
build_failed_result r = do
  id ← r.task_id
  output ← r.output
  gas ← r.used_gas
  signature ← r.signature
  some (
      failed_result id (some failed)
        (record { output = output; used_gas = gas; signature = signature }))

-- The status is overwritten by the one that the type implies.
unfoldable pub build_from_raw : TaskType → RawResult → Option TaskResult
unfolding build_compute_result build_deploy_result build_failed_result
build_from_raw failed_task r = build_failed_result (record r { status = some failed })
build_from_raw deploy_secret_contract r = build_deploy_result (record r { status = some success })
build_from_raw compute_task r = build_compute_result (record r { status = some success })
build_from_raw other_type r = none

-- `toDbJson`, after `JSON.stringify` has dropped a status that is `undefined`.
unfoldable pub result_to_db_json : TaskResult → RawResult
result_to_db_json (compute_result id s c) = record {
  task_id = some id;
  status = s;
  output = some c.output;
  delta = some c.delta;
  used_gas = some c.used_gas;
  ethereum_payload = some c.ethereum_payload;
  ethereum_address = some c.ethereum_address;
  signature = some c.signature;
  pre_code_hash = none;
}
result_to_db_json (deploy_result id s c h) = record {
  task_id = some id;
  status = s;
  output = some c.output;
  delta = some c.delta;
  used_gas = some c.used_gas;
  ethereum_payload = some c.ethereum_payload;
  ethereum_address = some c.ethereum_address;
  signature = some c.signature;
  pre_code_hash = some h;
}
result_to_db_json (failed_result id s f) = record {
  task_id = some id;
  status = s;
  output = some f.output;
  delta = none;
  used_gas = some f.used_gas;
  ethereum_payload = none;
  ethereum_address = none;
  signature = some f.signature;
  pre_code_hash = none;
}
