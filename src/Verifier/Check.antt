-- ===== src/Verifier/Check.antt =====
-- The checks of EthereumVerifier.js on a task and its result: `_verifyHash`, `_checkDeployResult`,
-- `_checkComputeResult`, `_checkComputeResultEvent`, `_verifyTaskCreateParams`,
-- `_verifyTaskCreationNow` and `_verifyTaskSubmissionNow`.
use enigma_p2p.Base.{
  ℕ, suc, ◌-◌, String, Bool, true, false, not, Option, none, some, List, [], ◌∷◌, ◌==◌, leb,
  if◌then◌else◌, length, get_elem?,
}
use text.Mathlib.Text.{◌==◌ as str_eq}
use enigma_p2p.Tasks.Result.{
  Bytes, Computed, TaskResult, compute_result, deploy_result, failed_result,
}
use enigma_p2p.Tasks.Task.{Task, Payload, compute_payload, deploy_payload, outside_payload}

-- The errors of common/errors.js that a verification ends with, by class and message.
pub data VerifyError : Type 0 where
  type_err task_timeout_err task_cancelled_err task_failed_err ethereum_failure_err : VerifyError
  worker_selection_err epoch_missing_err : VerifyError
  no_delta delta_index_mismatch delta_hash_mismatch output_hash_mismatch : VerifyError
  tip_index_mismatch tip_hash_mismatch unexpected_delta inputs_hash_mismatch : VerifyError
  did_not_fail wrong_event no_delta_hashes task_cancelled_by_user unexpected_status : VerifyError
  contract_error thrown_error : VerifyError

-- `{isVerified, error}`
pub record Verdict : Type 0 where
  pub is_verified : Bool
  pub error : Option VerifyError

abbrev pub accept : Verdict
accept = record { is_verified = true; error = none }

abbrev pub reject : VerifyError → Verdict
reject e = record { is_verified = false; error = some e }

-- The tip that Core keeps of a contract: the last delta and its index.
pub record Tip : Type 0 where
  pub address : String
  pub key : ℕ
  pub bytes : Bytes

-- What the Enigma contract says of a secret contract and of a task.
pub record ContractParams : Type 0 where
  pub code_hash : String
  pub delta_hashes : Option (List String)

-- `ETHEREUM_TASK_STATUS`
pub data TaskRecordStatus : Type 0 where
  record_undefined record_created receipt_verified receipt_failed : TaskRecordStatus
  receipt_failed_eth receipt_failed_cancelled : TaskRecordStatus

pub record TaskParams : Type 0 where
  pub inputs_hash : String
  pub gas_limit : ℕ
  pub block_number : ℕ
  pub status : TaskRecordStatus
  pub output_hash : String

-- The data of a delta that `hasDelta` has found.
unfoldable pub delta_of : Computed → Option (ℕ × Bytes)
delta_of c = elim c.delta [
  | none ↦ none
  | some d ↦ elim d.bytes [ none ↦ none | some bytes ↦ some (d.key, bytes) ]
]

-- A wrong index does not end the check: the comparison of the hashes that follows overwrites the
-- error when it fails too.
unfoldable pub delta_error : (wrong_index wrong_hash : Bool) → Option VerifyError
delta_error wrong_index wrong_hash =
    if wrong_hash
    then some delta_hash_mismatch
    else if wrong_index
    then some delta_index_mismatch
    else none

-- `ETHEREUM_EMPTY_HASH`
abbrev pub empty_hash : String
empty_hash = "0x0000000000000000000000000000000000000000000000000000000000000000"

-- `hash` is keccak256 of the bytes, `hash_array` the hash of the length-prefixed texts, and
-- `hash_code` the hash of a deployment's code.
module _ (hash : Bytes → String) where
  -- A hash that is `undefined` never matches.
  unfoldable pub verify_hash : Option String → Bytes → Bool
  verify_hash none bytes = false
  verify_hash (some h) bytes = str_eq (hash bytes) h

  unfoldable pub check_deploy_result : Computed → Option String → Option String → Verdict
  check_deploy_result c delta_hash code_hash = elim (delta_of c) [
    | none ↦ reject no_delta
    | some (key, bytes) ↦
        if not (key == 0)
        then reject delta_index_mismatch
        else if not (verify_hash delta_hash bytes)
        then reject delta_hash_mismatch
        else if not (verify_hash code_hash c.output)
        then reject output_hash_mismatch
        else accept
  ]

  -- The end that the two checks of a compute result share.
  unfoldable pub check_output : Option VerifyError → Option String → Bytes → Verdict
  check_output (some e) output_hash output = reject e
  check_output none output_hash output =
      if not (verify_hash output_hash output) then reject output_hash_mismatch else accept

  -- With no delta, Core's tip must be the contract's last delta; an empty list has the last index
  -- -1, which no tip has.
  unfoldable pub tip_error : List String → Tip → Option VerifyError
  tip_error hashes tip =
      if not (suc tip.key == length hashes)
      then some tip_index_mismatch
      else if not (verify_hash (get_elem? hashes (length hashes - 1)) tip.bytes)
      then some tip_hash_mismatch
      else none

  unfoldable pub check_delta : List String → ℕ × Bytes → Option VerifyError
  unfolding delta_error
  check_delta hashes (key, bytes) =
      delta_error (leb (length hashes) key) (not (verify_hash (get_elem? hashes key) bytes))

  -- `none` is the `TypeError` of a result with no delta for which there is no local tip.
  unfoldable pub check_compute_result :
      TaskParams → List String → Computed → Option Tip → Option Verdict
  check_compute_result task hashes c tip = elim (delta_of c) [
    | some d ↦ some (check_output (check_delta hashes d) (some task.output_hash) c.output)
    | none ↦ elim tip [
      | none ↦ none
      | some t ↦ some (check_output (tip_error hashes t) (some task.output_hash) c.output)
    ]
  ]

  unfoldable pub delta_event_error : Option (ℕ × Bytes) → String → ℕ → Option VerifyError
  unfolding delta_error
  delta_event_error none delta_hash delta_index =
      if not (str_eq delta_hash empty_hash) then some unexpected_delta else none
  delta_event_error (some (key, bytes)) delta_hash delta_index =
      delta_error (not (key == delta_index)) (not (verify_hash (some delta_hash) bytes))

  unfoldable pub check_compute_result_event : Computed → String → String → ℕ → Verdict
  check_compute_result_event c output_hash delta_hash delta_index =
      check_output (delta_event_error (delta_of c) delta_hash delta_index) (some output_hash)
        c.output

-- What `_verifyTaskCreationNow` and `_verifyTaskSubmissionNow` resolve with: `canBeVerified` with the
-- verdict, not yet, or never (an exception inside the promise's executor).
pub data Now : Type 0 where
  answer : Verdict → Now
  later : Now
  unsettled : Now

-- The texts whose hash the task's record holds; `none` is a `TypeError`.
task_inputs : (String → String) → Task → Payload → Option (List String)
task_inputs hash_text t (deploy_payload code args fn key) =
    some (fn ∷ args ∷ hash_text code ∷ key ∷ [])
task_inputs hash_text t (compute_payload args fn key) = elim t.contract_addr [
  | none ↦ none
  | some a ↦ some (fn ∷ args ∷ a ∷ key ∷ [])
]
task_inputs hash_text t outside_payload = none

module _ (hash_text : String → String) (hash_array : List String → String) where
  unfoldable pub verify_task_create_params : String → Task → Option Verdict
  unfolding task_inputs
  verify_task_create_params inputs_hash t = elim (task_inputs hash_text t t.payload) [
    | none ↦ none
    | some inputs ↦
        some
          (if str_eq (hash_array inputs) inputs_hash then accept else reject inputs_hash_mismatch)
  ]

  -- `none` for the parameters is a call of the contract that fails.
  unfoldable pub verify_task_creation_now : Option TaskParams → Task → Now
  verify_task_creation_now none t = answer (reject thrown_error)
  verify_task_creation_now (some params) t = elim params.status [
    | record_created ↦ elim (verify_task_create_params params.inputs_hash t) [
      | none ↦ unsettled
      | some v ↦ answer v
    ]
    | record_undefined ↦ later
    | _ ↦ answer (reject unexpected_status)
  ]

module _ (hash : Bytes → String) where
  -- The case of a task whose receipt is on the chain, with the contract's parameters or `none` where
  -- reading them fails.
  unfoldable pub verify_receipt :
      TaskParams → Option ContractParams → TaskResult → Option Tip → Verdict
  verify_receipt params contract (failed_result id s f) tip = reject did_not_fail
  verify_receipt params none result tip = reject contract_error
  verify_receipt params (some contract) (deploy_result id s c h) tip = elim contract.delta_hashes [
    | none ↦ reject no_delta_hashes
    | some hashes ↦ check_deploy_result hash c (get_elem? hashes 0) (some contract.code_hash)
  ]
  verify_receipt params (some contract) (compute_result id s c) tip = elim contract.delta_hashes [
    | none ↦ reject no_delta_hashes
    | some hashes ↦ elim (check_compute_result hash params hashes c tip) [
      | none ↦ reject thrown_error
      | some v ↦ v
    ]
  ]

  unfoldable pub verify_failed_receipt : TaskParams → TaskResult → Verdict
  verify_failed_receipt params (failed_result id s f) =
      if verify_hash hash (some params.output_hash) f.output
      then accept
      else reject output_hash_mismatch
  verify_failed_receipt params result = reject task_failed_err

  -- A task that the chain knows but has no receipt for is answered later: `canBeVerified` is not set.
  -- The listener's block number is not renewed in that case, since `in` asks an array for an index,
  -- and a task id is none.
  unfoldable pub verify_task_submission_now :
      Option TaskParams → Option ContractParams → TaskResult → Option Tip → Now
  unfolding verify_receipt verify_failed_receipt
  verify_task_submission_now none contract result tip = answer (reject thrown_error)
  verify_task_submission_now (some params) contract result tip = elim params.status [
    | receipt_verified ↦ answer (verify_receipt params contract result tip)
    | receipt_failed ↦ answer (verify_failed_receipt params result)
    | receipt_failed_eth ↦ answer (reject ethereum_failure_err)
    | receipt_failed_cancelled ↦ answer (reject task_cancelled_by_user)
    | record_created ↦ later
    | record_undefined ↦ later
  ]
