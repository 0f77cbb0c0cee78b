-- ===== src/Verifier/Chain.antt =====
-- The parsers of the chain's events in src/ethereum/EnigmaContractReaderAPI.js, for the events that
-- reach the listeners, and the service names that EthereumServices.js gives them.
use enigma_p2p.Base.{ℕ, String}
use enigma_p2p.Base.Text.{remove0x}
use enigma_p2p.Verifier.Listeners.{
  CreationEvent, created, cancelled, SubmissionEvent, success_submission, failure_submission,
  failure_by_ethereum, deployment,
}

-- The raw events, with the task id as web3 hands it over.
pub data RawCreation : Type 0 where
  task_record_created : (task_id inputs_hash : String) (gas_limit block_number : ℕ) → RawCreation
  task_fee_returned : (task_id : String) → RawCreation

pub data RawSubmission : Type 0 where
  receipt_verified : (task_id delta_hash output_hash : String) (delta_index : ℕ) → RawSubmission
  receipt_failed : (task_id output_hash : String) → RawSubmission
  receipt_failed_eth : (task_id : String) → RawSubmission
  secret_contract_deployed : (task_id code_hash delta_hash : String) → RawSubmission

-- The id of a returned fee is handed on as it is; every other parser removes `0x`.
unfoldable pub parse_creation : RawCreation → CreationEvent
unfolding remove0x
parse_creation (task_record_created id inputs_hash gas block) =
    created (remove0x id)
      (record { inputs_hash = inputs_hash; gas_limit = gas; block_number = block })
parse_creation (task_fee_returned id) = cancelled id

unfoldable pub submission_id : RawSubmission → String
unfolding remove0x
submission_id (receipt_verified id delta_hash output_hash index) = remove0x id
submission_id (receipt_failed id output_hash) = remove0x id
submission_id (receipt_failed_eth id) = remove0x id
submission_id (secret_contract_deployed id code_hash delta_hash) = remove0x id

unfoldable pub parse_submission : RawSubmission → SubmissionEvent
parse_submission (receipt_verified id delta_hash output_hash index) =
    success_submission output_hash delta_hash index
parse_submission (receipt_failed id output_hash) = failure_submission output_hash
parse_submission (receipt_failed_eth id) = failure_by_ethereum
parse_submission (secret_contract_deployed id code_hash delta_hash) =
    deployment delta_hash code_hash
