-- ===== src/Actions/Commit.antt =====
-- src/worker/controller/actions/ethereum/CommitReceiptAction.js: the result of a finished task is
-- committed to the Enigma contract, and the state of Core is reverted where the chain refuses it.
use enigma_p2p.Base.{
  ℕ, ◌+◌, String, Bool, true, false, Option, none, some, List, [], ◌∷◌, ◌>>=◌, if◌then◌else◌,
}
use enigma_p2p.Tasks.Result.{
  Bytes, Delta, Computed, TaskResult, compute_result, deploy_result, failed_result, has_delta,
  result_is_success, result_output,
}
use enigma_p2p.Tasks.Task.{Task, Payload, deploy_payload}

-- The calls of the contract that the action makes.
pub data ChainCall : Type 0 where
  deploy_contract :
      (task_id pre_code_hash output_hash delta_hash payload address : String)
      → (gas : ℕ) → (signature : String) → ChainCall
  deploy_failure : (task_id output_hash : String) → (gas : ℕ) → (signature : String) → ChainCall
  commit_receipt :
      (contract : Option String)
      → (task_id delta_hash output_hash payload address : String) → (gas : ℕ) → (signature : String)
      → ChainCall
  commit_failure :
      (contract : Option String)
      → (task_id output_hash : String) → (gas : ℕ) → (signature : String) → ChainCall

-- How a call ends: with the events of the receipt, of which `ReceiptFailedETH` counts, or by an
-- exception.
pub data Sent : Type 0 where
  mined : (receipt_failed : Bool) → Sent
  refused_call : Sent

-- What Core is asked to take back.
pub data CoreRemoval : Type 0 where
  remove_contract : (address : Option String) → CoreRemoval
  remove_delta : (address : Option String) → (from to : ℕ) → CoreRemoval

-- What the action calls: the hash of `cryptography`, the contract, and Core, whose flag says that it
-- did as asked.
pub record Committing : Type 0 where
  pub hash : Bytes → String
  pub call : ChainCall → Sent
  pub remove : CoreRemoval → Bool

pub data CommitError : Type 0 where
  no_delta_error chain_error revert_error type_error : CommitError

-- The promise of `asyncExecute`: it resolves with an error or none, or it is rejected.
pub data CommitEnd : Type 0 where
  resolved : Option CommitError → CommitEnd
  commit_rejected : CommitEnd

pub record Commit : Type 0 where
  pub calls : List ChainCall
  pub removed : List CoreRemoval
  pub end : CommitEnd

unfoldable pub is_deploy_task : Payload → Bool
is_deploy_task (deploy_payload code args fn key) = true
is_deploy_task _ = false

-- The fields that `ComputeResult` and its subclass have; a failed result lacks their methods, and
-- calling one throws.
unfoldable pub computed_of : TaskResult → Option Computed
computed_of (compute_result id s c) = some c
computed_of (deploy_result id s c h) = some c
computed_of (failed_result id s f) = none

unfoldable pub used_gas_of : TaskResult → ℕ
used_gas_of (compute_result id s c) = c.used_gas
used_gas_of (deploy_result id s c h) = c.used_gas
used_gas_of (failed_result id s f) = f.used_gas

unfoldable pub signature_of : TaskResult → String
signature_of (compute_result id s c) = c.signature
signature_of (deploy_result id s c h) = c.signature
signature_of (failed_result id s f) = f.signature

unfoldable pub pre_code_hash_of : TaskResult → Option String
pre_code_hash_of (deploy_result id s c h) = some h
pre_code_hash_of _ = none

-- `getDelta()` of a result with a delta, with its data.
unfoldable pub delta_bytes : Computed → Option (Delta × Bytes)
delta_bytes c = do d ← c.delta; b ← d.bytes; some (d, b)

-- The arguments of `deploySecretContract`; `none` is an exception while they are read.
unfoldable pub deploy_call : (Bytes → String) → Task → TaskResult → Computed → Option ChainCall
deploy_call hash t r c = do
  h ← pre_code_hash_of r
  (d, b) ← delta_bytes c
  some (
      deploy_contract t.task_id h (hash c.output) (hash b) c.ethereum_payload c.ethereum_address
        c.used_gas c.signature)

-- `_revertState`
unfoldable pub revert_state : Committing → CoreRemoval → Option CommitError
revert_state env msg = if env.remove msg then none else some revert_error

-- The commit and the revert of a deployment; an exception while the arguments are read is caught as
-- one of the call.
unfoldable pub deploy_sent : Committing → Task → Option ChainCall → Commit
unfolding revert_state
deploy_sent env t none = record {
  calls = [];
  removed = remove_contract t.contract_addr ∷ [];
  end = resolved (some type_error);
}
deploy_sent env t (some call) = elim (env.call call) [
  | mined false ↦ record { calls = call ∷ []; removed = []; end = resolved none }
  | mined true ↦ record {
    calls = call ∷ [];
    removed = remove_contract t.contract_addr ∷ [];
    end = resolved (revert_state env (remove_contract t.contract_addr));
  }
  | refused_call ↦ record {
    calls = call ∷ [];
    removed = remove_contract t.contract_addr ∷ [];
    end = resolved (some chain_error);
  }
]

-- The commit of a failure, of either type.
unfoldable pub failure_sent : Committing → ChainCall → Commit
failure_sent env call = record {
  calls = call ∷ [];
  removed = [];
  end = elim (env.call call) [
    | mined _ ↦ resolved none
    | refused_call ↦ resolved (some chain_error)
  ];
}

-- `_commitDeployTask`
unfoldable pub commit_deploy_task : Committing → Task → TaskResult → Commit
unfolding failure_sent
commit_deploy_task env t r =
    if result_is_success r
    then (elim (computed_of r) [
      | none ↦ record { calls = []; removed = []; end = commit_rejected }
      | some c ↦
          if has_delta c
          then deploy_sent env t (deploy_call env.hash t r c)
          else record { calls = []; removed = []; end = resolved (some no_delta_error) }
    ])
    else failure_sent env
        (deploy_failure t.task_id (env.hash (result_output r)) (used_gas_of r) (signature_of r))

-- `ETHEREUM_EMPTY_HASH`
abbrev pub empty_hash : String
empty_hash = "0x0000000000000000000000000000000000000000000000000000000000000000"

unfoldable pub receipt_call : (Bytes → String) → Task → Computed → ChainCall
receipt_call hash t c =
    commit_receipt t.contract_addr t.task_id
      (elim (delta_bytes c) [ none ↦ empty_hash | some (d, b) ↦ hash b ]) (hash c.output)
      c.ethereum_payload c.ethereum_address c.used_gas c.signature

-- The revert of a computation whose receipt has failed: of its delta, if it has one.
unfoldable pub revert_delta : Committing → Task → ChainCall → Computed → Commit
unfolding revert_state
revert_delta env t call c = elim (delta_bytes c) [
  | none ↦ record { calls = call ∷ []; removed = []; end = resolved none }
  | some (d, b) ↦
      let msg = remove_delta t.contract_addr d.key (d.key + 1) in
      record { calls = call ∷ []; removed = msg ∷ []; end = resolved (revert_state env msg) }
]

-- `_commitComputeTask`. In the handler of an exception of the call the text of the log names `e`,
-- which is not declared: that throws in turn, and nothing after it runs.
unfoldable pub commit_compute_task : Committing → Task → TaskResult → Commit
unfolding failure_sent
commit_compute_task env t r =
    if result_is_success r
    then (elim (computed_of r) [
      | none ↦ record { calls = []; removed = []; end = commit_rejected }
      | some c ↦
          let call = receipt_call env.hash t c in
          elim (env.call call) [
            | mined false ↦ record { calls = call ∷ []; removed = []; end = resolved none }
            | mined true ↦ revert_delta env t call c
            | refused_call ↦ record { calls = call ∷ []; removed = []; end = commit_rejected }
          ]
    ])
    else failure_sent env (
        commit_failure t.contract_addr t.task_id (env.hash (result_output r)) (used_gas_of r)
          (signature_of r))

-- `asyncExecute`; a task with no result throws.
unfoldable pub commit_receipt_of : Committing → Task → Commit
commit_receipt_of env t = elim t.result [
  | none ↦ record { calls = []; removed = []; end = commit_rejected }
  | some r ↦
      if is_deploy_task t.payload then commit_deploy_task env t r else commit_compute_task env t r
]
