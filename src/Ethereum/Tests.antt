-- ===== src/Ethereum/Tests.antt =====
-- The theorem of Ethereum at a deployment whose callback on Ethereum has failed.
use enigma_p2p.Base.{◌≡◌, ◌⊎◌, refl, Bool, true, false, Option, none, some, [], ◌∷◌, if◌then◌else◌}
use enigma_p2p.Tasks.Result.{
  success, deploy_secret_contract, Computed, TaskResult, deploy_result, result_is_success,
  has_delta,
}
use enigma_p2p.Tasks.Task.{Task, deploy_payload}
use enigma_p2p.Actions.Commit.{
  ChainCall, deploy_contract, deploy_failure, commit_receipt, commit_failure, Sent, mined,
  Committing, computed_of, is_deploy_task, commit_receipt_of, commit_deploy_task, deploy_sent,
  deploy_call, pre_code_hash_of, delta_bytes, revert_state,
}
use enigma_p2p.Actions.Settled.{changes}
use enigma_p2p.Ethereum.Writer.{
  tx_receipt, tx_confirmation, ContractEvent, receipt_failed_eth, event_of, is_failure_call,
  Network, send_call, resolve_logic, tx_outcome, on_tx_event, validate_tx_params, gas_out_of_range,
}
use enigma_p2p.Ethereum.Confirmed.{Deep}
use enigma_p2p.Ethereum.Committed.{commit_receipt_of-Deep}

abbrev computed : Computed
computed = record {
  output = 1 ∷ [];
  delta = some (record { key = 0; bytes = some (9 ∷ []) });
  used_gas = 5;
  ethereum_payload = "";
  ethereum_address = "";
  signature = "";
}

abbrev deployed : TaskResult
deployed = deploy_result "c0" (some success) computed "h"

abbrev task : Task
task = record {
  task_id = "c0";
  status = success;
  result = some deployed;
  type = deploy_secret_contract;
  contract_addr = some "c0";
  gas_limit = some 5;
  block_number = some 7;
  payload = deploy_payload "" "" "" "";
}

abbrev only_failed : ContractEvent → Option Bool
only_failed receipt_failed_eth = some true
only_failed _ = some false

-- Every transaction is confirmed twice, and its callback has failed.
abbrev network : Network
network = record {
  events = λ call. tx_receipt ∷ tx_confirmation 1 ∷ tx_confirmation 2 ∷ [];
  found = λ call. only_failed;
}

abbrev seen : ChainCall → Sent
seen call = if is_failure_call call then mined false else mined true

abbrev env : Committing
env = record { hash = λ b. "h"; call = seen; remove = λ msg. true }

settled : (call : ChainCall) → send_call (some 2) network call ≡ some (seen call)
unfolding send_call resolve_logic tx_outcome on_tx_event event_of
settled (deploy_contract id pre code delta payload address gas sig) = refl
settled (deploy_failure id output gas sig) = refl
settled (commit_receipt contract id delta output payload address gas sig) = refl
settled (commit_failure contract id output gas sig) = refl

commit_receipt_of-Deep_example :
    let m = commit_receipt_of env task in
    (call : ChainCall) × (m.calls ≡ call ∷ [])
    × Deep (some 2) (network.events call)
    × (((m.removed ≡ [])
          × ((network.found call (event_of call) ≡ some true)
              ⊎ (network.found call receipt_failed_eth ≡ some false)))
        ⊎ ((m.removed ≡ changes task computed)
            × (network.found call receipt_failed_eth ≡ some true)))
unfolding commit_receipt_of commit_deploy_task is_deploy_task computed_of has_delta
    result_is_success deploy_call deploy_sent pre_code_hash_of delta_bytes revert_state
commit_receipt_of-Deep_example =
    commit_receipt_of-Deep (some 2) network env task deployed computed settled refl refl refl refl

-- The gas of a transaction must lie within the bounds of the configuration.
too_little_gas :
    validate_tx_params
      (λ a. true)
      (record { gas_min = 21000; gas_max = 8000000; gas_price_min = 3; gas_price_max = 100 })
      (record { gas = some 20999; gas_price = none; from = none })
    ≡ some gas_out_of_range
unfolding validate_tx_params
too_little_gas = refl
