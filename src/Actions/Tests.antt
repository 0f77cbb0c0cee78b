-- ===== src/Actions/Tests.antt =====
-- The theorems of Actions at a published result.
use enigma_p2p.Base.{◌≡◌, refl, true, none, some, [], ◌∷◌, inl, inr, false, ◌↔◌, Occurs}
use enigma_p2p.Tasks.Result.{
  build_compute_result, has_delta, success, compute_task, TaskResult, compute_result, RawResult,
  set_result_status,
}
use enigma_p2p.Tasks.Task.{Task, new_outside_task, build_outside_task}
use enigma_p2p.Tasks.Json.{TaskJson, null, to_db_json, deserialize_task}
use enigma_p2p.Verifier.Check.{delta_of, accept, reject, ethereum_failure_err}
use enigma_p2p.Actions.StoreResult.{
  needs_tip, judge, is_deployment, is_ethereum_failure, build_task_result, build_ipc_msg, new_delta,
  Services, store_result, mark_failure, verify_result, update_and_store, announce_and_store,
  store_outside,
}
use enigma_p2p.Tasks.Result.{Computed, deploy_result, deploy_secret_contract, result_is_success}
use enigma_p2p.Tasks.Task.{compute_payload, deploy_payload}
use enigma_p2p.Actions.Commit.{
  Sent, mined, refused_call, Committing, is_deploy_task, computed_of, pre_code_hash_of, delta_bytes,
  deploy_call, deploy_sent, revert_state, commit_deploy_task, commit_receipt_of,
}
use enigma_p2p.Actions.Publish.{Publishing, publish_result}
use enigma_p2p.Actions.Settled.{Settled, commit_receipt_of-Settled}
use enigma_p2p.Actions.Announced.{IsAnnounced, publish_result_announced}
use enigma_p2p.Actions.Rejected.{Lost, publish_result_rejected}
use enigma_p2p.Actions.Guarded.{Confirmed, store_result-Confirmed}
use enigma_p2p.Actions.Failure.{ethereum_failure_unreadable}

abbrev demo_raw : RawResult
demo_raw = record {
  task_id = some "t1";
  status = some success;
  output = some (1 ∷ []);
  delta = some (some (record { key = 2; bytes = some (9 ∷ []) }));
  used_gas = some 5;
  ethereum_payload = some "";
  ethereum_address = some "";
  signature = some "";
  pre_code_hash = none;
}

abbrev demo_result : TaskResult
demo_result = compute_result "t1" (some success) (record {
  output = 1 ∷ [];
  delta = some (record { key = 2; bytes = some (9 ∷ []) });
  used_gas = 5;
  ethereum_payload = "";
  ethereum_address = "";
  signature = "";
})

abbrev confirming : Services
confirming = record {
  has_ethereum = true;
  tips = none;
  verdict = λ r tip. some accept;
  update_core = λ msg. true;
  makes_cid = λ id. true;
  announce = λ id. true;
  store = λ t. true;
}

abbrev failing : Services
failing = record confirming { verdict = λ r tip. some (reject ethereum_failure_err) }

store_result-Confirmed_example :
    Confirmed confirming demo_result
    × (build_ipc_msg demo_result "c0" ≡ some (new_delta "c0" 2 (9 ∷ [])))
unfolding store_result build_task_result build_ipc_msg build_compute_result update_and_store
    verify_result needs_tip has_delta judge delta_of announce_and_store is_deployment store_outside
    build_outside_task mark_failure is_ethereum_failure
store_result-Confirmed_example =
    store_result-Confirmed confirming compute_task demo_raw "t1" "c0" demo_result
      (new_delta "c0" 2 (9 ∷ [])) refl refl (inl refl)

abbrev marked_task : Task
marked_task = record (new_outside_task "t1" compute_task demo_result) {
  result = some (set_result_status none demo_result);
}

demo_json : (j : TaskJson) × (to_db_json marked_task ≡ some j)
unfolding to_db_json new_outside_task set_result_status
demo_json = (_, refl)

ethereum_failure_unreadable_example : deserialize_task demo_json.0 ≡ null
unfolding store_result build_task_result verify_result build_compute_result needs_tip has_delta
    judge update_and_store store_outside is_ethereum_failure build_outside_task mark_failure
ethereum_failure_unreadable_example =
    ethereum_failure_unreadable failing compute_task demo_raw "t1" "c0" demo_result marked_task
      demo_json.0 refl refl (inl refl) demo_json.1

abbrev computing_task : Task
computing_task = record {
  task_id = "t1";
  status = success;
  result = some demo_result;
  type = compute_task;
  contract_addr = some "c0";
  gas_limit = some 5;
  block_number = some 7;
  payload = compute_payload "" "" "";
}

abbrev demo_computed : Computed
demo_computed = record {
  output = 1 ∷ [];
  delta = some (record { key = 0; bytes = some (9 ∷ []) });
  used_gas = 5;
  ethereum_payload = "";
  ethereum_address = "";
  signature = "";
}

abbrev deployed : TaskResult
deployed = deploy_result "c0" (some success) demo_computed "h"

abbrev deploying_task : Task
deploying_task = record {
  task_id = "c0";
  status = success;
  result = some deployed;
  type = deploy_secret_contract;
  contract_addr = some "c0";
  gas_limit = some 5;
  block_number = some 7;
  payload = deploy_payload "" "" "" "";
}

-- Every call of the contract ends as given, and Core does as asked.
abbrev chain_that : Sent → Committing
chain_that sent = record { hash = λ b. "h"; call = λ c. sent; remove = λ msg. true }

abbrev publishing_on : Sent → Publishing
publishing_on sent = record {
  has_ethereum = true;
  committing = chain_that sent;
  makes_cid = λ address. true;
}

commit_receipt_of-Settled_example :
    Settled
      (chain_that (mined true))
      deploying_task
      demo_computed
      (commit_receipt_of (chain_that (mined true)) deploying_task)
unfolding commit_receipt_of commit_deploy_task is_deploy_task computed_of has_delta
    result_is_success deploy_call deploy_sent pre_code_hash_of delta_bytes revert_state
commit_receipt_of-Settled_example =
    commit_receipt_of-Settled (chain_that (mined true)) deploying_task deployed demo_computed refl
      refl refl refl

publish_result_rejected_example :
    ((publish_result (publishing_on refused_call) computing_task).completed ≡ false)
    ↔ Lost
        (chain_that refused_call)
        computing_task
        demo_result
        (commit_receipt_of (chain_that refused_call) computing_task)
unfolding computed_of
publish_result_rejected_example =
    publish_result_rejected (publishing_on refused_call) computing_task demo_result refl refl
      (inr (_, refl))

publish_result_announced_example :
    Occurs (some "c0") (publish_result (publishing_on (mined true)) deploying_task).announced
    ↔ IsAnnounced (publishing_on (mined true)) deploying_task deployed (some "c0")
publish_result_announced_example =
    publish_result_announced (publishing_on (mined true)) deploying_task deployed (some "c0") refl
      refl
