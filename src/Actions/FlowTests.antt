-- ===== src/Actions/FlowTests.antt =====
-- A computation from its request to its result, on an empty manager.
use enigma_p2p.Base.{◌≡◌, refl, true, false, none, some, [], ◌∷◌, ◌++◌}
use enigma_p2p.Tasks.Result.{
  in_progress, success, compute_task, TaskResult, compute_result, result_is_success,
}
use enigma_p2p.Tasks.Task.{Task, new_compute_task}
use enigma_p2p.Tasks.Json.{TaskJson, build_compute_task}
use enigma_p2p.Tasks.RoundTrip.{running, done, stored_compute}
use enigma_p2p.Base.Dict
use enigma_p2p.Tasks.Level.{memory, memory-LevelLaws}
use enigma_p2p.Tasks.Manager.{verify_new_task, task_verified, task_finished, ok, Manager, get_task}
use enigma_p2p.Verifier.Check.{accept}
use enigma_p2p.Verifier.Listeners.{Creation}
use enigma_p2p.Actions.Execute.{
  build_request, is_accepted, TaskReply, build_reply, start_task, verify_new_task_action,
  execute_reply,
}
use enigma_p2p.Actions.Flow.{request_to_result}

abbrev request : TaskJson
request = record {
  outside_task = false;
  status = none;
  type = none;
  task_id = some "t1";
  pre_code = none;
  encrypted_args = some "a";
  encrypted_fn = some "f";
  user_dh_key = some "k";
  gas_limit = none;
  contract_address = some "c0";
  block_number = none;
  result = none;
}

abbrev requested : Task
requested = new_compute_task "t1" "a" "f" "k" 0 "c0" 0

abbrev confirmed : Creation
confirmed = record { verdict = accept; gas_limit = some 50; block_number = some 9 }

abbrev from_core : TaskReply
from_core = record {
  has_msg = false;
  type = compute_task;
  result = some (record {
    task_id = none;
    status = none;
    output = some (1 ∷ []);
    delta = some none;
    used_gas = some 5;
    ethereum_payload = some "";
    ethereum_address = some "";
    signature = some "";
    pre_code_hash = none;
  });
}

abbrev computed : TaskResult
computed = compute_result "t1" (some success) (record {
  output = 1 ∷ [];
  delta = none;
  used_gas = 5;
  ethereum_payload = "";
  ethereum_address = "";
  signature = "";
})

abbrev empty_manager : Manager (memory TaskJson)
empty_manager = record { pool = []; store = [] }

abbrev requested_passed : Task
requested_passed = record requested {
  status = in_progress;
  gas_limit = some 50;
  block_number = some 9;
}

abbrev requested_completed : Task
requested_completed = record requested_passed { status = success; result = some computed }

request_to_result_example :
    let started = start_task (memory TaskJson) 3 compute_task request empty_manager in
    let checked =
      verify_new_task_action (memory TaskJson) true (some confirmed) requested.task_id started.0 in
    let executed = execute_reply (memory TaskJson) requested_passed (some from_core) checked.0 in
    (get_task (memory TaskJson) requested.task_id executed.manager ≡ ok requested_completed)
    × (executed.finished ≡ some (ok tt))
    × (started.1 ++ checked.2 ++ executed.notices
        ≡ verify_new_task requested
          ∷ task_verified requested_passed
          ∷ task_finished requested_completed
          ∷ [])
unfolding build_request build_compute_task new_compute_task is_accepted build_reply
    result_is_success Dict.get
request_to_result_example =
    request_to_result (memory TaskJson) (memory-LevelLaws TaskJson) empty_manager 3 compute_task
      request requested confirmed from_core computed
      (record { put_works = λ k j s. refl; del_works = λ k s. refl }) refl refl refl refl refl
      (stored_compute running "t1" "a" "f" "k" "c0" 50 9 refl refl)
      (stored_compute (done _ "") "t1" "a" "f" "k" "c0" 50 9 refl refl)
