-- ===== src/Tasks/Tests.antt =====
-- The theorems of Tasks at one task and a database in memory.
use enigma_p2p.Base.{◌≡◌, refl, true, none, some, [], ◌∷◌, ◌++◌, ◌>>=◌}
use enigma_p2p.Base.Dict
use enigma_p2p.Base.Text.{remove0x}
use enigma_p2p.Tasks.Result.{
  result_task_id, Computed, TaskResult, Status, success, in_progress, compute_result, compute_task,
}
use enigma_p2p.Tasks.Task.{Task, compute_payload, set_status, set_result}
use enigma_p2p.Tasks.Json.{TaskJson, loaded, to_db_json, deserialize_task}
use enigma_p2p.Tasks.RoundTrip.{
  IsStorable, stored_compute, running, done, deserialize_task-to_db_json,
}
use enigma_p2p.Tasks.Level.{memory, memory-LevelLaws}
use enigma_p2p.Tasks.Manager.{
  Manager, add_task_unverified, on_verify_task, on_finish_task, get_task, ok, verify_new_task,
  task_verified, task_finished,
}
use enigma_p2p.Tasks.Stored.{Healthy}
use enigma_p2p.Tasks.Lifecycle.{add_verify_finish}

abbrev demo_task : Task
demo_task = record {
  task_id = "t1";
  status = Status.unverified;
  result = none;
  type = compute_task;
  contract_addr = some "c0";
  gas_limit = some 10;
  block_number = some 25;
  payload = compute_payload "args" "fn" "key";
}

abbrev demo_computed : Computed
demo_computed = record {
  output = 1 ∷ [];
  delta = none;
  used_gas = 5;
  ethereum_payload = "";
  ethereum_address = "";
  signature = "";
}

abbrev demo_result : TaskResult
demo_result = compute_result "t1" (some success) demo_computed

abbrev running_task : Task
running_task = set_status in_progress demo_task

abbrev finished_task : Task
finished_task = set_result demo_result running_task

running-IsStorable : IsStorable running_task
unfolding set_status remove0x
running-IsStorable = stored_compute running "t1" "args" "fn" "key" "c0" 10 25 refl refl

finished-IsStorable : IsStorable finished_task
unfolding set_status set_result remove0x
finished-IsStorable =
    stored_compute (done demo_computed "") "t1" "args" "fn" "key" "c0" 10 25 refl refl

abbrev empty_manager : Manager (memory TaskJson)
empty_manager = record { pool = []; store = [] }

memory-Healthy : Healthy (memory TaskJson)
memory-Healthy = record { put_works = λ k j s. refl; del_works = λ k s. refl }

abbrev pooled : Manager (memory TaskJson)
pooled = record { pool = ("t1", record { time = 3; task = demo_task }) ∷ []; store = [] }

deserialize_task-to_db_json_example :
    (to_db_json finished_task >>= λ j. some (deserialize_task j)) ≡ some (loaded finished_task)
deserialize_task-to_db_json_example = deserialize_task-to_db_json finished_task finished-IsStorable

add_verify_finish_example :
    let added = add_task_unverified (memory TaskJson) 3 demo_task empty_manager in
    let verified = on_verify_task (memory TaskJson) "t1" true added.0 in
    let finished = on_finish_task (memory TaskJson) demo_result verified.0 in
    (get_task (memory TaskJson) "t1" finished.0 ≡ ok finished_task)
    × (added.1 ++ verified.2 ++ finished.2
        ≡ verify_new_task demo_task ∷ task_verified running_task ∷ task_finished finished_task ∷ [])
unfolding Dict.get result_task_id
add_verify_finish_example =
    add_verify_finish (memory TaskJson) (memory-LevelLaws TaskJson) empty_manager 3 demo_task
      demo_result memory-Healthy refl refl running-IsStorable finished-IsStorable
