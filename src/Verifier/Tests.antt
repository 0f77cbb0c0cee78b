-- ===== src/Verifier/Tests.antt =====
-- Runs of the verifier's model on small inputs, and the theorems of Verifier at such inputs.
use enigma_p2p.Base.{
  subst, ℕ, ◌*◌, String, ◌≡◌, refl, eq_iff, Option, none, some, List, [], ◌∷◌, Occurs, arith, false,
  length,
}
use enigma_p2p.Base.Dict
use enigma_p2p.Base.Text.{remove0x, to_lower, has_0x}
use text.Mathlib.Text.{◌==◌ as str_eq}
use enigma_p2p.Db.Bytes.{to_hex_string, hex_digit}
use enigma_p2p.Tasks.Result.{
  Bytes, TaskResult, Computed, success, failed, compute_result, failed_result, result_task_id,
}
use enigma_p2p.Tasks.Task.{Task, new_compute_task}
use enigma_p2p.Verifier.Params.{EpochParams, find_worker_param}
use enigma_p2p.Verifier.Window.{
  push_all, push_all-keep_last, keep_last, valid_events, find_worker_param-Finds, Finds,
}
use enigma_p2p.Verifier.Select.{
  returned, pick_worker, select_worker_group, verify_selected_worker, draw_worker, sum_balances,
}
use enigma_p2p.Verifier.Fairness.{fair_worker, pick_worker-suc}
use enigma_p2p.Verifier.Groups.{
  select_worker_group-IsGroup, IsGroup, verify_selected_worker_returns,
}
use enigma_p2p.Verifier.Check.{
  delta_of, TaskParams, TaskRecordStatus, accept, check_compute_result, check_compute_result_event,
  verify_task_create_params, verify_task_creation_now, verify_task_submission_now,
}
use enigma_p2p.Verifier.Verdicts.{
  check_compute_result_iff, check_compute_result_event_iff, changes_state, with_delta,
}
use enigma_p2p.Verifier.Listeners.{
  Verifier, CreateListener, start_creation, start_submission, on_creation_event, answer_creation,
  on_submission_event, answer_submission, on_new_epoch, created, failure_submission,
}
use enigma_p2p.Verifier.Timeouts.{EpochEffect, on_new_epoch-EpochEffect}
use enigma_p2p.Verifier.Chain.{parse_creation, task_fee_returned}
use enigma_p2p.Verifier.Events.{
  CleanIds, cancellation_ignored, creation_paths_agree, tells_failure, submission_paths_agree,
}

abbrev epoch_at : ℕ → EpochParams
epoch_at block = record {
  first_block = some block;
  seed = 7;
  workers = "a1" ∷ "b2" ∷ [];
  balances = 3 ∷ 5 ∷ [];
}

abbrev bad_epoch : EpochParams
bad_epoch = record { first_block = none; seed = 7; workers = []; balances = [] }

abbrev demo_draw : ℕ → String → ℕ → ℕ
demo_draw seed address nonce = nonce * 4

push_all-keep_last_example :
    push_all 2 (epoch_at 10 ∷ []) (epoch_at 20 ∷ bad_epoch ∷ epoch_at 30 ∷ [])
    ≡ keep_last 2 (epoch_at 10 ∷ valid_events (epoch_at 20 ∷ bad_epoch ∷ epoch_at 30 ∷ []))
push_all-keep_last_example =
    push_all-keep_last 2 (epoch_at 10 ∷ []) (epoch_at 20 ∷ bad_epoch ∷ epoch_at 30 ∷ [])
      (omega arith)

find_worker_param-Finds_example :
    Finds 25
      (epoch_at 10 ∷ epoch_at 20 ∷ epoch_at 30 ∷ [])
      (find_worker_param (some 25) (epoch_at 10 ∷ epoch_at 20 ∷ epoch_at 30 ∷ []))
find_worker_param-Finds_example =
    find_worker_param-Finds 25 (epoch_at 10 ∷ epoch_at 20 ∷ epoch_at 30 ∷ []) (omega arith)
      (refl, (omega arith, (omega arith, tt)), (refl, (omega arith, tt), (refl, tt, tt)))

pick_worker-suc_example :
    pick_worker (some "b2") 3 ("a1" ∷ "b2" ∷ []) (3 ∷ 5 ∷ [])
    ≡ fair_worker (some "b2") 2 ("a1" ∷ "b2" ∷ []) (3 ∷ 5 ∷ [])
pick_worker-suc_example = pick_worker-suc (some "b2") 2 ("a1" ∷ "b2" ∷ []) (3 ∷ 5 ∷ [])

abbrev worker_a : String
worker_a = "a1"

abbrev worker_b : String
worker_b = "b2"

abbrev demo_group : List (Option String)
demo_group = some "a1" ∷ some "b2" ∷ []

select_worker_group-IsGroup_example : (length demo_group ≡ 2) × IsGroup (epoch_at 10) demo_group
unfolding select_worker_group
select_worker_group-IsGroup_example =
    select_worker_group-IsGroup demo_draw 2 2 "c0" (epoch_at 10) demo_group refl (omega arith) refl

verify_selected_worker_returns_example :
    (w : String) × Occurs w (worker_a ∷ worker_b ∷ [])
    × (draw_worker demo_draw "c0" (epoch_at 10) 0 ≡ returned (some w))
    × (verify_selected_worker demo_draw "c0" "a1" (epoch_at 10)
        ≡ returned (str_eq (remove0x (to_lower w)) "a1"))
unfolding sum_balances
verify_selected_worker_returns_example =
    verify_selected_worker_returns demo_draw "c0" "a1" (epoch_at 10) refl (omega arith)

abbrev demo_hash : Bytes → String
demo_hash bytes = to_hex_string bytes

abbrev demo_result : Computed
demo_result = record {
  output = 1 ∷ 2 ∷ [];
  delta = some (record { key = 0; bytes = some (9 ∷ []) });
  used_gas = 5;
  ethereum_payload = "";
  ethereum_address = "";
  signature = "";
}

abbrev demo_params : TaskRecordStatus → TaskParams
demo_params status = record {
  inputs_hash = "in";
  gas_limit = 10;
  block_number = 25;
  status = status;
  output_hash = "0102";
}

check_compute_result_iff_example :
    check_compute_result demo_hash
      (demo_params TaskRecordStatus.receipt_verified)
      ("09" ∷ [])
      demo_result
      none
    ≡ some accept
unfolding to_hex_string hex_digit delta_of
check_compute_result_iff_example =
    (check_compute_result_iff demo_hash (demo_params TaskRecordStatus.receipt_verified) ("09" ∷ [])
        demo_result none).1
      (changes_state 0 (9 ∷ []) refl refl, refl)

check_compute_result_event_iff_example :
    check_compute_result_event demo_hash demo_result "0102" "09" 0 ≡ accept
unfolding to_hex_string hex_digit delta_of
check_compute_result_event_iff_example =
    (check_compute_result_event_iff demo_hash demo_result "0102" "09" 0).1
      (with_delta (9 ∷ []) refl refl, refl)

abbrev demo_task : Task
demo_task = new_compute_task "t1" "args" "fn" "key" 10 "c0" 25

abbrev demo_verifier : Verifier
demo_verifier = record { params = epoch_at 10 ∷ []; creates = []; submits = []; timeout = 100 }

-- One task waits since block 20, one result since block 150.
abbrev waiting_verifier : Verifier
waiting_verifier =
    start_submission 2 (compute_result "t2" (some success) demo_result) 150
      (start_creation 1 demo_task 20 "a1" demo_verifier)

on_new_epoch-EpochEffect_example :
    EpochEffect 200
      (epoch_at 200)
      waiting_verifier
      (on_new_epoch (epoch_at 200) waiting_verifier).0
      (on_new_epoch (epoch_at 200) waiting_verifier).1
on_new_epoch-EpochEffect_example = on_new_epoch-EpochEffect (epoch_at 200) waiting_verifier 200 refl

demo_text_hash : String → String
demo_text_hash s = s

demo_array_hash : List String → String
demo_array_hash ss = "in"

no_prefix : has_0x "t1" ≡ false
unfolding has_0x
no_prefix = refl

the_key : (k j : String) (l l' : CreateListener) → Dict.get j ((k, l') ∷ []) ≡ some l → k ≡ j
unfolding Dict.get
the_key k j l l' e = ground (arith, eq_iff k j)

waiting_ids : CleanIds waiting_verifier
unfolding start_creation start_submission Dict.put new_compute_task
waiting_ids j l e = subst (λ k. has_0x k ≡ false) (the_key "t1" j l _ e) no_prefix

cancellation_ignored_example :
    on_creation_event demo_draw demo_text_hash demo_array_hash
      (parse_creation (task_fee_returned "0xt1"))
      waiting_verifier
    ≡ (waiting_verifier, [])
unfolding has_0x
cancellation_ignored_example =
    cancellation_ignored demo_draw demo_text_hash demo_array_hash waiting_verifier "0xt1"
      waiting_ids refl

creation_paths_agree_example :
    let waiting = start_creation 1 demo_task 20 "a1" demo_verifier in
    let event =
      created demo_task.task_id
        (record { inputs_hash = "in"; gas_limit = 10; block_number = 25 }) in
    on_creation_event demo_draw demo_text_hash demo_array_hash event waiting
    ≡ answer_creation demo_draw demo_text_hash demo_array_hash 1 demo_task "a1" 10 25
        (verify_task_creation_now demo_text_hash demo_array_hash
          (some (demo_params TaskRecordStatus.record_created))
          demo_task)
        waiting
unfolding verify_task_create_params demo_array_hash new_compute_task
creation_paths_agree_example =
    creation_paths_agree demo_draw demo_text_hash demo_array_hash demo_verifier 1 demo_task 20 "a1"
      (demo_params TaskRecordStatus.record_created) accept refl refl

abbrev failed_demo : TaskResult
failed_demo =
    failed_result "t3" (some failed) (record { output = 1 ∷ 2 ∷ []; used_gas = 1; signature = "" })

submission_paths_agree_example :
    let waiting = start_submission 3 failed_demo 30 demo_verifier in
    on_submission_event demo_hash (result_task_id failed_demo) (failure_submission "0102") waiting
    ≡ answer_submission 3 failed_demo
        (verify_task_submission_now demo_hash
          (some (demo_params TaskRecordStatus.receipt_failed))
          none
          failed_demo
          none)
        waiting
submission_paths_agree_example =
    submission_paths_agree demo_hash demo_verifier 3 30
      (demo_params TaskRecordStatus.receipt_failed) none failed_demo (failure_submission "0102")
      none (tells_failure failed_demo refl)
