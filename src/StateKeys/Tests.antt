-- ===== src/StateKeys/Tests.antt =====
-- The theorems of StateKeys at a worker with one exchange under way.
use enigma_p2p.Base.{
  ℕ, String, ◌+◌, ◌<◌, ◌≡◌, refl, ◌⊎◌, true, false, some, none, List, [], ◌∷◌, if◌then◌else◌, leb,
  length,
}
use enigma_p2p.Tasks.Result.{in_progress, compute_task, deploy_secret_contract}
use enigma_p2p.Tasks.Task.{Task, deploy_payload, compute_payload}
use enigma_p2p.Actions.Commit.{is_deploy_task}
use enigma_p2p.StateKeys.Principal.{
  MsgPrincipal, PrincipalAnswer, KeysReply, response_error, response_result, get_state_keys,
}
use enigma_p2p.StateKeys.Attempts.{Gets, IsTransient, get_state_keys_attempts}
use enigma_p2p.StateKeys.System.{
  gave_core, Run, System, idle, Event, get_keys, verified, keys_stored, dropped, sent_to_core,
  query_core, remove_at, Output, KeysError, finish, step, after, StoreAnswer,
}
use enigma_p2p.StateKeys.Invariant.{after_exclusive}
use enigma_p2p.StateKeys.Waiting.{Tells, run_for, finish_drops}
use enigma_p2p.StateKeys.Stored.{IsTaken, IsFailure, Throws, EndsWith, step_keys_stored_ends}

abbrev demo_msg : MsgPrincipal
demo_msg = record { request = "r"; sig = "s"; addresses = none; block_number = none }

-- The epoch changes during the first two attempts.
abbrev third_time : ℕ → PrincipalAnswer
third_time n = if leb 2 n then response_result none else response_error true

get_state_keys_attempts_example :
    (n : ℕ) × (reply : KeysReply) × (get_state_keys (some demo_msg) third_time ≡ (reply, some n))
    × Gets (third_time n) reply
    × (n < 11)
    × ((j : ℕ) → j < n → IsTransient (third_time j))
    × ((n ≡ 10) ⊎ ¬ IsTransient (third_time n))
get_state_keys_attempts_example = get_state_keys_attempts demo_msg third_time

abbrev deploying : String → Task
deploying id = record {
  task_id = id;
  status = in_progress;
  result = none;
  type = deploy_secret_contract;
  contract_addr = some id;
  gas_limit = some 1;
  block_number = some 2;
  payload = deploy_payload "" "" "" "";
}

abbrev busy_day : List Event
busy_day = get_keys none none ∷ verified (deploying "a") ∷ verified (deploying "b") ∷ []

after_exclusive_example :
    let s = after busy_day idle in
    (length s.running + s.stuck ≡ (if s.in_ptt then 1 else 0)) × (s.in_ptt ≡ false → s.waiting ≡ [])
after_exclusive_example = after_exclusive busy_day

-- Two calls of the action on an idle worker: the second one is refused.
one_at_a_time : length (after (get_keys none none ∷ get_keys none none ∷ []) idle).running ≡ 1
unfolding after
one_at_a_time = refl

abbrev last_phase : Run
last_phase = record { caller = none; addresses = none; block_number = none; phase = gave_core }

abbrev reading : Task
reading = record (deploying "r") { type = compute_task; payload = compute_payload "" "" "" }

abbrev three_wait : System
three_wait = record {
  in_ptt = true;
  waiting = reading ∷ deploying "a" ∷ deploying "b" ∷ [];
  running = last_phase ∷ [];
  stuck = 0;
}

finish_drops_example :
    ((finish 0 last_phase none three_wait).0
      ≡ record { in_ptt = true; waiting = []; running = run_for (deploying "a") ∷ []; stuck = 0 })
    × ((o : Output) × Tells none none o
        × ((finish 0 last_phase none three_wait).1
            ≡ sent_to_core reading ∷ query_core ∷ dropped (deploying "b") ∷ o ∷ []))
unfolding is_deploy_task remove_at
finish_drops_example =
    finish_drops 0 last_phase none three_wait (reading ∷ []) (deploying "b" ∷ []) (deploying "a")
      refl (refl, tt) refl

-- The deployment "a" waits for its keys, and Core's last response is of the type "Error".
abbrev core_says_error : StoreAnswer
core_says_error = record { error = none; is_error = true; result = none }

abbrev deploy_phase : Run
deploy_phase = record last_phase { caller = some (deploying "a") }

abbrev deployment_runs : System
deployment_runs = record { in_ptt = true; waiting = []; running = deploy_phase ∷ []; stuck = 0 }

step_keys_stored_ends_example :
    let (s', outputs) = step (keys_stored 0 core_says_error) deployment_runs in
    (IsTaken core_says_error × EndsWith (some (deploying "a")) none outputs)
    ⊎ ((e : KeysError) × IsFailure core_says_error e
        × EndsWith (some (deploying "a")) (some e) outputs)
    ⊎ (Throws core_says_error × (outputs ≡ []) × (s'.in_ptt ≡ true) × (s'.stuck ≡ 0 + 1))
step_keys_stored_ends_example =
    step_keys_stored_ends 0 deploy_phase core_says_error deployment_runs refl refl
