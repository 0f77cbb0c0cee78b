-- ===== src/Rpc/Tests.antt =====
-- The theorems of Rpc at a gateway "g" and a worker "w".
use enigma_p2p.Base.{ℕ, String, ◌≡◌, refl, true, false, Option, none, some, List, [], ◌∷◌}
use enigma_p2p.Base.Dict
use enigma_p2p.Tasks.Result.{compute_task, TaskResult}
use enigma_p2p.Tasks.Task.{Task, new_compute_task}
use enigma_p2p.Tasks.Json.{TaskJson, build_compute_task}
use enigma_p2p.Tasks.Level.{memory}
use enigma_p2p.Tasks.Manager.{verify_new_task, Manager}
use enigma_p2p.Actions.Execute.{build_request}
use enigma_p2p.Rpc.Server.{
  key_method, compute_method, RpcArgs, RpcContent, key_content, task_content, key_result,
  compute_fields, task_reply, rpc_reply, routed, route_method, reply_of_method,
}
use enigma_p2p.Rpc.Gateway.{
  RpcMessage, rpc_request, rpc_task, rpc_answer, RpcCodec, RpcEnvelop, publish, respond,
  dispatch_rpc, on_publish,
}
use enigma_p2p.Rpc.Worker.{on_self_topic}
use enigma_p2p.Rpc.TaskPath.{accepted_response, task_call_reaches_pool}
use enigma_p2p.Rpc.KeyPath.{key_response, key_call_answered}

abbrev call : RpcArgs
call = record {
  fields = compute_fields;
  worker_address = some "w";
  user_pub_key = some "u";
  task_id = some "t1";
  with_result = false;
  request = record {
    outside_task = false;
    status = none;
    type = none;
    task_id = some "t1";
    pre_code = none;
    encrypted_args = some "a";
    encrypted_fn = some "f";
    user_dh_key = some "k";
    gas_limit = none;
    contract_address = some "c0";
    block_number = none;
    result = none;
  };
}

abbrev called : Task
called = new_compute_task "t1" "a" "f" "k" 0 "c0" 0

abbrev empty_manager : Manager (memory TaskJson)
empty_manager = record { pool = []; store = [] }

-- The three messages of the two calls.
abbrev three_messages : RpcCodec
three_messages = record {
  encode = number;
  decode = λ bytes. elim bytes [
    | [] ↦ some (rpc_task compute_task call)
    | b ∷ bs ↦ elim bs [
      | [] ↦ some (rpc_request (key_content "w" "u") "s" "gws")
      | c ∷ cs ↦ some (rpc_answer (key_result "key" "sig"))
    ]
  ];
}
  where
    number : RpcMessage → Option (List ℕ)
    number (rpc_task type a) = some []
    number (rpc_request c s t) = some (1 ∷ [])
    number (rpc_answer r) = some (1 ∷ 2 ∷ [])

abbrev envelop : RpcContent → RpcEnvelop
envelop c = record { id = "e"; sequence = some "s"; content = c }

abbrev no_results : String → Option TaskResult
no_results id = none

abbrev demo_core : String → Option (String × String)
demo_core user = some ("key", "sig")

task_call_reaches_pool_example :
    let served = on_self_topic (memory TaskJson) three_messages 3 demo_core [] empty_manager in
    ((dispatch_rpc three_messages "g"
        (λ o. o)
        no_results
        (envelop (task_content compute_task call))
        []).1
      ≡ publish "w" [] ∷ respond "e" accepted_response ∷ [])
    × (reply_of_method compute_method call (some accepted_response) ≡ task_reply true)
    × (Dict.get called.task_id served.manager.pool ≡ some (record { time = 3; task = called }))
    × (served.notices ≡ verify_new_task called ∷ [])
unfolding route_method build_request build_compute_task Dict.get
task_call_reaches_pool_example =
    task_call_reaches_pool (memory TaskJson) three_messages "g" (λ o. o) no_results demo_core
      compute_method compute_task call call (envelop (task_content compute_task call)) [] "w" []
      empty_manager 3 called refl refl refl refl refl refl refl refl

key_call_answered_example :
    let sent =
      dispatch_rpc three_messages "g" (λ o. o) no_results (envelop (key_content "w" "u")) [] in
    (route_method key_method call ≡ routed (key_content "w" "u"))
    × (sent.1 ≡ publish "w" (1 ∷ []) ∷ [])
    × ((on_self_topic (memory TaskJson) three_messages 3 demo_core (1 ∷ []) empty_manager).published
        ≡ ("gws", 1 ∷ 2 ∷ []) ∷ [])
    × (on_publish three_messages "gws" (1 ∷ 2 ∷ []) sent.0
        ≡ respond "e" (key_response "key" "sig") ∷ [])
    × (reply_of_method key_method call (some (key_response "key" "sig"))
        ≡ rpc_reply (key_response "key" "sig"))
key_call_answered_example =
    key_call_answered (memory TaskJson) three_messages "g" (λ o. o) no_results demo_core call "w"
      "u" "s" "key" "sig" (envelop (key_content "w" "u")) [] (1 ∷ []) (1 ∷ 2 ∷ []) empty_manager 3
      refl refl refl refl refl refl refl tt refl refl refl refl refl
