-- ===== src/Rpc/TaskPath.antt =====
-- The call of a user for a task, from the API server to the pool of the worker that it names.
use enigma_p2p.Base.{
  ℕ, String, ◌≡◌, refl, ◌∙◌, ap, true, Option, none, some, List, [], ◌∷◌, ◌>>=◌, arith,
}
use enigma_p2p.Base.Dict
use enigma_p2p.Tasks.Result.{TaskType, deploy_secret_contract, compute_task, TaskResult}
use enigma_p2p.Tasks.Task.{Task}
use enigma_p2p.Tasks.Json.{TaskJson}
use enigma_p2p.Tasks.Level.{Level}
use enigma_p2p.Tasks.Manager.{verify_new_task, Manager}
use enigma_p2p.Actions.Execute.{build_request, start_task}
use enigma_p2p.Actions.Flow.{start_effect}
use enigma_p2p.Rpc.Server.{
  RpcMethod, key_method, deploy_method, compute_method, status_method, result_method, RpcArgs,
  task_content, sent, RpcResponse, task_reply, routed, route_method, reply_of_method,
}
use enigma_p2p.Rpc.Gateway.{
  rpc_task, RpcCodec, RpcEnvelop, GatewayOut, publish, respond, Gateway, route_non_blocking,
  dispatch_rpc,
}
use enigma_p2p.Rpc.Worker.{on_self_topic}

-- The methods for tasks, with the types that they route.
abbrev task_type_of : RpcMethod → Option TaskType
task_type_of deploy_method = some deploy_secret_contract
task_type_of compute_method = some compute_task
task_type_of _ = none

-- The arguments as they are published: the code of a deployment is unzipped.
abbrev pub unzipped : (Option String → Option String) → RpcMethod → RpcArgs → Option RpcArgs
unzipped unzip deploy_method a = do
  code ← unzip a.request.pre_code
  some (record a { request = record a.request { pre_code = some code } })
unzipped unzip _ a = some a

abbrev pub accepted_response : RpcResponse
accepted_response = record { result = sent true; output = none; error = none }

accepted_reply :
    (method : RpcMethod) (type : TaskType) (a : RpcArgs)
    → task_type_of method ≡ some type
    → reply_of_method method a (some accepted_response) ≡ task_reply true
unfolding reply_of_method
accepted_reply deploy_method type a e = refl
accepted_reply compute_method type a e = refl
accepted_reply key_method type a e = absurd (ground (arith, e))
accepted_reply status_method type a e = absurd (ground (arith, e))
accepted_reply result_method type a e = absurd (ground (arith, e))

route_non_blocking_lem :
    (codec : RpcCodec) (type : TaskType) (a : RpcArgs) (e : RpcEnvelop) (topic : String)
    (bytes : List ℕ)
    → a.worker_address ≡ some topic
    → codec.encode (rpc_task type a) ≡ some bytes
    → route_non_blocking codec type a e ≡ publish topic bytes ∷ respond e.id accepted_response ∷ []
unfolding route_non_blocking
route_non_blocking_lem codec type a e topic bytes named encoded = ground (arith, named, encoded)

-- What the gateway does with the content of a call for a task.
dispatch_task :
    (codec : RpcCodec) (self : String) (unzip : Option String → Option String)
    (results : String → Option TaskResult) (method : RpcMethod) (type : TaskType) (a a' : RpcArgs)
    (e : RpcEnvelop) (g : Gateway)
    → e.content ≡ task_content type a
    → task_type_of method ≡ some type
    → unzipped unzip method a ≡ some a'
    → dispatch_rpc codec self unzip results e g ≡ (g, route_non_blocking codec type a' e)
unfolding dispatch_rpc
dispatch_task codec self unzip results deploy_method type a a' e g content is unzips =
    ground (arith, content, is, unzips)
dispatch_task codec self unzip results compute_method type a a' e g content is unzips =
    ground (arith, content, is, unzips)
dispatch_task codec self unzip results key_method type a a' e g content is unzips =
    absurd (ground (arith, is))
dispatch_task codec self unzip results status_method type a a' e g content is unzips =
    absurd (ground (arith, is))
dispatch_task codec self unzip results result_method type a a' e g content is unzips =
    absurd (ground (arith, is))

routed_type :
    (method : RpcMethod) (type : TaskType) (a : RpcArgs)
    → route_method method a ≡ routed (task_content type a)
    → task_type_of method ≡ some type
unfolding route_method
routed_type deploy_method type a e = ground (arith, e)
routed_type compute_method type a e = ground (arith, e)
routed_type key_method type a e = absurd (ground (arith, e))
routed_type status_method type a e = absurd (ground (arith, e))
routed_type result_method type a e = absurd (ground (arith, e))

module _ (level : Level TaskJson) where
  on_self_topic_task :
      (codec : RpcCodec) (now : ℕ) (core : String → Option (String × String)) (bytes : List ℕ)
      (method : RpcMethod) (type : TaskType) (a : RpcArgs) (m : Manager level)
      → task_type_of method ≡ some type
      → codec.decode bytes ≡ some (rpc_task type a)
      → on_self_topic level codec now core bytes m ≡ record {
        manager = (start_task level now type a.request m).0;
        published = [];
        notices = (start_task level now type a.request m).1;
      }
  unfolding on_self_topic
  on_self_topic_task codec now core bytes deploy_method type a m is decoded =
      ground (arith, is, decoded)
  on_self_topic_task codec now core bytes compute_method type a m is decoded =
      ground (arith, is, decoded)
  on_self_topic_task codec now core bytes key_method type a m is decoded =
      absurd (ground (arith, is))
  on_self_topic_task codec now core bytes status_method type a m is decoded =
      absurd (ground (arith, is))
  on_self_topic_task codec now core bytes result_method type a m is decoded =
      absurd (ground (arith, is))

  -- A user's call of `deploySecretContract` or `sendTaskInput` that is routed, for a worker that has
  -- an address and, for a deployment, with a code that can be unzipped, is published once, on the
  -- topic of that address; the caller is told that it is sent; and the worker that receives it puts
  -- the task, if it can be built and its id is new, into its pool, and notifies of a task to verify.
  -- msgpack carries the message.
  pub task_call_reaches_pool :
      (codec : RpcCodec) (self : String) (unzip : Option String → Option String)
      (results : String → Option TaskResult) (core : String → Option (String × String))
      (method : RpcMethod) (type : TaskType) (a a' : RpcArgs) (e : RpcEnvelop) (g : Gateway)
      (worker : String) (bytes : List ℕ) (m : Manager level) (now : ℕ) (t : Task)
      → route_method method a ≡ routed (task_content type a)
      → e.content ≡ task_content type a
      → unzipped unzip method a ≡ some a'
      → a'.worker_address ≡ some worker
      → codec.encode (rpc_task type a') ≡ some bytes
      → codec.decode bytes ≡ some (rpc_task type a')
      → build_request type a'.request ≡ some t
      → Dict.get t.task_id m.pool ≡ none
      → let served = on_self_topic level codec now core bytes m in
        ((dispatch_rpc codec self unzip results e g).1
          ≡ publish worker bytes ∷ respond e.id accepted_response ∷ [])
        × (reply_of_method method a (some accepted_response) ≡ task_reply true)
        × (Dict.get t.task_id served.manager.pool ≡ some (record { time = now; task = t }))
        × (served.notices ≡ verify_new_task t ∷ [])
  task_call_reaches_pool codec self unzip results core method type a a' e g worker bytes m now t
        routes content unzips named encoded decoded made new =
      let is : task_type_of method ≡ some type = routed_type method type a routes in
      let (pooled, told) = start_effect level m now type a'.request t made new in
      let serves = on_self_topic_task codec now core bytes method type a' m is decoded in
      (
        ap (λ (x : Gateway × List GatewayOut). x.1)
              (dispatch_task codec self unzip results method type a a' e g content is unzips)
            ∙ route_non_blocking_lem codec type a' e worker bytes named encoded,
        accepted_reply method type a is,
        rw serves pooled,
        rw serves told,
      )
