-- ===== src/Rpc/Gateway.antt =====
-- The gateway's side of src/worker/controller/actions/proxy: ProxyDispatcherAction.js,
-- GetStatusProxyAction.js, RouteRpcBlockingAction.js and RouteRpcNonBlockingAction.js.
use Prim.Native.String.{◌++◌ as append}
use text.Mathlib.Text.{◌==◌ as str_eq}
use enigma_p2p.Base.{
  ℕ, String, true, false, Option, none, some, List, [], ◌∷◌, ◌++◌, ◌||◌, if◌then◌else◌,
}
use enigma_p2p.Tasks.Result.{
  TaskType, deploy_secret_contract, compute_task, failed_task, other_type, TaskResult,
  result_status, result_output,
}
use enigma_p2p.Rpc.Server.{
  RpcArgs, RpcContent, key_content, task_content, status_content, result_content, RpcFault,
  no_topic, encode_failed, decode_failed, RpcResult, status_result, stored_result, sent, no_result,
  RpcResponse,
}

-- A message on a topic: a request that waits for its result under `target_topic`, a task, or a result.
pub data RpcMessage : Type 0 where
  rpc_request : RpcContent → (sequence target_topic : String) → RpcMessage
  rpc_task : TaskType → RpcArgs → RpcMessage
  rpc_answer : RpcResult → RpcMessage

-- EncoderUtil.js over msgpack; `none` is `null`.
pub record RpcCodec : Type 0 where
  pub encode : RpcMessage → Option (List ℕ)
  pub decode : List ℕ → Option RpcMessage

-- An envelope from the API server; `sequence` is the id of its content.
pub record RpcEnvelop : Type 0 where
  pub id : String
  pub sequence : Option String
  pub content : RpcContent

-- A subscription to a topic, with the envelope that its publications answer.
pub record Subscription : Type 0 where
  pub topic : String
  pub envelop : String

pub data GatewayOut : Type 0 where
  publish : (topic : String) → List ℕ → GatewayOut
  respond : (envelop : String) → RpcResponse → GatewayOut

abbrev pub Gateway : Type 0
Gateway = List Subscription

abbrev pub failure : RpcResult → RpcFault → RpcResponse
failure r f = record { result = r; output = none; error = some f }

-- RouteRpcBlockingAction: the request is published once the topic of its result is subscribed to.
unfoldable pub route_blocking :
    RpcCodec
    → (target_topic : String) → (sequence : Option String) → (worker_sign_key : String) → RpcEnvelop
    → Gateway
    → Gateway × List GatewayOut
route_blocking codec target none key e g = (g, respond e.id (failure no_result no_topic) ∷ [])
route_blocking codec target (some sequence) key e g =
    if str_eq target "" || str_eq sequence "" || str_eq key ""
    then (g, respond e.id (failure no_result no_topic) ∷ [])
    else elim (codec.encode (rpc_request e.content sequence target)) [
      | none ↦ (g, respond e.id (failure no_result encode_failed) ∷ [])
      | some bytes ↦ (g ++ record { topic = target; envelop = e.id } ∷ [], publish key bytes ∷ [])
    ]

-- RouteRpcNonBlockingAction
unfoldable pub route_non_blocking : RpcCodec → TaskType → RpcArgs → RpcEnvelop → List GatewayOut
route_non_blocking codec type a e = elim a.worker_address [
  | none ↦ respond e.id (failure (sent false) no_topic) ∷ []
  | some topic ↦ elim (codec.encode (rpc_task type a)) [
    | none ↦ respond e.id (failure (sent false) encode_failed) ∷ []
    | some bytes ↦
        publish topic bytes
        ∷ respond e.id (record { result = sent true; output = none; error = none })
        ∷ []
  ]
]

-- `_getTaskResult`; a result that is missing or cannot be read is `null`.
unfoldable pub stored_response : Option TaskResult → RpcResponse
stored_response none = record { result = no_result; output = none; error = none }
stored_response (some r) = record { result = stored_result r; output = none; error = none }

-- GetStatusProxyAction: a result that the gateway has itself, or else the worker's answer.
unfoldable pub get_status_proxy :
    RpcCodec
    → Option TaskResult
    → (task_id worker_address : String) → RpcEnvelop
    → Gateway
    → Gateway × List GatewayOut
unfolding route_blocking
get_status_proxy codec (some r) task worker e g = (
  g,
  respond e.id (record {
    result = status_result (result_status r);
    output = some (result_output r);
    error = none;
  })
      ∷ [],
)
get_status_proxy codec none task worker e g =
    route_blocking codec (append task worker)
      (elim e.sequence [ none ↦ some task | some s ↦ some s ]) worker e g

-- ProxyDispatcherAction. `results` is GetResultAction, `none` where it throws or has no result;
-- `unzip` takes a code from base64 and gzip, and `none` is an exception, which ends the action.
unfoldable pub dispatch_rpc :
    RpcCodec
    → (self_id : String) → (unzip : Option String → Option String)
    → (results : String → Option TaskResult) → RpcEnvelop
    → Gateway
    → Gateway × List GatewayOut
unfolding route_blocking route_non_blocking get_status_proxy stored_response
dispatch_rpc codec self unzip results e g = elim e.content [
  | key_content worker user ↦
      let sequence : String = elim e.sequence [ none ↦ "undefined" | some s ↦ s ] in
      route_blocking codec (append self (append worker sequence)) e.sequence worker e g
  | status_content task worker b ↦ get_status_proxy codec (results task) task worker e g
  | task_content type a ↦ elim type [
    | deploy_secret_contract ↦ elim (unzip a.request.pre_code) [
      | none ↦ (g, [])
      | some code ↦ (
        g,
        route_non_blocking codec deploy_secret_contract
            (record a { request = record a.request { pre_code = some code } }) e,
      )
    ]
    | compute_task ↦ (g, route_non_blocking codec compute_task a e)
    | failed_task ↦ (g, [])
    | other_type ↦ (g, [])
  ]
  | result_content task ↦ (g, respond e.id (stored_response (results task)) ∷ [])
]

-- `result` of a message; a request has none.
unfoldable pub result_of_message : RpcMessage → RpcResult
result_of_message (rpc_answer r) = r
result_of_message (rpc_request c sequence target) = no_result
result_of_message (rpc_task type a) = no_result

unfoldable pub response_of : RpcCodec → List ℕ → RpcResponse
unfolding result_of_message
response_of codec bytes = elim (codec.decode bytes) [
  | none ↦ failure no_result decode_failed
  | some m ↦ record { result = result_of_message m; output = none; error = none }
]

-- `onPublish` of RouteRpcBlockingAction, for every subscription to the topic.
unfoldable pub on_publish : RpcCodec → (topic : String) → List ℕ → Gateway → List GatewayOut
unfolding response_of
on_publish codec topic bytes [] = []
on_publish codec topic bytes (s ∷ g) =
    let rest = on_publish codec topic bytes g in
    if str_eq s.topic topic then respond s.envelop (response_of codec bytes) ∷ rest else rest
