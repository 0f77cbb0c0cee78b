-- ===== src/Rpc/Server.antt =====
-- src/client_api/JsonRpcServer.js: the methods, as the request that each routes to the worker's
-- controller and what it makes of the answer.
use enigma_p2p.Base.{
  String, Bool, false, not, Option, none, some, List, [], ◌∷◌, ◌||◌, if◌then◌else◌,
}
use enigma_p2p.Base.Dict
use enigma_p2p.Tasks.Result.{
  Bytes, Status, TaskType, deploy_secret_contract, compute_task, TaskResult,
}
use enigma_p2p.Tasks.Json.{TaskJson}

pub data RpcMethod : Type 0 where
  key_method deploy_method compute_method status_method result_method : RpcMethod

-- `args`: the names of its fields, and those that the code reads. A field that is missing or empty is
-- `none`.
pub record RpcArgs : Type 0 where
  pub fields : List String
  pub worker_address : Option String
  pub user_pub_key : Option String
  pub task_id : Option String
  pub with_result : Bool
  pub request : TaskJson

-- The content that is routed, by its `type`.
pub data RpcContent : Type 0 where
  key_content : (worker_sign_key user_pub_key : String) → RpcContent
  task_content : TaskType → RpcArgs → RpcContent
  status_content : (task_id worker_address : String) → (with_result : Bool) → RpcContent
  result_content : (task_id : String) → RpcContent

pub data RpcFault : Type 0 where
  no_topic encode_failed decode_failed : RpcFault

-- `result` of an answer; `no_result` is `false`, `null` or `undefined`.
pub data RpcResult : Type 0 where
  key_result : (worker_encryption_key worker_sig : String) → RpcResult
  status_result : Option Status → RpcResult
  stored_result : TaskResult → RpcResult
  sent : Bool → RpcResult
  no_result : RpcResult

pub record RpcResponse : Type 0 where
  pub result : RpcResult
  pub output : Option Bytes
  pub error : Option RpcFault

pub data RpcError : Type 0 where
  invalid_params server_error : RpcError

-- A call of a method's callback.
pub data ClientReply : Type 0 where
  rpc_error : RpcError → ClientReply
  rpc_reply : RpcResponse → ClientReply
  task_reply : (send_task_result : Bool) → ClientReply

pub data Routed : Type 0 where
  refused : RpcError → Routed
  routed : RpcContent → Routed

abbrev pub deploy_fields : List String
deploy_fields =
    "workerAddress" ∷ "preCode" ∷ "encryptedArgs" ∷ "encryptedFn" ∷ "userDHKey" ∷ "contractAddress"
    ∷ []

abbrev pub compute_fields : List String
compute_fields =
    "taskId" ∷ "workerAddress" ∷ "encryptedArgs" ∷ "encryptedFn" ∷ "userDHKey" ∷ "contractAddress"
    ∷ []

-- `expectedFields.some(attr => !(attr in args))`
unfoldable pub is_missing : List String → List String → Bool
is_missing [] given = false
is_missing (f ∷ fs) given = not (Dict.listed f given) || is_missing fs given

-- `_routeTask`, up to the answer.
unfoldable pub route_task : TaskType → List String → RpcArgs → Routed
unfolding is_missing
route_task type expected a =
    if is_missing expected a.fields then refused invalid_params else routed (task_content type a)

unfoldable pub route_key : Option String → Option String → Routed
route_key (some w) (some u) = routed (key_content w u)
route_key none u = refused invalid_params
route_key (some w) none = refused invalid_params

unfoldable pub route_status : Bool → Option String → Option String → Routed
route_status b (some w) (some t) = routed (status_content t w b)
route_status b none t = refused invalid_params
route_status b (some w) none = refused invalid_params

unfoldable pub route_result : Option String → Routed
route_result none = refused invalid_params
route_result (some t) = routed (result_content t)

-- A method, up to `_routeNext`.
unfoldable pub route_method : RpcMethod → RpcArgs → Routed
unfolding route_task route_key route_status route_result
route_method key_method a = route_key a.worker_address a.user_pub_key
route_method deploy_method a = route_task deploy_secret_contract deploy_fields a
route_method compute_method a = route_task compute_task compute_fields a
route_method status_method a = route_status a.with_result a.worker_address a.task_id
route_method result_method a = route_result a.task_id

-- `coreRes && coreRes.result && "sent" in coreRes.result`
unfoldable pub was_sent : Option RpcResponse → Bool
was_sent none = false
was_sent (some r) = elim r.result [
  | key_result k s ↦ false
  | status_result s ↦ false
  | stored_result s ↦ false
  | sent b ↦ b
  | no_result ↦ false
]

unfoldable pub plain_reply : Option RpcResponse → ClientReply
plain_reply none = rpc_error server_error
plain_reply (some r) = rpc_reply r

-- The output is only for a caller that asks for it.
unfoldable pub status_reply : Bool → Option RpcResponse → ClientReply
status_reply with_result none = rpc_error server_error
status_reply with_result (some r) =
    rpc_reply (if with_result then r else record r { output = none })

-- The rest of a method, on what `_routeNext` returns; `none` is its `null`.
unfoldable pub reply_of_method : RpcMethod → RpcArgs → Option RpcResponse → ClientReply
unfolding plain_reply status_reply was_sent
reply_of_method key_method a o = plain_reply o
reply_of_method deploy_method a o = task_reply (was_sent o)
reply_of_method compute_method a o = task_reply (was_sent o)
reply_of_method status_method a o = status_reply a.with_result o
reply_of_method result_method a o = plain_reply o
