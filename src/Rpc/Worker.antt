-- ===== src/Rpc/Worker.antt =====
-- src/worker/controller/actions/SubscribeSelfSignKeyTopicPipelineAction.js: what a worker does with a
-- message on the topic of its signing key.
use enigma_p2p.Base.{ℕ, String, Option, none, some, List, [], ◌∷◌}
use enigma_p2p.Tasks.Result.{deploy_secret_contract, compute_task, failed_task, other_type}
use enigma_p2p.Tasks.Json.{TaskJson}
use enigma_p2p.Tasks.Level.{Level}
use enigma_p2p.Tasks.Manager.{Notice, ok, Manager, get_task_status}
use enigma_p2p.Actions.Execute.{start_task}
use enigma_p2p.Rpc.Server.{
  key_content, task_content, status_content, result_content, RpcResult, key_result, status_result,
}
use enigma_p2p.Rpc.Gateway.{rpc_request, rpc_task, rpc_answer, RpcCodec}

module _ (level : Level TaskJson) where
  -- The manager afterwards, what is published, and the notifications of the manager.
  pub record WorkerStep : Type 0 where
    pub manager : Manager level
    pub published : List (String × List ℕ)
    pub notices : List Notice

  -- A result that cannot be encoded is not published.
  unfoldable pub publish_answer : RpcCodec → String → RpcResult → Manager level → WorkerStep
  publish_answer codec topic r m = elim (codec.encode (rpc_answer r)) [
    | none ↦ record { manager = m; published = []; notices = [] }
    | some bytes ↦ record { manager = m; published = (topic, bytes) ∷ []; notices = [] }
  ]

  -- `_executeNewTaskEncryptionKey`, on the key and the signature of Core; `none` is an error of it.
  unfoldable pub serve_key :
      RpcCodec → String → Option (String × String) → Manager level → WorkerStep
  unfolding publish_answer
  serve_key codec topic none m = record { manager = m; published = []; notices = [] }
  serve_key codec topic (some (key, sig)) m = publish_answer codec topic (key_result key sig) m

  -- `_getTaskStatus`
  unfoldable pub serve_status : RpcCodec → String → String → Manager level → WorkerStep
  unfolding publish_answer
  serve_status codec topic task m = elim (get_task_status level task m) [
    | ok (some s) ↦ publish_answer codec topic (status_result (some s)) m
    | _ ↦ record { manager = m; published = []; notices = [] }
  ]

  -- `onPublish`; `core` answers a request for a key by its user's public key.
  unfoldable pub on_self_topic :
      RpcCodec
      → (now : ℕ) → (core : String → Option (String × String)) → List ℕ
      → Manager level
      → WorkerStep
  unfolding serve_key serve_status
  on_self_topic codec now core bytes m = elim (codec.decode bytes) [
    | none ↦ record { manager = m; published = []; notices = [] }
    | some (rpc_answer r) ↦ record { manager = m; published = []; notices = [] }
    | some (rpc_request c sequence target) ↦ elim c [
      | key_content worker user ↦ serve_key codec target (core user) m
      | status_content task worker b ↦ serve_status codec target task m
      | task_content type a ↦ record { manager = m; published = []; notices = [] }
      | result_content task ↦ record { manager = m; published = []; notices = [] }
    ]
    | some (rpc_task type a) ↦
        let (m', notices) = start_task level now type a.request m in
        elim type [
          | deploy_secret_contract ↦ record { manager = m'; published = []; notices = notices }
          | compute_task ↦ record { manager = m'; published = []; notices = notices }
          | failed_task ↦ record { manager = m; published = []; notices = [] }
          | other_type ↦ record { manager = m; published = []; notices = [] }
        ]
  ]
