-- ===== src/Rpc/KeyPath.antt =====
-- The call of a user for a worker's encryption key: from the API server over the gateway to the
-- worker, and back.
use Prim.Native.String.{◌++◌ as append}
use text.Mathlib.Text.{◌==◌ as str_eq}
use enigma_p2p.Base.{
  ℕ, String, ◌≡◌, ◌≢◌, refl, ap, ◌∙◌, false, Option, none, some, List, [], ◌∷◌, ◌++◌, arith, eq_iff,
  All,
}
use enigma_p2p.Tasks.Result.{TaskResult}
use enigma_p2p.Tasks.Json.{TaskJson}
use enigma_p2p.Tasks.Level.{Level}
use enigma_p2p.Tasks.Manager.{Manager}
use enigma_p2p.Rpc.Server.{
  key_method, RpcArgs, key_content, key_result, RpcResponse, rpc_reply, routed, route_method,
  reply_of_method,
}
use enigma_p2p.Rpc.Gateway.{
  rpc_request, rpc_answer, RpcCodec, RpcEnvelop, Subscription, GatewayOut, publish, respond,
  Gateway, route_blocking, dispatch_rpc, response_of, on_publish,
}
use enigma_p2p.Rpc.Worker.{on_self_topic}

abbrev pub key_response : String → String → RpcResponse
key_response key sig = record { result = key_result key sig; output = none; error = none }

-- The topic that the gateway waits on.
abbrev pub key_topic : (self worker sequence : String) → String
key_topic self worker sequence = append self (append worker sequence)

route_key_lem :
    (a : RpcArgs) (worker user : String)
    → a.worker_address ≡ some worker
    → a.user_pub_key ≡ some user
    → route_method key_method a ≡ routed (key_content worker user)
unfolding route_method
route_key_lem a worker user w u = ground (arith, w, u)

dispatch_key :
    (codec : RpcCodec) (self : String) (unzip : Option String → Option String)
    (results : String → Option TaskResult) (worker user sequence : String) (e : RpcEnvelop)
    (g : Gateway) (bytes : List ℕ)
    → e.content ≡ key_content worker user
    → e.sequence ≡ some sequence
    → str_eq (key_topic self worker sequence) "" ≡ false
    → str_eq sequence "" ≡ false
    → str_eq worker "" ≡ false
    → codec.encode (rpc_request (key_content worker user) sequence (key_topic self worker sequence))
      ≡ some bytes
    → dispatch_rpc codec self unzip results e g ≡ (
      g ++ record { topic = key_topic self worker sequence; envelop = e.id } ∷ [],
      publish worker bytes ∷ [],
    )
unfolding dispatch_rpc route_blocking
dispatch_key codec self unzip results worker user sequence e g bytes content seq t s w encoded =
    ground (arith, content, seq, t, s, w, encoded)

on_publish_only :
    (codec : RpcCodec) (topic id : String) (bytes : List ℕ) (g : Gateway)
    → All (λ (s : Subscription). s.topic ≢ topic) g
    → on_publish codec topic bytes (g ++ record { topic = topic; envelop = id } ∷ [])
      ≡ respond id (response_of codec bytes) ∷ []
unfolding on_publish
on_publish_only codec topic id bytes [] h = ground (arith, eq_iff topic topic)
on_publish_only codec topic id bytes (s ∷ g) h =
    ground (arith, eq_iff s.topic topic, h.0, on_publish_only codec topic id bytes g h.1)

response_key :
    (codec : RpcCodec) (key sig : String) (bytes : List ℕ)
    → codec.decode bytes ≡ some (rpc_answer (key_result key sig))
    → response_of codec bytes ≡ key_response key sig
unfolding response_of
response_key codec key sig bytes decoded = ground (arith, decoded)

module _ (level : Level TaskJson) where
  on_self_topic_key :
      (codec : RpcCodec) (now : ℕ) (core : String → Option (String × String))
      (bytes answer : List ℕ) (worker user sequence target key sig : String) (m : Manager level)
      → codec.decode bytes ≡ some (rpc_request (key_content worker user) sequence target)
      → core user ≡ some (key, sig)
      → codec.encode (rpc_answer (key_result key sig)) ≡ some answer
      → (on_self_topic level codec now core bytes m).published ≡ (target, answer) ∷ []
  unfolding on_self_topic
  on_self_topic_key codec now core bytes answer worker user sequence target key sig m decoded has
        encoded =
      ground (arith, decoded, has, encoded)

  -- A user's call for the encryption key of a worker is answered with the key and the signature of
  -- that worker's Core. The gateway publishes the request on the worker's topic; the worker that
  -- receives it publishes its answer on the topic that the gateway waits on; and this answers the
  -- user's envelope and no other, with no error. The texts that name worker, sequence and topic are
  -- not empty, no earlier subscription is to that topic, and msgpack carries both messages.
  pub key_call_answered :
      (codec : RpcCodec) (self : String) (unzip : Option String → Option String)
      (results : String → Option TaskResult) (core : String → Option (String × String))
      (a : RpcArgs) (worker user sequence key sig : String) (e : RpcEnvelop) (g : Gateway)
      (bytes answer : List ℕ) (m : Manager level) (now : ℕ)
      → let topic = key_topic self worker sequence in
        a.worker_address ≡ some worker
        → a.user_pub_key ≡ some user
        → e.content ≡ key_content worker user
        → e.sequence ≡ some sequence
        → str_eq topic "" ≡ false
        → str_eq sequence "" ≡ false
        → str_eq worker "" ≡ false
        → All (λ (s : Subscription). s.topic ≢ topic) g
        → codec.encode (rpc_request (key_content worker user) sequence topic) ≡ some bytes
        → codec.decode bytes ≡ some (rpc_request (key_content worker user) sequence topic)
        → codec.encode (rpc_answer (key_result key sig)) ≡ some answer
        → codec.decode answer ≡ some (rpc_answer (key_result key sig))
        → core user ≡ some (key, sig)
        → let sent = dispatch_rpc codec self unzip results e g in
          (route_method key_method a ≡ routed (key_content worker user))
          × (sent.1 ≡ publish worker bytes ∷ [])
          × ((on_self_topic level codec now core bytes m).published ≡ (topic, answer) ∷ [])
          × (on_publish codec topic answer sent.0 ≡ respond e.id (key_response key sig) ∷ [])
          × (reply_of_method key_method a (some (key_response key sig))
              ≡ rpc_reply (key_response key sig))
  unfolding reply_of_method
  key_call_answered codec self unzip results core a worker user sequence key sig e g bytes answer m
        now w u content seq t s k apart there there' back back' has =
      let topic : String = key_topic self worker sequence in
      let out =
        dispatch_key codec self unzip results worker user sequence e g bytes content seq t s k
          there in
      (
        route_key_lem a worker user w u,
        ap (λ (x : Gateway × List GatewayOut). x.1) out,
        on_self_topic_key codec now core bytes answer worker user sequence topic key sig m there'
            has back,
        ap (λ (x : Gateway × List GatewayOut). on_publish codec topic answer x.0) out
            ∙ on_publish_only codec topic e.id answer g apart
            ∙ ap (λ r. respond e.id r ∷ []) (response_key codec key sig answer back'),
        refl,
      )
