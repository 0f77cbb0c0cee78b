-- ===== src/Channels/Tests.antt =====
-- The theorem of Channels at two requests whose answers come in the other order.
use enigma_p2p.Base.{String, ◌≡◌, refl, subst, ◌≢◌, Option, none, some, [], ◌∷◌, arith, eq_iff}
use enigma_p2p.Base.Dict
use enigma_p2p.Channels.Envelop.{
  RequestType, get_tips, new_task_encryption_key, no_message, Envelop, new_sequence, new_envelop,
}
use enigma_p2p.Channels.Ipc.{CoreRequest, CoreResponse, answered, query, whole, key_of, fill_id}
use enigma_p2p.Channels.Runtime.{made, request_of, request, message, handle_all, idle_channel}
use enigma_p2p.Channels.Answering.{request_answered}

abbrev demo_envelop : String → String → RequestType → Envelop
demo_envelop i k type =
    new_envelop i k new_sequence (record { id = none; type = type; input = no_message; rest = "" })
      "db"

abbrev tips : Envelop
tips = demo_envelop "e1" "m1" get_tips

abbrev key : Envelop
key = demo_envelop "e2" "m2" new_task_encryption_key

abbrev valid : CoreRequest → Option CoreRequest
valid r = some r

abbrev response : String → CoreResponse
response k = record { id = k; body = "" }

abbrev e1 : String
e1 = "e1"

abbrev e2 : String
e2 = "e2"

abbrev m1 : String
m1 = "m1"

abbrev m2 : String
m2 = "m2"

e2-e1 : e2 ≢ e1
e2-e1 e = absurd (ground (arith, eq_iff e2 e1))

m2-m1 : m2 ≢ m1
m2-m1 e = absurd (ground (arith, eq_iff m2 m1))

key_apart : (r : CoreRequest) → request_of "r" key ≡ made r → key_of (fill_id key r).id ≢ m1
unfolding new_envelop request_of key_of fill_id
key_apart r is =
    let same : record { id = some m2; body = whole key.content } ≡ r = cc is in
    subst (λ (x : CoreRequest). key_of (fill_id key x).id ≢ m1) same m2-m1

request_answered_example :
    Dict.get "e1"
      (handle_all valid
        (request "r" tips
          ∷ request "r" key
          ∷ message (response "m2")
          ∷ message (response "m1")
          ∷ [])
        (idle_channel valid)).emitted
    ≡ some (answered (response "m1"))
unfolding new_envelop request_of fill_id
request_answered_example =
    request_answered valid [] (request "r" key ∷ message (response "m2") ∷ []) [] "r" "e1" tips
      (record { id = some "m1"; body = query get_tips no_message })
      (record { id = some "m1"; body = query get_tips no_message }) (response "m1") refl refl refl
      refl tt (((λ e. e2-e1 (cc e)), key_apart), (m2-m1, tt))
