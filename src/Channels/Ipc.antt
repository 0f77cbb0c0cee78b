-- ===== src/Channels/Ipc.antt =====
-- src/core/ipc.js and src/core/actions/SendToCoreAction.js: the map from the ids of the messages to
-- Core to the envelopes that wait for their answers.
use enigma_p2p.Base.{ℕ, String, Option, none, some, List, [], ◌∷◌, ◌++◌}
use enigma_p2p.Base.Dict
use enigma_p2p.Base.Dict.{Dict}
use enigma_p2p.Sync.Accept.{ReceivedDelta}
use enigma_p2p.Channels.Envelop.{RequestType, Input, Content, Envelop}

-- A message to Core: the content as it is, the three fields of a query, or what UpdateDbAction builds.
pub data CoreBody : Type 0 where
  whole : Content → CoreBody
  query : RequestType → Input → CoreBody
  update_deltas : List ReceivedDelta → CoreBody
  update_new_contract : (address : String) → (bytecode : List ℕ) → CoreBody
  from_topic : String → CoreBody

pub record CoreRequest : Type 0 where
  pub id : Option String
  pub body : CoreBody

-- A response of Core.
pub record CoreResponse : Type 0 where
  pub id : String
  pub body : String

-- What settles a promise of `sendAndReceive`: the response, `{ error }`, or the exception by which an
-- action rejects it.
pub data Answer : Type 0 where
  answered : CoreResponse → Answer
  core_error : Answer
  call_threw : Answer

-- `_msgMapping`, where a callback is the envelope that it answers and `none` is `null`; and what the
-- socket has sent.
pub record IpcClient : Type 0 where
  pub msg_mapping : Dict (Option Envelop)
  pub sent : List (CoreRequest)

-- The id as a key: a missing one is that of the envelope, which is `false` where it has none.
unfoldable pub key_of : Option String → String
key_of none = "false"
key_of (some i) = i

unfoldable pub fill_id : Envelop → CoreRequest → CoreRequest
fill_id e request = elim request.id [ none ↦ record request { id = e.id } | some i ↦ request ]

-- The envelopes that go out with their contents.
abbrev pub Answers : Type 0
Answers = List (Envelop × Answer)

unfoldable pub missing_id : Envelop → Option String → Answers
missing_id e none = (e, core_error) ∷ []
missing_id e (some i) = []

-- `sendJsonAndReceive` from SendToCoreAction. `validate` is `_validateAndStrip` over the package:
-- `none` is a rejection. A message without an id is sent all the same.
unfoldable pub send_to_core :
    (CoreRequest → Option (CoreRequest)) → Envelop → CoreRequest → IpcClient → IpcClient × Answers
unfolding fill_id missing_id
send_to_core validate e request c =
    let message : CoreRequest = fill_id e request in
    let mapped : Dict (Option Envelop) = Dict.put (key_of message.id) (some e) c.msg_mapping in
    elim (validate message) [
      | none ↦ (record c { msg_mapping = mapped }, missing_id e message.id ++ (e, core_error) ∷ [])
      | some final ↦
          (record { msg_mapping = mapped; sent = c.sent ++ final ∷ [] }, missing_id e message.id)
    ]

-- `_initContextListener`
unfoldable pub on_message : CoreResponse → IpcClient → IpcClient × Answers
on_message r c = elim (Dict.get r.id c.msg_mapping) [
  | none ↦ (c, [])
  | some none ↦ (c, [])
  | some (some e) ↦
      (record c { msg_mapping = Dict.put r.id none c.msg_mapping }, (e, answered r) ∷ [])
]
