-- ===== src/P2p/Node.antt =====
-- src/worker/EnigmaNode.js: the requests to other workers, with the answers of ProtocolHandler.js.
use text.Mathlib.Text.{◌==◌ as str_eq}
use enigma_p2p.Base.{
  ℕ, String, ◌≡◌, ◌≤◌, ◌<◌, refl, inl, inr, ◌⊎◌, Bool-cases, leb, length, true, false, not, Option,
  none, some, List, arith, eq_iff, if◌then◌else◌,
}
use enigma_p2p.P2p.Messages.{
  MsgResult, RawMsg, MsgParams, valid_json_rpc, find_peers_req, find_peers_res, heart_beat_res,
  same_text, is_compatible,
}
use enigma_p2p.P2p.Handler.{responded, fell_back, handler_threw, on_find_peers, pick_peers}

-- A connection of `dialProtocol`: what comes back for a message, or nothing that is one; `none` for
-- the whole is an error of the dial.
abbrev pub Connection : Type 0
Connection = Option (RawMsg → Option RawMsg)

-- An object that came over the network, as the argument of a constructor.
abbrev pub received : RawMsg → MsgParams
received m = record { raw = m; from = none; to = none; max_peers = none; peers = none }

abbrev no_message : RawMsg
no_message = record { jsonrpc = none; method = none; params = none; result = none; id = none }

-- The call of `onResult`, or an exception.
pub data PeersResult : Type 0 where
  self_dial_error connection_error bad_request stream_error incompatible peers_threw : PeersResult
  peers_found : (request response : RawMsg) → PeersResult

-- The response of `findPeers` to a request that was sent.
unfoldable pub peers_answer : RawMsg → Option RawMsg → PeersResult
unfolding find_peers_res is_compatible
peers_answer request none = stream_error
peers_answer request (some m) = elim (find_peers_res (received m)) [
  | none ↦ peers_threw
  | some response ↦ elim (is_compatible request response) [
    | none ↦ peers_threw
    | some true ↦ peers_found request response
    | some false ↦ incompatible
  ]
]

unfoldable pub peers_request : (rand self_id peer_id : String) → (max_peers : ℕ) → Option RawMsg
unfolding find_peers_req
peers_request rand self peer max = find_peers_req rand (record {
  raw = no_message;
  from = some self;
  to = some peer;
  max_peers = some max;
  peers = none;
})

-- `findPeers`
unfoldable pub find_peers :
    (rand self_id peer_id : String) → (max_peers : ℕ) → Connection → PeersResult
unfolding peers_request peers_answer valid_json_rpc
find_peers rand self peer max c = if str_eq peer self then self_dial_error else elim c [
  | none ↦ connection_error
  | some send ↦ elim (peers_request rand self peer max) [
    | none ↦ peers_threw
    | some request ↦
        if not (valid_json_rpc request) then bad_request else peers_answer request (send request)
  ]
]

-- The call of `onResult` of `sendHeartBeat`: a response that does not fit is neither an error nor a
-- result. An error of the dial is not looked at, so that the connection is missing.
pub data BeatResult : Type 0 where
  beat_stream_error beat_dropped beat_threw : BeatResult
  beat : RawMsg → BeatResult

unfoldable pub beat_answer : RawMsg → Option RawMsg → BeatResult
unfolding heart_beat_res is_compatible
beat_answer request none = beat_stream_error
beat_answer request (some m) = elim (heart_beat_res (received m)) [
  | none ↦ beat_threw
  | some response ↦ elim (is_compatible request response) [
    | none ↦ beat_threw
    | some true ↦ beat response
    | some false ↦ beat_dropped
  ]
]

unfoldable pub send_heart_beat : RawMsg → Connection → BeatResult
unfolding beat_answer
send_heart_beat request none = beat_threw
send_heart_beat request (some send) = beat_answer request (send request)

-- The connection to a worker that answers by `onFindPeers`.
abbrev pub peers_of :
    (pick : ℕ → List String → List String) → (peer_id : String) → List String → Connection
peers_of pick peer peers = some (λ m. elim (on_find_peers pick peer peers m) [
  | responded r ↦ some r
  | fell_back ↦ none
  | handler_threw ↦ none
])

-- The peers that a worker sends to one that asks for `max`: all where it asks for none or there are
-- no more than it asks for, else those that the choice at random gives.
abbrev pub Chosen :
    (pick : ℕ → List String → List String) → (max : ℕ) → (known sent : List String) → Type 0
Chosen pick max known sent =
    (((max ≡ 0) ⊎ (length known ≤ max)) × (sent ≡ known))
    ⊎ ((0 < max) × (max < length known) × (sent ≡ pick max known))

pick_peers-Chosen :
    (pick : ℕ → List String → List String) (max : ℕ) (known : List String)
    → Chosen pick max known (pick_peers pick (some max) known)
unfolding pick_peers
pick_peers-Chosen pick max known = elim (Bool-cases (leb max 0)) [
  | inl none_asked ↦ inl (inl (ground (arith, none_asked)), ground (arith, none_asked))
  | inr some_asked ↦ elim (Bool-cases (leb (length known) max)) [
    | inl few ↦ inl (inr (ground (arith, few)), ground (arith, few))
    | inr many ↦
        inr (ground (arith, some_asked), ground (arith, many), ground (arith, some_asked, many))
  ]
]

-- A worker that asks another one, whose id is not its own, for at most `max` peers gets a response
-- that it takes for its own request's, from that worker to itself. The response has all the peers
-- that the other worker knows where `max` is 0 or they are no more than `max`, else those that the
-- choice at random gives for `max`.
pub find_peers_answered :
    (pick : ℕ → List String → List String) (rand self peer : String) (max : ℕ) (peers : List String)
    → str_eq peer self ≡ false
    → (request response : RawMsg) × (sent : List String) × (find_peers rand self peer max
          (peers_of pick peer peers)
        ≡ peers_found request response)
      × (response.result ≡ some (record { from = peer; to = self; type = none; peers = some sent }))
      × Chosen pick max peers sent
unfolding find_peers peers_request find_peers_req find_peers_res peers_answer valid_json_rpc
    on_find_peers is_compatible same_text
find_peers_answered pick rand self peer max peers other =
    let sent : List String = pick_peers pick (some max) peers in
    let result : MsgResult = record { from = peer; to = self; type = none; peers = some sent } in
    (
      record {
        jsonrpc = some "2.0";
        method = some "findpeers_req";
        params = some (record { from = self; to = peer; max_peers = some max });
        result = none;
        id = some rand;
      },
      record {
        jsonrpc = some "2.0";
        method = none;
        params = none;
        result = some result;
        id = some rand;
      },
      sent,
      ground (arith, other, eq_iff rand rand, eq_iff self self),
      refl,
      pick_peers-Chosen pick max peers,
    )
