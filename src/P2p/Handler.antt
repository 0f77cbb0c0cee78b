-- ===== src/P2p/Handler.antt =====
-- src/worker/handlers/ProtocolHandler.js: the answers to the messages of other workers, and the
-- dispatch of protocols and topics.
use text.Mathlib.Text.{◌==◌ as str_eq}
use enigma_p2p.Base.{
  ℕ, String, ◌≡◌, refl, true, not, Option, none, some, is_some, List, [], ◌∷◌, ◌>>=◌, ◌||◌, arith,
  eq_iff, leb, length, if◌then◌else◌,
}
use enigma_p2p.Base.Dict
use enigma_p2p.P2p.Messages.{
  Params, MsgResult, RawMsg, valid_json_rpc, heart_beat_res, find_peers_res, same_text,
  is_compatible,
}

-- A message that has nothing of JSON RPC but, perhaps, an id.
abbrev bare : Option String → RawMsg
bare id = record { jsonrpc = none; method = none; params = none; result = none; id = id }

-- What a handler of a request makes of it: the response, an answer of nothing after the fallback, or
-- an exception.
pub data Handled : Type 0 where
  responded : RawMsg → Handled
  fell_back : Handled
  handler_threw : Handled

abbrev handled_of : Option RawMsg → Handled
handled_of none = handler_threw
handled_of (some r) = responded r

-- `onHeartBeat`, for the request as the constructor has read it.
unfoldable pub on_heart_beat : (self_id : String) → RawMsg → Handled
unfolding valid_json_rpc heart_beat_res
on_heart_beat self request =
    if not (valid_json_rpc request)
    then fell_back
    else handled_of (do
      p ← request.params
      heart_beat_res (record {
        raw = bare request.id;
        from = some self;
        to = some p.from;
        max_peers = none;
        peers = none;
      }))

-- `pickRandomFromList`; `pick` is the package's.
unfoldable pub pick_peers :
    (pick : ℕ → List String → List String) → Option ℕ → List String → List String
pick_peers pick none peers = peers
pick_peers pick (some n) peers = if leb n 0 || leb (length peers) n then peers else pick n peers

-- `onFindPeers`, for the first request of a connection; `peers` are those of the peer book, parsed.
unfoldable pub on_find_peers :
    (pick : ℕ → List String → List String) → (self_id : String) → List String → RawMsg → Handled
unfolding valid_json_rpc find_peers_res pick_peers
on_find_peers pick self peers request =
    if not (valid_json_rpc request)
    then fell_back
    else handled_of (do
      p ← request.params
      find_peers_res (record {
        raw = bare request.id;
        from = some self;
        to = some p.from;
        max_peers = none;
        peers = some (pick_peers pick p.max_peers peers);
      }))

-- What is emitted to the controller.
pub data P2pNotice : Type 0 where
  discovered new_peer_connected state_sync_req get_all_tips received_new_result : P2pNotice

-- `onPeerDiscovery`: a bootstrap node may discover itself.
unfoldable pub on_peer_discovery : (self_id peer_id : String) → List P2pNotice
on_peer_discovery self peer = if str_eq self peer then [] else discovered ∷ []

-- `onTaskResultPublish`: a worker's own results come back to it.
unfoldable pub on_task_result_publish : (self_id from : String) → List P2pNotice
on_task_result_publish self from = if str_eq from self then [] else received_new_result ∷ []

-- `isValidProtocol` and `isValidTopic` over the values of the constants, and the dispatch by them; a
-- valid name that has no handler is an exception.
pub data Dispatched (H : Type 0) : Type 0 where
  handled_by : H → Dispatched H
  name_refused : Dispatched H
  no_handler : Dispatched H

unfoldable pub handle_protocol :
    {H : Type 0} → (valid : List String) → (handlers : Dict.Dict H) → String → Dispatched H
handle_protocol valid handlers name =
    if Dict.listed name valid
    then (elim (Dict.get name handlers) [ none ↦ no_handler | some h ↦ handled_by h ])
    else name_refused

-- `handleTopic`: the first of the message's topics counts.
unfoldable pub handle_topic :
    {H : Type 0} → (valid : List String) → (handlers : Dict.Dict H) → List String → Dispatched H
unfolding handle_protocol
handle_topic valid handlers [] = name_refused
handle_topic valid handlers (t ∷ ts) = handle_protocol valid handlers t

given_of : {A : Type 0} → (o : Option A) → is_some o ≡ true → (a : A) × (o ≡ some a)
given_of none e = absurd (ground (arith, e))
given_of (some a) e = (a, refl)

valid_json_rpc-id : (m : RawMsg) → valid_json_rpc m ≡ true → (i : String) × (m.id ≡ some i)
unfolding valid_json_rpc
valid_json_rpc-id m valid = given_of m.id (ground (arith, valid))

-- A worker answers a valid heartbeat that has parameters with a response that is valid and that the
-- sender finds compatible with its request, from the worker to the sender.
pub on_heart_beat_compatible :
    (self : String) (request : RawMsg) (p : Params)
    → valid_json_rpc request ≡ true
    → request.params ≡ some p
    → (r : MsgResult) × (response : RawMsg) × (on_heart_beat self request ≡ responded response)
      × (response.result ≡ some r)
      × (r.from ≡ self)
      × (r.to ≡ p.from)
      × (is_compatible request response ≡ some true)
unfolding on_heart_beat heart_beat_res is_compatible valid_json_rpc same_text
on_heart_beat_compatible self request p valid given =
    let (i, named) = valid_json_rpc-id request valid in
    let r : MsgResult = record {
      from = self;
      to = p.from;
      type = some "heartbeat";
      peers = none;
    } in
    (
      r,
      record { jsonrpc = some "2.0"; method = none; params = none; result = some r; id = some i },
      ground (arith, valid, given, named),
      refl,
      refl,
      refl,
      ground (arith, given, named, eq_iff i i, eq_iff p.from p.from),
    )
