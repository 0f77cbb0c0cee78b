-- ===== src/Sync/Messages.antt =====
-- src/policy/p2p_messages/sync_messages.js, with src/common/EncoderUtil.js under it: the messages of
-- the synchronisation on the network. msgpack is a parameter.
use enigma_p2p.Base.{ℕ, String, ◌≡◌, Option, none, some, List}
use enigma_p2p.Sync.Accept.{ReceivedDelta, SyncMessage, state_response, bytecode_response}
use enigma_p2p.Sync.Ranges.{Range, Request, state_request, bytecode_request}

-- An object on the network, by its `msgType`; without one, or with another, it is `untyped`.
pub data RawMessage : Type 0 where
  sync_state_req : Range → RawMessage
  sync_bcode_req : String → RawMessage
  sync_state_res : List ReceivedDelta → RawMessage
  sync_bcode_res : String → List ℕ → RawMessage
  untyped : RawMessage

-- `EncoderUtil.encode` and `decode` over msgpack; `none` is the `null` of an exception.
pub record Codec : Type 0 where
  pub encode : RawMessage → Option (List ℕ)
  pub decode : List ℕ → Option RawMessage

-- msgpack gives an object back as it was.
abbrev pub Carries : Codec → RawMessage → Type 0
Carries codec m = (bytes : List ℕ) × (codec.encode m ≡ some bytes) × (codec.decode bytes ≡ some m)

-- `requestMessageFromNetwork` and `responseMessageFromNetwork`: a message, `null`, or the exception at
-- an object that is `null`.
pub data Parsed (M : Type 0) : Type 0 where
  parsed : M → Parsed M
  no_message : Parsed M
  parse_threw : Parsed M

unfoldable pub as_request : RawMessage → Parsed Request
as_request (sync_state_req r) = parsed (state_request r)
as_request (sync_bcode_req a) = parsed (bytecode_request a)
as_request _ = no_message

unfoldable pub request_from_network : Codec → List ℕ → Parsed Request
unfolding as_request
request_from_network codec bytes = elim (codec.decode bytes) [
  | none ↦ parse_threw
  | some m ↦ as_request m
]

unfoldable pub as_response : RawMessage → Parsed SyncMessage
as_response (sync_state_res ds) = parsed (state_response ds)
as_response (sync_bcode_res a bytes) = parsed (bytecode_response a bytes)
as_response _ = no_message

unfoldable pub response_from_network : Codec → List ℕ → Parsed SyncMessage
unfolding as_response
response_from_network codec bytes = elim (codec.decode bytes) [
  | none ↦ parse_threw
  | some m ↦ as_response m
]

-- `toNetwork` of a request.
unfoldable pub request_to_network : Codec → Request → Option (List ℕ)
request_to_network codec (state_request r) = codec.encode (sync_state_req r)
request_to_network codec (bytecode_request a) = codec.encode (sync_bcode_req a)
