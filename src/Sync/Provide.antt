-- ===== src/Sync/Provide.antt =====
-- src/worker/state_sync/provider/Provider.js: the answer to one request of another worker, with
-- GetDeltasAction.js and GetContractCodeAction.js; and `_verificationStream` of Receiver.js.
use enigma_p2p.Base.{ℕ, String, Option, none, some, List, ◌>>=◌}
use enigma_p2p.Base.Dict.{Dict}
use enigma_p2p.Sync.Accept.{MissingState, ReceivedDelta, SyncMessage, SyncFault, verify}
use enigma_p2p.Sync.Ranges.{Request, state_request, bytecode_request}
use enigma_p2p.Sync.Messages.{
  RawMessage, sync_state_res, sync_bcode_res, untyped, Codec, parsed, no_message, parse_threw,
  request_from_network, response_from_network, request_to_network,
}

-- What the provider asks of Core.
pub data CoreQuery : Type 0 where
  get_deltas : (address : String) → (from to : ℕ) → CoreQuery
  get_contract : (address : String) → CoreQuery

-- What Core answers, by its `type`.
pub data CoreResult : Type 0 where
  core_deltas : List ReceivedDelta → CoreResult
  core_contract : String → List ℕ → CoreResult
  core_other : CoreResult

-- What goes out for a request: bytes (`none` for the `null` of the encoder), the end of the stream, an
-- error of it, or an exception.
pub data Served : Type 0 where
  served : Option (List ℕ) → Served
  stream_end stream_error serve_threw : Served

-- The query of `_fromDbStream`.
unfoldable pub query_of : Request → CoreQuery
query_of (state_request r) = get_deltas r.contract_address r.from_index r.to_index
query_of (bytecode_request a) = get_contract a

-- `_toNetworkParse`: the result of Core is sent with the `msgType` that its type implies.
unfoldable pub to_raw : CoreResult → RawMessage
to_raw (core_deltas ds) = sync_state_res ds
to_raw (core_contract a bytes) = sync_bcode_res a bytes
to_raw core_other = untyped

-- The streams of `startStateSyncResponse` for one request; `core` is `none` where it calls back with
-- an error.
unfoldable pub serve : Codec → (CoreQuery → Option CoreResult) → List ℕ → Served
unfolding query_of to_raw
serve codec core bytes = elim (request_from_network codec bytes) [
  | parse_threw ↦ serve_threw
  | no_message ↦ stream_end
  | parsed request ↦ elim (core (query_of request)) [
    | none ↦ stream_error
    | some result ↦ served (codec.encode (to_raw result))
  ]
]

-- What `_verificationStream` hands on: a message, the end, an error of the verification, or an
-- exception.
pub data Checked : Type 0 where
  passed : SyncMessage → Checked
  check_end check_threw : Checked
  check_failed : SyncFault → Checked

unfoldable pub check_response : Codec → (List ℕ → String) → Dict MissingState → List ℕ → Checked
check_response codec hash states bytes = elim (response_from_network codec bytes) [
  | parse_threw ↦ check_threw
  | no_message ↦ check_end
  | parsed message ↦ elim (verify hash states message) [
    | none ↦ passed message
    | some fault ↦ check_failed fault
  ]
]

-- `_toNetworkSyncReqParser`, the provider's streams, and `_verificationStream`, for one request. A
-- missing answer ends the stream, as an error of the provider does for the receiver.
unfoldable pub exchange :
    Codec
    → (List ℕ → String)
    → (CoreQuery → Option CoreResult)
    → Dict MissingState
    → Request
    → Option Checked
unfolding check_response serve
exchange codec hash core states request = do
  out ← request_to_network codec request
  elim (serve codec core out) [
    | served (some bytes) ↦ some (check_response codec hash states bytes)
    | served none ↦ none
    | stream_end ↦ none
    | stream_error ↦ none
    | serve_threw ↦ none
  ]
