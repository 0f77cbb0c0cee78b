-- ===== src/Sync/Ranges.antt =====
-- src/worker/state_sync/receiver/LocalMissingStatesResult.js: the requests for what is missing, and
-- `buildMissingStatesResult` of ReceiveAllPipelineAction.js.
use Prim.Native.Nat.{min}
use enigma_p2p.Base.{
  ℕ, zero, suc, ◌+◌, ◌-◌, ◌/◌, String, Bool, Option, none, some, List, [], ◌∷◌, ◌++◌, ◌==◌,
  if◌then◌else◌, length, take, drop, ◌>>=◌,
}
use enigma_p2p.Base.Dict
use enigma_p2p.Base.Dict.{Dict}
use enigma_p2p.Sync.Compare.{MissingDelta, Missing}

-- `CONTENT_ROUTING.RANGE_LIMIT`
abbrev pub range_limit : ℕ
range_limit = 10

-- A request for the deltas of a contract from one index to before another.
pub record Range : Type 0 where
  pub contract_address : String
  pub from_index : ℕ
  pub from_hash : String
  pub to_index : ℕ
  pub to_hash : String

-- `slice[slice.length - 1]` for a slice that begins with `d`.
unfoldable pub last_delta : MissingDelta → List MissingDelta → MissingDelta
last_delta d [] = d
last_delta d (e ∷ ds) = last_delta e ds

-- `none` is the `TypeError` of an empty slice.
unfoldable pub range_of : String → List MissingDelta → Option Range
unfolding last_delta
range_of address [] = none
range_of address (d ∷ ds) = some (record {
  contract_address = address;
  from_index = d.index;
  from_hash = d.delta_hash;
  to_index = (last_delta d ds).index + 1;
  to_hash = (last_delta d ds).delta_hash;
})

-- The loop over the buckets: `left` of them are to be built, from the deltas at `begin` on.
unfoldable pub ranges_from :
    (left size begin : ℕ) → String → List MissingDelta → Option (List Range)
ranges_from zero size begin address deltas = some []
ranges_from (suc left) size begin address deltas = do
  range ← range_of address (take (min (begin + size) (length deltas) - begin) (drop begin deltas))
  rest ← ranges_from left size (min (begin + size) (length deltas)) address deltas
  some (range ∷ rest)

-- `Math.ceil(n / size)`, for a `size` other than 0.
unfoldable pub buckets : ℕ → ℕ → ℕ
buckets n size = (n + (size - 1)) / size

unfoldable pub parse_state_req_msgs : String → List MissingDelta → Option (List Range)
unfolding buckets
parse_state_req_msgs address deltas =
    ranges_from (buckets (length deltas) range_limit) range_limit 0 address deltas

-- The requests of a contract: a range each, and the bytecode.
pub data Request : Type 0 where
  state_request : Range → Request
  bytecode_request : String → Request

-- `deltas[0].index === 0`
unfoldable pub is_bcode_request : List MissingDelta → Option Bool
is_bcode_request [] = none
is_bcode_request (d ∷ ds) = some (d.index == 0)

unfoldable pub state_requests : List Range → List Request
state_requests [] = []
state_requests (r ∷ rs) = state_request r ∷ state_requests rs

-- `buildP2ReqPMsgsOneContract`, with the bytecode's request pushed at the end of the others.
unfoldable pub requests_of : Missing → Option (List Request)
unfolding is_bcode_request state_requests
requests_of m = do
  ranges ← parse_state_req_msgs m.address m.deltas
  whole ← is_bcode_request m.deltas
  some (
      if whole
      then state_requests ranges ++ bytecode_request m.address ∷ []
      else state_requests ranges)

-- `createP2PReqMsgsMap` and `buildMissingStatesResult`
unfoldable pub requests_map : List Missing → Dict (List Request) → Option (Dict (List Request))
unfolding requests_of
requests_map [] out = some out
requests_map (m ∷ ms) out = do
  requests ← requests_of m
  requests_map ms (Dict.put m.address requests out)
