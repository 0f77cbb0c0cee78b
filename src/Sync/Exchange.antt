-- ===== src/Sync/Exchange.antt =====
-- An exchange with a provider whose Core holds what the chain has: sync_messages.js, Provider.js,
-- Receiver.js and StateSyncReqVerifier.js together.
use enigma_p2p.Base.{
  ℕ, ◌≤◌, ◌<◌, String, ◌≡◌, sym, ap, subst, ◌∙◌, inl, inr, Option, none, some, List, [], ◌∷◌, ◌++◌,
  arith, get_elem?, Occurs, Occurs-append, All, All-map_of,
}
use enigma_p2p.Base.Dict
use enigma_p2p.Base.Dict.{Dict}
use enigma_p2p.Sync.Compare.{RemoteContract, Missing, Excess, compare_remote}
use enigma_p2p.Sync.Plan.{Distinct, Lacking, local_count}
use enigma_p2p.Sync.Accept.{
  MissingState, transform_missing_states, ReceivedDelta, state_response, verify,
}
use enigma_p2p.Sync.Accepting.{verify_iff}
use enigma_p2p.Sync.Ranges.{
  Range, Request, state_request, bytecode_request, state_requests, requests_of,
}
use enigma_p2p.Sync.Covered.{Covers}
use enigma_p2p.Sync.Requests.{code_requests, requests_of-Covers, missing_form}
use enigma_p2p.Sync.Messages.{
  sync_state_req, sync_state_res, Codec, Carries, request_from_network, response_from_network,
  request_to_network,
}
use enigma_p2p.Sync.Provide.{
  CoreQuery, get_deltas, CoreResult, core_deltas, served, serve, passed, check_response, exchange,
}

-- A delta of the range that the contract has on the chain.
abbrev pub InRange : (List ℕ → String) → RemoteContract → Range → ReceivedDelta → Type 0
InRange hash c r d =
    (d.address ≡ r.contract_address)
    × (r.from_index ≤ d.key)
    × (d.key < r.to_index)
    × (get_elem? c.delta_hashes d.key ≡ some (hash d.bytes))

-- A range among those that cover the missing deltas begins behind the local ones.
Covers-Occurs :
    (address : String) (start end : ℕ) (rs : List Range) (r : Range)
    → Covers address start end rs
    → Occurs r rs
    → (r.contract_address ≡ address) × (start ≤ r.from_index)
Covers-Occurs address start end [] r covers o = absurd o
Covers-Occurs address start end (x ∷ rs) r (named, from, more, less, rest) (inl e) =
    (ap (λ y. y.contract_address) (sym e) ∙ named, omega (arith, from, ap (λ y. y.from_index) e))
Covers-Occurs address start end (x ∷ rs) r (named, from, more, less, rest) (inr o) =
    let (named', from') = Covers-Occurs address x.to_index end rs r rest o in
    (named', omega (arith, from', more))

serve_lem :
    (codec : Codec) (core : CoreQuery → Option CoreResult) (r : Range) (out bytes : List ℕ)
    (ds : List ReceivedDelta)
    → codec.decode out ≡ some (sync_state_req r)
    → core (get_deltas r.contract_address r.from_index r.to_index) ≡ some (core_deltas ds)
    → codec.encode (sync_state_res ds) ≡ some bytes
    → serve codec core out ≡ served (some bytes)
unfolding serve request_from_network
serve_lem codec core r out bytes ds decoded answered encoded =
    ground (arith, decoded, answered, encoded)

check_response_lem :
    (codec : Codec) (hash : List ℕ → String) (states : Dict MissingState) (bytes : List ℕ)
    (ds : List ReceivedDelta)
    → codec.decode bytes ≡ some (sync_state_res ds)
    → verify hash states (state_response ds) ≡ none
    → check_response codec hash states bytes ≡ passed (state_response ds)
unfolding check_response response_from_network
check_response_lem codec hash states bytes ds decoded fine = ground (arith, decoded, fine)

exchange_lem :
    (codec : Codec) (hash : List ℕ → String) (core : CoreQuery → Option CoreResult)
    (states : Dict MissingState) (r : Range) (ds : List ReceivedDelta)
    → Carries codec (sync_state_req r)
    → Carries codec (sync_state_res ds)
    → core (get_deltas r.contract_address r.from_index r.to_index) ≡ some (core_deltas ds)
    → verify hash states (state_response ds) ≡ none
    → exchange codec hash core states (state_request r) ≡ some (passed (state_response ds))
unfolding exchange request_to_network
exchange_lem codec hash core states r ds (out, sent, there) (bytes, replied, back) answered fine =
    ground (
      arith,
      sent,
      serve_lem codec core r out bytes ds there answered replied,
      check_response_lem codec hash states bytes ds back fine,
    )

range_of_request : Request → Option Range
range_of_request (state_request r) = some r
range_of_request (bytecode_request a) = none

state_requests_found :
    (rs : List Range) (r : Range) → Occurs (state_request r) (state_requests rs) → Occurs r rs
unfolding state_requests range_of_request
state_requests_found [] r o = absurd o
state_requests_found (x ∷ rs) r (inl e) =
    let same : some x ≡ some r = ap range_of_request e in inl (cc same)
state_requests_found (x ∷ rs) r (inr o) = inr (state_requests_found rs r o)

code_requests_none :
    (a : String) (tip : Option ℕ) (r : Range) → ¬ Occurs (state_request r) (code_requests a tip)
unfolding range_of_request
code_requests_none a none r (inl e) = absurd (ground (arith, ap range_of_request e))
code_requests_none a none r (inr o) = absurd o
code_requests_none a (some tip) r o = absurd o

module _ (params : String → Option RemoteContract) (hash : List ℕ → String) where
  in_range :
      (others : List String) (tips : Dict ℕ) (m : Missing) (r : Range) (c : RemoteContract)
      → Occurs m.address others
      → params m.address ≡ some c
      → r.contract_address ≡ m.address
      → local_count (Dict.get m.address tips) ≤ r.from_index
      → (d : ReceivedDelta) → InRange hash c r d
      → Lacking params others tips d.address d.key (hash d.bytes)
  in_range others tips m r c listed pc named from d (own, low, high, at) =
      subst (λ a. Lacking params others tips a d.key (hash d.bytes)) (sym (own ∙ named))
        (listed, (c, pc, (omega (arith, from, low), at)))

  -- A range of deltas that is asked for is received. Where a request for an entry of the missing list
  -- reaches a provider whose Core answers it with deltas of this range that the chain has, the
  -- receiver's verification passes exactly these deltas on. The missing list is that of the
  -- comparison, with no address listed twice, and msgpack carries the request and the response.
  pub exchange_received :
      (codec : Codec) (core : CoreQuery → Option CoreResult) (others : List String) (tips : Dict ℕ)
      (ms : List Missing) (es : List Excess) (m : Missing) (c : RemoteContract)
      (requests : List Request) (r : Range) (ds : List ReceivedDelta)
      → Distinct others
      → compare_remote params others tips ≡ some (ms, es)
      → Occurs m ms
      → params m.address ≡ some c
      → requests_of m ≡ some requests
      → Occurs (state_request r) requests
      → Carries codec (sync_state_req r)
      → Carries codec (sync_state_res ds)
      → core (get_deltas r.contract_address r.from_index r.to_index) ≡ some (core_deltas ds)
      → All (InRange hash c r) ds
      → exchange codec hash core (transform_missing_states ms []) (state_request r)
        ≡ some (passed (state_response ds))
  exchange_received codec core others tips ms es m c requests r ds distinct compared o pc built at
        out back answered honest =
      let (_, rs, _, built', covers) =
        requests_of-Covers params others tips ms es distinct compared m o in
      let tip : Option ℕ = Dict.get m.address tips in
      let (listed, _) = missing_form params others tips ms es distinct compared m o in
      let same : requests ≡ state_requests rs ++ code_requests m.address tip =
        ground (arith, built, built') in
      let ranged : Occurs r rs =
        elim ((Occurs-append (state_request r) (state_requests rs) (code_requests m.address tip)).0
          (subst (Occurs (state_request r)) same at)) [
            | inl there ↦ state_requests_found rs r there
            | inr code ↦ absurd (code_requests_none m.address tip r code)
          ] in
      let (named, from) = Covers-Occurs m.address _ _ rs r covers ranged in
      exchange_lem codec hash core (transform_missing_states ms []) r ds out back answered (
        (verify_iff params hash others tips ms es ds distinct compared).1 (
          All-map_of (InRange hash c r) _ ds (in_range others tips m r c listed pc named from)
            honest))
