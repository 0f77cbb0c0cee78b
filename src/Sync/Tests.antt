-- ===== src/Sync/Tests.antt =====
-- The theorems of Sync at a chain of two contracts and a local state with three tips.
use enigma_p2p.Base.{
  ℕ, ◌==◌, String, ◌≡◌, ◌≢◌, refl, ◌↔◌, inl, inr, true, false, Option, none, some, List, [], ◌∷◌,
  ◌++◌, arith, eq_iff, Occurs, All, length,
}
use enigma_p2p.Base.Dict
use enigma_p2p.Base.Dict.{Dict}
use enigma_p2p.Sync.Compare.{RemoteContract, Missing, Excess, compare_remote}
use enigma_p2p.Sync.Plan.{local_count, Distinct, Asks, Lacking, compare_remote-Asks}
use enigma_p2p.Sync.Surplus.{Exceeding, compare_remote-Exceeding}
use enigma_p2p.Sync.Ranges.{
  ranges_from, range_of, Range, Request, requests_of, requests_map, state_requests,
  parse_state_req_msgs,
}
use enigma_p2p.Sync.Covered.{Covers}
use enigma_p2p.Sync.Requests.{code_requests, requests_of-Covers}
use enigma_p2p.Sync.Accept.{ReceivedDelta, transform_missing_states, verify, check_received}
use enigma_p2p.Sync.Accept.{state_response, unknown_index}
use enigma_p2p.Sync.Ranges.{state_request}
use enigma_p2p.Sync.Accepting.{verify_iff}
use enigma_p2p.Sync.Messages.{RawMessage, sync_state_req, sync_state_res, Codec}
use enigma_p2p.Sync.Provide.{core_deltas, passed, exchange}
use enigma_p2p.Sync.Exchange.{exchange_received}
use enigma_p2p.Sync.Code.{LacksCode, verify-LacksCode}
use enigma_p2p.Sync.Receive.{Attempt, try_sync_receive}
use enigma_p2p.Sync.Providers.{asked, answers, try_sync_receive-answers}
use enigma_p2p.Sync.Pipeline.{already_running, all_found, some_errors, Commands, execute}
use enigma_p2p.Sync.Running.{execute_blocked}

abbrev contract_a : String
contract_a = "a0"

abbrev contract_b : String
contract_b = "b0"

-- `a0` has three deltas, `b0` two.
abbrev demo_params : String → Option RemoteContract
demo_params a = elim (Dict.get a chain) [ none ↦ none | some c ↦ some c ]
  where
    chain : Dict RemoteContract
    chain =
        (contract_a, record { code_hash = "ca"; delta_hashes = "h0" ∷ "h1" ∷ "h2" ∷ [] })
        ∷ (contract_b, record { code_hash = "cb"; delta_hashes = "k0" ∷ "k1" ∷ [] })
        ∷ []

abbrev demo_hash : List ℕ → String
demo_hash [] = "cb"
demo_hash (b ∷ bs) = "h2"

abbrev demo_chain : List String
demo_chain = contract_a ∷ contract_b ∷ []

-- `a0` is known up to the delta 1, `b0` not at all; the chain does not have `d0`.
abbrev demo_tips : Dict ℕ
demo_tips = (contract_a, 1) ∷ ("d0", 4) ∷ []

abbrev demo_missing : List Missing
demo_missing =
    record {
      address = contract_a;
      deltas = record { delta_hash = "h2"; index = 2 } ∷ [];
      bytecode_hash = none;
    }
    ∷ record {
      address = contract_b;
      deltas =
          record { delta_hash = "k0"; index = 0 } ∷ record { delta_hash = "k1"; index = 1 } ∷ [];
      bytecode_hash = some "cb";
    }
    ∷ []

abbrev demo_excess : List Excess
demo_excess = record { address = "d0"; remote_tip = none; local_tip = 4 } ∷ []

demo_compared : compare_remote demo_params demo_chain demo_tips ≡ some (demo_missing, demo_excess)
unfolding compare_remote Dict.get Dict.remove Dict.keys
demo_compared = refl

contracts_differ : contract_a ≢ contract_b
contracts_differ e = absurd (ground (arith, eq_iff contract_a contract_b))

demo-Distinct : Distinct demo_chain
demo-Distinct = (once, ((λ o. o), tt))
  where
    once : ¬ Occurs contract_a (contract_b ∷ [])
    once (inl e) = contracts_differ (cc e)
    once (inr o) = o

compare_remote-Asks_example :
    Asks contract_a 2 "h2" demo_missing ↔ Lacking demo_params demo_chain demo_tips contract_a 2 "h2"
compare_remote-Asks_example =
    compare_remote-Asks demo_params demo_chain demo_tips demo_missing demo_excess demo-Distinct
      demo_compared contract_a 2 "h2"

compare_remote-Exceeding_example :
    Occurs (record { address = "d0"; remote_tip = none; local_tip = 4 }) demo_excess
    ↔ Exceeding demo_params demo_chain demo_tips
        (record { address = "d0"; remote_tip = none; local_tip = 4 })
compare_remote-Exceeding_example =
    compare_remote-Exceeding demo_params demo_chain demo_tips demo_missing demo_excess demo-Distinct
      demo_compared (record { address = "d0"; remote_tip = none; local_tip = 4 })

abbrev demo_delta : ReceivedDelta
demo_delta = record { address = contract_a; key = 2; bytes = 7 ∷ [] }

verify_iff_example :
    (verify demo_hash (transform_missing_states demo_missing []) (state_response (demo_delta ∷ []))
      ≡ none)
    ↔ All
        (λ d. Lacking demo_params demo_chain demo_tips d.address d.key (demo_hash d.bytes))
        (demo_delta ∷ [])
verify_iff_example =
    verify_iff demo_params demo_hash demo_chain demo_tips demo_missing demo_excess (demo_delta ∷ [])
      demo-Distinct demo_compared

-- A delta that the local state has already is not accepted.
abbrev known_delta : ReceivedDelta
known_delta = record { address = contract_a; key = 1; bytes = 7 ∷ [] }

known_refused :
    verify demo_hash (transform_missing_states demo_missing []) (state_response (known_delta ∷ []))
    ≡ some unknown_index
unfolding verify transform_missing_states Dict.get Dict.put check_received
known_refused = refl

abbrev last_range : Range
last_range = record {
  contract_address = contract_a;
  from_index = 2;
  from_hash = "h2";
  to_index = 3;
  to_hash = "h2";
}

-- Two messages, numbered.
abbrev two_messages : Codec
two_messages = record {
  encode = number;
  decode = λ bytes. elim bytes [
    | [] ↦ some (sync_state_req last_range)
    | b ∷ bs ↦ some (sync_state_res (demo_delta ∷ []))
  ];
}
  where
    number : RawMessage → Option (List ℕ)
    number (sync_state_req r) = some []
    number (sync_state_res ds) = some (1 ∷ [])
    number _ = none

abbrev entry_a : Missing
entry_a = record {
  address = contract_a;
  deltas = record { delta_hash = "h2"; index = 2 } ∷ [];
  bytecode_hash = none;
}

exchange_received_example :
    exchange two_messages demo_hash
      (λ q. some (core_deltas (demo_delta ∷ [])))
      (transform_missing_states demo_missing [])
      (state_request last_range)
    ≡ some (passed (state_response (demo_delta ∷ [])))
unfolding requests_of parse_state_req_msgs ranges_from range_of Dict.get
exchange_received_example =
    exchange_received demo_params demo_hash two_messages (λ q. some (core_deltas (demo_delta ∷ [])))
      demo_chain demo_tips demo_missing demo_excess entry_a
      (record { code_hash = "ca"; delta_hashes = "h0" ∷ "h1" ∷ "h2" ∷ [] })
      (state_request last_range ∷ []) last_range (demo_delta ∷ []) demo-Distinct demo_compared
      (inl refl) refl refl (inl refl) ([], refl, refl) (1 ∷ [], refl, refl) refl
      ((refl, omega arith, omega arith, refl), tt)

verify-LacksCode_example : LacksCode demo_params demo_chain demo_tips contract_b (demo_hash [])
unfolding verify transform_missing_states Dict.get Dict.put
verify-LacksCode_example =
    verify-LacksCode demo_params demo_hash demo_chain demo_tips demo_missing demo_excess contract_b
      [] demo-Distinct demo_compared refl

abbrev entry_b : Missing
entry_b = record {
  address = contract_b;
  deltas = record { delta_hash = "k0"; index = 0 } ∷ record { delta_hash = "k1"; index = 1 } ∷ [];
  bytecode_hash = some "cb";
}

requests_of-Covers_example :
    (c : RemoteContract) × (rs : List Range) × (demo_params contract_b ≡ some c)
    × (requests_of entry_b
        ≡ some (state_requests rs ++ code_requests contract_b (Dict.get contract_b demo_tips)))
    × Covers contract_b (local_count (Dict.get contract_b demo_tips)) (length c.delta_hashes) rs
requests_of-Covers_example =
    requests_of-Covers demo_params demo_chain demo_tips demo_missing demo_excess demo-Distinct
      demo_compared entry_b (inr (inl refl))

-- The second provider answers.
abbrev demo_attempt : ℕ → Option String → Attempt ℕ
demo_attempt n none = record { failed = true; results = 0 }
demo_attempt n (some p) = record { failed = n == 0; results = n }

try_sync_receive-answers_example :
    try_sync_receive demo_attempt ("p" ∷ "q" ∷ "r" ∷ [])
    ≡ answers demo_attempt 0 (asked ("p" ∷ "q" ∷ "r" ∷ [])) 0
try_sync_receive-answers_example = try_sync_receive-answers demo_attempt ("p" ∷ "q" ∷ "r" ∷ []) 0

abbrev demo_commands : Commands ℕ
demo_commands = record {
  identify = some (demo_missing, demo_excess);
  makes_cid = λ a. true;
  find_providers = some all_found;
  receive_all = λ requests. some 5;
  update = λ message. true;
}

abbrev failing_commands : Commands ℕ
failing_commands = record demo_commands { find_providers = some some_errors }

demo_requests : (d : Dict (List Request)) × (requests_map demo_missing [] ≡ some d)
unfolding requests_map parse_state_req_msgs ranges_from range_of
demo_requests = (_, refl)

execute_blocked_example :
    execute demo_commands (execute failing_commands false).running
    ≡ record { running = true; ends = already_running ∷ []; sent = [] }
execute_blocked_example =
    execute_blocked failing_commands demo_commands demo_missing demo_excess demo_requests.0 refl
      demo_requests.1 refl

-- The chain lacks the contract "d0" and has the deltas of "d1" up to 2.
abbrev reverting_commands : Commands ℕ
reverting_commands = record demo_commands {
  identify = some (
    demo_missing,
    demo_excess ++ record { address = "d1"; remote_tip = some 2; local_tip = 4 } ∷ [],
  );
}
