-- ===== src/Sync/Running.antt =====
-- The executions of ReceiveAllPipelineAction.js: what they revert, and the flag that they leave.
use enigma_p2p.Base.{
  ℕ, suc, ◌⊎◌, ◌≡◌, refl, true, false, none, some, List, [], ◌∷◌, arith, Bool-cases, inl, inr,
  if◌then◌else◌,
}
use enigma_p2p.Base.Dict
use enigma_p2p.Base.Dict.{Dict}
use enigma_p2p.Sync.Compare.{Missing, Excess}
use enigma_p2p.Sync.Ranges.{Request, requests_map}
use enigma_p2p.Sync.Pipeline.{
  CoreMessage, remove_contract, remove_deltas, already_running, cid_error, provider_error,
  some_errors, Commands, Run, all_cids, returned_early, receive_and_revert, execute_pipeline,
  execute,
}

-- The message takes away what is in excess: the whole contract where the chain has none, else the
-- deltas from the first one that the chain lacks to the local tip.
abbrev pub Reverts : Excess → CoreMessage → Type 0
Reverts e msg =
    ((e.remote_tip ≡ none) × (msg ≡ remove_contract e.address))
    ⊎ ((tip : ℕ) × (e.remote_tip ≡ some tip)
        × (msg ≡ remove_deltas e.address (suc tip) e.local_tip))

-- One message for each, in the same order.
abbrev pub RevertsAll : List Excess → List CoreMessage → Type 0
RevertsAll [] [] = Unit
RevertsAll (e ∷ es) (msg ∷ sent) = Reverts e msg × RevertsAll es sent
RevertsAll [] (msg ∷ sent) = ⊥
RevertsAll (e ∷ es) [] = ⊥

module _ {R : Type 0} where
  -- An execution that leaves the flag set blocks every later one: `onEnd` is called with the error
  -- that the action runs already, and nothing is sent.
  later_refused :
      (first later : Commands R)
      → (execute first false).running ≡ true
      → execute later (execute first false).running
        ≡ record { running = true; ends = already_running ∷ []; sent = [] }
  unfolding execute
  later_refused first later h = rw h refl

  executed :
      (c : Commands R) (missing : List Missing) (excess : List Excess)
      (requests : Dict (List Request))
      → c.identify ≡ some (missing, excess)
      → requests_map missing [] ≡ some requests
      → execute c false ≡ (
          if all_cids c.makes_cid (Dict.keys requests)
          then receive_and_revert c requests excess
          else returned_early cid_error)
  unfolding execute execute_pipeline
  executed c missing excess requests p q = ground (arith, p, q)

  not_found :
      (c : Commands R) (requests : Dict (List Request)) (excess : List Excess)
      → c.find_providers ≡ some some_errors
      → receive_and_revert c requests excess ≡ returned_early provider_error
  unfolding receive_and_revert
  not_found c requests excess p = rw (p, receive_and_revert) refl

  stays_set :
      (c : Commands R) (missing : List Missing) (excess : List Excess)
      (requests : Dict (List Request))
      → c.identify ≡ some (missing, excess)
      → requests_map missing [] ≡ some requests
      → c.find_providers ≡ some some_errors
      → (execute c false).running ≡ true
  unfolding returned_early
  stays_set c missing excess requests p q r =
      rw (executed c missing excess requests p q)
        (elim (Bool-cases (all_cids c.makes_cid (Dict.keys requests))) [
          | inl cids ↦ rw cids (rw (not_found c requests excess r) refl)
          | inr other ↦ rw other refl
        ])

  -- After an execution in which the search for providers ends with errors, every later execution is
  -- refused: `onEnd` is called with the error that the action runs already, nothing is sent to Core,
  -- and the flag stays set.
  pub execute_blocked :
      (first later : Commands R) (missing : List Missing) (excess : List Excess)
      (requests : Dict (List Request))
      → first.identify ≡ some (missing, excess)
      → requests_map missing [] ≡ some requests
      → first.find_providers ≡ some some_errors
      → execute later (execute first false).running
        ≡ record { running = true; ends = already_running ∷ []; sent = [] }
  execute_blocked first later missing excess requests p q r =
      later_refused first later (stays_set first missing excess requests p q r)

  -- The success of an execution.
  abbrev Reverted : Run R → List Excess → Type 0
  Reverted run excess = RevertsAll excess run.sent × (run.running ≡ false)
