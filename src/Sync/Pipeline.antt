-- ===== src/Sync/Pipeline.antt =====
-- src/worker/controller/actions/sync/ReceiveAllPipelineAction.js: the synchronisation as a whole. The
-- commands that it awaits are a record of what they give; `none` is a promise that is rejected.
use enigma_p2p.Base.{
  ℕ, ◌+◌, String, Bool, true, false, Option, none, some, List, [], ◌∷◌, ◌&&◌, if◌then◌else◌,
}
use enigma_p2p.Base.Dict
use enigma_p2p.Base.Dict.{Dict}
use enigma_p2p.Sync.Compare.{Missing, Excess}
use enigma_p2p.Sync.Ranges.{Request, requests_map}

-- The messages to Core that revert the local state.
pub data CoreMessage : Type 0 where
  remove_contract : (address : String) → CoreMessage
  remove_deltas : (address : String) (from to : ℕ) → CoreMessage

unfoldable pub revert_message : Excess → CoreMessage
revert_message e = elim e.remote_tip [
  | none ↦ remove_contract e.address
  | some tip ↦ remove_deltas e.address (tip + 1) e.local_tip
]

-- What `onEnd` is called with.
pub data SyncEnd (R : Type 0) : Type 0 where
  already_running cid_error provider_error thrown : SyncEnd R
  finished : R → SyncEnd R

-- What `findProviderResult` says.
pub data FindProviders : Type 0 where
  all_found some_errors : FindProviders

-- `makes_cid` tells whether `EngCid.createFromSCAddress` gives a CID; `update` whether Core takes a
-- message.
pub record Commands (R : Type 0) : Type 0 where
  pub identify : Option (List Missing × List Excess)
  pub makes_cid : String → Bool
  pub find_providers : Option FindProviders
  pub receive_all : Dict (List Request) → Option R
  pub update : CoreMessage → Bool

-- An execution: the flag `_running` that it leaves, the calls of `onEnd`, and the messages to Core.
pub record Run (R : Type 0) : Type 0 where
  pub running : Bool
  pub ends : List (SyncEnd R)
  pub sent : List CoreMessage

-- The loop over the excess, with the messages sent and whether it came to its end.
unfoldable pub revert_all : (CoreMessage → Bool) → List Excess → List CoreMessage × Bool
revert_all update [] = ([], true)
revert_all update (e ∷ es) =
    let rest = revert_all update es in
    if update (revert_message e)
    then (revert_message e ∷ rest.0, rest.1)
    else (revert_message e ∷ [], false)

unfoldable pub all_cids : (String → Bool) → List String → Bool
all_cids makes_cid [] = true
all_cids makes_cid (a ∷ addresses) = makes_cid a && all_cids makes_cid addresses

module _ {R : Type 0} where
  -- The outer `catch`.
  unfoldable pub caught : List CoreMessage → Run R
  caught sent = record { running = false; ends = thrown ∷ []; sent = sent }

  -- A `return` in the middle of the `try`: the flag stays set.
  unfoldable pub returned_early : SyncEnd R → Run R
  returned_early e = record { running = true; ends = e ∷ []; sent = [] }

  unfoldable pub revert_and_finish : Commands R → List Excess → R → Run R
  revert_and_finish c excess results =
      let (sent, through) = revert_all c.update excess in
      if through
      then record { running = false; ends = finished results ∷ []; sent = sent }
      else caught sent

  -- An error of the reception is tested by `instanceof` against a class that errors.js does not have:
  -- the test throws, and the outer `catch` takes it.
  unfoldable pub receive_and_revert : Commands R → Dict (List Request) → List Excess → Run R
  receive_and_revert c requests excess = elim c.find_providers [
    | none ↦ caught []
    | some some_errors ↦ returned_early provider_error
    | some all_found ↦ elim (c.receive_all requests) [
      | none ↦ caught []
      | some results ↦ revert_and_finish c excess results
    ]
  ]

  unfoldable pub execute_pipeline : Commands R → Run R
  execute_pipeline c = elim c.identify [
    | none ↦ caught []
    | some (missing, excess) ↦ elim (requests_map missing []) [
      | none ↦ caught []
      | some requests ↦
          if all_cids c.makes_cid (Dict.keys requests)
          then receive_and_revert c requests excess
          else returned_early cid_error
    ]
  ]

  -- `execute`, with the flag as it is at the start.
  unfoldable pub execute : Commands R → Bool → Run R
  execute c running =
      if running
      then record { running = true; ends = already_running ∷ []; sent = [] }
      else execute_pipeline c
