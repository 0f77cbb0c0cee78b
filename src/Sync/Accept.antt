-- ===== src/Sync/Accept.antt =====
-- src/worker/state_sync/receiver/StateSyncReqVerifier.js, and `transformMissingStatesListToMap` of
-- ReceiveAllPipelineAction.js, which makes the map that it reads.
use text.Mathlib.Text.{◌==◌ as str_eq}
use enigma_p2p.Base.{ℕ, String, Option, none, some, List, [], ◌∷◌, ◌==◌, if◌then◌else◌}
use enigma_p2p.Base.Dict
use enigma_p2p.Base.Dict.{Dict}
use enigma_p2p.Sync.Compare.{MissingDelta, Missing}

-- The hashes by index, and the hash of the bytecode where it is missing.
pub record MissingState : Type 0 where
  pub deltas : ℕ → Option String
  pub bytecode_hash : Option String

-- `deltasMap[index] = deltaHash` for each in turn.
unfoldable pub deltas_map : List MissingDelta → (ℕ → Option String) → ℕ → Option String
deltas_map [] m = m
deltas_map (d ∷ ds) m = deltas_map ds (λ i. if d.index == i then some d.delta_hash else m i)

unfoldable pub transform_missing_states : List Missing → Dict MissingState → Dict MissingState
unfolding deltas_map
transform_missing_states [] m = m
transform_missing_states (s ∷ states) m = transform_missing_states states (
    Dict.put s.address
      (record { deltas = deltas_map s.deltas (λ _. none); bytecode_hash = s.bytecode_hash }) m)

-- A delta of a response.
pub record ReceivedDelta : Type 0 where
  pub address : String
  pub key : ℕ
  pub bytes : List ℕ

pub data SyncMessage : Type 0 where
  state_response : List ReceivedDelta → SyncMessage
  bytecode_response : String → List ℕ → SyncMessage
  other_message : SyncMessage

pub data SyncFault : Type 0 where
  unknown_address unknown_index wrong_hash unknown_type : SyncFault

module _ (hash : List ℕ → String) where
  unfoldable pub check_hash : Option String → SyncFault → List ℕ → Option SyncFault
  check_hash none fault bytes = some fault
  check_hash (some h) fault bytes = if str_eq h (hash bytes) then none else some wrong_hash

  unfoldable pub check_received : Dict MissingState → ReceivedDelta → Option SyncFault
  check_received states d = elim (Dict.get d.address states) [
    | none ↦ some unknown_address
    | some s ↦ check_hash (s.deltas d.key) unknown_index d.bytes
  ]

  -- The loop over the deltas, which ends at the first fault.
  unfoldable pub check_all : Dict MissingState → List ReceivedDelta → Option SyncFault
  check_all states [] = none
  check_all states (d ∷ ds) =
      let rest = check_all states ds in
      elim (check_received states d) [ none ↦ rest | some fault ↦ some fault ]

  -- `verify`: `none` is `isOk`.
  unfoldable pub verify : Dict MissingState → SyncMessage → Option SyncFault
  unfolding check_all check_hash
  verify states (state_response ds) = check_all states ds
  verify states (bytecode_response address bytes) = elim (Dict.get address states) [
    | none ↦ some unknown_address
    | some s ↦ check_hash s.bytecode_hash unknown_address bytes
  ]
  verify states other_message = some unknown_type
