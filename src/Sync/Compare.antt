-- ===== src/Sync/Compare.antt =====
-- src/ethereum/StateSync.js: what the local state lacks, and what it has in excess.
use enigma_p2p.Base.{
  ℕ, zero, suc, ◌+◌, String, Option, none, some, List, [], ◌∷◌, ◌++◌, ltb, if◌then◌else◌, length,
  drop, ◌>>=◌,
}
use enigma_p2p.Base.Dict
use enigma_p2p.Base.Dict.{Dict}
use enigma_p2p.Db.Bytes.{to_hex_string}

-- What the Enigma contract holds of a secret contract.
pub record RemoteContract : Type 0 where
  pub code_hash : String
  pub delta_hashes : List String

pub record MissingDelta : Type 0 where
  pub delta_hash : String
  pub index : ℕ

-- `bytecode_hash` is set where the whole contract is missing.
pub record Missing : Type 0 where
  pub address : String
  pub deltas : List MissingDelta
  pub bytecode_hash : Option String

-- `remote_tip` is `none` for -1.
pub record Excess : Type 0 where
  pub address : String
  pub remote_tip : Option ℕ
  pub local_tip : ℕ

-- A local tip's address is a text or the bytes of one.
pub data TipAddress : Type 0 where
  text_address : String → TipAddress
  byte_address : List ℕ → TipAddress

unfoldable pub address_text : TipAddress → String
unfolding to_hex_string
address_text (text_address a) = a
address_text (byte_address bs) = to_hex_string bs

-- The hash map of the local tips; a later tip of an address replaces an earlier one.
unfoldable pub tips_map : List (TipAddress × ℕ) → Dict ℕ → Dict ℕ
unfolding address_text
tips_map [] m = m
tips_map ((a, key) ∷ tips) m = tips_map tips (Dict.put (address_text a) key m)

-- `firstMissingIndex`
unfoldable pub first_missing : Option ℕ → ℕ
first_missing none = 0
first_missing (some tip) = tip + 1

-- The loop over the hashes from the first that is missing, the index of which is `i`.
unfoldable pub missing_deltas : ℕ → List String → List MissingDelta
missing_deltas i [] = []
missing_deltas i (h ∷ hs) = record { delta_hash = h; index = i } ∷ missing_deltas (suc i) hs

-- `n - 1`
unfoldable pub before : ℕ → Option ℕ
before zero = none
before (suc n) = some n

-- The code hash is asked for only if there is no local tip.
unfoldable pub code_hash_for : RemoteContract → Option ℕ → Option String
code_hash_for c none = some c.code_hash
code_hash_for c (some tip) = none

unfoldable pub missing_entry : String → Option String → List MissingDelta → List Missing
missing_entry a code [] = []
missing_entry a code (d ∷ ds) = record { address = a; deltas = d ∷ ds; bytecode_hash = code } ∷ []

-- What one remote contract adds to `missingList`.
unfoldable pub missing_of : String → RemoteContract → Option ℕ → List Missing
unfolding first_missing missing_deltas code_hash_for missing_entry
missing_of a c tip =
    missing_entry a (code_hash_for c tip)
      (missing_deltas (first_missing tip) (drop (first_missing tip) c.delta_hashes))

-- What it adds to `excessList`: the tip is there if the first missing index is beyond the hashes.
unfoldable pub excess_of : String → RemoteContract → Option ℕ → List Excess
unfolding before
excess_of a c none = []
excess_of a c (some tip) =
    if ltb (length c.delta_hashes) (tip + 1)
    then record { address = a; remote_tip = before (length c.delta_hashes); local_tip = tip } ∷ []
    else []

-- The loop over the tips that no remote contract has taken out.
unfoldable pub left_over : List String → Dict ℕ → List Excess
left_over [] tips = []
left_over (a ∷ others) tips =
    let rest = left_over others tips in
    elim (Dict.get a tips) [
      | none ↦ rest
      | some tip ↦ record { address = a; remote_tip = none; local_tip = tip } ∷ rest
    ]

-- `params` is `getContractParams`; a call that fails rejects the promise, which is `none`.
module _ (params : String → Option RemoteContract) where
  unfoldable pub compare_remote : List String → Dict ℕ → Option (List Missing × List Excess)
  unfolding missing_of excess_of left_over
  compare_remote [] tips = some ([], left_over (Dict.keys tips) tips)
  compare_remote (a ∷ others) tips = do
    c ← params a
    rest ← compare_remote others (Dict.remove a tips)
    some (missing_of a c (Dict.get a tips) ++ rest.0, excess_of a c (Dict.get a tips) ++ rest.1)

  -- `compareLocalStateToRemote`, with the addresses of the contract or `none` where reading fails.
  unfoldable pub compare_local_state_to_remote :
      Option (List String) → List (TipAddress × ℕ) → Option (List Missing × List Excess)
  unfolding compare_remote tips_map
  compare_local_state_to_remote none tips = none
  compare_local_state_to_remote (some addresses) tips = compare_remote addresses (tips_map tips [])
