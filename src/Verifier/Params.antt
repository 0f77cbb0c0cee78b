-- ===== src/Verifier/Params.antt =====
-- The worker parameters of the epochs that EthereumVerifier.js keeps: `_validateWorkerParams`,
-- `_sortWorkerParams`, `_findWorkerParamForTask`, `_updateWorkerParamNow`.
use enigma_p2p.Base.{
  drop, ltb, length, ℕ, zero, suc, String, Bool, true, false, Option, none, some, List, [], ◌∷◌,
  ◌++◌, ltb, ◌==◌, if◌then◌else◌, is_some,
}

-- One epoch's parameters. `first_block` is `none` where the object has no `firstBlockNumber`.
pub record EpochParams : Type 0 where
  pub first_block : Option ℕ
  pub seed : ℕ
  pub workers : List String
  pub balances : List ℕ

-- `a < b` where a side may be `undefined`: a comparison with it is false.
unfoldable pub lt_block : Option ℕ → Option ℕ → Bool
lt_block (some a) (some b) = ltb a b
lt_block _ _ = false

unfoldable pub validate_worker_params : EpochParams → Bool
validate_worker_params p = is_some p.first_block

-- The `for` loop that looks for the first index `i` at which the block number falls; 0 if none.
unfoldable pub smallest_index : ℕ → EpochParams → List EpochParams → ℕ
unfolding lt_block
smallest_index i previous [] = 0
smallest_index i previous (p ∷ ps) =
    if lt_block p.first_block previous.first_block then i else smallest_index (suc i) p ps

-- `n` times `push(shift())`.
unfoldable pub rotate : ℕ → List EpochParams → List EpochParams
rotate zero ps = ps
rotate (suc n) [] = []
rotate (suc n) (p ∷ ps) = rotate n (ps ++ p ∷ [])

-- Block numbers are numbers here. The entries that `getWorkersParams` hands on carry those of the
-- contract's answer as web3 gives them, texts in decimal, which the source compares as they are; the
-- two agree for numbers of the same number of digits.
unfoldable pub sort_worker_params : List EpochParams → List EpochParams
unfolding smallest_index rotate
sort_worker_params [] = []
sort_worker_params (p ∷ ps) = rotate (smallest_index 1 p ps) (p ∷ ps)

-- The last entry of the array whose first block lies below `block`. The loop runs from the end.
unfoldable pub find_from_end : ℕ → List EpochParams → Option EpochParams
unfolding lt_block
find_from_end block [] = none
find_from_end block (p ∷ ps) = elim (find_from_end block ps) [
  | some q ↦ some q
  | none ↦ if lt_block p.first_block (some block) then some p else none
]

-- A block number that is 0 or `null` finds nothing.
unfoldable pub find_worker_param : Option ℕ → List EpochParams → Option EpochParams
unfolding find_from_end
find_worker_param none ps = none
find_worker_param (some block) ps = if block == 0 then none else find_from_end block ps

-- Every entry from the second on is validated; the first is not looked at.
unfoldable pub all_valid : List EpochParams → Bool
unfolding validate_worker_params
all_valid [] = true
all_valid (p ∷ ps) = if validate_worker_params p then all_valid ps else false

-- `none` is the `ReferenceError` of the line that reports an entry which is not valid: it names a
-- variable `index` that the function does not declare.
unfoldable pub update_worker_params : List EpochParams → Option (List EpochParams)
unfolding sort_worker_params all_valid
update_worker_params [] = some []
update_worker_params (p ∷ ps) = if all_valid ps then some (sort_worker_params (p ∷ ps)) else none

abbrev pub params_max_size : ℕ
params_max_size = 5

-- The part of `_newEpochEventCallback` that keeps the array: `push`, and `shift` when it is too long.
unfoldable pub push_params : ℕ → List EpochParams → EpochParams → List EpochParams
unfolding validate_worker_params
push_params max ps event =
    if validate_worker_params event
    then (let longer = ps ++ event ∷ [] in
        if ltb max (length longer) then drop 1 longer else longer)
    else ps
