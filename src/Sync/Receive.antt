-- ===== src/Sync/Receive.antt =====
-- src/worker/state_sync/receiver/Receiver.js: `trySyncReceive`, and TryReceiveAllAction.js and
-- ReceiveAllPipelineAction.js over it. The waterfall runs its jobs one after another, the first error
-- ending it.
use enigma_p2p.Base.{
  ℕ, zero, suc, ◌+◌, ◌-◌, Bool, true, not, Option, none, some, List, [], ◌∷◌, ◌++◌, if◌then◌else◌,
  length, get_elem?,
}

-- What a request to a provider calls back with: an error, or none, and the list of results.
pub record Attempt (R : Type 0) : Type 0 where
  pub failed : Bool
  pub results : R

-- What the jobs of the waterfall hand on, and what it ends with.
pub record Progress (R : Type 0) : Type 0 where
  pub is_done : Bool
  pub results : R

pub data Ended (R : Type 0) : Type 0 where
  ended : Progress R → Ended R
  failed_with : R → Ended R

-- `attempt n p` is what `trySyncOneContractOneRequest` gives in the job of number `n` for the provider
-- `p`, `none` standing for `undefined`: a provider may answer differently at another time.
module _ {P R : Type 0} (attempt : ℕ → Option P → Attempt R) where
  unfoldable pub try_provider : ℕ → Option P → Progress R
  try_provider n p = let a = attempt n p in record { is_done = not a.failed; results = a.results }

  -- A job between the first and the last: it tries its provider unless a result is there.
  unfoldable pub retry_job : ℕ → Option P → Progress R → Progress R
  unfolding try_provider
  retry_job n p s = if s.is_done then s else try_provider n p

  -- The jobs for the indices `i` on, `left` of them.
  unfoldable pub retry_jobs : (left i : ℕ) → List P → Progress R → Progress R
  unfolding retry_job
  retry_jobs zero i providers s = s
  retry_jobs (suc left) i providers s =
      retry_jobs left (suc i) providers (retry_job i (get_elem? providers i) s)

  -- `providersList[providersList.length - 1]`
  unfoldable pub last_provider : List P → Option P
  last_provider [] = none
  last_provider (p ∷ ps) = get_elem? (p ∷ ps) (length ps)

  unfoldable pub last_job : ℕ → Option P → Progress R → Ended R
  last_job n p s =
      if s.is_done
      then ended s
      else (let a = attempt n p in
          if a.failed
          then failed_with a.results
          else ended (record { is_done = true; results = a.results }))

  unfoldable pub try_sync_receive : List P → Ended R
  unfolding retry_jobs last_provider
  try_sync_receive providers =
      last_job (1 + (length providers - 2)) (last_provider providers)
        (retry_jobs (length providers - 2) 1 providers (try_provider 0 (get_elem? providers 0)))

-- What is to be received of a contract: its providers and the requests.
pub record ReceiveJob (P Q : Type 0) : Type 0 where
  pub providers : List P
  pub requests : Q

module _ {P Q R : Type 0} (attempt : Q → ℕ → Option P → Attempt R) where
  -- The jobs of `TryReceiveAllAction`: the results so far, and the first error ends them; `none` is
  -- an error.
  unfoldable pub receive_jobs :
      List (ReceiveJob P Q) → List (Progress R) → Option (List (Progress R))
  unfolding try_sync_receive
  receive_jobs [] results = some results
  receive_jobs (j ∷ jobs) results = elim (try_sync_receive (attempt j.requests) j.providers) [
    | failed_with r ↦ none
    | ended s ↦ receive_jobs jobs (results ++ s ∷ [])
  ]

  -- With no missing data the action calls back with no results at all.
  unfoldable pub try_receive_all : List (ReceiveJob P Q) → Option (Option (List (Progress R)))
  unfolding receive_jobs
  try_receive_all [] = some none
  try_receive_all (j ∷ jobs) = elim (receive_jobs (j ∷ jobs) []) [
    | none ↦ none
    | some results ↦ some (some results)
  ]
