-- ===== src/Sync/Announce.antt =====
-- The announcement of content: `provideContentsBatch` of src/worker/state_sync/provider/Provider.js,
-- and AnnounceLocalStateAction.js, AnnounceContentAction.js and IdentifyMissingStatesAction.js of
-- src/worker/controller/actions/sync.
use enigma_p2p.Base.{
  ℕ, suc, ◌≤◌, String, ◌≡◌, refl, Bool, true, false, not, Option, none, some, List, [], ◌∷◌, ◌||◌,
  ◌==◌, arith, length, if◌then◌else◌,
}
use enigma_p2p.Sync.Compare.{
  RemoteContract, Missing, Excess, TipAddress, compare_local_state_to_remote,
}

-- The jobs of a batch: each content id, and whether the network took it.
abbrev pub Provided : Type 0
Provided = List (String × Bool)

-- `provideContentsBatch`: the ids that failed.
unfoldable pub provide_contents_batch : Provided → List String
provide_contents_batch [] = []
provide_contents_batch ((cid, taken) ∷ jobs) =
    let rest = provide_contents_batch jobs in if taken then rest else cid ∷ rest

-- The call of `onResponse` of AnnounceContentAction.
pub data Announced : Type 0 where
  not_a_list all_failed : Announced
  announced : (failed : List String) → Announced

-- AnnounceContentAction, for a list.
unfoldable pub announce_content : Provided → Announced
unfolding provide_contents_batch
announce_content [] = not_a_list
announce_content (job ∷ jobs) =
    let failed : List String = provide_contents_batch (job ∷ jobs) in
    if length failed == suc (length jobs) then all_failed else announced failed

-- The content ids of AnnounceLocalStateAction; `to_cid` is EngCID's, and an address that it cannot
-- turn into an id is left out.
unfoldable pub parse_cids : (String → Option String) → List String → List String
parse_cids to_cid [] = []
parse_cids to_cid (a ∷ addresses) =
    let rest = parse_cids to_cid addresses in
    elim (to_cid a) [ none ↦ rest | some cid ↦ cid ∷ rest ]

-- AnnounceLocalStateAction: what it answers, whatever has failed; `none` for the addresses is an error
-- of Core, at which it throws.
unfoldable pub announce_local_state :
    (String → Option String) → Option (List String) → Option (List String)
unfolding parse_cids
announce_local_state to_cid none = none
announce_local_state to_cid (some addresses) = some (parse_cids to_cid addresses)

-- The call of `onResponse` of IdentifyMissingStatesAction.
pub data Identified : Type 0 where
  tips_error no_ethereum compare_error : Identified
  identified : List Missing → List Excess → Identified

-- IdentifyMissingStatesAction: the local tips of Core, or an error of it; the addresses and the
-- contracts of the chain.
unfoldable pub identify_missing_states :
    (has_ethereum : Bool)
    → (tips : Option (List (TipAddress × ℕ))) → (String → Option RemoteContract)
    → (remote : Option (List String)) → Identified
unfolding compare_local_state_to_remote
identify_missing_states has_ethereum none params remote = tips_error
identify_missing_states has_ethereum (some tips) params remote =
    if not has_ethereum
    then no_ethereum
    else elim (compare_local_state_to_remote params remote tips) [
      | none ↦ compare_error
      | some (missing, excess) ↦ identified missing excess
    ]

abbrev pub some_taken : Provided → Bool
some_taken [] = false
some_taken ((cid, taken) ∷ jobs) = taken || some_taken jobs

abbrev pub is_announced : Announced → Bool
is_announced (announced failed) = true
is_announced _ = false

failed_short : (jobs : Provided) → length (provide_contents_batch jobs) ≤ length jobs
unfolding provide_contents_batch
failed_short [] = omega arith
failed_short ((cid, true) ∷ jobs) = omega (arith, failed_short jobs)
failed_short ((cid, false) ∷ jobs) = omega (arith, failed_short jobs)

failed_all :
    (jobs : Provided)
    → (length (provide_contents_batch jobs) == length jobs) ≡ not (some_taken jobs)
unfolding provide_contents_batch
failed_all [] = refl
failed_all ((cid, true) ∷ jobs) = ground (arith, failed_short jobs)
failed_all ((cid, false) ∷ jobs) = ground (arith, failed_all jobs)

-- The announcement of a list of content reports a success exactly if the network took some of it.
pub announce_content_success :
    (jobs : Provided) → is_announced (announce_content jobs) ≡ some_taken jobs
unfolding announce_content
announce_content_success [] = refl
announce_content_success (job ∷ jobs) = ground (arith, failed_all (job ∷ jobs))
