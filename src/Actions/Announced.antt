-- ===== src/Actions/Announced.antt =====
-- Which contracts PublishTaskResultAction.js announces, and where its promise is rejected.
use enigma_p2p.Base.{
  String, Bool, ◌≡◌, refl, sym, ap, ◌∙◌, subst, inl, inr, ◌⊎◌, ◌↔◌, true, false, Option, none, some,
  [], ◌∷◌, ◌&&◌, arith, Occurs, Bool-cases, if◌then◌else◌,
}
use enigma_p2p.Tasks.Result.{Computed, TaskResult, has_delta, result_is_success}
use enigma_p2p.Tasks.Task.{Task}
use enigma_p2p.Actions.Commit.{
  ChainCall, mined, refused_call, remove_contract, Committing, Commit, no_delta_error, CommitEnd,
  resolved, commit_rejected, is_deploy_task, computed_of, deploy_call, deploy_sent, revert_state,
  commit_deploy_task, commit_receipt_of,
}
use enigma_p2p.Actions.Settled.{Sent-cases}
use enigma_p2p.Actions.Publish.{Publishing, after_commit, announcements, publish_result}

-- One call was made of the contract, and the chain has taken its result, or has not and Core has
-- removed the contract.
abbrev pub KeptOrRemoved : Committing → Task → Commit → Type 0
KeptOrRemoved env t m =
    (call : ChainCall) × (m.calls ≡ call ∷ [])
    × ((env.call call ≡ mined false)
        ⊎ ((env.call call ≡ mined true) × (env.remove (remove_contract t.contract_addr) ≡ true)))

-- The address of a successful deployment of which a CID can be made.
abbrev pub IsAnnounced : Publishing → Task → TaskResult → Option String → Type 0
IsAnnounced env t r a =
    (a ≡ t.contract_addr)
    × (is_deploy_task t.payload ≡ true)
    × (result_is_success r ≡ true)
    × (env.makes_cid a ≡ true)
    × KeptOrRemoved env.committing t (commit_receipt_of env.committing t)

no_call : (env : Committing) (t : Task) (m : Commit) → m.calls ≡ [] → ¬ KeptOrRemoved env t m
no_call env t m none_made (call, made, _) = cc (sym none_made ∙ made)

pub same_call : (a b : ChainCall) → a ∷ [] ≡ b ∷ [] → a ≡ b
same_call a b e = cc e

deploy_sent-KeptOrRemoved :
    (env : Committing) (t : Task) (o : Option ChainCall)
    → ((deploy_sent env t o).end ≡ resolved none) ↔ KeptOrRemoved env t (deploy_sent env t o)
unfolding deploy_sent revert_state
deploy_sent-KeptOrRemoved env t none = (
  (λ h. absurd (ground (arith, h))),
  (λ k. absurd (no_call env t (deploy_sent env t none) refl k)),
)
deploy_sent-KeptOrRemoved env t (some call) = (to (Sent-cases (env.call call)), from)
  where
    made : (deploy_sent env t (some call)).calls ≡ call ∷ []
    made = elim (Sent-cases (env.call call)) [
      | inl took ↦ ground (arith, took)
      | inr (inl failed) ↦ ground (arith, failed)
      | inr (inr refused) ↦ ground (arith, refused)
    ]

    to :
        (env.call call ≡ mined false)
          ⊎ (env.call call ≡ mined true)
          ⊎ (env.call call ≡ refused_call)
        → (deploy_sent env t (some call)).end ≡ resolved none
        → KeptOrRemoved env t (deploy_sent env t (some call))
    to (inl took) h = (call, made, inl took)
    to (inr (inl failed)) h = (call, made, inr (failed, ground (arith, failed, h)))
    to (inr (inr refused)) h = absurd (ground (arith, refused, h))

    from :
        KeptOrRemoved env t (deploy_sent env t (some call))
        → (deploy_sent env t (some call)).end ≡ resolved none
    from (other, e, inl took) =
        let took' : env.call call ≡ mined false =
          ap env.call (same_call call other (sym made ∙ e)) ∙ took in
        ground (arith, took')
    from (other, e, inr (failed, removed)) =
        let failed' : env.call call ≡ mined true =
          ap env.call (same_call call other (sym made ∙ e)) ∙ failed in
        ground (arith, failed', removed)

not_sent :
    (env : Committing) (t : Task) (e : CommitEnd)
    → ¬ KeptOrRemoved env t (record { calls = []; removed = []; end = e })
not_sent env t e = no_call env t (record { calls = []; removed = []; end = e }) refl

commit_deploy-KeptOrRemoved :
    (env : Committing) (t : Task) (r : TaskResult)
    → result_is_success r ≡ true
    → ((commit_deploy_task env t r).end ≡ resolved none)
      ↔ KeptOrRemoved env t (commit_deploy_task env t r)
unfolding commit_deploy_task
commit_deploy-KeptOrRemoved env t r good = rw good (go (computed_of r))
  where
    go :
        (o : Option Computed)
        → let m : Commit = elim o [
          | none ↦ record { calls = []; removed = []; end = commit_rejected }
          | some c ↦
              if has_delta c
              then deploy_sent env t (deploy_call env.hash t r c)
              else record { calls = []; removed = []; end = resolved (some no_delta_error) }
        ] in
          (m.end ≡ resolved none) ↔ KeptOrRemoved env t m
    go none = ((λ h. absurd (cc h)), (λ k. absurd (not_sent env t commit_rejected k)))
    go (some c) = elim (Bool-cases (has_delta c)) [
      | inl given ↦ rw given (deploy_sent-KeptOrRemoved env t (deploy_call env.hash t r c))
      | inr missing ↦ rw missing (
          ((λ h. absurd (cc h)), (λ k. absurd (not_sent env t (resolved (some no_delta_error)) k))))
    ]

commit_receipt-KeptOrRemoved :
    (env : Committing) (t : Task) (r : TaskResult)
    → t.result ≡ some r
    → is_deploy_task t.payload ≡ true
    → result_is_success r ≡ true
    → ((commit_receipt_of env t).end ≡ resolved none)
      ↔ KeptOrRemoved env t (commit_receipt_of env t)
unfolding commit_receipt_of
commit_receipt-KeptOrRemoved env t r result deploys good =
    let same : commit_deploy_task env t r ≡ commit_receipt_of env t =
      ground (arith, result, deploys) in
    subst (λ m. (m.end ≡ resolved none) ↔ KeptOrRemoved env t m) same
      (commit_deploy-KeptOrRemoved env t r good)

only_if :
    (deploys good cid : Bool) (a x : Option String)
    → Occurs a (if deploys && good && cid then x ∷ [] else [])
    → (a ≡ x) × (deploys ≡ true) × (good ≡ true) × (cid ≡ true)
only_if true true true a x (inl e) = (sym e, refl, refl, refl)
only_if true true true a x (inr o) = absurd o
only_if false good cid a x o = absurd o
only_if true false cid a x o = absurd o
only_if true true false a x o = absurd o

-- What is announced, for each end of the commit.
after_commit-announced :
    (env : Publishing) (t : Task) (r : TaskResult) (m : Commit) (a : Option String)
    → Occurs a (after_commit env t r m).announced ↔ (
        (a ≡ t.contract_addr)
        × (is_deploy_task t.payload ≡ true)
        × (result_is_success r ≡ true)
        × (env.makes_cid a ≡ true)
        × (m.end ≡ resolved none))
unfolding after_commit announcements
after_commit-announced env t r m a = (to m.end refl, from)
  where
    to :
        (e : CommitEnd)
        → m.end ≡ e
        → Occurs a (after_commit env t r m).announced
        → (a ≡ t.contract_addr)
          × (is_deploy_task t.payload ≡ true)
          × (result_is_success r ≡ true)
          × (env.makes_cid a ≡ true)
          × (m.end ≡ resolved none)
    to commit_rejected q o = absurd (ground (arith, q, o))
    to (resolved (some e)) q o = absurd (ground (arith, q, o))
    to (resolved none) q o =
        let announced : Occurs a (announcements env t r) = subst (Occurs a) (ground (arith, q)) o in
        let (same, deploys, good, cid) =
          only_if (is_deploy_task t.payload) (result_is_success r) (env.makes_cid t.contract_addr) a
            t.contract_addr announced in
        (same, deploys, good, ap env.makes_cid same ∙ cid, q)

    from :
        ((a ≡ t.contract_addr)
          × (is_deploy_task t.payload ≡ true)
          × (result_is_success r ≡ true)
          × (env.makes_cid a ≡ true)
          × (m.end ≡ resolved none))
        → Occurs a (after_commit env t r m).announced
    from (same, deploys, good, cid, q) =
        let cid' : env.makes_cid t.contract_addr ≡ true = ap env.makes_cid (sym same) ∙ cid in
        rw (q, deploys, good, cid') (inl (sym same))

pub published_after :
    (env : Publishing) (t : Task) (r : TaskResult)
    → env.has_ethereum ≡ true
    → t.result ≡ some r
    → publish_result env t ≡ after_commit env t r (commit_receipt_of env.committing t)
unfolding publish_result
published_after env t r eth result = ground (arith, eth, result)

-- With Ethereum, what is announced to the network for a task that has a result is exactly its
-- contract's address, where the task is a deployment, the result is a success, a CID can be made of
-- the address, and one call was made of the contract, which either was taken, or whose receipt failed
-- and after which Core has removed the contract: the address is announced in the second case as well,
-- and after any other error of the commit none is.
pub publish_result_announced :
    (env : Publishing) (t : Task) (r : TaskResult) (a : Option String)
    → env.has_ethereum ≡ true
    → t.result ≡ some r
    → Occurs a (publish_result env t).announced ↔ IsAnnounced env t r a
publish_result_announced env t r a eth result =
    let m : Commit = commit_receipt_of env.committing t in
    let (to, from) = after_commit-announced env t r m a in
    subst (λ p. Occurs a p.announced ↔ IsAnnounced env t r a)
      (sym (published_after env t r eth result))
      (
        (λ o.
            let (same, deploys, good, cid, q) = to o in
            (
              same,
              deploys,
              good,
              cid,
              (commit_receipt-KeptOrRemoved env.committing t r result deploys good).0 q,
            )),
        (λ (same, deploys, good, cid, k). from (
          same,
          deploys,
          good,
          cid,
          (commit_receipt-KeptOrRemoved env.committing t r result deploys good).1 k,
        )),
      )
