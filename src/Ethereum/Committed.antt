-- ===== src/Ethereum/Committed.antt =====
-- What a commit by CommitReceiptAction.js rests on, through EnigmaContractWriterAPI.js.
use enigma_p2p.Base.{
  ℕ, ◌≡◌, ◌⊎◌, inl, inr, refl, sym, ap, ◌∙◌, subst, true, false, Option, none, some, [], ◌∷◌, arith,
  All, String, ◌>>=◌, Bool-cases,
}
use enigma_p2p.Tasks.Result.{Bytes, Computed, TaskResult, result_is_success, has_delta}
use enigma_p2p.Tasks.Task.{Task}
use enigma_p2p.Actions.Commit.{
  ChainCall, Committing, resolved, Commit, computed_of, is_deploy_task, deploy_call, deploy_sent,
  receipt_call, revert_delta, commit_deploy_task, commit_compute_task, commit_receipt_of,
}
use enigma_p2p.Actions.Settled.{changes, commit_receipt_of-Settled}
use enigma_p2p.Ethereum.Writer.{receipt_failed_eth, event_of, is_failure_call, Network, send_call}
use enigma_p2p.Ethereum.Confirmed.{Deep, send_call-mined, resolve_logic-failed, resolve_logic-took}

abbrev Results : Commit → Type 0
Results m = All (λ c. is_failure_call c ≡ false) m.calls

deploy_call_result :
    (hash : Bytes → String) (t : Task) (r : TaskResult) (c : Computed) (call : ChainCall)
    → deploy_call hash t r c ≡ some call
    → is_failure_call call ≡ false
unfolding deploy_call
deploy_call_result hash t r c call h =
    ground (arith, ap (λ (o : Option ChainCall). o >>= λ x. some (is_failure_call x)) h)

deploy_sent-Results :
    (env : Committing) (t : Task) (r : TaskResult) (c : Computed) (o : Option ChainCall)
    → deploy_call env.hash t r c ≡ o
    → Results (deploy_sent env t o)
unfolding deploy_sent
deploy_sent-Results env t r c none h = tt
deploy_sent-Results env t r c (some call) h =
    let result : is_failure_call call ≡ false = deploy_call_result env.hash t r c call h in
    let calls : (deploy_sent env t (some call)).calls ≡ call ∷ [] = ground arith in
    subst (All (λ x. is_failure_call x ≡ false)) (sym calls) (result, tt)

commit_deploy-Results :
    (env : Committing) (t : Task) (r : TaskResult) (c : Computed)
    → result_is_success r ≡ true
    → computed_of r ≡ some c
    → Results (commit_deploy_task env t r)
unfolding commit_deploy_task
commit_deploy-Results env t r c good has = elim (Bool-cases (has_delta c)) [
  | inl given ↦
      let e : deploy_sent env t (deploy_call env.hash t r c) ≡ commit_deploy_task env t r =
        ground (arith, good, has, given) in
      subst Results e (deploy_sent-Results env t r c (deploy_call env.hash t r c) refl)
  | inr missing ↦
      let e : [] ≡ (commit_deploy_task env t r).calls = ground (arith, good, has, missing) in
      subst (All (λ x. is_failure_call x ≡ false)) e tt
]

commit_compute-Results :
    (env : Committing) (t : Task) (r : TaskResult) (c : Computed)
    → result_is_success r ≡ true
    → computed_of r ≡ some c
    → Results (commit_compute_task env t r)
unfolding commit_compute_task revert_delta receipt_call
commit_compute-Results env t r c good has =
    let e : receipt_call env.hash t c ∷ [] ≡ (commit_compute_task env t r).calls =
      ground (arith, good, has) in
    subst (All (λ x. is_failure_call x ≡ false)) e (refl, tt)

commit-Results :
    (env : Committing) (t : Task) (r : TaskResult) (c : Computed)
    → t.result ≡ some r
    → result_is_success r ≡ true
    → computed_of r ≡ some c
    → Results (commit_receipt_of env t)
unfolding commit_receipt_of
commit-Results env t r c result good has = elim (Bool-cases (is_deploy_task t.payload)) [
  | inl deploys ↦
      let e : commit_deploy_task env t r ≡ commit_receipt_of env t =
        ground (arith, result, deploys) in
      subst Results e (commit_deploy-Results env t r c good has)
  | inr computes ↦
      let e : commit_compute_task env t r ≡ commit_receipt_of env t =
        ground (arith, result, computes) in
      subst Results e (commit_compute-Results env t r c good has)
]

-- A commit of a successful result that resolves with no error rests on a transaction that the chain
-- has confirmed as often as the worker asks for. Where Core keeps the change, the chain has the
-- event of the result, or has no event of a failure by Ethereum; where Core has taken all of the
-- change back, the chain has the event of such a failure. The writer's promise for each call is
-- settled as the action sees it.
pub commit_receipt_of-Deep :
    (min : Option ℕ) (net : Network) (env : Committing) (t : Task) (r : TaskResult) (c : Computed)
    → ((call : ChainCall) → send_call min net call ≡ some (env.call call))
    → t.result ≡ some r
    → result_is_success r ≡ true
    → computed_of r ≡ some c
    → (commit_receipt_of env t).end ≡ resolved none
    → let m = commit_receipt_of env t in
      (call : ChainCall) × (m.calls ≡ call ∷ [])
      × Deep min (net.events call)
      × (((m.removed ≡ [])
            × ((net.found call (event_of call) ≡ some true)
                ⊎ (net.found call receipt_failed_eth ≡ some false)))
          ⊎ ((m.removed ≡ changes t c) × (net.found call receipt_failed_eth ≡ some true)))
commit_receipt_of-Deep min net env t r c settled result good has h =
    let (call, calls, kept) = commit_receipt_of-Settled env t r c result good has h in
    let all : All (λ x. is_failure_call x ≡ false) (call ∷ []) =
      subst (All (λ x. is_failure_call x ≡ false)) calls
        (commit-Results env t r c result good has) in
    elim kept [
      | inl (took, removed) ↦
          let (deep, logic) = send_call-mined min net call false (settled call ∙ ap some took) in
          (call, calls, deep, inl (removed, resolve_logic-took call (net.found call) all.0 logic))
      | inr (failed, removed, back) ↦
          let (deep, logic) = send_call-mined min net call true (settled call ∙ ap some failed) in
          (call, calls, deep, inr (removed, resolve_logic-failed call (net.found call) logic))
    ]
