-- ===== src/Actions/Rejected.antt =====
-- Where the promise of PublishTaskResultAction.js is rejected, through CommitReceiptAction.js.
use enigma_p2p.Base.{
  Bool, ◌≡◌, refl, sym, ap, ◌∙◌, subst, inl, inr, ◌⊎◌, ◌↔◌, true, false, Option, none, some, [],
  ◌∷◌, arith, Bool-cases, Option-cases,
}
use enigma_p2p.Tasks.Result.{Computed, TaskResult, has_delta, result_is_success}
use enigma_p2p.Tasks.Task.{Task}
use enigma_p2p.Actions.Commit.{
  ChainCall, mined, refused_call, Committing, Commit, CommitEnd, resolved, commit_rejected,
  is_deploy_task, computed_of, delta_bytes, deploy_call, deploy_sent, failure_sent, receipt_call,
  revert_delta, commit_deploy_task, commit_compute_task, commit_receipt_of,
}
use enigma_p2p.Actions.Settled.{Sent-cases}
use enigma_p2p.Actions.Publish.{Publishing, after_commit, publish_result}
use enigma_p2p.Actions.Announced.{same_call, published_after}

-- A successful computation whose one call of the contract has thrown; nothing was taken back.
abbrev pub Lost : Committing → Task → TaskResult → Commit → Type 0
Lost env t r m =
    (is_deploy_task t.payload ≡ false)
    × (result_is_success r ≡ true)
    × ((call : ChainCall) × (m.calls ≡ call ∷ []) × (env.call call ≡ refused_call))
    × (m.removed ≡ [])

-- A result that is a failure, or has the fields of a computation.
abbrev pub IsUsable : TaskResult → Type 0
IsUsable r = (result_is_success r ≡ false) ⊎ ((c : Computed) × (computed_of r ≡ some c))

revert_delta_effect :
    (env : Committing) (t : Task) (call : ChainCall) (c : Computed)
    → ((revert_delta env t call c).calls ≡ call ∷ [])
      × ¬ ((revert_delta env t call c).end ≡ commit_rejected)
unfolding revert_delta
revert_delta_effect env t call c = elim (Option-cases (delta_bytes c)) [
  | inl missing ↦ (ground (arith, missing), (λ h. absurd (ground (arith, missing, h))))
  | inr (d, given) ↦ (ground (arith, given), (λ h. absurd (ground (arith, given, h))))
]

deploy_sent_resolves :
    (env : Committing) (t : Task) (o : Option ChainCall)
    → ¬ ((deploy_sent env t o).end ≡ commit_rejected)
unfolding deploy_sent
deploy_sent_resolves env t none h = cc h
deploy_sent_resolves env t (some call) h = elim (Sent-cases (env.call call)) [
  | inl took ↦ absurd (ground (arith, took, h))
  | inr (inl failed) ↦ absurd (ground (arith, failed, h))
  | inr (inr refused) ↦ absurd (ground (arith, refused, h))
]

failure_sent_resolves :
    (env : Committing) (call : ChainCall) → ¬ ((failure_sent env call).end ≡ commit_rejected)
unfolding failure_sent
failure_sent_resolves env call h = elim (Sent-cases (env.call call)) [
  | inl took ↦ absurd (ground (arith, took, h))
  | inr (inl failed) ↦ absurd (ground (arith, failed, h))
  | inr (inr refused) ↦ absurd (ground (arith, refused, h))
]

failure_committed :
    (env : Committing) (t : Task) (r : TaskResult)
    → result_is_success r ≡ false
    → ((call : ChainCall) × (commit_deploy_task env t r ≡ failure_sent env call))
      × ((call : ChainCall) × (commit_compute_task env t r ≡ failure_sent env call))
unfolding commit_deploy_task commit_compute_task
failure_committed env t r bad = rw bad (((_, refl), (_, refl)))

-- The commit of a failure, of either type, resolves.
failure_resolves :
    (env : Committing) (m : Commit) (call : ChainCall)
    → m ≡ failure_sent env call
    → ¬ (m.end ≡ commit_rejected)
failure_resolves env m call same h =
    failure_sent_resolves env call (sym (ap (λ (x : Commit). x.end) same) ∙ h)

deploy_resolves :
    (env : Committing) (t : Task) (r : TaskResult) (c : Computed)
    → result_is_success r ≡ true
    → computed_of r ≡ some c
    → ¬ ((commit_deploy_task env t r).end ≡ commit_rejected)
unfolding commit_deploy_task
deploy_resolves env t r c good has h = elim (Bool-cases (has_delta c)) [
  | inl given ↦
      let same : commit_deploy_task env t r ≡ deploy_sent env t (deploy_call env.hash t r c) =
        ground (arith, good, has, given) in
      deploy_sent_resolves env t (deploy_call env.hash t r c)
        (sym (ap (λ (x : Commit). x.end) same) ∙ h)
  | inr missing ↦ absurd (ground (arith, good, has, missing, h))
]

deployment_resolves :
    (env : Committing) (t : Task) (r : TaskResult)
    → IsUsable r
    → ¬ ((commit_deploy_task env t r).end ≡ commit_rejected)
deployment_resolves env t r usable h = elim (Bool-cases (result_is_success r)) [
  | inr bad ↦
      let ((call, failure), _) = failure_committed env t r bad in
      failure_resolves env (commit_deploy_task env t r) call failure h
  | inl good ↦ elim usable [
    | inl bad ↦ absurd (cc (sym good ∙ bad))
    | inr (c, has) ↦ deploy_resolves env t r c good has h
  ]
]

compute-Lost :
    (env : Committing) (t : Task) (r : TaskResult) (c : Computed)
    → is_deploy_task t.payload ≡ false
    → result_is_success r ≡ true
    → computed_of r ≡ some c
    → ((commit_compute_task env t r).end ≡ commit_rejected)
      ↔ Lost env t r (commit_compute_task env t r)
unfolding commit_compute_task
compute-Lost env t r c computes good has = elim (Sent-cases (env.call call)) [
  | inl took ↦
      let made : m.calls ≡ call ∷ [] = ground (arith, good, has, took) in
      ((λ h. absurd (ground (arith, good, has, took, h))), (λ l. absurd (other made took l)))
  | inr (inl failed) ↦
      let same : m ≡ revert_delta env t call c = ground (arith, good, has, failed) in
      let (made, resolves) = revert_delta_effect env t call c in
      (
        (λ h. absurd (resolves (sym (ap (λ (x : Commit). x.end) same) ∙ h))),
        (λ l. absurd (other (ap (λ (x : Commit). x.calls) same ∙ made) failed l)),
      )
  | inr (inr refused) ↦
      let same : m ≡ record { calls = call ∷ []; removed = []; end = commit_rejected } =
        ground (arith, good, has, refused) in
      (
        (λ h. (
          computes,
          good,
          (call, ap (λ (x : Commit). x.calls) same, refused),
          ap (λ (x : Commit). x.removed) same,
        )),
        (λ l. ap (λ (x : Commit). x.end) same),
      )
]
  where
    call : ChainCall
    call = receipt_call env.hash t c

    m : Commit
    m = commit_compute_task env t r

    other : {b : Bool} → m.calls ≡ call ∷ [] → env.call call ≡ mined b → ¬ Lost env t r m
    other made kept (_, _, (call', made', refused), _) =
        cc (sym kept ∙ ap env.call (same_call call call' (sym made ∙ made')) ∙ refused)

commit-Lost :
    (env : Committing) (t : Task) (r : TaskResult)
    → t.result ≡ some r
    → IsUsable r
    → ((commit_receipt_of env t).end ≡ commit_rejected) ↔ Lost env t r (commit_receipt_of env t)
unfolding commit_receipt_of
commit-Lost env t r result usable = elim (Bool-cases (is_deploy_task t.payload)) [
  | inl deploys ↦
      let same : commit_deploy_task env t r ≡ commit_receipt_of env t =
        ground (arith, result, deploys) in
      subst (λ m. (m.end ≡ commit_rejected) ↔ Lost env t r m) same
        (
          (λ h. absurd (deployment_resolves env t r usable h)),
          (λ (computes, _, _, _). absurd (cc (sym deploys ∙ computes))),
        )
  | inr computes ↦
      let same : commit_compute_task env t r ≡ commit_receipt_of env t =
        ground (arith, result, computes) in
      subst (λ m. (m.end ≡ commit_rejected) ↔ Lost env t r m) same
        (elim (Bool-cases (result_is_success r)) [
          | inl good ↦ elim usable [
            | inl bad ↦ absurd (cc (sym good ∙ bad))
            | inr (c, has) ↦ compute-Lost env t r c computes good has
          ]
          | inr bad ↦
              let (_, (call, failure)) = failure_committed env t r bad in
              (
                (λ h. absurd (failure_resolves env _ call failure h)),
                (λ (_, good, _, _). absurd (cc (sym bad ∙ good))),
              )
        ])
]

rejected_after :
    (env : Publishing) (t : Task) (r : TaskResult) (m : Commit)
    → ((after_commit env t r m).completed ≡ false) ↔ (m.end ≡ commit_rejected)
unfolding after_commit
rejected_after env t r m = (to m.end refl, (λ h. ground (arith, h)))
  where
    to :
        (e : CommitEnd)
        → m.end ≡ e
        → (after_commit env t r m).completed ≡ false
        → m.end ≡ commit_rejected
    to commit_rejected q h = q
    to (resolved none) q h = absurd (ground (arith, q, h))
    to (resolved (some e)) q h = absurd (ground (arith, q, h))

-- With Ethereum, the promise of an execution for a result that is a failure or has the fields of a
-- computation is rejected exactly if the result is that of a successful computation and its one call
-- of the contract has thrown; Core was asked to take nothing back then, the delta included.
pub publish_result_rejected :
    (env : Publishing) (t : Task) (r : TaskResult)
    → env.has_ethereum ≡ true
    → t.result ≡ some r
    → IsUsable r
    → ((publish_result env t).completed ≡ false)
      ↔ Lost env.committing t r (commit_receipt_of env.committing t)
publish_result_rejected env t r eth result usable =
    let m : Commit = commit_receipt_of env.committing t in
    let (out, back) = rejected_after env t r m in
    let (lost, ended) = commit-Lost env.committing t r result usable in
    subst (λ p. (p.completed ≡ false) ↔ Lost env.committing t r m)
      (sym (published_after env t r eth result)) ((λ h. lost (out h)), (λ l. back (ended l)))
