-- ===== src/Actions/Settled.antt =====
-- What Core and the chain hold after CommitReceiptAction.js.
use enigma_p2p.Base.{
  ◌+◌, ◌≡◌, refl, ap, subst, ◌∙◌, inl, inr, ◌⊎◌, true, false, Option, none, some, List, [], ◌∷◌,
  arith, All, Bool-cases, Option-cases,
}
use enigma_p2p.Tasks.Result.{Computed, TaskResult, has_delta, result_is_success}
use enigma_p2p.Tasks.Task.{Task}
use enigma_p2p.Actions.Commit.{
  ChainCall, Sent, mined, refused_call, CoreRemoval, remove_contract, remove_delta, Committing,
  resolved, Commit, is_deploy_task, computed_of, deploy_call, deploy_sent, delta_bytes,
  revert_state, commit_deploy_task, receipt_call, revert_delta, commit_compute_task,
  commit_receipt_of,
}

-- What a task has changed in Core.
abbrev pub changes : Task → Computed → List CoreRemoval
changes t c = elim (is_deploy_task t.payload) [
  | true ↦ remove_contract t.contract_addr ∷ []
  | false ↦ elim (delta_bytes c) [
    | none ↦ []
    | some (d, b) ↦ remove_delta t.contract_addr d.key (d.key + 1) ∷ []
  ]
]

-- One call was made of the contract. Either it took the result and Core keeps all, or it did not and
-- Core took back what the task had changed.
abbrev pub Settled : Committing → Task → Computed → Commit → Type 0
Settled env t c m =
    (call : ChainCall) × (m.calls ≡ call ∷ [])
    × (((env.call call ≡ mined false) × (m.removed ≡ []))
        ⊎ ((env.call call ≡ mined true)
            × (m.removed ≡ changes t c)
            × All (λ msg. env.remove msg ≡ true) m.removed))

pub Sent-cases : (s : Sent) → (s ≡ mined false) ⊎ (s ≡ mined true) ⊎ (s ≡ refused_call)
Sent-cases (mined false) = inl refl
Sent-cases (mined true) = inr (inl refl)
Sent-cases refused_call = inr (inr refl)

revert_state-none :
    (env : Committing) (msg : CoreRemoval)
    → resolved (revert_state env msg) ≡ resolved none
    → env.remove msg ≡ true
unfolding revert_state
revert_state-none env msg h = ground arith

-- A call that the contract took.
took-Settled :
    (env : Committing) (t : Task) (c : Computed) (call : ChainCall) (m : Commit)
    → env.call call ≡ mined false
    → record { calls = call ∷ []; removed = []; end = resolved none } ≡ m
    → Settled env t c m
took-Settled env t c call m took e = subst (Settled env t c) e (call, refl, inl (took, refl))

-- A call after which Core was asked to take back one change.
reverted-Settled :
    (env : Committing) (t : Task) (c : Computed) (call : ChainCall) (msg : CoreRemoval) (m : Commit)
    → env.call call ≡ mined true
    → msg ∷ [] ≡ changes t c
    → record { calls = call ∷ []; removed = msg ∷ []; end = resolved (revert_state env msg) } ≡ m
    → m.end ≡ resolved none
    → Settled env t c m
reverted-Settled env t c call msg m failed is_change e h =
    let back : env.remove msg ≡ true = revert_state-none env msg (ap (λ x. x.end) e ∙ h) in
    subst (Settled env t c) e (call, refl, inr (failed, is_change, (back, tt)))

deploy_sent-Settled :
    (env : Committing) (t : Task) (c : Computed) (o : Option ChainCall)
    → is_deploy_task t.payload ≡ true
    → (deploy_sent env t o).end ≡ resolved none
    → Settled env t c (deploy_sent env t o)
unfolding deploy_sent
deploy_sent-Settled env t c none deploys h = absurd (ground (arith, h))
deploy_sent-Settled env t c (some call) deploys h = elim (Sent-cases (env.call call)) [
  | inl took ↦ took-Settled env t c call (deploy_sent env t (some call)) took (ground (arith, took))
  | inr (inl failed) ↦
      reverted-Settled env t c call (remove_contract t.contract_addr)
        (deploy_sent env t (some call)) failed (ground (arith, deploys)) (ground (arith, failed)) h
  | inr (inr refused) ↦ absurd (ground (arith, refused, h))
]

commit_deploy-Settled :
    (env : Committing) (t : Task) (r : TaskResult) (c : Computed)
    → is_deploy_task t.payload ≡ true
    → result_is_success r ≡ true
    → computed_of r ≡ some c
    → (commit_deploy_task env t r).end ≡ resolved none
    → Settled env t c (commit_deploy_task env t r)
unfolding commit_deploy_task
commit_deploy-Settled env t r c deploys good has h = elim (Bool-cases (has_delta c)) [
  | inl given ↦
      let e : deploy_sent env t (deploy_call env.hash t r c) ≡ commit_deploy_task env t r =
        ground (arith, good, has, given) in
      subst (Settled env t c) e
        (deploy_sent-Settled env t c (deploy_call env.hash t r c) deploys (ap (λ x. x.end) e ∙ h))
  | inr missing ↦ absurd (ground (arith, good, has, missing, h))
]

revert_delta-Settled :
    (env : Committing) (t : Task) (c : Computed) (call : ChainCall)
    → is_deploy_task t.payload ≡ false
    → env.call call ≡ mined true
    → (revert_delta env t call c).end ≡ resolved none
    → Settled env t c (revert_delta env t call c)
unfolding revert_delta
revert_delta-Settled env t c call computes failed h = elim (Option-cases (delta_bytes c)) [
  | inl missing ↦
      let kept : Commit = record { calls = call ∷ []; removed = []; end = resolved none } in
      let e : kept ≡ revert_delta env t call c = ground (arith, missing) in
      subst (Settled env t c) e (call, refl, inr (failed, ground (arith, computes, missing), tt))
  | inr ((d, b), given) ↦
      reverted-Settled env t c call (remove_delta t.contract_addr d.key (d.key + 1))
        (revert_delta env t call c) failed (ground (arith, computes, given)) (ground (arith, given))
        h
]

commit_compute-Settled :
    (env : Committing) (t : Task) (r : TaskResult) (c : Computed)
    → is_deploy_task t.payload ≡ false
    → result_is_success r ≡ true
    → computed_of r ≡ some c
    → (commit_compute_task env t r).end ≡ resolved none
    → Settled env t c (commit_compute_task env t r)
unfolding commit_compute_task
commit_compute-Settled env t r c computes good has h =
    let call : ChainCall = receipt_call env.hash t c in
    elim (Sent-cases (env.call call)) [
      | inl took ↦
          took-Settled env t c call (commit_compute_task env t r) took
            (ground (arith, good, has, took))
      | inr (inl failed) ↦
          let e : revert_delta env t call c ≡ commit_compute_task env t r =
            ground (arith, good, has, failed) in
          subst (Settled env t c) e
            (revert_delta-Settled env t c call computes failed (ap (λ x. x.end) e ∙ h))
      | inr (inr refused) ↦ absurd (ground (arith, good, has, refused, h))
    ]

-- A commit of a successful result that resolves with no error leaves Core and the chain in
-- agreement: one call was made of the contract, and either the contract took the result and Core
-- keeps what the task changed, or the receipt failed and Core has taken back all of it, the contract
-- of a deployment or the delta, if there is one, of a computation.
pub commit_receipt_of-Settled :
    (env : Committing) (t : Task) (r : TaskResult) (c : Computed)
    → t.result ≡ some r
    → result_is_success r ≡ true
    → computed_of r ≡ some c
    → (commit_receipt_of env t).end ≡ resolved none
    → Settled env t c (commit_receipt_of env t)
unfolding commit_receipt_of
commit_receipt_of-Settled env t r c result good has h =
    elim (Bool-cases (is_deploy_task t.payload)) [
      | inl deploys ↦
          let e : commit_deploy_task env t r ≡ commit_receipt_of env t =
            ground (arith, result, deploys) in
          subst (Settled env t c) e
            (commit_deploy-Settled env t r c deploys good has (ap (λ x. x.end) e ∙ h))
      | inr computes ↦
          let e : commit_compute_task env t r ≡ commit_receipt_of env t =
            ground (arith, result, computes) in
          subst (Settled env t c) e
            (commit_compute-Settled env t r c computes good has (ap (λ x. x.end) e ∙ h))
    ]
