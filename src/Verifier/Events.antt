-- ===== src/Verifier/Events.antt =====
-- What events of the chain do to the listeners of EthereumVerifier.js, and that a task is answered
-- alike by an event and by the contract's record.
use enigma_p2p.Base.{ℕ, String, ◌≡◌, refl, true, false, Option, none, some, List, [], ◌∷◌, arith}
use enigma_p2p.Base.Text.{has_0x}
use enigma_p2p.Base.Dict
use enigma_p2p.Base.Dict.{Dict, get-put, get-put_self}
use enigma_p2p.Tasks.Result.{
  Status, compute_result, Bytes, TaskResult, Computed, deploy_result, failed_result, result_task_id,
}
use enigma_p2p.Tasks.Task.{Task}
use enigma_p2p.Verifier.Check.{
  Verdict, Tip, ContractParams, TaskParams, TaskRecordStatus, verify_task_creation_now,
  verify_task_submission_now, verify_task_create_params, answer,
}
use enigma_p2p.Verifier.Listeners.{
  failure_by_ethereum, SubmissionEvent, Verifier, CreateListener, SubmitListener, created,
  start_creation, answer_creation, on_creation_event, fire_creation, call_create_listener,
  on_submission_event, fire_submission, call_submit_listener, start_submission, answer_submission,
  failure_submission, deployment,
}
use enigma_p2p.Verifier.Chain.{task_fee_returned, parse_creation}

-- The ids of the tasks that wait have no `0x`.
abbrev pub CleanIds : Verifier → Type 0
CleanIds v = (j : String) (l : CreateListener) → Dict.get j v.creates ≡ some l → has_0x j ≡ false

no_listener :
    (v : Verifier) (id : String) → CleanIds v → has_0x id ≡ true → Dict.get id v.creates ≡ none
no_listener v id clean h = go (Dict.get id v.creates) refl
  where
    go : (o : Option CreateListener) → Dict.get id v.creates ≡ o → Dict.get id v.creates ≡ none
    go none e = e
    go (some l) e = cc (clean id l e)

module _ (draw : ℕ → String → ℕ → ℕ) (hash_text : String → String)
    (hash_array : List String → String) where
  -- Where the ids that wait have no `0x`, the chain's event of a cancelled task, whose id has it,
  -- resolves nothing and leaves every listener in place.
  pub cancellation_ignored :
      (v : Verifier) (id : String)
      → CleanIds v
      → has_0x id ≡ true
      → on_creation_event draw hash_text hash_array (parse_creation (task_fee_returned id)) v
        ≡ (v, [])
  unfolding on_creation_event parse_creation fire_creation
  cancellation_ignored v id clean h = rw (no_listener v id clean h) refl

  -- A task that waits is answered by the event of its record exactly as it would be answered by
  -- reading the record: the promise gets the same result, and the listener is gone.
  pub creation_paths_agree :
      (v : Verifier) (ticket : ℕ) (t : Task) (block : ℕ) (worker : String) (p : TaskParams)
      (verdict : Verdict)
      → p.status ≡ TaskRecordStatus.record_created
      → verify_task_create_params hash_text hash_array p.inputs_hash t ≡ some verdict
      → let waiting = start_creation ticket t block worker v in
        let event = created t.task_id (record {
          inputs_hash = p.inputs_hash;
          gas_limit = p.gas_limit;
          block_number = p.block_number;
        }) in
        on_creation_event draw hash_text hash_array event waiting
        ≡ answer_creation draw hash_text hash_array ticket t worker p.gas_limit p.block_number
            (verify_task_creation_now hash_text hash_array (some p) t)
            waiting
  unfolding on_creation_event start_creation fire_creation call_create_listener answer_creation
      verify_task_creation_now
  creation_paths_agree v ticket t block worker p verdict status inputs =
      let l : CreateListener = record {
        block_number = block;
        task = t;
        worker = worker;
        ticket = ticket;
      } in
      ground (arith, get-put_self t.task_id l v.creates)

-- What the contract's records say of a task whose receipt is an event on the chain.
pub data Tells (p : TaskParams) (contract : Option ContractParams)
    : TaskResult → SubmissionEvent → Type 0 where
  tells_failure :
      (r : TaskResult)
      → p.status ≡ TaskRecordStatus.receipt_failed
      → Tells p contract r (failure_submission p.output_hash)
  tells_ethereum :
      (r : TaskResult)
      → p.status ≡ TaskRecordStatus.receipt_failed_eth
      → Tells p contract r failure_by_ethereum
  tells_deployment :
      (id : String) (s : Option Status) (c : Computed) (h delta_hash code_hash : String)
      (rest : List String)
      → p.status ≡ TaskRecordStatus.receipt_verified
      → contract ≡ some (record { code_hash = code_hash; delta_hashes = some (delta_hash ∷ rest) })
      → Tells p contract (deploy_result id s c h) (deployment delta_hash code_hash)

module _ (hash : Bytes → String) where
  same_verdict :
      (p : TaskParams) (contract : Option ContractParams) (r : TaskResult) (e : SubmissionEvent)
      (tip : Option Tip)
      → Tells p contract r e
      → verify_task_submission_now hash (some p) contract r tip
        ≡ answer (call_submit_listener hash r e)
  unfolding verify_task_submission_now call_submit_listener
  same_verdict p contract (compute_result id s c) e tip (tells_failure r st) = ground arith
  same_verdict p contract (deploy_result id s c h) e tip (tells_failure r st) = ground arith
  same_verdict p contract (failed_result id s f) e tip (tells_failure r st) = ground arith
  same_verdict p contract r e tip (tells_ethereum _ st) = ground arith
  same_verdict p contract r e tip (tells_deployment id s c h d k rest st co) =
      ground (arith, st, co)

  -- A result that waits is judged by the event of a failed receipt, of a failure due to Ethereum or
  -- of a deployment exactly as by reading the records that such an event leaves on the chain, with
  -- the same promise resolved and the listener gone.
  pub submission_paths_agree :
      (v : Verifier) (ticket block : ℕ) (p : TaskParams) (contract : Option ContractParams)
      (r : TaskResult) (e : SubmissionEvent) (tip : Option Tip)
      → Tells p contract r e
      → let waiting = start_submission ticket r block v in
        on_submission_event hash (result_task_id r) e waiting
        ≡ answer_submission ticket r
            (verify_task_submission_now hash (some p) contract r tip)
            waiting
  unfolding on_submission_event start_submission fire_submission answer_submission
  submission_paths_agree v ticket block p contract r e tip told =
      let l : SubmitListener = record { block_number = block; result = r; ticket = ticket } in
      rw (same_verdict p contract r e tip told)
        (ground (arith, get-put_self (result_task_id r) l v.submits))
