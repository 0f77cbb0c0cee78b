-- ===== src/Verifier/Listeners.antt =====
-- The listeners of EthereumVerifier.js: the two maps of tasks that wait for an event of the chain,
-- the callbacks of the events, and the timeouts. A promise is named by a ticket; the second part of
-- a step's result lists the promises that the step resolves.
use enigma_p2p.Base.{
  ℕ, ◌+◌, String, Bool, true, false, Option, none, some, List, [], ◌∷◌, ◌++◌, leb, if◌then◌else◌,
}
use enigma_p2p.Base.Dict
use enigma_p2p.Base.Dict.{Dict}
use enigma_p2p.Tasks.Result.{
  Bytes, TaskResult, compute_result, deploy_result, failed_result, result_task_id,
}
use enigma_p2p.Tasks.Task.{Task}
use enigma_p2p.Verifier.Params.{EpochParams, push_params, params_max_size, find_worker_param}
use enigma_p2p.Verifier.Select.{returned, thrown, no_fuel, verify_selected_worker}
use enigma_p2p.Verifier.Check.{
  VerifyError, task_timeout_err, task_cancelled_err, task_failed_err, ethereum_failure_err,
  worker_selection_err, epoch_missing_err, did_not_fail, wrong_event, output_hash_mismatch, Verdict,
  accept, reject, verify_hash, check_deploy_result, check_compute_result_event,
  verify_task_create_params, Now, answer, later, unsettled,
}

-- What a task creation is answered with.
pub record Creation : Type 0 where
  pub verdict : Verdict
  pub gas_limit : Option ℕ
  pub block_number : Option ℕ

abbrev pub refuse : VerifyError → Creation
refuse e = record { verdict = reject e; gas_limit = none; block_number = none }

-- The two kinds of listener: the block for the timeout, what the closure holds, and its promise.
pub record CreateListener : Type 0 where
  pub block_number : ℕ
  pub task : Task
  pub worker : String
  pub ticket : ℕ

pub record SubmitListener : Type 0 where
  pub block_number : ℕ
  pub result : TaskResult
  pub ticket : ℕ

pub record Verifier : Type 0 where
  pub params : List EpochParams
  pub creates : Dict CreateListener
  pub submits : Dict SubmitListener
  pub timeout : ℕ

pub data Resolved : Type 0 where
  creation : ℕ → Creation → Resolved
  submission : ℕ → Verdict → Resolved

-- The events to which listeners are called, by their `type`. `first` is the new epoch's first block.
pub record CreationRecord : Type 0 where
  pub inputs_hash : String
  pub gas_limit : ℕ
  pub block_number : ℕ

pub data CreationEvent : Type 0 where
  created : String → CreationRecord → CreationEvent
  cancelled : String → CreationEvent
  batch : Dict CreationRecord → CreationEvent

pub data SubmissionEvent : Type 0 where
  success_submission : (output_hash delta_hash : String) (delta_index : ℕ) → SubmissionEvent
  failure_submission : (output_hash : String) → SubmissionEvent
  failure_by_ethereum : SubmissionEvent
  deployment : (delta_hash code_hash : String) → SubmissionEvent

-- What a creation listener is called with.
pub data CreationSignal : Type 0 where
  on_epoch on_cancel : CreationSignal
  on_record : CreationRecord → CreationSignal

unfoldable pub resolve_creation : ℕ → Option Creation → List Resolved
resolve_creation ticket none = []
resolve_creation ticket (some c) = creation ticket c ∷ []

-- `verifyTaskCreation`: the listener is set. A later answer of the contract is a step of its own.
unfoldable pub start_creation : ℕ → Task → ℕ → String → Verifier → Verifier
start_creation ticket t block worker v = record v {
  creates =
      Dict.put t.task_id
        (record { block_number = block; task = t; worker = worker; ticket = ticket }) v.creates;
}

-- The loop of `_taskCreationEventCallback` over the ids that wait; it returns at the first match.
unfoldable pub find_batch : List String → Dict CreationRecord → Option (String × CreationRecord)
find_batch [] tasks = none
find_batch (id ∷ ids) tasks = elim (Dict.get id tasks) [
  | some r ↦ some (id, r)
  | none ↦ find_batch ids tasks
]

module _ (draw : ℕ → String → ℕ → ℕ) (hash_text : String → String)
    (hash_array : List String → String) where
  -- The public `verifySelectedWorker`; `none` is a promise that is rejected, by an exception.
  unfoldable pub verify_worker : List EpochParams → Task → Option ℕ → String → Option Verdict
  verify_worker params t block worker = elim (find_worker_param block params) [
    | none ↦ some (reject epoch_missing_err)
    | some p ↦ elim t.contract_addr [
      | none ↦ none
      | some address ↦ elim (verify_selected_worker draw address worker p) [
        | thrown ↦ none
        | no_fuel ↦ none
        | returned ok ↦ some (if ok then accept else reject worker_selection_err)
      ]
    ]
  ]

  -- The end of a verification that the record of the task has passed.
  unfoldable pub after_record : List EpochParams → Task → String → ℕ → ℕ → Option Creation
  after_record params t worker gas block = elim (verify_worker params t (some block) worker) [
    | none ↦ none
    | some v ↦ some (record { verdict = v; gas_limit = some gas; block_number = some block })
  ]

  -- The closure of `_createTaskCreationListener`; `none` where its promise is never resolved.
  unfoldable pub call_create_listener :
      List EpochParams → CreateListener → CreationSignal → Option Creation
  call_create_listener params l on_epoch = some (refuse task_timeout_err)
  call_create_listener params l on_cancel = some (refuse task_cancelled_err)
  call_create_listener params l (on_record r) =
      elim (verify_task_create_params hash_text hash_array r.inputs_hash l.task) [
        | none ↦ none
        | some v ↦
            if v.is_verified
            then after_record params l.task l.worker r.gas_limit r.block_number
            else some (record { verdict = v; gas_limit = none; block_number = none })
      ]

  -- What `verifyTaskCreation` does with the answer of `_verifyTaskCreationNow`, whose parameters hold
  -- `gas` and `block`.
  unfoldable pub answer_creation :
      ℕ → Task → String → (gas block : ℕ) → Now → Verifier → Verifier × List Resolved
  unfolding resolve_creation
  answer_creation ticket t worker gas block later v = (v, [])
  answer_creation ticket t worker gas block unsettled v = (v, [])
  answer_creation ticket t worker gas block (answer verdict) v = (
    record v { creates = Dict.remove t.task_id v.creates },
    resolve_creation ticket (
        if verdict.is_verified
        then after_record v.params t worker gas block
        else some (record { verdict = verdict; gas_limit = none; block_number = none })),
  )

  -- A listener that an event has found: it is deleted, and called.
  unfoldable pub fire_creation :
      String → Option CreateListener → CreationSignal → Verifier → Verifier × List Resolved
  unfolding resolve_creation
  fire_creation id none signal v = (v, [])
  fire_creation id (some l) signal v = (
    record v { creates = Dict.remove id v.creates },
    resolve_creation l.ticket (call_create_listener v.params l signal),
  )

  unfoldable pub on_creation_event : CreationEvent → Verifier → Verifier × List Resolved
  unfolding fire_creation find_batch
  on_creation_event (created id r) v = fire_creation id (Dict.get id v.creates) (on_record r) v
  on_creation_event (cancelled id) v = fire_creation id (Dict.get id v.creates) on_cancel v
  on_creation_event (batch tasks) v = elim (find_batch (Dict.keys v.creates) tasks) [
    | none ↦ (v, [])
    | some (id, r) ↦ fire_creation id (Dict.get id v.creates) (on_record r) v
  ]

module _ (hash : Bytes → String) where
  -- The closure of `_createTaskSubmissionListener`, but for the timeout.
  unfoldable pub call_submit_listener : TaskResult → SubmissionEvent → Verdict
  call_submit_listener r failure_by_ethereum = reject ethereum_failure_err
  call_submit_listener (failed_result id s f) (failure_submission output_hash) =
      if verify_hash hash (some output_hash) f.output then accept else reject output_hash_mismatch
  call_submit_listener (failed_result id s f) e = reject did_not_fail
  call_submit_listener r (failure_submission output_hash) = reject task_failed_err
  call_submit_listener (deploy_result id s c h) (deployment delta_hash code_hash) =
      check_deploy_result hash c (some delta_hash) (some code_hash)
  call_submit_listener (deploy_result id s c h) e = reject wrong_event
  call_submit_listener (compute_result id s c) (success_submission output_hash delta_hash index) =
      check_compute_result_event hash c output_hash delta_hash index
  call_submit_listener (compute_result id s c) e = reject wrong_event

  unfoldable pub fire_submission :
      String → Option SubmitListener → SubmissionEvent → Verifier → Verifier × List Resolved
  unfolding call_submit_listener
  fire_submission id none e v = (v, [])
  fire_submission id (some l) e v = (
    record v { submits = Dict.remove id v.submits },
    submission l.ticket (call_submit_listener l.result e) ∷ [],
  )

  -- `_taskSubmissionEventCallback`, and `_taskDeployedContractEventCallback` where the id is the
  -- contract's address.
  unfoldable pub on_submission_event :
      String → SubmissionEvent → Verifier → Verifier × List Resolved
  unfolding fire_submission
  on_submission_event id e v = fire_submission id (Dict.get id v.submits) e v

-- `verifyTaskSubmission` sets its listener and later takes an answer.
unfoldable pub start_submission : ℕ → TaskResult → ℕ → Verifier → Verifier
start_submission ticket r block v = record v {
  submits =
      Dict.put (result_task_id r) (record { block_number = block; result = r; ticket = ticket })
        v.submits;
}

unfoldable pub answer_submission : ℕ → TaskResult → Now → Verifier → Verifier × List Resolved
answer_submission ticket r later v = (v, [])
answer_submission ticket r unsettled v = (v, [])
answer_submission ticket r (answer verdict) v = (
  record v { submits = Dict.remove (result_task_id r) v.submits },
  submission ticket verdict ∷ [],
)

-- `newEpochEvent.firstBlockNumber - blockNumber >= this._taskTimeoutInBlocks`, over integers.
unfoldable pub is_overdue : (first block timeout : ℕ) → Bool
is_overdue first block timeout = leb (block + timeout) first

-- A loop of `_checkTimeouts` over the ids that its map had at the start: an overdue listener is
-- deleted and called with the new epoch. The two loops differ in the map and in what is resolved.
unfoldable pub sweep :
    {L : Type 0} (block_of : L → ℕ) (resolve : L → Resolved) (first timeout : ℕ)
    → List String
    → Dict L
    → Dict L × List Resolved
sweep block_of resolve first timeout [] m = (m, [])
sweep block_of resolve first timeout (id ∷ ids) m = elim (Dict.get id m) [
  | none ↦ sweep block_of resolve first timeout ids m
  | some l ↦ elim (is_overdue first (block_of l) timeout) [
    | false ↦ sweep block_of resolve first timeout ids m
    | true ↦
        let (m', out) = sweep block_of resolve first timeout ids (Dict.remove id m) in
        (m', resolve l ∷ out)
  ]
]

abbrev pub time_out_create : CreateListener → Resolved
time_out_create l = creation l.ticket (refuse task_timeout_err)

abbrev pub time_out_submit : SubmitListener → Resolved
time_out_submit l = submission l.ticket (reject task_timeout_err)

unfoldable pub check_timeouts : ℕ → Verifier → Verifier × List Resolved
check_timeouts first v =
    let (creates, out) =
      sweep (λ l. l.block_number) time_out_create first v.timeout (Dict.keys v.creates) v.creates in
    let (submits, out') =
      sweep (λ l. l.block_number) time_out_submit first v.timeout (Dict.keys v.submits) v.submits in
    (record v { creates = creates; submits = submits }, out ++ out')

-- `_newEpochEventCallback` for an event with no error. An epoch that is not valid is ignored.
unfoldable pub on_new_epoch : EpochParams → Verifier → Verifier × List Resolved
on_new_epoch e v = elim e.first_block [
  | none ↦ (v, [])
  | some first ↦ check_timeouts first (record v { params = push_params params_max_size v.params e })
]
