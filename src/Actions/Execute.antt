-- ===== src/Actions/Execute.antt =====
-- The tasks of a worker between the network, the chain, Core and TaskManager.js, in src/worker/
-- controller/actions/tasks: StartTaskExecutionAction.js, VerifyNewTaskAction.js, and
-- ExecuteTaskAction.js from the request to Core on.
use enigma_p2p.Base.{
  ℕ, String, Bool, true, false, not, Option, none, some, List, [], is_some, ◌&&◌, if◌then◌else◌,
}
use enigma_p2p.Base.Dict
use enigma_p2p.Tasks.Result.{
  TaskType, deploy_secret_contract, compute_task, failed_task, other_type, TaskResult, success,
  failed, RawResult, build_compute_result, build_deploy_result, build_failed_result,
}
use enigma_p2p.Tasks.Task.{Task, set_gas_limit, set_block_number}
use enigma_p2p.Tasks.Json.{TaskJson, build_compute_task, build_deploy_task}
use enigma_p2p.Tasks.Level.{Level}
use enigma_p2p.Tasks.Manager.{
  Notice, Reply, Manager, Effect, add_task_unverified, on_verify_task, on_finish_task,
}
use enigma_p2p.Verifier.Listeners.{Creation}

-- The `switch` of StartTaskExecutionAction; the limits are set when the task is verified.
unfoldable pub build_request : TaskType → TaskJson → Option Task
build_request deploy_secret_contract j =
    build_deploy_task
      (record j { gas_limit = some 0; block_number = some 0; task_id = j.contract_address })
build_request compute_task j =
    build_compute_task (record j { gas_limit = some 0; block_number = some 0 })
build_request failed_task j = none
build_request other_type j = none

-- What the verifier's answer means to VerifyNewTaskAction; `none` is an exception on the way.
unfoldable pub is_accepted : Option Creation → Bool
is_accepted none = false
is_accepted (some c) = not (is_some c.verdict.error) && c.verdict.is_verified

unfoldable pub set_limits : Creation → Task → Task
unfolding set_gas_limit set_block_number
set_limits c t = set_block_number c.block_number (set_gas_limit c.gas_limit t)

-- What Core answers to a task; `none` for the whole is an exception of the channel. `has_msg` says
-- that there is a message, of an error of the system.
pub record TaskReply : Type 0 where
  pub has_msg : Bool
  pub type : TaskType
  pub result : Option RawResult

-- The outcome of the `switch` of ExecuteTaskAction.
pub data Built : Type 0 where
  built : TaskResult → Built
  not_built : Built
  build_threw : Built

abbrev pub built_of : Option TaskResult → Built
built_of none = not_built
built_of (some r) = built r

-- A computation's result that cannot be built is `null`, and asking it for its delta throws.
abbrev pub computed_built : Option TaskResult → Built
computed_built none = build_threw
computed_built (some r) = built r

-- The task's id and the status that the type implies are written into the result.
unfoldable pub build_reply : String → TaskType → Option RawResult → Built
unfolding build_failed_result build_deploy_result build_compute_result
build_reply id failed_task (some raw) =
    built_of (build_failed_result (record raw { task_id = some id; status = some failed }))
build_reply id deploy_secret_contract (some raw) =
    built_of (build_deploy_result (record raw { task_id = some id; status = some success }))
build_reply id compute_task (some raw) =
    computed_built (build_compute_result (record raw { task_id = some id; status = some success }))
build_reply id other_type (some raw) = not_built
build_reply id failed_task none = build_threw
build_reply id deploy_secret_contract none = build_threw
build_reply id compute_task none = build_threw
build_reply id other_type none = not_built

module _ (level : Level TaskJson) where
  -- StartTaskExecutionAction
  unfoldable pub start_task :
      (now : ℕ) → TaskType → TaskJson → Manager level → Manager level × List Notice
  start_task now type j m = elim (build_request type j) [
    | none ↦ (m, [])
    | some t ↦ add_task_unverified level now t m
  ]

  -- The task that is verified is the object in the pool, so that a change of it shows there.
  unfoldable pub change_pooled : String → (Task → Task) → Manager level → Manager level
  change_pooled id f m = elim (Dict.get id m.pool) [
    | none ↦ m
    | some e ↦ record m { pool = Dict.put id (record e { task = f e.task }) m.pool }
  ]

  -- VerifyNewTaskAction: the answer is that of `asyncOnVerifyTask`. Without Ethereum each task is
  -- verified.
  unfoldable pub verify_new_task_action :
      (has_ethereum : Bool) → Option Creation → String → Manager level → Effect level (Unit {0})
  verify_new_task_action has_ethereum o id m =
      if has_ethereum
      then (if is_accepted o
          then on_verify_task level id true
              (elim o [ none ↦ m | some c ↦ change_pooled id (set_limits c) m ])
          else on_verify_task level id false m)
      else on_verify_task level id true m

  -- What ExecuteTaskAction does with Core's reply. `finished` is the answer of `asyncOnFinishTask`, if
  -- it is called.
  pub record Executed : Type 0 where
    pub manager : Manager level
    pub finished : Option (Reply (Unit {0}))
    pub threw : Bool
    pub notices : List Notice

  unfoldable pub finish_built : Built → Manager level → Executed
  finish_built not_built m = record { manager = m; finished = none; threw = false; notices = [] }
  finish_built build_threw m = record { manager = m; finished = none; threw = true; notices = [] }
  finish_built (built r) m =
      let (m', reply, notices) = on_finish_task level r m in
      record { manager = m'; finished = some reply; threw = false; notices = notices }

  unfoldable pub execute_reply : Task → Option TaskReply → Manager level → Executed
  unfolding finish_built
  execute_reply t none m = record { manager = m; finished = none; threw = false; notices = [] }
  execute_reply t (some reply) m =
      if reply.has_msg
      then record { manager = m; finished = none; threw = false; notices = [] }
      else finish_built (build_reply t.task_id reply.type reply.result) m
