-- ===== src/Actions/StoreResult.antt =====
-- src/worker/controller/actions/tasks/VerifyAndStoreResultAction.js: a result that another worker has
-- published is verified, handed to Core and stored.
use text.Mathlib.Text.{◌==◌ as str_eq}
use enigma_p2p.Base.{
  ℕ, String, Bool, true, false, not, Option, none, some, List, [], ◌∷◌, ◌&&◌, ◌||◌, if◌then◌else◌,
}
use enigma_p2p.Tasks.Result.{
  Bytes, Delta, TaskType, deploy_secret_contract, compute_task, failed_task, other_type, TaskResult,
  compute_result, deploy_result, failed_result, has_delta, is_failed_status, is_success_status,
  set_result_status, RawResult, build_compute_result, build_deploy_result, build_failed_result,
}
use enigma_p2p.Tasks.Task.{Task, build_outside_task}
use enigma_p2p.Verifier.Check.{delta_of, Tip, Verdict, VerifyError, ethereum_failure_err}

-- `_buildTaskResult`: `none` is an error of the type; the result inside is `none` for `null`.
unfoldable pub build_task_result : TaskType → RawResult → Option (Option TaskResult)
build_task_result type raw =
    if is_failed_status raw.status then some (build_failed_result raw) else elim type [
      | deploy_secret_contract ↦ some (build_deploy_result raw)
      | compute_task ↦ some (build_compute_result raw)
      | failed_task ↦ none
      | other_type ↦ none
    ]

-- What Core is asked to store.
pub data CoreUpdate : Type 0 where
  new_contract : (address : String) → Bytes → Option Delta → CoreUpdate
  new_delta : (address : String) → ℕ → Bytes → CoreUpdate

-- `_buildIpcMsg`
unfoldable pub build_ipc_msg : TaskResult → String → Option CoreUpdate
build_ipc_msg (failed_result id s f) address = none
build_ipc_msg (deploy_result id s c h) address = some (new_contract address c.output c.delta)
build_ipc_msg (compute_result id s c) address = elim (delta_of c) [
  | none ↦ none
  | some (key, bytes) ↦ some (new_delta address key bytes)
]

pub data StoreError : Type 0 where
  bad_type core_error announce_error store_error tip_unread verify_threw : StoreError
  refused : VerifyError → StoreError

-- What the action calls: `tips` gives the local tips, or `none` where that fails; `verdict` what
-- `verifyTaskSubmission` resolves with, or `none` where it or the block number fails.
pub record Services : Type 0 where
  pub has_ethereum : Bool
  pub tips : Option (List Tip)
  pub verdict : TaskResult → Option Tip → Option Verdict
  pub update_core : CoreUpdate → Bool
  pub makes_cid : String → Bool
  pub announce : String → Bool
  pub store : Task → Bool

-- The local tip of the contract; `none` is an error.
unfoldable pub read_tip : Option (List Tip) → String → Option Tip
read_tip none address = none
read_tip (some []) address = none
read_tip (some (t ∷ ts)) address =
    if not (str_eq t.address "") && str_eq t.address address then some t else none

-- A compute result with no delta needs the local tip.
unfoldable pub needs_tip : TaskResult → Bool
needs_tip (compute_result id s c) = not (has_delta c)
needs_tip (deploy_result id s c h) = not (has_delta c)
needs_tip (failed_result id s f) = false

-- `{error, isVerified}`
pub record Verified : Type 0 where
  pub error : Option StoreError
  pub is_verified : Bool

unfoldable pub judge : Option Verdict → Verified
judge none = record { error = some verify_threw; is_verified = false }
judge (some v) = elim v.error [
  | some e ↦ record { error = some (refused e); is_verified = false }
  | none ↦ record { error = none; is_verified = v.is_verified }
]

-- `_verifyResult`
unfoldable pub verify_result : Services → TaskResult → String → Verified
verify_result services r address =
    if not services.has_ethereum
    then record { error = none; is_verified = true }
    else if needs_tip r
    then (elim (read_tip services.tips address) [
      | none ↦ record { error = some tip_unread; is_verified = false }
      | some t ↦ judge (services.verdict r (some t))
    ])
    else judge (services.verdict r none)

-- What an execution does, and what the callback gets: an error or none, or nothing at all where an
-- exception leaves the action.
pub data StoreReply : Type 0 where
  replied : Option StoreError → StoreReply
  rejected : StoreReply

pub record Stored : Type 0 where
  pub core : List CoreUpdate
  pub announced : List String
  pub tasks : List Task
  pub reply : StoreReply

unfoldable pub is_ethereum_failure : Option StoreError → Bool
is_ethereum_failure (some (refused ethereum_failure_err)) = true
is_ethereum_failure _ = false

-- The status of the result is set to `FAILED.FAILED_ETHEREUM_CB` of a text, which is `undefined`;
-- `none` is the exception of a task with no result.
unfoldable pub mark_failure : Bool → Task → Option Task
mark_failure failure t =
    if failure
    then elim t.result [
      | none ↦ none
      | some r ↦ some (record t { result = some (set_result_status none r) })
    ]
    else some t

-- The outside task is stored for a verified result and for a failure due to Ethereum.
unfoldable pub store_outside :
    Services
    → TaskType
    → RawResult
    → Verified
    → Option StoreError
    → List CoreUpdate
    → List String
    → Stored
store_outside services type raw v error core announced =
    if v.is_verified || is_ethereum_failure v.error
    then (elim (build_outside_task type raw) [
      | none ↦ record { core = core; announced = announced; tasks = []; reply = replied error }
      | some t ↦ elim (mark_failure (is_ethereum_failure v.error) t) [
        | none ↦ record {
          core = core;
          announced = announced;
          tasks = [];
          reply = replied (some store_error);
        }
        | some marked ↦ record {
          core = core;
          announced = announced;
          tasks = marked ∷ [];
          reply = replied (if services.store marked then error else some store_error);
        }
      ]
    ])
    else record { core = core; announced = announced; tasks = []; reply = replied error }

unfoldable pub is_deployment : TaskType → Bool
is_deployment deploy_secret_contract = true
is_deployment _ = false

-- A successful deployment is announced, if its id makes a CID.
unfoldable pub announce_and_store :
    Services → TaskType → RawResult → String → Verified → List CoreUpdate → Stored
announce_and_store services type raw id v core =
    if is_deployment type && is_success_status raw.status && services.makes_cid id
    then store_outside services type raw v
        (if services.announce id then v.error else some announce_error) core (id ∷ [])
    else store_outside services type raw v v.error core []

unfoldable pub update_and_store :
    Services → TaskType → RawResult → String → TaskResult → String → Verified → Stored
update_and_store services type raw id r address v =
    if v.is_verified
    then (elim (build_ipc_msg r address) [
      | none ↦ store_outside services type raw v v.error [] []
      | some msg ↦
          if services.update_core msg
          then announce_and_store services type raw id v (msg ∷ [])
          else record {
            core = msg ∷ [];
            announced = [];
            tasks = [];
            reply = replied (some core_error);
          }
    ])
    else store_outside services type raw v v.error [] []

-- `execute`; `id` is `resultObj.taskId`. A result that cannot be built is `null`, and asking it for
-- anything throws.
unfoldable pub store_result : Services → TaskType → RawResult → String → String → Stored
store_result services type raw id address = elim (build_task_result type raw) [
  | none ↦ record { core = []; announced = []; tasks = []; reply = replied (some bad_type) }
  | some none ↦ record { core = []; announced = []; tasks = []; reply = rejected }
  | some (some r) ↦
      update_and_store services type raw id r address (verify_result services r address)
]
