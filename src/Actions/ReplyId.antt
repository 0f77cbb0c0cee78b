-- ===== src/Actions/ReplyId.antt =====
-- The id of the result that ExecuteTaskAction.js makes of Core's reply.

use enigma_p2p.Base.{String, ◌≡◌, refl, ap, Option, none, some, ◌>>=◌, arith}
use enigma_p2p.Tasks.Result.{
  success, failed, TaskType, deploy_secret_contract, compute_task, failed_task, other_type,
  TaskResult, RawResult, result_task_id, build_compute_result, build_deploy_result,
  build_failed_result,
}
use enigma_p2p.Actions.Execute.{built, built_of, computed_built, build_reply}

-- The id of a result that may be missing.
abbrev id_of : Option TaskResult → Option String
id_of o = o >>= λ r. some (result_task_id r)

compute_id :
    (raw : RawResult) (id : String) (r : TaskResult)
    → raw.task_id ≡ some id
    → build_compute_result raw ≡ some r
    → some (result_task_id r) ≡ some id
unfolding build_compute_result result_task_id
compute_id raw id r named e = ground (arith, named, ap id_of e)

deploy_id :
    (raw : RawResult) (id : String) (r : TaskResult)
    → raw.task_id ≡ some id
    → build_deploy_result raw ≡ some r
    → some (result_task_id r) ≡ some id
unfolding build_deploy_result result_task_id
deploy_id raw id r named e = ground (arith, named, ap id_of e)

failed_id :
    (raw : RawResult) (id : String) (r : TaskResult)
    → raw.task_id ≡ some id
    → build_failed_result raw ≡ some r
    → some (result_task_id r) ≡ some id
unfolding build_failed_result result_task_id
failed_id raw id r named e = ground (arith, named, ap id_of e)

built_of-inv : (o : Option TaskResult) (r : TaskResult) → built_of o ≡ built r → o ≡ some r
built_of-inv none r e = cc
built_of-inv (some r') r e = ground (arith, e)

computed_built-inv :
    (o : Option TaskResult) (r : TaskResult) → computed_built o ≡ built r → o ≡ some r
computed_built-inv none r e = cc
computed_built-inv (some r') r e = ground (arith, e)

-- Whatever id Core gives its result, the result is for the task that was sent.
pub build_reply_id :
    (id : String) (type : TaskType) (o : Option RawResult) (r : TaskResult)
    → build_reply id type o ≡ built r
    → result_task_id r ≡ id
unfolding build_reply
build_reply_id id failed_task (some raw) r e = ground (
  arith,
  failed_id (record raw { task_id = some id; status = some failed }) id r refl (built_of-inv _ r e),
)
build_reply_id id deploy_secret_contract (some raw) r e = ground (
  arith,
  deploy_id (record raw { task_id = some id; status = some success }) id r refl
      (built_of-inv _ r e),
)
build_reply_id id compute_task (some raw) r e = ground (
  arith,
  compute_id (record raw { task_id = some id; status = some success }) id r refl
      (computed_built-inv _ r e),
)
build_reply_id id other_type (some raw) r e = cc e
build_reply_id id failed_task none r e = cc e
build_reply_id id deploy_secret_contract none r e = cc e
build_reply_id id compute_task none r e = cc e
build_reply_id id other_type none r e = cc e
