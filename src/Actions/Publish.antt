-- ===== src/Actions/Publish.antt =====
-- src/worker/controller/actions/tasks/PublishTaskResultAction.js: the result of a finished task is
-- published to the workers, committed to Ethereum, and a new contract is announced.
use enigma_p2p.Base.{
  String, Bool, true, false, Option, none, some, List, [], ◌∷◌, ◌&&◌, if◌then◌else◌,
}
use enigma_p2p.Tasks.Result.{
  TaskType, failed_task, TaskResult, RawResult, result_is_success, result_to_db_json,
}
use enigma_p2p.Tasks.Task.{Task, is_success}
use enigma_p2p.Actions.Commit.{
  Committing, resolved, commit_rejected, Commit, is_deploy_task, commit_receipt_of,
}

-- The message on the topic of results.
pub record Publication : Type 0 where
  pub contract_address : Option String
  pub result : RawResult
  pub type : TaskType

-- A failed announcement is only logged, so `makes_cid` alone decides whether one is made.
pub record Publishing : Type 0 where
  pub has_ethereum : Bool
  pub committing : Committing
  pub makes_cid : Option String → Bool

-- What an execution does; `completed` is false where its promise is rejected.
pub record Published : Type 0 where
  pub published : List Publication
  pub commit : Option Commit
  pub announced : List (Option String)
  pub completed : Bool

unfoldable pub publication : Task → TaskResult → Publication
publication t r = record {
  contract_address = t.contract_addr;
  result = result_to_db_json r;
  type = if is_success t then t.type else failed_task;
}

-- A successful deployment is announced where the commit has given no error.
unfoldable pub announcements : Publishing → Task → TaskResult → List (Option String)
announcements env t r =
    if is_deploy_task t.payload && result_is_success r && env.makes_cid t.contract_addr
    then t.contract_addr ∷ []
    else []

unfoldable pub after_commit : Publishing → Task → TaskResult → Commit → Published
unfolding announcements
after_commit env t r c = elim c.end [
  | commit_rejected ↦ record {
    published = publication t r ∷ [];
    commit = some c;
    announced = [];
    completed = false;
  }
  | resolved (some e) ↦ record {
    published = publication t r ∷ [];
    commit = some c;
    announced = [];
    completed = true;
  }
  | resolved none ↦ record {
    published = publication t r ∷ [];
    commit = some c;
    announced = announcements env t r;
    completed = true;
  }
]

-- `execute`
unfoldable pub publish_result : Publishing → Task → Published
unfolding after_commit announcements
publish_result env t = elim t.result [
  | none ↦ record { published = []; commit = none; announced = []; completed = false }
  | some r ↦
      if env.has_ethereum
      then after_commit env t r (commit_receipt_of env.committing t)
      else record {
        published = publication t r ∷ [];
        commit = none;
        announced = announcements env t r;
        completed = true;
      }
]
