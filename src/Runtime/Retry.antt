-- ===== src/Runtime/Retry.antt =====
-- src/common/StoppableTask.js: a task that is executed again until it succeeds, its retries are used
-- up, or a timer stops it.
use enigma_p2p.Base.{
  ℕ, zero, suc, ◌+◌, Bool, true, false, Option, none, some, ◌||◌, leb, ◌==◌, if◌then◌else◌,
}

-- The fields that decide when to stop. `_tryCount` starts at -1: `count` is one more. `_maxRetry` is
-- `none` for `null`.
pub record StoppableTask : Type 0 where
  pub max_retry : Option ℕ
  pub count : ℕ

-- The constructor: an option of 0 is taken for none.
unfoldable pub new_stoppable : Option ℕ → StoppableTask
new_stoppable none = record { max_retry = none; count = 0 }
new_stoppable (some n) = record { max_retry = if n == 0 then none else some n; count = 0 }

-- `_shouldStop`; `stopped` is `_stop`, which the timer sets.
unfoldable pub should_stop : Bool → StoppableTask → Bool
should_stop stopped s = elim s.max_retry [
  | none ↦ stopped
  | some n ↦ stopped || leb (n + 1) s.count
]

-- What the task and the timer do: whether the `k`-th execution succeeds, and whether the timer has
-- fired when it calls `done`.
pub record Course : Type 0 where
  pub succeeds : ℕ → Bool
  pub stopped : ℕ → Bool

-- The call of `onFinish`: its status, and after how many executions it comes.
pub record Finished : Type 0 where
  pub success : Bool
  pub executions : ℕ

-- `_execute` and `done`, from the `k`-th execution on; `none` where the fuel ends first.
unfoldable pub execute_from : (fuel : ℕ) → Course → ℕ → StoppableTask → Option Finished
unfolding should_stop
execute_from zero c k s = none
execute_from (suc fuel) c k s =
    let again = execute_from fuel c (suc k) (record s { count = s.count + 1 }) in
    if c.succeeds k
    then some (record { success = true; executions = suc k })
    else if should_stop (c.stopped k) s
    then some (record { success = false; executions = suc k })
    else again

-- `start`: a count above -1 is set to 0.
unfoldable pub start : (fuel : ℕ) → Course → StoppableTask → Option Finished
unfolding execute_from
start fuel c s = execute_from fuel c 0 (if leb 1 s.count then record s { count = 1 } else s)
